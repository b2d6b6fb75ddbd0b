-- ===== src/Client/Poll.antt =====
-- `waitForCardPoll` of sdk/src/client.ts. `get i` is what the call of `getOrder` in round `i` gives,
-- and `now i` is the clock at the test of that round. Each round tests the deadline, gets the order
-- and sleeps; `none` means that the fuel ran out.
use cards.Prelude.{
  ℕ, zero, suc, ◌+◌, ◌*◌, ◌≤◌, ◌<◌, ◌≡◌, refl, sym, subst, inl, inr, true, false, Option, none,
  some, String, arith, ltb, Bool-cases, Option-cases,
}
use cards.Errors.{Error, Result, ok, err, wait_timeout, Result-cases}
use cards.Client.{OrderStatus, CardDetails}
use cards.Client.Settle.{settle}

shift : (i k : ℕ) → i + 1 + k ≡ i + suc k
shift i k = omega arith

module _ (get : ℕ → Result OrderStatus) (now : ℕ → ℕ) (order_id : String)
    (timeout_ms deadline : ℕ) where
  unfoldable pub poll : ℕ → ℕ → Option (Result CardDetails)
  poll zero i = none
  poll (suc fuel) i = elim (ltb (now i) deadline) [
    | false ↦ some (err (wait_timeout order_id timeout_ms))
    | true ↦ elim (get i) [
      | err e ↦ some (err e)
      | ok order ↦ elim (settle order_id order) [ some r ↦ some r | none ↦ poll fuel (i + 1) ]
    ]
  ]

  -- A round before the deadline, whose call gave an order that does not settle.
  pub record Waits (i : ℕ) : Type 0 where
    pub early : now i < deadline
    pub order : OrderStatus
    pub got : get i ≡ ok order
    pub more : settle order_id order ≡ none

  -- What ends the loop, begun with round `i`: after rounds that only wait, the first one that is late,
  -- whose call fails, or whose order settles.
  pub data Ends (i : ℕ) : Result CardDetails → Type 0 where
    timed_out :
        (n : ℕ)
        → ((k : ℕ) → k < n → Waits (i + k))
        → deadline ≤ now (i + n)
        → Ends i (err (wait_timeout order_id timeout_ms))
    call_failed :
        (n : ℕ) (e : Error)
        → ((k : ℕ) → k < n → Waits (i + k))
        → now (i + n) < deadline
        → get (i + n) ≡ err e
        → Ends i (err e)
    settled :
        (n : ℕ) (o : OrderStatus) {r : Result CardDetails}
        → ((k : ℕ) → k < n → Waits (i + k))
        → now (i + n) < deadline
        → get (i + n) ≡ ok o
        → settle order_id o ≡ some r
        → Ends i r

  at_start : (i : ℕ) → i + 0 ≡ i
  at_start i = omega arith

  no_rounds : (i k : ℕ) → k < 0 → Waits (i + k)
  no_rounds i k h = absurd (omega arith)

  -- One more round that waits, before the others.
  one_more :
      (i n : ℕ)
      → Waits i
      → ((k : ℕ) → k < n → Waits (i + 1 + k))
      → (k : ℕ) → k < suc n
      → Waits (i + k)
  one_more i n w h zero l = subst Waits (sym (at_start i)) w
  one_more i n w h (suc k) l = subst Waits (shift i k) (h k (omega arith))

  Ends-one_more : (i : ℕ) (r : Result CardDetails) → Waits i → Ends (i + 1) r → Ends i r
  Ends-one_more i r w (timed_out n h late) =
      timed_out (suc n) (one_more i n w h) (subst (λ j. deadline ≤ now j) (shift i n) late)
  Ends-one_more i r w (call_failed n e h early g) =
      call_failed (suc n) e (one_more i n w h) (subst (λ j. now j < deadline) (shift i n) early)
        (subst (λ j. get j ≡ err e) (shift i n) g)
  Ends-one_more i r w (settled n o h early g q) =
      settled (suc n) o (one_more i n w h) (subst (λ j. now j < deadline) (shift i n) early)
        (subst (λ j. get j ≡ ok o) (shift i n) g) q

  poll_late :
      (fuel i : ℕ)
      → ltb (now i) deadline ≡ false
      → (r : Result CardDetails) × (poll (suc fuel) i ≡ some r) × Ends i r
  unfolding poll
  poll_late fuel i late = (
    err (wait_timeout order_id timeout_ms),
    rw (late, poll) refl,
    timed_out 0 (no_rounds i) (subst (λ j. deadline ≤ now j) (sym (at_start i)) (ground arith)),
  )

  -- The loop ends, in at most one round more than the sleeps that fit before the deadline, where each
  -- round takes at least the interval. The first round that is no mere wait decides: it comes at or
  -- after the deadline, and the result is a timeout; or before it, and its call failed, with that error,
  -- or its order settles, with that card or failure. Every round before it came before the deadline and
  -- was given an order that does not settle.
  pub poll-Ends :
      (interval_ms : ℕ)
      → ((i : ℕ) → now i + interval_ms ≤ now (i + 1))
      → (fuel i : ℕ) → deadline ≤ now i + fuel * interval_ms
      → (r : Result CardDetails) × (poll (suc fuel) i ≡ some r) × Ends i r
  unfolding poll
  poll-Ends interval_ms tick zero i h = poll_late zero i (ground arith)
  poll-Ends interval_ms tick (suc fuel) i h = elim (Bool-cases (ltb (now i) deadline)) [
    | inr late ↦ poll_late (suc fuel) i late
    | inl b ↦
        let early : now i < deadline = ground arith in
        let early0 = subst (λ j. now j < deadline) (sym (at_start i)) early in
        elim (Result-cases (get i)) [
          | inr (e, failed) ↦ (
            err e,
            rw (b, failed, poll) refl,
            call_failed 0 e (no_rounds i) early0
                (subst (λ j. get j ≡ err e) (sym (at_start i)) failed),
          )
          | inl (o, got) ↦ elim (Option-cases (settle order_id o)) [
            | inr (r, done) ↦ (
              r,
              rw (b, got, done, poll) refl,
              settled 0 o (no_rounds i) early0 (subst (λ j. get j ≡ ok o) (sym (at_start i)) got)
                  done,
            )
            | inl more ↦
                let (r, p, q) = poll-Ends interval_ms tick fuel (i + 1) (omega (arith, tick i)) in
                let w : Waits i = record { early = early; order = o; got = got; more = more } in
                (r, rw (b, got, more, poll) p, Ends-one_more i r w q)
          ]
        ]
  ]
