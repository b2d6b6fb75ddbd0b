-- ===== src/Client/Wait.antt =====
-- `waitForCard` and the head of `waitForCardStream` of sdk/src/client.ts.
use cards.Prelude.{
  ℕ, suc, ◌+◌, ◌-◌, ◌*◌, ◌≤◌, ◌<◌, ◌≡◌, refl, Bool, true, false, not, ◌&&◌, ◌||◌, List, [], Option,
  none, some, String, arith, ◌==◌, ltb, leb, str_eq, length, if◌then◌else◌, Bool-cases, inl, inr,
}
use Prim.Native.String.{◌++◌}
use cards.Prelude.Text.{Text, includes}
use cards.Errors.{
  Error, Result, ok, err, error, plain, insufficient_fee, order_failed, auth, wait_timeout,
  is_cards402, is_order_failed, is_wait_timeout, message, decimal, Result-cases,
}
use cards.Client.{OrderStatus, CardDetails, Request, Fetched}
use cards.Client.OrderId.{validate_order_id}
use cards.Client.Orders.{Client, get_order}
use cards.Client.Poll.{poll, Ends, poll-Ends}
use cards.Client.Stream.{Reader, read_loop, sse_buffer_cap, waiting, drain_all}
use cards.Client.Stream.Chunks.{text_of, read_loop-eq-outcome}

-- What the request for the stream gives: an exception, or a response with its status and, if it has
-- a body, the run of its reader.
pub data Opened : Type 0 where
  open_failed : Error → Opened
  opened : (status : ℕ) → (body : Option Reader) → Opened

-- What the world does during one call: the clock when it starts, when the stream has failed and when
-- polling starts, the clock at the test of each polling round, and the network.
pub record World : Type 0 where
  pub start : ℕ
  pub stream : Opened
  pub caught_at : ℕ
  pub poll_start : ℕ
  pub clock : ℕ → ℕ
  pub fetch : ℕ → ℕ → Request → Fetched OrderStatus

-- `err.name === 'AbortError' || err.message.includes('aborted')`, for what is no `Cards402Error`.
unfoldable pub is_abort : Error → Bool
is_abort (plain name m tx_hash dropped) = str_eq name "AbortError" || includes m "aborted"
is_abort e = includes (message e) "aborted"

untyped-is_cards402 :
    (e : Error)
    → (is_order_failed e || is_wait_timeout e || is_cards402 e) ≡ false
    → is_cards402 e ≡ false
untyped-is_cards402 e h = ground arith

typed-is_cards402 :
    (e : Error)
    → (is_order_failed e || is_wait_timeout e || is_cards402 e) ≡ true
    → is_cards402 e ≡ true
unfolding is_order_failed is_wait_timeout is_cards402
typed-is_cards402 (insufficient_fee fee) h = cc
typed-is_cards402 (plain name m tx_hash dropped) h = cc
typed-is_cards402 _ h = refl

module _ (c : Client) (random : ℕ → ℕ → ℕ) (parse_order : Text → Option OrderStatus)
    (order_id : String) (timeout_ms : ℕ) where
  unfoldable pub wait_for_card_stream : Opened → Result CardDetails
  wait_for_card_stream (open_failed e) = err e
  wait_for_card_stream (opened status body) =
      if not (leb 200 status && ltb status 300)
      then if status == 404
        then err (order_failed order_id "order_not_found" none)
        else if status == 401
        then err auth
        else err (error ("stream http " ++ decimal status))
      else elim body [
        | none ↦ err (error "stream has no body")
        | some r ↦ read_loop parse_order order_id timeout_ms [] r.chunks r.ending
      ]

  -- The polling that takes over, with the time that is left.
  unfoldable pub poll_remaining : ℕ → World → Option (Result CardDetails)
  poll_remaining fuel w =
      let remaining_ms = w.start + timeout_ms - w.caught_at in
      poll (λ i. get_order c random (w.fetch i) order_id) w.clock order_id remaining_ms
        (w.poll_start + remaining_ms) fuel 0

  -- The `catch` of `waitForCard`.
  unfoldable pub recover : ℕ → World → Error → Option (Result CardDetails)
  recover fuel w e =
      if is_order_failed e || is_wait_timeout e || is_cards402 e
      then some (err e)
      else if is_abort e
      then some (err (wait_timeout order_id timeout_ms))
      else if w.start + timeout_ms - w.caught_at == 0
      then some (err (wait_timeout order_id timeout_ms))
      else poll_remaining fuel w

  -- `none` means that the fuel of the polling loop ran out.
  unfoldable pub wait_for_card : ℕ → World → Option (Result CardDetails)
  wait_for_card fuel w = elim (validate_order_id order_id) [
    | err e ↦ some (err e)
    | ok u ↦ elim (wait_for_card_stream w.stream) [
      | ok card ↦ some (ok card)
      | err e ↦ recover fuel w e
    ]
  ]

  -- Why a call gives what it gives.
  pub data Cause (w : World) : Result CardDetails → Type 0 where
    invalid_id : {e : Error} → validate_order_id order_id ≡ err e → Cause w (err e)
    streamed : {card : CardDetails} → wait_for_card_stream w.stream ≡ ok card → Cause w (ok card)
    reported :
        {e : Error} → wait_for_card_stream w.stream ≡ err e → is_cards402 e ≡ true → Cause w (err e)
    aborted :
        {e : Error}
        → wait_for_card_stream w.stream ≡ err e
        → is_cards402 e ≡ false
        → is_abort e ≡ true
        → Cause w (err (wait_timeout order_id timeout_ms))
    too_late :
        {e : Error}
        → wait_for_card_stream w.stream ≡ err e
        → is_cards402 e ≡ false
        → w.start + timeout_ms ≤ w.caught_at
        → Cause w (err (wait_timeout order_id timeout_ms))
    polled :
        {e : Error} {r : Result CardDetails}
        → wait_for_card_stream w.stream ≡ err e
        → is_cards402 e ≡ false
        → is_abort e ≡ false
        → w.caught_at < w.start + timeout_ms
        → Ends
            (λ i. get_order c random (w.fetch i) order_id)
            w.clock
            order_id
            (w.start + timeout_ms - w.caught_at)
            (w.poll_start + (w.start + timeout_ms - w.caught_at))
            0
            r
        → Cause w r

  -- The clock does not run backwards, and a polling round takes at least the interval.
  pub record Ticks (interval_ms : ℕ) (w : World) : Type 0 where
    pub caught : w.start ≤ w.caught_at
    pub polling : w.poll_start ≤ w.clock 0
    pub rounds : (i : ℕ) → w.clock i + interval_ms ≤ w.clock (i + 1)

  recover-Cause :
      (interval_ms fuel : ℕ) (w : World) (e : Error)
      → Ticks interval_ms w
      → timeout_ms ≤ fuel * interval_ms
      → wait_for_card_stream w.stream ≡ err e
      → (r : Result CardDetails) × (recover (suc fuel) w e ≡ some r) × Cause w r
  unfolding recover poll_remaining
  recover-Cause interval_ms fuel w e t enough s =
      elim (Bool-cases (is_order_failed e || is_wait_timeout e || is_cards402 e)) [
        | inl typed ↦ (err e, rw (typed, recover) refl, reported s (typed-is_cards402 e typed))
        | inr untyped ↦ elim (Bool-cases (is_abort e)) [
          | inl a ↦ (
            err (wait_timeout order_id timeout_ms),
            rw (untyped, a, recover) refl,
            aborted s (untyped-is_cards402 e untyped) a,
          )
          | inr n ↦ elim (Bool-cases (w.start + timeout_ms - w.caught_at == 0)) [
            | inl late ↦ (
              err (wait_timeout order_id timeout_ms),
              rw (untyped, n, late, recover) refl,
              too_late s (untyped-is_cards402 e untyped) (ground arith),
            )
            | inr early ↦
                let (r, p, q) =
                  poll-Ends (λ i. get_order c random (w.fetch i) order_id) w.clock order_id
                    (w.start + timeout_ms - w.caught_at)
                    (w.poll_start + (w.start + timeout_ms - w.caught_at)) interval_ms t.rounds fuel
                    0 (omega (arith, t.caught, t.polling, enough)) in
                (
                  r,
                  rw (untyped, n, early, recover) p,
                  polled s (untyped-is_cards402 e untyped) n (ground arith) q,
                )
          ]
        ]
      ]

  -- `waitForCard` ends, with fuel for the polling rounds that fit in the timeout and where the clock
  -- does not run backwards and a round takes the interval at least. A card of the stream is the result,
  -- and so is a typed error of the stream. An abort is a timeout. Any other failure of the stream falls
  -- back to polling, for the time that is left and no longer, and without time left is a timeout. The
  -- polling is decided by its first round that comes after the deadline, whose call fails or whose order
  -- settles; in the rounds before it, from the first on, the order was asked for and did not settle.
  pub wait_for_card-Cause :
      (interval_ms fuel : ℕ) (w : World)
      → Ticks interval_ms w
      → timeout_ms ≤ fuel * interval_ms
      → (r : Result CardDetails) × (wait_for_card (suc fuel) w ≡ some r) × Cause w r
  unfolding wait_for_card
  wait_for_card-Cause interval_ms fuel w t enough =
      elim (Result-cases (validate_order_id order_id)) [
        | inr (e, bad) ↦ (err e, rw (bad, wait_for_card) refl, invalid_id bad)
        | inl (u, good) ↦ elim (Result-cases (wait_for_card_stream w.stream)) [
          | inl (card, s) ↦ (ok card, rw (good, s, wait_for_card) refl, streamed s)
          | inr (e, s) ↦
              let (r, p, q) = recover-Cause interval_ms fuel w e t enough s in
              (r, rw (good, s, wait_for_card) p, q)
        ]
      ]

  -- A stream that the backend or a proxy closes before an event settles the order, and whose text
  -- fits in the buffer, is a timeout at once, whatever the clock says: polling does not take over.
  pub wait_for_card-closed_stream :
      (fuel : ℕ) (w : World) (status : ℕ) (chunks : List Text) (rest : Text)
      → validate_order_id order_id ≡ ok tt
      → w.stream ≡ opened status (some (record { chunks = chunks; ending = none }))
      → (leb 200 status && ltb status 300) ≡ true
      → length (text_of chunks) ≤ sse_buffer_cap
      → drain_all parse_order order_id (text_of chunks) ≡ waiting rest
      → wait_for_card fuel w ≡ some (err (wait_timeout order_id timeout_ms))
  unfolding wait_for_card wait_for_card_stream recover is_wait_timeout is_cards402 is_order_failed
  wait_for_card-closed_stream fuel w status chunks rest good s okay fits d =
      rw
        (
          good,
          s,
          okay,
          read_loop-eq-outcome parse_order order_id timeout_ms none chunks fits,
          d,
          wait_for_card,
          wait_for_card_stream,
        )
        refl
