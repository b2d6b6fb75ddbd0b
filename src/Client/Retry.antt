-- ===== src/Client/Retry.antt =====
-- `shouldRetry` and `fetchWithRetry` of sdk/src/client.ts. The network is an oracle: `fetch i` is
-- what the call of round `i` gives. `random i delay` is `Math.floor(Math.random() * delay)`.
use cards.Prelude.{
  ℕ, zero, suc, ◌+◌, ◌*◌, ◌^◌, ◌≤◌, ◌<◌, min, ◌≡◌, refl, ◌⊎◌, inl, inr, Bool, true, false, not,
  ◌||◌, List, [], ◌∷◌, arith, ◌==◌, length, All, if◌then◌else◌, Bool-cases,
}
use native.Mathlib.Decide.{ℕ_discrete}
use cards.Client.{Request, Fetched, response, threw, is_ok}

pub record Policy : Type 0 where
  pub attempts : ℕ
  pub base_delay_ms : ℕ
  pub max_delay_ms : ℕ

unfoldable pub should_retry : ℕ → Bool
should_retry status =
    status == 429 || status == 503 || status == 504 || status == 502 || status == 0

-- A round that returns before the last one.
unfoldable pub settles : {A : Type 0} → Fetched A → Bool
unfolding should_retry
settles (response res) = is_ok res || not (should_retry res.status)
settles (threw e) = false

-- What a call of `fetchWithRetry` gives, the requests that it sent, and how long it slept.
pub record Trace (A : Type 0) : Type 0 where
  pub result : Fetched A
  pub sent : List Request
  pub slept : List ℕ

module _ {A : Type 0} (fetch : ℕ → Request → Fetched A) (random : ℕ → ℕ → ℕ) (policy : Policy)
    (request : Request) where
  abbrev pub delay : ℕ → ℕ
  delay i = min (policy.base_delay_ms * 2 ^ i) policy.max_delay_ms

  -- Round `i`, with `left` rounds after it.
  retry_from : (left i : ℕ) → Trace A
  retry_from zero i = record { result = fetch i request; sent = request ∷ []; slept = [] }
  retry_from (suc left) i =
      let reply = fetch i request in
      let rest = retry_from left (i + 1) in
      if settles reply then record { result = reply; sent = request ∷ []; slept = [] } else record {
        result = rest.result;
        sent = request ∷ rest.sent;
        slept = random i (delay i) ∷ rest.slept;
      }

  unfoldable pub fetch_with_retry : Trace A
  unfolding retry_from settles
  fetch_with_retry = retry_from policy.attempts 0

  -- A run that starts in round `i` and stops in round `stop`, with `left` rounds allowed after `i`.
  pub record StopsAt (left i stop : ℕ) (t : Trace A) : Type 0 where
    pub after : i ≤ stop
    pub in_time : stop ≤ i + left
    pub result : t.result ≡ fetch stop request
    pub unsettled : (j : ℕ) → i ≤ j → j < stop → settles (fetch j request) ≡ false
    pub last : (settles (fetch stop request) ≡ true) ⊎ (stop ≡ i + left)
    pub calls : length t.sent + i ≡ stop + 1
    pub same_request : All (λ r. r ≡ request) t.sent
    pub sleeps : length t.slept + i ≡ stop
    pub short : All (λ ms. ms ≤ policy.max_delay_ms) t.slept

  retry_from-StopsAt :
      ((i d : ℕ) → random i d ≤ d)
      → (left i : ℕ) → (stop : ℕ) × StopsAt left i stop (retry_from left i)
  unfolding retry_from
  retry_from-StopsAt h zero i = (
    i,
    record {
      after = omega arith;
      in_time = omega arith;
      result = refl;
      unsettled = λ j p q. absurd (omega arith);
      last = inr (omega arith);
      calls = omega arith;
      same_request = (refl, tt);
      sleeps = omega arith;
      short = tt;
    },
  )
  retry_from-StopsAt h (suc left) i = elim (Bool-cases (settles (fetch i request))) [
    | inl e ↦ (
      i,
      rw e (record {
        after = omega arith;
        in_time = omega arith;
        result = refl;
        unsettled = λ j p q. absurd (omega arith);
        last = inl e;
        calls = omega arith;
        same_request = (refl, tt);
        sleeps = omega arith;
        short = tt;
      }),
    )
    | inr e ↦
        let (stop, t) = retry_from-StopsAt h left (i + 1) in
        (
          stop,
          rw e (record {
            after = omega (arith, t.after);
            in_time = omega (arith, t.in_time);
            result = t.result;
            unsettled = λ j p q. elim (ℕ_discrete j i) [
              | yes same ↦ rw same e
              | no other ↦ t.unsettled j (omega arith) q
            ];
            last = elim t.last [ inl s ↦ inl s | inr s ↦ inr (omega arith) ];
            calls = omega (arith, t.calls);
            same_request = (refl, t.same_request);
            sleeps = omega (arith, t.sleeps);
            short = (omega (arith, h i (delay i)), t.short);
          }),
        )
  ]

  -- A call sends its request, unchanged, at most `attempts` + 1 times. It stops at the first reply
  -- that is a success or an error that is not transient, and gives that one; where no round up to
  -- the last gives such a reply, it gives what the last round gave, an exception included. It sleeps
  -- once between two rounds, never longer than the cap, where the jitter is within its range.
  pub fetch_with_retry-StopsAt :
      ((i d : ℕ) → random i d ≤ d) → (stop : ℕ) × StopsAt policy.attempts 0 stop fetch_with_retry
  unfolding fetch_with_retry
  fetch_with_retry-StopsAt h = retry_from-StopsAt h policy.attempts 0
