-- ===== src/Webhooks/Breaker.antt =====
-- The circuit breaker of backend/src/fulfillment.js over the deliveries to one origin.
use cards.Prelude.{
  ℕ, ◌+◌, ◌≤◌, ◌<◌, ◌≡◌, true, List, [], ◌∷◌, ◌++◌, Option, none, some, leb, length, arith,
  Bool-cases, inl, inr,
}
use cards.Webhooks.{
  Circuit, circuit_is_open, recent, cb_cooldown_ms, cb_threshold, record_circuit_failure,
  record_circuit_success, trip,
}

-- A delivery to the origin that ended, at a time.
pub data Delivery : Type 0 where
  failed_at succeeded_at : ℕ → Delivery

abbrev pub time_of : Delivery → ℕ
time_of (failed_at t) = t
time_of (succeeded_at t) = t

abbrev after_delivery : Delivery → Option Circuit → Option Circuit
after_delivery (failed_at t) c = record_circuit_failure c t
after_delivery (succeeded_at t) c = record_circuit_success c t

abbrev pub after_deliveries : List Delivery → Option Circuit → Option Circuit
after_deliveries [] c = c
after_deliveries (d ∷ ds) c = after_deliveries ds (after_delivery d c)

-- The deliveries ended one after another, from `t` on and by `u`.
abbrev pub InOrder : ℕ → List Delivery → ℕ → Type 0
InOrder t [] u = t ≤ u
InOrder t (d ∷ ds) u = (t ≤ time_of d) × InOrder (time_of d) ds u

abbrev pub until : Option Circuit → ℕ
until none = 0
until (some s) = s.opened_until

InOrder-le : (t : ℕ) (ds : List Delivery) (u : ℕ) → InOrder t ds u → t ≤ u
InOrder-le t [] u h = h
InOrder-le t (d ∷ ds) u h = ground (arith, InOrder-le (time_of d) ds u h.1)

open-until : (c : Option Circuit) (u : ℕ) → circuit_is_open c u ≡ true → u < until c
open-until c u h = ground arith

until-open : (c : Option Circuit) (u : ℕ) → u < until c → circuit_is_open c u ≡ true
until-open c u h = ground arith

-- A delivery neither shortens a cooldown that goes on past `u`, nor makes one longer than its length.
record Keeps (c e : Option Circuit) (now u : ℕ) : Type 0 where
  open_still : u < until c → u < until e
  capped : until e ≤ now + cb_cooldown_ms

trip-Keeps :
    (s : Circuit) (fs : List ℕ) (now u : ℕ)
    → now ≤ u
    → s.opened_until ≤ now + cb_cooldown_ms
    → Keeps (some s) (some (trip now fs s.opened_until)) now u
trip-Keeps s fs now u l h = elim (Bool-cases (leb cb_threshold (length fs))) [
  | inl b ↦ rw (b, trip) (record { open_still = λ k. omega arith; capped = omega arith })
  | inr b ↦ rw (b, trip) (record { open_still = λ k. k; capped = h })
]

delivery-Keeps :
    (d : Delivery) (c : Option Circuit) (u : ℕ)
    → time_of d ≤ u
    → until c ≤ time_of d + cb_cooldown_ms
    → Keeps c (after_delivery d c) (time_of d) u
unfolding record_circuit_failure record_circuit_success
delivery-Keeps (failed_at t) none u l h =
    let k = trip-Keeps (record { failures = []; opened_until = 0 }) (t ∷ []) t u l (omega arith) in
    record { open_still = λ x. k.open_still x; capped = k.capped }
delivery-Keeps (failed_at t) (some s) u l h = trip-Keeps s (recent t s.failures ++ t ∷ []) t u l h
delivery-Keeps (succeeded_at t) none u l h = record { open_still = λ x. x; capped = omega arith }
delivery-Keeps (succeeded_at t) (some s) u l h = record {
  open_still = λ x. ground arith;
  capped = ground arith;
}

-- While a circuit's cooldown lasts, nothing closes it: after any deliveries that end in order by the
-- time `u`, failed or not (those that were under way when it opened, say), it is open at `u` if it was
-- to be open at `u` before them.
pub after_deliveries-open :
    (ds : List Delivery) (c : Option Circuit) (t u : ℕ)
    → InOrder t ds u
    → until c ≤ t + cb_cooldown_ms
    → circuit_is_open c u ≡ true
    → circuit_is_open (after_deliveries ds c) u ≡ true
after_deliveries-open [] c t u o h i = i
after_deliveries-open (d ∷ ds) c t u o h i =
    let k = delivery-Keeps d c u (InOrder-le (time_of d) ds u o.1) (omega arith) in
    after_deliveries-open ds (after_delivery d c) (time_of d) u o.1 k.capped
      (until-open (after_delivery d c) u (k.open_still (open-until c u i)))
