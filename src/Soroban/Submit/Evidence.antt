-- ===== src/Soroban/Submit/Evidence.antt =====
-- What the result of the polling in `submitSorobanTx` (sdk/src/soroban.ts) rests on.
use native.Mathlib.Decide.{ℕ_discrete, dec_lt}
use cards.Prelude.{
  subst, ◌∙◌, ℕ, zero, suc, ◌+◌, ◌*◌, ◌≤◌, ◌<◌, ◌≡◌, refl, ◌⊎◌, inl, inr, true, false, some, String,
  arith, ltb,
}
use cards.Errors.{Result, ok, err}
use cards.Soroban.Submit.{
  Ledger, Step, again, returns, throws, poll_round, give_up, poll_tx, poll_deadline_ms,
}
use cards.Soroban.Submit.Rounds.{
  Silent, Settled, Last, StepSays, outcome, poll_round-StepSays, give_up-Last,
}

module _ (l : Ledger) (hash : String) where
  abbrev IsEarly : ℕ → Type 0
  IsEarly i = l.clock i < l.start + poll_deadline_ms

  -- The rounds from one on and before another start in time and say nothing.
  abbrev Waits : ℕ → ℕ → Type 0
  Waits i j = (k : ℕ) → i ≤ k → k < j → IsEarly k × Silent hash (l.transaction k) (l.horizon k)

  -- What the polling from a round on gives: the first round that settles the transaction, in time, or
  -- Horizon's last answer at the first round that is too late.
  pub data Evidence (i : ℕ) : Result String → Type 0 where
    in_time :
        {r : Result String}
        → (j : ℕ) → i ≤ j
        → Waits i j
        → IsEarly j
        → Settled hash (l.transaction j) (l.horizon j) r
        → Evidence i r
    too_late :
        {r : Result String}
        → (j : ℕ) → i ≤ j
        → Waits i j
        → l.start + poll_deadline_ms ≤ l.clock j
        → Last hash l.last_horizon r
        → Evidence i r

  no_wait : (i : ℕ) → Waits i i
  no_wait i k p q = absurd (omega arith)

  wait_first :
      (i j : ℕ)
      → IsEarly i × Silent hash (l.transaction i) (l.horizon i)
      → Waits (i + 1) j
      → Waits i j
  wait_first i j first rest k p q = elim (ℕ_discrete i k) [
    | yes e ↦ subst (λ x. IsEarly x × Silent hash (l.transaction x) (l.horizon x)) e first
    | no n ↦ rest k (omega arith) q
  ]

  Evidence-next :
      (i : ℕ) (r : Result String)
      → IsEarly i × Silent hash (l.transaction i) (l.horizon i)
      → Evidence (i + 1) r
      → Evidence i r
  Evidence-next i r first (in_time j b w e s) = in_time j (omega arith) (wait_first i j first w) e s
  Evidence-next i r first (too_late j b w late last) =
      too_late j (omega arith) (wait_first i j first w) late last

  round_Evidence :
      (i : ℕ) (s : Step)
      → IsEarly i
      → poll_round hash (l.transaction i) (l.horizon i) ≡ s
      → ((s ≡ again) × Silent hash (l.transaction i) (l.horizon i))
        ⊎ ((r : Result String) × (outcome s ≡ some r) × Evidence i r)
  round_Evidence i s early e = of_step s (
      subst (StepSays hash (l.transaction i) (l.horizon i)) e
        (poll_round-StepSays hash (l.transaction i) (l.horizon i)))
    where
      of_step :
          (s : Step)
          → StepSays hash (l.transaction i) (l.horizon i) s
          → ((s ≡ again) × Silent hash (l.transaction i) (l.horizon i))
            ⊎ ((r : Result String) × (outcome s ≡ some r) × Evidence i r)
      of_step again h = inl (refl, h)
      of_step (returns x) h = inr (ok x, refl, in_time i (omega arith) (no_wait i) early h)
      of_step (throws x) h = inr (err x, refl, in_time i (omega arith) (no_wait i) early h)

  poll_tx-late :
      (fuel i : ℕ)
      → l.start + poll_deadline_ms ≤ l.clock i
      → (r : Result String) × (poll_tx l hash (suc fuel) i ≡ some r) × Evidence i r
  unfolding poll_tx
  poll_tx-late fuel i late =
      let b : ltb (l.clock i) (l.start + poll_deadline_ms) ≡ false = ground arith in
      (
        give_up hash l.last_horizon,
        rw (b, poll_tx) refl,
        too_late i (omega arith) (no_wait i) late (give_up-Last hash l.last_horizon),
      )

  poll_tx-early :
      (fuel i : ℕ) (r : Result String) (s : Step)
      → IsEarly i
      → poll_round hash (l.transaction i) (l.horizon i) ≡ s
      → outcome s ≡ some r
      → poll_tx l hash (suc fuel) i ≡ some r
  unfolding poll_tx
  poll_tx-early fuel i r s early e o =
      let b : ltb (l.clock i) (l.start + poll_deadline_ms) ≡ true = ground arith in
      rw (b, e, poll_tx) (ground arith)

  poll_tx-again :
      (fuel i : ℕ)
      → IsEarly i
      → poll_round hash (l.transaction i) (l.horizon i) ≡ again
      → poll_tx l hash (suc fuel) i ≡ poll_tx l hash fuel (i + 1)
  unfolding poll_tx
  poll_tx-again fuel i early e =
      let b : ltb (l.clock i) (l.start + poll_deadline_ms) ≡ true = ground arith in
      rw (b, e, poll_tx) refl

  pub poll_tx-Evidence :
      ((i : ℕ) → l.clock i + 2000 ≤ l.clock (i + 1))
      → (fuel i : ℕ) → l.start + poll_deadline_ms ≤ l.clock i + fuel * 2000
      → (r : Result String) × (poll_tx l hash (suc fuel) i ≡ some r) × Evidence i r
  poll_tx-Evidence tick zero i h = poll_tx-late zero i (omega arith)
  poll_tx-Evidence tick (suc fuel) i h = elim (dec_lt (l.clock i) (l.start + poll_deadline_ms)) [
    | no late ↦ poll_tx-late (suc fuel) i (omega arith)
    | yes early ↦
        elim (round_Evidence i (poll_round hash (l.transaction i) (l.horizon i)) early refl) [
          | inr (r, o, v) ↦ (r, poll_tx-early (suc fuel) i r _ early refl o, v)
          | inl (e, quiet) ↦
              let (r, p, q) = poll_tx-Evidence tick fuel (i + 1) (omega (arith, tick i)) in
              (r, poll_tx-again (suc fuel) i early e ∙ p, Evidence-next i r (early, quiet) q)
        ]
  ]
