-- ===== src/Soroban/Submit/Failed.antt =====
-- A failure on chain ends the polling of sdk/src/soroban.ts at once.
use Prim.Native.String.{◌++◌}
use cards.Prelude.{ℕ, zero, suc, ◌+◌, ◌≤◌, ◌<◌, ◌≡◌, refl, some, true, String, arith, ltb}
use cards.Errors.{err, error}
use cards.Soroban.Submit.{
  Ledger, failed, not_found, own_prefix, poll_round, poll_tx, poll_deadline_ms,
}
use cards.Soroban.Submit.Rounds.{own_error-is_own}

module _ (l : Ledger) (hash : String) where
  -- If the RPC reports FAILED in a round that starts before the deadline, and knew nothing of the
  -- transaction in the rounds before, the result is the error of that failure. It attaches no hash,
  -- so that no caller waits for a card; in particular the loop's own `catch` does not swallow it.
  pub poll_tx-failed :
      (n i fuel : ℕ)
      → ((j : ℕ)
          → i ≤ j
          → j < i + n
          → (l.transaction j ≡ not_found) × (l.clock j < l.start + poll_deadline_ms))
      → l.transaction (i + n) ≡ failed
      → l.clock (i + n) < l.start + poll_deadline_ms
      → n < fuel
      → poll_tx l hash fuel i ≡ some (err (error (own_prefix hash ++ " failed on-chain")))
  unfolding poll_tx poll_round
  poll_tx-failed n i zero before h early enough = absurd (omega arith)
  poll_tx-failed zero i (suc fuel) before h early enough =
      let e : i + 0 ≡ i = omega arith in
      let h' : l.transaction i ≡ failed = rw e at h in
      let now : l.clock i < l.start + poll_deadline_ms = rw e at early in
      let b : ltb (l.clock i) (l.start + poll_deadline_ms) ≡ true = ground arith in
      rw (b, h', own_error-is_own hash " failed on-chain", poll_tx, poll_round) refl
  poll_tx-failed (suc n) i (suc fuel) before h early enough =
      let (u, v) = before i (omega arith) (omega arith) in
      let b : ltb (l.clock i) (l.start + poll_deadline_ms) ≡ true = ground arith in
      let e : i + suc n ≡ i + 1 + n = omega arith in
      rw (b, u, poll_tx, poll_round)
        (poll_tx-failed n (i + 1) fuel (λ j p q. before j (omega arith) (omega arith)) (rw e at h)
          (rw e at early) (omega arith))
