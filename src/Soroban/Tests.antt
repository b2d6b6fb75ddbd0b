-- ===== src/Soroban/Tests.antt =====
-- Submissions, and the theorems at them.
use Prim.Native.String.{◌++◌}
use cards.Prelude.{ℕ, zero, suc, ◌+◌, ◌*◌, ◌≤◌, ◌<◌, ◌≡◌, refl, some, String, arith}
use cards.Errors.{Result, err, error, message}
use cards.Soroban.Submit.{
  SendReply, try_again_later, pending, TxReply, failed, not_found, other_status, Ledger, try_send,
  catch_send, send_from, poll_round, poll_tx, submit_soroban_tx, own_prefix, ask_horizon,
  catch_poll, poll_deadline_ms, is_own, is_structured, ask_horizon_last, give_up, dropped_error,
}
use cards.Soroban.Submit.Send.{SubmitEvidence, submit_soroban_tx-SubmitEvidence}

-- The network is congested once, and the transaction fails in the third round.
abbrev congested_once : ℕ → SendReply
congested_once zero = try_again_later
congested_once (suc n) = pending "h"

abbrev fails_third : ℕ → TxReply
fails_third (suc (suc zero)) = failed
fails_third n = not_found

abbrev ledger : Ledger
ledger = record {
  send = congested_once;
  start = 0;
  clock = λ i. i * 2000;
  transaction = fails_third;
  horizon = λ i. other_status 404;
  last_horizon = other_status 404;
}

failed_on_chain :
    submit_soroban_tx ledger ≡ some (err (error (own_prefix "h" ++ " failed on-chain")))
unfolding submit_soroban_tx send_from try_send catch_send poll_tx poll_round ask_horizon catch_poll
    is_own is_structured message
failed_on_chain = refl

-- Where nothing is found at all the transaction counts as dropped.
abbrev lost : Ledger
lost = record ledger { transaction = λ i. not_found }

lost_is_dropped : submit_soroban_tx lost ≡ some (err (dropped_error "h"))
unfolding submit_soroban_tx send_from try_send catch_send poll_tx poll_round ask_horizon catch_poll
    is_own is_structured message give_up ask_horizon_last
lost_is_dropped = refl

tick : (i : ℕ) → lost.clock i + 2000 ≤ lost.clock (i + 1)
tick i = omega arith

submit_soroban_tx-SubmitEvidence_example :
    (r : Result String) × (submit_soroban_tx lost ≡ some r) × SubmitEvidence lost r
submit_soroban_tx-SubmitEvidence_example = submit_soroban_tx-SubmitEvidence lost (omega arith) tick

unknown_before :
    (j : ℕ)
    → 0 ≤ j
    → j < 0 + 2
    → (ledger.transaction j ≡ not_found) × (ledger.clock j < ledger.start + poll_deadline_ms)
unknown_before zero a b = (refl, omega arith)
unknown_before (suc zero) a b = (refl, omega arith)
unknown_before (suc (suc j)) a b = absurd (omega arith)
