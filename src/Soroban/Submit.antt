-- ===== src/Soroban/Submit.antt =====
-- `submitSorobanTx` of sdk/src/soroban.ts. What the RPC server, Horizon and the clock do is an oracle;
-- an exception of theirs is its message. `none` as a result means that the polling rounds ran out.
pub mod Send
pub mod Rounds
pub mod Evidence
pub mod Failed
use Prim.Native.String.{◌++◌}
use cards.Prelude.{
  ℕ, zero, suc, ◌+◌, ◌*◌, Bool, true, false, ◌||◌, Option, none, some, String, ◌==◌, ltb,
  if◌then◌else◌,
}
use cards.Prelude.Text.{includes}
use cards.Errors.{
  Error, Result, ok, err, error, plain, insufficient_fee, is_insufficient_fee, message,
}
use text.Mathlib.Text.{starts_with}

-- What `sendTransaction` gives: a status with the hash, or an exception. `rejected` is the status
-- ERROR, with the fee where the result says `txInsufficientFee`, and the result as JSON.
pub data SendReply : Type 0 where
  try_again_later : SendReply
  rejected : (fee : Option String) → (json : String) → SendReply
  pending duplicate : (hash : String) → SendReply
  send_threw : (message : String) → SendReply

-- What `getTransaction` gives.
pub data TxReply : Type 0 where
  success failed not_found : TxReply
  poll_threw : (message : String) → TxReply

-- What Horizon gives for the transaction: the record with its field `successful`, another status, or
-- an exception of `fetch` or `json`.
pub data HorizonReply : Type 0 where
  recorded : (successful : Bool) → HorizonReply
  other_status : ℕ → HorizonReply
  horizon_threw : (message : String) → HorizonReply

-- `clock i` is the time at the test of polling round `i`.
pub record Ledger : Type 0 where
  pub send : ℕ → SendReply
  pub start : ℕ
  pub clock : ℕ → ℕ
  pub transaction : ℕ → TxReply
  pub horizon : ℕ → HorizonReply
  pub last_horizon : HorizonReply

-- One round of a `try` block: go on, return, or throw.
pub data Step : Type 0 where
  again : Step
  returns : String → Step
  throws : Error → Step

-- The errors that the loop throws itself, told by how their messages begin.
unfoldable pub is_structured : Error → Bool
is_structured e =
    is_insufficient_fee e
    || starts_with (message e) "Soroban network congested"
    || starts_with (message e) "Soroban sendTransaction error"

-- The body of the sending loop's `try`; `left` attempts follow.
unfoldable pub try_send : (left : ℕ) → SendReply → Step
try_send zero try_again_later = throws (
    error
      "Soroban network congested — sendTransaction returned TRY_AGAIN_LATER after 5 attempts. Retry the purchase in a minute.")
try_send (suc left) try_again_later = again
try_send left (rejected (some fee) json) = throws (insufficient_fee fee)
try_send left (rejected none json) = throws (error ("Soroban sendTransaction error: " ++ json))
try_send left (pending hash) = returns hash
try_send left (duplicate hash) = returns hash
try_send left (send_threw m) = throws (error m)

-- The `catch` of the sending loop.
unfoldable pub catch_send : (left : ℕ) → Step → Step
catch_send left again = again
catch_send left (returns hash) = returns hash
catch_send zero (throws e) =
    if is_structured e
    then throws e
    else throws (error ("Soroban sendTransaction failed after 5 attempts: " ++ message e))
catch_send (suc left) (throws e) = if is_structured e then throws e else again

-- Five attempts: attempt `i`, with `left` after it. The last one never goes on.
unfoldable pub send_from : (ℕ → SendReply) → (left i : ℕ) → Result String
unfolding try_send catch_send
send_from send zero i = elim (catch_send zero (try_send zero (send i))) [
  | again ↦ err (error "Soroban sendTransaction produced no result: unknown error")
  | returns hash ↦ ok hash
  | throws e ↦ err e
]
send_from send (suc left) i = elim (catch_send (suc left) (try_send (suc left) (send i))) [
  | again ↦ send_from send left (i + 1)
  | returns hash ↦ ok hash
  | throws e ↦ err e
]

-- How the messages of the loop's own errors begin.
abbrev pub own_prefix : String → String
own_prefix hash = "Soroban transaction " ++ hash

-- `err.message.startsWith('Soroban transaction ' + hash)`.
unfoldable pub is_own : String → Error → Bool
is_own hash e = starts_with (message e) (own_prefix hash)

-- The inner `try` around Horizon: what it throws itself leaves the inner `catch`, all else does not.
unfoldable pub ask_horizon : String → (failure : String) → HorizonReply → Step
ask_horizon hash failure (recorded true) = returns hash
ask_horizon hash failure (recorded false) =
    let e = error (own_prefix hash ++ failure) in if is_own hash e then throws e else again
ask_horizon hash failure (other_status status) = again
ask_horizon hash failure (horizon_threw m) =
    if is_own hash (error m) then throws (error m) else again

-- The `catch` of the polling loop, in a round where Horizon would give `reply`.
unfoldable pub catch_poll : String → HorizonReply → Error → Step
catch_poll hash reply e =
    if is_own hash e
    then throws e
    else if includes (message e) "Bad union switch"
    then ask_horizon hash " failed on-chain (Horizon)" reply
    else again

-- One round of the polling loop.
unfoldable pub poll_round : String → TxReply → HorizonReply → Step
unfolding catch_poll ask_horizon
poll_round hash success reply = returns hash
poll_round hash failed reply = catch_poll hash reply (error (own_prefix hash ++ " failed on-chain"))
poll_round hash not_found reply = again
poll_round hash (poll_threw m) reply = catch_poll hash reply (error m)

-- `droppedErr`, with the two properties that are set on it.
abbrev pub dropped_error : String → Error
dropped_error hash =
    plain "Error"
      (own_prefix hash
        ++ " was accepted by the RPC but never applied on the ledger within 120s — the network rejected it pre-apply. Retry the purchase.")
      (some hash) true

-- The last error, with its `txHash`.
abbrev pub unfinalized_error : String → Error
unfinalized_error hash =
    plain "Error" (own_prefix hash ++ " did not finalize within 120s and Horizon is unreachable")
      (some hash) false

-- The `try` and `catch` after the deadline.
unfoldable pub ask_horizon_last : String → HorizonReply → Step
ask_horizon_last hash (other_status status) =
    if status == 404
    then (if is_own hash (dropped_error hash) then throws (dropped_error hash) else again)
    else again
ask_horizon_last hash reply =
    ask_horizon hash " applied on-chain but failed — no card will be credited. Retry the purchase."
      reply

unfoldable pub give_up : String → HorizonReply → Result String
unfolding ask_horizon_last ask_horizon
give_up hash reply = elim (ask_horizon_last hash reply) [
  | again ↦ err (unfinalized_error hash)
  | returns h ↦ ok h
  | throws e ↦ err e
]

abbrev pub poll_deadline_ms : ℕ
poll_deadline_ms = 120_000

-- Polling round `i`, with fuel for the rounds that follow.
unfoldable pub poll_tx : Ledger → String → (fuel i : ℕ) → Option (Result String)
poll_tx l hash zero i = none
poll_tx l hash (suc fuel) i = elim (ltb (l.clock i) (l.start + poll_deadline_ms)) [
  | false ↦ some (give_up hash l.last_horizon)
  | true ↦ elim (poll_round hash (l.transaction i) (l.horizon i)) [
    | again ↦ poll_tx l hash fuel (i + 1)
    | returns h ↦ some (ok h)
    | throws e ↦ some (err e)
  ]
]

-- A round sleeps two seconds, so 61 rounds are enough.
abbrev pub poll_rounds : ℕ
poll_rounds = 61

unfoldable pub submit_soroban_tx : Ledger → Option (Result String)
unfolding send_from
submit_soroban_tx l = elim (send_from l.send 4 0) [
  | err e ↦ some (err e)
  | ok hash ↦ poll_tx l hash poll_rounds 0
]
