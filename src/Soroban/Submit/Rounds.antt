-- ===== src/Soroban/Submit/Rounds.antt =====
-- One polling round of `submitSorobanTx` (sdk/src/soroban.ts), and its last look at Horizon.
use Prim.Native.String.{◌++◌}
use text.Mathlib.TextPositions.{starts_with-append}
use text.Mathlib.Text.{starts_with}
use native.Mathlib.Decide.{ℕ_discrete}
use cards.Prelude.{
  ℕ, ◌≡◌, ◌≢◌, inl, inr, Bool, true, false, Option, none, some, String, arith, Bool-cases, ◌==◌,
}
use cards.Prelude.Text.{includes}
use cards.Errors.{Result, ok, err, error, message}
use cards.Soroban.Submit.{
  TxReply, success, failed, not_found, poll_threw, HorizonReply, recorded, other_status,
  horizon_threw, Step, again, returns, throws, own_prefix, is_own, poll_round, catch_poll,
  ask_horizon, ask_horizon_last, give_up, dropped_error, unfinalized_error,
}

-- The messages of the function's own errors begin as its `catch` blocks expect.
pub own_error-is_own : (hash t : String) → is_own hash (error (own_prefix hash ++ t)) ≡ true
unfolding is_own message
own_error-is_own hash t = starts_with-append (own_prefix hash) t

dropped_error-is_own : (hash : String) → is_own hash (dropped_error hash) ≡ true
unfolding is_own message
dropped_error-is_own hash = starts_with-append (own_prefix hash) _

abbrev pub outcome : Step → Option (Result String)
outcome again = none
outcome (returns h) = some (ok h)
outcome (throws e) = some (err e)

-- An exception whose message begins like the function's own errors for this hash.
abbrev begins_as_own : String → String → Bool
begins_as_own hash m = starts_with m (own_prefix hash)

abbrev is_bad_union : String → Bool
is_bad_union m = includes m "Bad union switch"

-- Horizon has no record of the transaction to show.
abbrev HasNoRecord : String → HorizonReply → Type 0
HasNoRecord hash (recorded b) = ⊥
HasNoRecord hash (other_status s) = Unit {0}
HasNoRecord hash (horizon_threw m) = begins_as_own hash m ≡ false

-- A round that says nothing of the transaction: the RPC does not know it, or throws, and where its
-- exception is that of a reply it cannot decode, Horizon has no record either.
pub data Silent (hash : String) : TxReply → HorizonReply → Type 0 where
  unknown : (reply : HorizonReply) → Silent hash not_found reply
  unrelated :
      (m : String) (reply : HorizonReply)
      → begins_as_own hash m ≡ false
      → is_bad_union m ≡ false
      → Silent hash (poll_threw m) reply
  unrecorded :
      (m : String) (reply : HorizonReply)
      → begins_as_own hash m ≡ false
      → is_bad_union m ≡ true
      → HasNoRecord hash reply
      → Silent hash (poll_threw m) reply

-- A round that settles the transaction: by the RPC, or, where the RPC's reply cannot be decoded, by
-- Horizon; an exception ends the polling only if it begins like one of the function's own.
pub data Settled (hash : String) : TxReply → HorizonReply → Result String → Type 0 where
  rpc_success : (reply : HorizonReply) → Settled hash success reply (ok hash)
  rpc_failed :
      (reply : HorizonReply)
      → Settled hash failed reply (err (error (own_prefix hash ++ " failed on-chain")))
  rpc_own :
      (m : String) (reply : HorizonReply)
      → begins_as_own hash m ≡ true
      → Settled hash (poll_threw m) reply (err (error m))
  horizon_success :
      (m : String)
      → begins_as_own hash m ≡ false
      → is_bad_union m ≡ true
      → Settled hash (poll_threw m) (recorded true) (ok hash)
  horizon_failed :
      (m : String)
      → begins_as_own hash m ≡ false
      → is_bad_union m ≡ true
      → Settled hash
          (poll_threw m)
          (recorded false)
          (err (error (own_prefix hash ++ " failed on-chain (Horizon)")))
  horizon_own :
      (m n : String)
      → begins_as_own hash m ≡ false
      → is_bad_union m ≡ true
      → begins_as_own hash n ≡ true
      → Settled hash (poll_threw m) (horizon_threw n) (err (error n))

abbrev pub StepSays : String → TxReply → HorizonReply → Step → Type 0
StepSays hash tx reply again = Silent hash tx reply
StepSays hash tx reply (returns h) = Settled hash tx reply (ok h)
StepSays hash tx reply (throws e) = Settled hash tx reply (err e)

by_horizon :
    (hash m : String) (reply : HorizonReply)
    → begins_as_own hash m ≡ false
    → is_bad_union m ≡ true
    → StepSays hash (poll_threw m) reply (ask_horizon hash " failed on-chain (Horizon)" reply)
unfolding ask_horizon is_own message
by_horizon hash m (recorded true) f u = horizon_success m f u
by_horizon hash m (recorded false) f u =
    rw (own_error-is_own hash " failed on-chain (Horizon)", ask_horizon) (horizon_failed m f u)
by_horizon hash m (other_status s) f u = unrecorded m (other_status s) f u tt
by_horizon hash m (horizon_threw n) f u = elim (Bool-cases (begins_as_own hash n)) [
  | inl o ↦ rw (o, ask_horizon) (horizon_own m n f u o)
  | inr o ↦ rw (o, ask_horizon) (unrecorded m (horizon_threw n) f u o)
]

threw-StepSays :
    (hash m : String) (reply : HorizonReply)
    → StepSays hash (poll_threw m) reply (catch_poll hash reply (error m))
unfolding catch_poll is_own message
threw-StepSays hash m reply = elim (Bool-cases (begins_as_own hash m)) [
  | inl o ↦ rw (o, catch_poll) (rpc_own m reply o)
  | inr f ↦ elim (Bool-cases (is_bad_union m)) [
    | inl u ↦ rw (f, u, catch_poll) (by_horizon hash m reply f u)
    | inr u ↦ rw (f, u, catch_poll) (unrelated m reply f u)
  ]
]

pub poll_round-StepSays :
    (hash : String) (tx : TxReply) (reply : HorizonReply)
    → StepSays hash tx reply (poll_round hash tx reply)
unfolding poll_round catch_poll
poll_round-StepSays hash success reply = rpc_success reply
poll_round-StepSays hash failed reply =
    rw (own_error-is_own hash " failed on-chain", poll_round) (rpc_failed reply)
poll_round-StepSays hash not_found reply = unknown reply
poll_round-StepSays hash (poll_threw m) reply = threw-StepSays hash m reply

-- What Horizon's answer after the deadline makes of the transaction.
pub data Last (hash : String) : HorizonReply → Result String → Type 0 where
  late_success : Last hash (recorded true) (ok hash)
  late_failed : Last hash (recorded false) (
      err (
        error (
          own_prefix hash
          ++ " applied on-chain but failed — no card will be credited. Retry the purchase.")))
  dropped : Last hash (other_status 404) (err (dropped_error hash))
  no_answer : (s : ℕ) → s ≢ 404 → Last hash (other_status s) (err (unfinalized_error hash))
  unreachable :
      (m : String)
      → begins_as_own hash m ≡ false
      → Last hash (horizon_threw m) (err (unfinalized_error hash))
  late_own :
      (m : String) → begins_as_own hash m ≡ true → Last hash (horizon_threw m) (err (error m))

pub give_up-Last : (hash : String) (reply : HorizonReply) → Last hash reply (give_up hash reply)
unfolding give_up ask_horizon_last ask_horizon is_own message
give_up-Last hash (recorded true) = late_success
give_up-Last hash (recorded false) =
    rw
      (
        own_error-is_own hash
            " applied on-chain but failed — no card will be credited. Retry the purchase.",
        give_up,
      )
      late_failed
give_up-Last hash (other_status s) = elim (ℕ_discrete s 404) [
  | yes p ↦ rw (p, dropped_error-is_own hash, give_up, ask_horizon_last) dropped
  | no n ↦
      let b : (s == 404) ≡ false = ground arith in rw (b, give_up, ask_horizon_last) (no_answer s n)
]
give_up-Last hash (horizon_threw m) = elim (Bool-cases (begins_as_own hash m)) [
  | inl o ↦ rw (o, give_up) (late_own m o)
  | inr f ↦ rw (f, give_up) (unreachable m f)
]
