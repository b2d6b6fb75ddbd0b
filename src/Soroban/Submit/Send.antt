-- ===== src/Soroban/Submit/Send.antt =====
-- The sending loop of `submitSorobanTx` (sdk/src/soroban.ts).
use Prim.Native.String.{◌++◌}
use text.Mathlib.Text.{starts_with}
use text.Mathlib.TextLemmas.{append_assoc}
use text.Mathlib.TextPositions.{starts_with-append}
use native.Mathlib.Decide.{ℕ_discrete}
use cards.Prelude.{
  ℕ, zero, suc, ◌+◌, ◌≤◌, ◌<◌, ◌≡◌, refl, sym, subst, inl, inr, Bool, true, false, ◌||◌, none, some,
  String, arith, Bool-cases,
}
use cards.Errors.{Error, Result, ok, err, error, insufficient_fee, message, is_insufficient_fee}
use cards.Soroban.Submit.{
  Ledger, SendReply, try_again_later, rejected, pending, duplicate, send_threw, Step, again,
  returns, throws, try_send, catch_send, send_from, submit_soroban_tx, poll_tx, poll_rounds,
  is_structured,
}
use cards.Soroban.Submit.Evidence.{Evidence, poll_tx-Evidence}

-- An exception whose message begins like one of the loop's own errors.
abbrev begins_as_structured : String → Bool
begins_as_structured m =
    starts_with m "Soroban network congested" || starts_with m "Soroban sendTransaction error"

-- A reply after which the loop tries again.
abbrev IsRetried : SendReply → Type 0
IsRetried try_again_later = Unit {0}
IsRetried (rejected fee json) = ⊥
IsRetried (pending hash) = ⊥
IsRetried (duplicate hash) = ⊥
IsRetried (send_threw m) = begins_as_structured m ≡ false

-- How an attempt ends the loop, where a number of attempts is left.
pub data SendEnds : (left : ℕ) → SendReply → Result String → Type 0 where
  taken : (left : ℕ) (hash : String) → SendEnds left (pending hash) (ok hash)
  known : (left : ℕ) (hash : String) → SendEnds left (duplicate hash) (ok hash)
  fee :
      (left : ℕ) (f json : String)
      → SendEnds left (rejected (some f) json) (err (insufficient_fee f))
  refused :
      (left : ℕ) (json : String)
      → SendEnds left (rejected none json) (err (error ("Soroban sendTransaction error: " ++ json)))
  structured :
      (left : ℕ) (m : String)
      → begins_as_structured m ≡ true
      → SendEnds left (send_threw m) (err (error m))
  congested : SendEnds 0 try_again_later (
      err (
        error
          "Soroban network congested — sendTransaction returned TRY_AGAIN_LATER after 5 attempts. Retry the purchase in a minute."))
  failed_last :
      (m : String)
      → begins_as_structured m ≡ false
      → SendEnds 0
          (send_threw m)
          (err (error ("Soroban sendTransaction failed after 5 attempts: " ++ m)))

abbrev StepSays : ℕ → SendReply → Step → Type 0
StepSays zero reply again = ⊥
StepSays (suc left) reply again = IsRetried reply
StepSays left reply (returns h) = SendEnds left reply (ok h)
StepSays left reply (throws e) = SendEnds left reply (err e)

refusal_begins :
    (json : String)
    → starts_with ("Soroban sendTransaction error: " ++ json) "Soroban sendTransaction error" ≡ true
refusal_begins json =
    subst (λ m. starts_with m "Soroban sendTransaction error" ≡ true)
      (sym (append_assoc "Soroban sendTransaction error" ": " json))
      (starts_with-append "Soroban sendTransaction error" (": " ++ json))

or_true : (a b : Bool) → b ≡ true → (a || b) ≡ true
or_true true b h = refl
or_true false b h = h

refusal_is_structured :
    (json : String) → is_structured (error ("Soroban sendTransaction error: " ++ json)) ≡ true
unfolding is_structured message is_insufficient_fee
refusal_is_structured json =
    or_true (starts_with ("Soroban sendTransaction error: " ++ json) "Soroban network congested")
      (starts_with ("Soroban sendTransaction error: " ++ json) "Soroban sendTransaction error")
      (refusal_begins json)

attempt-StepSays :
    (left : ℕ) (reply : SendReply) → StepSays left reply (catch_send left (try_send left reply))
unfolding catch_send try_send is_structured message is_insufficient_fee
attempt-StepSays zero try_again_later = congested
attempt-StepSays (suc left) try_again_later = tt
attempt-StepSays zero (rejected (some f) json) = fee 0 f json
attempt-StepSays (suc left) (rejected (some f) json) = fee (suc left) f json
attempt-StepSays zero (rejected none json) =
    rw (refusal_is_structured json, catch_send) (refused 0 json)
attempt-StepSays (suc left) (rejected none json) =
    rw (refusal_is_structured json, catch_send) (refused (suc left) json)
attempt-StepSays zero (pending h) = taken 0 h
attempt-StepSays (suc left) (pending h) = taken (suc left) h
attempt-StepSays zero (duplicate h) = known 0 h
attempt-StepSays (suc left) (duplicate h) = known (suc left) h
attempt-StepSays zero (send_threw m) = elim (Bool-cases (begins_as_structured m)) [
  | inl s ↦ rw (s, catch_send) (structured 0 m s)
  | inr s ↦ rw (s, catch_send) (failed_last m s)
]
attempt-StepSays (suc left) (send_threw m) = elim (Bool-cases (begins_as_structured m)) [
  | inl s ↦ rw (s, catch_send) (structured (suc left) m s)
  | inr s ↦ rw (s, catch_send) s
]

-- What the attempts from one on give: the first that is not retried ends the loop, and the fifth ends
-- it whatever its reply.
pub data Sent (send : ℕ → SendReply) (i : ℕ) : Result String → Type 0 where
  ended :
      {r : Result String}
      → (j left : ℕ) → i ≤ j
      → j + left ≡ 4
      → ((k : ℕ) → i ≤ k → k < j → IsRetried (send k))
      → SendEnds left (send j) r
      → Sent send i r

Sent-next :
    (send : ℕ → SendReply) (i : ℕ) (r : Result String)
    → IsRetried (send i)
    → Sent send (i + 1) r
    → Sent send i r
Sent-next send i r first (ended j left b m w e) = ended j left (omega arith) m before e
  where
    before : (k : ℕ) → i ≤ k → k < j → IsRetried (send k)
    before k p q = elim (ℕ_discrete i k) [
      | yes same ↦ subst (λ x. IsRetried (send x)) same first
      | no other ↦ w k (omega arith) q
    ]

here_Sent :
    (send : ℕ → SendReply) (left i : ℕ) (r : Result String)
    → i + left ≡ 4
    → SendEnds left (send i) r
    → Sent send i r
here_Sent send left i r h e = ended i left (omega arith) h (λ k p q. absurd (omega arith)) e

last_Sent :
    (send : ℕ → SendReply) (i : ℕ) (s : Step) (rest : Result String)
    → i + 0 ≡ 4
    → StepSays 0 (send i) s
    → Sent send i (elim s [ again ↦ rest | returns hash ↦ ok hash | throws e ↦ err e ])
last_Sent send i again rest h k = absurd k
last_Sent send i (returns x) rest h k = here_Sent send 0 i (ok x) h k
last_Sent send i (throws e) rest h k = here_Sent send 0 i (err e) h k

step_Sent :
    (send : ℕ → SendReply) (left i : ℕ) (s : Step) (rest : Result String)
    → i + suc left ≡ 4
    → StepSays (suc left) (send i) s
    → Sent send (i + 1) rest
    → Sent send i (elim s [ again ↦ rest | returns hash ↦ ok hash | throws e ↦ err e ])
step_Sent send left i again rest h k later = Sent-next send i rest k later
step_Sent send left i (returns x) rest h k later = here_Sent send (suc left) i (ok x) h k
step_Sent send left i (throws e) rest h k later = here_Sent send (suc left) i (err e) h k

send_from-Sent :
    (send : ℕ → SendReply) (left i : ℕ) → i + left ≡ 4 → Sent send i (send_from send left i)
unfolding send_from
send_from-Sent send zero i h =
    last_Sent send i (catch_send zero (try_send zero (send i))) _ h (attempt-StepSays zero (send i))
send_from-Sent send (suc left) i h =
    step_Sent send left i (catch_send (suc left) (try_send (suc left) (send i))) _ h
      (attempt-StepSays (suc left) (send i)) (send_from-Sent send left (i + 1) (omega arith))

-- What a result of `submitSorobanTx` rests on: an error of sending, or a hash that sending gave and
-- what the polling found of it.
pub data SubmitEvidence (l : Ledger) : Result String → Type 0 where
  not_sent : {e : Error} → Sent l.send 0 (err e) → SubmitEvidence l (err e)
  sent :
      {hash : String} {r : Result String}
      → Sent l.send 0 (ok hash)
      → Evidence l hash 0 r
      → SubmitEvidence l r

submitted-SubmitEvidence :
    (l : Ledger) (s : Result String)
    → l.start ≤ l.clock 0
    → ((i : ℕ) → l.clock i + 2000 ≤ l.clock (i + 1))
    → Sent l.send 0 s
    → (r : Result String) × ((elim s [
      | err e ↦ some (err e)
      | ok hash ↦ poll_tx l hash poll_rounds 0
    ])
        ≡ some r)
      × SubmitEvidence l r
submitted-SubmitEvidence l (err e) begin tick h = (err e, refl, not_sent h)
submitted-SubmitEvidence l (ok hash) begin tick h =
    let (r, p, v) = poll_tx-Evidence l hash tick 60 0 (omega arith) in (r, p, sent h v)

-- `submitSorobanTx` ends, where the polling does not begin before its start and a round takes two
-- seconds at least. Its result is that of the first of five attempts to send that is not retried, if
-- that is an error. Else it is what the first round says that settles the transaction, where each round
-- before it starts in time and says nothing: the hash if the RPC reports success, or Horizon does in
-- place of an RPC reply that cannot be decoded; an error without the hash if one of them reports a
-- failure. Or each round in time says nothing, and the result is that of Horizon's answer at the first
-- late round: the hash or the failure that it has on record, the error that is marked as dropped only
-- if the answer is 404, and the error that is not marked if the answer tells nothing.
pub submit_soroban_tx-SubmitEvidence :
    (l : Ledger)
    → l.start ≤ l.clock 0
    → ((i : ℕ) → l.clock i + 2000 ≤ l.clock (i + 1))
    → (r : Result String) × (submit_soroban_tx l ≡ some r) × SubmitEvidence l r
unfolding submit_soroban_tx
submit_soroban_tx-SubmitEvidence l begin tick =
    submitted-SubmitEvidence l (send_from l.send 4 0) begin tick
      (send_from-Sent l.send 4 0 (omega arith))
