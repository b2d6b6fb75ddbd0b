-- ===== src/Pay/Raw.antt =====
-- `payViaContract` of sdk/src/stellar.ts: two attempts, the second one only after a fee that was too
-- low.
use cards.Prelude.{
  ℕ, ◌≡◌, inl, inr, Bool, true, Option, none, some, List, [], ◌∷◌, String, Option-cases,
}
use cards.Errors.{Result, ok, err, Result-cases}
use cards.Soroban.Build.{ContractCall, Transaction, RpcServer, build_contract_payment_tx}
use cards.Pay.{Attempt, Run, PayOpts, fails, with_attempt, required_fee, build_opts, contract_call}
use cards.Pay.Sequence.{fee_rejected, required_fee-is_insufficient_fee}

module _ (server : RpcServer) (submit : ℕ → Transaction → Result String) (call : ContractCall)
    (rpc_url : Option String) where
  -- The second attempt, which is the last one.
  second_attempt : Option String → Run
  second_attempt fee =
      elim (build_contract_payment_tx server (build_opts server submit call rpc_url none fee)) [
        | err e ↦ fails e
        | ok tx ↦ record {
          result = submit 1 tx;
          submitted = record { tx = tx; outcome = submit 1 tx } ∷ [];
        }
      ]

  unfoldable pub raw_attempts : Run
  unfolding second_attempt
  raw_attempts =
      elim (build_contract_payment_tx server (build_opts server submit call rpc_url none none)) [
        | err e ↦ fails e
        | ok tx ↦
            with_attempt (record { tx = tx; outcome = submit 0 tx })
              (elim (submit 0 tx) [
                | ok hash ↦ record { result = ok hash; submitted = [] }
                | err e ↦ elim (required_fee e) [
                  | some fee ↦ second_attempt (some fee)
                  | none ↦ fails e
                ]
              ])
      ]

unfoldable pub pay_via_contract :
    (is_valid_contract : String → Bool) (keypair : Result String) (server : RpcServer)
    → (submit : ℕ → Transaction → Result String) → PayOpts
    → Run
unfolding raw_attempts
pay_via_contract is_valid_contract keypair server submit opts =
    elim (contract_call is_valid_contract keypair opts) [
      | err e ↦ fails e
      | ok call ↦ raw_attempts server submit call opts.rpc_url
    ]

-- Nothing was submitted, or one transaction, or two of which the first was refused for its fee.
abbrev pub IsSingle : List Attempt → Type 0
IsSingle [] = Unit {0}
IsSingle (a ∷ []) = Unit {0}
IsSingle (a ∷ b ∷ []) = fee_rejected a.outcome ≡ true
IsSingle (a ∷ b ∷ c ∷ rest) = ⊥

second_attempt-IsSingle :
    (server : RpcServer) (submit : ℕ → Transaction → Result String) (call : ContractCall)
    (rpc_url : Option String) (fee : Option String) (a : Attempt)
    → fee_rejected a.outcome ≡ true
    → IsSingle (a ∷ (second_attempt server submit call rpc_url fee).submitted)
unfolding second_attempt
second_attempt-IsSingle server submit call rpc_url fee a h =
    elim (Result-cases
      (build_contract_payment_tx server (build_opts server submit call rpc_url none fee))) [
        | inr (e, b) ↦ rw (b, second_attempt) tt
        | inl (tx, b) ↦ rw (b, second_attempt) h
      ]

raw_attempts-IsSingle :
    (server : RpcServer) (submit : ℕ → Transaction → Result String) (call : ContractCall)
    (rpc_url : Option String)
    → IsSingle (raw_attempts server submit call rpc_url).submitted
unfolding raw_attempts
raw_attempts-IsSingle server submit call rpc_url =
    elim (Result-cases
      (build_contract_payment_tx server (build_opts server submit call rpc_url none none))) [
        | inr (e, b) ↦ rw (b, raw_attempts) tt
        | inl (tx, b) ↦ elim (Result-cases (submit 0 tx)) [
          | inl (hash, s) ↦ rw (b, s, raw_attempts) tt
          | inr (e, s) ↦ elim (Option-cases (required_fee e)) [
            | inl q ↦ rw (b, s, q, raw_attempts) tt
            | inr (fee, q) ↦
                rw (b, s, q, raw_attempts)
                  (second_attempt-IsSingle server submit call rpc_url (some fee)
                    (record { tx = tx; outcome = submit 0 tx })
                    (rw s (required_fee-is_insufficient_fee e fee q)))
          ]
        ]
      ]

-- With a raw key at most two transactions are submitted, and a second one only after the first was
-- refused for its fee: a transaction that the network has taken is never followed by another.
pay_via_contract-IsSingle :
    (is_valid_contract : String → Bool) (keypair : Result String) (server : RpcServer)
    (submit : ℕ → Transaction → Result String) (opts : PayOpts)
    → IsSingle (pay_via_contract is_valid_contract keypair server submit opts).submitted
unfolding pay_via_contract
pay_via_contract-IsSingle is_valid_contract keypair server submit opts =
    elim (Result-cases (contract_call is_valid_contract keypair opts)) [
      | inr (e, c) ↦ rw (c, pay_via_contract) tt
      | inl (call, c) ↦
          rw (c, pay_via_contract) (raw_attempts-IsSingle server submit call opts.rpc_url)
    ]
