-- ===== src/Pay.antt =====
-- The payment loops: `payViaContractOWS` of sdk/src/ows.ts and `payViaContract` of
-- sdk/src/stellar.ts. Signing, the keys and `StrKey` are stellar-sdk's and the wallet's: parameters.
-- The network's answer to attempt `i` is the oracle `submit i`, which Soroban/Submit describes.
pub mod Sequence
pub mod Once
pub mod Raw
pub mod Tests
use Prim.Native.String.{◌++◌}
use cards.Prelude.{
  ℕ, zero, suc, ◌+◌, Bool, true, false, not, Option, none, some, List, [], ◌∷◌, String,
  if◌then◌else◌,
}
use cards.Amount.{decimal_to_stroops}
use cards.Errors.{
  Error, Result, ok, err, error, insufficient_fee, plain, is_dropped, is_insufficient_fee, ◌>>=◌,
}
use cards.Client.{PaymentInstructions}
use cards.Soroban.{Network, Asset, select_contract_call}
use cards.Soroban.Build.{ContractCall, BuildOpts, Transaction, RpcServer, build_contract_payment_tx}

-- `PayViaContractOwsOpts` without the wallet's name, passphrase and path, which go into the key.
pub record PayOpts : Type 0 where
  pub payment : PaymentInstructions
  pub asset : Asset
  pub network : Network
  pub rpc_url : Option String

-- A transaction that was submitted, and what the submission gave.
pub record Attempt : Type 0 where
  pub tx : Transaction
  pub outcome : Result String

pub record Run : Type 0 where
  pub result : Result String
  pub submitted : List Attempt

abbrev pub fails : Error → Run
fails e = record { result = err e; submitted = [] }

-- The fee to retry with, of an `InsufficientFeeError`.
unfoldable pub required_fee : Error → Option String
required_fee (insufficient_fee fee) = some fee
required_fee _ = none

abbrev pub with_attempt : Attempt → Run → Run
with_attempt a run = record { result = run.result; submitted = a ∷ run.submitted }

-- The call that every attempt makes: the checks before the loop.
unfoldable pub contract_call :
    (String → Bool) → (public_key : Result String) → PayOpts → Result ContractCall
contract_call is_valid_contract public_key opts =
    if not (is_valid_contract opts.payment.contract_id)
    then err (error ("Invalid contract_id in order response: " ++ opts.payment.contract_id))
    else public_key >>= λ key. select_contract_call opts.payment opts.asset >>= λ c.
        decimal_to_stroops c.1 >>= λ amount. ok (record {
          contract_id = opts.payment.contract_id;
          fn = c.0;
          from_public_key = key;
          amount_stroops = amount;
          order_id = opts.payment.order_id;
          network = opts.network;
        })

module _ (server : RpcServer) (submit : ℕ → Transaction → Result String) (call : ContractCall)
    (rpc_url : Option String) where
  abbrev pub build_opts : (preserved : Option ℕ) → (fee : Option String) → BuildOpts
  build_opts preserved fee = record {
    call = call;
    rpc_url = rpc_url;
    preserved_sequence = preserved;
    fee = fee;
  }

  -- Attempt `i` of `payViaContractOWS`, with `left` after it.
  unfoldable pub pay_from : (left i : ℕ) → (preserved : Option ℕ) → (fee : Option String) → Run
  pay_from zero i preserved fee =
      elim (build_contract_payment_tx server (build_opts preserved fee)) [
        | err e ↦ fails e
        | ok tx ↦ record {
          result = submit i tx;
          submitted = record { tx = tx; outcome = submit i tx } ∷ [];
        }
      ]
  pay_from (suc left) i preserved fee =
      elim (build_contract_payment_tx server (build_opts preserved fee)) [
        | err e ↦ fails e
        | ok tx ↦
            with_attempt (record { tx = tx; outcome = submit i tx })
              (elim (submit i tx) [
                | ok hash ↦ record { result = ok hash; submitted = [] }
                | err e ↦ elim (required_fee e) [
                  | some f ↦ pay_from left (i + 1) preserved (some f)
                  | none ↦ elim (is_dropped e) [
                    | false ↦ fails e
                    | true ↦ pay_from left (i + 1) (some tx.sequence) fee
                  ]
                ]
              ])
      ]

unfoldable pub pay_via_contract_ows :
    (is_valid_contract : String → Bool) (public_key : Result String) (server : RpcServer)
    → (submit : ℕ → Transaction → Result String) → PayOpts
    → Run
unfolding contract_call pay_from required_fee
pay_via_contract_ows is_valid_contract public_key server submit opts =
    elim (contract_call is_valid_contract public_key opts) [
      | err e ↦ fails e
      | ok call ↦ pay_from server submit call opts.rpc_url 2 0 none none
    ]
