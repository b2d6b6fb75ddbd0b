-- ===== src/Purchase.antt =====
-- `purchaseCardOWS` of sdk/src/ows.ts, with the balance and trustline helpers that it calls. The
-- client, the payment and the two Horizon servers are the fields of `Services`; the parts of this
-- library that describe them are Client, Pay and Soroban/Submit.
pub mod Account
pub mod Steps
pub mod Effects
pub mod Safety
pub mod Trustline
pub mod Whole
pub mod Endings
pub mod Failures
pub mod Tests
use Prim.Native.String.{◌++◌}
use cards.Prelude.{
  ℕ, Bool, true, false, not, ◌&&◌, ◌||◌, Option, none, some, List, [], ◌∷◌, String, ◌==◌, str_eq,
  truthy, get_or, if◌then◌else◌,
}
use cards.Errors.{
  Error, Result, ok, err, error, order_failed, resumable, Phase, unpaid, paid, attached_hash,
  is_dropped, is_order_failed, is_cards402, code, message,
}
use cards.Client.{
  PaymentInstructions, CardDetails, OrderStatus, OrderResponse, OrderPhase, awaiting_approval,
  awaiting_payment, processing, ready, failed, refunded, rejected, expired, other_phase,
}
use cards.Client.Settle.{order_failure}
use cards.Soroban.{Network, public_network, testnet, Asset, usdc, xlm, get_horizon_url}
use Account.{BalanceEntry, read_balance, has_trustline}

-- What Horizon gives for a transaction hash in `checkSorobanTxLanded`.
pub data TxRecord : Type 0 where
  found : (successful : Option Bool) → TxRecord
  status_code : ℕ → TxRecord
  request_failed : TxRecord

pub data Landed : Type 0 where
  landed dropped pending : Landed

unfoldable pub check_soroban_tx_landed : TxRecord → Landed
check_soroban_tx_landed (found (some false)) = dropped
check_soroban_tx_landed (found (some true)) = landed
check_soroban_tx_landed (found none) = landed
check_soroban_tx_landed (status_code n) = if n == 404 then dropped else pending
check_soroban_tx_landed request_failed = pending

-- `opts.resume`: a bare order id, or the context of a purchase that could not finish.
pub data Resume : Type 0 where
  bare : (order_id : String) → Resume
  context :
      (order_id : String)
      → (payment : Option PaymentInstructions) → (tx_hash : Option String) → (phase : Option Phase)
      → Resume

pub record PurchaseOpts : Type 0 where
  pub amount_usdc : String
  pub payment_asset : Option Asset
  pub network : Option Network
  pub resume : Option Resume

-- What the flow calls. `load_account` is the wallet's key and `loadAccount` at the Horizon server of
-- a URL, `tx_record` is `fetch` there, and `submit_trustline` builds, signs and submits the
-- transaction that opens the trustline.
pub record Services : Type 0 where
  pub create_order : (amount_usdc : String) → Result OrderResponse
  pub get_order : (order_id : String) → Result OrderStatus
  pub tx_record : (url tx_hash : String) → TxRecord
  pub load_account : (url : String) → Result (List BalanceEntry)
  pub submit_trustline : (url : String) → Result String
  pub pay : PaymentInstructions → Asset → Option Network → Result String
  pub wait_for_card : (order_id : String) → Result CardDetails

-- What a run has done to the world, in order.
pub data Effect : Type 0 where
  created : Effect
  trustline_submitted : Effect
  payment_made : PaymentInstructions → Asset → Effect
  waited : (order_id : String) → Effect

-- The result: the card with its order id, and the effects.
pub record Outcome : Type 0 where
  pub result : Result (CardDetails × String)
  pub effects : List Effect

abbrev pub stop : Error → Outcome
stop e = record { result = err e; effects = [] }

abbrev pub after : Effect → Outcome → Outcome
after x o = record { result = o.result; effects = x ∷ o.effects }

abbrev pub after_all : List Effect → Outcome → Outcome
after_all [] o = o
after_all (x ∷ xs) o = after x (after_all xs o)

-- What the `if (opts.resume)` statement leaves for the rest: a result, or the payment instructions
-- and whether the payment is to be skipped.
pub data Plan : Type 0 where
  finished : Result (CardDetails × String) → Plan
  go : (payment : Option PaymentInstructions) → (skip_payment : Bool) → Plan

abbrev pub resumed_id : Resume → String
resumed_id (bare order_id) = order_id
resumed_id (context order_id payment tx_hash phase) = order_id

abbrev pub given_payment : Resume → Option PaymentInstructions
given_payment (bare order_id) = none
given_payment (context order_id payment tx_hash phase) = payment

-- `priorTxHash && priorPhase === 'unpaid'`, as the hash.
abbrev pub prior_tx_hash : Resume → Option String
prior_tx_hash (bare order_id) = none
prior_tx_hash (context order_id payment (some h) (some unpaid)) =
    if str_eq h "" then none else some h
prior_tx_hash (context order_id payment tx_hash phase) = none
