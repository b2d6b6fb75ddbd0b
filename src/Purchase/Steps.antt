-- ===== src/Purchase/Steps.antt =====
-- The steps of `purchaseCardOWS` (sdk/src/ows.ts) and their composition.
use Prim.Native.String.{◌++◌}
use cards.Prelude.{
  Bool, true, false, not, ◌&&◌, Option, none, some, List, [], ◌∷◌, String, str_eq, get_or,
  if◌then◌else◌,
}
use cards.Errors.{
  code, Error, Result, ok, err, resumable, unpaid, paid, attached_hash, is_dropped, is_order_failed,
  is_cards402, message, ◌>>=◌,
}
use cards.Client.{
  PaymentInstructions, CardDetails, OrderStatus, OrderPhase, awaiting_payment, ready, failed,
  refunded, rejected, expired,
}
use cards.Client.Settle.{order_failure}
use cards.Soroban.{Network, public_network, Asset, usdc, xlm, get_horizon_url}
use cards.Purchase.Account.{read_balance, has_trustline}
use cards.Purchase.{
  landed, dropped, pending, check_soroban_tx_landed, Resume, bare, context, PurchaseOpts, Services,
  Effect, created, trustline_submitted, payment_made, waited, Outcome, stop, after, after_all, Plan,
  finished, go, resumed_id, given_payment, prior_tx_hash,
}

-- `err.code === 'wait_timeout'`.
abbrev pub has_timeout_code : Error → Bool
has_timeout_code e = elim (code e) [ none ↦ false | some c ↦ str_eq c "wait_timeout" ]

module _ (s : Services) where
  -- An order that awaits its payment: pay with the instructions that the caller gave, or with the
  -- order's own where the prior transaction was dropped, or wait. Horizon is asked at its main URL.
  unfoldable pub plan_unpaid : Resume → OrderStatus → Plan
  plan_unpaid r status = elim (given_payment r) [
    | some p ↦ go (some p) false
    | none ↦ elim (prior_tx_hash r) [
      | none ↦ go none true
      | some h ↦ elim (check_soroban_tx_landed (s.tx_record (get_horizon_url none) h)) [
        | landed ↦ go none true
        | pending ↦ go none true
        | dropped ↦ elim status.payment [ some p ↦ go (some p) false | none ↦ go none true ]
      ]
    ]
  ]

  unfoldable pub plan_phase : Resume → OrderStatus → OrderPhase → Option CardDetails → Plan
  plan_phase r status ready (some card) = finished (ok (card, resumed_id r))
  plan_phase r status ready none = go (given_payment r) true
  plan_phase r status failed card = finished (err (order_failure (resumed_id r) status))
  plan_phase r status refunded card = finished (err (order_failure (resumed_id r) status))
  plan_phase r status rejected card = finished (err (order_failure (resumed_id r) status))
  plan_phase r status expired card = finished (err (order_failure (resumed_id r) status))
  plan_phase r status awaiting_payment card = plan_unpaid r status
  plan_phase r status _ card = go (given_payment r) true

  unfoldable pub plan_resume : Resume → Plan
  unfolding plan_phase plan_unpaid
  plan_resume r = elim (s.get_order (resumed_id r)) [
    | err e ↦ finished (err e)
    | ok status ↦ plan_phase r status status.phase status.card
  ]

  -- `addUsdcTrustlineOWS`: nothing is submitted where the trustline is there.
  unfoldable pub add_usdc_trustline : Network → Result (Option String) × List Effect
  add_usdc_trustline network = elim (s.load_account (get_horizon_url (some network))) [
    | err e ↦ (err e, [])
    | ok balances ↦ if has_trustline balances then (ok none, []) else (
      (s.submit_trustline (get_horizon_url (some network)) >>= λ hash. ok (some hash)),
      trustline_submitted ∷ [],
    )
  ]

  -- The `try` block that makes sure of a trustline; the balance is read at the main Horizon URL.
  unfoldable pub ensure_trustline : Option Network → Result (Option String) × List Effect
  unfolding add_usdc_trustline
  ensure_trustline network = elim (s.load_account (get_horizon_url none)) [
    | err e ↦ (err e, [])
    | ok balances ↦
        if str_eq (read_balance balances).usdc "0"
        then elim (s.load_account (get_horizon_url network)) [
          | err e ↦ (err e, [])
          | ok again ↦
              if has_trustline again
              then (ok none, [])
              else add_usdc_trustline (get_or network public_network)
        ]
        else (ok none, [])
  ]

  -- The `catch` around `waitForCard`.
  unfoldable pub wait_error : String → Error → Error
  wait_error order_id e =
      if is_order_failed e
      then e
      else if is_cards402 e && not (has_timeout_code e)
      then e
      else resumable order_id (message e) paid none

  unfoldable pub wait_step : String → Outcome
  wait_step order_id = elim (s.wait_for_card order_id) [
    | ok card ↦ record { result = ok (card, order_id); effects = waited order_id ∷ [] }
    | err e ↦ record { result = err (wait_error order_id e); effects = waited order_id ∷ [] }
  ]

  -- The payment: an error with the hash of a transaction that may still land goes on to the wait.
  unfoldable pub pay_step : String → PaymentInstructions → Asset → Option Network → Outcome
  pay_step order_id payment asset network = elim (s.pay payment asset network) [
    | ok hash ↦ after (payment_made payment asset) (wait_step order_id)
    | err e ↦ after (payment_made payment asset) (elim (attached_hash e) [
      | none ↦ stop (resumable order_id (message e) unpaid none)
      | some hash ↦ elim (is_dropped e) [
        | true ↦ stop (resumable order_id (message e) unpaid (some hash))
        | false ↦ wait_step order_id
      ]
    ])
  ]

  abbrev trustline_reason : Error → String
  trustline_reason e =
      "failed to ensure USDC trustline: "
      ++ (message e
          ++ ". The wallet needs at least 2 XLM (1 for the account reserve, 1 for the trustline)")

  unfoldable pub trustline_step : String → PaymentInstructions → Asset → Option Network → Outcome
  unfolding pay_step wait_step wait_error ensure_trustline
  trustline_step order_id payment xlm network = pay_step order_id payment xlm network
  trustline_step order_id payment usdc network =
      let (r, effects) = ensure_trustline network in
      after_all effects (elim r [
        | err e ↦ stop (resumable order_id (trustline_reason e) unpaid none)
        | ok h ↦ pay_step order_id payment usdc network
      ])

  unfoldable pub finish_plan : String → Asset → Option Network → Plan → Outcome
  unfolding trustline_step wait_step
  finish_plan order_id asset network (finished r) = record { result = r; effects = [] }
  finish_plan order_id asset network (go payment true) = wait_step order_id
  finish_plan order_id asset network (go none false) =
      stop (
        resumable order_id "internal: payment instructions missing for an unpaid order" unpaid none)
  finish_plan order_id asset network (go (some payment) false) =
      trustline_step order_id payment asset network

  -- `if (opts.resume)`: an empty id is no resume.
  abbrev pub is_resume : Resume → Bool
  is_resume (bare order_id) = not (str_eq order_id "")
  is_resume (context order_id payment tx_hash phase) = true

  unfoldable pub purchase_new : PurchaseOpts → Asset → Outcome
  unfolding finish_plan
  purchase_new opts asset = elim (s.create_order opts.amount_usdc) [
    | err e ↦ stop e
    | ok order ↦
        after created
          (finish_plan order.order_id asset opts.network (go (some order.payment) false))
  ]

  unfoldable pub purchase_resumed : PurchaseOpts → Asset → Resume → Outcome
  unfolding finish_plan plan_resume
  purchase_resumed opts asset r = finish_plan (resumed_id r) asset opts.network (plan_resume r)

  unfoldable pub purchase_card : PurchaseOpts → Outcome
  unfolding purchase_new purchase_resumed
  purchase_card opts = elim opts.resume [
    | none ↦ purchase_new opts (get_or opts.payment_asset usdc)
    | some r ↦
        if is_resume r
        then purchase_resumed opts (get_or opts.payment_asset usdc) r
        else purchase_new opts (get_or opts.payment_asset usdc)
  ]
