-- ===== src/Purchase/Tests.antt =====
-- Purchases, new and resumed, and the theorems at them.
use cards.Prelude.{length, ◌≤◌, ◌≡◌, refl, ◌⊎◌, true, false, none, some, [], ◌∷◌, String, str_eq}
use cards.Errors.{Error, ok, err, plain, unpaid, resumable, message, attached_hash, is_dropped}
use cards.Client.{
  PaymentInstructions, CardDetails, OrderStatus, OrderResponse, awaiting_payment, ready,
}
use cards.Soroban.{xlm, testnet, get_horizon_url}
use cards.Purchase.{TxRecord, found, status_code, Resume, context, PurchaseOpts, Services}
use cards.Purchase.Account.{BalanceEntry, has_trustline, is_usdc, read_balance}
use cards.Purchase.Steps.{
  wait_step, purchase_new, purchase_resumed, purchase_card, ensure_trustline, add_usdc_trustline,
  pay_step, trustline_step, finish_plan,
}
use cards.Purchase.Effects.{tally, orders, payments}
use cards.Purchase.Whole.{purchase_card-AtMostOne, purchase_card-Delivered}
use cards.Purchase.Safety.{MayPay, purchase_resumed-tally, purchase_resumed-pays_again}
use cards.Purchase.Endings.{Ended}
use cards.Purchase.Failures.{Resumed, purchase_resumed-Resumed, purchase_new-Ended}

abbrev payment : PaymentInstructions
payment = record {
  contract_id = "CARDS";
  order_id = "order-1";
  usdc_amount = "10.00";
  usdc_asset = "USDC";
  xlm_amount = some "80.0";
}

abbrev order : OrderResponse
order = record {
  order_id = "order-1";
  status = "pending_payment";
  payment = payment;
  poll_url = "/orders/order-1";
  budget = record {
    spent_usdc = "0";
    in_flight_usdc = "0";
    committed_usdc = "0";
    limit_usdc = none;
    remaining_usdc = none;
  };
}

abbrev status : OrderStatus
status = record {
  order_id = "order-1";
  status = "pending_payment";
  phase = awaiting_payment;
  amount_usdc = "10.00";
  payment_asset = "usdc";
  card = none;
  error = none;
  note = none;
  refund = none;
  payment = some payment;
  created_at = "";
  updated_at = "";
}

abbrev card : CardDetails
card = record { number = "4111111111111111"; cvv = "123"; expiry = "12/29"; brand = none }

abbrev lumens : BalanceEntry
lumens = record { asset_type = "native"; asset_code = ""; asset_issuer = ""; balance = "100.0" }

-- The main Horizon server knows no transaction, and the test network's knows each as successful.
abbrev records : String → String → TxRecord
records url hash = elim (str_eq url "https://horizon-testnet.stellar.org") [
  | true ↦ found (some true)
  | false ↦ status_code 404
]

abbrev services : Services
services = record {
  create_order = λ amount. ok order;
  get_order = λ id. ok status;
  tx_record = records;
  load_account = λ url. ok (lumens ∷ []);
  submit_trustline = λ url. ok "trust";
  pay = λ p a n. ok "paid";
  wait_for_card = λ id. ok card;
}

abbrev resume : Resume
resume = context "order-1" none (some "h") (some unpaid)

abbrev opts : PurchaseOpts
opts = record {
  amount_usdc = "10.00";
  payment_asset = some xlm;
  network = some testnet;
  resume = some resume;
}

purchase_resumed-tally_example :
    (tally (purchase_resumed services opts xlm resume) ≡ (0, []))
    ⊎ ((p : PaymentInstructions) × (tally (purchase_resumed services opts xlm resume)
          ≡ (0, (p, xlm) ∷ []))
        × MayPay services resume p)
purchase_resumed-tally_example = purchase_resumed-tally services opts xlm resume

purchase_resumed-pays_again_example :
    tally (purchase_resumed services opts xlm resume) ≡ (0, (payment, xlm) ∷ [])
purchase_resumed-pays_again_example =
    purchase_resumed-pays_again services opts resume status "h" payment refl refl refl refl refl
      refl on_testnet on_main
  where
    on_testnet : records (get_horizon_url (some testnet)) "h" ≡ found (some true)
    on_testnet = unfold get_horizon_url in refl

    on_main : records (get_horizon_url none) "h" ≡ status_code 404
    on_main = unfold get_horizon_url in refl

purchase_resumed-Resumed_example :
    Resumed services xlm opts.network resume (purchase_resumed services opts xlm resume).result
purchase_resumed-Resumed_example =
    purchase_resumed-Resumed services xlm opts.network opts resume refl

-- The payment is dropped, and the resumable error holds its hash.
abbrev dropping : Services
dropping = record services { pay = λ p a n. err (plain "Error" "lost" (some "h") true) }

dropped_purchase :
    (purchase_card dropping (record opts { resume = none })).result
    ≡ err (resumable "order-1" "lost" unpaid (some "h"))
unfolding purchase_card purchase_new finish_plan trustline_step pay_step message attached_hash
    is_dropped
dropped_purchase = refl

purchase_new-Ended_example :
    ((e : Error) × (ok order ≡ err e) × ((purchase_new dropping opts xlm).result ≡ err e))
    ⊎ ((o : OrderResponse) × (ok order ≡ ok o)
        × Ended dropping xlm opts.network o.order_id
            (some o.payment)
            (purchase_new dropping opts xlm).result)
purchase_new-Ended_example = purchase_new-Ended dropping xlm opts.network opts refl

trustline_opened : (ensure_trustline services none).0 ≡ ok (some "trust")
unfolding ensure_trustline add_usdc_trustline has_trustline is_usdc read_balance
trustline_opened = refl

purchase_card-AtMostOne_example :
    (orders (purchase_card services opts).effects ≤ 1)
    × (length (payments (purchase_card services opts).effects) ≤ 1)
purchase_card-AtMostOne_example = purchase_card-AtMostOne services opts

bought : (purchase_card services (record opts { resume = none })).result ≡ ok (card, "order-1")
unfolding purchase_card purchase_new finish_plan trustline_step pay_step wait_step
bought = refl

purchase_card-Delivered_example :
    (services.wait_for_card "order-1" ≡ ok card)
    ⊎ ((o : OrderStatus) × (services.get_order "order-1" ≡ ok o)
        × (o.phase ≡ ready)
        × (o.card ≡ some card))
purchase_card-Delivered_example =
    purchase_card-Delivered services (record opts { resume = none }) card "order-1" bought
