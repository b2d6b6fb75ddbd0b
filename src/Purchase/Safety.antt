-- ===== src/Purchase/Safety.antt =====
-- The orders and payments of a run of `purchaseCardOWS` (sdk/src/ows.ts).
use cards.Prelude.{
  ◌+◌, ◌≡◌, refl, ap, ◌⊎◌, inl, inr, true, false, Option, none, some, [], ◌∷◌, String, Option-cases,
  subst,
}
use cards.Errors.{ok, Result-cases}
use cards.Client.{
  PaymentInstructions, CardDetails, OrderStatus, OrderPhase, OrderResponse, awaiting_payment,
  awaiting_approval, processing, ready, failed, refunded, rejected, expired, other_phase,
}
use cards.Soroban.{testnet, Asset, xlm, get_horizon_url}
use cards.Purchase.{
  status_code, found, Resume, PurchaseOpts, Services, Plan, go, dropped, check_soroban_tx_landed,
  given_payment, prior_tx_hash, resumed_id,
}
use cards.Purchase.Steps.{
  plan_resume, plan_unpaid, plan_phase, trustline_step, finish_plan, purchase_new, purchase_resumed,
}
use cards.Purchase.Effects.{
  pay_step-tally, Landed-cases, tally, finish_plan-tally, trustline_step-Once,
}

module _ (s : Services) where
  -- Why a resumed purchase may pay with some instructions: the order awaits its payment, and the
  -- caller gave them, or the order holds them and the transaction of the earlier run was dropped.
  pub data MayPay (r : Resume) (p : PaymentInstructions) : Type 0 where
    given :
        (status : OrderStatus)
        → s.get_order (resumed_id r) ≡ ok status
        → status.phase ≡ awaiting_payment
        → given_payment r ≡ some p
        → MayPay r p
    earlier_dropped :
        (status : OrderStatus)
        → s.get_order (resumed_id r) ≡ ok status
        → status.phase ≡ awaiting_payment
        → (h : String) → prior_tx_hash r ≡ some h
        → check_soroban_tx_landed (s.tx_record (get_horizon_url none) h) ≡ dropped
        → status.payment ≡ some p
        → MayPay r p

  abbrev Justified : Resume → Plan → Type 0
  Justified r (go (some p) false) = MayPay r p
  Justified r _ = Unit

  skips : (r : Resume) (p : Option PaymentInstructions) → Justified r (go p true)
  skips r none = tt
  skips r (some p) = tt

  plan_unpaid-Justified :
      (r : Resume) (status : OrderStatus)
      → s.get_order (resumed_id r) ≡ ok status
      → status.phase ≡ awaiting_payment
      → Justified r (plan_unpaid s r status)
  unfolding plan_unpaid
  plan_unpaid-Justified r status g w = elim (Option-cases (given_payment r)) [
    | inr (q, gave) ↦ rw (gave, plan_unpaid) (given status g w gave)
    | inl gave ↦ elim (Option-cases (prior_tx_hash r)) [
      | inl no_hash ↦ rw (gave, no_hash, plan_unpaid) tt
      | inr (h, prior) ↦
          elim (Landed-cases (check_soroban_tx_landed (s.tx_record (get_horizon_url none) h))) [
            | inr (inl l) ↦ rw (gave, prior, l, plan_unpaid) tt
            | inr (inr l) ↦ rw (gave, prior, l, plan_unpaid) tt
            | inl gone ↦ elim (Option-cases status.payment) [
              | inl no_payment ↦ rw (gave, prior, gone, no_payment, plan_unpaid) tt
              | inr (q, held) ↦
                  rw (gave, prior, gone, held, plan_unpaid)
                    (earlier_dropped status g w h prior gone held)
            ]
          ]
    ]
  ]

  plan_phase-Justified :
      (r : Resume) (status : OrderStatus) (phase : OrderPhase) (card : Option CardDetails)
      → s.get_order (resumed_id r) ≡ ok status
      → status.phase ≡ phase
      → Justified r (plan_phase s r status phase card)
  unfolding plan_phase
  plan_phase-Justified r status awaiting_payment card g w = plan_unpaid-Justified r status g w
  plan_phase-Justified r status ready (some c) g w = tt
  plan_phase-Justified r status ready none g w = skips r (given_payment r)
  plan_phase-Justified r status awaiting_approval card g w = skips r (given_payment r)
  plan_phase-Justified r status processing card g w = skips r (given_payment r)
  plan_phase-Justified r status (other_phase x) card g w = skips r (given_payment r)
  plan_phase-Justified r status failed card g w = tt
  plan_phase-Justified r status refunded card g w = tt
  plan_phase-Justified r status rejected card g w = tt
  plan_phase-Justified r status expired card g w = tt

  plan_resume-Justified : (r : Resume) → Justified r (plan_resume s r)
  unfolding plan_resume
  plan_resume-Justified r = elim (Result-cases (s.get_order (resumed_id r))) [
    | inr (e, g) ↦ rw (g, plan_resume) tt
    | inl (status, g) ↦
        rw (g, plan_resume) (plan_phase-Justified r status status.phase status.card g refl)
  ]

  -- A resumed purchase creates no order, and makes no payment or one. It makes that one only if the
  -- order awaits its payment, and either the caller gave the instructions, or the order gives them, the
  -- context of the resume holds the hash of a transaction of an unpaid run, and the main Horizon
  -- server says of that transaction that it is dropped.
  pub purchase_resumed-tally :
      (opts : PurchaseOpts) (a : Asset) (r : Resume)
      → (tally (purchase_resumed s opts a r) ≡ (0, []))
        ⊎ ((p : PaymentInstructions) × (tally (purchase_resumed s opts a r) ≡ (0, (p, a) ∷ []))
            × MayPay r p)
  unfolding purchase_resumed
  purchase_resumed-tally opts a r =
      elim (finish_plan-tally s (resumed_id r) a opts.network (plan_resume s r)) [
        | inl t ↦ inl t
        | inr (p, plan, t) ↦ inr (p, t, subst (Justified r) plan (plan_resume-Justified r))
      ]

  -- A purchase of a new order creates the order, unless the backend refuses it, and then makes no
  -- payment or one, with the instructions of that order and the asset asked for.
  pub purchase_new-tally :
      (opts : PurchaseOpts) (a : Asset)
      → (tally (purchase_new s opts a) ≡ (0, []))
        ⊎ ((order : OrderResponse) × (s.create_order opts.amount_usdc ≡ ok order)
            × ((tally (purchase_new s opts a) ≡ (1, []))
                ⊎ (tally (purchase_new s opts a) ≡ (1, (order.payment, a) ∷ []))))
  unfolding purchase_new
  purchase_new-tally opts a = elim (Result-cases (s.create_order opts.amount_usdc)) [
    | inr (e, c) ↦ rw (c, purchase_new) (inl refl)
    | inl (order, c) ↦
        rw (c, purchase_new)
          (inr (
            order,
            refl,
            elim (trustline_step-Once s order.order_id order.payment a opts.network) [
              | inl t ↦ inl (ap (λ t. (1 + t.0, t.1)) t)
              | inr t ↦ inr (ap (λ t. (1 + t.0, t.1)) t)
            ],
          ))
  ]

  -- A resumed purchase asks the main Horizon server about the earlier transaction, whatever the
  -- network of the purchase: an order that awaits its payment is paid again if that server answers
  -- 404, even if the transaction succeeded on the test network, where the purchase pays.
  pub purchase_resumed-pays_again :
      (opts : PurchaseOpts) (r : Resume) (status : OrderStatus) (h : String)
      (p : PaymentInstructions)
      → opts.network ≡ some testnet
      → s.get_order (resumed_id r) ≡ ok status
      → status.phase ≡ awaiting_payment
      → given_payment r ≡ none
      → prior_tx_hash r ≡ some h
      → status.payment ≡ some p
      → s.tx_record (get_horizon_url (some testnet)) h ≡ found (some true)
      → s.tx_record (get_horizon_url none) h ≡ status_code 404
      → tally (purchase_resumed s opts xlm r) ≡ (0, (p, xlm) ∷ [])
  unfolding purchase_resumed plan_resume plan_phase plan_unpaid check_soroban_tx_landed finish_plan
      trustline_step
  purchase_resumed-pays_again opts r status h p n g w gave prior held landed_there m =
      rw (n, g, w, gave, prior, m, held, purchase_resumed, plan_resume, plan_phase, plan_unpaid)
        (pay_step-tally s (resumed_id r) p xlm (some testnet))
