-- ===== src/Purchase/Failures.antt =====
-- The errors of `purchaseCardOWS` (sdk/src/ows.ts).
use cards.Prelude.{
  ◌≡◌, refl, sym, subst, ◌⊎◌, inl, inr, true, false, Option, none, some, String, Option-cases,
}
use cards.Errors.{Error, Result, ok, err, Result-cases}
use cards.Client.{
  PaymentInstructions, CardDetails, OrderStatus, OrderPhase, OrderResponse, awaiting_payment,
  awaiting_approval, processing, ready, failed, refunded, rejected, expired, other_phase,
}
use cards.Client.Settle.{order_failure, IsFailedPhase}
use cards.Soroban.{Network, get_horizon_url, Asset}
use cards.Purchase.{
  Resume, PurchaseOpts, Services, Plan, finished, go, resumed_id, given_payment, prior_tx_hash,
  check_soroban_tx_landed,
}
use cards.Purchase.Effects.{Landed-cases}
use cards.Purchase.Safety.{MayPay, given, earlier_dropped}
use cards.Purchase.Steps.{
  plan_resume, plan_phase, plan_unpaid, trustline_step, finish_plan, purchase_new, purchase_resumed,
}
use cards.Purchase.Endings.{Ended, wait_step-Ended, trustline_step-Ended}

module _ (s : Services) (a : Asset) (n : Option Network) where
  -- What a resume may give: what the order itself says, or what the rest of the flow ends with.
  pub data Resumed (r : Resume) : Result (CardDetails × String) → Type 0 where
    unknown : (e : Error) → s.get_order (resumed_id r) ≡ err e → Resumed r (err e)
    delivered :
        (status : OrderStatus) (card : CardDetails)
        → s.get_order (resumed_id r) ≡ ok status
        → status.phase ≡ ready
        → status.card ≡ some card
        → Resumed r (ok (card, resumed_id r))
    over :
        (status : OrderStatus)
        → s.get_order (resumed_id r) ≡ ok status
        → IsFailedPhase status.phase
        → Resumed r (err (order_failure (resumed_id r) status))
    waited : (x : Result (CardDetails × String)) → Ended s a n (resumed_id r) none x → Resumed r x
    paid_again :
        (q : PaymentInstructions) (x : Result (CardDetails × String))
        → MayPay s r q
        → Ended s a n (resumed_id r) (some q) x
        → Resumed r x

  -- What is left to show of a plan.
  abbrev Explained : Resume → Plan → Type 0
  Explained r (finished x) = Resumed r x
  Explained r (go p true) = Unit
  Explained r (go none false) = ⊥
  Explained r (go (some q) false) = MayPay s r q

  plan_result :
      (r : Resume) (plan : Plan)
      → Explained r plan
      → Resumed r (finish_plan s (resumed_id r) a n plan).result
  unfolding finish_plan
  plan_result r (finished x) h = h
  plan_result r (go none true) h = waited _ (wait_step-Ended s a n (resumed_id r) none)
  plan_result r (go (some q) true) h = waited _ (wait_step-Ended s a n (resumed_id r) none)
  plan_result r (go none false) h = absurd h
  plan_result r (go (some q) false) h =
      paid_again q _ h (trustline_step-Ended s a n (resumed_id r) q a refl)

  only_waits : (r : Resume) (p : Option PaymentInstructions) → Explained r (go p true)
  only_waits r none = tt
  only_waits r (some q) = tt

  plan_unpaid-Explained :
      (r : Resume) (status : OrderStatus)
      → s.get_order (resumed_id r) ≡ ok status
      → status.phase ≡ awaiting_payment
      → Explained r (plan_unpaid s r status)
  unfolding plan_unpaid
  plan_unpaid-Explained r status g w = elim (Option-cases (given_payment r)) [
    | inr (q, gave) ↦ rw (gave, plan_unpaid) (given status g w gave)
    | inl gave ↦ elim (Option-cases (prior_tx_hash r)) [
      | inl no_hash ↦ rw (gave, no_hash, plan_unpaid) tt
      | inr (h, prior) ↦
          elim (Landed-cases (check_soroban_tx_landed (s.tx_record (get_horizon_url none) h))) [
            | inr (inl l) ↦ rw (gave, prior, l, plan_unpaid) tt
            | inr (inr l) ↦ rw (gave, prior, l, plan_unpaid) tt
            | inl gone ↦ elim (Option-cases status.payment) [
              | inl no_payment ↦ rw (gave, prior, gone, no_payment, plan_unpaid) tt
              | inr (q, held) ↦
                  rw (gave, prior, gone, held, plan_unpaid)
                    (earlier_dropped status g w h prior gone held)
            ]
          ]
    ]
  ]

  plan_phase-Explained :
      (r : Resume) (status : OrderStatus) (phase : OrderPhase) (card : Option CardDetails)
      → s.get_order (resumed_id r) ≡ ok status
      → status.phase ≡ phase
      → status.card ≡ card
      → Explained r (plan_phase s r status phase card)
  unfolding plan_phase
  plan_phase-Explained r status awaiting_payment card g w c = plan_unpaid-Explained r status g w
  plan_phase-Explained r status ready (some d) g w c = delivered status d g w c
  plan_phase-Explained r status ready none g w c = only_waits r (given_payment r)
  plan_phase-Explained r status awaiting_approval card g w c = only_waits r (given_payment r)
  plan_phase-Explained r status processing card g w c = only_waits r (given_payment r)
  plan_phase-Explained r status (other_phase x) card g w c = only_waits r (given_payment r)
  plan_phase-Explained r status failed card g w c = over status g (inl w)
  plan_phase-Explained r status refunded card g w c = over status g (inr (inl w))
  plan_phase-Explained r status rejected card g w c = over status g (inr (inr (inl w)))
  plan_phase-Explained r status expired card g w c = over status g (inr (inr (inr w)))

  plan_resume-Explained : (r : Resume) → Explained r (plan_resume s r)
  unfolding plan_resume
  plan_resume-Explained r = elim (Result-cases (s.get_order (resumed_id r))) [
    | inr (e, g) ↦ rw (g, plan_resume) (unknown e g)
    | inl (status, g) ↦
        rw (g, plan_resume) (plan_phase-Explained r status status.phase status.card g refl refl)
  ]

  -- The result of a resumed purchase: an error of `getOrder`, the card or the failure that the order
  -- reports, or how the rest ends, which only waits, or first pays with instructions for which the resume
  -- has its reason: the order awaits its payment, and the caller gave them, or the order holds them and
  -- Horizon does not know the earlier transaction. That is the card of the wait, with the order's id, or
  -- an error. The error names the order as unpaid only if the trustline failed, or the payment failed
  -- with no transaction; as unpaid with a transaction only if the payment reported just this one as
  -- dropped; as paid only if the wait timed out or failed for a reason that is not the order's; and any
  -- other is the wait's own.
  pub purchase_resumed-Resumed :
      (opts : PurchaseOpts) (r : Resume)
      → opts.network ≡ n
      → Resumed r (purchase_resumed s opts a r).result
  unfolding purchase_resumed
  purchase_resumed-Resumed opts r e =
      subst (λ m. Resumed r (finish_plan s (resumed_id r) a m (plan_resume s r)).result) (sym e)
        (plan_result r (plan_resume s r) (plan_resume-Explained r))

  -- A purchase of a new order gives the backend's refusal of the order, or ends as follows for the new
  -- order and its instructions: with the card of the wait and the order's id, or with an error. The
  -- error names the order as unpaid only if the trustline or the payment failed with no transaction; as
  -- unpaid with a transaction only if the payment reported just this one as dropped; as paid only if the
  -- wait timed out or failed for a reason that is not the order's; and any other is the wait's own.
  pub purchase_new-Ended :
      (opts : PurchaseOpts)
      → opts.network ≡ n
      → ((e : Error) × (s.create_order opts.amount_usdc ≡ err e)
          × ((purchase_new s opts a).result ≡ err e))
        ⊎ ((order : OrderResponse) × (s.create_order opts.amount_usdc ≡ ok order)
            × Ended s a n order.order_id (some order.payment) (purchase_new s opts a).result)
  unfolding purchase_new finish_plan
  purchase_new-Ended opts m = elim (Result-cases (s.create_order opts.amount_usdc)) [
    | inr (e, c) ↦ rw (c, purchase_new) (inl (e, refl, refl))
    | inl (order, c) ↦
        rw (c, purchase_new)
          (inr (
            order,
            refl,
            subst
                (λ k.
                  Ended s a n order.order_id (some order.payment)
                    (trustline_step s order.order_id order.payment a k).result)
                (sym m) (trustline_step-Ended s a n order.order_id order.payment a refl),
          ))
  ]
