-- ===== src/Purchase/Whole.antt =====
-- `purchaseCardOWS` (sdk/src/ows.ts) as a whole: a new purchase or a resumed one.
use cards.Prelude.{
  ℕ, ◌≤◌, ◌≡◌, refl, ap, subst, ◌⊎◌, inl, inr, none, some, Option, List, [], ◌∷◌, String, get_or,
  arith, length, Bool-cases, Option-cases,
}
use cards.Errors.{Result, ok, err}
use cards.Client.{CardDetails, OrderStatus, PaymentInstructions, ready}
use cards.Soroban.{Asset, Network, usdc}
use cards.Purchase.{Services, PurchaseOpts, Outcome, Resume}
use cards.Purchase.Steps.{purchase_card, purchase_new, purchase_resumed, is_resume}
use cards.Purchase.Effects.{orders, payments, tally}
use cards.Purchase.Safety.{purchase_resumed-tally, purchase_new-tally}
use cards.Purchase.Endings.{Ended}
use cards.Purchase.Failures.{
  Resumed, unknown, delivered, over, waited, paid_again, purchase_resumed-Resumed,
  purchase_new-Ended,
}

abbrev AtMostOne : Outcome → Type 0
AtMostOne o = (orders o.effects ≤ 1) × (length (payments o.effects) ≤ 1)

AtMostOne-of_tally :
    (o : Outcome) (n : ℕ) (ps : List (PaymentInstructions × Asset))
    → tally o ≡ (n, ps)
    → n ≤ 1
    → length ps ≤ 1
    → AtMostOne o
AtMostOne-of_tally o n ps t h k =
    (omega (arith, ap (λ x. x.0) t), omega (arith, ap (λ x. length x.1) t))

module _ (s : Services) where
  new-AtMostOne : (opts : PurchaseOpts) (a : Asset) → AtMostOne (purchase_new s opts a)
  new-AtMostOne opts a = elim (purchase_new-tally s opts a) [
    | inl t ↦ AtMostOne-of_tally (purchase_new s opts a) 0 [] t (omega arith) (omega arith)
    | inr (order, c, inl t) ↦
        AtMostOne-of_tally (purchase_new s opts a) 1 [] t (omega arith) (omega arith)
    | inr (order, c, inr t) ↦
        AtMostOne-of_tally (purchase_new s opts a) 1 ((order.payment, a) ∷ []) t (omega arith)
          (omega arith)
  ]

  resumed-AtMostOne :
      (opts : PurchaseOpts) (a : Asset) (r : Resume) → AtMostOne (purchase_resumed s opts a r)
  resumed-AtMostOne opts a r = elim (purchase_resumed-tally s opts a r) [
    | inl t ↦ AtMostOne-of_tally (purchase_resumed s opts a r) 0 [] t (omega arith) (omega arith)
    | inr (p, t, why) ↦
        AtMostOne-of_tally (purchase_resumed s opts a r) 0 ((p, a) ∷ []) t (omega arith)
          (omega arith)
  ]

  -- The two cases of a run.
  purchase_card-cases :
      (P : Outcome → Type 0) (opts : PurchaseOpts)
      → ((a : Asset) → P (purchase_new s opts a))
      → ((a : Asset) (r : Resume) → P (purchase_resumed s opts a r))
      → P (purchase_card s opts)
  unfolding purchase_card
  purchase_card-cases P opts fresh again = elim (Option-cases opts.resume) [
    | inl absent ↦ rw (absent, purchase_card) (fresh (get_or opts.payment_asset usdc))
    | inr (r, given) ↦ elim (Bool-cases (is_resume s r)) [
      | inl b ↦ rw (given, b, purchase_card) (again (get_or opts.payment_asset usdc) r)
      | inr b ↦ rw (given, b, purchase_card) (fresh (get_or opts.payment_asset usdc))
    ]
  ]

  -- A run of `purchaseCardOWS` creates at most one order and makes at most one payment, whatever the
  -- backend, the wallet and the network answer.
  pub purchase_card-AtMostOne :
      (opts : PurchaseOpts)
      → (orders (purchase_card s opts).effects ≤ 1)
        × (length (payments (purchase_card s opts).effects) ≤ 1)
  purchase_card-AtMostOne opts =
      purchase_card-cases AtMostOne opts (new-AtMostOne opts) (resumed-AtMostOne opts)

  -- Where a card that is returned comes from.
  abbrev Delivered : Result (CardDetails × String) → Type 0
  Delivered (ok (card, id)) =
      (s.wait_for_card id ≡ ok card)
      ⊎ ((status : OrderStatus) × (s.get_order id ≡ ok status)
          × (status.phase ≡ ready)
          × (status.card ≡ some card))
  Delivered (err e) = Unit

  Ended-Delivered :
      (a : Asset) (n : Option Network) (id : String) (p : Option PaymentInstructions)
      (x : Result (CardDetails × String))
      → Ended s a n id p x
      → Delivered x
  Ended-Delivered a n id p (ok (card, id')) h = inl (rw (h.1) h.0)
  Ended-Delivered a n id p (err e) h = tt

  Resumed-Delivered :
      (a : Asset) (n : Option Network) (r : Resume) (x : Result (CardDetails × String))
      → Resumed s a n r x
      → Delivered x
  Resumed-Delivered a n r x (unknown e g) = tt
  Resumed-Delivered a n r x (delivered status card g p c) = inr (status, g, p, c)
  Resumed-Delivered a n r x (over status g p) = tt
  Resumed-Delivered a n r x (waited x' h) = Ended-Delivered a n _ none x' h
  Resumed-Delivered a n r x (paid_again q x' m h) = Ended-Delivered a n _ (some q) x' h

  new-Delivered : (opts : PurchaseOpts) (a : Asset) → Delivered (purchase_new s opts a).result
  new-Delivered opts a = elim (purchase_new-Ended s a opts.network opts refl) [
    | inl (e, c, same) ↦ rw (same) tt
    | inr (order, c, h) ↦ Ended-Delivered a opts.network order.order_id (some order.payment) _ h
  ]

  -- A card is returned with an order's id only if the wait for that order gave this card, or the order
  -- itself is ready and holds it.
  pub purchase_card-Delivered :
      (opts : PurchaseOpts) (card : CardDetails) (id : String)
      → (purchase_card s opts).result ≡ ok (card, id)
      → (s.wait_for_card id ≡ ok card)
        ⊎ ((status : OrderStatus) × (s.get_order id ≡ ok status)
            × (status.phase ≡ ready)
            × (status.card ≡ some card))
  purchase_card-Delivered opts card id h = subst Delivered h (
      purchase_card-cases (λ o. Delivered o.result) opts (new-Delivered opts)
        (λ a r.
          Resumed-Delivered a opts.network r _
            (purchase_resumed-Resumed s a opts.network opts r refl)))
