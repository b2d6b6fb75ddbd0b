-- ===== src/Purchase/Effects.antt =====
-- The orders and payments among the effects of the steps of `purchaseCardOWS` (sdk/src/ows.ts).
use cards.Prelude.{
  ℕ, ◌+◌, ◌≡◌, refl, ap, ◌⊎◌, inl, inr, true, false, Option, none, some, List, [], ◌∷◌, String,
  get_or, Bool-cases, Option-cases, str_eq,
}
use cards.Errors.{Result-cases, attached_hash, is_dropped}
use cards.Client.{PaymentInstructions}
use cards.Soroban.{Network, public_network, Asset, usdc, xlm, get_horizon_url}
use cards.Purchase.{
  Effect, created, trustline_submitted, payment_made, Services, Outcome, Plan, finished, go, Landed,
  landed, dropped, pending,
}
use cards.Purchase.Account.{has_trustline, read_balance}
use cards.Purchase.Steps.{
  add_usdc_trustline, ensure_trustline, wait_step, pay_step, trustline_step, finish_plan,
}

-- The orders created, and the payments made with their assets.
abbrev pub orders : List Effect → ℕ
orders [] = 0
orders (created ∷ xs) = 1 + orders xs
orders (_ ∷ xs) = orders xs

abbrev pub payments : List Effect → List (PaymentInstructions × Asset)
payments [] = []
payments (payment_made p a ∷ xs) = (p, a) ∷ payments xs
payments (_ ∷ xs) = payments xs

abbrev pub tally : Outcome → ℕ × List (PaymentInstructions × Asset)
tally o = (orders o.effects, payments o.effects)

pub Landed-cases : (l : Landed) → (l ≡ dropped) ⊎ ((l ≡ landed) ⊎ (l ≡ pending))
Landed-cases landed = inr (inl refl)
Landed-cases dropped = inl refl
Landed-cases pending = inr (inr refl)

module _ (s : Services) where
  wait_step-tally : (order_id : String) → tally (wait_step s order_id) ≡ (0, [])
  unfolding wait_step
  wait_step-tally order_id = elim (Result-cases (s.wait_for_card order_id)) [
    | inl (card, w) ↦ rw (w, wait_step) refl
    | inr (e, w) ↦ rw (w, wait_step) refl
  ]

  pub pay_step-tally :
      (order_id : String) (p : PaymentInstructions) (a : Asset) (n : Option Network)
      → tally (pay_step s order_id p a n) ≡ (0, (p, a) ∷ [])
  unfolding pay_step
  pay_step-tally order_id p a n = elim (Result-cases (s.pay p a n)) [
    | inl (hash, paid) ↦ rw (paid, pay_step) after_payment
    | inr (e, unpaid) ↦ elim (Option-cases (attached_hash e)) [
      | inl no_hash ↦ rw (unpaid, no_hash, pay_step) refl
      | inr (hash, h) ↦ elim (Bool-cases (is_dropped e)) [
        | inl d ↦ rw (unpaid, h, d, pay_step) refl
        | inr d ↦ rw (unpaid, h, d, pay_step) after_payment
      ]
    ]
  ]
    where
      after_payment :
          ◌≡◌ {A = ℕ × List (PaymentInstructions × Asset)}
            (
              orders (wait_step s order_id).effects,
              (p, a) ∷ payments (wait_step s order_id).effects,
            )
            (0, (p, a) ∷ [])
      after_payment = ap (λ t. (t.0, (p, a) ∷ t.1)) (wait_step-tally order_id)

  -- The effects of the check of the trustline: none, or one submitted transaction.
  ensure_trustline-effects :
      (n : Option Network)
      → ((ensure_trustline s n).1 ≡ []) ⊎ ((ensure_trustline s n).1 ≡ trustline_submitted ∷ [])
  unfolding ensure_trustline add_usdc_trustline
  ensure_trustline-effects n = elim (Result-cases (s.load_account (get_horizon_url none))) [
    | inr (e, l) ↦ rw (l, ensure_trustline) (inl refl)
    | inl (bs, l) ↦ elim (Bool-cases (str_eq (read_balance bs).usdc "0")) [
      | inr funded ↦ rw (l, funded, ensure_trustline) (inl refl)
      | inl empty ↦ elim (Result-cases (s.load_account (get_horizon_url n))) [
        | inr (e, m) ↦ rw (l, empty, m, ensure_trustline) (inl refl)
        | inl (again, m) ↦ elim (Bool-cases (has_trustline again)) [
          | inl t ↦ rw (l, empty, m, t, ensure_trustline) (inl refl)
          | inr t ↦ rw (l, empty, m, t, ensure_trustline) (added (get_or n public_network))
        ]
      ]
    ]
  ]
    where
      added :
          (network : Network)
          → ((add_usdc_trustline s network).1 ≡ [])
            ⊎ ((add_usdc_trustline s network).1 ≡ trustline_submitted ∷ [])
      added network = elim (Result-cases (s.load_account (get_horizon_url (some network)))) [
        | inr (e, l) ↦ rw (l, add_usdc_trustline) (inl refl)
        | inl (bs, l) ↦ elim (Bool-cases (has_trustline bs)) [
          | inl t ↦ rw (l, t, add_usdc_trustline) (inl refl)
          | inr t ↦ rw (l, t, add_usdc_trustline) (inr refl)
        ]
      ]

  -- What the purchase of an order may do to the world: no order, and no payment or the one.
  abbrev pub Once : PaymentInstructions → Asset → Outcome → Type 0
  Once p a o = (tally o ≡ (0, [])) ⊎ (tally o ≡ (0, (p, a) ∷ []))

  pub trustline_step-Once :
      (order_id : String) (p : PaymentInstructions) (a : Asset) (n : Option Network)
      → Once p a (trustline_step s order_id p a n)
  unfolding trustline_step
  trustline_step-Once order_id p xlm n = inr (pay_step-tally order_id p xlm n)
  trustline_step-Once order_id p usdc n = elim (Result-cases (ensure_trustline s n).0) [
    | inr (e, r) ↦ elim (ensure_trustline-effects n) [
      | inl none_submitted ↦ rw (r, none_submitted, trustline_step) (inl refl)
      | inr submitted ↦ rw (r, submitted, trustline_step) (inl refl)
    ]
    | inl (h, r) ↦ elim (ensure_trustline-effects n) [
      | inl none_submitted ↦
          rw (r, none_submitted, trustline_step) (inr (pay_step-tally order_id p usdc n))
      | inr submitted ↦ rw (r, submitted, trustline_step) (inr (pay_step-tally order_id p usdc n))
    ]
  ]

  pub finish_plan-tally :
      (order_id : String) (a : Asset) (n : Option Network) (plan : Plan)
      → (tally (finish_plan s order_id a n plan) ≡ (0, []))
        ⊎ ((p : PaymentInstructions) × (plan ≡ go (some p) false)
            × (tally (finish_plan s order_id a n plan) ≡ (0, (p, a) ∷ [])))
  unfolding finish_plan
  finish_plan-tally order_id a n (finished r) = inl refl
  finish_plan-tally order_id a n (go p true) = inl (wait_step-tally order_id)
  finish_plan-tally order_id a n (go none false) = inl refl
  finish_plan-tally order_id a n (go (some p) false) = elim (trustline_step-Once order_id p a n) [
    | inl t ↦ inl t
    | inr t ↦ inr (p, refl, t)
  ]
