-- ===== src/Purchase/Endings.antt =====
-- How `purchaseCardOWS` (sdk/src/ows.ts) ends once its order exists.
use cards.Prelude.{
  ◌≡◌, refl, subst, ◌⊎◌, inl, inr, true, false, Option, none, some, List, [], ◌∷◌, String,
  Bool-cases, Option-cases,
}
use cards.Errors.{
  Error, Result, ok, err, Result-cases, attached_hash, is_dropped, is_order_failed, is_cards402,
  message, resumable, unpaid, paid,
}
use cards.Client.{PaymentInstructions, CardDetails}
use cards.Soroban.{Network, Asset, usdc, xlm}
use cards.Purchase.{Effect, Services, Outcome, after_all}
use cards.Purchase.Steps.{
  has_timeout_code, ensure_trustline, wait_step, wait_error, pay_step, trustline_step,
}

module _ (s : Services) (a : Asset) (n : Option Network) where
  -- The errors of a purchase once its order exists, from the payment on, where `p` are the instructions
  -- that it pays with in the asset `a` on the network `n`, or none if it only waits: resumable ones,
  -- which name the order, and errors of the wait that end the order or are the client's own.
  pub data Stops (order_id : String) (p : Option PaymentInstructions) : Error → Type 0 where
    no_trustline :
        (q : PaymentInstructions) (m : String) (e : Error)
        → p ≡ some q
        → a ≡ usdc
        → (ensure_trustline s n).0 ≡ err e
        → Stops order_id p (resumable order_id m unpaid none)
    not_paid :
        (q : PaymentInstructions) (e : Error)
        → p ≡ some q
        → s.pay q a n ≡ err e
        → attached_hash e ≡ none
        → Stops order_id p (resumable order_id (message e) unpaid none)
    dropped_tx :
        (q : PaymentInstructions) (e : Error) (h : String)
        → p ≡ some q
        → s.pay q a n ≡ err e
        → attached_hash e ≡ some h
        → is_dropped e ≡ true
        → Stops order_id p (resumable order_id (message e) unpaid (some h))
    not_delivered :
        (e : Error)
        → s.wait_for_card order_id ≡ err e
        → is_order_failed e ≡ false
        → (is_cards402 e ≡ false) ⊎ (has_timeout_code e ≡ true)
        → Stops order_id p (resumable order_id (message e) paid none)
    terminal :
        (e : Error)
        → s.wait_for_card order_id ≡ err e
        → (is_order_failed e ≡ true) ⊎ ((is_cards402 e ≡ true) × (has_timeout_code e ≡ false))
        → Stops order_id p e

  -- A result is the card that the wait gave, with the order's id, or an error of this kind.
  abbrev pub Ended : String → Option PaymentInstructions → Result (CardDetails × String) → Type 0
  Ended order_id p (ok r) = (s.wait_for_card order_id ≡ ok r.0) × (r.1 ≡ order_id)
  Ended order_id p (err e) = Stops order_id p e

  wait_error-Stops :
      (order_id : String) (p : Option PaymentInstructions) (e : Error)
      → s.wait_for_card order_id ≡ err e
      → Stops order_id p (wait_error s order_id e)
  unfolding wait_error
  wait_error-Stops order_id p e w = elim (Bool-cases (is_order_failed e)) [
    | inl f ↦ rw (f, wait_error) (terminal e w (inl f))
    | inr f ↦ elim (Bool-cases (is_cards402 e)) [
      | inr c ↦ rw (f, c, wait_error) (not_delivered e w f (inl c))
      | inl c ↦ elim (Bool-cases (has_timeout_code e)) [
        | inl t ↦ rw (f, c, t, wait_error) (not_delivered e w f (inr t))
        | inr t ↦ rw (f, c, t, wait_error) (terminal e w (inr (c, t)))
      ]
    ]
  ]

  pub wait_step-Ended :
      (order_id : String) (p : Option PaymentInstructions)
      → Ended order_id p (wait_step s order_id).result
  unfolding wait_step
  wait_step-Ended order_id p = elim (Result-cases (s.wait_for_card order_id)) [
    | inl (card, w) ↦ rw (w, wait_step) (w, refl)
    | inr (e, w) ↦ rw (w, wait_step) (wait_error-Stops order_id p e w)
  ]

  pay_step-Ended :
      (order_id : String) (q : PaymentInstructions)
      → Ended order_id (some q) (pay_step s order_id q a n).result
  unfolding pay_step
  pay_step-Ended order_id q = elim (Result-cases (s.pay q a n)) [
    | inl (hash, r) ↦ rw (r, pay_step) (wait_step-Ended order_id (some q))
    | inr (e, r) ↦ elim (Option-cases (attached_hash e)) [
      | inl no_hash ↦ rw (r, no_hash, pay_step) (not_paid q e refl r no_hash)
      | inr (hash, h) ↦ elim (Bool-cases (is_dropped e)) [
        | inl d ↦ rw (r, h, d, pay_step) (dropped_tx q e hash refl r h d)
        | inr d ↦ rw (r, h, d, pay_step) (wait_step-Ended order_id (some q))
      ]
    ]
  ]

  after_all-result : (xs : List Effect) (o : Outcome) → (after_all xs o).result ≡ o.result
  after_all-result [] o = refl
  after_all-result (x ∷ xs) o = after_all-result xs o

  with_trustline-Ended :
      (order_id : String) (q : PaymentInstructions)
      → a ≡ usdc
      → Ended order_id (some q) (trustline_step s order_id q usdc n).result
  unfolding trustline_step
  with_trustline-Ended order_id q u = elim (Result-cases (ensure_trustline s n).0) [
    | inr (e, r) ↦
        rw (after_all-result (ensure_trustline s n).1 _, r, trustline_step)
          (no_trustline q _ e refl u r)
    | inl (h, r) ↦
        rw (after_all-result (ensure_trustline s n).1 _, r, trustline_step)
          (subst (λ x. Ended order_id (some q) (pay_step s order_id q x n).result) u
            (pay_step-Ended order_id q))
  ]

  pub trustline_step-Ended :
      (order_id : String) (q : PaymentInstructions) (x : Asset)
      → a ≡ x
      → Ended order_id (some q) (trustline_step s order_id q x n).result
  unfolding trustline_step
  trustline_step-Ended order_id q xlm u =
      subst (λ x. Ended order_id (some q) (pay_step s order_id q x n).result) u
        (pay_step-Ended order_id q)
  trustline_step-Ended order_id q usdc u = with_trustline-Ended order_id q u
