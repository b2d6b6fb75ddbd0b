-- ===== src/Response/Settled.antt =====
-- What an agent's wait (sdk/src/client.ts) makes of the order that the backend shows
-- (backend/src/api/orders.js).
use cards.Prelude.{
  ◌≡◌, refl, ap, sym, subst, some_inj, none_some, Bool, true, false, ◌||◌, Option, none, some,
  String, str_eq, str_cases, inl, inr, if◌then◌else◌, ltb,
}
use cards.Prelude.Text.{codes}
use cards.Prelude.Trim.{trim}
use cards.Errors.{Result, ok}
use cards.Client.{CardDetails, OrderStatus}
use cards.Client.Settle.{settle, settle-ready}
use cards.Response.{Row, Shown, store_card, build_order_response, read_order, normalize_card_brand}
use cards.Response.Vault.{Card, byte_length, card_of, seal_field, seal_card, safe_open, open_card}

-- What an agent's wait makes of the row, where it is shown and read.
abbrev pub settle_read : String → Option OrderStatus → Option (Result CardDetails)
settle_read id none = none
settle_read id (some m) = settle id m

abbrev pub settle_shown : String → Option Shown → Option (Result CardDetails)
settle_shown id none = none
settle_shown id (some r) = settle_read id (read_order r)

abbrev pub client_result : (String → Option String) → String → Row → Option (Result CardDetails)
client_result open_box id o = settle_shown id (build_order_response open_box o)

-- The secret box opens what it seals, and seals no text to nothing.
abbrev pub Opens : (seal : String → String) → (open_box : String → Option String) → Type 0
Opens seal open_box =
    (s : String) → str_eq s "" ≡ false → (open_box (seal s) ≡ some s) × (str_eq (seal s) "" ≡ false)

module _ (seal : String → String) (open_box : String → Option String)
    (box : Opens seal open_box) where
  not_empty : (s : String) → str_eq (trim s) "" ≡ false → str_eq s "" ≡ false
  unfolding trim
  not_empty s h = elim (str_cases s "") [
    | inl e ↦ let f = subst (λ t. str_eq (trim t) "" ≡ false) e h in cc
    | inr e ↦ e
  ]

  sealed_text :
      (t b : Bool) (s sealed : Option String)
      → (if t || b then none else some s) ≡ some sealed
      → (t ≡ false) × (s ≡ sealed)
  sealed_text true b s sealed e = none_some e
  sealed_text false true s sealed e = none_some e
  sealed_text false false s sealed e = (refl, some_inj e)

  opened_again :
      (s : String) (sealed : Option String)
      → seal_field seal (some s) ≡ some sealed
      → safe_open open_box sealed ≡ some (some s)
  unfolding seal_field
  opened_again s sealed e =
      let (t, f) =
        sealed_text (str_eq (trim s) "") (ltb 64 (byte_length (codes s))) (some (seal s)) sealed
          e in
      let (o, m) = box s (not_empty s t) in
      subst (λ x. safe_open open_box x ≡ some (some s)) f (rw (m, o) refl)

  card_parts :
      (n v x : Option (Option String)) (b : Option String) (c : Card)
      → card_of n v x b ≡ some c
      → (n ≡ some c.number) × (v ≡ some c.cvv) × (x ≡ some c.expiry) × (b ≡ c.brand)
  card_parts none v x b c e = none_some e
  card_parts (some n) none x b c e = none_some e
  card_parts (some n) (some v) none b c e = none_some e
  card_parts (some n) (some v) (some x) b c e =
      let f = sym (some_inj e) in
      (
        ap (λ d. some d.number) (sym f),
        ap (λ d. some d.cvv) (sym f),
        ap (λ d. some d.expiry) (sym f),
        ap (λ d. d.brand) (sym f),
      )

  pub open_card-seal_card :
      (n v x : String) (b : Option String) (sealed : Card)
      → seal_card seal (record { number = some n; cvv = some v; expiry = some x; brand = b })
        ≡ some sealed
      → open_card open_box sealed
        ≡ some (record { number = some n; cvv = some v; expiry = some x; brand = b })
  unfolding seal_card open_card
  open_card-seal_card n v x b sealed e =
      let (p, q, r, t) =
        card_parts (seal_field seal (some n)) (seal_field seal (some v)) (seal_field seal (some x))
          b sealed e in
      rw
        (
          opened_again n sealed.number p,
          opened_again v sealed.cvv q,
          opened_again x sealed.expiry r,
          sym t,
        )
        refl

  -- A card that the card service reports, and that the callback seals into the columns of its order, is
  -- the card that an agent's wait returns: the same number, code and expiry, and the label of its brand.
  pub client_result-store_card :
      (id n v x : String) (b : Option String) (sealed : Card) (o : Row)
      → seal_card seal (record { number = some n; cvv = some v; expiry = some x; brand = b })
        ≡ some sealed
      → client_result open_box id (store_card sealed o)
        ≡ some (ok (record { number = n; cvv = v; expiry = x; brand = normalize_card_brand b }))
  unfolding build_order_response read_order
  client_result-store_card id n v x b sealed o e =
      rw (open_card-seal_card n v x b sealed e) (settle-ready id _ _ refl refl)
