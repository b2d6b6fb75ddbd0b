-- ===== src/Webhooks/Cards.antt =====
-- Card data and the webhook queue (backend/src/api/vcc-callback.js, backend/src/fulfillment.js,
-- backend/src/jobs.js).
use cards.Prelude.{ℕ, ◌≡◌, refl, subst, some_inj, true, false, Option, none, some, String, truthy}
use cards.Fulfillment.{delivered}
use cards.Response.Vault.{Card, seal_card, open_card}
use cards.Response.Settled.{Opens, open_card-seal_card}
use cards.Webhooks.{
  Queued, opens, columns_of, card_notice, redact_card_fields, enqueue_webhook, rehydrate,
}

-- No number, no code and no expiry.
abbrev pub HasNoSecret : Option Card → Type 0
HasNoSecret none = Unit
HasNoSecret (some c) = (c.number ≡ none) × (c.cvv ≡ none) × (c.expiry ≡ none)

-- A card as the card service reports it.
abbrev pub reported : (number cvv expiry : String) → (brand : Option String) → Card
reported n v x b = record { number = some n; cvv = some v; expiry = some x; brand = b }

-- What a retry sends once the vault has opened the columns to a card.
refilled :
    (id : String) (c d : Card)
    → truthy (some id) ≡ true
    → rehydrate (opens d) (redact_card_fields (card_notice id c))
      ≡ some (record { order_id = id; status = delivered; card = some d })
unfolding rehydrate redact_card_fields card_notice
refilled id c d t = rw (t) refl

queued_notice-HasNoSecret :
    (id : String) (c : Card) → HasNoSecret (redact_card_fields (card_notice id c)).card
unfolding redact_card_fields card_notice
queued_notice-HasNoSecret id c = (refl, refl, refl)

module _ (seal : String → String) (open_box : String → Option String)
    (box : Opens seal open_box) where
  -- Where the first notice of a fulfilled order is not delivered, and the vault opens what it seals,
  -- the queue keeps no number, code or expiry of the card, and a retry sends the notice with the very
  -- card that the card service reported and the callback sealed into the order's columns: with its
  -- number, code and expiry, and with its brand as reported, not with the label of the brand that the
  -- first notice has.
  pub rehydrate-enqueue_webhook :
      (now : ℕ) (id n v x : String) (b : Option String) (sealed : Card) (q : Queued)
      → truthy (some id) ≡ true
      → seal_card seal (reported n v x b) ≡ some sealed
      → enqueue_webhook false now (card_notice id (reported n v x b)) ≡ some q
      → HasNoSecret q.payload.card
        × (rehydrate (columns_of (open_card open_box sealed)) q.payload
            ≡ some (record (card_notice id (reported n v x b)) { card = some (reported n v x b) }))
  unfolding enqueue_webhook card_notice
  rehydrate-enqueue_webhook now id n v x b sealed q t e queued =
      rw (open_card-seal_card seal open_box box n v x b sealed e) (
        subst
          (λ (r : Queued).
            HasNoSecret r.payload.card
            × (rehydrate (opens (reported n v x b)) r.payload
                ≡ some
                    (record { order_id = id; status = delivered; card = some (reported n v x b) })))
          (some_inj queued)
          (
            queued_notice-HasNoSecret id (reported n v x b),
            refilled id (reported n v x b) (reported n v x b) t,
          ))
