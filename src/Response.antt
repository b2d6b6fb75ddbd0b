-- ===== src/Response.antt =====
-- What the backend shows of an order: `buildOrderResponse` of backend/src/api/orders.js with `openCard`
-- of backend/src/lib/card-vault.js and `normalizeCardBrand` of backend/src/lib/normalize-card.js, and
-- the same body as the SDK reads it (sdk/src/client.ts). The opening of a sealed column is a parameter,
-- and none where it throws; the fields of an approval and the metadata, which the SDK's wait does not
-- read, are left out.
pub mod Vault
pub mod Settled
pub mod Tests
use cards.Prelude.{
  ℕ, Bool, true, false, ◌||◌, Option, none, some, String, List, [], ◌∷◌, truthy, get_or, map, ◌==◌,
  if◌then◌else◌,
}
use cards.Prelude.Text.{Text, codes}
use cards.Prelude.Trim.{trim}
use cards.Permissions.{lower}
use cards.Client.{
  OrderStatus, OrderPhase, CardDetails, PaymentInstructions, awaiting_approval, awaiting_payment,
  processing, ready, failed, refunded, rejected, expired,
}
use cards.Fulfillment.{Status}
use cards.Response.Vault.{Card, open_card}

-- The columns of an order's row that are shown; `payment` is what `JSON.parse` makes of its column.
pub record Row : Type 0 where
  pub id : String
  pub status : Status
  pub amount_usdc : String
  pub payment_asset : String
  pub card_number : Option String
  pub card_cvv : Option String
  pub card_expiry : Option String
  pub card_brand : Option String
  pub error : Option String
  pub refund_stellar_txid : Option String
  pub payment : Option PaymentInstructions
  pub created_at : String
  pub updated_at : String

-- The text of a status.
abbrev status_text : Status → String
status_text Status.awaiting_approval = "awaiting_approval"
status_text Status.pending_payment = "pending_payment"
status_text Status.ordering = "ordering"
status_text Status.delivered = "delivered"
status_text Status.failed = "failed"
status_text Status.refund_pending = "refund_pending"
status_text Status.refunded = "refunded"
status_text Status.expired = "expired"
status_text Status.rejected = "rejected"

-- `PHASE`.
abbrev pub phase : Status → OrderPhase
phase Status.awaiting_approval = awaiting_approval
phase Status.pending_payment = awaiting_payment
phase Status.expired = expired
phase Status.rejected = rejected
phase Status.ordering = processing
phase Status.delivered = ready
phase Status.failed = failed
phase Status.refund_pending = failed
phase Status.refunded = refunded

abbrev starts_with : Text → Text → Bool
starts_with [] s = true
starts_with (c ∷ p) [] = false
starts_with (c ∷ p) (d ∷ s) = let rest = starts_with p s in if c == d then rest else false

-- `text.includes(part)`.
abbrev includes_text : Text → Text → Bool
includes_text p [] = starts_with p []
includes_text p (c ∷ s) = starts_with p (c ∷ s) || includes_text p s

abbrev brand_label : Text → String
brand_label s =
    if includes_text (codes "visa") s
    then "USD Visa Card"
    else if includes_text (codes "master") s
    then "USD Mastercard"
    else if includes_text (codes "amex") s || includes_text (codes "american express") s
    then "USD Amex Card"
    else if includes_text (codes "discover") s
    then "USD Discover Card"
    else "USD Prepaid Card"

abbrev label_of : String → Option String
label_of s = if truthy (some s) then some (brand_label (map lower (codes s))) else none

unfoldable pub normalize_card_brand : Option String → Option String
normalize_card_brand none = none
normalize_card_brand (some raw) = label_of (trim raw)

-- The body of a response.
pub record Shown : Type 0 where
  pub order_id : String
  pub status : String
  pub phase : OrderPhase
  pub amount_usdc : String
  pub payment_asset : String
  pub card : Option Card
  pub error : Option String
  pub note : Option String
  pub refund : Option String
  pub payment : Option PaymentInstructions
  pub created_at : String
  pub updated_at : String

abbrev note_of : Status → Option String
note_of Status.awaiting_approval =
    some "Awaiting owner approval. The account owner has been notified."
note_of Status.expired = some "Payment window expired. No funds were taken."
note_of Status.rejected = some "This transaction was rejected. No funds were taken."
note_of _ = none

abbrev error_of : Status → Option String → Option String
error_of Status.rejected e = some (get_or e "rejected_by_owner")
error_of Status.failed e = e
error_of Status.refund_pending e = e
error_of Status.refunded e = e
error_of _ e = none

abbrev refund_of : Status → Option String → Option String
refund_of Status.refunded txid = txid
refund_of _ txid = none

abbrev payment_of : Status → Option PaymentInstructions → Option PaymentInstructions
payment_of Status.pending_payment p = p
payment_of _ p = none

abbrev pub shown_with : Row → Option Card → Shown
shown_with o card = record {
  order_id = o.id;
  status = status_text o.status;
  phase = phase o.status;
  amount_usdc = o.amount_usdc;
  payment_asset = o.payment_asset;
  card = card;
  error = error_of o.status o.error;
  note = note_of o.status;
  refund = refund_of o.status o.refund_stellar_txid;
  payment = payment_of o.status o.payment;
  created_at = o.created_at;
  updated_at = o.updated_at;
}

-- The opened card, with the label of its brand.
abbrev with_opened_card : Row → Option Card → Option Shown
with_opened_card o none = none
with_opened_card o (some c) =
    some (shown_with o (some (record c { brand = normalize_card_brand c.brand })))

abbrev is_delivered_status : Status → Bool
is_delivered_status Status.delivered = true
is_delivered_status _ = false

module _ (open_box : String → Option String) where
  -- `buildOrderResponse`; nothing where the vault throws.
  unfoldable pub build_order_response : Row → Option Shown
  unfolding normalize_card_brand
  build_order_response o =
      if is_delivered_status o.status
      then with_opened_card o (
          open_card open_box (record {
            number = o.card_number;
            cvv = o.card_cvv;
            expiry = o.card_expiry;
            brand = o.card_brand;
          }))
      else some (shown_with o none)

abbrev client_status : Shown → Option CardDetails → OrderStatus
client_status r card = record {
  order_id = r.order_id;
  status = r.status;
  phase = r.phase;
  amount_usdc = r.amount_usdc;
  payment_asset = r.payment_asset;
  card = card;
  error = r.error;
  note = r.note;
  refund = r.refund;
  payment = r.payment;
  created_at = r.created_at;
  updated_at = r.updated_at;
}

abbrev card_details :
    Option String → Option String → Option String → Option String → Option CardDetails
card_details none cvv expiry brand = none
card_details (some n) none expiry brand = none
card_details (some n) (some v) none brand = none
card_details (some n) (some v) (some e) brand =
    some (record { number = n; cvv = v; expiry = e; brand = brand })

abbrev with_details : Shown → Option CardDetails → Option OrderStatus
with_details r none = none
with_details r (some d) = some (client_status r (some d))

abbrev read_card : Shown → Option Card → Option OrderStatus
read_card r none = some (client_status r none)
read_card r (some c) = with_details r (card_details c.number c.cvv c.expiry c.brand)

-- The body as the SDK's type `OrderStatus`; a card with a null column is none of that type.
unfoldable pub read_order : Shown → Option OrderStatus
read_order r = read_card r r.card

-- What the callback writes for a card (backend/src/api/vcc-callback.js).
abbrev pub store_card : Card → Row → Row
store_card sealed o = record o {
  status = Status.delivered;
  card_number = sealed.number;
  card_cvv = sealed.cvv;
  card_expiry = sealed.expiry;
  card_brand = sealed.brand;
}
