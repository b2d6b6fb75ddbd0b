-- ===== src/Fulfillment/Callback.antt =====
-- backend/src/api/vcc-callback.js: the checks on a callback of the card service, and what it does to
-- its order. The signature check of backend/src/lib/hmac.js is a parameter, and so is the opening of
-- a sealed secret; the totals of the key, the audit rows and the card columns are left out.
use cards.Prelude.{
  Bool, true, false, not, ◌&&◌, ◌||◌, Option, none, some, String, str_eq, truthy, get_or,
  if◌then◌else◌,
}
use cards.Fulfillment.{
  Order, State, tell_agent, with_status, delivered, failed, is_terminal, or_null,
}
use cards.Fulfillment.Refund.{schedule_refund}

-- The two columns that the check of a callback reads.
pub record Guard : Type 0 where
  pub callback_nonce : Option String
  pub callback_secret : Option String

pub record Headers : Type 0 where
  pub signature : Option String
  pub timestamp : Option String
  pub order_id : Option String
  pub nonce : Option String

pub data Answer : Type 0 where
  missing_signature invalid_signature timestamp_expired missing_fields order_id_mismatch
        order_not_found invalid_status already_terminal server_error done :
      Answer

-- The verdict of the signature check.
pub data Signature : Type 0 where
  signed fields_missing too_old bad : Signature

abbrev pub equal_texts : Option String → Option String → Bool
equal_texts none b = false
equal_texts (some a) none = false
equal_texts (some a) (some b) = str_eq a b

-- What is known before the signature is checked: the nonce and the secret of the order, or a refusal.
pub data Known : Type 0 where
  known : (nonce secret : Option String) → Known
  refused : Known

abbrev pub with_nonce : Option String → Option String → Option String → Known
with_nonce header none secret = known none secret
with_nonce header (some stored) secret =
    if truthy header && equal_texts header (some stored)
    then known (some stored) secret
    else refused

-- A sealed secret that does not open refuses the callback.
abbrev pub with_opened : Option String → Option String → Option String → Known
with_opened header stored none = refused
with_opened header stored (some opened) = with_nonce header stored (some opened)

module _ (open_secret : String → Option String) where
  abbrev pub open_row : Option String → Guard → Option String → Known
  open_row header row none = with_nonce header (or_null row.callback_nonce) none
  open_row header row (some box) = with_opened header (or_null row.callback_nonce) (open_secret box)

  -- `row` is the row of the order that the headers name.
  unfoldable pub look_up : Headers → Option Guard → Known
  look_up h none = known none none
  look_up h (some row) =
      if truthy h.order_id
      then open_row h.nonce row (or_null row.callback_secret)
      else known none none

abbrev is_some : Option String → Bool
is_some none = false
is_some (some s) = true

-- `requireV3`.
abbrev pub require_v3 : Option String → Option String → Bool
require_v3 nonce secret = is_some nonce || is_some secret

-- `WIRE_ERROR`.
abbrev pub after_check : Signature → Option Answer
after_check signed = none
after_check fields_missing = some missing_signature
after_check too_old = some timestamp_expired
after_check bad = some invalid_signature

module _ (open_secret : String → Option String)
    (verify : Headers → (nonce secret : Option String) → (require_v3 : Bool) → Signature) where
  abbrev pub checked : Headers → Known → Option Answer
  checked h refused = some invalid_signature
  checked h (known nonce secret) = after_check (verify h nonce secret (require_v3 nonce secret))

  -- The checks up to the signature: nothing, or the answer that ends the request.
  unfoldable pub authorize : Headers → Option Guard → Option Answer
  unfolding look_up
  authorize h row =
      if not (truthy h.signature) || not (truthy h.timestamp)
      then some missing_signature
      else checked h (look_up open_secret h row)

-- The card of the body: none, one that `sealCard` refuses by an exception, or one that it seals.
pub data CardPart : Type 0 where
  no_card bad_card good_card : CardPart

-- `status` of the body.
pub data Report : Type 0 where
  fulfilled : CardPart → Report
  failure other : Report

abbrev pub act_on : Report → Order → State → State × Answer
act_on (fulfilled good_card) o w =
    (tell_agent delivered o (record w { order = some (with_status delivered w.now o) }), done)
act_on (fulfilled no_card) o w = (w, invalid_status)
act_on (fulfilled bad_card) o w = (w, server_error)
act_on failure o w = (
  schedule_refund (tell_agent failed o (record w { order = some (with_status failed w.now o) })),
  done,
)
act_on other o w = (w, invalid_status)

abbrev pub report_row : Report → Option Order → State → State × Answer
report_row r none w = (w, order_not_found)
report_row r (some o) w = if is_terminal o.status then (w, already_terminal) else act_on r o w

-- What a verified callback does.
unfoldable pub vcc_callback : Report → State → State × Answer
unfolding schedule_refund
vcc_callback r w = report_row r w.order w

-- The checks on the ids of the body and of the headers.
abbrev pub check_body : Headers → (order_id status : Option String) → Option Answer
check_body h order_id status =
    if not (truthy order_id) || not (truthy status)
    then some missing_fields
    else if truthy h.order_id && not (equal_texts h.order_id order_id)
    then some order_id_mismatch
    else none

abbrev report_of : String → CardPart → Report
report_of status card =
    if str_eq status "fulfilled"
    then fulfilled card
    else if str_eq status "failed"
    then failure
    else other

abbrev pub respond : Option Answer → Option Answer → Report → State → State × Answer
respond (some a) b r w = (w, a)
respond none (some a) r w = (w, a)
respond none none r w = vcc_callback r w

module _ (open_secret : String → Option String)
    (verify : Headers → (nonce secret : Option String) → (require_v3 : Bool) → Signature) where
  -- The handler of a request: the row of the order that the headers name, and the fields of the body.
  unfoldable pub callback_request :
      Headers → Option Guard → (order_id status : Option String) → CardPart → State → State × Answer
  unfolding authorize vcc_callback
  callback_request h row order_id status card w =
      respond (authorize open_secret verify h row) (check_body h order_id status)
        (report_of (get_or status "") card) w
