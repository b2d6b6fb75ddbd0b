-- ===== src/Signature/Tests.antt =====
-- A signed callback, with an HMAC that is a fixed digest of the secret's first letter.
use cards.Prelude.{
  ◌≡◌, ◌≢◌, refl, sym, ap, ◌∙◌, true, List, [], ◌∷◌, Option, none, some, String, str_eq,
  if◌then◌else◌,
}
use cards.Prelude.Text.{Text, codes, is_digit, digits_from}
use cards.Fulfillment.Callback.{
  Headers, Guard, invalid_signature, authorize, look_up, equal_texts, good_card, vcc_callback,
  callback_request,
}
use cards.Fulfillment.{State, Call, ordering, delivered, webhook, or_null}
use cards.Signature.{verify_callback, verify_vcc_signature, safe_eq_hex, is_canonical_field}
use cards.Signature.Bound.{IsSigned, row_key, callback_request-IsSigned}

-- Not a MAC: enough to tell two keys apart.
abbrev digest : (secret payload : String) → Text
digest secret payload = if str_eq secret "k1" then codes "aa11" else codes "bb22"

abbrev open_box : String → Option String
open_box box = if str_eq box "sealed" then some "k1" else none

abbrev row : Guard
row = record { callback_nonce = some "n1"; callback_secret = some "sealed" }

abbrev headers : Headers
headers = record {
  signature = some "sha256=AA11";
  timestamp = some "1000";
  order_id = some "o1";
  nonce = some "n1";
}

accepted :
    authorize open_box (verify_vcc_signature digest (some "k2") "{}" 1000) headers (some row) ≡ none
unfolding authorize look_up verify_vcc_signature verify_callback safe_eq_hex is_canonical_field
    is_digit digits_from
accepted = refl

without_nonce :
    authorize open_box
      (verify_vcc_signature digest (some "k2") "{}" 1000)
      (record headers { nonce = none })
      (some row)
    ≡ some invalid_signature
unfolding authorize look_up verify_vcc_signature verify_callback safe_eq_hex is_canonical_field
    is_digit digits_from
without_nonce = refl

abbrev ordered : State
ordered = record {
  now = 1_000;
  frozen = true;
  order = some (record {
    status = ordering;
    amount_usdc = some (codes "10.00");
    expected_xlm_amount = none;
    payment_asset = some "usdc_soroban";
    stellar_txid = some "tx-1";
    sender_address = some "GAGENT";
    payment_xlm_amount = none;
    excess_usdc = none;
    request_id = none;
    webhook_url = some "https://agent.example/hook";
    vcc_job_id = some "job-1";
    callback_nonce = some "n1";
    xlm_sent_at = some 500;
    ctx_stellar_txid = some "tx-2";
    vcc_notified_at = some 600;
    refund_stellar_txid = none;
    fulfillment_attempt = 0;
    created_at = 100;
    updated_at = 600;
  });
  unmatched = [];
  calls = [];
  tasks = [];
}

abbrev after_request : State
after_request =
    (callback_request open_box (verify_vcc_signature digest (some "k2") "{}" 1000) headers
      (some row) (some "o1") (some "fulfilled") good_card ordered).0

told_agent : after_request.calls ≡ webhook delivered ∷ []
unfolding callback_request authorize vcc_callback look_up verify_vcc_signature verify_callback
    safe_eq_hex is_canonical_field is_digit digits_from
told_agent = refl

cons_nil : {c : Call} {cs : List Call} → ◌≡◌ {A = List Call} (c ∷ cs) [] → ⊥
cons_nil h = cc

changed : after_request ≢ ordered
changed e = cons_nil (sym told_agent ∙ ap (λ (u : State). u.calls) e)

callback_request-IsSigned_example :
    (equal_texts (some "o1") (some "o1") ≡ true)
    × ((k : String) × (row_key digest headers "{}" open_box
            (some "k2")
            1000
            (or_null (some "sealed"))
          ≡ some k)
        × IsSigned digest headers "{}" "n1" k)
callback_request-IsSigned_example =
    callback_request-IsSigned digest headers "{}" open_box (some "k2") 1000 row "n1" (some "o1")
      (some "fulfilled") good_card ordered refl refl refl changed
