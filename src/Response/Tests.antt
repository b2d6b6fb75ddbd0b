-- ===== src/Response/Tests.antt =====
-- A delivered order as an agent gets it, and the theorems at it.
use cards.Prelude.{◌≡◌, refl, Option, none, some, String}
use cards.Prelude.Trim.{trim, is_space}
use cards.Errors.{ok}
use cards.Client.{CardDetails}
use cards.Fulfillment.{ordering}
use cards.Response.{Row, store_card, normalize_card_brand}
use cards.Response.Vault.{Card, seal_card, seal_field}
use cards.Response.Settled.{Opens, client_result, client_result-store_card}

long_brand :
    normalize_card_brand (some "Visa Reward Card, 6-Month Expiration") ≡ some "USD Visa Card"
unfolding normalize_card_brand trim is_space
long_brand = refl

blank_brand : normalize_card_brand (some "  ") ≡ none
unfolding normalize_card_brand trim is_space
blank_brand = refl

abbrev visa_card : Card
visa_card = record {
  number = some "4111111111111111";
  cvv = some "123";
  expiry = some "12/27";
  brand = some "visa";
}

-- Without a key the secret box passes a text through.
abbrev plain_seal : String → String
plain_seal s = s

abbrev plain_open : String → Option String
plain_open s = some s

plain_Opens : Opens plain_seal plain_open
plain_Opens s h = (refl, h)

visa_sealed : seal_card plain_seal visa_card ≡ some visa_card
unfolding seal_card seal_field trim is_space
visa_sealed = refl

blank_number_refused : seal_field plain_seal (some " ") ≡ none
unfolding seal_field trim is_space
blank_number_refused = refl

abbrev paid_row : Row
paid_row = record {
  id = "o-1";
  status = ordering;
  amount_usdc = "10.00";
  payment_asset = "usdc_soroban";
  card_number = none;
  card_cvv = none;
  card_expiry = none;
  card_brand = none;
  error = none;
  refund_stellar_txid = none;
  payment = none;
  created_at = "2026-04-15T00:00:00Z";
  updated_at = "2026-04-15T00:01:00Z";
}

abbrev agent_card : CardDetails
agent_card = record {
  number = "4111111111111111";
  cvv = "123";
  expiry = "12/27";
  brand = normalize_card_brand (some "visa");
}

client_result-store_card_example :
    client_result plain_open "o-1" (store_card visa_card paid_row) ≡ some (ok agent_card)
client_result-store_card_example =
    client_result-store_card plain_seal plain_open plain_Opens "o-1" "4111111111111111" "123"
      "12/27" (some "visa") visa_card paid_row visa_sealed
