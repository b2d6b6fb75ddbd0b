-- ===== src/Webhooks/Tests.antt =====
-- Webhooks that fail and circuits that open, and the theorems at one of them.
use cards.Prelude.{◌≤◌, ◌≡◌, refl, true, false, List, [], ◌∷◌, Option, none, some, String, arith}
use cards.Fulfillment.{delivered}
use cards.Webhooks.{
  Circuit, circuit_is_open, record_circuit_failure, WebhookPayload, card_notice, columns_of, Queued,
  no_columns, refuses, opens, enqueue_webhook, redact_card_fields, rehydrate, is_due, retry_webhook,
}
use cards.Prelude.Trim.{trim, is_space}
use cards.Response.{normalize_card_brand}
use cards.Response.Vault.{Card, seal_card, open_card, seal_field}
use cards.Response.Settled.{Opens}
use cards.Webhooks.Breaker.{
  Delivery, failed_at, succeeded_at, after_deliveries, after_deliveries-open,
}
use cards.Webhooks.Retries.{Tick, taken_up, taken_up_at_most_three}
use cards.Webhooks.Cards.{HasNoSecret, rehydrate-enqueue_webhook}

abbrev visa : Card
visa = record {
  number = some "4111111111111111";
  cvv = some "123";
  expiry = some "12/27";
  brand = some "Visa";
}

abbrev delivery_notice : WebhookPayload
delivery_notice = record { order_id = "o-1"; status = delivered; card = some visa }

abbrev queued_notice : Queued
queued_notice = record {
  payload = record {
    order_id = "o-1";
    status = delivered;
    card = some (record { number = none; cvv = none; expiry = none; brand = some "Visa" });
  };
  attempts = 1;
  delivered = false;
  next_attempt = 30_007;
}

notice_is_queued : enqueue_webhook false 7 delivery_notice ≡ some queued_notice
unfolding enqueue_webhook redact_card_fields
notice_is_queued = refl

-- Before its time, at its time, with a vault that refuses.
abbrev four_ticks : List Tick
four_ticks =
    record { time = 8; vault = opens visa; success = true }
    ∷ record { time = 30_007; vault = opens visa; success = false }
    ∷ record { time = 400_000; vault = refuses; success = true }
    ∷ record { time = 999_999; vault = no_columns; success = true }
    ∷ []

two_of_four : taken_up four_ticks queued_notice ≡ 2
unfolding retry_webhook rehydrate is_due
two_of_four = refl

taken_up_at_most_three_example : taken_up four_ticks queued_notice ≤ 3
taken_up_at_most_three_example =
    taken_up_at_most_three 7 delivery_notice queued_notice four_ticks notice_is_queued

-- Without a key the secret box passes a text through.
abbrev plain_seal : String → String
plain_seal s = s

abbrev plain_open : String → Option String
plain_open s = some s

plain_Opens : Opens plain_seal plain_open
plain_Opens s h = (refl, h)

visa_sealed : seal_card plain_seal visa ≡ some visa
unfolding seal_card seal_field trim is_space
visa_sealed = refl

abbrev queued_card : Queued
queued_card = record {
  payload = redact_card_fields (card_notice "o-1" visa);
  attempts = 1;
  delivered = false;
  next_attempt = 30_007;
}

card_is_queued : enqueue_webhook false 7 (card_notice "o-1" visa) ≡ some queued_card
unfolding enqueue_webhook
card_is_queued = refl

-- The label of the first notice is not the brand that a retry sends.
first_label : (card_notice "o-1" visa).card ≡ some (record visa { brand = some "USD Visa Card" })
unfolding card_notice normalize_card_brand trim is_space
first_label = refl

rehydrate-enqueue_webhook_example :
    HasNoSecret queued_card.payload.card
    × (rehydrate (columns_of (open_card plain_open visa)) queued_card.payload
        ≡ some (record (card_notice "o-1" visa) { card = some visa }))
rehydrate-enqueue_webhook_example =
    rehydrate-enqueue_webhook plain_seal plain_open plain_Opens 7 "o-1" "4111111111111111" "123"
      "12/27" (some "Visa") visa queued_card refl visa_sealed card_is_queued

-- Five failures within the window, the last at 5000.
abbrev opened_circuit : Option Circuit
opened_circuit = some (record { failures = []; opened_until = 305_000 })

fifth_failure_opens :
    record_circuit_failure
      (some (record { failures = 1000 ∷ 2000 ∷ 3000 ∷ 4000 ∷ []; opened_until = 0 }))
      5000
    ≡ opened_circuit
unfolding record_circuit_failure
fifth_failure_opens = refl

abbrev late_deliveries : List Delivery
late_deliveries = succeeded_at 6000 ∷ failed_at 7000 ∷ []

after_deliveries-open_example :
    circuit_is_open (after_deliveries late_deliveries opened_circuit) 9000 ≡ true
after_deliveries-open_example =
    after_deliveries-open late_deliveries opened_circuit 5000 9000
      (omega arith, (omega arith, omega arith)) (omega arith) refl
