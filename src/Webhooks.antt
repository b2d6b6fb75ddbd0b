-- ===== src/Webhooks.antt =====
-- The delivery of webhooks: the circuit breaker, `redactCardFields` and `enqueueWebhook` of
-- backend/src/fulfillment.js, and `retryWebhooks` of backend/src/jobs.js, for one row of the queue.
-- Whether a delivery succeeds is the environment's choice.
pub mod Breaker
pub mod Retries
pub mod Cards
pub mod Tests
use cards.Prelude.{
  ℕ, zero, suc, ◌+◌, ◌-◌, Bool, true, false, not, ◌&&◌, ◌||◌, List, [], ◌∷◌, ◌++◌, Option, none,
  some, String, ltb, leb, length, truthy, if◌then◌else◌,
}
use cards.Fulfillment.{Status, delivered}
use cards.Response.{normalize_card_brand}
use cards.Response.Vault.{Card}

pub record Circuit : Type 0 where
  pub failures : List ℕ
  pub opened_until : ℕ

abbrev pub cb_threshold : ℕ
cb_threshold = 5

abbrev cb_window_ms : ℕ
cb_window_ms = 60_000

abbrev pub cb_cooldown_ms : ℕ
cb_cooldown_ms = 300_000

-- The state of an origin that failed before, or nothing.
abbrev pub circuit_is_open : Option Circuit → ℕ → Bool
circuit_is_open none now = false
circuit_is_open (some s) now = ltb now s.opened_until

-- `failures.filter((ts) => now - ts < CB_WINDOW_MS)`.
abbrev pub recent : ℕ → List ℕ → List ℕ
recent now [] = []
recent now (t ∷ ts) =
    let rest = recent now ts in if ltb now (t + cb_window_ms) then t ∷ rest else rest

abbrev known_circuit : Option Circuit → Circuit
known_circuit none = record { failures = []; opened_until = 0 }
known_circuit (some s) = s

abbrev pub trip : ℕ → List ℕ → ℕ → Circuit
trip now failures opened_until =
    if leb cb_threshold (length failures)
    then record { failures = []; opened_until = now + cb_cooldown_ms }
    else record { failures = failures; opened_until = opened_until }

unfoldable pub record_circuit_failure : Option Circuit → ℕ → Option Circuit
record_circuit_failure c now =
    let s = known_circuit c in some (trip now (recent now s.failures ++ now ∷ []) s.opened_until)

abbrev pub reset : ℕ → Circuit → Circuit
reset now s = record {
  failures = [];
  opened_until = if leb s.opened_until now then 0 else s.opened_until;
}

unfoldable pub record_circuit_success : Option Circuit → ℕ → Option Circuit
record_circuit_success none now = none
record_circuit_success (some s) now = some (reset now s)

pub record WebhookPayload : Type 0 where
  pub order_id : String
  pub status : Status
  pub card : Option Card

-- What the callback (backend/src/api/vcc-callback.js) tells an agent whose order is fulfilled; the
-- amount and the asset, which nothing touches, are left out.
unfoldable pub card_notice : (order_id : String) → Card → WebhookPayload
card_notice id c = record {
  order_id = id;
  status = delivered;
  card = some (record c { brand = normalize_card_brand c.brand });
}

abbrev redact_card : Option Card → Option Card
redact_card none = none
redact_card (some c) = some (record c { number = none; cvv = none; expiry = none })

unfoldable pub redact_card_fields : WebhookPayload → WebhookPayload
redact_card_fields p = record p { card = redact_card p.card }

-- A row of `webhook_queue`.
pub record Queued : Type 0 where
  pub payload : WebhookPayload
  pub attempts : ℕ
  pub delivered : Bool
  pub next_attempt : ℕ

abbrev pub max_webhook_attempts : ℕ
max_webhook_attempts = 3

-- `WEBHOOK_RETRY_DELAYS_MS[i] ?? null`.
abbrev retry_delay : ℕ → Option ℕ
retry_delay zero = some 30_000
retry_delay (suc zero) = some 300_000
retry_delay (suc (suc zero)) = some 1_800_000
retry_delay (suc (suc (suc n))) = none

-- `enqueueWebhook`: the delivery succeeds, or a redacted copy is queued.
unfoldable pub enqueue_webhook : Bool → ℕ → WebhookPayload → Option Queued
unfolding redact_card_fields
enqueue_webhook true now p = none
enqueue_webhook false now p = some (record {
  payload = redact_card_fields p;
  attempts = 1;
  delivered = false;
  next_attempt = now + 30_000;
})

-- What `openCard` makes of the order's columns: the order has no card, the vault refuses, or a card.
pub data Vault : Type 0 where
  no_columns : Vault
  refuses : Vault
  opens : Card → Vault

-- For a row whose columns hold a card.
abbrev pub columns_of : Option Card → Vault
columns_of none = refuses
columns_of (some c) = opens c

abbrev is_missing : Option String → Bool
is_missing none = true
is_missing (some s) = false

abbrev is_delivered : Status → Bool
is_delivered delivered = true
is_delivered _ = false

abbrev lacks_number : Option Card → Bool
lacks_number none = false
lacks_number (some c) = is_missing c.number

abbrev fill : Vault → WebhookPayload → Option WebhookPayload
fill no_columns p = some p
fill refuses p = none
fill (opens c) p = some (record p { card = some c })

-- The payload that goes out, or nothing when the vault refuses.
unfoldable pub rehydrate : Vault → WebhookPayload → Option WebhookPayload
rehydrate v p =
    if is_delivered p.status && truthy (some p.order_id) && lacks_number p.card
    then fill v p
    else some p

unfoldable pub is_due : ℕ → Queued → Bool
is_due now q = not q.delivered && leb q.attempts max_webhook_attempts && leb q.next_attempt now

abbrev retry_at : ℕ → Option ℕ → ℕ
retry_at now none = now
retry_at now (some delay) = now + delay

abbrev next_time : ℕ → ℕ → ℕ
next_time now attempts =
    if ltb max_webhook_attempts (attempts + 1) then now else retry_at now (retry_delay attempts)

abbrev fired : Bool → ℕ → Queued → Queued
fired true now q = record q { delivered = true }
fired false now q = record q { attempts = q.attempts + 1; next_attempt = next_time now q.attempts }

abbrev send_out : Option WebhookPayload → Bool → ℕ → Queued → Queued
send_out none success now q = record q { attempts = max_webhook_attempts + 1; next_attempt = now }
send_out (some p) success now q = fired success now q

-- One tick of `retryWebhooks` for a row.
unfoldable pub retry_webhook : Vault → Bool → ℕ → Queued → Queued
unfolding rehydrate is_due
retry_webhook v success now q =
    if is_due now q then send_out (rehydrate v q.payload) success now q else q
