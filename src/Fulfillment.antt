-- ===== src/Fulfillment.antt =====
-- The life of one order in the backend, from its payment to its card or its refund:
-- backend/src/payment-handler.js, the refunds of backend/src/fulfillment.js, the order jobs of
-- backend/src/jobs.js and backend/src/api/vcc-callback.js. The world holds the order's row, the
-- payments that no order took, the calls made to other services, and the functions that wait for
-- a reply: an `async` function is cut at each `await`, and the rest of it is a `Task`.
-- The columns that no operation reads back (`error`, the margin's telemetry, the card) are left out,
-- and so are the log lines.
pub mod Refund
pub mod Handler
pub mod Callback
pub mod Jobs
pub mod Steps
pub mod Reasons
pub mod Claims
pub mod Weigh
pub mod Bounds
pub mod Parked
pub mod Handled
pub mod Repaid
pub mod Tests
use cards.Prelude.{
  ℕ, Bool, true, false, not, ◌&&◌, ◌||◌, List, [], ◌∷◌, Option, none, some, String, str_eq, truthy,
  if◌then◌else◌,
}
use cards.Prelude.Text.{Text}

pub data Status : Type 0 where
  awaiting_approval pending_payment ordering delivered failed refund_pending refunded expired
        rejected :
      Status

pub record Order : Type 0 where
  pub status : Status
  pub amount_usdc : Option Text
  pub expected_xlm_amount : Option Text
  pub payment_asset : Option String
  pub stellar_txid : Option String
  pub sender_address : Option String
  pub payment_xlm_amount : Option Text
  pub excess_usdc : Option Text
  pub request_id : Option String
  pub webhook_url : Option String  -- the order's, or else its key's
  pub vcc_job_id : Option String
  pub callback_nonce : Option String
  pub xlm_sent_at : Option ℕ
  pub ctx_stellar_txid : Option String
  pub vcc_notified_at : Option ℕ
  pub refund_stellar_txid : Option String
  pub fulfillment_attempt : ℕ
  pub created_at : ℕ
  pub updated_at : ℕ

-- Why a payment went to `unmatched_payments`.
pub data Reason : Type 0 where
  unknown_order : Reason
  order_status : Status → Reason
  corrupt_order underpaid_usdc xlm_not_quoted underpaid_xlm unknown_asset duplicate_payment : Reason

-- A payment event of the receiver contract, for the order of the world.
pub record Payment : Type 0 where
  pub txid : String
  pub payment_asset : String
  pub amount_usdc : Option Text
  pub amount_xlm : Option Text
  pub sender_address : Option String

pub record Unmatched : Type 0 where
  pub payment : Payment
  pub reason : Reason

-- What an exception carries: `stellarStatus` and `txHash`, which the Stellar sender sets.
pub data StellarStatus : Type 0 where
  not_landed applied_failed unknown : StellarStatus

pub record Thrown : Type 0 where
  pub stellar_status : Option StellarStatus
  pub tx_hash : Option String

pub data Settlement (A : Type 0) : Type 0 where
  returned : A → Settlement A
  thrown : Thrown → Settlement A

pub record Invoice : Type 0 where
  pub vcc_job_id : String
  pub payment_url : String
  pub callback_nonce : String

-- `GET /api/jobs/:id` of the card service.
pub record VccJob : Type 0 where
  pub status : Option String
  pub payment_url : Option String

pub data Coin : Type 0 where
  xlm usdc : Coin

-- The calls that leave the process.
pub data Call : Type 0 where
  get_invoice : (amount : Option Text) → Call
  pay_ctx_order : (url : String) → (asset : Option String) → (max_usdc : Option Text) → Call
  notify_paid : (job : String) → Call
  get_vcc_job_status : (job : String) → Call
  send_refund : Coin → (destination : String) → (amount : Text) → Call
  webhook : Status → Call

-- The functions that wait for a reply, with the variables that they go on to read.
pub data Task : Type 0 where
  -- `handlePayment`, at its four awaits
  invoice_wanted : (amount : Option Text) → (asset : String) → Task
  price_wanted : (amount : Option Text) → (asset : String) → Invoice → Task
  payment_sent : (job : String) → Task
  notice_sent : Task
  -- `scheduleRefund`
  refund_sent : Coin → (amount : Text) → Task
  -- `reconcileOrderingFulfillment`, on the row that it selected
  last_look : Task
  invoice_again : Order → Task
  job_wanted : Order → (job : String) → Task
  payment_again : Order → (job : String) → Task
  notice_again : Task
  -- `recoverStuckOrders`
  job_polled : Task

pub record State : Type 0 where
  pub now : ℕ
  pub frozen : Bool
  pub order : Option Order
  pub unmatched : List Unmatched
  pub calls : List Call
  pub tasks : List Task

abbrev pub make_call : Call → State → State
make_call c w = record w { calls = c ∷ w.calls }

abbrev pub wait_for : Task → State → State
wait_for t w = record w { tasks = t ∷ w.tasks }

abbrev pub map_order : (Order → Order) → Option Order → Option Order
map_order f none = none
map_order f (some o) = some (f o)

-- `UPDATE orders SET … WHERE id = ?`.
abbrev pub update : (Order → Order) → State → State
update f w = record w { order = map_order f w.order }

abbrev pub with_status : Status → ℕ → Order → Order
with_status s t o = record o { status = s; updated_at = t }

abbrev pub is_pending_payment : Status → Bool
is_pending_payment pending_payment = true
is_pending_payment _ = false

abbrev pub is_ordering : Status → Bool
is_ordering ordering = true
is_ordering _ = false

-- `status IN ('refund_pending', 'refunded')`.
abbrev pub is_refund : Status → Bool
is_refund refund_pending = true
is_refund refunded = true
is_refund _ = false

-- `TERMINAL` of the callback.
abbrev pub is_terminal : Status → Bool
is_terminal delivered = true
is_terminal failed = true
is_terminal refunded = true
is_terminal refund_pending = true
is_terminal _ = false

-- `a || null` of a text.
abbrev pub or_null : Option String → Option String
or_null h = if truthy h then h else none

-- The webhook of a status, for a row that has an address for it.
abbrev pub tell_agent : Status → Order → State → State
tell_agent s o w = if truthy o.webhook_url then make_call (webhook s) w else w

-- `COALESCE(a, b)`.
abbrev pub sql_coalesce : {A : Type 0} → Option A → Option A → Option A
sql_coalesce none b = b
sql_coalesce (some a) b = some a

-- Whether the outbound payment may have landed.
abbrev pub unclear : Option StellarStatus → Bool
unclear none = false
unclear (some not_landed) = false
unclear (some applied_failed) = true
unclear (some unknown) = true

abbrev pub is_ambiguous : Thrown → Bool
is_ambiguous e = unclear e.stellar_status && truthy e.tx_hash
