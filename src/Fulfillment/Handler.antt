-- ===== src/Fulfillment/Handler.antt =====
-- `handlePayment` of backend/src/payment-handler.js, cut at its awaits.
use cards.Prelude.{ℕ, Option, none, some, String, [], ◌∷◌, str_eq, if◌then◌else◌}
use cards.Prelude.Text.{Text}
use cards.Decimal.{
  to_stroops, compare_decimal, parse_strict_positive_stroops, signed_decimal, Comparison, less,
  same, more,
}
use cards.Decimal.Int.{ℤ, ◌+ℤ◌, negate}
use cards.Fulfillment.{
  Order, State, Payment, Reason, unknown_order, order_status, corrupt_order, underpaid_usdc,
  xlm_not_quoted, underpaid_xlm, unknown_asset, duplicate_payment, Thrown, Settlement, returned,
  thrown, Invoice, get_invoice, pay_ctx_order, notify_paid, invoice_wanted, price_wanted,
  payment_sent, notice_sent, make_call, wait_for, update, with_status, failed, ordering,
  is_pending_payment, is_ambiguous, or_null, sql_coalesce,
}
use cards.Fulfillment.Refund.{schedule_refund}

abbrev pub record_unmatched_payment : Payment → Reason → State → State
record_unmatched_payment p r w = record w {
  unmatched = record { payment = p; reason = r } ∷ w.unmatched;
}

-- What the checks make of a payment: it is taken, with the USDC in excess, or it goes to the
-- unmatched ones, or a text that `BigInt` does not read ends the handler.
pub data Verdict : Type 0 where
  taken : (excess_usdc : Option Text) → Verdict
  mismatch : Reason → Verdict
  raised : Verdict

-- `stroopsToDecimal(toStroops(amount) - toStroops(expected))`.
abbrev pub excess_of : Option ℤ → Option ℤ → Option Text
excess_of none b = none
excess_of (some a) none = none
excess_of (some a) (some b) = some (signed_decimal (a +ℤ negate b))

abbrev pub judge_usdc : Option Comparison → Option Text → Verdict
judge_usdc none excess = raised
judge_usdc (some less) excess = mismatch underpaid_usdc
judge_usdc (some same) excess = taken none
judge_usdc (some more) excess = taken excess

abbrev pub check_usdc : Option ℕ → Option Text → Option Text → Verdict
check_usdc none amount expected = mismatch corrupt_order
check_usdc (some n) amount expected =
    judge_usdc (compare_decimal amount expected)
      (excess_of (to_stroops amount) (to_stroops expected))

abbrev pub judge_xlm : Option Comparison → Verdict
judge_xlm none = raised
judge_xlm (some less) = mismatch underpaid_xlm
judge_xlm (some same) = taken none
judge_xlm (some more) = taken none

abbrev pub check_xlm : Option Text → Option Text → Verdict
check_xlm amount none = mismatch xlm_not_quoted
check_xlm amount (some []) = mismatch xlm_not_quoted
check_xlm amount (some (c ∷ s)) = judge_xlm (compare_decimal amount (some (c ∷ s)))

unfoldable pub check_payment : Payment → Order → Verdict
unfolding compare_decimal to_stroops signed_decimal parse_strict_positive_stroops
check_payment p o =
    if str_eq p.payment_asset "usdc_soroban"
    then check_usdc (parse_strict_positive_stroops o.amount_usdc) p.amount_usdc o.amount_usdc
    else if str_eq p.payment_asset "xlm_soroban"
    then check_xlm p.amount_xlm o.expected_xlm_amount
    else mismatch unknown_asset

-- The row that the claim writes.
abbrev pub claimed_row : Payment → Option Text → ℕ → Order → Order
claimed_row p excess now o = record o {
  status = ordering;
  payment_asset = some p.payment_asset;
  stellar_txid = some p.txid;
  sender_address = p.sender_address;
  payment_xlm_amount = p.amount_xlm;
  excess_usdc = sql_coalesce excess o.excess_usdc;
  updated_at = now;
}

-- The claim, `UPDATE … WHERE id = ? AND status = 'pending_payment'`, and the call of `getInvoice`;
-- `read` is the row that the checks were made on.
abbrev pub claim_row : Payment → Option Text → Order → Option Order → State → State
claim_row p excess read none w = record_unmatched_payment p duplicate_payment w
claim_row p excess read (some o) w =
    if is_pending_payment o.status
    then wait_for (invoice_wanted read.amount_usdc p.payment_asset) (
        make_call (get_invoice read.amount_usdc)
          (record w { order = some (claimed_row p excess w.now o) }))
    else record_unmatched_payment p duplicate_payment w

abbrev pub act : Payment → Order → Verdict → State → State
act p read (mismatch r) w = record_unmatched_payment p r w
act p read raised w = w
act p read (taken excess) w = claim_row p excess read w.order w

abbrev pub handle_row : Payment → Option Order → State → State
handle_row p none w = record_unmatched_payment p unknown_order w
handle_row p (some o) w =
    if is_pending_payment o.status
    then act p o (check_payment p o) w
    else record_unmatched_payment p (order_status o.status) w

-- `handlePayment`, up to its first await.
unfoldable pub handle_payment : Payment → State → State
unfolding check_payment
handle_payment p w = handle_row p w.order w

-- The outer `catch`.
unfoldable pub fail_order : State → State
unfolding schedule_refund
fail_order w = schedule_refund (update (with_status failed w.now) w)

unfoldable pub invoice_replied : Option Text → String → Settlement Invoice → State → State
unfolding fail_order
invoice_replied amount asset (returned invoice) w = wait_for (price_wanted amount asset invoice) w
invoice_replied amount asset (thrown e) w = fail_order w

-- The price is telemetry: it is read or not, the order goes on.
unfoldable pub price_replied : Option Text → String → Invoice → State → State
price_replied amount asset invoice w = wait_for (payment_sent invoice.vcc_job_id) (
    make_call (pay_ctx_order invoice.payment_url (some asset) amount) (
      update
        (λ o. record o {
          vcc_job_id = some invoice.vcc_job_id;
          callback_nonce = some invoice.callback_nonce;
          updated_at = w.now;
        })
        w))

-- A payment that may have landed parks the order, with no refund.
abbrev pub park : Thrown → State → State
park e w =
    update (λ o. record o { status = failed; ctx_stellar_txid = e.tx_hash; updated_at = w.now }) w

abbrev pub sent_row : Option String → ℕ → Order → Order
sent_row hash now o = record o {
  xlm_sent_at = some now;
  ctx_stellar_txid = or_null hash;
  updated_at = now;
}

unfoldable pub payment_replied : String → Settlement (Option String) → State → State
unfolding fail_order
payment_replied job (returned hash) w =
    wait_for notice_sent (make_call (notify_paid job) (update (sent_row hash w.now) w))
payment_replied job (thrown e) w = if is_ambiguous e then park e w else fail_order w

abbrev pub notified_row : ℕ → Order → Order
notified_row now o = record o { vcc_notified_at = some now; updated_at = now }

unfoldable pub notice_replied : Settlement Unit → State → State
unfolding fail_order
notice_replied (returned u) w = update (notified_row w.now) w
notice_replied (thrown e) w = fail_order w
