-- ===== src/Fulfillment/Tests.antt =====
-- An order of ten dollars that is overpaid, and what may become of it.
use cards.Prelude.{◌+◌, ◌≤◌, ◌≡◌, refl, subst, true, false, [], ◌∷◌, Option, none, some, arith}
use cards.Prelude.Text.{Text, codes, split, is_digit, digits_from}
use cards.Prelude.Trim.{is_space}
use cards.Amount.{is_decimal}
use cards.Decimal.{
  stroops_to_decimal, to_stroops_or_zero, to_stroops, compare_decimal,
  parse_strict_positive_stroops, trim_text, skip_space, trim_tail, big_int, signed_decimal,
  is_valid_refund_amount, compute_usdc_refund_amount,
}
use cards.Decimal.Print.{print_nat, print_to}
use cards.Decimal.Read.{IsWritten}
use cards.Fulfillment.{
  Order, State, Payment, Thrown, returned, thrown, Invoice, unknown, pending_payment, delivered,
  rejected, failed, usdc, send_refund, notice_sent, refund_sent, payment_sent, price_wanted,
  invoice_wanted, make_call, wait_for, get_invoice,
}
use cards.Fulfillment.Refund.{refund_amount, schedule_refund, refund_replied}
use cards.Fulfillment.Handler.{
  check_payment, handle_payment, fail_order, invoice_replied, price_replied, payment_replied,
  notice_replied, claimed_row,
}
use cards.Fulfillment.Callback.{failure, vcc_callback}
use cards.Fulfillment.Jobs.{Settings, suspend_agent}
use cards.Fulfillment.Steps.{
  resume_task, Move, Reach, paid_for, called_back, replied, here, next, moved, suspended, unmoved,
  act,
}
use cards.Fulfillment.Claims.{Handles, handle_payment-Handles}
use cards.Fulfillment.Weigh.{refund, payment, spent}
use cards.Fulfillment.Bounds.{
  refunds_at_most_two, refunded_once_from_ordering, invoice_payments_bounded,
}
use cards.Fulfillment.Parked.{Same, terminal_is_final, parked_is_final}
use cards.Fulfillment.Handled.{Replies, run_waits}
use cards.Fulfillment.Handled.Ends.{Handled, handle_payment_ends}
use cards.Fulfillment.Repaid.{IsQuoted, excess_for, paid_back_in_full}

abbrev settings : Settings
settings = record {
  stuck_retry_after_ms = 120_000;
  stuck_fail_after_ms = 1_800_000;
  max_fulfillment_attempts = 3;
}

abbrev ten : Order
ten = record {
  status = pending_payment;
  amount_usdc = some (codes "10.00");
  expected_xlm_amount = none;
  payment_asset = none;
  stellar_txid = none;
  sender_address = none;
  payment_xlm_amount = none;
  excess_usdc = none;
  request_id = none;
  webhook_url = none;
  vcc_job_id = none;
  callback_nonce = none;
  xlm_sent_at = none;
  ctx_stellar_txid = none;
  vcc_notified_at = none;
  refund_stellar_txid = none;
  fulfillment_attempt = 0;
  created_at = 0;
  updated_at = 0;
}

abbrev world_of : Order → State
world_of o = record {
  now = 1000;
  frozen = false;
  order = some o;
  unmatched = [];
  calls = [];
  tasks = [];
}

abbrev start : State
start = world_of ten

abbrev ten_fifty : Payment
ten_fifty = record {
  txid = "t1";
  payment_asset = "usdc_soroban";
  amount_usdc = some (stroops_to_decimal 105_000_000);
  amount_xlm = none;
  sender_address = some "G1";
}

abbrev invoice : Invoice
invoice = record { vcc_job_id = "j1"; payment_url = "u1"; callback_nonce = "n1" }

abbrev no_detail : Thrown
no_detail = record { stellar_status = none; tx_hash = none }

abbrev unclear_payment : Thrown
unclear_payment = record { stellar_status = some unknown; tx_hash = some "h1" }

-- The claimed row, as the trace below goes on from it.
abbrev ordered : State
ordered = wait_for (invoice_wanted (some (codes "10.00")) "usdc_soroban") (
    make_call (get_invoice (some (codes "10.00"))) (record start {
      order = some (claimed_row ten_fifty (excess_for 100_000_000 105_000_000) 1000 ten);
    }))

handled : handle_payment ten_fifty start ≡ ordered
unfolding handle_payment check_payment compare_decimal to_stroops signed_decimal
    parse_strict_positive_stroops trim_text skip_space trim_tail big_int stroops_to_decimal
    print_nat print_to is_decimal split is_digit digits_from is_space
handled = refl

abbrev ten_dollars : Option Text
ten_dollars = some (codes "10.00")

-- The invoice is made and paid, and the card service is told of it; before its answer to that, its
-- callback says that the order failed, and the refund is sent; then the answer is an error.
abbrev invoiced : State
invoiced =
    resume_task (invoice_wanted ten_dollars "usdc_soroban") (returned invoice)
      (record ordered { tasks = [] })

abbrev paying : State
paying =
    resume_task (price_wanted ten_dollars "usdc_soroban" invoice) tt
      (record invoiced { tasks = [] })

abbrev telling : State
telling = resume_task (payment_sent "j1") (returned (some "h1")) (record paying { tasks = [] })

abbrev refunding : State
refunding = (vcc_callback failure telling).0

abbrev refunded_once : State
refunded_once =
    resume_task (refund_sent usdc (stroops_to_decimal 105_000_000)) (returned "h2")
      (record refunding { tasks = notice_sent ∷ [] })

abbrev refunded_twice : State
refunded_twice = resume_task notice_sent (thrown no_detail) (record refunded_once { tasks = [] })

run : Reach settings start refunded_twice
unfolding resume_task invoice_replied price_replied payment_replied notice_replied vcc_callback
    schedule_refund refund_amount is_valid_refund_amount compute_usdc_refund_amount
    to_stroops_or_zero fail_order refund_replied trim_text skip_space trim_tail stroops_to_decimal
    print_nat print_to is_decimal split is_digit digits_from is_space
run =
    next
      (next
        (next
          (next
            (next
              (next (next here (subst (Move settings start) handled (paid_for ten_fifty)))
                (replied (invoice_wanted ten_dollars "usdc_soroban") [] (returned invoice) refl))
              (replied (price_wanted ten_dollars "usdc_soroban" invoice) [] tt refl))
            (replied (payment_sent "j1") [] (returned (some "h1")) refl))
          (called_back failure))
        (replied (refund_sent usdc (stroops_to_decimal 105_000_000)) (notice_sent ∷ [])
          (returned "h2") refl))
      (replied notice_sent [] (thrown no_detail) refl)

-- The bound of two is reached: both refunds are sent.
sent_twice : spent refund refunded_twice.calls ≡ 2
unfolding resume_task invoice_replied price_replied payment_replied notice_replied vcc_callback
    schedule_refund refund_amount is_valid_refund_amount compute_usdc_refund_amount
    to_stroops_or_zero fail_order refund_replied trim_text skip_space trim_tail stroops_to_decimal
    print_nat print_to is_decimal split is_digit digits_from is_space
sent_twice = refl

refunds_at_most_two_example : spent refund refunded_twice.calls ≤ 2
refunds_at_most_two_example = refunds_at_most_two settings refl refl run

invoice_payments_bounded_example : spent payment refunded_twice.calls ≤ 1 + 3
invoice_payments_bounded_example = invoice_payments_bounded settings refl refl run

abbrev being_ordered : State
being_ordered = world_of (claimed_row ten_fifty none 1000 ten)

refunded_once_from_ordering_example : spent refund (vcc_callback failure being_ordered).0.calls ≤ 1
refunded_once_from_ordering_example =
    refunded_once_from_ordering settings (claimed_row ten_fifty none 1000 ten) refl refl refl refl
      (next here (called_back failure))

abbrev finished : State
finished = world_of (record ten { status = delivered })

-- A suspension turns down even an order that is delivered, if its request is still pending.
suspended_when_delivered :
    (suspend_agent (record { pending = true; state = finished })).state.order
    ≡ some (record ten { status = rejected; updated_at = 1000 })
unfolding suspend_agent
suspended_when_delivered = refl

terminal_is_final_example :
    Same finished
      (suspend_agent (record {
        pending = false;
        state = handle_payment ten_fifty (vcc_callback failure finished).0;
      })).state
terminal_is_final_example =
    terminal_is_final settings {d = record { pending = false; state = finished }}
      {e = suspend_agent (record {
        pending = false;
        state = handle_payment ten_fifty (vcc_callback failure finished).0;
      })}
      (record ten { status = delivered }) refl refl refl refl
      (act (act (act unmoved (moved (called_back failure))) (moved (paid_for ten_fifty))) suspended)

parked_is_final_example :
    ((vcc_callback failure (payment_replied "j1" (thrown unclear_payment) being_ordered)).0.order
      ≡ some (record (claimed_row ten_fifty none 1000 ten) {
        status = failed;
        ctx_stellar_txid = some "h1";
        updated_at = 1000;
      }))
    × ((vcc_callback failure (payment_replied "j1" (thrown unclear_payment) being_ordered)).0.calls
        ≡ [])
parked_is_final_example =
    parked_is_final settings being_ordered (claimed_row ten_fifty none 1000 ten) "j1"
      unclear_payment refl refl refl (next here (called_back failure))

handle_payment-Handles_example : Handles ten_fifty start (handle_payment ten_fifty start)
handle_payment-Handles_example = handle_payment-Handles ten_fifty start

abbrev no_answers : Replies
no_answers = record {
  invoice = thrown no_detail;
  payment = thrown no_detail;
  notice = thrown no_detail;
  refund = returned "h2";
  job = thrown no_detail;
}

handle_payment_ends_example :
    Handled ten_fifty start (run_waits 5 no_answers (handle_payment ten_fifty start))
handle_payment_ends_example = handle_payment_ends no_answers ten_fifty start refl

ten_written : IsWritten 100_000_000 (codes "10.00")
unfolding is_decimal split is_digit digits_from
ten_written = record { valid = refl; short = omega arith; exact = refl }

ten-IsQuoted : IsQuoted ten 100_000_000
ten-IsQuoted = record {
  text = codes "10.00";
  column = refl;
  written = ten_written;
  positive = omega arith;
}

abbrev paid_row : Order
paid_row = claimed_row ten_fifty (excess_for 100_000_000 105_000_000) 1000 ten

paid_back_in_full_example :
    ((handle_payment ten_fifty start).order ≡ some paid_row)
    × ((schedule_refund (world_of paid_row)).calls
        ≡ send_refund usdc "G1" (stroops_to_decimal 105_000_000) ∷ [])
    × (to_stroops_or_zero (some (stroops_to_decimal 105_000_000)) ≡ 105_000_000)
paid_back_in_full_example =
    paid_back_in_full start ten ten_fifty 100_000_000 105_000_000 "G1" (world_of paid_row) paid_row
      refl refl ten-IsQuoted refl refl refl refl refl (omega arith) refl
      (record { amount = refl; excess = refl; asset = refl; xlm = refl; sender = refl }) refl refl
