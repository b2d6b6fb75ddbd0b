-- ===== src/Fulfillment/Weigh/Handler.antt =====
-- The measure over `handlePayment` and the end of a refund (backend/src/payment-handler.js,
-- backend/src/fulfillment.js).
use cards.Prelude.{ℕ, ◌+◌, ◌≤◌, ◌≡◌, refl, List, Option, none, some, String, arith}
use cards.Fulfillment.{
  Order, State, invoice_wanted, price_wanted, payment_sent, notice_sent, failed, refunded,
  with_status,
}
use cards.Fulfillment.{Payment, Settlement, returned, thrown, Invoice, update, sql_coalesce}
use cards.Fulfillment.Handler.{
  Verdict, taken, mismatch, raised, claim_row, act, handle_row, fail_order, invoice_replied,
  price_replied, payment_replied, notice_replied, check_payment, sent_row, notified_row,
}
use cards.Fulfillment.Refund.{record_refund_send_failure, refund_replied}
use cards.Fulfillment.Weigh.{Tracked, load, by_refund, weigh, weigh-schedule_refund, weigh-update}

module _ (max : ℕ) (k : Tracked) where
  pub fail_order-weigh : (w : State) → weigh max k (fail_order w) ≤ weigh max k w + by_refund k
  unfolding fail_order
  fail_order-weigh w = ground (
    arith,
    weigh-schedule_refund max k (update (with_status failed w.now) w),
    weigh-update max k (with_status failed w.now) w (λ o. ground arith),
  )

  pub claim_row-weigh :
      (p : Payment) (e : Option (List ℕ)) (read : Order) (o : Option Order) (w : State)
      → w.order ≡ o
      → weigh max k (claim_row p e read o w) ≤ weigh max k w
  claim_row-weigh p e read none w h = ground arith
  claim_row-weigh p e read (some o) w h = ground arith

  pub act-weigh :
      (p : Payment) (read : Order) (v : Verdict) (w : State)
      → weigh max k (act p read v w) ≤ weigh max k w
  act-weigh p read (taken e) w = claim_row-weigh p e read w.order w refl
  act-weigh p read (mismatch r) w = ground arith
  act-weigh p read raised w = ground arith

  pub handle_row-weigh :
      (p : Payment) (o : Option Order) (w : State) → weigh max k (handle_row p o w) ≤ weigh max k w
  handle_row-weigh p none w = ground arith
  handle_row-weigh p (some o) w = ground (arith, act-weigh p o (check_payment p o) w)

  pub refund_replied-weigh :
      (r : Settlement String) (w : State) → weigh max k (refund_replied r w) ≤ weigh max k w
  unfolding refund_replied record_refund_send_failure
  refund_replied-weigh (returned hash) w =
      weigh-update max k
        (λ o. record o { status = refunded; refund_stellar_txid = some hash; updated_at = w.now }) w
        (λ o. ground arith)
  refund_replied-weigh (thrown e) w = ground (
    arith,
    weigh-update max k
        (λ o. record o {
          refund_stellar_txid = sql_coalesce o.refund_stellar_txid e.tx_hash;
          updated_at = w.now;
        })
        w (λ o. ground arith),
  )

  pub payment_replied-weigh :
      (job : String) (r : Settlement (Option String)) (w : State)
      → weigh max k (payment_replied job r w) ≤ weigh max k w + load k (payment_sent job)
  unfolding payment_replied
  payment_replied-weigh job (returned hash) w =
      ground (arith, weigh-update max k (sent_row hash w.now) w (λ o. ground arith))
  payment_replied-weigh job (thrown e) w = ground (
    arith,
    fail_order-weigh w,
    weigh-update max k
        (λ o. record o { status = failed; ctx_stellar_txid = e.tx_hash; updated_at = w.now }) w
        (λ o. ground arith),
  )

  pub invoice_replied-weigh :
      (amount : Option (List ℕ)) (asset : String) (r : Settlement Invoice) (w : State)
      → weigh max k (invoice_replied amount asset r w)
        ≤ weigh max k w + load k (invoice_wanted amount asset)
  unfolding invoice_replied
  invoice_replied-weigh amount asset (returned i) w = ground arith
  invoice_replied-weigh amount asset (thrown e) w = ground (arith, fail_order-weigh w)

  pub price_replied-weigh :
      (amount : Option (List ℕ)) (asset : String) (i : Invoice) (w : State)
      → weigh max k (price_replied amount asset i w)
        ≤ weigh max k w + load k (price_wanted amount asset i)
  unfolding price_replied
  price_replied-weigh amount asset i w = ground (
    arith,
    weigh-update max k
        (λ o. record o {
          vcc_job_id = some i.vcc_job_id;
          callback_nonce = some i.callback_nonce;
          updated_at = w.now;
        })
        w (λ o. ground arith),
  )

  pub notice_replied-weigh :
      (r : Settlement Unit) (w : State)
      → weigh max k (notice_replied r w) ≤ weigh max k w + load k (notice_sent)
  unfolding notice_replied
  notice_replied-weigh (returned u) w =
      ground (arith, weigh-update max k (notified_row w.now) w (λ o. ground arith))
  notice_replied-weigh (thrown e) w = ground (arith, fail_order-weigh w)
