-- ===== src/Fulfillment/Weigh/Steps.antt =====
-- The measure over the steps of the backend: no step makes it larger.
use cards.Prelude.{ℕ, ◌+◌, ◌≤◌, ◌≡◌, refl, List, [], ◌∷◌, ◌++◌, arith}
use cards.Fulfillment.{
  State, Task, invoice_wanted, price_wanted, payment_sent, notice_sent, refund_sent,
  pending_payment, rejected,
}
use cards.Fulfillment.{
  last_look, invoice_again, job_wanted, payment_again, notice_again, job_polled,
}
use cards.Fulfillment.Handler.{handle_payment}
use cards.Fulfillment.Callback.{vcc_callback}
use cards.Fulfillment.Jobs.{
  Settings, expire_stale_orders, approve_order, reject_order, recover_stuck_orders,
}
use cards.Fulfillment.Steps.{
  Reply, resume_task, Move, Reach, paid_for, called_back, approved, turned_down, expiry,
  reconciliation, recovery, replied, scheduled, waited, switched, here, next,
}
use cards.Fulfillment.Weigh.{Tracked, load, loads, weigh}
use cards.Fulfillment.Weigh.Handler.{
  handle_row-weigh, refund_replied-weigh, payment_replied-weigh, invoice_replied-weigh,
  price_replied-weigh, notice_replied-weigh,
}
use cards.Fulfillment.Weigh.Fail.{
  last_look_replied-weigh, expire_row-weigh, decide_row-weigh, report_row-weigh,
}
use cards.Fulfillment.Weigh.Attempt.{
  reconcile-weigh, invoice_again_replied-weigh, job_replied-weigh, payment_again_replied-weigh,
  notice_again_replied-weigh, recover_row-weigh, job_polled_replied-weigh,
}

module _ (max : ℕ) (k : Tracked) where
  pub resume_task-weigh :
      (t : Task) (r : Reply t) (w : State)
      → weigh max k (resume_task t r w) ≤ weigh max k w + load k t
  unfolding resume_task
  resume_task-weigh (invoice_wanted amount asset) r w = invoice_replied-weigh max k amount asset r w
  resume_task-weigh (price_wanted amount asset i) r w = price_replied-weigh max k amount asset i w
  resume_task-weigh (payment_sent job) r w = payment_replied-weigh max k job r w
  resume_task-weigh notice_sent r w = notice_replied-weigh max k r w
  resume_task-weigh (refund_sent coin amount) r w = ground (arith, refund_replied-weigh max k r w)
  resume_task-weigh last_look r w = ground (arith, last_look_replied-weigh max k r w)
  resume_task-weigh (invoice_again read) r w =
      ground (arith, invoice_again_replied-weigh max k read r w)
  resume_task-weigh (job_wanted read job) r w = ground (arith, job_replied-weigh max k read job r w)
  resume_task-weigh (payment_again read job) r w =
      ground (arith, payment_again_replied-weigh max k read job r w)
  resume_task-weigh notice_again r w = ground (arith, notice_again_replied-weigh max k r w)
  resume_task-weigh job_polled r w = ground (arith, job_polled_replied-weigh max k r w)

  pub loads-append : (ts us : List Task) → loads k (ts ++ us) ≡ loads k ts + loads k us
  loads-append [] us = ground arith
  loads-append (t ∷ ts) us = ground (arith, loads-append ts us)

  pub Move-weigh :
      (s : Settings) {w u : State}
      → s.max_fulfillment_attempts ≡ max
      → Move s w u
      → weigh max k u ≤ weigh max k w
  unfolding handle_payment vcc_callback approve_order reject_order expire_stale_orders
      recover_stuck_orders
  Move-weigh s {w} h (paid_for p) = handle_row-weigh max k p w.order w
  Move-weigh s {w} h (called_back r) = report_row-weigh max k r w.order w refl
  Move-weigh s {w} h approved = decide_row-weigh max k pending_payment w.order w (ground arith) refl
  Move-weigh s {w} h turned_down = decide_row-weigh max k rejected w.order w (ground arith) refl
  Move-weigh s {w} h expiry = expire_row-weigh max k w.order w refl
  Move-weigh s {w} h reconciliation = reconcile-weigh max k s w h
  Move-weigh s {w} h recovery = recover_row-weigh max k w.order w
  Move-weigh s {w} h (replied t rest r e) =
      rw e (ground (arith, resume_task-weigh t r (record w { tasks = rest })))
  Move-weigh s {w} h (scheduled t rest e) = rw e (ground (arith, loads-append rest (t ∷ [])))
  Move-weigh s h (waited ms) = ground arith
  Move-weigh s h (switched b) = ground arith

  pub Reach-weigh :
      (s : Settings) {w u : State}
      → s.max_fulfillment_attempts ≡ max
      → Reach s w u
      → weigh max k u ≤ weigh max k w
  Reach-weigh s h here = omega arith
  Reach-weigh s h (next r st) = omega (arith, Reach-weigh s h r, Move-weigh s h st)
