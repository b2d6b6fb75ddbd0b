-- ===== src/Fulfillment/Handled.antt =====
-- A payment's handler (backend/src/payment-handler.js) and the refund that it may start, run to their
-- end with nothing in between.
pub mod Owing
pub mod Ends
use cards.Prelude.{
  ℕ, zero, suc, ◌≡◌, refl, ap, sym, subst, ◌∙◌, ◌⊎◌, inl, inr, Bool, true, false, List, [], ◌∷◌,
  Option, none, some, String, truthy, str_eq, if◌then◌else◌, arith, Bool-cases, Option-cases,
}
use cards.Prelude.Text.{Text}
use cards.Fulfillment.{
  Order, Status, State, Payment, Task, Settlement, returned, thrown, Thrown, Invoice, VccJob, Coin,
  invoice_wanted, price_wanted, payment_sent, notice_sent, refund_sent, last_look, invoice_again,
  job_wanted, payment_again, notice_again, job_polled, ordering, failed, refund_pending, refunded,
  is_refund, is_ambiguous, with_status, update, make_call, wait_for, get_invoice, notify_paid,
  pay_ctx_order, sql_coalesce, map_order,
}
use cards.Fulfillment.Refund.{
  schedule_refund, claim_refund, send_to, send_coin, refund_amount, refund_replied,
  record_refund_send_failure,
}
use cards.Fulfillment.Handler.{
  handle_payment, fail_order, invoice_replied, price_replied, payment_replied, notice_replied, park,
  claimed_row, notified_row, sent_row,
}
use cards.Fulfillment.Steps.{Reply, resume_task}
use cards.Fulfillment.Claims.{Handles, kept, unread, claimed, handle_payment-Handles}

-- What the services answer.
pub record Replies : Type 0 where
  pub invoice : Settlement Invoice
  pub payment : Settlement (Option String)
  pub notice : Settlement Unit
  pub refund : Settlement String
  pub job : Settlement VccJob

abbrev pub answer : Replies → (t : Task) → Reply t
answer r (invoice_wanted amount asset) = r.invoice
answer r (price_wanted amount asset i) = tt
answer r (payment_sent job) = r.payment
answer r notice_sent = r.notice
answer r (refund_sent coin amount) = r.refund
answer r last_look = r.job
answer r (invoice_again read) = r.invoice
answer r (job_wanted read job) = r.job
answer r (payment_again read job) = r.payment
answer r notice_again = r.notice
answer r job_polled = r.job

abbrev pub go_on : Replies → List Task → State → State
go_on r [] w = w
go_on r (t ∷ rest) w = resume_task t (answer r t) (record w { tasks = rest })

-- Up to `n` of the waits, each answered at once.
unfoldable pub run_waits : ℕ → Replies → State → State
run_waits zero r w = w
run_waits (suc n) r w = run_waits n r (go_on r w.tasks w)

-- The states in which the handler may leave an order that it took.
pub data Concluded (frozen : Bool) (o : Order) : Type 0 where
  told :
      (sent notified : ℕ)
      → o.status ≡ ordering
      → o.xlm_sent_at ≡ some sent
      → o.vcc_notified_at ≡ some notified
      → Concluded frozen o
  parked : o.status ≡ failed → truthy o.ctx_stellar_txid ≡ true → Concluded frozen o
  held : frozen ≡ true → o.status ≡ failed → Concluded frozen o
  owed : o.status ≡ refund_pending → Concluded frozen o
  repaid :
      (hash : String) → o.status ≡ refunded → o.refund_stellar_txid ≡ some hash → Concluded frozen o

pub record IsDone (u : State) : Type 0 where
  pub row : Order
  pub row_eq : u.order ≡ some row
  pub ended : Concluded u.frozen row
  pub no_task : u.tasks ≡ []

pub go_on_lem :
    (r : Replies) (t : Task) (rest : List Task) (w : State)
    → w.tasks ≡ t ∷ rest
    → go_on r w.tasks w ≡ resume_task t (answer r t) (record w { tasks = rest })
go_on_lem r t rest w e = ap (λ ts. go_on r ts w) e

pub go_on_done : (r : Replies) (w : State) → w.tasks ≡ [] → go_on r w.tasks w ≡ w
go_on_done r w e = ap (λ ts. go_on r ts w) e

pub drain_done : (n : ℕ) (r : Replies) (w : State) → w.tasks ≡ [] → run_waits n r w ≡ w
unfolding run_waits
drain_done zero r w e = refl
drain_done (suc n) r w e = ap (run_waits n r) (go_on_done r w e) ∙ drain_done n r w e
