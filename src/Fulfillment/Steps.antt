-- ===== src/Fulfillment/Steps.antt =====
-- The backend as a step relation on the world: a payment or a callback comes in, a job ticks, or a
-- reply arrives at the function that waits for it. A function runs alone from one `await` to the
-- next, and the waiting ones go on in any order.
use cards.Prelude.{false, ℕ, ◌+◌, ◌≡◌, Bool, List, [], ◌∷◌, ◌++◌, Option, String}
use cards.Fulfillment.{
  State, Payment, Settlement, Invoice, VccJob, Task, invoice_wanted, price_wanted, payment_sent,
  notice_sent, refund_sent, last_look, invoice_again, job_wanted, payment_again, notice_again,
  job_polled,
}
use cards.Fulfillment.Refund.{refund_replied}
use cards.Fulfillment.Handler.{
  handle_payment, invoice_replied, price_replied, payment_replied, notice_replied,
}
use cards.Fulfillment.Callback.{Report, vcc_callback}
use cards.Fulfillment.Jobs.{
  Settings, expire_stale_orders, approve_order, reject_order, reconcile, last_look_replied,
  invoice_again_replied, job_replied, payment_again_replied, notice_again_replied,
  recover_stuck_orders, job_polled_replied, Desk, suspend_agent,
}

-- What a waiting function is told.
abbrev pub Reply : Task → Type 0
Reply (invoice_wanted amount asset) = Settlement Invoice
Reply (price_wanted amount asset i) = Unit
Reply (payment_sent job) = Settlement (Option String)
Reply notice_sent = Settlement Unit
Reply (refund_sent coin amount) = Settlement String
Reply last_look = Settlement VccJob
Reply (invoice_again read) = Settlement Invoice
Reply (job_wanted read job) = Settlement VccJob
Reply (payment_again read job) = Settlement (Option String)
Reply notice_again = Settlement Unit
Reply job_polled = Settlement VccJob

unfoldable pub resume_task : (t : Task) → Reply t → State → State
unfolding refund_replied invoice_replied price_replied payment_replied notice_replied
    last_look_replied invoice_again_replied job_replied payment_again_replied notice_again_replied
    job_polled_replied
resume_task (invoice_wanted amount asset) r w = invoice_replied amount asset r w
resume_task (price_wanted amount asset i) r w = price_replied amount asset i w
resume_task (payment_sent job) r w = payment_replied job r w
resume_task notice_sent r w = notice_replied r w
resume_task (refund_sent coin amount) r w = refund_replied r w
resume_task last_look r w = last_look_replied r w
resume_task (invoice_again read) r w = invoice_again_replied read r w
resume_task (job_wanted read job) r w = job_replied read job r w
resume_task (payment_again read job) r w = payment_again_replied read job r w
resume_task notice_again r w = notice_again_replied r w
resume_task job_polled r w = job_polled_replied r w

module _ (s : Settings) where
  pub data Move (w : State) : State → Type 0 where
    paid_for : (p : Payment) → Move w (handle_payment p w)
    called_back : (r : Report) → Move w (vcc_callback r w).0
    approved : Move w (approve_order w)
    turned_down : Move w (reject_order w)
    expiry : Move w (expire_stale_orders w)
    reconciliation : Move w (reconcile s w)
    recovery : Move w (recover_stuck_orders w)
    replied :
        (t : Task) (rest : List Task) (r : Reply t)
        → w.tasks ≡ t ∷ rest
        → Move w (resume_task t r (record w { tasks = rest }))
    scheduled :
        (t : Task) (rest : List Task)
        → w.tasks ≡ t ∷ rest
        → Move w (record w { tasks = rest ++ t ∷ [] })
    waited : (ms : ℕ) → Move w (record w { now = w.now + ms })
    switched : (b : Bool) → Move w (record w { frozen = b })

  pub data Reach (w : State) : State → Type 0 where
    here : Reach w w
    next : {t u : State} → Reach w t → Move t u → Reach w u

  -- The same steps with the requests for approval: a step of the order, the end of a request, which the
  -- owner decides or time ends, or the suspension of the agent.
  pub data Act (d : Desk) : Desk → Type 0 where
    moved : {u : State} → Move d.state u → Act d (record d { state = u })
    settled : Act d (record d { pending = false })
    suspended : Act d (suspend_agent d)

  pub data Course (d : Desk) : Desk → Type 0 where
    unmoved : Course d d
    act : {e f : Desk} → Course d e → Act e f → Course d f
