-- ===== src/Fulfillment/Weigh.antt =====
-- Bounds on the treasury's outflows for one order (backend/src/fulfillment.js,
-- backend/src/payment-handler.js and backend/src/jobs.js), whatever the order in which the functions
-- go on: a measure of the world.
pub mod Handler
pub mod Fail
pub mod Attempt
pub mod Steps
use cards.Prelude.{
  ℕ, zero, suc, ◌+◌, ◌-◌, ◌≤◌, ◌<◌, ◌≡◌, refl, Bool, true, false, List, [], ◌∷◌, ◌++◌, Option, none,
  some, String, arith, Bool-cases, Option-cases, inl, inr,
}
use cards.Fulfillment.{
  Order, Status, State, Call, send_refund, pay_ctx_order, Task, invoice_wanted, price_wanted,
  payment_sent, notice_sent, refund_sent, awaiting_approval, pending_payment, ordering, delivered,
  failed, refund_pending, refunded, expired, rejected, with_status, is_refund, Coin,
}
use cards.Fulfillment.{
  Payment, Reason, Thrown, Settlement, returned, thrown, Invoice, VccJob, last_look, invoice_again,
  job_wanted, payment_again, notice_again, job_polled, update, map_order, is_pending_payment,
  is_ordering, is_terminal, is_ambiguous, tell_agent, or_null, sql_coalesce,
}
use cards.Fulfillment.Handler.{
  Verdict, taken, mismatch, raised, claim_row, act, handle_row, handle_payment, fail_order,
  invoice_replied, price_replied, payment_replied, notice_replied, check_payment, park, claimed_row,
  sent_row, notified_row,
}
use cards.Fulfillment.Callback.{Report, fulfilled, failure, other, act_on, report_row, vcc_callback}
use cards.Fulfillment.Jobs.{
  Settings, expire_stale_orders, approve_order, reject_order, reconcile, last_look_replied,
  invoice_again_replied, job_replied, payment_again_replied, notice_again_replied,
  recover_stuck_orders, job_polled_replied, expire_row, decide_row, fail_if, look_at, touch,
  notify_again, pay_again, settle_step, start_attempt, claim_attempt, run_out, reconcile_row,
  job_url, recover_row, poll_job, act_on_job, is_open, hard_fail, has_run_out,
}
use cards.Fulfillment.Steps.{
  Reply, resume_task, Move, Reach, paid_for, called_back, approved, turned_down, expiry,
  reconciliation, recovery, replied, scheduled, waited, switched, here, next,
}
use cards.Fulfillment.Refund.{
  schedule_refund, record_refund_send_failure, refund_replied, refund_amount, send_coin, send_to,
  claim_refund,
}

-- What the backend may spend on one order: the refunds, or the payments to the card's merchant, that
-- were made or may still be made by the functions that wait and by the status of the row.
pub data Tracked : Type 0 where
  refund payment : Tracked

abbrev pub cost : Tracked → Call → ℕ
cost refund (send_refund coin destination amount) = 1
cost refund _ = 0
cost payment (pay_ctx_order url asset max_usdc) = 1
cost payment _ = 0

abbrev pub spent : Tracked → List Call → ℕ
spent k [] = 0
spent k (c ∷ cs) = cost k c + spent k cs

-- What a status still allows, without what the waiting functions allow. (A callback may still fail
-- an order that was given up before it was paid.)
abbrev pub by_status : Tracked → Status → ℕ
by_status refund awaiting_approval = 2
by_status refund pending_payment = 2
by_status refund ordering = 1
by_status refund expired = 1
by_status refund rejected = 1
by_status refund delivered = 0
by_status refund failed = 0
by_status refund refund_pending = 0
by_status refund refunded = 0
by_status payment awaiting_approval = 1
by_status payment pending_payment = 1
by_status payment _ = 0

-- The attempts that are left, each of which may pay.
abbrev pub by_attempts : Tracked → ℕ → ℕ → ℕ
by_attempts refund max attempt = 0
by_attempts payment max attempt = max - attempt

-- A handler may still fail its order; a function before its payment may still pay.
abbrev pub load : Tracked → Task → ℕ
load refund (invoice_wanted amount asset) = 1
load refund (price_wanted amount asset i) = 1
load refund (payment_sent job) = 1
load refund notice_sent = 1
load refund _ = 0
load payment (invoice_wanted amount asset) = 1
load payment (price_wanted amount asset i) = 1
load payment (invoice_again read) = 1
load payment (job_wanted read job) = 1
load payment _ = 0

abbrev pub loads : Tracked → List Task → ℕ
loads k [] = 0
loads k (t ∷ ts) = load k t + loads k ts

-- What a scheduled refund adds, and what an attempt adds.
abbrev pub by_refund : Tracked → ℕ
by_refund refund = 1
by_refund payment = 0

abbrev pub by_attempt : Tracked → ℕ
by_attempt refund = 0
by_attempt payment = 1

module _ (max : ℕ) (k : Tracked) where
  abbrev pub row : Order → ℕ
  row o = by_status k o.status + by_attempts k max o.fulfillment_attempt

  abbrev pub by_row : Option Order → ℕ
  by_row none = 0
  by_row (some o) = row o

  abbrev pub weigh : State → ℕ
  weigh w = spent k w.calls + by_row w.order + loads k w.tasks

  pub by_row-update :
      (f : Order → Order) (o : Option Order)
      → ((o : Order) → row (f o) ≤ row o)
      → by_row (map_order f o) ≤ by_row o
  by_row-update f none h = ground arith
  by_row-update f (some o) h = h o

  pub weigh-send :
      (d : String) (a : Option (Coin × List ℕ)) (w : State)
      → weigh (send_coin d a w) ≤ weigh w + by_refund k
  weigh-send d none w = ground arith
  weigh-send d (some (coin, amount)) w = ground arith

  pub weigh-send_to :
      (d : Option String) (o : Order) (w : State) → weigh (send_to d o w) ≤ weigh w + by_refund k
  weigh-send_to none o w = ground arith
  weigh-send_to (some d) o w = ground (arith, weigh-send d (refund_amount o) w)

  pub weigh-claim_refund :
      (o : Option Order) (w : State)
      → w.order ≡ o
      → weigh (claim_refund o w) ≤ weigh w + by_refund k
  weigh-claim_refund none w e = ground arith
  weigh-claim_refund (some o) w e = ground (
    arith,
    weigh-send_to o.sender_address o
        (record w { order = some (with_status refund_pending w.now o) }),
  )

  pub weigh-schedule_refund : (w : State) → weigh (schedule_refund w) ≤ weigh w + by_refund k
  unfolding schedule_refund
  weigh-schedule_refund w = ground (arith, weigh-claim_refund w.order w refl)

  -- A write that allows no further refund.
  pub weigh-update :
      (f : Order → Order) (w : State)
      → ((o : Order) → row (f o) ≤ row o)
      → weigh (update f w) ≤ weigh w
  weigh-update f w h = ground (arith, by_row-update f w.order h)
