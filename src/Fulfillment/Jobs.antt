-- ===== src/Fulfillment/Jobs.antt =====
-- The order jobs of backend/src/jobs.js: `expireStaleOrders`, `reconcileOrderingFulfillment`,
-- `recoverStuckOrders` and what `expireApprovalRequests` does to an order, with the owner's decision
-- (backend/src/api/dashboard.js). The times of the jobs are settings, and so parameters; SQL's
-- `datetime` counts in seconds.
use cards.Prelude.{
  ℕ, ◌+◌, ◌/◌, Bool, true, false, not, ◌&&◌, ◌||◌, Option, none, some, String, str_eq, truthy, ltb,
  leb, ◌==◌, get_or, if◌then◌else◌,
}
use cards.Fulfillment.{
  Order, Status, State, Settlement, returned, thrown, Invoice, VccJob, get_invoice, pay_ctx_order,
  notify_paid, get_vcc_job_status, tell_agent, last_look, invoice_again, job_wanted, payment_again,
  notice_again, job_polled, make_call, wait_for, update, with_status, awaiting_approval,
  pending_payment, failed, expired, rejected, is_pending_payment, is_ordering, is_ambiguous,
  or_null,
}
use cards.Fulfillment.Refund.{schedule_refund}
use cards.Fulfillment.Handler.{park, sent_row, notified_row}

abbrev is_awaiting_approval : Status → Bool
is_awaiting_approval awaiting_approval = true
is_awaiting_approval _ = false

-- Two hours.
abbrev payment_window_s : ℕ
payment_window_s = 7_200

abbrev pub expire_row : Option Order → State → State
expire_row none w = w
expire_row (some o) w =
    if is_pending_payment o.status && ltb (o.created_at / 1_000 + payment_window_s) (w.now / 1_000)
    then tell_agent expired o (record w { order = some (with_status expired w.now o) })
    else w

-- `expireStaleOrders`.
unfoldable pub expire_stale_orders : State → State
expire_stale_orders w = expire_row w.order w

abbrev pub decide_row : Status → Option Order → State → State
decide_row s none w = w
decide_row s (some o) w =
    if is_awaiting_approval o.status then record w { order = some (with_status s w.now o) } else w

-- The approval of an order, its refusal, and the end of the time for it: each guarded by the status.
unfoldable pub approve_order : State → State
approve_order w = decide_row pending_payment w.order w

unfoldable pub reject_order : State → State
reject_order w = decide_row rejected w.order w

-- An order's row and whether a request for its approval is pending.
pub record Desk : Type 0 where
  pub pending : Bool
  pub state : State

-- What the suspension of an agent does to an order: it turns down the requests that are pending, and
-- the orders of these, whatever their status.
unfoldable pub suspend_agent : Desk → Desk
suspend_agent d =
    if d.pending
    then record { pending = false; state = update (with_status rejected d.state.now) d.state }
    else d

pub record Settings : Type 0 where
  pub stuck_retry_after_ms : ℕ
  pub stuck_fail_after_ms : ℕ
  pub max_fulfillment_attempts : ℕ

abbrev is_null : {A : Type 0} → Option A → Bool
is_null none = true
is_null (some a) = false

-- The `WHERE` of the reconciler.
unfoldable pub is_stuck : Settings → ℕ → Order → Bool
is_stuck s now o =
    is_ordering o.status
    && (is_null o.vcc_job_id || is_null o.xlm_sent_at || is_null o.vcc_notified_at)
    && is_null o.ctx_stellar_txid
    && ltb (o.updated_at + s.stuck_retry_after_ms) now

-- `timedOut || attemptsExhausted`.
unfoldable pub has_run_out : Settings → ℕ → Order → Bool
has_run_out s now o =
    ltb (o.updated_at + s.stuck_fail_after_ms) now
    || leb s.max_fulfillment_attempts o.fulfillment_attempt

abbrev pub fail_if : (Status → Bool) → Option Order → State → State
fail_if p none w = w
fail_if p (some o) w =
    if p o.status
    then schedule_refund (record w { order = some (with_status failed w.now o) })
    else w

-- The hard failure, claimed by `AND status = 'ordering'`.
unfoldable pub hard_fail : State → State
unfolding schedule_refund
hard_fail w = fail_if is_ordering w.order w

-- `VCC_IN_PROGRESS_STATUSES`.
abbrev in_progress : String → Bool
in_progress s =
    str_eq s "invoice_issued" || str_eq s "queued" || str_eq s "running" || str_eq s "delivered"

abbrev pub touch : State → State
touch w = update (λ o. record o { updated_at = w.now }) w

abbrev pub look_at : Option String → State → State
look_at none w = hard_fail w
look_at (some s) w = if in_progress s then touch w else hard_fail w

-- The card service is asked before a hard failure; while it does not answer, the failure waits.
unfoldable pub last_look_replied : Settlement VccJob → State → State
unfolding hard_fail
last_look_replied (returned job) w = look_at job.status w
last_look_replied (thrown e) w = touch w

abbrev pub notify_again : Option ℕ → String → State → State
notify_again none job w = wait_for notice_again (make_call (notify_paid job) w)
notify_again (some t) job w = w

abbrev pub pay_again : Order → String → String → State → State
pay_again read job url w =
    wait_for (payment_again read job)
      (make_call (pay_ctx_order url read.payment_asset read.amount_usdc) w)

-- After step 1, with the payment's address when step 1 brought one.
abbrev pub settle_step : Order → String → Option String → Option ℕ → State → State
settle_step read job url (some t) w = notify_again read.vcc_notified_at job w
settle_step read job none none w =
    wait_for (job_wanted read job) (make_call (get_vcc_job_status job) w)
settle_step read job (some url) none w = pay_again read job url w

abbrev pub start_attempt : Order → Option String → State → State
start_attempt read none w =
    wait_for (invoice_again read) (make_call (get_invoice read.amount_usdc) w)
start_attempt read (some job) w = settle_step read job none read.xlm_sent_at w

-- The claim of an attempt: `status = 'ordering' AND fulfillment_attempt = ?`.
abbrev pub claim_attempt : Order → Option Order → State → State
claim_attempt read none w = w
claim_attempt read (some o) w =
    if is_ordering o.status && o.fulfillment_attempt == read.fulfillment_attempt
    then start_attempt read (or_null read.vcc_job_id) (record w {
      order =
          some (record o { fulfillment_attempt = o.fulfillment_attempt + 1; updated_at = w.now });
    })
    else w

abbrev pub run_out : Order → Option String → State → State
run_out read none w = hard_fail w
run_out read (some job) w = wait_for last_look (make_call (get_vcc_job_status job) w)

module _ (s : Settings) where
  abbrev pub reconcile_row : Option Order → State → State
  reconcile_row none w = w
  reconcile_row (some o) w =
      if is_stuck s w.now o
      then if has_run_out s w.now o
        then run_out o (or_null o.vcc_job_id) w
        else claim_attempt o w.order w
      else w

  -- `reconcileOrderingFulfillment`, up to its first await.
  unfoldable pub reconcile : State → State
  unfolding is_stuck has_run_out hard_fail
  reconcile w = if w.frozen then w else reconcile_row w.order w

-- A failure of a later step leaves the order to the next tick.
unfoldable pub invoice_again_replied : Order → Settlement Invoice → State → State
invoice_again_replied read (returned i) w =
    settle_step read i.vcc_job_id (or_null (some i.payment_url)) read.xlm_sent_at (
      update
        (λ o. record o {
          vcc_job_id = some i.vcc_job_id;
          callback_nonce = some i.callback_nonce;
          updated_at = w.now;
        })
        w)
invoice_again_replied read (thrown e) w = w

-- `status && status !== 'invoice_issued'`: an earlier run must have paid.
abbrev past_invoice : Option String → Bool
past_invoice status = truthy status && not (str_eq (get_or status "") "invoice_issued")

abbrev pub job_url : Order → String → Option String → Option String → State → State
job_url read job none status w = w
job_url read job (some url) status w =
    if past_invoice status
    then notify_again read.vcc_notified_at job
        (update (λ o. record o { xlm_sent_at = some w.now; updated_at = w.now }) w)
    else pay_again read job url w

unfoldable pub job_replied : Order → String → Settlement VccJob → State → State
job_replied read job (returned j) w = job_url read job (or_null j.payment_url) j.status w
job_replied read job (thrown e) w = w

-- `callPayCtxOrderWithAmbiguousPark`, and what follows it.
unfoldable pub payment_again_replied : Order → String → Settlement (Option String) → State → State
payment_again_replied read job (returned hash) w =
    notify_again read.vcc_notified_at job (update (sent_row hash w.now) w)
payment_again_replied read job (thrown e) w = if is_ambiguous e then park e w else w

unfoldable pub notice_again_replied : Settlement Unit → State → State
notice_again_replied (returned u) w = update (notified_row w.now) w
notice_again_replied (thrown e) w = w

abbrev pub is_open : Status → Bool
is_open s = is_pending_payment s || is_ordering s

-- Ten minutes.
abbrev recover_after_s : ℕ
recover_after_s = 600

abbrev pub poll_job : Option String → State → State
poll_job none w = w
poll_job (some job) w = wait_for job_polled (make_call (get_vcc_job_status job) w)

abbrev pub recover_row : Option Order → State → State
recover_row none w = w
recover_row (some o) w =
    if is_open o.status && ltb (o.updated_at / 1_000 + recover_after_s) (w.now / 1_000)
    then poll_job o.vcc_job_id w
    else w

-- `recoverStuckOrders`, up to its await.
unfoldable pub recover_stuck_orders : State → State
recover_stuck_orders w = recover_row w.order w

abbrev pub act_on_job : Option String → State → State
act_on_job none w = w
act_on_job (some s) w =
    if str_eq s "delivered"
    then touch w
    else if str_eq s "failed"
    then fail_if is_open w.order w
    else w

unfoldable pub job_polled_replied : Settlement VccJob → State → State
unfolding schedule_refund
job_polled_replied (returned job) w = act_on_job job.status w
job_polled_replied (thrown e) w = w
