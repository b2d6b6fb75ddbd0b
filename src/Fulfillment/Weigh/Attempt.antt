-- ===== src/Fulfillment/Weigh/Attempt.antt =====
-- The measure over an attempt of `reconcileOrderingFulfillment` and over `recoverStuckOrders`
-- (backend/src/jobs.js).
use cards.Prelude.{ℕ, ◌+◌, ◌≤◌, ◌<◌, ◌≡◌, refl, false, Option, none, some, String, arith}
use cards.Fulfillment.{Order, State, failed}
use cards.Fulfillment.{Settlement, returned, thrown, Invoice, VccJob, update, or_null}
use cards.Fulfillment.Handler.{sent_row, notified_row}
use cards.Fulfillment.Jobs.{
  Settings, reconcile, invoice_again_replied, job_replied, payment_again_replied,
  notice_again_replied, job_polled_replied, notify_again, settle_step, start_attempt, claim_attempt,
  run_out, reconcile_row, job_url, recover_row, poll_job, act_on_job, is_open, has_run_out,
}
use cards.Fulfillment.Weigh.{Tracked, by_attempt, weigh, weigh-update}
use cards.Fulfillment.Weigh.Fail.{fail_if-weigh, open_allowed, hard_fail-weigh, touch-weigh}

module _ (max : ℕ) (k : Tracked) where
  pub notify_again-weigh :
      (t : Option ℕ) (job : String) (w : State) → weigh max k (notify_again t job w) ≤ weigh max k w
  notify_again-weigh none job w = ground arith
  notify_again-weigh (some t) job w = ground arith

  pub settle_step-weigh :
      (read : Order) (job : String) (url : Option String) (sent : Option ℕ) (w : State)
      → weigh max k (settle_step read job url sent w) ≤ weigh max k w + by_attempt k
  settle_step-weigh read job url (some t) w =
      ground (arith, notify_again-weigh read.vcc_notified_at job w)
  settle_step-weigh read job none none w = ground arith
  settle_step-weigh read job (some url) none w = ground arith

  pub start_attempt-weigh :
      (read : Order) (job : Option String) (w : State)
      → weigh max k (start_attempt read job w) ≤ weigh max k w + by_attempt k
  start_attempt-weigh read none w = ground arith
  start_attempt-weigh read (some job) w = settle_step-weigh read job none read.xlm_sent_at w

  pub claim_attempt-weigh :
      (read : Order) (o : Option Order) (w : State)
      → w.order ≡ o
      → read.fulfillment_attempt < max
      → weigh max k (claim_attempt read o w) ≤ weigh max k w
  claim_attempt-weigh read none w e h = ground arith
  claim_attempt-weigh read (some o) w e h = ground (
    arith,
    start_attempt-weigh read (or_null read.vcc_job_id) (record w {
      order =
          some (record o { fulfillment_attempt = o.fulfillment_attempt + 1; updated_at = w.now });
    }),
  )

  pub run_out-weigh :
      (read : Order) (job : Option String) (w : State)
      → weigh max k (run_out read job w) ≤ weigh max k w
  run_out-weigh read none w = hard_fail-weigh max k w
  run_out-weigh read (some job) w = ground arith

  pub attempts_left :
      (s : Settings) (now : ℕ) (o : Order)
      → has_run_out s now o ≡ false
      → o.fulfillment_attempt < s.max_fulfillment_attempts
  unfolding has_run_out
  attempts_left s now o h = ground arith

  pub reconcile_row-weigh :
      (s : Settings) (o : Option Order) (w : State)
      → s.max_fulfillment_attempts ≡ max
      → weigh max k (reconcile_row s o w) ≤ weigh max k w
  reconcile_row-weigh s none w e = ground arith
  reconcile_row-weigh s (some o) w e = ground (
    arith,
    run_out-weigh o (or_null o.vcc_job_id) w,
    claim_attempt-weigh o w.order w refl,
    attempts_left s w.now o,
  )

  pub reconcile-weigh :
      (s : Settings) (w : State)
      → s.max_fulfillment_attempts ≡ max
      → weigh max k (reconcile s w) ≤ weigh max k w
  unfolding reconcile
  reconcile-weigh s w e = ground (arith, reconcile_row-weigh s w.order w e)

  pub invoice_again_replied-weigh :
      (read : Order) (r : Settlement Invoice) (w : State)
      → weigh max k (invoice_again_replied read r w) ≤ weigh max k w + by_attempt k
  unfolding invoice_again_replied
  invoice_again_replied-weigh read (returned i) w =
      let f : Order → Order = λ o. record o {
        vcc_job_id = some i.vcc_job_id;
        callback_nonce = some i.callback_nonce;
        updated_at = w.now;
      } in
      ground (
        arith,
        settle_step-weigh read i.vcc_job_id (or_null (some i.payment_url)) read.xlm_sent_at
            (update f w),
        weigh-update max k f w (λ o. ground arith),
      )
  invoice_again_replied-weigh read (thrown e) w = ground arith

  pub job_url-weigh :
      (read : Order) (job : String) (url status : Option String) (w : State)
      → weigh max k (job_url read job url status w) ≤ weigh max k w + by_attempt k
  job_url-weigh read job none status w = ground arith
  job_url-weigh read job (some url) status w =
      let f : Order → Order = λ o. record o { xlm_sent_at = some w.now; updated_at = w.now } in
      ground (
        arith,
        notify_again-weigh read.vcc_notified_at job (update f w),
        weigh-update max k f w (λ o. ground arith),
      )

  pub job_replied-weigh :
      (read : Order) (job : String) (r : Settlement VccJob) (w : State)
      → weigh max k (job_replied read job r w) ≤ weigh max k w + by_attempt k
  unfolding job_replied
  job_replied-weigh read job (returned j) w =
      job_url-weigh read job (or_null j.payment_url) j.status w
  job_replied-weigh read job (thrown e) w = ground arith

  pub payment_again_replied-weigh :
      (read : Order) (job : String) (r : Settlement (Option String)) (w : State)
      → weigh max k (payment_again_replied read job r w) ≤ weigh max k w
  unfolding payment_again_replied
  payment_again_replied-weigh read job (returned hash) w = ground (
    arith,
    notify_again-weigh read.vcc_notified_at job (update (sent_row hash w.now) w),
    weigh-update max k (sent_row hash w.now) w (λ o. ground arith),
  )
  payment_again_replied-weigh read job (thrown e) w = ground (
    arith,
    weigh-update max k
        (λ o. record o { status = failed; ctx_stellar_txid = e.tx_hash; updated_at = w.now }) w
        (λ o. ground arith),
  )

  pub notice_again_replied-weigh :
      (r : Settlement Unit) (w : State) → weigh max k (notice_again_replied r w) ≤ weigh max k w
  unfolding notice_again_replied
  notice_again_replied-weigh (returned u) w =
      weigh-update max k (notified_row w.now) w (λ o. ground arith)
  notice_again_replied-weigh (thrown e) w = ground arith

  pub poll_job-weigh :
      (job : Option String) (w : State) → weigh max k (poll_job job w) ≤ weigh max k w
  poll_job-weigh none w = ground arith
  poll_job-weigh (some job) w = ground arith

  pub recover_row-weigh :
      (o : Option Order) (w : State) → weigh max k (recover_row o w) ≤ weigh max k w
  recover_row-weigh none w = ground arith
  recover_row-weigh (some o) w = ground (arith, poll_job-weigh o.vcc_job_id w)

  pub act_on_job-weigh :
      (s : Option String) (w : State) → weigh max k (act_on_job s w) ≤ weigh max k w
  act_on_job-weigh none w = ground arith
  act_on_job-weigh (some s) w =
      ground (
        arith,
        touch-weigh max k w,
        fail_if-weigh max k is_open w.order w (open_allowed max k) refl,
      )

  pub job_polled_replied-weigh :
      (r : Settlement VccJob) (w : State) → weigh max k (job_polled_replied r w) ≤ weigh max k w
  unfolding job_polled_replied
  job_polled_replied-weigh (returned job) w = act_on_job-weigh job.status w
  job_polled_replied-weigh (thrown e) w = ground arith
