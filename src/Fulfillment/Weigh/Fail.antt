-- ===== src/Fulfillment/Weigh/Fail.antt =====
-- The measure over the callback, the failures of the jobs and the ends of an order before its payment
-- (backend/src/jobs.js, backend/src/api/vcc-callback.js).
use cards.Prelude.{ℕ, ◌≤◌, ◌≡◌, refl, Bool, true, false, Option, none, some, String, arith}
use cards.Fulfillment.{Order, Status, State, awaiting_approval, delivered, failed, with_status}
use cards.Fulfillment.{Settlement, returned, thrown, VccJob, is_ordering, is_terminal, tell_agent}
use cards.Fulfillment.Callback.{
  Report, fulfilled, no_card, bad_card, good_card, failure, other, act_on, report_row,
}
use cards.Fulfillment.Jobs.{
  last_look_replied, expire_row, decide_row, fail_if, look_at, touch, is_open, hard_fail,
}
use cards.Fulfillment.Weigh.{
  Tracked, by_status, by_refund, weigh, weigh-schedule_refund, weigh-update,
}

module _ (max : ℕ) (k : Tracked) where
  pub fail_if-weigh :
      (p : Status → Bool) (o : Option Order) (w : State)
      → ((s : Status) → p s ≡ true → by_refund k ≤ by_status k s)
      → w.order ≡ o
      → weigh max k (fail_if p o w) ≤ weigh max k w
  fail_if-weigh p none w h e = ground arith
  fail_if-weigh p (some o) w h e = ground (
    arith,
    h o.status,
    weigh-schedule_refund max k (record w { order = some (with_status failed w.now o) }),
  )

  pub ordering_allowed : (s : Status) → is_ordering s ≡ true → by_refund k ≤ by_status k s
  ordering_allowed s h = ground arith

  pub open_allowed : (s : Status) → is_open s ≡ true → by_refund k ≤ by_status k s
  open_allowed s h = ground arith

  pub hard_fail-weigh : (w : State) → weigh max k (hard_fail w) ≤ weigh max k w
  unfolding hard_fail
  hard_fail-weigh w = fail_if-weigh is_ordering w.order w ordering_allowed refl

  pub touch-weigh : (w : State) → weigh max k (touch w) ≤ weigh max k w
  touch-weigh w = weigh-update max k (λ o. record o { updated_at = w.now }) w (λ o. ground arith)

  pub look_at-weigh : (s : Option String) (w : State) → weigh max k (look_at s w) ≤ weigh max k w
  look_at-weigh none w = hard_fail-weigh w
  look_at-weigh (some s) w = ground (arith, touch-weigh w, hard_fail-weigh w)

  pub last_look_replied-weigh :
      (r : Settlement VccJob) (w : State) → weigh max k (last_look_replied r w) ≤ weigh max k w
  unfolding last_look_replied
  last_look_replied-weigh (returned job) w = look_at-weigh job.status w
  last_look_replied-weigh (thrown e) w = touch-weigh w

  pub tell_agent-weigh :
      (s : Status) (o : Order) (w : State) → weigh max k (tell_agent s o w) ≡ weigh max k w
  tell_agent-weigh s o w = ground arith

  pub terminal_allowed : (s : Status) → is_terminal s ≡ false → by_refund k ≤ by_status k s
  terminal_allowed s h = ground arith

  pub act_on-weigh :
      (r : Report) (o : Order) (w : State)
      → w.order ≡ some o
      → is_terminal o.status ≡ false
      → weigh max k (act_on r o w).0 ≤ weigh max k w
  act_on-weigh (fulfilled good_card) o w e h = ground (
    arith,
    tell_agent-weigh delivered o (record w { order = some (with_status delivered w.now o) }),
  )
  act_on-weigh (fulfilled no_card) o w e h = ground arith
  act_on-weigh (fulfilled bad_card) o w e h = ground arith
  act_on-weigh failure o w e h =
      let w' = record w { order = some (with_status failed w.now o) } in
      ground (
        arith,
        weigh-schedule_refund max k (tell_agent failed o w'),
        tell_agent-weigh failed o w',
        terminal_allowed o.status,
      )
  act_on-weigh other o w e h = ground arith

  pub expire_row-weigh :
      (o : Option Order) (w : State) → w.order ≡ o → weigh max k (expire_row o w) ≤ weigh max k w
  expire_row-weigh none w e = ground arith
  expire_row-weigh (some o) w e = ground arith

  pub decide_row-weigh :
      (s : Status) (o : Option Order) (w : State)
      → by_status k s ≤ by_status k awaiting_approval
      → w.order ≡ o
      → weigh max k (decide_row s o w) ≤ weigh max k w
  decide_row-weigh s none w h e = ground arith
  decide_row-weigh s (some o) w h e = ground arith

  pub report_row-weigh :
      (r : Report) (o : Option Order) (w : State)
      → w.order ≡ o
      → weigh max k (report_row r o w).0 ≤ weigh max k w
  report_row-weigh r none w e = ground arith
  report_row-weigh r (some o) w e = ground (arith, act_on-weigh r o w e)
