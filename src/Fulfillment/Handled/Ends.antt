-- ===== src/Fulfillment/Handled/Ends.antt =====
-- Where `handlePayment` (backend/src/payment-handler.js) ends.
use cards.Prelude.{ℕ, suc, ◌≡◌, refl, ap, sym, subst, ◌∙◌, [], ◌∷◌, Option, some, String, arith}
use cards.Prelude.Text.{Text}
use cards.Fulfillment.{
  Order, State, Payment, Settlement, returned, thrown, Invoice, invoice_wanted, price_wanted,
  payment_sent, notice_sent, ordering, failed, is_ambiguous, update, make_call, wait_for,
  get_invoice, notify_paid, pay_ctx_order, map_order,
}
use cards.Fulfillment.Handler.{
  handle_payment, fail_order, invoice_replied, price_replied, payment_replied, notice_replied, park,
  claimed_row, notified_row, sent_row,
}
use cards.Fulfillment.Steps.{resume_task}
use cards.Fulfillment.Claims.{Handles, kept, unread, claimed, handle_payment-Handles}
use cards.Fulfillment.Handled.{Replies, run_waits, told, parked, IsDone, go_on_lem, drain_done}
use cards.Fulfillment.Handled.Owing.{either, fail_order-Owing, settled, Owing-IsDone}

-- From the wait that each task stands for, the handler comes to its end.
notice_IsDone :
    (n : ℕ) (r : Replies) (w : State) (o : Order) (at : ℕ)
    → w.order ≡ some o
    → o.status ≡ ordering
    → o.xlm_sent_at ≡ some at
    → w.tasks ≡ []
    → (x : Settlement Unit) → IsDone (run_waits (suc n) r (notice_replied x w))
unfolding notice_replied
notice_IsDone n r w o at e h a t (returned u) =
    settled (suc n) r (update (notified_row w.now) w) (record {
      row = notified_row w.now o;
      row_eq = ap (map_order (notified_row w.now)) e;
      ended = told at w.now h a refl;
      no_task = t;
    })
notice_IsDone n r w o at e h a t (thrown x) =
    Owing-IsDone n r (fail_order w) (fail_order-Owing w o e t)

payment_IsDone :
    (n : ℕ) (r : Replies) (w : State) (o : Order) (job : String)
    → w.order ≡ some o
    → o.status ≡ ordering
    → w.tasks ≡ []
    → (x : Settlement (Option String))
    → IsDone (run_waits (suc (suc n)) r (payment_replied job x w))
unfolding payment_replied run_waits resume_task
payment_IsDone n r w o job e h t (returned hash) =
    let w' = wait_for notice_sent (make_call (notify_paid job) (update (sent_row hash w.now) w)) in
    subst (λ v. IsDone (run_waits (suc n) r v))
      (sym (go_on_lem r notice_sent [] w' (ap (◌∷◌ notice_sent) t)))
      (notice_IsDone n r (record w' { tasks = [] }) (sent_row hash w.now o) w.now
        (ap (map_order (sent_row hash w.now)) e) h refl refl r.notice)
payment_IsDone n r w o job e h t (thrown x) =
    either (λ v. IsDone (run_waits (suc (suc n)) r v)) (is_ambiguous x)
      (λ b. settled (suc (suc n)) r (park x w) (record {
        row = record o { status = failed; ctx_stellar_txid = x.tx_hash; updated_at = w.now };
        row_eq =
            ap
              (map_order (λ o. record o {
                status = failed;
                ctx_stellar_txid = x.tx_hash;
                updated_at = w.now;
              }))
              e;
        ended = parked refl (ground arith);
        no_task = t;
      }))
      (λ b. Owing-IsDone (suc n) r (fail_order w) (fail_order-Owing w o e t))

price_IsDone :
    (n : ℕ) (r : Replies) (w : State) (o : Order) (amount : Option Text) (asset : String)
    (i : Invoice)
    → w.order ≡ some o
    → o.status ≡ ordering
    → w.tasks ≡ []
    → IsDone (run_waits (suc (suc (suc n))) r (price_replied amount asset i w))
unfolding price_replied run_waits resume_task
price_IsDone n r w o amount asset i e h t =
    let f : Order → Order = λ o. record o {
      vcc_job_id = some i.vcc_job_id;
      callback_nonce = some i.callback_nonce;
      updated_at = w.now;
    } in
    let task = payment_sent i.vcc_job_id in
    let w' =
      wait_for task (make_call (pay_ctx_order i.payment_url (some asset) amount) (update f w)) in
    subst (λ v. IsDone (run_waits (suc (suc n)) r v))
      (sym (go_on_lem r task [] w' (ap (◌∷◌ task) t)))
      (payment_IsDone n r (record w' { tasks = [] }) (f o) i.vcc_job_id (ap (map_order f) e) h refl
        r.payment)

invoice_IsDone :
    (n : ℕ) (r : Replies) (w : State) (o : Order) (amount : Option Text) (asset : String)
    → w.order ≡ some o
    → o.status ≡ ordering
    → w.tasks ≡ []
    → (x : Settlement Invoice)
    → IsDone (run_waits (suc (suc (suc (suc n)))) r (invoice_replied amount asset x w))
unfolding invoice_replied run_waits resume_task
invoice_IsDone n r w o amount asset e h t (returned i) =
    let task = price_wanted amount asset i in
    subst (λ v. IsDone (run_waits (suc (suc (suc n))) r v))
      (sym (go_on_lem r task [] (wait_for task w) (ap (◌∷◌ task) t)))
      (price_IsDone n r (record w { tasks = [] }) o amount asset i e h refl)
invoice_IsDone n r w o amount asset e h t (thrown x) =
    Owing-IsDone (suc (suc (suc n))) r (fail_order w) (fail_order-Owing w o e t)

-- What the handler leaves behind.
pub data Handled (p : Payment) (w u : State) : Type 0 where
  untouched : u.order ≡ w.order → u.calls ≡ w.calls → u.tasks ≡ [] → Handled p w u
  finished : IsDone u → Handled p w u

left_alone :
    (n : ℕ) (r : Replies) (p : Payment) (w u : State)
    → u.order ≡ w.order
    → u.calls ≡ w.calls
    → u.tasks ≡ []
    → Handled p w (run_waits n r u)
left_alone n r p w u o c t = subst (Handled p w) (sym (drain_done n r u t)) (untouched o c t)

Handled-of :
    (r : Replies) (p : Payment) (w : State)
    → w.tasks ≡ []
    → (u : State) → Handles p w u
    → Handled p w (run_waits 5 r u)
unfolding run_waits resume_task
Handled-of r p w t u (kept reason k e) =
    left_alone 5 r p w u (ap (λ v. v.order) e) (ap (λ v. v.calls) e) (ap (λ v. v.tasks) e ∙ t)
Handled-of r p w t u (unread o row v why e) =
    left_alone 5 r p w u (ap (λ v. v.order) e) (ap (λ v. v.calls) e) (ap (λ v. v.tasks) e ∙ t)
Handled-of r p w t u (claimed o excess row st c e) =
    let task = invoice_wanted o.amount_usdc p.payment_asset in
    let row' = claimed_row p excess w.now o in
    let w' = make_call (get_invoice o.amount_usdc) (record w { order = some row' }) in
    finished (
      subst (λ v. IsDone (run_waits 5 r v)) (sym e)
        (subst (λ v. IsDone (run_waits 4 r v))
          (sym (go_on_lem r task [] (wait_for task w') (ap (◌∷◌ task) t)))
          (invoice_IsDone 0 r (record w' { tasks = [] }) row' o.amount_usdc p.payment_asset refl
            refl refl r.invoice)))

-- With no other function at work and whatever the services answer, a payment's handler and its
-- refund come to their end within five waits. The order is then as it was, with no call made; or it
-- is still `ordering`, with its invoice paid and the card service told; or failed, with the hash of an
-- unclear payment kept; or failed while the system is frozen; or its refund is pending, or sent and
-- its hash kept. No payment that was taken is left in between.
pub handle_payment_ends :
    (r : Replies) (p : Payment) (w : State)
    → w.tasks ≡ []
    → Handled p w (run_waits 5 r (handle_payment p w))
handle_payment_ends r p w t = Handled-of r p w t (handle_payment p w) (handle_payment-Handles p w)
