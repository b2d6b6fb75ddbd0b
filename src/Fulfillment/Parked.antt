-- ===== src/Fulfillment/Parked.antt =====
-- Orders that are delivered, failed or being refunded, with no function at work on them: among them
-- those that backend/src/payment-handler.js parks after an unclear payment.
use cards.Prelude.{ℕ, ◌≡◌, refl, sym, subst, ◌∙◌, true, false, [], some, String, arith}
use cards.Fulfillment.{Order, State, Payment, Thrown, thrown, failed, is_terminal, is_ambiguous}
use cards.Fulfillment.Handler.{handle_payment, payment_replied, park}
use cards.Fulfillment.Callback.{Report, vcc_callback}
use cards.Fulfillment.Jobs.{
  Settings, expire_stale_orders, approve_order, reject_order, reconcile, recover_stuck_orders,
  is_stuck, Desk, suspend_agent,
}
use cards.Fulfillment.Steps.{
  Move, Reach, paid_for, called_back, approved, turned_down, expiry, reconciliation, recovery,
  replied, scheduled, waited, switched, here, next, Act, Course, moved, settled, suspended, unmoved,
  act,
}

-- The row, the calls and the waiting functions are as before.
pub record Same (w u : State) : Type 0 where
  pub order : u.order ≡ w.order
  pub calls : u.calls ≡ w.calls
  pub tasks : u.tasks ≡ w.tasks

same : (w : State) → Same w w
same w = record { order = refl; calls = refl; tasks = refl }

Same-trans : {w u v : State} → Same w u → Same u v → Same w v
Same-trans a b = record {
  order = b.order ∙ a.order;
  calls = b.calls ∙ a.calls;
  tasks = b.tasks ∙ a.tasks;
}

not_suspended : (d : Desk) → d.pending ≡ false → suspend_agent d ≡ d
unfolding suspend_agent
not_suspended d p = rw (p, suspend_agent) refl

not_stuck :
    (s : Settings) (now : ℕ) (o : Order) → is_terminal o.status ≡ true → is_stuck s now o ≡ false
unfolding is_stuck
not_stuck s now o h = ground arith

module _ (s : Settings) {w : State} (o : Order) (e : w.order ≡ some o)
    (h : is_terminal o.status ≡ true) where
  handle_payment-Same : (p : Payment) → Same w (handle_payment p w)
  unfolding handle_payment
  handle_payment-Same p = ground arith

  vcc_callback-Same : (r : Report) → Same w (vcc_callback r w).0
  unfolding vcc_callback
  vcc_callback-Same r = ground arith

  expire-Same : Same w (expire_stale_orders w)
  unfolding expire_stale_orders
  expire-Same = ground arith

  approve-Same : Same w (approve_order w)
  unfolding approve_order
  approve-Same = ground arith

  reject-Same : Same w (reject_order w)
  unfolding reject_order
  reject-Same = ground arith

  reconcile-Same : Same w (reconcile s w)
  unfolding reconcile
  reconcile-Same = ground (arith, not_stuck s w.now o h)

  recover-Same : Same w (recover_stuck_orders w)
  unfolding recover_stuck_orders
  recover-Same = ground arith

  Move-Same : {u : State} → w.tasks ≡ [] → Move s w u → Same w u
  Move-Same t (paid_for p) = handle_payment-Same p
  Move-Same t (called_back r) = vcc_callback-Same r
  Move-Same t approved = approve-Same
  Move-Same t turned_down = reject-Same
  Move-Same t expiry = expire-Same
  Move-Same t reconciliation = reconcile-Same
  Move-Same t recovery = recover-Same
  Move-Same t (replied task rest r e') = ground arith
  Move-Same t (scheduled task rest e') = ground arith
  Move-Same t (waited ms) = record { order = refl; calls = refl; tasks = refl }
  Move-Same t (switched b) = record { order = refl; calls = refl; tasks = refl }

Reach-Same :
    (s : Settings) {w u : State} (o : Order)
    → w.order ≡ some o
    → is_terminal o.status ≡ true
    → w.tasks ≡ []
    → Reach s w u
    → Same w u
Reach-Same s {w} o e h t here = same w
Reach-Same s {w} o e h t (next r st) =
    let before = Reach-Same s o e h t r in
    Same-trans before (Move-Same s o (before.order ∙ e) h (before.tasks ∙ t) st)

-- No request is pending, and the row, the calls and the waiting functions are as before.
abbrev Closed : Desk → Desk → Type 0
Closed d e = (e.pending ≡ false) × Same d.state e.state

module _ (s : Settings) (d : Desk) (o : Order) (row : d.state.order ≡ some o)
    (h : is_terminal o.status ≡ true) (idle : d.state.tasks ≡ []) where
  Act-Closed : {e f : Desk} → Closed d e → Act s e f → Closed d f
  Act-Closed (p, before) (moved m) =
      (p, Same-trans before (Move-Same s o (before.order ∙ row) h (before.tasks ∙ idle) m))
  Act-Closed (p, before) settled = (refl, before)
  Act-Closed {e} (p, before) suspended = subst (Closed d) (sym (not_suspended e p)) (p, before)

  Course-Closed : d.pending ≡ false → {e : Desk} → Course s d e → Closed d e
  Course-Closed p unmoved = (p, same d.state)
  Course-Closed p (act c a) = Act-Closed (Course-Closed p c) a

-- Once an order is delivered, failed, waiting for its refund or refunded, no function is at work on it
-- and no request for its approval is pending, no step writes its row, calls a service or pays anything
-- for it: not a second payment, not a callback of the card service, not a decision, not a job, not the
-- suspension of its agent. The row is its status and the columns of its payment, not those of the card.
pub terminal_is_final :
    (s : Settings) {d e : Desk} (o : Order)
    → d.pending ≡ false
    → d.state.order ≡ some o
    → is_terminal o.status ≡ true
    → d.state.tasks ≡ []
    → Course s d e
    → Same d.state e.state
terminal_is_final s {d} {e} o p row h idle c = (Course-Closed s d o row h idle p c).1

-- An outbound payment whose outcome is unclear leaves the order failed, with the hash of the
-- transaction, and sends no refund, then or later: the payments, callbacks, decisions and jobs that
-- follow when no other function is at work leave the row and the calls as the handler left them.
pub parked_is_final :
    (s : Settings) (w : State) {u : State} (o : Order) (job : String) (e : Thrown)
    → w.order ≡ some o
    → w.tasks ≡ []
    → is_ambiguous e ≡ true
    → Reach s (payment_replied job (thrown e) w) u
    → (u.order
        ≡ some (record o { status = failed; ctx_stellar_txid = e.tx_hash; updated_at = w.now }))
      × (u.calls ≡ w.calls)
unfolding payment_replied
parked_is_final s w {u} o job e row t a r =
    ground (arith, Reach-Same s {w = park e w} {u = u} parked (ground arith) refl t (rw a at (r)))
  where
    parked : Order
    parked = record o { status = failed; ctx_stellar_txid = e.tx_hash; updated_at = w.now }
