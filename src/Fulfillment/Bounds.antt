-- ===== src/Fulfillment/Bounds.antt =====
-- Bounds on the treasury's outflows for one order, in any run of the backend
-- (backend/src/payment-handler.js, backend/src/fulfillment.js, backend/src/jobs.js).
use cards.Prelude.{ℕ, ◌+◌, ◌≤◌, ◌≡◌, refl, [], Option, none, some, arith}
use cards.Fulfillment.{Order, State, ordering}
use cards.Fulfillment.Jobs.{Settings}
use cards.Fulfillment.Steps.{Reach}
use cards.Fulfillment.Weigh.{Tracked, refund, payment, spent, by_row, weigh}
use cards.Fulfillment.Weigh.Steps.{Reach-weigh}

Reach-spent :
    (s : Settings) (k : Tracked) {w u : State}
    → Reach s w u
    → spent k u.calls ≤ weigh s.max_fulfillment_attempts k w
Reach-spent s k {w} {u} r = ground (arith, Reach-weigh s.max_fulfillment_attempts k s refl r)

by_row-refund : (max : ℕ) (o : Option Order) → by_row max refund o ≤ 2
by_row-refund max none = omega arith
by_row-refund max (some o) = ground arith

by_row-payment : (max : ℕ) (o : Option Order) → by_row max payment o ≤ 1 + max
by_row-payment max none = omega arith
by_row-payment max (some o) = ground arith

-- Whatever the row of an order holds when nothing waits and nothing was called yet, and whatever
-- payments, callbacks, job ticks, decisions and replies follow, in any order and with any outcome:
-- the backend asks the treasury for at most two refunds of the order.
pub refunds_at_most_two :
    (s : Settings) {w u : State}
    → w.calls ≡ []
    → w.tasks ≡ []
    → Reach s w u
    → spent refund u.calls ≤ 2
refunds_at_most_two s {w} {u} c t r =
    ground (arith, Reach-spent s refund r, by_row-refund s.max_fulfillment_attempts w.order)

-- An order that is being fulfilled, with no function of the process at work on it (as after a
-- restart), is refunded at most once from there on, whatever payments, callbacks, job ticks, decisions
-- and replies follow, in whatever order.
pub refunded_once_from_ordering :
    (s : Settings) {w u : State} (o : Order)
    → w.order ≡ some o
    → o.status ≡ ordering
    → w.calls ≡ []
    → w.tasks ≡ []
    → Reach s w u
    → spent refund u.calls ≤ 1
refunded_once_from_ordering s o e h c t r = ground (arith, Reach-spent s refund r)

-- Whatever the row of an order holds when nothing waits and nothing was called yet, and whatever
-- payments, callbacks, job ticks, decisions and replies follow in whatever order: the treasury is asked
-- to pay the invoice of the card at most once, and once more for each attempt that the settings allow.
pub invoice_payments_bounded :
    (s : Settings) {w u : State}
    → w.calls ≡ []
    → w.tasks ≡ []
    → Reach s w u
    → spent payment u.calls ≤ 1 + s.max_fulfillment_attempts
invoice_payments_bounded s {w} {u} c t r =
    ground (arith, Reach-spent s payment r, by_row-payment s.max_fulfillment_attempts w.order)
