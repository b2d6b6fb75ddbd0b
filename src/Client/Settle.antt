-- ===== src/Client/Settle.antt =====
-- What `waitForCardStream` and `waitForCardPoll` of sdk/src/client.ts do with an order's phase: the
-- same three tests in both.
use cards.Prelude.{◌≡◌, refl, ◌⊎◌, inl, inr, Option, none, some, String, get_or, arith, true}
use cards.Errors.{Error, Result, ok, err, order_failed, is_order_failed}
use cards.Client.{
  OrderStatus, CardDetails, OrderPhase, awaiting_approval, awaiting_payment, processing, ready,
  failed, refunded, rejected, expired, other_phase,
}

abbrev pub phase_text : OrderPhase → String
phase_text awaiting_approval = "awaiting_approval"
phase_text awaiting_payment = "awaiting_payment"
phase_text processing = "processing"
phase_text ready = "ready"
phase_text failed = "failed"
phase_text refunded = "refunded"
phase_text rejected = "rejected"
phase_text expired = "expired"
phase_text (other_phase s) = s

-- `new OrderFailedError(orderId, order.error ?? order.phase, order.refund)`.
abbrev pub order_failure : String → OrderStatus → Error
order_failure order_id order =
    order_failed order_id (get_or order.error (phase_text order.phase)) order.refund

settle_phase : String → OrderStatus → OrderPhase → Option CardDetails → Option (Result CardDetails)
settle_phase order_id order ready (some card) = some (ok card)
settle_phase order_id order ready none = none
settle_phase order_id order failed card = some (err (order_failure order_id order))
settle_phase order_id order refunded card = some (err (order_failure order_id order))
settle_phase order_id order rejected card = some (err (order_failure order_id order))
settle_phase order_id order expired card =
    some (err (order_failed order_id "Payment window expired — no funds were taken" none))
settle_phase order_id order _ card = none

-- `none` is to go on waiting.
unfoldable pub settle : String → OrderStatus → Option (Result CardDetails)
unfolding settle_phase
settle order_id order = settle_phase order_id order order.phase order.card

-- An order that settles is ready with its card, or has ended in one of the four failed phases.
abbrev pub IsFailedPhase : OrderPhase → Type 0
IsFailedPhase p = (p ≡ failed) ⊎ (p ≡ refunded) ⊎ (p ≡ rejected) ⊎ (p ≡ expired)

pub settle-ready :
    (id : String) (o : OrderStatus) (card : CardDetails)
    → o.phase ≡ ready
    → o.card ≡ some card
    → settle id o ≡ some (ok card)
unfolding settle settle_phase
settle-ready id o card p c = rw (p, c) refl

settle_phase-ok :
    (id : String) (o : OrderStatus) (p : OrderPhase) (c : Option CardDetails) (card : CardDetails)
    → settle_phase id o p c ≡ some (ok card)
    → (p ≡ ready) × (c ≡ some card)
unfolding settle_phase
settle_phase-ok id o ready (some d) card h = (refl, cc)
settle_phase-ok id o ready none card h = cc
settle_phase-ok id o _ c card h = cc

pub settle-ok :
    (id : String) (o : OrderStatus) (card : CardDetails)
    → settle id o ≡ some (ok card)
    → (o.phase ≡ ready) × (o.card ≡ some card)
unfolding settle
settle-ok id o card h = settle_phase-ok id o o.phase o.card card h

settle_phase-err :
    (id : String) (o : OrderStatus) (p : OrderPhase) (c : Option CardDetails) (e : Error)
    → settle_phase id o p c ≡ some (err e)
    → IsFailedPhase p × (is_order_failed e ≡ true)
unfolding settle_phase is_order_failed
settle_phase-err id o ready (some d) e h = cc
settle_phase-err id o ready none e h = cc
settle_phase-err id o failed c e h = (inl refl, ground arith)
settle_phase-err id o refunded c e h = (inr (inl refl), ground arith)
settle_phase-err id o rejected c e h = (inr (inr (inl refl)), ground arith)
settle_phase-err id o expired c e h = (inr (inr (inr refl)), ground arith)
settle_phase-err id o _ c e h = cc

pub settle-err :
    (id : String) (o : OrderStatus) (e : Error)
    → settle id o ≡ some (err e)
    → IsFailedPhase o.phase × (is_order_failed e ≡ true)
unfolding settle
settle-err id o e h = settle_phase-err id o o.phase o.card e h
