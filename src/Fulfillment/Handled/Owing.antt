-- ===== src/Fulfillment/Handled/Owing.antt =====
-- How `scheduleRefund` (backend/src/fulfillment.js) settles an order that failed.
use cards.Prelude.{
  ℕ, suc, ◌≡◌, refl, ap, sym, subst, inl, inr, Bool, true, false, [], ◌∷◌, Option, none, some,
  String, truthy, str_eq, if◌then◌else◌, Bool-cases,
}
use cards.Prelude.Text.{Text}
use cards.Fulfillment.{
  Order, State, Settlement, returned, thrown, Coin, refund_sent, failed, refund_pending, refunded,
  is_refund, with_status, update, sql_coalesce, map_order,
}
use cards.Fulfillment.Refund.{
  schedule_refund, claim_refund, send_to, send_coin, refund_amount, refund_replied,
  record_refund_send_failure,
}
use cards.Fulfillment.Handler.{fail_order}
use cards.Fulfillment.Steps.{resume_task}
use cards.Fulfillment.Handled.{
  Replies, run_waits, held, owed, repaid, IsDone, go_on_lem, drain_done,
}

-- A world after `scheduleRefund`: done, or with the refund sent and awaited.
pub data Owing (u : State) : Type 0 where
  done : IsDone u → Owing u
  sent :
      (coin : Coin) (amount : Text) (row : Order)
      → u.order ≡ some row
      → row.status ≡ refund_pending
      → u.tasks ≡ refund_sent coin amount ∷ []
      → Owing u

owed_done :
    (u : State) (o : Order) → u.order ≡ some o → o.status ≡ refund_pending → u.tasks ≡ [] → IsDone u
owed_done u o e h t = record { row = o; row_eq = e; ended = owed h; no_task = t }

send-Owing :
    (d : String) (a : Option (Coin × Text)) (w : State) (o : Order)
    → w.order ≡ some o
    → o.status ≡ refund_pending
    → w.tasks ≡ []
    → Owing (send_coin d a w)
send-Owing d none w o e h t = done (owed_done w o e h t)
send-Owing d (some (coin, amount)) w o e h t =
    sent coin amount o e h (ap (◌∷◌ (refund_sent coin amount)) t)

send_to-Owing :
    (d : Option String) (read : Order) (w : State) (o : Order)
    → w.order ≡ some o
    → o.status ≡ refund_pending
    → w.tasks ≡ []
    → Owing (send_to d read w)
send_to-Owing none read w o e h t = done (owed_done w o e h t)
send_to-Owing (some d) read w o e h t = elim (Bool-cases (str_eq d "")) [
  | inl b ↦ rw (b, send_to) (done (owed_done w o e h t))
  | inr b ↦ rw (b, send_to) (send-Owing d (refund_amount read) w o e h t)
]

claim_refund-Owing :
    (o : Order) (w : State)
    → is_refund o.status ≡ false
    → w.tasks ≡ []
    → Owing (claim_refund (some o) w)
claim_refund-Owing o w h t =
    rw (h, claim_refund)
      (send_to-Owing o.sender_address o
        (record w { order = some (with_status refund_pending w.now o) })
        (with_status refund_pending w.now o) refl refl t)

pub either :
    (P : State → Type 0) (b : Bool) {x y : State}
    → (b ≡ true → P x)
    → (b ≡ false → P y)
    → P (if b then x else y)
either P true f g = f refl
either P false f g = g refl

-- The outer `catch`, on any row.
pub fail_order-Owing :
    (w : State) (o : Order) → w.order ≡ some o → w.tasks ≡ [] → Owing (fail_order w)
unfolding fail_order schedule_refund
fail_order-Owing w o e t =
    let row_eq = ap (map_order (with_status failed w.now)) e in
    let w' = update (with_status failed w.now) w in
    either Owing w.frozen
      (λ b. done (record {
        row = with_status failed w.now o;
        row_eq = row_eq;
        ended = held b refl;
        no_task = t;
      }))
      (λ b.
        subst (λ q. Owing (claim_refund q w')) (sym row_eq)
          (claim_refund-Owing (with_status failed w.now o) w' refl t))

refund_replied-IsDone :
    (x : Settlement String) (w : State) (o : Order)
    → w.order ≡ some o
    → o.status ≡ refund_pending
    → w.tasks ≡ []
    → IsDone (refund_replied x w)
unfolding refund_replied record_refund_send_failure
refund_replied-IsDone (returned hash) w o e h t = record {
  row = record o { status = refunded; refund_stellar_txid = some hash; updated_at = w.now };
  row_eq =
      ap
        (map_order (λ o. record o {
          status = refunded;
          refund_stellar_txid = some hash;
          updated_at = w.now;
        }))
        e;
  ended = repaid hash refl refl;
  no_task = t;
}
refund_replied-IsDone (thrown x) w o e h t =
    either IsDone (truthy x.tx_hash)
      (λ b. record {
        row = record o {
          refund_stellar_txid = sql_coalesce o.refund_stellar_txid x.tx_hash;
          updated_at = w.now;
        };
        row_eq =
            ap
              (map_order (λ o. record o {
                refund_stellar_txid = sql_coalesce o.refund_stellar_txid x.tx_hash;
                updated_at = w.now;
              }))
              e;
        ended = owed h;
        no_task = t;
      })
      (λ b. owed_done w o e h t)

pub settled : (n : ℕ) (r : Replies) (u : State) → IsDone u → IsDone (run_waits n r u)
settled n r u d = subst IsDone (sym (drain_done n r u d.no_task)) d

pub Owing-IsDone : (n : ℕ) (r : Replies) (u : State) → Owing u → IsDone (run_waits (suc n) r u)
unfolding run_waits resume_task
Owing-IsDone n r u (done d) = settled (suc n) r u d
Owing-IsDone n r u (sent coin amount row e h t) =
    subst (λ v. IsDone (run_waits n r v)) (sym (go_on_lem r (refund_sent coin amount) [] u t))
      (settled n r (refund_replied r.refund (record u { tasks = [] }))
        (refund_replied-IsDone r.refund (record u { tasks = [] }) row e h refl))
