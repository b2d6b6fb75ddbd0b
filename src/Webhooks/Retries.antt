-- ===== src/Webhooks/Retries.antt =====
-- How often a queued webhook is sent again (backend/src/jobs.js).
use cards.Prelude.{
  ℕ, ◌+◌, ◌-◌, ◌≤◌, ◌≡◌, sym, subst, some_inj, Bool, true, false, List, [], ◌∷◌, Option, none, some,
  arith, if◌then◌else◌, Bool-cases, inl, inr,
}
use cards.Webhooks.{
  WebhookPayload, Queued, Vault, max_webhook_attempts, rehydrate, is_due, send_out, retry_webhook,
  enqueue_webhook, redact_card_fields,
}

-- A tick of the job: its time, what the vault gives and whether a delivery would succeed.
pub record Tick : Type 0 where
  pub time : ℕ
  pub vault : Vault
  pub success : Bool

abbrev pub one_if : Bool → ℕ
one_if true = 1
one_if false = 0

-- The row after the ticks, and in how many of them it was taken up.
abbrev pub after_ticks : List Tick → Queued → Queued
after_ticks [] q = q
after_ticks (t ∷ ts) q = after_ticks ts (retry_webhook t.vault t.success t.time q)

abbrev pub taken_up : List Tick → Queued → ℕ
taken_up [] q = 0
taken_up (t ∷ ts) q =
    one_if (is_due t.time q) + taken_up ts (retry_webhook t.vault t.success t.time q)

-- The tries that a row has left.
abbrev pub tries : Queued → ℕ
tries q = if q.delivered then 0 else max_webhook_attempts + 1 - q.attempts

send_out-tries :
    (p : Option WebhookPayload) (s : Bool) (now : ℕ) (q : Queued)
    → q.delivered ≡ false
    → q.attempts ≤ max_webhook_attempts
    → 1 + tries (send_out p s now q) ≤ tries q
send_out-tries none s now q d a = ground arith
send_out-tries (some p) true now q d a = ground arith
send_out-tries (some p) false now q d a = ground arith

due_row :
    (now : ℕ) (q : Queued)
    → is_due now q ≡ true
    → (q.delivered ≡ false) × (q.attempts ≤ max_webhook_attempts)
unfolding is_due
due_row now q e = ground arith

retry_webhook-tries :
    (v : Vault) (s : Bool) (now : ℕ) (q : Queued)
    → one_if (is_due now q) + tries (retry_webhook v s now q) ≤ tries q
unfolding retry_webhook
retry_webhook-tries v s now q = elim (Bool-cases (is_due now q)) [
  | inl b ↦
      let (d, a) = due_row now q b in
      subst
        (λ c.
          one_if c + tries (if c then send_out (rehydrate v q.payload) s now q else q) ≤ tries q)
        (sym b) (send_out-tries (rehydrate v q.payload) s now q d a)
  | inr b ↦
      subst
        (λ c.
          one_if c + tries (if c then send_out (rehydrate v q.payload) s now q else q) ≤ tries q)
        (sym b) (omega arith)
]

taken_up-tries : (ts : List Tick) (q : Queued) → taken_up ts q + tries (after_ticks ts q) ≤ tries q
taken_up-tries [] q = omega arith
taken_up-tries (t ∷ ts) q = omega (
  arith,
  retry_webhook-tries t.vault t.success t.time q,
  taken_up-tries ts (retry_webhook t.vault t.success t.time q),
)

abbrev queued_at : ℕ → WebhookPayload → Queued
queued_at now p = record {
  payload = redact_card_fields p;
  attempts = 1;
  delivered = false;
  next_attempt = now + 30_000;
}

-- A webhook that is queued is taken up at most three times, whatever the times of the ticks and
-- whatever the vault and the deliveries do.
pub taken_up_at_most_three :
    (now : ℕ) (p : WebhookPayload) (q : Queued) (ts : List Tick)
    → enqueue_webhook false now p ≡ some q
    → taken_up ts q ≤ 3
unfolding enqueue_webhook
taken_up_at_most_three now p q ts e =
    subst (λ (r : Queued). taken_up ts r ≤ 3) (some_inj e)
      (omega (arith, taken_up-tries ts (queued_at now p)))
