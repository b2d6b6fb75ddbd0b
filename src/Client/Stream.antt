-- ===== src/Client/Stream.antt =====
-- `waitForCardStream` of sdk/src/client.ts: the loop that reads the stream, cuts it into events and
-- acts on them. `parse_order` is `JSON.parse` into an `OrderStatus`, `none` where it throws. A run of
-- the reader is the decoded chunks that it gives and how it ends: `none` for `done`, or the
-- exception that `read` throws, the abort by the timer included.
pub mod Chunks
pub mod LineEnds
use cards.Prelude.{
  ℕ, zero, suc, ◌+◌, ◌-◌, ◌*◌, ◌≤◌, ◌<◌, ◌≡◌, refl, ap, sym, ◌∙◌, Bool, true, false, List, [], ◌∷◌,
  ◌++◌, Option, none, some, arith, ◌==◌, ltb, length, length-append, append_assoc, append-nil,
  get_or, map, String, if◌then◌else◌, Option-cases, ◌⊎◌, inl, inr,
}
use mathlib.Core.List.{flatten}
use cards.Prelude.Text.{Text}
use cards.Errors.{Error, Result, ok, err, error, order_failed, auth, wait_timeout}
use cards.Client.{OrderStatus, CardDetails}
use cards.Client.Settle.{settle}
use cards.Client.Events.{normalize, cut, data_line, cut-length, cut-append}

pub data Drained : Type 0 where
  settled : Result CardDetails → Drained
  waiting : Text → Drained

pub record Reader : Type 0 where
  pub chunks : List Text
  pub ending : Option Error

-- `SSE_BUFFER_CAP`.
abbrev pub sse_buffer_cap : ℕ
sse_buffer_cap = 1024 * 1024

module _ (parse_order : Text → Option OrderStatus) (order_id : String) where
  -- One event: `none` is to go on.
  unfoldable pub handle_event : Text → Option (Result CardDetails)
  handle_event raw = elim (data_line raw) [
    | none ↦ none
    | some json ↦ elim (parse_order json) [ none ↦ none | some payload ↦ settle order_id payload ]
  ]

  -- The inner loop over the events in the buffer; each takes two characters at least.
  unfoldable pub drain : ℕ → Text → Drained
  drain zero buffer = waiting buffer
  drain (suc fuel) buffer = elim (cut buffer) [
    | none ↦ waiting buffer
    | some (raw, rest) ↦ elim (handle_event raw) [ some r ↦ settled r | none ↦ drain fuel rest ]
  ]

  -- The outer loop over the chunks.
  unfoldable pub read_loop : (timeout_ms : ℕ) → Text → List Text → Option Error → Result CardDetails
  read_loop timeout_ms buffer [] ending = err (get_or ending (wait_timeout order_id timeout_ms))
  read_loop timeout_ms buffer (c ∷ chunks) ending =
      let longer = buffer ++ normalize c in
      elim (ltb sse_buffer_cap (length longer)) [
        | true ↦ err (error "sse buffer exceeded 1 MB — aborting stream")
        | false ↦ elim (drain (length longer) longer) [
          | settled r ↦ r
          | waiting rest ↦ read_loop timeout_ms rest chunks ending
        ]
      ]

  pub drain-step :
      (fuel : ℕ) (t : Text) (p : Text × Text)
      → cut t ≡ some p
      → handle_event p.0 ≡ none
      → drain (suc fuel) t ≡ drain fuel p.1
  unfolding drain
  drain-step fuel t p e n = rw (e, n, drain) refl

  -- Fuel for every character is enough.
  pub drain-fuel : (f g : ℕ) (t : Text) → length t ≤ f → length t ≤ g → drain f t ≡ drain g t
  unfolding drain cut
  drain-fuel zero zero t hf hg = refl
  drain-fuel (suc f) zero [] hf hg = refl
  drain-fuel zero (suc g) [] hf hg = refl
  drain-fuel (suc f) zero (c ∷ t) hf hg = absurd (omega arith)
  drain-fuel zero (suc g) (c ∷ t) hf hg = absurd (omega arith)
  drain-fuel (suc f) (suc g) t hf hg = elim (Option-cases (cut t)) [
    | inl e ↦ rw (e, drain) refl
    | inr (p, e) ↦ elim (Option-cases (handle_event p.0)) [
      | inr (r, s) ↦ rw (e, s, drain) refl
      | inl n ↦
          drain-step f t p e n
          ∙ drain-fuel f g p.1 (omega (arith, cut-length t p e)) (omega (arith, cut-length t p e))
          ∙ sym (drain-step g t p e n)
    ]
  ]

  abbrev pub drain_all : Text → Drained
  drain_all t = drain (length t) t
