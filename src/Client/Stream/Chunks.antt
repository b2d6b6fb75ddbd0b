-- ===== src/Client/Stream/Chunks.antt =====
-- How the text is cut into chunks does not matter to the reader of sdk/src/client.ts.
use cards.Prelude.{
  ℕ, zero, suc, ◌+◌, ◌≤◌, ◌≡◌, refl, ◌∙◌, false, List, [], ◌∷◌, ◌++◌, Option, none, some, arith,
  ltb, length, length-append, append_assoc, append-nil, get_or, String, Option-cases, inl, inr,
}
use cards.Prelude.Text.{Text}
use cards.Errors.{Error, Result, err, wait_timeout}
use cards.Client.{OrderStatus, CardDetails}
use cards.Client.Events.{normalize, cut, cut-length, cut-append}
use cards.Client.Stream.{
  Drained, settled, waiting, sse_buffer_cap, handle_event, drain, drain_all, read_loop, drain-step,
  drain-fuel,
}

-- The normalised text of all chunks.
abbrev pub text_of : List Text → Text
text_of [] = []
text_of (c ∷ cs) = normalize c ++ text_of cs

module _ (parse_order : Text → Option OrderStatus) (order_id : String) where
  abbrev drained : ℕ → Text → Drained
  drained = drain parse_order order_id

  abbrev drained_all : Text → Drained
  drained_all = drain_all parse_order order_id

  -- What a drained buffer means for the same buffer with more text behind it.
  abbrev Continues : Text → Text → Drained → Type 0
  Continues t u (settled r) = drained_all (t ++ u) ≡ settled r
  Continues t u (waiting rest) =
      (drained_all (t ++ u) ≡ drained_all (rest ++ u))
      × (cut rest ≡ none)
      × (length rest ≤ length t)

  -- A buffer that has lost an event continues as the rest does.
  drain_all-cut :
      (t u : Text) (p : Text × Text)
      → cut t ≡ some p
      → handle_event parse_order order_id p.0 ≡ none
      → drained_all (t ++ u) ≡ drained_all (p.1 ++ u)
  drain_all-cut t u p e n =
      drain-fuel parse_order order_id (length (t ++ u)) (suc (length (t ++ u))) (t ++ u)
        (omega arith) (omega arith)
      ∙ drain-step parse_order order_id (length (t ++ u)) (t ++ u) (p.0, p.1 ++ u)
          (cut-append t u p e) n
      ∙ drain-fuel parse_order order_id (length (t ++ u)) (length (p.1 ++ u)) (p.1 ++ u)
          (omega (arith, cut-length t p e, length-append t u, length-append p.1 u)) (omega arith)

  Continues-cut :
      (t u : Text) (p : Text × Text) (d : Drained)
      → cut t ≡ some p
      → handle_event parse_order order_id p.0 ≡ none
      → Continues p.1 u d
      → Continues t u d
  Continues-cut t u p (settled r) e n h = drain_all-cut t u p e n ∙ h
  Continues-cut t u p (waiting rest) e n h =
      (drain_all-cut t u p e n ∙ h.0, h.1, omega (arith, h.2, cut-length t p e))

  drain-settles :
      (f : ℕ) (t : Text) (p : Text × Text) (r : Result CardDetails)
      → cut t ≡ some p
      → handle_event parse_order order_id p.0 ≡ some r
      → drained (suc f) t ≡ settled r
  unfolding drain
  drain-settles f t p r e s = rw (e, s, drain) refl

  drain_all-rest : (t : Text) → cut t ≡ none → drained_all t ≡ waiting t
  unfolding drain
  drain_all-rest [] e = refl
  drain_all-rest (c ∷ t) e = rw (e, drain) refl

  drain-Continues : (f : ℕ) (t u : Text) → length t ≤ f → Continues t u (drained f t)
  unfolding drain
  drain-Continues zero [] u h = (refl, unfold cut in refl, omega arith)
  drain-Continues zero (c ∷ t) u h = absurd (omega arith)
  drain-Continues (suc f) t u h = elim (Option-cases (cut t)) [
    | inl e ↦ rw (e, drain) (refl, e, omega arith)
    | inr (p, e) ↦ elim (Option-cases (handle_event parse_order order_id p.0)) [
      | inr (r, s) ↦
          rw (e, s, drain)
            (drain-fuel parse_order order_id (length (t ++ u)) (suc (length (t ++ u))) (t ++ u)
                (omega arith) (omega arith)
              ∙ drain-settles (length (t ++ u)) (t ++ u) (p.0, p.1 ++ u) r (cut-append t u p e) s)
      | inl n ↦
          rw (e, n, drain)
            (Continues-cut t u p (drained f p.1) e n
              (drain-Continues f p.1 u (omega (arith, cut-length t p e))))
    ]
  ]

  -- What the reader gives for a text that it has as a whole.
  abbrev pub outcome : ℕ → Option Error → Drained → Result CardDetails
  outcome timeout_ms ending (settled r) = r
  outcome timeout_ms ending (waiting rest) = err (get_or ending (wait_timeout order_id timeout_ms))

  read_loop-step :
      (timeout_ms : ℕ) (ending : Option Error) (c : Text) (chunks : List Text) (buffer : Text)
      (d : Drained)
      → length (buffer ++ normalize c) ≤ sse_buffer_cap
      → drained_all (buffer ++ normalize c) ≡ d
      → read_loop parse_order order_id timeout_ms buffer (c ∷ chunks) ending ≡ (elim d [
        | settled r ↦ r
        | waiting rest ↦ read_loop parse_order order_id timeout_ms rest chunks ending
      ])
  unfolding read_loop
  read_loop-step timeout_ms ending c chunks buffer d h e =
      let small : ltb sse_buffer_cap (length (buffer ++ normalize c)) ≡ false = ground arith in
      rw (small, e, read_loop) refl

  read_loop-from :
      (timeout_ms : ℕ) (ending : Option Error) (chunks : List Text) (buffer : Text)
      → cut buffer ≡ none
      → length buffer + length (text_of chunks) ≤ sse_buffer_cap
      → read_loop parse_order order_id timeout_ms buffer chunks ending
        ≡ outcome timeout_ms ending (drained_all (buffer ++ text_of chunks))
  unfolding read_loop
  read_loop-from timeout_ms ending [] buffer e h =
      rw (append-nil buffer, drain_all-rest buffer e) refl
  read_loop-from timeout_ms ending (c ∷ chunks) buffer e h =
      rw (← append_assoc buffer (normalize c) (text_of chunks)) (
        go (λ rest. read_loop-from timeout_ms ending chunks rest) (drained_all longer) refl
          (drain-Continues (length longer) longer (text_of chunks) (omega arith)))
    where
      longer : Text
      longer = buffer ++ normalize c

      fits : length longer + length (text_of chunks) ≤ sse_buffer_cap
      fits = omega (
        arith,
        h,
        length-append buffer (normalize c),
        length-append (normalize c) (text_of chunks),
      )

      go :
          ((rest : Text)
            → cut rest ≡ none
            → length rest + length (text_of chunks) ≤ sse_buffer_cap
            → read_loop parse_order order_id timeout_ms rest chunks ending
              ≡ outcome timeout_ms ending (drained_all (rest ++ text_of chunks)))
          → (d : Drained) → drained_all longer ≡ d
          → Continues longer (text_of chunks) d
          → read_loop parse_order order_id timeout_ms buffer (c ∷ chunks) ending
            ≡ outcome timeout_ms ending (drained_all (longer ++ text_of chunks))
      go ih (settled r) e' k =
          rw k
            (read_loop-step timeout_ms ending c chunks buffer (settled r) (omega (arith, fits)) e')
      go ih (waiting rest) e' k = rw k.0 (
          read_loop-step timeout_ms ending c chunks buffer (waiting rest) (omega (arith, fits)) e'
          ∙ ih rest k.1 (omega (arith, fits, k.2)))

  -- The reader gives for any chunks what it gives for their normalised text in one piece, where that
  -- text stays within the cap of the buffer: the first event that settles the order decides, and
  -- without one the end of the stream does.
  pub read_loop-eq-outcome :
      (timeout_ms : ℕ) (ending : Option Error) (chunks : List Text)
      → length (text_of chunks) ≤ sse_buffer_cap
      → read_loop parse_order order_id timeout_ms [] chunks ending
        ≡ outcome timeout_ms ending (drained_all (text_of chunks))
  read_loop-eq-outcome timeout_ms ending chunks h =
      read_loop-from timeout_ms ending chunks [] (unfold cut in refl) (omega arith)
