-- ===== src/Client/Stream/LineEnds.antt =====
-- Line ends that two chunks of the event stream divide between them (sdk/src/client.ts).
use cards.Prelude.{◌≡◌, refl, ap, ◌∙◌, [], ◌∷◌, ◌++◌, append-nil, append_assoc}
use cards.Prelude.Text.{Text, Lacks}
use cards.Client.Events.{cr, lf, replace_crlf, replace_cr, normalize}
use cards.Client.Stream.Chunks.{text_of}

replace_crlf-append : (a t : Text) → Lacks cr a → replace_crlf (a ++ t) ≡ a ++ replace_crlf t
unfolding replace_crlf
replace_crlf-append [] t h = refl
replace_crlf-append (c ∷ []) [] h = refl
replace_crlf-append (c ∷ []) (d ∷ s) h = rw (h.0, replace_crlf) refl
replace_crlf-append (c ∷ d ∷ a) t h =
    rw (h.0, replace_crlf) (ap (λ u. c ∷ u) (replace_crlf-append (d ∷ a) t h.1))

replace_cr-append : (a t : Text) → Lacks cr a → replace_cr (a ++ t) ≡ a ++ replace_cr t
unfolding replace_cr
replace_cr-append [] t h = refl
replace_cr-append (c ∷ a) t h = rw (h.0) (ap (λ u. c ∷ u) (replace_cr-append a t h.1))

normalize-append : (a t : Text) → Lacks cr a → normalize (a ++ t) ≡ a ++ normalize t
unfolding normalize
normalize-append a t h =
    ap replace_cr (replace_crlf-append a t h) ∙ replace_cr-append a (replace_crlf t) h

normalize-lf : (b : Text) → normalize (lf ∷ b) ≡ lf ∷ normalize b
unfolding normalize replace_crlf replace_cr
normalize-lf [] = refl
normalize-lf (d ∷ s) = refl

normalize-cr : normalize (cr ∷ []) ≡ lf ∷ []
unfolding normalize replace_crlf replace_cr
normalize-cr = refl

normalize-crlf : (b : Text) → normalize (cr ∷ lf ∷ b) ≡ lf ∷ normalize b
unfolding normalize replace_crlf replace_cr
normalize-crlf b = refl

-- A carriage return and a line feed are one line end where one chunk holds both, and two where the
-- first chunk ends between them: the reader then finds a blank line that the backend did not send.
pub text_of-divided :
    (a b : Text)
    → Lacks cr a
    → (text_of ((a ++ cr ∷ lf ∷ b) ∷ []) ≡ a ++ lf ∷ normalize b)
      × (text_of ((a ++ cr ∷ []) ∷ (lf ∷ b) ∷ []) ≡ a ++ lf ∷ lf ∷ normalize b)
text_of-divided a b h = (
  append-nil _ ∙ normalize-append a (cr ∷ lf ∷ b) h ∙ ap (λ u. a ++ u) (normalize-crlf b),
  ap (λ u. u ++ (normalize (lf ∷ b) ++ []))
        (normalize-append a (cr ∷ []) h ∙ ap (λ u. a ++ u) normalize-cr)
      ∙ append_assoc a (lf ∷ []) _
      ∙ ap (λ u. a ++ lf ∷ u) (append-nil _ ∙ normalize-lf b),
)
