-- ===== src/Client/Events.antt =====
-- The event parser in `waitForCardStream` of sdk/src/client.ts: line ends are normalised chunk by
-- chunk, and the buffer is cut at blank lines. Texts are lists of character codes; what
-- `TextDecoder` gives for a chunk is a parameter of Client/Stream.
use cards.Prelude.{
  ℕ, ◌<◌, ◌≡◌, Bool, true, false, ◌&&◌, [], ◌∷◌, ◌++◌, Option, none, some, arith, ◌==◌, length,
  drop, find, if◌then◌else◌, Option-cases, inl, inr,
}
use mathlib.Core.Option
use cards.Prelude.Text.{Text, codes, split}

abbrev pub cr : ℕ
cr = 13

abbrev pub lf : ℕ
lf = 10

-- `.replace(/\r\n/g, '\n')`.
unfoldable pub replace_crlf : Text → Text
replace_crlf [] = []
replace_crlf (c ∷ []) = c ∷ []
replace_crlf (c ∷ d ∷ s) = elim (c == cr && d == lf) [
  | true ↦ lf ∷ replace_crlf s
  | false ↦ c ∷ replace_crlf (d ∷ s)
]

-- `.replace(/\r/g, '\n')`.
unfoldable pub replace_cr : Text → Text
replace_cr [] = []
replace_cr (c ∷ s) = (if c == cr then lf else c) ∷ replace_cr s

unfoldable pub normalize : Text → Text
unfolding replace_crlf replace_cr
normalize chunk = replace_cr (replace_crlf chunk)

abbrev cons_raw : ℕ → Text × Text → Text × Text
cons_raw c (raw, rest) = (c ∷ raw, rest)

-- The buffer before and after its first blank line: `buffer.indexOf('\n\n')` and the two slices.
unfoldable pub cut : Text → Option (Text × Text)
cut [] = none
cut (c ∷ []) = none
cut (c ∷ d ∷ s) = if c == lf && d == lf then some ([], s) else Option.map (cons_raw c) (cut (d ∷ s))

is_prefix : Text → Text → Bool
is_prefix [] s = true
is_prefix (p ∷ ps) [] = false
is_prefix (p ∷ ps) (c ∷ s) = p == c && is_prefix ps s

-- The text after `data: ` in the first line that begins so.
unfoldable pub data_line : Text → Option Text
unfolding is_prefix
data_line raw =
    let (line, lines) = split lf raw in
    Option.map (drop 6) (find (is_prefix (codes "data: ")) (line ∷ lines))

pub cut-length : (t : Text) (p : Text × Text) → cut t ≡ some p → length p.1 < length t
unfolding cut
cut-length [] p h = cc
cut-length (c ∷ []) p h = cc
cut-length (c ∷ d ∷ s) p h = elim (Option-cases (cut (d ∷ s))) [
  | inl e ↦ ground (arith, e)
  | inr (q, e) ↦ ground (arith, e, cut-length (d ∷ s) q e)
]

-- What comes after the first blank line does not change what comes before it.
pub cut-append :
    (t u : Text) (p : Text × Text) → cut t ≡ some p → cut (t ++ u) ≡ some (p.0, p.1 ++ u)
unfolding cut
cut-append [] u p h = cc
cut-append (c ∷ []) u p h = cc
cut-append (c ∷ d ∷ s) u p h = elim (Option-cases (cut (d ∷ s))) [
  | inl e ↦ ground (arith, e)
  | inr (q, e) ↦ ground (arith, e, cut-append (d ∷ s) u q e)
]
