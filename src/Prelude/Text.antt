-- ===== src/Prelude/Text.antt =====
-- Texts that the program walks, as lists of character codes, with the JavaScript string functions
-- that it calls on them.
use Prim.Native.Char.{code}
use Prim.Native.String.{String}
use Prim.Native.Nat.{ℕ, ◌+◌, ◌-◌, ◌*◌}
use mathlib.Core.Path.{◌≡◌, refl}
use mathlib.Core.Bool.{Bool, false, true, ◌&&◌}
use mathlib.Core.Option.{none, some}
use native.Mathlib.Omega.{arith}
use text.Mathlib.Text.{find?}
use mathlib.Core.List.{List, [], ◌∷◌, ◌++◌}
use cards.Prelude.Tests.{leb, ◌==◌, ==_iff, if◌then◌else◌}
use cards.Prelude.Lists.{all}

abbrev pub Text : Type 0
Text = List ℕ

abbrev pub codes : String → Text
codes String.[] = []
codes (String.◌∷◌ c s) = code c ∷ codes s

-- The first part of a split and the parts after it: a split is never empty.
abbrev add_to_head : ℕ → Text × List Text → Text × List Text
add_to_head c (w, ws) = (c ∷ w, ws)

abbrev close_head : Text × List Text → Text × List Text
close_head (w, ws) = ([], w ∷ ws)

-- `text.split(sep)` for a separator of one character.
unfoldable pub split : ℕ → Text → Text × List Text
split sep [] = ([], [])
split sep (c ∷ s) = if c == sep then close_head (split sep s) else add_to_head c (split sep s)

unfoldable pub is_digit : ℕ → Bool
is_digit c = leb b'0' c && leb c b'9'

-- `\d+`.
abbrev pub is_digits : Text → Bool
is_digits [] = false
is_digits (c ∷ s) = is_digit c && all is_digit s

-- The number that a run of digits stands for, after the digits read so far.
unfoldable pub digits_from : ℕ → Text → ℕ
digits_from n [] = n
digits_from n (c ∷ s) = digits_from (n * 10 + (c - b'0')) s

abbrev pub digits_value : Text → ℕ
digits_value = digits_from 0

pub digits_from-append :
    (n : ℕ) (s t : Text) → digits_from n (s ++ t) ≡ digits_from (digits_from n s) t
unfolding digits_from
digits_from-append n [] t = refl
digits_from-append n (c ∷ s) t = digits_from-append (n * 10 + (c - b'0')) s t

abbrev pub Lacks : ℕ → Text → Type 0
Lacks sep [] = Unit {0}
Lacks sep (c ∷ s) = ((c == sep) ≡ false) × Lacks sep s

-- The text of which `split` gives the parts.
abbrev pub join : ℕ → Text → List Text → Text
join sep w [] = w
join sep w (v ∷ vs) = w ++ sep ∷ join sep v vs

abbrev pub join_pair : ℕ → Text × List Text → Text
join_pair sep p = join sep p.0 p.1

join_pair-close_head :
    (sep : ℕ) (p : Text × List Text) → join_pair sep (close_head p) ≡ sep ∷ join_pair sep p
join_pair-close_head sep (w, ws) = refl

join_pair-add_to_head :
    (sep c : ℕ) (p : Text × List Text) → join_pair sep (add_to_head c p) ≡ c ∷ join_pair sep p
join_pair-add_to_head sep c (w, []) = refl
join_pair-add_to_head sep c (w, v ∷ vs) = refl

pub join-split : (sep : ℕ) (t : Text) → join_pair sep (split sep t) ≡ t
unfolding split
join-split sep [] = refl
join-split sep (c ∷ s) = ground (
  arith,
  join_pair-close_head sep (split sep s),
  join_pair-add_to_head sep c (split sep s),
  join-split sep s,
  ==_iff c sep,
)

pub split_of_Lacks : (sep : ℕ) (w : Text) → Lacks sep w → split sep w ≡ (w, [])
unfolding split
split_of_Lacks sep [] h = refl
split_of_Lacks sep (c ∷ w) h = rw (h.0, split_of_Lacks sep w h.1)

pub split-append :
    (sep : ℕ) (w s : Text)
    → Lacks sep w
    → split sep (w ++ sep ∷ s) ≡ (w, (split sep s).0 ∷ (split sep s).1)
unfolding split
split-append sep [] s h = ground (arith, ==_iff sep sep)
split-append sep (c ∷ w) s h = rw (h.0, split-append sep w s h.1)

-- Digits hold no character that is no digit.
pub Lacks-of_digits :
    (sep : ℕ) (s : Text) → is_digit sep ≡ false → all is_digit s ≡ true → Lacks sep s
unfolding is_digit
Lacks-of_digits sep [] h d = tt
Lacks-of_digits sep (c ∷ s) h d = (ground arith, Lacks-of_digits sep s h (ground arith))

-- `s.includes(t)`.
abbrev pub includes : String → String → Bool
includes s t = elim (find? s t) [ none ↦ false | some i ↦ true ]
