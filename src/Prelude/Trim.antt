-- ===== src/Prelude/Trim.antt =====
-- `trim` on strings.
use Prim.Native.Char.{Char, code}
use Prim.Native.String.{String, [], ◌∷◌}
use Prim.Native.Nat.{ℕ}
use mathlib.Core.Path.{◌≡◌, refl, ap}
use mathlib.Core.Bool.{Bool, ◌&&◌, ◌||◌}
use cards.Prelude.Tests.{leb, ◌==◌, if◌then◌else◌}

-- The white space that `trim` takes off.
unfoldable pub is_space : ℕ → Bool
is_space c =
    leb 9 c && leb c 13
    || c == 32
    || c == 160
    || c == 5760
    || leb 8192 c && leb c 8202
    || c == 8232
    || c == 8233
    || c == 8239
    || c == 8287
    || c == 12288
    || c == 65279

trim_start : String → String
unfolding is_space
trim_start [] = []
trim_start (c ∷ s) = let rest = trim_start s in if is_space (code c) then rest else c ∷ s

abbrev put_before : Char → String → String
put_before c [] = if is_space (code c) then [] else c ∷ []
put_before c (d ∷ s) = c ∷ d ∷ s

trim_end : String → String
unfolding is_space
trim_end [] = []
trim_end (c ∷ s) = put_before c (trim_end s)

unfoldable pub trim : String → String
unfolding trim_start trim_end
trim s = trim_end (trim_start s)

-- A text and a closing brace.
abbrev pub close : String → String
close [] = "}"
close (c ∷ s) = c ∷ close s

trim_end-close : (s : String) → trim_end (close s) ≡ close s
unfolding trim_end is_space
trim_end-close [] = refl
trim_end-close (c ∷ []) = refl
trim_end-close (c ∷ d ∷ s) = ap (put_before c) (trim_end-close (d ∷ s))

pub trim-close : (s : String) → trim ("{" ∷ close s) ≡ "{" ∷ close s
unfolding trim trim_start is_space
trim-close s = trim_end-close ("{" ∷ s)

-- `s.replace(/c$/, '')` for a character `c`.
unfoldable pub drop_last : ℕ → String → String
drop_last c [] = []
drop_last c (d ∷ []) = if code d == c then [] else d ∷ []
drop_last c (d ∷ e ∷ s) = d ∷ drop_last c (e ∷ s)
