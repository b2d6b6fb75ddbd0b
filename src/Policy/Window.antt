-- ===== src/Policy/Window.antt =====
-- The allowed hours of a key (backend/src/policy.js), on the clock.
use cards.Prelude.{
  ℕ, ◌+◌, ◌-◌, ◌%◌, ◌≤◌, ◌<◌, ◌≡◌, refl, [], ◌∷◌, Option, none, some, ltb, ◌==◌, arith, Bool-cases,
  inl, inr, none_some,
}
use cards.Prelude.Text.{Text}
use cards.Policy.{parse_hhmm, in_window, two_digits, minutes}

-- The minutes from one time of the day to the next occurrence of another.
abbrev pub minutes_after : ℕ → ℕ → ℕ
minutes_after start t = (t + 1_440 - start) % 1_440

-- The window of two times of the day, also one over midnight, is the times that come after the
-- opening by less than the closing does; so the hours from a time to itself are none.
pub in_window-minutes_after :
    (opening closing t : ℕ)
    → opening < 1_440
    → closing < 1_440
    → t < 1_440
    → in_window opening closing t ≡ ltb (minutes_after opening t) (minutes_after opening closing)
unfolding in_window
in_window-minutes_after opening closing t a b c = ground arith

two_digits-bound : (top a b n : ℕ) → two_digits top a b ≡ some n → n ≤ top
two_digits-bound top a b n h = ground arith

minutes-bound :
    (h m : Option ℕ) (n : ℕ)
    → ((k : ℕ) → h ≡ some k → k ≤ 23)
    → ((k : ℕ) → m ≡ some k → k ≤ 59)
    → minutes h m ≡ some n
    → n < 1_440
minutes-bound none m n a b e = cc
minutes-bound (some h) none n a b e = cc
minutes-bound (some h) (some m) n a b e = ground (arith, a h refl, b m refl)

-- A text that is read as a time is a time of the day.
pub parse_hhmm-bound : (t : Option Text) (n : ℕ) → parse_hhmm t ≡ some n → n < 1_440
unfolding parse_hhmm
parse_hhmm-bound (some (a ∷ b ∷ c ∷ d ∷ e ∷ [])) n h = elim (Bool-cases (c == b':')) [
  | inl k ↦
      minutes-bound (two_digits 23 a b) (two_digits 59 d e) n (two_digits-bound 23 a b)
        (two_digits-bound 59 d e) (rw k at (h))
  | inr k ↦ none_some (rw k at (h))
]
parse_hhmm-bound none n h = cc
parse_hhmm-bound (some []) n h = cc
parse_hhmm-bound (some (a ∷ [])) n h = cc
parse_hhmm-bound (some (a ∷ b ∷ [])) n h = cc
parse_hhmm-bound (some (a ∷ b ∷ c ∷ [])) n h = cc
parse_hhmm-bound (some (a ∷ b ∷ c ∷ d ∷ [])) n h = cc
parse_hhmm-bound (some (a ∷ b ∷ c ∷ d ∷ e ∷ x ∷ s)) n h = cc
