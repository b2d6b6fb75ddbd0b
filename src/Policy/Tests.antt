-- ===== src/Policy/Tests.antt =====
-- A key with a window over midnight, and orders that pass and that do not, with amounts in cents.
use cards.Prelude.{
  ℕ, ◌+◌, ◌≡◌, refl, ◌↔◌, Bool, true, false, [], ◌∷◌, Option, none, some, String, ltb, leb,
  if◌then◌else◌, arith,
}
use cards.Prelude.Text.{codes, split, is_digit, digits_from}
use cards.Amount.{is_decimal, cents}
use cards.Policy.{
  Floats, absent, stored, Key, approved, blocked, pending_approval, all_checks_passed, after_hours,
  approval_threshold, first_rule, check_policy, in_window, parse_hhmm,
}
use cards.Policy.Window.{minutes_after, in_window-minutes_after}
use cards.Policy.Rules.{Passes, check_policy-approved_iff}

abbrev read_cents : String → Option ℕ
read_cents s = let p = split b'.' (codes s) in if is_decimal p then some (cents p) else none

abbrev is_number : Option ℕ → Bool
is_number none = false
is_number (some n) = true

abbrev under : Option ℕ → Option ℕ → Bool
under none b = false
under (some a) none = false
under (some a) (some b) = ltb a b

abbrev at_most_cents : Option ℕ → Option ℕ → Bool
at_most_cents none b = false
at_most_cents (some a) none = false
at_most_cents (some a) (some b) = leb a b

abbrev sum_cents : Option ℕ → Option ℕ → Option ℕ
sum_cents none b = none
sum_cents (some a) none = none
sum_cents (some a) (some b) = some (a + b)

abbrev in_cents : Floats
in_cents = record {
  Float = Option ℕ;
  parse_float = read_cents;
  cast_real = read_cents;
  is_finite = is_number;
  zero_float = some 0;
  less = under;
  at_most = at_most_cents;
  add = sum_cents;
}

-- From ten in the evening to six in the morning.
abbrev night : Key
night = record {
  suspended = false;
  single_tx_limit = some "100.00";
  allowed_hours =
      stored (record { opening = some (codes "22:00"); closing = some (codes "06:00") });
  allowed_days = absent;
  daily_limit = some "150.00";
  require_approval_above = some "50.00";
}

abbrev midnight : ℕ
midnight = 0

abbrev noon : ℕ
noon = 43_200_000

at_night : check_policy in_cents (some night) midnight [] "40.00" true [] ≡ (
  record { decision = approved; rule = all_checks_passed },
  record { decision = approved; rule = all_checks_passed } ∷ [],
)
unfolding check_policy first_rule parse_hhmm in_window is_decimal split is_digit digits_from
at_night = refl

at_noon :
    (check_policy in_cents (some night) noon [] "40.00" true []).0
    ≡ record { decision = blocked; rule = after_hours }
unfolding check_policy first_rule parse_hhmm in_window is_decimal split is_digit digits_from
at_noon = refl

to_the_owner :
    check_policy in_cents (some night) midnight [] "60.00" true []
    ≡ (record { decision = pending_approval; rule = approval_threshold }, [])
unfolding check_policy first_rule parse_hhmm in_window is_decimal split is_digit digits_from
to_the_owner = refl

check_policy-approved_iff_example :
    ((check_policy in_cents (some night) midnight [] "40.00" true []).0.decision ≡ approved)
    ↔ Passes in_cents night midnight [] (read_cents "40.00")
check_policy-approved_iff_example =
    check_policy-approved_iff in_cents night midnight [] "40.00" true []

in_window-minutes_after_example :
    in_window 1_320 360 0 ≡ ltb (minutes_after 1_320 0) (minutes_after 1_320 360)
in_window-minutes_after_example =
    in_window-minutes_after 1_320 360 0 (omega arith) (omega arith) (omega arith)
