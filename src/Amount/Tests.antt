-- ===== src/Amount/Tests.antt =====
-- Amounts that the checks take and refuse, and the theorems at one of them.
use cards.Prelude.{ℕ, ◌*◌, ◌≤◌, ◌≡◌, refl, ◌↔◌}
use cards.Prelude.Text.{codes, split, is_digit, digits_from}
use cards.Errors.{ok}
use cards.Amount.{
  is_decimal, decimal_to_stroops, has_cents, check_amount, accepted, malformed, below_cent,
  above_ceiling,
}
use cards.Amount.Stroops.{Says, decimal_to_stroops-eq-ok_iff}
use cards.Amount.Checks.{check_amount-accepted}

ten_fifty : decimal_to_stroops "10.5" ≡ ok 105_000_000
unfolding decimal_to_stroops is_decimal split is_digit digits_from
ten_fifty = refl

ten_fifty_accepted : check_amount "10.50" ≡ accepted
unfolding check_amount has_cents is_decimal split is_digit digits_from
ten_fifty_accepted = refl

zero_refused : check_amount "0.00" ≡ below_cent
unfolding check_amount has_cents is_decimal split is_digit digits_from
zero_refused = refl

ceiling_refused : check_amount "10000.01" ≡ above_ceiling
unfolding check_amount has_cents is_decimal split is_digit digits_from
ceiling_refused = refl

three_decimals_refused : check_amount "1.005" ≡ malformed
unfolding check_amount has_cents is_decimal split is_digit digits_from
three_decimals_refused = refl

decimal_to_stroops-eq-ok_iff_example :
    (decimal_to_stroops "10.5" ≡ ok 105_000_000) ↔ Says (codes "10.5") 105_000_000
decimal_to_stroops-eq-ok_iff_example = decimal_to_stroops-eq-ok_iff "10.5" 105_000_000

check_amount-accepted_example :
    (c : ℕ) × (1 ≤ c) × (c ≤ 1_000_000) × (decimal_to_stroops "10.50" ≡ ok (c * 100_000))
check_amount-accepted_example = check_amount-accepted "10.50" ten_fifty_accepted
