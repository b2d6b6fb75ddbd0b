-- ===== src/Decimal/Tests.antt =====
-- Decimals that are read and refused, and the theorem at one of them.
use cards.Prelude.{◌≡◌, refl, none, some}
use cards.Prelude.Text.{codes, split, is_digit, digits_from}
use cards.Prelude.Trim.{is_space}
use cards.Errors.{ok}
use cards.Amount.{is_decimal, decimal_to_stroops}
use cards.Decimal.{to_stroops, parse_strict_positive_stroops, to_stroops_or_zero}
use cards.Decimal.Int.{pos}
use cards.Decimal.Agrees.{parse_strict-eq-decimal_to_stroops}

half_stroops : decimal_to_stroops "10.5" ≡ ok 105_000_000
unfolding decimal_to_stroops is_decimal split is_digit digits_from
half_stroops = refl

exponent_is_refused : parse_strict_positive_stroops (some (codes "1e7")) ≡ none
unfolding parse_strict_positive_stroops is_decimal split is_digit digits_from is_space
exponent_is_refused = refl

parse_strict-eq-decimal_to_stroops_example :
    (parse_strict_positive_stroops (some (codes "10.5")) ≡ some 105_000_000)
    × (to_stroops (some (codes "10.5")) ≡ some (pos 105_000_000))
    × (to_stroops_or_zero (some (codes "10.5")) ≡ 105_000_000)
parse_strict-eq-decimal_to_stroops_example =
    parse_strict-eq-decimal_to_stroops "10.5" 105_000_000 half_stroops
