-- ===== src/Decimal/Agrees.antt =====
-- The SDK's `decimalToStroops` and the backend's readers on one amount.
use cards.Prelude.{ℕ, zero, suc, ◌<◌, ◌≡◌, refl, ◌∙◌, some, String, arith}
use cards.Prelude.Text.{Text, codes}
use cards.Errors.{ok}
use cards.Amount.{decimal_to_stroops}
use cards.Decimal.{to_stroops, parse_strict_positive_stroops, to_stroops_or_zero, when_positive}
use cards.Decimal.Int.{pos}
use cards.Decimal.Read.{IsWritten, trim_decimal, to_stroops_decimal, to_stroops_or_zero_decimal}

when_positive_suc : (v : ℕ) → 0 < v → when_positive (some (pos v)) ≡ some v
when_positive_suc zero h = ground arith
when_positive_suc (suc v) h = refl

pub parse_strict_written :
    (v : ℕ) (t : Text) → IsWritten v t → 0 < v → parse_strict_positive_stroops (some t) ≡ some v
unfolding parse_strict_positive_stroops
parse_strict_written v t w p =
    rw (trim_decimal t w.valid, w.valid, to_stroops_decimal t w.valid w.short, w.exact)
      (when_positive_suc v p)

decimal_to_stroops-IsWritten :
    (s : String) (v : ℕ) → decimal_to_stroops s ≡ ok v → IsWritten v (codes s) × (0 < v)
unfolding decimal_to_stroops
decimal_to_stroops-IsWritten s v h =
    (record { valid = ground arith; short = ground arith; exact = ground arith }, ground arith)

-- An amount that the SDK converts to stroops is read by the backend's checks of a payment and of a
-- refund as the same number of stroops.
pub parse_strict-eq-decimal_to_stroops :
    (s : String) (v : ℕ)
    → decimal_to_stroops s ≡ ok v
    → (parse_strict_positive_stroops (some (codes s)) ≡ some v)
      × (to_stroops (some (codes s)) ≡ some (pos v))
      × (to_stroops_or_zero (some (codes s)) ≡ v)
parse_strict-eq-decimal_to_stroops s v h =
    let (w, p) = decimal_to_stroops-IsWritten s v h in
    (
      parse_strict_written v (codes s) w p,
      rw (to_stroops_decimal (codes s) w.valid w.short, w.exact) refl,
      to_stroops_or_zero_decimal (codes s) w.valid w.short ∙ w.exact,
    )
