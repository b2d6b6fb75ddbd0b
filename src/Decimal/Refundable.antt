-- ===== src/Decimal/Refundable.antt =====
-- Amounts that `isValidRefundAmount` (backend/src/fulfillment.js) lets through.
use cards.Prelude.{
  ℕ, ◌+◌, ◌-◌, ◌*◌, ◌<◌, ◌≡◌, refl, true, false, not, ◌&&◌, List, [], ◌∷◌, ◌++◌, some, ◌==◌, all,
  arith, Bool-cases, inl, inr, &&-true,
}
use cards.Prelude.Text.{
  Text, split, is_digit, is_digits, digits_from, digits_value, join_pair, join-split,
}
use cards.Amount.{is_decimal}
use cards.Amount.Reading.{is_digits-all, digits_value-pad_end}
use cards.Decimal.{some_digit, is_valid_refund_amount}
use cards.Decimal.Read.{IsWritten, not_empty, trim_decimal, stroops_in}

zero_digit :
    (c : ℕ) → is_digit c ≡ true → (is_digit c && not (c == b'0')) ≡ false → 0 * 10 + (c - b'0') ≡ 0
zero_digit c h z = ground arith

digits_zero : (s : Text) → all is_digit s ≡ true → some_digit s ≡ false → digits_value s ≡ 0
unfolding digits_from
digits_zero [] h z = refl
digits_zero (c ∷ s) h z =
    rw (zero_digit c (ground arith) (ground arith)) (digits_zero s (ground arith) (ground arith))

some_digit-append :
    (s t : Text) → some_digit (s ++ t) ≡ false → (some_digit s ≡ false) × (some_digit t ≡ false)
some_digit-append [] t z = (refl, z)
some_digit-append (c ∷ s) t z = ground (arith, some_digit-append s t)

stroops_zero :
    (p : Text × List Text)
    → is_decimal p ≡ true
    → some_digit (join_pair b'.' p) ≡ false
    → stroops_in p ≡ 0
unfolding is_decimal digits_from
stroops_zero (w, []) h z =
    rw (digits_zero w (is_digits-all w h) z, digits_value-pad_end 7 []) (omega arith)
stroops_zero (w, f ∷ []) h z =
    let (hw, hf) = &&-true (is_digits w) (is_digits f) h in
    let (zw, zf) = some_digit-append w (b'.' ∷ f) z in
    rw
      (
        digits_zero w (is_digits-all w hw) zw,
        digits_value-pad_end 7 f,
        digits_zero f (is_digits-all f hf) (ground arith),
      )
      (omega arith)
stroops_zero (w, f ∷ g ∷ parts) h z = cc

some_digit_written : (v : ℕ) (t : Text) → IsWritten v t → 0 < v → some_digit t ≡ true
some_digit_written v t w p = elim (Bool-cases (some_digit t)) [
  | inl b ↦ b
  | inr b ↦
      absurd
        (ground (arith, stroops_zero (split b'.' t) w.valid (rw (join-split b'.' t) b), w.exact, p))
]

-- An amount of some stroops is one that can be refunded.
pub is_valid_written :
    (v : ℕ) (t : Text) → IsWritten v t → 0 < v → is_valid_refund_amount (some t) ≡ true
unfolding is_valid_refund_amount
is_valid_written v [] w p = not_empty w.valid
is_valid_written v (c ∷ s) w p =
    rw (trim_decimal (c ∷ s) w.valid, w.valid, some_digit_written v (c ∷ s) w p) refl
