-- ===== src/Decimal/Print.antt =====
-- `String(n)` for a natural number, and what reads it back.
use native.Mathlib.Nat.{pow-succ'}
use cards.Prelude.{
  ℕ, zero, suc, ◌+◌, ◌/◌, ◌%◌, ◌^◌, ◌≤◌, ◌<◌, ◌≡◌, refl, true, [], ◌∷◌, ltb, all, length, arith,
  if◌then◌else◌, Bool-cases, inl, inr,
}
use cards.Prelude.Text.{Text, is_digit, is_digits, digits_from, digits_value}

-- The digits of `n` before `acc`; a number has fewer digits than its value and one.
unfoldable pub print_to : ℕ → ℕ → Text → Text
print_to zero n acc = acc
print_to (suc k) n acc =
    let more = print_to k (n / 10) ((n % 10 + b'0') ∷ acc) in
    if ltb n 10 then (n + b'0') ∷ acc else more

unfoldable pub print_nat : ℕ → Text
unfolding print_to
print_nat n = print_to (suc n) n []

digits_from-print_to :
    (k n : ℕ) (acc : Text) → n < k → digits_value (print_to k n acc) ≡ digits_from n acc
unfolding print_to digits_from
digits_from-print_to zero n acc h = omega arith
digits_from-print_to (suc k) n acc h = elim (Bool-cases (ltb n 10)) [
  | inl e ↦ rw e (ground arith)
  | inr e ↦ rw e (ground (arith, digits_from-print_to k (n / 10) ((n % 10 + b'0') ∷ acc)))
]

pub digits_value-print_nat : (n : ℕ) → digits_value (print_nat n) ≡ n
unfolding print_nat digits_from
digits_value-print_nat n = digits_from-print_to (suc n) n [] (omega arith)

is_digits-print_to :
    (k n : ℕ) (acc : Text) → n < k → all is_digit acc ≡ true → is_digits (print_to k n acc) ≡ true
unfolding print_to is_digit
is_digits-print_to zero n acc h d = ground arith
is_digits-print_to (suc k) n acc h d = elim (Bool-cases (ltb n 10)) [
  | inl e ↦ rw e (ground arith)
  | inr e ↦
      rw e (is_digits-print_to k (n / 10) ((n % 10 + b'0') ∷ acc) (ground arith) (ground arith))
]

pub is_digits-print_nat : (n : ℕ) → is_digits (print_nat n) ≡ true
unfolding print_nat
is_digits-print_nat n = is_digits-print_to (suc n) n [] (omega arith) refl

length-print_to :
    (w k n : ℕ) (acc : Text)
    → n < k
    → n < 10 ^ suc w
    → length (print_to k n acc) ≤ suc w + length acc
unfolding print_to
length-print_to w zero n acc h b = omega arith
length-print_to zero (suc k) n acc h b = ground arith
length-print_to (suc w) (suc k) n acc h b = elim (Bool-cases (ltb n 10)) [
  | inl e ↦ rw e (omega arith)
  | inr e ↦ rw e (
      omega (
        arith,
        length-print_to w k (n / 10) ((n % 10 + b'0') ∷ acc) (ground arith)
            (omega (arith, pow-succ' 10 (suc w))),
      ))
]

pub length-print_nat : (w n : ℕ) → n < 10 ^ suc w → length (print_nat n) ≤ suc w
unfolding print_nat
length-print_nat w n b = omega (arith, length-print_to w (suc n) n [] (omega arith) b)
