-- ===== src/Decimal.antt =====
-- Decimal amounts in the backend: `toStroops`, `compareDecimal`, `parseStrictPositiveStroops` and
-- `stroopsToDecimal` of backend/src/payment-handler.js, `isValidRefundAmount`, `toStroopsOrZero`,
-- `stroopsToDecimal` and `computeUsdcRefundAmount` of backend/src/fulfillment.js. A text is the list
-- of its character codes, a column that may be null is an `Option`, and an exception of `BigInt` is
-- `none`.
pub mod Int
pub mod Print
pub mod Read
pub mod Agrees
pub mod Refundable
pub mod Tests
use cards.Prelude.{
  ℕ, zero, suc, ◌+◌, ◌-◌, ◌*◌, ◌/◌, ◌%◌, Bool, true, false, not, ◌&&◌, ◌||◌, List, [], ◌∷◌, ◌++◌,
  Option, none, some, String, ◌==◌, ltb, leb, length, replicate, take, all, any, if◌then◌else◌,
}
use cards.Prelude.Text.{Text, codes, split, is_digit, is_digits, digits_value}
use cards.Prelude.Trim.{is_space}
use cards.Amount.{is_decimal, fraction}
use cards.Decimal.Int.{ℤ, pos, negsuc, negate, ◌+ℤ◌, scale, ltb_ℤ}
use cards.Decimal.Print.{print_nat}

unfoldable pub skip_space : Text → Text
skip_space [] = []
skip_space (c ∷ s) = let rest = skip_space s in if is_space c then rest else c ∷ s

abbrev put_code : ℕ → Text → Text
put_code c [] = if is_space c then [] else c ∷ []
put_code c (d ∷ s) = c ∷ d ∷ s

unfoldable pub trim_tail : Text → Text
trim_tail [] = []
trim_tail (c ∷ s) = put_code c (trim_tail s)

-- `text.trim()`.
unfoldable pub trim_text : Text → Text
unfolding skip_space trim_tail
trim_text t = trim_tail (skip_space t)

-- The value of a digit up to `f`, and 99 for another character.
abbrev digit_of : ℕ → ℕ
digit_of c =
    if is_digit c
    then c - b'0'
    else if leb b'a' c && leb c b'f'
    then c - 87
    else if leb b'A' c && leb c b'F'
    then c - 55
    else 99

abbrev radix_from : ℕ → ℕ → Text → ℕ
radix_from r n [] = n
radix_from r n (c ∷ s) = radix_from r (n * r + digit_of c) s

abbrev in_radix : ℕ → Text → Option ℤ
in_radix r [] = none
in_radix r (c ∷ s) =
    if all (λ d. ltb (digit_of d) r) (c ∷ s) then some (pos (radix_from r 0 (c ∷ s))) else none

abbrev is_letter : ℕ → ℕ → Bool
is_letter l c = c == l || c + 32 == l

abbrev prefixed : Text → Option ℤ
prefixed [] = none
prefixed (c ∷ []) = none
prefixed (c ∷ d ∷ s) =
    if not (c == b'0')
    then none
    else if is_letter b'x' d
    then in_radix 16 s
    else if is_letter b'o' d
    then in_radix 8 s
    else if is_letter b'b' d
    then in_radix 2 s
    else none

abbrev signed : Text → Option ℤ
signed [] = some (pos 0)
signed (c ∷ s) =
    if c == b'-'
    then if is_digits s then some (negate (pos (digits_value s))) else none
    else if c == b'+'
    then if is_digits s then some (pos (digits_value s)) else none
    else prefixed (c ∷ s)

-- `BigInt(text)`.
unfoldable pub big_int : Text → Option ℤ
unfolding trim_text
big_int t = let u = trim_text t in if is_digits u then some (pos (digits_value u)) else signed u

abbrev starts_with_minus : Text → Bool
starts_with_minus [] = false
starts_with_minus (c ∷ s) = c == b'-'

abbrev tail : Text → Text
tail [] = []
tail (c ∷ s) = s

-- `whole || '0'`.
abbrev or_zero : Text → Text
or_zero [] = b'0' ∷ []
or_zero (c ∷ s) = c ∷ s

-- `(frac + '0000000').slice(0, 7)`.
abbrev pub padded_frac : Text → Text
padded_frac f = take 7 (f ++ replicate 7 b'0')

abbrev join_parts : Option ℤ → Option ℤ → Option ℤ
join_parts none frac = none
join_parts (some whole) none = none
join_parts (some whole) (some frac) = some (scale whole 10_000_000 +ℤ frac)

abbrev apply_sign : Bool → Option ℤ → Option ℤ
apply_sign neg none = none
apply_sign neg (some value) = some (if neg then negate value else value)

abbrev stroops_of_parts : Text × List Text → Option ℤ
stroops_of_parts p = join_parts (big_int (or_zero p.0)) (big_int (padded_frac (fraction p)))

unfoldable pub to_stroops : Option Text → Option ℤ
unfolding big_int
to_stroops none = some (pos 0)
to_stroops (some []) = some (pos 0)
to_stroops (some (c ∷ s)) =
    let str = trim_text (c ∷ s) in
    let neg = starts_with_minus str in
    let magnitude = if neg then tail str else str in
    apply_sign neg (stroops_of_parts (split b'.' magnitude))

pub data Comparison : Type 0 where
  less same more : Comparison

abbrev pub compare_stroops : Option ℤ → Option ℤ → Option Comparison
compare_stroops none b = none
compare_stroops (some a) none = none
compare_stroops (some a) (some b) =
    some (if ltb_ℤ b a then more else if ltb_ℤ a b then less else same)

unfoldable pub compare_decimal : Option Text → Option Text → Option Comparison
unfolding to_stroops
compare_decimal a b = compare_stroops (to_stroops a) (to_stroops b)

-- `v > 0n ? v : null`, and `null` for an exception.
abbrev when_positive : Option ℤ → Option ℕ
when_positive none = none
when_positive (some (pos zero)) = none
when_positive (some (pos (suc n))) = some (suc n)
when_positive (some (negsuc n)) = none

unfoldable pub parse_strict_positive_stroops : Option Text → Option ℕ
unfolding to_stroops
parse_strict_positive_stroops none = none
parse_strict_positive_stroops (some s) =
    let str = trim_text s in
    if is_decimal (split b'.' str) then when_positive (to_stroops (some str)) else none

-- `padStart(7, '0')`.
abbrev pub pad_start : ℕ → Text → Text
pad_start n s = replicate (n - length s) b'0' ++ s

unfoldable pub stroops_to_decimal : ℕ → Text
stroops_to_decimal v = print_nat (v / 10_000_000) ++ b'.' ∷ pad_start 7 (print_nat (v % 10_000_000))

unfoldable pub signed_decimal : ℤ → Text
unfolding stroops_to_decimal
signed_decimal (pos n) = stroops_to_decimal n
signed_decimal (negsuc n) = b'-' ∷ stroops_to_decimal (suc n)

-- `parseFloat(s) > 0` for a decimal: some digit is not 0. (A float of fewer than 324 decimals does
-- not underflow.)
abbrev pub some_digit : Text → Bool
some_digit = any (λ c. is_digit c && not (c == b'0'))

unfoldable pub is_valid_refund_amount : Option Text → Bool
unfolding trim_text
is_valid_refund_amount none = false
is_valid_refund_amount (some []) = false
is_valid_refund_amount (some (c ∷ t)) =
    let s = trim_text (c ∷ t) in is_decimal (split b'.' s) && some_digit s

unfoldable pub to_stroops_or_zero : Option Text → ℕ
unfolding trim_text
to_stroops_or_zero none = 0
to_stroops_or_zero (some []) = 0
to_stroops_or_zero (some (c ∷ t)) =
    let p = split b'.' (trim_text (c ∷ t)) in
    if is_decimal p
    then digits_value (or_zero p.0) * 10_000_000 + digits_value (padded_frac (fraction p))
    else 0

unfoldable pub compute_usdc_refund_amount : Option Text → Option Text → Text
unfolding to_stroops_or_zero stroops_to_decimal
compute_usdc_refund_amount amount excess =
    stroops_to_decimal (to_stroops_or_zero amount + to_stroops_or_zero excess)
