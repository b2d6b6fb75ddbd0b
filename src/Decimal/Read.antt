-- ===== src/Decimal/Read.antt =====
-- What the readers of backend/src/payment-handler.js and backend/src/fulfillment.js make of a
-- decimal, and of an amount that `stroopsToDecimal` wrote.
use cards.Prelude.{
  ℕ, zero, suc, ◌+◌, ◌-◌, ◌*◌, ◌/◌, ◌%◌, ◌^◌, ◌≤◌, ◌≡◌, refl, ap, ◌∙◌, Bool, true, false, ◌||◌,
  List, [], ◌∷◌, ◌++◌, some, ◌==◌, length, replicate, take, all, arith, all-append, append-nil,
  length-append, length-replicate, &&-true,
}
use cards.Prelude.Text.{
  Text, Lacks, split, is_digit, is_digits, digits_value, digits_from-append, join_pair, join-split,
  split_of_Lacks, split-append, Lacks-of_digits,
}
use cards.Prelude.Trim.{is_space}
use cards.Amount.{is_decimal, fraction, pad_end}
use cards.Amount.Reading.{digits_from_zeros, dot-is_digit, is_digits-all}
use cards.Decimal.{
  skip_space, trim_tail, trim_text, big_int, or_zero, padded_frac, stroops_of_parts, to_stroops,
  to_stroops_or_zero, stroops_to_decimal, pad_start, starts_with_minus,
}
use cards.Decimal.Int.{pos}
use cards.Decimal.Print.{print_nat, digits_value-print_nat, is_digits-print_nat, length-print_nat}

abbrev plain : ℕ → Bool
plain c = is_digit c || c == b'.'

plain-is_space : (c : ℕ) → plain c ≡ true → is_space c ≡ false
unfolding is_digit is_space
plain-is_space c h = ground arith

plain_of_digits : (s : Text) → all is_digit s ≡ true → all plain s ≡ true
plain_of_digits [] h = refl
plain_of_digits (c ∷ s) h = ground (arith, plain_of_digits s)

skip_space-plain : (s : Text) → all plain s ≡ true → skip_space s ≡ s
unfolding skip_space
skip_space-plain [] h = refl
skip_space-plain (c ∷ s) h = rw (plain-is_space c (ground arith)) refl

trim_tail-plain : (s : Text) → all plain s ≡ true → trim_tail s ≡ s
unfolding trim_tail
trim_tail-plain [] h = refl
trim_tail-plain (c ∷ []) h = rw (plain-is_space c (ground arith)) refl
trim_tail-plain (c ∷ d ∷ s) h = rw (trim_tail-plain (d ∷ s) (ground arith)) refl

trim_text-plain : (s : Text) → all plain s ≡ true → trim_text s ≡ s
unfolding trim_text
trim_text-plain s h = rw (skip_space-plain s h) (trim_tail-plain s h)

is_decimal-plain :
    (p : Text × List Text) → is_decimal p ≡ true → all plain (join_pair b'.' p) ≡ true
unfolding is_decimal
is_decimal-plain (w, []) h = plain_of_digits w (is_digits-all w h)
is_decimal-plain (w, f ∷ []) h =
    let (hw, hf) = &&-true (is_digits w) (is_digits f) h in
    all-append plain w (b'.' ∷ f) (plain_of_digits w (is_digits-all w hw))
      (ground (arith, plain_of_digits f (is_digits-all f hf)))
is_decimal-plain (w, f ∷ g ∷ parts) h = cc

-- A text without white space is trimmed to itself.
pub trim_decimal : (t : Text) → is_decimal (split b'.' t) ≡ true → trim_text t ≡ t
trim_decimal t h = trim_text-plain t (rw (join-split b'.' t) at (is_decimal-plain (split b'.' t) h))

big_int_digits : (s : Text) → is_digits s ≡ true → big_int s ≡ some (pos (digits_value s))
unfolding big_int
big_int_digits s h = rw (trim_text-plain s (plain_of_digits s (is_digits-all s h)), h) refl

take-replicate : (n m c : ℕ) → n ≤ m → take n (replicate m c) ≡ replicate n c
take-replicate zero m c h = refl
take-replicate (suc n) zero c h = ground arith
take-replicate (suc n) (suc m) c h = ap (◌∷◌ c) (take-replicate n m c (omega arith))

zero_times : (n : ℕ) → 0 * n ≡ 0
zero_times n = omega arith

minus_zero : (n : ℕ) → n - 0 ≡ n
minus_zero n = omega arith

minus_suc : (n k : ℕ) → suc n - suc k ≡ n - k
minus_suc n k = omega arith

take-append :
    (n m c : ℕ) (f : Text)
    → length f ≤ n
    → n ≤ length f + m
    → take n (f ++ replicate m c) ≡ f ++ replicate (n - length f) c
take-append n m c [] h k = rw (minus_zero n) (take-replicate n m c (omega arith))
take-append zero m c (d ∷ f) h k = ground arith
take-append (suc n) m c (d ∷ f) h k =
    rw (minus_suc n (length f)) (ap (◌∷◌ d) (take-append n m c f (omega arith) (omega arith)))

padded_frac-pad_end : (f : Text) → length f ≤ 7 → padded_frac f ≡ pad_end 7 f
padded_frac-pad_end f h = take-append 7 7 b'0' f h (omega arith)

digits_padded : (f : Text) → all is_digit f ≡ true → is_digits (f ++ replicate 7 b'0') ≡ true
unfolding is_digit
digits_padded [] h = refl
digits_padded (c ∷ f) h =
    ground (arith, all-append is_digit f (replicate 7 b'0') (ground arith) refl)

all-take : (n : ℕ) (s : Text) → all is_digit s ≡ true → all is_digit (take n s) ≡ true
all-take zero s h = refl
all-take (suc n) [] h = refl
all-take (suc n) (c ∷ s) h = ground (arith, all-take n s)

is_digits-take : (n : ℕ) (s : Text) → is_digits s ≡ true → is_digits (take (suc n) s) ≡ true
is_digits-take n [] h = cc
is_digits-take n (c ∷ s) h = all-take (suc n) (c ∷ s) h

or_zero_digits : (s : Text) → is_digits s ≡ true → or_zero s ≡ s
or_zero_digits [] h = cc
or_zero_digits (c ∷ s) h = refl

pub record IsSplit (p : Text × List Text) : Type 0 where
  pub whole : is_digits p.0 ≡ true
  pub decimals : all is_digit (fraction p) ≡ true

is_decimal-IsSplit : (p : Text × List Text) → is_decimal p ≡ true → IsSplit p
unfolding is_decimal
is_decimal-IsSplit (w, []) h = record { whole = h; decimals = refl }
is_decimal-IsSplit (w, f ∷ []) h =
    let (hw, hf) = &&-true (is_digits w) (is_digits f) h in
    record { whole = hw; decimals = is_digits-all f hf }
is_decimal-IsSplit (w, f ∷ g ∷ parts) h = cc

-- The stroops of a decimal with at most seven decimals.
abbrev pub stroops_in : Text × List Text → ℕ
stroops_in p = digits_value p.0 * 10_000_000 + digits_value (pad_end 7 (fraction p))

stroops_of_parts_decimal :
    (p : Text × List Text)
    → is_decimal p ≡ true
    → length (fraction p) ≤ 7
    → stroops_of_parts p ≡ some (pos (stroops_in p))
stroops_of_parts_decimal p h k =
    let parts = is_decimal-IsSplit p h in
    rw
      (
        or_zero_digits p.0 parts.whole,
        big_int_digits p.0 parts.whole,
        big_int_digits (padded_frac (fraction p)) (
            is_digits-take 6 (fraction p ++ replicate 7 b'0')
              (digits_padded (fraction p) parts.decimals)),
        padded_frac-pad_end (fraction p) k,
      )
      (ground arith)

no_minus : (t : Text) → all plain t ≡ true → starts_with_minus t ≡ false
unfolding is_digit
no_minus [] h = refl
no_minus (c ∷ s) h = ground arith

pub not_empty : {A : Type 0} → is_decimal (split b'.' []) ≡ true → A
unfolding is_decimal split
not_empty h = cc

-- A decimal is a text with a first character, none of which is white space or a sign.
record IsPlain (t : Text) : Type 0 where
  trimmed : trim_text t ≡ t
  unsigned : starts_with_minus t ≡ false

is_decimal-IsPlain : (t : Text) → is_decimal (split b'.' t) ≡ true → IsPlain t
is_decimal-IsPlain t h = record {
  trimmed = trim_decimal t h;
  unsigned = no_minus t (rw (join-split b'.' t) at (is_decimal-plain (split b'.' t) h));
}

-- `toStroops` gives a decimal of at most seven decimals exactly.
pub to_stroops_decimal :
    (t : Text)
    → is_decimal (split b'.' t) ≡ true
    → length (fraction (split b'.' t)) ≤ 7
    → to_stroops (some t) ≡ some (pos (stroops_in (split b'.' t)))
unfolding to_stroops
to_stroops_decimal [] h k = not_empty h
to_stroops_decimal (c ∷ s) h k =
    let plain_text = is_decimal-IsPlain (c ∷ s) h in
    rw (plain_text.trimmed, plain_text.unsigned, stroops_of_parts_decimal (split b'.' (c ∷ s)) h k)
      refl

pub to_stroops_or_zero_decimal :
    (t : Text)
    → is_decimal (split b'.' t) ≡ true
    → length (fraction (split b'.' t)) ≤ 7
    → to_stroops_or_zero (some t) ≡ stroops_in (split b'.' t)
unfolding to_stroops_or_zero
to_stroops_or_zero_decimal [] h k = not_empty h
to_stroops_or_zero_decimal (c ∷ s) h k =
    let p = split b'.' (c ∷ s) in
    rw
      (
        trim_decimal (c ∷ s) h,
        h,
        or_zero_digits p.0 (is_decimal-IsSplit p h).whole,
        padded_frac-pad_end (fraction p) k,
      )
      refl

-- How an amount that `stroopsToDecimal` wrote is split.
abbrev written : ℕ → Text × List Text
written v = (print_nat (v / 10_000_000), pad_start 7 (print_nat (v % 10_000_000)) ∷ [])

Lacks-dot : (s : Text) → is_digits s ≡ true → Lacks b'.' s
Lacks-dot s h = Lacks-of_digits b'.' s dot-is_digit (is_digits-all s h)

all-zeros : (n : ℕ) → all is_digit (replicate n b'0') ≡ true
unfolding is_digit
all-zeros zero = refl
all-zeros (suc n) = all-zeros n

is_digits-zeros : (n : ℕ) (s : Text) → is_digits s ≡ true → is_digits (replicate n b'0' ++ s) ≡ true
is_digits-zeros zero s h = h
is_digits-zeros (suc n) s h =
    all-append is_digit (replicate (suc n) b'0') s (all-zeros (suc n)) (is_digits-all s h)

is_digits-frac : (v : ℕ) → is_digits (pad_start 7 (print_nat (v % 10_000_000))) ≡ true
is_digits-frac v =
    is_digits-zeros (7 - length (print_nat (v % 10_000_000))) (print_nat (v % 10_000_000))
      (is_digits-print_nat (v % 10_000_000))

split_written : (v : ℕ) → split b'.' (stroops_to_decimal v) ≡ written v
unfolding stroops_to_decimal
split_written v =
    let whole = print_nat (v / 10_000_000) in
    let frac = pad_start 7 (print_nat (v % 10_000_000)) in
    rw
      (
        split-append b'.' whole frac (Lacks-dot whole (is_digits-print_nat (v / 10_000_000))),
        split_of_Lacks b'.' frac (Lacks-dot frac (is_digits-frac v)),
      )
      refl

written-is_decimal : (v : ℕ) → is_decimal (written v) ≡ true
unfolding is_decimal
written-is_decimal v = rw (is_digits-print_nat (v / 10_000_000), is_digits-frac v) refl

length-written : (v : ℕ) → length (fraction (written v)) ≡ 7
length-written v =
    let frac = print_nat (v % 10_000_000) in
    omega (
      arith,
      length-append (replicate (7 - length frac) b'0') frac,
      length-replicate {A = ℕ} (7 - length frac) b'0',
      length-print_nat 6 (v % 10_000_000) (omega arith),
    )

stroops_in-written : (v : ℕ) → stroops_in (written v) ≡ v
stroops_in-written v =
    let frac = print_nat (v % 10_000_000) in
    rw
      (
        digits_value-print_nat (v / 10_000_000),
        length-written v,
        append-nil (pad_start 7 frac),
        digits_from-append 0 (replicate (7 - length frac) b'0') frac,
        digits_from_zeros 0 (7 - length frac),
        zero_times (10 ^ (7 - length frac)),
        digits_value-print_nat (v % 10_000_000),
      )
      (omega arith)

-- An amount that `stroopsToDecimal` wrote is a decimal, and the two readers give it back.
pub record IsWritten (v : ℕ) (t : Text) : Type 0 where
  pub valid : is_decimal (split b'.' t) ≡ true
  pub short : length (fraction (split b'.' t)) ≤ 7
  pub exact : stroops_in (split b'.' t) ≡ v

pub stroops_to_decimal-IsWritten : (v : ℕ) → IsWritten v (stroops_to_decimal v)
stroops_to_decimal-IsWritten v = record {
  valid = rw split_written (written-is_decimal v);
  short = rw split_written (omega (arith, length-written v));
  exact = rw split_written (stroops_in-written v);
}

pub to_stroops-stroops_to_decimal :
    (v : ℕ) → to_stroops (some (stroops_to_decimal v)) ≡ some (pos v)
to_stroops-stroops_to_decimal v =
    let w = stroops_to_decimal-IsWritten v in
    rw (to_stroops_decimal (stroops_to_decimal v) w.valid w.short, w.exact) refl

pub to_stroops_or_zero-stroops_to_decimal :
    (v : ℕ) → to_stroops_or_zero (some (stroops_to_decimal v)) ≡ v
to_stroops_or_zero-stroops_to_decimal v =
    let w = stroops_to_decimal-IsWritten v in
    to_stroops_or_zero_decimal (stroops_to_decimal v) w.valid w.short ∙ w.exact
