-- ===== src/Amount/Reading.antt =====
-- What a decimal text says, independently of the code: a mantissa and a number of decimals.
use Prim.Native.Nat.add
use native.Mathlib.Nat.{pow-succ'}
use cards.Prelude.{
  ℕ, suc, zero, ◌+◌, ◌-◌, ◌*◌, ◌^◌, ◌≤◌, ◌≡◌, refl, ap, ◌∙◌, true, false, List, [], ◌∷◌, ◌++◌,
  arith, length, replicate, all, append-nil, &&-true,
}
use cards.Prelude.Text.{
  Text, split, is_digit, is_digits, digits_value, digits_from, digits_from-append, join_pair,
  split_of_Lacks, split-append, Lacks-of_digits,
}
use cards.Amount.{is_decimal, fraction, pad_end}

-- The decimal `t` is the number `mantissa * 10 ^ (-decimals)`.
pub data Reads (t : Text) (mantissa decimals : ℕ) : Type 0 where
  whole : is_digits t ≡ true → mantissa ≡ digits_value t → decimals ≡ 0 → Reads t mantissa decimals
  point :
      (w f : Text)
      → t ≡ w ++ b'.' ∷ f
      → is_digits w ≡ true
      → is_digits f ≡ true
      → mantissa ≡ digits_value (w ++ f)
      → decimals ≡ length f
      → Reads t mantissa decimals

pub pow-add : (k j : ℕ) → 10 ^ k * 10 ^ j ≡ 10 ^ (k + j)
pow-add zero j = rw (add.zero j) (omega arith)
pow-add (suc k) j =
    rw (add.suc k j, pow-succ' 10 (k + j), pow-succ' 10 k)
      (omega (arith, ap (λ (t : ℕ). 10 * t) (pow-add k j)))

pub digits_from_zeros : (n k : ℕ) → digits_from n (replicate k b'0') ≡ n * 10 ^ k
unfolding digits_from
digits_from_zeros n zero = omega arith
digits_from_zeros n (suc k) =
    omega (arith, digits_from_zeros (n * 10 + 0) k, ap (λ (t : ℕ). n * t) (pow-succ' 10 k))

digits_from_shift : (n : ℕ) (s : Text) → digits_from n s ≡ n * 10 ^ length s + digits_from 0 s
unfolding digits_from
digits_from_shift n [] = omega arith
digits_from_shift n (c ∷ s) = omega (
  arith,
  digits_from_shift (n * 10 + (c - b'0')) s,
  digits_from_shift (0 + (c - b'0')) s,
  ap (λ (t : ℕ). n * t) (pow-succ' 10 (length s)),
)

pub digits_value-pad_end :
    (n : ℕ) (f : Text) → digits_value (pad_end n f) ≡ digits_value f * 10 ^ (n - length f)
digits_value-pad_end n f =
    digits_from-append 0 f (replicate (n - length f) b'0')
    ∙ digits_from_zeros (digits_value f) (n - length f)

-- A whole part and a padded fraction make the mantissa, scaled to `n` decimals.
pub scale_lem :
    (n : ℕ) (w f : Text)
    → length f ≤ n
    → digits_value w * 10 ^ n + digits_value (pad_end n f)
      ≡ digits_value (w ++ f) * 10 ^ (n - length f)
scale_lem n w f h =
    rw (digits_value-pad_end n f, digits_from-append 0 w f, digits_from_shift (digits_value w) f)
      (omega (
        arith,
        ap (λ (t : ℕ). digits_value w * t)
            (pow-add (length f) (n - length f) ∙ ap (λ (t : ℕ). 10 ^ t) e),
      ))
  where
    e : length f + (n - length f) ≡ n
    e = omega arith

pub is_digits-all : (s : Text) → is_digits s ≡ true → all is_digit s ≡ true
is_digits-all (c ∷ s) h = h
is_digits-all [] h = cc

pub dot-is_digit : is_digit b'.' ≡ false
unfolding is_digit
dot-is_digit = refl

pub is_decimal-Reads :
    (p : Text × List Text)
    → is_decimal p ≡ true
    → Reads (join_pair b'.' p) (digits_value (p.0 ++ fraction p)) (length (fraction p))
unfolding is_decimal
is_decimal-Reads (w, []) h = whole h (rw append-nil) refl
is_decimal-Reads (w, f ∷ []) h =
    let (hw, hf) = &&-true (is_digits w) (is_digits f) h in point w f refl hw hf refl refl
is_decimal-Reads (w, f ∷ g ∷ parts) h = cc

-- The parts of a decimal are what the code takes them for.
pub record IsRead (p : Text × List Text) (m d : ℕ) : Type 0 where
  pub valid : is_decimal p ≡ true
  pub mantissa : m ≡ digits_value (p.0 ++ fraction p)
  pub decimals : d ≡ length (fraction p)

pub Reads-split : (t : Text) (m d : ℕ) → Reads t m d → IsRead (split b'.' t) m d
unfolding is_decimal
Reads-split t m d (whole h e z) =
    rw (split_of_Lacks b'.' t (Lacks-of_digits b'.' t dot-is_digit (is_digits-all t h)))
      (record { valid = h; mantissa = rw append-nil e; decimals = z })
Reads-split t m d (point w f e hw hf em ed) =
    rw
      (
        e,
        split-append b'.' w f (Lacks-of_digits b'.' w dot-is_digit (is_digits-all w hw)),
        split_of_Lacks b'.' f (Lacks-of_digits b'.' f dot-is_digit (is_digits-all f hf)),
      )
      (record { valid = rw (hw, hf); mantissa = em; decimals = ed })
