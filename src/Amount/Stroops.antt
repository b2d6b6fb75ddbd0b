-- ===== src/Amount/Stroops.antt =====
-- `decimal_to_stroops` against what its text says.
use mathlib.Core.Logic.{◌↔◌}
use cards.Prelude.{ℕ, ◌-◌, ◌*◌, ◌^◌, ◌≤◌, ◌<◌, ◌≡◌, true, List, ◌++◌, arith, length, String}
use cards.Prelude.Text.{Text, codes, split, join-split, digits_value}
use cards.Errors.{ok}
use cards.Amount.{decimal_to_stroops, is_decimal, fraction}
use cards.Amount.Reading.{Reads, scale_lem, is_decimal-Reads, Reads-split}

-- A text says `v` stroops: with at most seven decimals, and more than nothing.
pub record Says (t : Text) (v : ℕ) : Type 0 where
  pub mantissa : ℕ
  pub decimals : ℕ
  pub reads : Reads t mantissa decimals
  pub fits : decimals ≤ 7
  pub value : v ≡ mantissa * 10 ^ (7 - decimals)
  pub positive : 0 < v

decimal_to_stroops_sound : (s : String) (v : ℕ) → decimal_to_stroops s ≡ ok v → Says (codes s) v
unfolding decimal_to_stroops
decimal_to_stroops_sound s v h = record {
  mantissa = digits_value (p.0 ++ fraction p);
  decimals = length (fraction p);
  reads = rw (join-split b'.' (codes s)) at (is_decimal-Reads p valid);
  fits = short;
  value = ground (arith, scale_lem 7 p.0 (fraction p) short);
  positive = ground arith;
}
  where
    p : Text × List Text
    p = split b'.' (codes s)

    valid : is_decimal p ≡ true
    valid = ground arith

    short : length (fraction p) ≤ 7
    short = ground arith

decimal_to_stroops_complete : (s : String) (v : ℕ) → Says (codes s) v → decimal_to_stroops s ≡ ok v
unfolding decimal_to_stroops
decimal_to_stroops_complete s v h =
    let p = split b'.' (codes s) in
    let r = Reads-split (codes s) h.mantissa h.decimals h.reads in
    ground (
      arith,
      r.valid,
      r.mantissa,
      r.decimals,
      scale_lem 7 p.0 (fraction p),
      h.fits,
      h.value,
      h.positive,
    )

-- A decimal is converted exactly when it is a run of digits, or two of them round one dot, with at
-- most seven decimals and a positive value; the result is then that value in stroops of 10^-7, with
-- no rounding.
pub decimal_to_stroops-eq-ok_iff :
    (s : String) (v : ℕ) → (decimal_to_stroops s ≡ ok v) ↔ Says (codes s) v
decimal_to_stroops-eq-ok_iff s v = (decimal_to_stroops_sound s v, decimal_to_stroops_complete s v)
