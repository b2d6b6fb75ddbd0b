-- ===== src/Amount/Checks.antt =====
-- The amount checks of the purchase command and of the MCP tool, against `decimal_to_stroops`.
use cards.Prelude.{ℕ, ◌+◌, ◌-◌, ◌*◌, ◌^◌, ◌≤◌, ◌≡◌, ap, ◌∙◌, List, ◌++◌, arith, length, String}
use cards.Prelude.Text.{Text, codes, split, digits_value}
use cards.Errors.{ok}
use cards.Amount.{decimal_to_stroops, fraction, pad_end, cents, check_amount, accepted}
use cards.Amount.Reading.{scale_lem, pow-add}

-- The value of a decimal with at most two decimals, in the seven decimals of the ledger.
cents-stroops :
    (p : Text × List Text)
    → length (fraction p) ≤ 2
    → digits_value p.0 * 10_000_000 + digits_value (pad_end 7 (fraction p)) ≡ cents p * 100_000
cents-stroops p h = omega (
  arith,
  scale_lem 7 p.0 (fraction p),
  scale_lem 2 p.0 (fraction p),
  ap (λ (t : ℕ). m * t) (pow-add (2 - length (fraction p)) 5 ∙ ap (λ (t : ℕ). 10 ^ t) e),
)
  where
    m : ℕ
    m = digits_value (p.0 ++ fraction p)

    e : 2 - length (fraction p) + 5 ≡ 7 - length (fraction p)
    e = omega arith

-- An amount that the check accepts is never refused by the payment code: it is a number of cents
-- from 1 to 1,000,000, and is paid as exactly that many times 100,000 stroops.
pub check_amount-accepted :
    (s : String)
    → check_amount s ≡ accepted
    → (c : ℕ) × (1 ≤ c) × (c ≤ 1_000_000) × (decimal_to_stroops s ≡ ok (c * 100_000))
unfolding check_amount decimal_to_stroops
check_amount-accepted s h =
    let p = split b'.' (codes s) in
    (cents p, ground arith, ground arith, ground (arith, cents-stroops p))
