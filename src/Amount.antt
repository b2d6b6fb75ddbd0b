-- ===== src/Amount.antt =====
-- Money amounts: `decimalToStroops` of sdk/src/soroban.ts, and the amount checks that the purchase
-- command (sdk/src/commands/purchase.ts) and the MCP tool (sdk/src/mcp.ts) make first.
-- A decimal is read exactly: the floats of the two checks are compared at two decimals only, where
-- rounding keeps the order.
pub mod Reading
pub mod Stroops
pub mod Checks
pub mod Tests
use Prim.Native.String.{◌++◌}
use mathlib.Core.List
use cards.Prelude.{
  ℕ, ◌+◌, ◌-◌, ◌*◌, ◌^◌, Bool, true, false, not, ◌&&◌, ◌||◌, List, [], ◌∷◌, Option, none, some,
  String, ◌==◌, ltb, leb, length, replicate, if◌then◌else◌,
}
use cards.Prelude.Text.{Text, codes, split, is_digit, is_digits, digits_value}
use cards.Errors.{Result, ok, err, error}

-- `/^\d+(\.\d+)?$/`, on the parts between the dots.
unfoldable pub is_decimal : Text × List Text → Bool
is_decimal (w, []) = is_digits w
is_decimal (w, f ∷ []) = is_digits w && is_digits f
is_decimal (w, f ∷ g ∷ parts) = false

-- `parts[1] ?? ''`.
abbrev pub fraction : Text × List Text → Text
fraction (w, []) = []
fraction (w, f ∷ parts) = f

-- `frac.padEnd(7, '0')`.
abbrev pub pad_end : ℕ → Text → Text
pad_end n f = List.◌++◌ f (replicate (n - length f) b'0')

unfoldable pub decimal_to_stroops : String → Result ℕ
decimal_to_stroops decimal =
    let parts = split b'.' (codes decimal) in
    if not (is_decimal parts)
    then err (error ("Invalid decimal amount: " ++ decimal))
    else if ltb 7 (length (fraction parts))
    then err (error ("Amount has more than 7 decimal places: " ++ decimal))
    else let stroops =
        digits_value parts.0 * 10_000_000 + digits_value (pad_end 7 (fraction parts)) in
      if leb stroops 0 then err (error ("Amount must be positive: " ++ decimal)) else ok stroops

-- `/^\d+(\.\d{1,2})?$/`, on the parts between the dots.
unfoldable pub has_cents : Text × List Text → Bool
unfolding is_decimal
has_cents parts = is_decimal parts && leb (length (fraction parts)) 2

-- The amount in cents, which `parseFloat` gives in dollars.
abbrev pub cents : Text × List Text → ℕ
cents parts = digits_value parts.0 * 100 + digits_value (pad_end 2 (fraction parts))

pub data AmountCheck : Type 0 where
  accepted malformed below_cent above_ceiling : AmountCheck

-- The checks of `purchaseCommand` and of the MCP tool, in their order.
unfoldable pub check_amount : String → AmountCheck
unfolding has_cents
check_amount amount =
    let parts = split b'.' (codes amount) in
    if not (has_cents parts)
    then malformed
    else if ltb (cents parts) 1
    then below_cent
    else if ltb 1_000_000 (cents parts)
    then above_ceiling
    else accepted
