-- ===== src/Purchase/Account.antt =====
-- The balances of an account, as `getOWSBalance` and the trustline checks of sdk/src/ows.ts and
-- `getBalance` of sdk/src/stellar.ts read them.
use cards.Prelude.{
  Bool, true, false, ◌&&◌, ◌||◌, ◌∙◌, List, [], ◌∷◌, String, str_eq, any, if◌then◌else◌, ◌≡◌, refl,
  arith,
}

-- An entry of `account.balances` of Horizon; the native one has no code and no issuer.
pub record BalanceEntry : Type 0 where
  pub asset_type : String
  pub asset_code : String
  pub asset_issuer : String
  pub balance : String

pub record Balance : Type 0 where
  pub xlm : String
  pub usdc : String

abbrev pub usdc_issuer : String
usdc_issuer = "GA5ZSEJYB37JRC5AVCIA5MOP4RHTM335X2KGX3IHOJAPP5RE34K4KZVN"

unfoldable pub is_usdc : BalanceEntry → Bool
is_usdc b =
    str_eq b.asset_type "credit_alphanum4"
    && str_eq b.asset_code "USDC"
    && str_eq b.asset_issuer usdc_issuer

read_from : Balance → List BalanceEntry → Balance
read_from r [] = r
read_from r (b ∷ bs) =
    let r' : Balance = if str_eq b.asset_type "native" then record r { xlm = b.balance } else r in
    read_from (if is_usdc b then record r' { usdc = b.balance } else r') bs

-- The last entry of a kind counts; without one the balance is "0".
unfoldable pub read_balance : List BalanceEntry → Balance
unfolding read_from is_usdc
read_balance bs = read_from (record { xlm = "0"; usdc = "0" }) bs

unfoldable pub has_trustline : List BalanceEntry → Bool
unfolding is_usdc
has_trustline bs = any is_usdc bs

xlm-usdc :
    (c : Bool) (r : Balance) (x : String) → (if c then record r { xlm = x } else r).usdc ≡ r.usdc
xlm-usdc true r x = refl
xlm-usdc false r x = refl

||-false : (a b : Bool) → (a || b) ≡ false → (a ≡ false) × (b ≡ false)
||-false a b h = ground arith

read_from-usdc :
    (bs : List BalanceEntry) (r : Balance)
    → has_trustline bs ≡ false
    → (read_from r bs).usdc ≡ r.usdc
unfolding read_from has_trustline
read_from-usdc [] r h = refl
read_from-usdc (b ∷ bs) r h =
    let (other, others) = ||-false (is_usdc b) (any is_usdc bs) h in
    rw (other, read_from)
      (read_from-usdc bs _ others ∙ xlm-usdc (str_eq b.asset_type "native") r b.balance)

-- An account without a trustline to the issuer has the balance "0", so that the purchase, which
-- looks for a trustline only at that balance, finds every account that has none.
pub read_balance-no_trustline :
    (bs : List BalanceEntry) → has_trustline bs ≡ false → (read_balance bs).usdc ≡ "0"
unfolding read_balance
read_balance-no_trustline bs h = read_from-usdc bs _ h
