-- ===== src/Command/Args.antt =====
-- `parseArgs` of sdk/src/commands/purchase.ts.
use Prim.Native.String.{len, slice}
use text.Mathlib.Text.{starts_with}
use cards.Prelude.{
  Bool, true, false, Option, none, some, List, [], ◌∷◌, String, str_eq, if◌then◌else◌,
}
use cards.Soroban.{Asset, usdc, xlm}

pub record Args : Type 0 where
  pub amount : Option String
  pub asset : Option Asset
  pub asset_invalid : Option String
  pub wallet_name : Option String
  pub vault_path : Option String
  pub passphrase_env : Option String
  pub resume : Option String
  pub help : Bool

abbrev pub no_args : Args
no_args = record {
  amount = none;
  asset = none;
  asset_invalid = none;
  wallet_name = none;
  vault_path = none;
  passphrase_env = none;
  resume = none;
  help = false;
}

-- The options that take a value.
pub data Field : Type 0 where
  amount asset wallet_name vault_path passphrase_env resume : Field

-- What an argument is: a flag, an option whose value is the next argument or follows a `=`, or
-- neither, which is passed over.
pub data Kind : Type 0 where
  help_flag : Kind
  next : Field → Kind
  inline : Field → String → Kind
  other : Kind

abbrev inline_or : String → String → Field → Kind → Kind
inline_or arg prefix field k =
    if starts_with arg prefix then inline field (slice arg (len prefix) (len arg)) else k

unfoldable kind : String → Kind
kind arg =
    if str_eq arg "-h"
    then help_flag
    else if str_eq arg "--help"
    then help_flag
    else if str_eq arg "-a"
    then next amount
    else if str_eq arg "--amount"
    then next amount
    else inline_or arg "--amount=" amount (
        if str_eq arg "--asset"
        then next asset
        else inline_or arg "--asset=" asset (
            if str_eq arg "--wallet-name"
            then next wallet_name
            else inline_or arg "--wallet-name=" wallet_name (
                if str_eq arg "--vault-path"
                then next vault_path
                else inline_or arg "--vault-path=" vault_path (
                    if str_eq arg "--passphrase-env"
                    then next passphrase_env
                    else inline_or arg "--passphrase-env=" passphrase_env (
                        if str_eq arg "--resume"
                        then next resume
                        else inline_or arg "--resume=" resume other)))))

-- `takeAsset`.
unfoldable take_asset : Option String → Args → Args
take_asset none out = out
take_asset (some v) out =
    if str_eq v "xlm"
    then record out { asset = some xlm }
    else if str_eq v "usdc"
    then record out { asset = some usdc }
    else if str_eq v "auto"
    then record out { asset = none }
    else record out { asset_invalid = some v }

set : Field → Option String → Args → Args
unfolding take_asset
set amount v out = record out { amount = v }
set asset v out = take_asset v out
set wallet_name v out = record out { wallet_name = v }
set vault_path v out = record out { vault_path = v }
set passphrase_env v out = record out { passphrase_env = v }
set resume v out = record out { resume = v }

parse_from : Args → List String → Args
unfolding kind set
parse_from out [] = out
parse_from out (arg ∷ []) = elim (kind arg) [
  | help_flag ↦ record out { help = true }
  | next field ↦ set field none out
  | inline field v ↦ set field (some v) out
  | other ↦ out
]
parse_from out (arg ∷ v ∷ rest) = elim (kind arg) [
  | help_flag ↦ parse_from (record out { help = true }) (v ∷ rest)
  | next field ↦ parse_from (set field (some v) out) rest
  | inline field w ↦ parse_from (set field (some w) out) (v ∷ rest)
  | other ↦ parse_from out (v ∷ rest)
]

unfoldable pub parse_args : List String → Args
unfolding parse_from
parse_args argv = parse_from no_args argv
