-- ===== src/Command/Run.antt =====
-- `purchaseCommand` of sdk/src/commands/purchase.ts, from the parsed arguments on. What it prints is
-- left out.
use cards.Prelude.{
  ℕ, ◌*◌, ◌+◌, Bool, not, ◌&&◌, Option, none, some, String, str_eq, truthy, get_or, leb, ltb,
  if◌then◌else◌,
}
use cards.Prelude.Text.{codes, split, digits_value}
use cards.Errors.{Result, ok, err, order_failed, resumable}
use cards.Amount.{accepted, check_amount, fraction, pad_end}
use cards.Client.{CardDetails}
use cards.Soroban.{Asset, usdc, xlm}
use cards.Purchase.{PurchaseOpts, Resume, bare, context}
use cards.Command.Args.{Args}
use cards.Command.LastOrder.{
  LastOrderState, Fields, Stored, load_last_order, save_last_order, clear_last_order,
}

-- The fields of `Cards402Config` that the command reads.
pub record Config : Type 0 where
  pub wallet_name : Option String
  pub vault_path : Option String
  pub passphrase_env : Option String

-- What the run meets: the config file, the environment, the wallet's USDC balance as a text, the file
-- of the last order and whether it can be written, and `purchaseCardOWS` for a wallet and passphrase.
pub record Env : Type 0 where
  pub config : Result (Option Config)
  pub getenv : String → Option String
  pub usdc_balance : Result String
  pub last_order : Option Stored
  pub writable : Bool
  pub purchase : (wallet : String) → PurchaseOpts → Result (CardDetails × String)

-- The exit code, the purchase that was attempted, and the file of the last order that is left.
pub record Exit : Type 0 where
  pub code : ℕ
  pub attempted : Option PurchaseOpts
  pub last_order : Option Stored

-- The exit code for arguments that lead no further.
unfoldable pub refuse_args : Args → Option ℕ
refuse_args args =
    if args.help
    then some 0
    else if truthy args.asset_invalid
    then some 2
    else if truthy args.resume && truthy args.amount
    then some 2
    else if not (truthy args.resume) && not (truthy args.amount)
    then some 2
    else if truthy args.amount
    then (elim (check_amount (get_or args.amount "")) [ accepted ↦ none | _ ↦ some 2 ])
    else none

-- `a || b` and `a ?? b`.
abbrev pub or_else : Option String → Option String → Option String
or_else a b = if truthy a then a else b

abbrev pub coalesce : Option String → Option String → Option String
coalesce none b = b
coalesce (some a) b = some a

-- The passphrase's variable is named but not set.
abbrev pub passphrase_missing : Env → Args → Config → Bool
passphrase_missing env args config =
    let name = coalesce args.passphrase_env config.passphrase_env in
    truthy name && not (truthy (env.getenv (get_or name "")))

-- A decimal of at most seven places, as Horizon gives balances, in its seventh place.
abbrev pub stroops : String → ℕ
stroops s =
    let parts = split b'.' (codes s) in
    digits_value parts.0 * 10_000_000 + digits_value (pad_end 7 (fraction parts))

-- The asset to pay with. The balance and the amount are compared exactly: at seven places and the
-- amounts that pass the check, floats compare the same.
unfoldable pub pick_asset : Env → Args → Asset
pick_asset env args = elim args.asset [
  | some a ↦ a
  | none ↦ if truthy args.resume then xlm else (elim env.usdc_balance [
    | err e ↦ xlm
    | ok balance ↦
        let want = stroops (get_or args.amount "0") in
        if leb want (stroops balance) && ltb 0 want then usdc else xlm
  ])
]

module _ (parse : String → Option Fields) (print : LastOrderState → Stored) where
  unfoldable pub resume_arg : Env → Args → Option Resume
  resume_arg env args =
      if truthy args.resume
      then (elim (load_last_order parse env.last_order) [
        | none ↦ some (bare (get_or args.resume ""))
        | some saved ↦
            if str_eq saved.order_id (get_or args.resume "")
            then some (context saved.order_id none saved.tx_hash saved.phase)
            else some (bare (get_or args.resume ""))
      ])
      else none

  abbrev pub purchase_opts : Env → Args → PurchaseOpts
  purchase_opts env args = record {
    amount_usdc = get_or args.amount "0";
    payment_asset = some (pick_asset env args);
    network = none;
    resume = resume_arg env args;
  }

  -- The `try` around `purchaseCardOWS`.
  unfoldable pub attempt : Env → String → PurchaseOpts → Exit
  attempt env wallet opts = elim (env.purchase wallet opts) [
    | ok card ↦ record { code = 0; attempted = some opts; last_order = clear_last_order }
    | err e ↦ elim e [
      | order_failed order_id reason refund ↦ record {
        code = 1;
        attempted = some opts;
        last_order = clear_last_order;
      }
      | resumable order_id reason phase tx_hash ↦ record {
        code = 1;
        attempted = some opts;
        last_order =
            save_last_order print env.writable
              (record { order_id = order_id; tx_hash = tx_hash; phase = some phase })
              env.last_order;
      }
      | _ ↦ record { code = 1; attempted = some opts; last_order = env.last_order }
    ]
  ]

  abbrev pub exit : Env → ℕ → Exit
  exit env code = record { code = code; attempted = none; last_order = env.last_order }

  unfoldable pub with_config : Env → Args → Config → Exit
  unfolding attempt pick_asset resume_arg
  with_config env args config =
      let wallet = or_else args.wallet_name config.wallet_name in
      if not (truthy wallet)
      then exit env 1
      else if passphrase_missing env args config
      then exit env 2
      else attempt env (get_or wallet "") (purchase_opts env args)

  unfoldable pub purchase_command : Env → Args → Result Exit
  unfolding refuse_args with_config
  purchase_command env args = elim (refuse_args args) [
    | some code ↦ ok (exit env code)
    | none ↦ elim env.config [
      | err e ↦ err e
      | ok none ↦ ok (exit env 1)
      | ok (some config) ↦ ok (with_config env args config)
    ]
  ]
