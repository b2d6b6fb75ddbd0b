-- ===== src/Command/Tests.antt =====
-- Runs of the purchase command, and the theorems at them.
use Prim.Native.String.{◌∷◌, []}
use cards.Prelude.{◌≡◌, refl, true, none, some, [], ◌∷◌, arith}
use cards.Prelude.Text.{split, is_digit, digits_from}
use cards.Prelude.Trim.{trim}
use cards.Errors.{ok, err, resumable, unpaid}
use cards.Amount.{check_amount, has_cents, is_decimal}
use cards.Client.{CardDetails}
use cards.Soroban.{xlm, usdc}
use cards.Purchase.{PurchaseOpts, context}
use cards.Command.Args.{Args, no_args, parse_args}
use cards.Command.LastOrder.{LastOrderState, load_last_order, save_last_order}
use cards.Command.Run.{
  Config, Env, Exit, purchase_command, refuse_args, with_config, attempt, pick_asset, resume_arg,
}
use cards.Command.Saves.{IsAttempt, purchase_command-IsAttempt}
use cards.Command.Printed.{parse, print, printed-Json}
use cards.Command.Resumes.{purchase_command-resumes}

bought :
    parse_args ("--amount=10" ∷ "--asset" ∷ "auto" ∷ []) ≡ record no_args { amount = some "10" }
unfolding parse_args
bought = refl

resumed : parse_args ("--resume" ∷ "order-1" ∷ []) ≡ record no_args { resume = some "order-1" }
unfolding parse_args
resumed = refl

dangling : parse_args ("--amount" ∷ []) ≡ no_args
unfolding parse_args
dangling = refl

abbrev card : CardDetails
card = record { number = "4111111111111111"; cvv = "123"; expiry = "12/29"; brand = none }

abbrev state : LastOrderState
state = record { order_id = "order-1"; tx_hash = some "h"; phase = some unpaid }

-- The older form of the file holds the order's id in its first line.
old_form :
    load_last_order parse (some (record { size = 9; text = " order-1 \n\n" }))
    ≡ some (record { order_id = "order-1"; tx_hash = none; phase = none })
unfolding load_last_order trim
old_form = refl

abbrev config : Config
config = record { wallet_name = some "agent"; vault_path = none; passphrase_env = none }

-- A first run whose payment is dropped.
abbrev first : Env
first = record {
  config = ok (some config);
  getenv = λ name. none;
  usdc_balance = ok "25.0000000";
  last_order = none;
  writable = true;
  purchase = λ wallet opts. err (resumable "order-1" "lost" unpaid (some "h"));
}

abbrev buys : Args
buys = record no_args { amount = some "10" }

abbrev bought_opts : PurchaseOpts
bought_opts = record {
  amount_usdc = "10";
  payment_asset = some usdc;
  network = none;
  resume = none;
}

abbrev first_exit : Exit
first_exit = record { code = 1; attempted = some bought_opts; last_order = some (print state) }

first_run : purchase_command parse print first buys ≡ ok first_exit
unfolding purchase_command refuse_args check_amount has_cents is_decimal with_config attempt
    pick_asset resume_arg save_last_order split is_digit digits_from
first_run = refl

purchase_command-IsAttempt_example : IsAttempt parse print first buys first_exit bought_opts
purchase_command-IsAttempt_example =
    purchase_command-IsAttempt parse print first buys first_exit bought_opts first_run refl

-- The next run resumes the order.
abbrev next : Env
next = record first {
  last_order = some (print state);
  purchase = λ wallet opts. ok (card, "order-1");
}

abbrev resumes : Args
resumes = record no_args { resume = some "order-1" }

abbrev resumed_opts : PurchaseOpts
resumed_opts = record {
  amount_usdc = "0";
  payment_asset = some xlm;
  network = none;
  resume = some (context "order-1" none (some "h") (some unpaid));
}

abbrev next_exit : Exit
next_exit = record { code = 0; attempted = some resumed_opts; last_order = none }

next_run : purchase_command parse print next resumes ≡ ok next_exit
unfolding purchase_command refuse_args with_config attempt pick_asset resume_arg load_last_order
    trim
next_run = refl

purchase_command-resumes_example :
    (resumed_opts.resume ≡ some (context "order-1" none (some "h") (some unpaid)))
    × (resumes.asset ≡ none → resumed_opts.payment_asset ≡ some xlm)
purchase_command-resumes_example =
    purchase_command-resumes parse print printed-Json first next buys resumes first_exit next_exit
      bought_opts resumed_opts "order-1" "lost" unpaid (some "h") first_run refl (λ wallet. refl)
      refl refl (omega arith) refl refl next_run refl
