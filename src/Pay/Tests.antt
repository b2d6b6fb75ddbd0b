-- ===== src/Pay/Tests.antt =====
-- Runs of the payment functions, and the theorems on them at these runs.
use cards.Prelude.{ℕ, zero, suc, ◌≤◌, ◌≡◌, refl, true, none, some, String, length, All}
use cards.Prelude.Text.{split, is_digit, digits_from}
use cards.Errors.{Result, ok, err, plain, is_dropped}
use cards.Client.{PaymentInstructions}
use cards.Amount.{decimal_to_stroops, is_decimal}
use cards.Soroban.{public_network, usdc, pay_usdc, select_contract_call, get_soroban_rpc_url}
use cards.Soroban.Build.{
  ContractCall, Transaction, RpcServer, priced, BuildOpts, build_contract_payment_tx, next_sequence,
  IsBuilt, build_contract_payment_tx-IsBuilt,
}
use cards.Pay.{Attempt, Run, PayOpts, contract_call, required_fee, pay_via_contract_ows}
use cards.Pay.Once.{IsAsked, pay_via_contract_ows-SameCall}
use cards.Pay.Raw.{pay_via_contract}

abbrev payment : PaymentInstructions
payment = record {
  contract_id = "CARDS";
  order_id = "order-1";
  usdc_amount = "10.50";
  usdc_asset = "USDC";
  xlm_amount = none;
}

abbrev opts : PayOpts
opts = record { payment = payment; asset = usdc; network = public_network; rpc_url = none }

abbrev server : RpcServer
server = record {
  Resources = ℕ;
  get_account = λ url key. ok 41;
  simulate = λ url tx. ok (priced 7);
  assemble = λ tx n. record tx { fee = "107" };
  assemble_call = λ tx n. refl;
  assemble_sequence = λ tx n. refl;
}

abbrev call : ContractCall
call = record {
  contract_id = "CARDS";
  fn = pay_usdc;
  from_public_key = "GKEY";
  amount_stroops = 105_000_000;
  order_id = "order-1";
  network = public_network;
}

abbrev tx : Transaction
tx = record { call = call; sequence = 42; fee = "107" }

-- The first submission is dropped and the second one goes through.
abbrev submit : ℕ → Transaction → Result String
submit zero t = err (plain "Error" "not found on-chain" (some "h1") true)
submit (suc n) t = ok "h2"

abbrev first : Attempt
first = record { tx = tx; outcome = submit 0 tx }

abbrev second : Attempt
second = record { tx = tx; outcome = submit 1 tx }

-- Only `tx` is applied, and none of the submissions is refused for its fee.
abbrev Applied : Transaction → Type 0
Applied t = t ≡ tx

abbrev run : Run
run = pay_via_contract_ows (λ c. true) (ok "GKEY") server submit opts

pay_via_contract_ows-SameCall_example :
    (length run.submitted ≤ 3)
    × All (λ a. IsAsked (λ c. true) (ok "GKEY") opts a.tx.call) run.submitted
pay_via_contract_ows-SameCall_example =
    pay_via_contract_ows-SameCall server submit (λ c. true) (ok "GKEY") opts

-- A raw key does not retry what was dropped, and retries what was refused for its fee.
raw_dropped : length (pay_via_contract (λ c. true) (ok "GKEY") server submit opts).submitted ≡ 1
unfolding pay_via_contract contract_call select_contract_call decimal_to_stroops is_decimal
    build_contract_payment_tx next_sequence get_soroban_rpc_url is_dropped split is_digit
    digits_from required_fee
raw_dropped = refl

abbrev build : BuildOpts
build = record { call = call; rpc_url = none; preserved_sequence = some 42; fee = none }

built : build_contract_payment_tx server build ≡ ok tx
unfolding build_contract_payment_tx next_sequence get_soroban_rpc_url
built = refl

build_contract_payment_tx-IsBuilt_example : IsBuilt server build tx
build_contract_payment_tx-IsBuilt_example = build_contract_payment_tx-IsBuilt server build tx built
