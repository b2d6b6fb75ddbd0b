-- ===== src/Soroban.antt =====
-- sdk/src/soroban.ts: the Soroban payment helpers. `decimalToStroops` is in Amount.
pub mod Build
pub mod Submit
pub mod Tests
use cards.Prelude.{
  ℕ, Bool, true, false, Option, none, some, String, str_eq, if◌then◌else◌, truthy, ◌≡◌, refl,
  get_or,
}
use cards.Errors.{Result, ok, err, error}
use cards.Client.{PaymentInstructions}

-- The network passphrase that the SDK compares with, `Networks.TESTNET` of stellar-sdk, or another.
pub data Network : Type 0 where
  public_network testnet : Network

pub data Asset : Type 0 where
  usdc xlm : Asset

pub data PaymentFn : Type 0 where
  pay_usdc pay_xlm : PaymentFn

unfoldable pub get_soroban_rpc_url : Network → String
get_soroban_rpc_url testnet = "https://soroban-testnet.stellar.org"
get_soroban_rpc_url public_network = "https://mainnet.sorobanrpc.com"

-- Without a network it is the main one.
unfoldable pub get_horizon_url : Option Network → String
get_horizon_url (some testnet) = "https://horizon-testnet.stellar.org"
get_horizon_url _ = "https://horizon.stellar.org"

-- The function to call, and the decimal amount to call it with.
unfoldable pub select_contract_call : PaymentInstructions → Asset → Result (PaymentFn × String)
select_contract_call payment xlm =
    if truthy payment.xlm_amount
    then ok (pay_xlm, get_or payment.xlm_amount "")
    else err (error "Order response does not include an XLM quote")
select_contract_call payment usdc = ok (pay_usdc, payment.usdc_amount)
