-- ===== src/Fulfillment/Refund.antt =====
-- `scheduleRefund` and `recordRefundSendFailure` of backend/src/fulfillment.js.
use cards.Prelude.{
  Bool, false, ◌||◌, Option, none, some, String, str_eq, truthy, get_or, if◌then◌else◌, [],
}
use cards.Prelude.Text.{Text}
use cards.Decimal.{is_valid_refund_amount, compute_usdc_refund_amount}
use cards.Fulfillment.{
  Order, State, Thrown, Settlement, returned, thrown, Coin, xlm, usdc, send_refund, refund_sent,
  make_call, wait_for, update, with_status, refund_pending, refunded, is_refund, sql_coalesce,
}

abbrev is_asset : String → String → Option String → Bool
is_asset a b none = false
is_asset a b (some s) = str_eq s a || str_eq s b

-- The quoted amount is the fallback for a sum that is no amount.
abbrev pub total_or : Text → Text → Text
total_or total quoted = if is_valid_refund_amount (some total) then total else quoted

-- The coin of the refund and its amount, or nothing when the order is left to the operators.
unfoldable pub refund_amount : Order → Option (Coin × Text)
refund_amount o =
    if is_asset "xlm_soroban" "xlm" o.payment_asset
    then if is_valid_refund_amount o.payment_xlm_amount
      then some (xlm, get_or o.payment_xlm_amount [])
      else none
    else if is_asset "usdc_soroban" "usdc" o.payment_asset
    then if is_valid_refund_amount o.amount_usdc
      then some (
        usdc,
        total_or (compute_usdc_refund_amount o.amount_usdc o.excess_usdc) (get_or o.amount_usdc []),
      )
      else none
    else none

abbrev pub send_coin : String → Option (Coin × Text) → State → State
send_coin destination none w = w
send_coin destination (some (coin, amount)) w =
    wait_for (refund_sent coin amount) (make_call (send_refund coin destination amount) w)

-- A row with no sender is left for manual action.
abbrev pub send_to : Option String → Order → State → State
send_to none o w = w
send_to (some destination) o w =
    if str_eq destination "" then w else send_coin destination (refund_amount o) w

abbrev pub claim_refund : Option Order → State → State
claim_refund none w = w
claim_refund (some o) w =
    if is_refund o.status
    then w
    else send_to o.sender_address o (record w { order = some (with_status refund_pending w.now o) })

unfoldable pub schedule_refund : State → State
schedule_refund w = if w.frozen then w else claim_refund w.order w

unfoldable pub record_refund_send_failure : Thrown → State → State
record_refund_send_failure e w =
    if truthy e.tx_hash
    then update
        (λ o. record o {
          refund_stellar_txid = sql_coalesce o.refund_stellar_txid e.tx_hash;
          updated_at = w.now;
        })
        w
    else w

unfoldable pub refund_replied : Settlement String → State → State
refund_replied (returned hash) w =
    update
      (λ o. record o { status = refunded; refund_stellar_txid = some hash; updated_at = w.now }) w
refund_replied (thrown e) w = record_refund_send_failure e w
