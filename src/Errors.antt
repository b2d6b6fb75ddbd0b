-- ===== src/Errors.antt =====
-- sdk/src/errors.ts: what the SDK throws, as one data type with a constructor for each class, and
-- `parse_api_error`. Plain `Error` objects, and the two properties that the payment code hangs on
-- them, are the constructor `plain`. The `raw` body and the `cause`, which nothing reads, are left out.
pub mod Api
pub mod Tests
use cards.Prelude.{
  ℕ, ◌/◌, ◌%◌, ◌*◌, ◌+◌, ◌-◌, zero, suc, Bool, true, false, Option, none, some, String, ◌==◌,
  str_eq, get_or, if◌then◌else◌, ◌≡◌, refl, ◌⊎◌, inl, inr,
}
use Prim.Native.String.{◌++◌}

pub data Phase : Type 0 where
  unpaid paid : Phase

pub data Error : Type 0 where
  cards402_error : (message code : String) → (status : ℕ) → Error
  spend_limit : (limit spent : String) → Error
  rate_limit : (message : String) → Error
  service_unavailable : (message : String) → Error
  price_unavailable : (message : String) → Error
  invalid_amount : (message : String) → Error
  auth : Error
  order_failed : (order_id reason : String) → (refund : Option String) → Error
  resumable : (order_id reason : String) → Phase → (tx_hash : Option String) → Error
  wait_timeout : (order_id : String) → (timeout_ms : ℕ) → Error
  insufficient_fee : (required_fee : String) → Error
  plain : (name message : String) → (tx_hash : Option String) → (dropped : Bool) → Error

pub data Result {ℓ} (A : Type ℓ) : Type ℓ where
  ok : A → Result A
  err : Error → Result A

pub Result-cases {ℓ} :
    {A : Type ℓ} (r : Result A) → ((a : A) × (r ≡ ok a)) ⊎ ((e : Error) × (r ≡ err e))
Result-cases (ok a) = inl (a, refl)
Result-cases (err e) = inr (e, refl)

pub ok_inj : {A : Type 0} {a b : A} → ◌≡◌ {A = Result A} (ok a) (ok b) → a ≡ b
ok_inj e = cc

pub err_ok : {A B : Type 0} {e : Error} {b : B} → ◌≡◌ {A = Result B} (err e) (ok b) → A
err_ok e = cc

infixl 5 ◌>>=◌
abbrev pub ◌>>=◌ {ℓ κ} : {A : Type ℓ} {B : Type κ} → Result A → (A → Result B) → Result B
ok a >>= f = f a
err e >>= f = err e

-- `new Error(message)`.
abbrev pub error : String → Error
error message = plain "Error" message none false

-- `err instanceof Cards402Error`.
unfoldable pub is_cards402 : Error → Bool
is_cards402 (insufficient_fee fee) = false
is_cards402 (plain name message tx_hash dropped) = false
is_cards402 _ = true

-- `err instanceof OrderFailedError`.
unfoldable pub is_order_failed : Error → Bool
is_order_failed (order_failed order_id reason refund) = true
is_order_failed _ = false

-- `err instanceof WaitTimeoutError`.
unfoldable pub is_wait_timeout : Error → Bool
is_wait_timeout (wait_timeout order_id timeout_ms) = true
is_wait_timeout _ = false

-- `err instanceof InsufficientFeeError`.
unfoldable pub is_insufficient_fee : Error → Bool
is_insufficient_fee (insufficient_fee fee) = true
is_insufficient_fee _ = false

-- The properties `txHash` and `dropped` that a plain error may have.
unfoldable pub attached_hash : Error → Option String
attached_hash (plain name m tx_hash dropped) = tx_hash
attached_hash (resumable order_id reason phase tx_hash) = tx_hash
attached_hash _ = none

unfoldable pub is_dropped : Error → Bool
is_dropped (plain name m tx_hash dropped) = dropped
is_dropped _ = false

-- The `code` of a `Cards402Error`.
unfoldable pub code : Error → Option String
code (cards402_error message c status) = some c
code (spend_limit limit spent) = some "spend_limit_exceeded"
code (rate_limit message) = some "rate_limit_exceeded"
code (service_unavailable message) = some "service_temporarily_unavailable"
code (price_unavailable message) = some "price_unavailable"
code (invalid_amount message) = some "invalid_amount"
code auth = some "invalid_api_key"
code (order_failed order_id reason refund) = some "order_failed"
code (resumable order_id reason phase tx_hash) = some "resumable"
code (wait_timeout order_id timeout_ms) = some "wait_timeout"
code (insufficient_fee fee) = none
code (plain name message tx_hash dropped) = none

-- The `status` of a `Cards402Error`.
unfoldable pub status : Error → Option ℕ
status (cards402_error message c s) = some s
status (spend_limit limit spent) = some 403
status (rate_limit message) = some 429
status (service_unavailable message) = some 503
status (price_unavailable message) = some 503
status (invalid_amount message) = some 400
status auth = some 401
status (order_failed order_id reason refund) = some 200
status (resumable order_id reason phase tx_hash) = some 0
status (wait_timeout order_id timeout_ms) = some 408
status (insufficient_fee fee) = none
status (plain name message tx_hash dropped) = none

digit : ℕ → String
digit d =
    if d == 0
    then "0"
    else if d == 1
    then "1"
    else if d == 2
    then "2"
    else if d == 3
    then "3"
    else if d == 4
    then "4"
    else if d == 5
    then "5"
    else if d == 6
    then "6"
    else if d == 7
    then "7"
    else if d == 8
    then "8"
    else "9"

-- A number in decimal. A number has at most as many digits as the fuel, which is the number plus one.
decimal_from : ℕ → ℕ → String → String
decimal_from zero n out = out
decimal_from (suc fuel) n out =
    let rest = decimal_from fuel (n / 10) (digit (n % 10) ++ out) in
    if n / 10 == 0 then digit (n % 10) ++ out else rest

unfoldable pub decimal : ℕ → String
unfolding digit decimal_from
decimal n = decimal_from (n + 1) n ""

-- `${timeoutMs / 1000}`, with no trailing zeros.
unfoldable pub seconds : ℕ → String
unfolding decimal digit
seconds ms =
    if ms % 1000 == 0
    then decimal (ms / 1000)
    else decimal (ms / 1000)
      ++ ("."
          ++ (digit (ms / 100 % 10)
              ++ (if ms % 100 == 0
                  then ""
                  else digit (ms / 10 % 10) ++ (if ms % 10 == 0 then "" else digit (ms % 10)))))

refund_note : Option String → String
refund_note none = " A refund will be processed if payment was received."
refund_note (some txid) = " Your payment is being refunded (txid: " ++ (txid ++ ").")

hash_note : Option String → String
hash_note none = ""
hash_note (some tx_hash) = if str_eq tx_hash "" then "" else " (tx: " ++ (tx_hash ++ ")")

-- `err.message`.
unfoldable pub message : Error → String
unfolding seconds refund_note hash_note
message (cards402_error m c status) = m
message (spend_limit limit spent) =
    "Spend limit exceeded: $"
    ++ (spent
        ++ (" spent of $"
            ++ (limit
                ++ " limit. Ask your operator to raise the limit or wait for the next reset period.")))
message (rate_limit m) = m
message (service_unavailable m) = m
message (price_unavailable m) = m
message (invalid_amount m) = m
message auth =
    "Invalid or missing API key. Pass it as the X-Api-Key header, or set CARDS402_API_KEY."
message (order_failed order_id reason refund) =
    "Order " ++ (order_id ++ (" failed: " ++ (reason ++ ("." ++ refund_note refund))))
message (resumable order_id reason phase tx_hash) =
    "Purchase could not finish for order "
    ++ (order_id
        ++ (": "
            ++ (reason
                ++ (hash_note tx_hash
                    ++ (". Resume with: cards402 purchase --resume " ++ order_id)))))
message (wait_timeout order_id timeout_ms) =
    "Timed out waiting for card after "
    ++ (seconds timeout_ms
        ++ ("s (order: "
            ++ (order_id ++ "). Poll GET /v1/orders/:id to check status — it may still complete.")))
message (insufficient_fee fee) =
    "Soroban transaction rejected: fee too low (network requires " ++ (fee ++ " stroops)")
message (plain name m tx_hash dropped) = m

-- The fields of an error body that `parse_api_error` reads, each as `String(field)`; `none` for a
-- field that is null or not there.
pub record ApiBody : Type 0 where
  pub error_field : Option String
  pub message_field : Option String
  pub limit : Option String
  pub spent : Option String

-- The `switch` of `parse_api_error`.
unfoldable pub error_of_code : (code message : String) → ℕ → ApiBody → Error
error_of_code c m s body =
    if str_eq c "spend_limit_exceeded"
    then spend_limit (get_or body.limit "?") (get_or body.spent "?")
    else if str_eq c "rate_limit_exceeded"
    then rate_limit m
    else if str_eq c "service_temporarily_unavailable"
    then service_unavailable m
    else if str_eq c "price_unavailable"
    then price_unavailable m
    else if str_eq c "xlm_price_unavailable"
    then price_unavailable m
    else if str_eq c "invalid_amount"
    then invalid_amount m
    else if str_eq c "missing_api_key"
    then auth
    else if str_eq c "invalid_api_key"
    then auth
    else cards402_error m c s

unfoldable pub parse_api_error : ℕ → ApiBody → Error
parse_api_error s body =
    error_of_code (get_or body.error_field "unknown")
      (get_or body.message_field (get_or body.error_field "Unknown error")) s body
