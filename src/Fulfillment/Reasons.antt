-- ===== src/Fulfillment/Reasons.antt =====
-- What handlePayment (backend/src/payment-handler.js) may find of a payment: that it covers the order's
-- quote, why it is kept apart, or that an amount cannot be read.
use cards.Prelude.{
  ℕ, ◌≡◌, ◌≢◌, ◌⊎◌, refl, String, Bool, true, false, Option, none, some, [], str_eq, inl, inr,
  arith,
}
use cards.Prelude.Text.{Text}
use cards.Decimal.{
  to_stroops, compare_decimal, compare_stroops, parse_strict_positive_stroops, Comparison, less,
  same, more,
}
use cards.Decimal.Int.{ℤ, ltb_ℤ}
use cards.Fulfillment.{
  Order, State, Payment, Reason, unknown_order, order_status, corrupt_order, underpaid_usdc,
  xlm_not_quoted, underpaid_xlm, unknown_asset, pending_payment,
}

-- The amount is at least the one that the order asks for, in stroops.
pub record IsEnough (amount expected : Option Text) : Type 0 where
  pub paid : ℤ
  pub asked : ℤ
  pub paid_eq : to_stroops amount ≡ some paid
  pub asked_eq : to_stroops expected ≡ some asked
  pub enough : ltb_ℤ paid asked ≡ false

-- The payment is in one of the two coins and covers what the row asks for in that coin.
pub data Covers (p : Payment) (o : Order) : Type 0 where
  in_usdc :
      (n : ℕ)
      → p.payment_asset ≡ "usdc_soroban"
      → parse_strict_positive_stroops o.amount_usdc ≡ some n
      → IsEnough p.amount_usdc o.amount_usdc
      → Covers p o
  in_xlm :
      (quote : Text)
      → p.payment_asset ≡ "xlm_soroban"
      → o.expected_xlm_amount ≡ some quote
      → quote ≢ []
      → IsEnough p.amount_xlm (some quote)
      → Covers p o

-- The order waits for its payment, which came in the coin.
pub record IsFor (coin : String) (p : Payment) (w : State) (o : Order) : Type 0 where
  pub row : w.order ≡ some o
  pub pending : o.status ≡ pending_payment
  pub asset : p.payment_asset ≡ coin

-- An amount that is fewer stroops than another.
pub record IsShort (amount expected : Option Text) : Type 0 where
  pub paid : ℤ
  pub asked : ℤ
  pub paid_eq : to_stroops amount ≡ some paid
  pub asked_eq : to_stroops expected ≡ some asked
  pub short : ltb_ℤ paid asked ≡ true

-- One of two amounts is not a number of stroops.
abbrev IsUnreadable : Option Text → Option Text → Type 0
IsUnreadable amount expected = (to_stroops amount ≡ none) ⊎ (to_stroops expected ≡ none)

-- The order waits for the payment, and its quote or what was paid cannot be read.
pub data Unread (p : Payment) (w : State) (o : Order) : Type 0 where
  unread_usdc : IsFor "usdc_soroban" p w o → IsUnreadable p.amount_usdc o.amount_usdc → Unread p w o
  unread_xlm :
      (quote : Text)
      → IsFor "xlm_soroban" p w o
      → o.expected_xlm_amount ≡ some quote
      → IsUnreadable p.amount_xlm (some quote)
      → Unread p w o

-- Why a payment is kept apart.
pub data Kept (p : Payment) (w : State) (r : Reason) : Type 0 where
  no_row : w.order ≡ none → r ≡ unknown_order → Kept p w r
  not_pending :
      (o : Order)
      → w.order ≡ some o
      → o.status ≢ pending_payment
      → r ≡ order_status o.status
      → Kept p w r
  no_quote :
      (o : Order)
      → IsFor "usdc_soroban" p w o
      → parse_strict_positive_stroops o.amount_usdc ≡ none
      → r ≡ corrupt_order
      → Kept p w r
  short_usdc :
      (o : Order)
      → IsFor "usdc_soroban" p w o
      → IsShort p.amount_usdc o.amount_usdc
      → r ≡ underpaid_usdc
      → Kept p w r
  no_xlm_quote :
      (o : Order)
      → IsFor "xlm_soroban" p w o
      → (o.expected_xlm_amount ≡ none) ⊎ (o.expected_xlm_amount ≡ some [])
      → r ≡ xlm_not_quoted
      → Kept p w r
  short_xlm :
      (o : Order) (quote : Text)
      → IsFor "xlm_soroban" p w o
      → o.expected_xlm_amount ≡ some quote
      → quote ≢ []
      → IsShort p.amount_xlm (some quote)
      → r ≡ underpaid_xlm
      → Kept p w r
  other_asset :
      (o : Order)
      → w.order ≡ some o
      → o.status ≡ pending_payment
      → str_eq p.payment_asset "usdc_soroban" ≡ false
      → str_eq p.payment_asset "xlm_soroban" ≡ false
      → r ≡ unknown_asset
      → Kept p w r

abbrev is_less : Comparison → Bool
is_less less = true
is_less same = false
is_less more = false

compare_stroops-ltb :
    (a b : ℤ) (c : Comparison)
    → compare_stroops (some a) (some b) ≡ some c
    → is_less c ≡ false
    → ltb_ℤ a b ≡ false
compare_stroops-ltb a b c h l = ground arith

IsEnough-of_stroops :
    (amount expected : Option Text) (a b : Option ℤ) (c : Comparison)
    → to_stroops amount ≡ a
    → to_stroops expected ≡ b
    → compare_stroops a b ≡ some c
    → is_less c ≡ false
    → IsEnough amount expected
IsEnough-of_stroops amount expected none b c ea eb h l = cc
IsEnough-of_stroops amount expected (some a) none c ea eb h l = cc
IsEnough-of_stroops amount expected (some a) (some b) c ea eb h l = record {
  paid = a;
  asked = b;
  paid_eq = ea;
  asked_eq = eb;
  enough = compare_stroops-ltb a b c h l;
}

-- Two amounts that compare, and not as less, are enough.
pub IsEnough-of_compare :
    (amount expected : Option Text) (c : Comparison)
    → compare_decimal amount expected ≡ some c
    → is_less c ≡ false
    → IsEnough amount expected
unfolding compare_decimal
IsEnough-of_compare amount expected c h l =
    IsEnough-of_stroops amount expected (to_stroops amount) (to_stroops expected) c refl refl h l

compare_stroops-short : (a b : ℤ) → compare_stroops (some a) (some b) ≡ some less → ltb_ℤ a b ≡ true
compare_stroops-short a b h = ground arith

IsShort-of_stroops :
    (amount expected : Option Text) (a b : Option ℤ)
    → to_stroops amount ≡ a
    → to_stroops expected ≡ b
    → compare_stroops a b ≡ some less
    → IsShort amount expected
IsShort-of_stroops amount expected none b ea eb h = cc
IsShort-of_stroops amount expected (some a) none ea eb h = cc
IsShort-of_stroops amount expected (some a) (some b) ea eb h = record {
  paid = a;
  asked = b;
  paid_eq = ea;
  asked_eq = eb;
  short = compare_stroops-short a b h;
}

pub IsShort-of_compare :
    (amount expected : Option Text)
    → compare_decimal amount expected ≡ some less
    → IsShort amount expected
unfolding compare_decimal
IsShort-of_compare amount expected h =
    IsShort-of_stroops amount expected (to_stroops amount) (to_stroops expected) refl refl h

IsUnreadable-of_stroops :
    (amount expected : Option Text) (a b : Option ℤ)
    → to_stroops amount ≡ a
    → to_stroops expected ≡ b
    → compare_stroops a b ≡ none
    → IsUnreadable amount expected
IsUnreadable-of_stroops amount expected none b ea eb h = inl ea
IsUnreadable-of_stroops amount expected (some a) none ea eb h = inr eb
IsUnreadable-of_stroops amount expected (some a) (some b) ea eb h = cc

pub IsUnreadable-of_compare :
    (amount expected : Option Text)
    → compare_decimal amount expected ≡ none
    → IsUnreadable amount expected
unfolding compare_decimal
IsUnreadable-of_compare amount expected h =
    IsUnreadable-of_stroops amount expected (to_stroops amount) (to_stroops expected) refl refl h
