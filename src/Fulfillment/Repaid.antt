-- ===== src/Fulfillment/Repaid.antt =====
-- A payment that was taken and whose order failed is paid back in full: backend/src/payment-handler.js
-- and backend/src/fulfillment.js together.
use cards.Prelude.{
  ℕ, ◌+◌, ◌-◌, ◌≤◌, ◌<◌, ◌≡◌, refl, ap, sym, ◌∙◌, true, false, ◌∷◌, Option, none, some, String,
  str_eq, ltb, arith, if◌then◌else◌, Bool-cases, inl, inr,
}
use cards.Prelude.Text.{Text}
use cards.Decimal.{
  is_valid_refund_amount, stroops_to_decimal, to_stroops_or_zero, compute_usdc_refund_amount,
  compare_decimal, compare_stroops, more, same, signed_decimal,
}
use cards.Decimal.Read.{
  IsWritten, stroops_to_decimal-IsWritten, to_stroops_decimal, to_stroops_or_zero_decimal,
  to_stroops-stroops_to_decimal, to_stroops_or_zero-stroops_to_decimal,
}
use cards.Decimal.Int.{pos, negate, ◌+ℤ◌}
use cards.Decimal.Agrees.{parse_strict_written}
use cards.Decimal.Refundable.{is_valid_written}
use cards.Fulfillment.{
  Order, State, Payment, Coin, usdc, send_refund, pending_payment, sql_coalesce, is_refund,
}
use cards.Fulfillment.Refund.{refund_amount, schedule_refund}
use cards.Fulfillment.Handler.{
  taken, judge_usdc, excess_of, check_payment, claimed_row, handle_payment,
}

-- The excess that the row keeps.
abbrev pub excess_for : ℕ → ℕ → Option Text
excess_for q v = if ltb q v then some (stroops_to_decimal (v - q)) else none

-- A quote of `q` stroops, and a payment of `v` of them.
pub record IsQuoted (o : Order) (q : ℕ) : Type 0 where
  pub text : Text
  pub column : o.amount_usdc ≡ some text
  pub written : IsWritten q text
  pub positive : 0 < q

-- The columns that a refund reads are the same.
pub record Keeps (a b : Order) : Type 0 where
  pub amount : b.amount_usdc ≡ a.amount_usdc
  pub excess : b.excess_usdc ≡ a.excess_usdc
  pub asset : b.payment_asset ≡ a.payment_asset
  pub xlm : b.payment_xlm_amount ≡ a.payment_xlm_amount
  pub sender : b.sender_address ≡ a.sender_address

minus_lem : (q v : ℕ) → 0 < q → ltb q v ≡ true → pos v +ℤ negate (pos q) ≡ pos (v - q)
minus_lem q v p h = ground arith

more_lem : (q v : ℕ) → ltb q v ≡ true → compare_stroops (some (pos v)) (some (pos q)) ≡ some more
more_lem q v h = ground arith

same_lem :
    (q v : ℕ) → q ≤ v → ltb q v ≡ false → compare_stroops (some (pos v)) (some (pos q)) ≡ some same
same_lem q v l h = ground arith

judged :
    (q v : ℕ)
    → 0 < q
    → q ≤ v
    → judge_usdc
        (compare_stroops (some (pos v)) (some (pos q)))
        (excess_of (some (pos v)) (some (pos q)))
      ≡ taken (excess_for q v)
unfolding signed_decimal
judged q v p l = elim (Bool-cases (ltb q v)) [
  | inl b ↦
      ap (λ c. judge_usdc c (excess_of (some (pos v)) (some (pos q)))) (more_lem q v b)
      ∙ ap (λ z. taken (some (signed_decimal z))) (minus_lem q v p b)
      ∙ ap (λ c. taken (if c then some (stroops_to_decimal (v - q)) else none)) (sym b)
  | inr b ↦
      ap (λ c. judge_usdc c (excess_of (some (pos v)) (some (pos q)))) (same_lem q v l b)
      ∙ ap (λ c. taken (if c then some (stroops_to_decimal (v - q)) else none)) (sym b)
]

check_usdc_taken :
    (o : Order) (p : Payment) (q v : ℕ)
    → IsQuoted o q
    → p.payment_asset ≡ "usdc_soroban"
    → p.amount_usdc ≡ some (stroops_to_decimal v)
    → q ≤ v
    → check_payment p o ≡ taken (excess_for q v)
unfolding check_payment compare_decimal
check_usdc_taken o p q v k a m h =
    rw
      (
        a,
        m,
        k.column,
        parse_strict_written q k.text k.written k.positive,
        to_stroops-stroops_to_decimal v,
        to_stroops_decimal k.text k.written.valid k.written.short,
        k.written.exact,
      )
      (judged q v k.positive h)

nothing_zero : to_stroops_or_zero none ≡ 0
unfolding to_stroops_or_zero
nothing_zero = refl

excess_value : (q v : ℕ) → q ≤ v → q + to_stroops_or_zero (excess_for q v) ≡ v
excess_value q v h = elim (Bool-cases (ltb q v)) [
  | inl b ↦ rw (b, to_stroops_or_zero-stroops_to_decimal (v - q)) (ground arith)
  | inr b ↦ rw b (ground (arith, nothing_zero))
]

coalesce_none : (e : Option Text) → sql_coalesce e none ≡ e
coalesce_none none = refl
coalesce_none (some t) = refl

total_lem :
    (o : Order) (q v : ℕ)
    → IsQuoted o q
    → o.excess_usdc ≡ none
    → q ≤ v
    → compute_usdc_refund_amount o.amount_usdc (sql_coalesce (excess_for q v) o.excess_usdc)
      ≡ stroops_to_decimal v
unfolding compute_usdc_refund_amount
total_lem o q v k x h = ap stroops_to_decimal (
    ap (λ (n : ℕ). n + to_stroops_or_zero (sql_coalesce (excess_for q v) o.excess_usdc)) quoted
    ∙ ap (λ (e : Option Text). q + to_stroops_or_zero e)
        (ap (sql_coalesce (excess_for q v)) x ∙ coalesce_none (excess_for q v))
    ∙ excess_value q v h)
  where
    quoted : to_stroops_or_zero o.amount_usdc ≡ q
    quoted =
        rw k.column
          (to_stroops_or_zero_decimal k.text k.written.valid k.written.short ∙ k.written.exact)

is_valid_total : (v : ℕ) → 0 < v → is_valid_refund_amount (some (stroops_to_decimal v)) ≡ true
is_valid_total v h = is_valid_written v (stroops_to_decimal v) (stroops_to_decimal-IsWritten v) h

-- The row of a payment that was taken holds a refund of all that was paid.
refund_of_claimed :
    (o : Order) (p : Payment) (q v now : ℕ)
    → IsQuoted o q
    → o.excess_usdc ≡ none
    → p.payment_asset ≡ "usdc_soroban"
    → q ≤ v
    → refund_amount (claimed_row p (excess_for q v) now o) ≡ some (usdc, stroops_to_decimal v)
unfolding refund_amount
refund_of_claimed o p q v now k x a h =
    rw
      (
        a,
        total_lem o q v k x h,
        is_valid_total v (omega (arith, k.positive)),
        k.column,
        is_valid_written q k.text k.written k.positive,
      )
      refl

refund_amount-Keeps : (a b : Order) → Keeps a b → refund_amount b ≡ refund_amount a
unfolding refund_amount
refund_amount-Keeps a b k = rw (k.amount, k.excess, k.asset, k.xlm) refl

claimed_order :
    (p : Payment) (e : Option Text) (w : State) (o : Order)
    → w.order ≡ some o
    → o.status ≡ pending_payment
    → check_payment p o ≡ taken e
    → (handle_payment p w).order ≡ some (claimed_row p e w.now o)
unfolding handle_payment
claimed_order p e w o row h c = ground arith

refund_calls :
    (u : State) (later : Order) (d : String) (coin : Coin) (amount : Text)
    → u.order ≡ some later
    → is_refund later.status ≡ false
    → u.frozen ≡ false
    → later.sender_address ≡ some d
    → str_eq d "" ≡ false
    → refund_amount later ≡ some (coin, amount)
    → (schedule_refund u).calls ≡ send_refund coin d amount ∷ u.calls
unfolding schedule_refund
refund_calls u later d coin amount row h f s n r = ground arith

-- An order that quotes `q` stroops of USDC takes a payment of `v` stroops, `v` being no less than
-- `q`. If the order fails later, with the columns of the payment as the handler wrote them, the
-- system not frozen and no refund begun, then the refund asks for exactly the `v` stroops, in USDC and
-- to the address that paid.
pub paid_back_in_full :
    (w : State) (o : Order) (p : Payment) (q v : ℕ) (d : String) (u : State) (later : Order)
    → w.order ≡ some o
    → o.status ≡ pending_payment
    → IsQuoted o q
    → o.excess_usdc ≡ none
    → p.payment_asset ≡ "usdc_soroban"
    → p.amount_usdc ≡ some (stroops_to_decimal v)
    → p.sender_address ≡ some d
    → str_eq d "" ≡ false
    → q ≤ v
    → u.order ≡ some later
    → Keeps (claimed_row p (excess_for q v) w.now o) later
    → is_refund later.status ≡ false
    → u.frozen ≡ false
    → ((handle_payment p w).order ≡ some (claimed_row p (excess_for q v) w.now o))
      × ((schedule_refund u).calls ≡ send_refund usdc d (stroops_to_decimal v) ∷ u.calls)
      × (to_stroops_or_zero (some (stroops_to_decimal v)) ≡ v)
paid_back_in_full w o p q v d u later row h k x a m s n l row' kept r f =
    let claimed = claimed_row p (excess_for q v) w.now o in
    (
      claimed_order p (excess_for q v) w o row h (check_usdc_taken o p q v k a m l),
      refund_calls u later d usdc (stroops_to_decimal v) row' r f (kept.sender ∙ s) n
          (refund_amount-Keeps claimed later kept ∙ refund_of_claimed o p q v w.now k x a l),
      to_stroops_or_zero-stroops_to_decimal v,
    )
