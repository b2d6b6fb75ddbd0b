-- ===== src/Fulfillment/Claims.antt =====
-- What `handlePayment` (backend/src/payment-handler.js) makes of a payment event.
use cards.Prelude.{
  ℕ, ◌≡◌, ◌≢◌, refl, String, true, false, Option, none, some, [], ◌∷◌, str_eq, str_cases,
  Bool-cases, inl, inr, arith,
}
use cards.Prelude.Text.{Text}
use cards.Decimal.{
  to_stroops, compare_decimal, parse_strict_positive_stroops, Comparison, less, same, more,
}
use cards.Fulfillment.{
  Order, Status, State, Payment, Reason, unknown_order, order_status, corrupt_order, underpaid_usdc,
  xlm_not_quoted, underpaid_xlm, unknown_asset, pending_payment, is_pending_payment, get_invoice,
  invoice_wanted, make_call, wait_for,
}
use cards.Fulfillment.Handler.{
  record_unmatched_payment, mismatch, raised, excess_of, judge_usdc, check_usdc, judge_xlm,
  check_xlm, check_payment, claimed_row, claim_row, act, handle_row, handle_payment,
}
use cards.Fulfillment.Reasons.{
  Covers, IsFor, Unread, Kept, in_usdc, in_xlm, unread_usdc, unread_xlm, no_row, not_pending,
  no_quote, short_usdc, no_xlm_quote, short_xlm, other_asset, IsEnough-of_compare,
  IsShort-of_compare, IsUnreadable-of_compare,
}

-- What may become of the world.
pub data Handles (p : Payment) (w : State) (u : State) : Type 0 where
  kept : (r : Reason) → Kept p w r → u ≡ record_unmatched_payment p r w → Handles p w u
  unread :
      (o : Order)
      → w.order ≡ some o
      → check_payment p o ≡ raised
      → Unread p w o
      → u ≡ w
      → Handles p w u
  claimed :
      (o : Order) (excess : Option Text)
      → w.order ≡ some o
      → o.status ≡ pending_payment
      → Covers p o
      → u
        ≡ wait_for (invoice_wanted o.amount_usdc p.payment_asset) (
            make_call
              (get_invoice o.amount_usdc)
              (record w { order = some (claimed_row p excess w.now o) }))
      → Handles p w u

check_payment_usdc :
    (p : Payment) (o : Order)
    → p.payment_asset ≡ "usdc_soroban"
    → check_payment p o
      ≡ check_usdc (parse_strict_positive_stroops o.amount_usdc) p.amount_usdc o.amount_usdc
unfolding check_payment
check_payment_usdc p o a = rw a refl

check_payment_xlm :
    (p : Payment) (o : Order)
    → p.payment_asset ≡ "xlm_soroban"
    → check_payment p o ≡ check_xlm p.amount_xlm o.expected_xlm_amount
unfolding check_payment
check_payment_xlm p o a = rw a refl

check_payment_other :
    (p : Payment) (o : Order)
    → str_eq p.payment_asset "usdc_soroban" ≡ false
    → str_eq p.payment_asset "xlm_soroban" ≡ false
    → check_payment p o ≡ mismatch unknown_asset
unfolding check_payment
check_payment_other p o a b = rw (a, b) refl

pending_of : (s : Status) → is_pending_payment s ≡ true → s ≡ pending_payment
pending_of s h = ground arith

not_pending_of : (s : Status) → is_pending_payment s ≡ false → s ≢ pending_payment
not_pending_of s h = λ e. ground arith

cons_nil : (c : ℕ) (s : Text) → (c ∷ s) ≢ []
cons_nil c s = λ e. cc

module _ (p : Payment) (w : State) (o : Order) (row : w.order ≡ some o)
    (open_row : o.status ≡ pending_payment) where
  is_for : {coin : String} → p.payment_asset ≡ coin → IsFor coin p w o
  is_for a = record { row = row; pending = open_row; asset = a }

  claim-Handles : (excess : Option Text) → Covers p o → Handles p w (claim_row p excess o w.order w)
  claim-Handles excess c = claimed o excess row open_row c (ground arith)

  judge_usdc-Handles :
      (n : ℕ) (c : Option Comparison) (excess : Option Text)
      → p.payment_asset ≡ "usdc_soroban"
      → parse_strict_positive_stroops o.amount_usdc ≡ some n
      → compare_decimal p.amount_usdc o.amount_usdc ≡ c
      → check_payment p o ≡ judge_usdc c excess
      → Handles p w (act p o (judge_usdc c excess) w)
  judge_usdc-Handles n none excess a q e v =
      unread o row v (unread_usdc (is_for a) (IsUnreadable-of_compare _ _ e)) refl
  judge_usdc-Handles n (some less) excess a q e v =
      kept underpaid_usdc (short_usdc o (is_for a) (IsShort-of_compare _ _ e) refl) refl
  judge_usdc-Handles n (some same) excess a q e v =
      claim-Handles none
        (in_usdc n a q (IsEnough-of_compare p.amount_usdc o.amount_usdc same e refl))
  judge_usdc-Handles n (some more) excess a q e v =
      claim-Handles excess
        (in_usdc n a q (IsEnough-of_compare p.amount_usdc o.amount_usdc more e refl))

  check_usdc-Handles :
      (n : Option ℕ)
      → p.payment_asset ≡ "usdc_soroban"
      → parse_strict_positive_stroops o.amount_usdc ≡ n
      → check_payment p o ≡ check_usdc n p.amount_usdc o.amount_usdc
      → Handles p w (act p o (check_usdc n p.amount_usdc o.amount_usdc) w)
  check_usdc-Handles none a q v = kept corrupt_order (no_quote o (is_for a) q refl) refl
  check_usdc-Handles (some n) a q v =
      judge_usdc-Handles n (compare_decimal p.amount_usdc o.amount_usdc)
        (excess_of (to_stroops p.amount_usdc) (to_stroops o.amount_usdc)) a q refl v

  judge_xlm-Handles :
      (quote : Text) (c : Option Comparison)
      → p.payment_asset ≡ "xlm_soroban"
      → o.expected_xlm_amount ≡ some quote
      → quote ≢ []
      → compare_decimal p.amount_xlm (some quote) ≡ c
      → check_payment p o ≡ judge_xlm c
      → Handles p w (act p o (judge_xlm c) w)
  judge_xlm-Handles quote none a q n e v =
      unread o row v (unread_xlm quote (is_for a) q (IsUnreadable-of_compare _ _ e)) refl
  judge_xlm-Handles quote (some less) a q n e v =
      kept underpaid_xlm (short_xlm o quote (is_for a) q n (IsShort-of_compare _ _ e) refl) refl
  judge_xlm-Handles quote (some same) a q n e v =
      claim-Handles none
        (in_xlm quote a q n (IsEnough-of_compare p.amount_xlm (some quote) same e refl))
  judge_xlm-Handles quote (some more) a q n e v =
      claim-Handles none
        (in_xlm quote a q n (IsEnough-of_compare p.amount_xlm (some quote) more e refl))

  check_xlm-Handles :
      (x : Option Text)
      → p.payment_asset ≡ "xlm_soroban"
      → o.expected_xlm_amount ≡ x
      → check_payment p o ≡ check_xlm p.amount_xlm x
      → Handles p w (act p o (check_xlm p.amount_xlm x) w)
  check_xlm-Handles none a e v = kept xlm_not_quoted (no_xlm_quote o (is_for a) (inl e) refl) refl
  check_xlm-Handles (some []) a e v =
      kept xlm_not_quoted (no_xlm_quote o (is_for a) (inr e) refl) refl
  check_xlm-Handles (some (c ∷ s)) a e v =
      judge_xlm-Handles (c ∷ s) (compare_decimal p.amount_xlm (some (c ∷ s))) a e (cons_nil c s)
        refl v

  check_payment-Handles : Handles p w (act p o (check_payment p o) w)
  check_payment-Handles = elim (str_cases p.payment_asset "usdc_soroban") [
    | inl a ↦ rw (check_payment_usdc p o a) (
        check_usdc-Handles (parse_strict_positive_stroops o.amount_usdc) a refl
          (check_payment_usdc p o a))
    | inr n ↦ elim (str_cases p.payment_asset "xlm_soroban") [
      | inl a ↦
          rw (check_payment_xlm p o a)
            (check_xlm-Handles o.expected_xlm_amount a refl (check_payment_xlm p o a))
      | inr m ↦
          rw (check_payment_other p o n m)
            (kept unknown_asset (other_asset o row open_row n m refl) refl)
    ]
  ]

handle_row-Handles :
    (p : Payment) (w : State) (o : Option Order) → w.order ≡ o → Handles p w (handle_row p o w)
handle_row-Handles p w none e = kept unknown_order (no_row e refl) refl
handle_row-Handles p w (some o) e = elim (Bool-cases (is_pending_payment o.status)) [
  | inl b ↦ rw (b, handle_row) (check_payment-Handles p w o e (pending_of o.status b))
  | inr b ↦
      rw (b, handle_row)
        (kept (order_status o.status) (not_pending o e (not_pending_of o.status b) refl) refl)
]

-- Every payment event is accounted for in one of three ways. It is kept apart in the unmatched
-- payments, once, with a reason that holds: there is no order, the order does not wait for a payment,
-- its quote in USDC is no amount above zero or the USDC are fewer, it has no quote in XLM or the XLM
-- are fewer, or the coin is another; neither the order nor a call is touched. Or the order waited for
-- its payment, but the amount that was paid or the one that is quoted cannot be read, and nothing is
-- written. Or the order waited for its payment and the payment, in USDC or in
-- XLM, covers in stroops what the order quotes in that coin (a decimal above zero in USDC, a text
-- that is not empty in XLM), and then the order is claimed, the payment recorded in its row and the
-- invoice asked for, once.
pub handle_payment-Handles : (p : Payment) (w : State) → Handles p w (handle_payment p w)
unfolding handle_payment
handle_payment-Handles p w = handle_row-Handles p w w.order refl
