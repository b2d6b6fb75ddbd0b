-- ===== src/Pay/Once.antt =====
-- `payViaContractOWS` of sdk/src/ows.ts pays at most once.
use cards.Prelude.{
  ℕ, zero, suc, ◌+◌, ◌≤◌, ◌≡◌, sym, ap, ◌∙◌, inl, inr, Bool, true, Option, none, some, List, [],
  ◌∷◌, String, arith, length, All, ◌≢◌, refl, subst, get_or, str_cases, truthy, str_eq,
  if◌then◌else◌, not, false,
}
use cards.Errors.{Error, Result, ok, err, ◌>>=◌, Result-cases}
use cards.Amount.{decimal_to_stroops}
use cards.Client.{PaymentInstructions}
use cards.Soroban.{Asset, usdc, xlm, PaymentFn, pay_usdc, pay_xlm, select_contract_call}
use cards.Soroban.Build.{
  ContractCall, Transaction, RpcServer, ok_inj, build_contract_payment_tx-IsBuilt,
}
use cards.Pay.{Attempt, Run, PayOpts, contract_call, pay_from, pay_via_contract_ows}
use cards.Pay.Sequence.{pay_from-cases, pay_from_last}

-- The function and the amount that pay in a coin.
abbrev pub Quotes : PaymentInstructions → Asset → PaymentFn → String → Type 0
Quotes p usdc fn amount = (fn ≡ pay_usdc) × (amount ≡ p.usdc_amount)
Quotes p xlm fn amount = (fn ≡ pay_xlm) × (p.xlm_amount ≡ some amount) × (amount ≢ "")

-- The call is the one that the options ask for.
pub record IsAsked (is_valid_contract : String → Bool) (public_key : Result String) (opts : PayOpts)
    (c : ContractCall) : Type 0 where
  pub contract : c.contract_id ≡ opts.payment.contract_id
  pub valid : is_valid_contract opts.payment.contract_id ≡ true
  pub key : public_key ≡ ok c.from_public_key
  pub order : c.order_id ≡ opts.payment.order_id
  pub network : c.network ≡ opts.network
  pub amount : String
  pub quoted : Quotes opts.payment opts.asset c.fn amount
  pub stroops : decimal_to_stroops amount ≡ ok c.amount_stroops

module _ (server : RpcServer) (submit : ℕ → Transaction → Result String) where
  abbrev SameCall : ContractCall → ℕ → Run → Type 0
  SameCall call n run = All (λ a. a.tx.call ≡ call) run.submitted × (length run.submitted ≤ n)

  pay_from-SameCall :
      (call : ContractCall) (rpc_url : Option String) (left i : ℕ) (p : Option ℕ)
      (f : Option String)
      → SameCall call (suc left) (pay_from server submit call rpc_url left i p f)
  pay_from-SameCall call rpc_url zero i p f =
      pay_from_last server submit call rpc_url (SameCall call 1) i p f (λ e. (tt, omega arith))
        (λ tx b. (((build_contract_payment_tx-IsBuilt server _ tx b).call, tt), omega arith))
  pay_from-SameCall call rpc_url (suc left) i p f =
      pay_from-cases server submit call rpc_url (SameCall call (suc (suc left))) left i p f
        (λ e. (tt, omega arith))
        (λ tx b. (((build_contract_payment_tx-IsBuilt server _ tx b).call, tt), omega arith))
        (λ tx e fee b s q.
          let (same, short) = pay_from-SameCall call rpc_url left (i + 1) p (some fee) in
          (((build_contract_payment_tx-IsBuilt server _ tx b).call, same), omega arith))
        (λ tx e b s d.
          let (same, short) = pay_from-SameCall call rpc_url left (i + 1) (some tx.sequence) f in
          (((build_contract_payment_tx-IsBuilt server _ tx b).call, same), omega arith))

  module _ (is_valid_contract : String → Bool) (public_key : Result String) (opts : PayOpts) where
    abbrev run : Run
    run = pay_via_contract_ows is_valid_contract public_key server submit opts

    run-contract_call :
        (length run.submitted ≤ 3)
        × All (λ a. contract_call is_valid_contract public_key opts ≡ ok a.tx.call) run.submitted
    unfolding pay_via_contract_ows
    run-contract_call = elim (Result-cases (contract_call is_valid_contract public_key opts)) [
      | inr (e, c) ↦ rw (c, pay_via_contract_ows) (omega arith, tt)
      | inl (call, c) ↦
          let (same, short) = pay_from-SameCall call opts.rpc_url 2 0 none none in
          rw (c, pay_via_contract_ows) (short, turned call _ same)
    ]
      where
        turned :
            (call : ContractCall) (xs : List Attempt)
            → All (λ a. a.tx.call ≡ call) xs
            → All (λ a. ◌≡◌ {A = Result ContractCall} (ok call) (ok a.tx.call)) xs
        turned call [] h = tt
        turned call (x ∷ xs) h = (ap ok (sym h.0), turned call xs h.1)

    Quotes-xlm :
        (x : Option String) (fn : PaymentFn) (amount : String) (e : Error)
        → opts.payment.xlm_amount ≡ x
        → if◌then◌else◌ {A = Result (PaymentFn × String)}
            (truthy x)
            (ok (pay_xlm, get_or x ""))
            (err e)
          ≡ ok (fn, amount)
        → Quotes opts.payment xlm fn amount
    Quotes-xlm none fn amount e h q = cc
    Quotes-xlm (some x) fn amount e h q = elim (str_cases x "") [
      | inl z ↦ let f = rw z at (q) in cc
      | inr n ↦
          let f = ok_inj (rw n at (q)) in
          (
            sym (ap (λ (r : PaymentFn × String). r.0) f),
            h ∙ ap (λ (r : PaymentFn × String). some r.1) f,
            λ z. full x n (ap (λ (r : PaymentFn × String). r.1) f ∙ z),
          )
    ]
      where
        full : (x : String) → str_eq x "" ≡ false → x ≢ ""
        full x n z = let f = subst (λ y. str_eq y "" ≡ false) z n in cc

    Quotes-select_contract_call :
        (a : Asset) (fn : PaymentFn) (amount : String)
        → select_contract_call opts.payment a ≡ ok (fn, amount)
        → Quotes opts.payment a fn amount
    unfolding select_contract_call
    Quotes-select_contract_call usdc fn amount e =
        let f = ok_inj e in
        (sym (ap (λ (r : PaymentFn × String). r.0) f), sym (ap (λ (r : PaymentFn × String). r.1) f))
    Quotes-select_contract_call xlm fn amount e =
        Quotes-xlm opts.payment.xlm_amount fn amount _ refl e

    abbrev call_with : String → PaymentFn → ℕ → ContractCall
    call_with key fn amount = record {
      contract_id = opts.payment.contract_id;
      fn = fn;
      from_public_key = key;
      amount_stroops = amount;
      order_id = opts.payment.order_id;
      network = opts.network;
    }

    call_with-IsAsked :
        (c : ContractCall) (b : Bool) (k : Result String) (q : Result (PaymentFn × String))
        (e : Error)
        → is_valid_contract opts.payment.contract_id ≡ b
        → public_key ≡ k
        → select_contract_call opts.payment opts.asset ≡ q
        → (if not b
            then err e
            else k >>= λ key.
                q >>= λ d. decimal_to_stroops d.1 >>= λ amount. ok (call_with key d.0 amount))
          ≡ ok c
        → IsAsked is_valid_contract public_key opts c
    call_with-IsAsked c false k q e v p s h = cc
    call_with-IsAsked c true (err x) q e v p s h = cc
    call_with-IsAsked c true (ok key) (err x) e v p s h = cc
    call_with-IsAsked c true (ok key) (ok (fn, amount)) e v p s h =
        elim (Result-cases (decimal_to_stroops amount)) [
          | inr (x, d) ↦ let f = rw d at (h) in cc
          | inl (n, d) ↦
              subst (IsAsked is_valid_contract public_key opts) (ok_inj (rw d at (h))) (record {
                contract = refl;
                valid = v;
                key = p;
                order = refl;
                network = refl;
                amount = amount;
                quoted = Quotes-select_contract_call opts.asset fn amount s;
                stroops = d;
              })
        ]

    contract_call-IsAsked :
        (c : ContractCall)
        → contract_call is_valid_contract public_key opts ≡ ok c
        → IsAsked is_valid_contract public_key opts c
    unfolding contract_call
    contract_call-IsAsked c e =
        call_with-IsAsked c (is_valid_contract opts.payment.contract_id) public_key
          (select_contract_call opts.payment opts.asset) _ refl refl refl e

    -- At most three transactions are submitted, and each calls the contract that the order's payment
    -- instructions name, whose id is valid, on the network asked for, from the account of the key, with
    -- the order's id, and the function and the amount in stroops of the coin asked for: `pay_usdc` with
    -- the quote in USDC, or `pay_xlm` with the one in XLM, which is there. So where the id, the key or
    -- the quote is refused nothing is submitted.
    pub pay_via_contract_ows-SameCall :
        (length run.submitted ≤ 3)
        × All (λ a. IsAsked is_valid_contract public_key opts a.tx.call) run.submitted
    pay_via_contract_ows-SameCall =
        let (short, calls) = run-contract_call in (short, asked run.submitted calls)
      where
        asked :
            (xs : List Attempt)
            → All (λ a. contract_call is_valid_contract public_key opts ≡ ok a.tx.call) xs
            → All (λ a. IsAsked is_valid_contract public_key opts a.tx.call) xs
        asked [] h = tt
        asked (x ∷ xs) h = (contract_call-IsAsked x.tx.call h.0, asked xs h.1)
