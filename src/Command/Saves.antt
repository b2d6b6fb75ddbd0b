-- ===== src/Command/Saves.antt =====
-- The purchases that `purchaseCommand` (sdk/src/commands/purchase.ts) attempts.
use cards.Prelude.{
  some_inj, none_some, ℕ, ◌≡◌, refl, sym, ap, ◌∙◌, inl, inr, true, false, Option, none, some,
  String, truthy, get_or, Bool-cases, Option-cases, subst,
}
use cards.Errors.{ok_inj, err_ok, Result, ok, Result-cases, order_failed, resumable}
use cards.Amount.{AmountCheck, accepted, malformed, below_cent, above_ceiling, check_amount}
use cards.Purchase.{PurchaseOpts}
use cards.Command.Args.{Args}
use cards.Command.LastOrder.{LastOrderState, Fields, Stored}
use cards.Command.Run.{
  Env, Exit, Config, refuse_args, attempt, with_config, purchase_command, purchase_opts,
  passphrase_missing, or_else,
}

-- The arguments ask for one thing: to resume an order, or to buy for an amount that the checks pass.
pub data Asks (args : Args) : Type 0 where
  to_resume : truthy args.resume ≡ true → truthy args.amount ≡ false → Asks args
  to_buy :
      truthy args.resume ≡ false
      → truthy args.amount ≡ true
      → check_amount (get_or args.amount "") ≡ accepted
      → Asks args

amount-accepted :
    (c : AmountCheck)
    → ◌≡◌ {A = Option ℕ} (elim c [ accepted ↦ none | _ ↦ some 2 ]) none
    → c ≡ accepted
amount-accepted accepted h = refl
amount-accepted malformed h = cc
amount-accepted below_cent h = cc
amount-accepted above_ceiling h = cc

pub refuse_args-none : (args : Args) → refuse_args args ≡ none → Asks args
unfolding refuse_args
refuse_args-none args h = elim (Bool-cases args.help) [
  | inl a ↦ cc_none (rw (a) at (h))
  | inr a ↦ elim (Bool-cases (truthy args.asset_invalid)) [
    | inl b ↦ cc_none (rw (a, b) at (h))
    | inr b ↦ elim (Bool-cases (truthy args.resume)) [
      | inl c ↦ elim (Bool-cases (truthy args.amount)) [
        | inl d ↦ cc_none (rw (a, b, c, d) at (h))
        | inr d ↦ to_resume c d
      ]
      | inr c ↦ elim (Bool-cases (truthy args.amount)) [
        | inr d ↦ cc_none (rw (a, b, c, d) at (h))
        | inl d ↦ to_buy c d (amount-accepted _ (rw (a, b, c, d) at (h)))
      ]
    ]
  ]
]
  where
    cc_none : {n : ℕ} {A : Type 0} → ◌≡◌ {A = Option ℕ} (some n) none → A
    cc_none e = cc

module _ (parse : String → Option Fields) (print : LastOrderState → Stored) where
  attempt-attempted :
      (env : Env) (wallet : String) (opts : PurchaseOpts)
      → (attempt parse print env wallet opts).attempted ≡ some opts
  unfolding attempt
  attempt-attempted env wallet opts = elim (Result-cases (env.purchase wallet opts)) [
    | inl (card, p) ↦ rw (p, attempt) refl
    | inr (order_failed order_id reason refund, p) ↦ rw (p, attempt) refl
    | inr (resumable order_id reason phase tx_hash, p) ↦ rw (p, attempt) refl
    | inr (e, p) ↦ rw (p, attempt) refl
  ]

  -- A purchase that a run attempts is one that the arguments ask for, with a wallet that has a name.
  pub record IsAttempt (env : Env) (args : Args) (x : Exit) (opts : PurchaseOpts) : Type 0 where
    pub asks : Asks args
    pub same : opts ≡ purchase_opts parse print env args
    pub wallet : String
    pub named : truthy (some wallet) ≡ true
    pub ends : x ≡ attempt parse print env wallet (purchase_opts parse print env args)

  truthy-get_or : (o : Option String) → truthy o ≡ true → truthy (some (get_or o "")) ≡ true
  truthy-get_or none h = cc
  truthy-get_or (some s) h = h

  with_config-IsAttempt :
      (env : Env) (args : Args) (config : Config) (opts : PurchaseOpts)
      → Asks args
      → (with_config parse print env args config).attempted ≡ some opts
      → IsAttempt env args (with_config parse print env args config) opts
  unfolding with_config
  with_config-IsAttempt env args config opts asks h =
      elim (Bool-cases (truthy (or_else args.wallet_name config.wallet_name))) [
        | inr w ↦ none_some (rw (w) at (h))
        | inl w ↦ elim (Bool-cases (passphrase_missing env args config)) [
          | inl p ↦ none_some (rw (w, p) at (h))
          | inr p ↦
              rw (w, p, with_config)
                (record {
                  asks = asks;
                  same = some_inj (sym (rw (w, p) at (h)) ∙ attempt-attempted env _ _);
                  wallet = get_or (or_else args.wallet_name config.wallet_name) "";
                  named = truthy-get_or (or_else args.wallet_name config.wallet_name) w;
                  ends = refl;
                })
        ]
      ]

  -- If a run attempts a purchase, the arguments ask for exactly one thing, to resume an order or to
  -- buy for an amount that the checks accept, the purchase is the one they describe, and the run ends
  -- as the attempt with a named wallet ends.
  pub purchase_command-IsAttempt :
      (env : Env) (args : Args) (x : Exit) (opts : PurchaseOpts)
      → purchase_command parse print env args ≡ ok x
      → x.attempted ≡ some opts
      → IsAttempt env args x opts
  unfolding purchase_command
  purchase_command-IsAttempt env args x opts h a = elim (Option-cases (refuse_args args)) [
    | inr (code, r) ↦ not_attempted (rw (r, purchase_command) at (h))
    | inl r ↦ elim (Result-cases env.config) [
      | inr (e, c) ↦ err_ok (rw (r, c, purchase_command) at (h))
      | inl (none, c) ↦ not_attempted (rw (r, c, purchase_command) at (h))
      | inl (some config, c) ↦
          let run : with_config parse print env args config ≡ x =
            ok_inj (rw (r, c, purchase_command) at (h)) in
          subst (λ y. IsAttempt env args y opts) run
            (with_config-IsAttempt env args config opts (refuse_args-none args r)
              (ap (λ y. y.attempted) run ∙ a))
    ]
  ]
    where
      not_attempted :
          {code : ℕ} {A : Type 0}
          → ◌≡◌ {A = Result Exit}
              (ok (record { code = code; attempted = none; last_order = env.last_order }))
              (ok x)
          → A
      not_attempted p = none_some (ap (λ y. y.attempted) (ok_inj p) ∙ a)
