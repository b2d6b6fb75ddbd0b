-- ===== src/Soroban/Build.antt =====
-- `buildContractPaymentTx` of sdk/src/soroban.ts. The account's sequence number and the simulation
-- come from the Soroban RPC server; building a transaction takes the account's number plus one, as
-- stellar-sdk documents, so that the number before a preserved one gives the preserved one.
use Prim.Native.String.{◌++◌}
use cards.Prelude.{
  ℕ, ◌+◌, ◌≡◌, refl, sym, ap, subst, ◌∙◌, inl, inr, Option, none, some, String, get_or,
  Option-cases,
}
use cards.Errors.{Result, ok, err, error, ◌>>=◌}
use cards.Soroban.{Network, PaymentFn, get_soroban_rpc_url}

pub record ContractCall : Type 0 where
  pub contract_id : String
  pub fn : PaymentFn
  pub from_public_key : String
  pub amount_stroops : ℕ
  pub order_id : String
  pub network : Network

pub record BuildOpts : Type 0 where
  pub call : ContractCall
  pub rpc_url : Option String
  pub preserved_sequence : Option ℕ
  pub fee : Option String

pub record Transaction : Type 0 where
  pub call : ContractCall
  pub sequence : ℕ
  pub fee : String

-- `simulateTransaction(...)`: the simulation's error, or what the call needs of resources.
pub data Simulation (Resources : Type 0) : Type 0 where
  sim_error : String → Simulation Resources
  priced : Resources → Simulation Resources

-- stellar-sdk's RPC server at a URL: `getAccount(...)`, as the account's sequence number,
-- `simulateTransaction(...)`, and `assembleTransaction(...).build()`. The last, as documented, sets the
-- fee and the resource data of a transaction and leaves its call and its sequence number.
pub record RpcServer : Type 1 where
  pub Resources : Type 0
  pub get_account : (url public_key : String) → Result ℕ
  pub simulate : (url : String) → Transaction → Result (Simulation Resources)
  pub assemble : Transaction → Resources → Transaction
  pub assemble_call : (tx : Transaction) (r : Resources) → (assemble tx r).call ≡ tx.call
  pub assemble_sequence :
      (tx : Transaction) (r : Resources) → (assemble tx r).sequence ≡ tx.sequence

-- `BASE_FEE` of stellar-sdk, in stroops.
abbrev pub base_fee : String
base_fee = "100"

-- The number that the transaction takes: the preserved one, or the one after the account's on chain.
unfoldable pub next_sequence : RpcServer → String → BuildOpts → Result ℕ
next_sequence server url opts = elim opts.preserved_sequence [
  | some n ↦ ok n
  | none ↦ server.get_account url opts.call.from_public_key >>= λ n. ok (n + 1)
]

-- `raw`.
abbrev pub raw_tx : BuildOpts → ℕ → Transaction
raw_tx opts n = record { call = opts.call; sequence = n; fee = get_or opts.fee base_fee }

pub ok_inj : {A : Type 0} {a b : A} → ◌≡◌ {A = Result A} (ok a) (ok b) → a ≡ b
ok_inj e = cc

module _ (server : RpcServer) where
  abbrev pub prepared : Transaction → Simulation server.Resources → Result Transaction
  prepared raw (sim_error e) = err (error ("Soroban simulation failed: " ++ e))
  prepared raw (priced r) = ok (server.assemble raw r)

  abbrev pub rpc_of : BuildOpts → String
  rpc_of opts = get_or opts.rpc_url (get_soroban_rpc_url opts.call.network)

  unfoldable pub build_contract_payment_tx : BuildOpts → Result Transaction
  unfolding next_sequence
  build_contract_payment_tx opts = next_sequence server (rpc_of opts) opts >>= λ n.
      server.simulate (rpc_of opts) (raw_tx opts n) >>= λ sim. prepared (raw_tx opts n) sim

  -- Where the number of a transaction comes from.
  pub data Numbered (opts : BuildOpts) : ℕ → Type 0 where
    preserved : (n : ℕ) → opts.preserved_sequence ≡ some n → Numbered opts n
    loaded :
        (n : ℕ)
        → opts.preserved_sequence ≡ none
        → server.get_account (rpc_of opts) opts.call.from_public_key ≡ ok n
        → Numbered opts (n + 1)

  -- What a built transaction has of the options that it was built from.
  pub record IsBuilt (opts : BuildOpts) (tx : Transaction) : Type 0 where
    pub call : tx.call ≡ opts.call
    pub numbered : Numbered opts tx.sequence
    pub raw : Transaction
    pub needs : server.Resources
    pub raw_call : raw.call ≡ opts.call
    pub raw_sequence : raw.sequence ≡ tx.sequence
    pub asked : raw.fee ≡ get_or opts.fee "100"
    pub priced_eq :
        server.simulate (get_or opts.rpc_url (get_soroban_rpc_url opts.call.network)) raw
        ≡ ok (priced needs)
    pub assembled : tx ≡ server.assemble raw needs

  IsBuilt-assembled :
      (opts : BuildOpts) (n : ℕ) (r : server.Resources)
      → Numbered opts n
      → server.simulate (rpc_of opts) (raw_tx opts n) ≡ ok (priced r)
      → IsBuilt opts (server.assemble (raw_tx opts n) r)
  IsBuilt-assembled opts n r h e = record {
    call = server.assemble_call (raw_tx opts n) r;
    numbered = subst (Numbered opts) (sym (server.assemble_sequence (raw_tx opts n) r)) h;
    raw = raw_tx opts n;
    needs = r;
    raw_call = refl;
    raw_sequence = sym (server.assemble_sequence (raw_tx opts n) r);
    asked = refl;
    priced_eq = e;
    assembled = refl;
  }

  prepared-IsBuilt :
      (opts : BuildOpts) (n : ℕ) (tx : Transaction) (x : Result (Simulation server.Resources))
      → Numbered opts n
      → server.simulate (rpc_of opts) (raw_tx opts n) ≡ x
      → (x >>= λ sim. prepared (raw_tx opts n) sim) ≡ ok tx
      → IsBuilt opts tx
  prepared-IsBuilt opts n tx (err e) h q b = cc
  prepared-IsBuilt opts n tx (ok (sim_error e)) h q b = cc
  prepared-IsBuilt opts n tx (ok (priced r)) h q b =
      subst (IsBuilt opts) (ok_inj b) (IsBuilt-assembled opts n r h q)

  next_sequence-IsBuilt :
      (opts : BuildOpts) (tx : Transaction) (x : Result ℕ)
      → ((n : ℕ) → x ≡ ok n → Numbered opts n)
      → (x >>= λ n.
          server.simulate (rpc_of opts) (raw_tx opts n) >>= λ sim. prepared (raw_tx opts n) sim)
        ≡ ok tx
      → IsBuilt opts tx
  next_sequence-IsBuilt opts tx (err e) h b = cc
  next_sequence-IsBuilt opts tx (ok n) h b = prepared-IsBuilt opts n tx _ (h n refl) refl b

  loaded-Numbered :
      (opts : BuildOpts) (n : ℕ) (x : Result ℕ)
      → opts.preserved_sequence ≡ none
      → server.get_account (rpc_of opts) opts.call.from_public_key ≡ x
      → (x >>= λ k. ok (k + 1)) ≡ ok n
      → Numbered opts n
  loaded-Numbered opts n (err e) p q h = cc
  loaded-Numbered opts n (ok k) p q h = subst (Numbered opts) (ok_inj h) (loaded k p q)

  next_sequence-Numbered :
      (opts : BuildOpts) (n : ℕ) → next_sequence server (rpc_of opts) opts ≡ ok n → Numbered opts n
  unfolding next_sequence
  next_sequence-Numbered opts n e = elim (Option-cases opts.preserved_sequence) [
    | inr (k, p) ↦ preserved n (p ∙ ap some (ok_inj (rw p at (e))))
    | inl p ↦ loaded-Numbered opts n _ p refl (rw p at (e))
  ]

  -- A transaction that is built makes the call that was asked for, and has the preserved sequence
  -- number, or without one the number after the account's. It is what stellar-sdk assembles, from the
  -- resources that the simulation at the asked URL, or else the network's, gave, of a transaction with
  -- this call and number, and with the fee that was asked for, or else the base fee of 100 stroops.
  pub build_contract_payment_tx-IsBuilt :
      (opts : BuildOpts) (tx : Transaction)
      → build_contract_payment_tx opts ≡ ok tx
      → IsBuilt opts tx
  unfolding build_contract_payment_tx
  build_contract_payment_tx-IsBuilt opts tx h =
      next_sequence-IsBuilt opts tx (next_sequence server (rpc_of opts) opts)
        (next_sequence-Numbered opts) h
