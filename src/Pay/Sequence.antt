-- ===== src/Pay/Sequence.antt =====
-- The sequence numbers of the attempts of `payViaContractOWS` (sdk/src/ows.ts).
use cards.Prelude.{
  ℕ, zero, suc, ◌+◌, ◌≡◌, refl, sym, ◌∙◌, some_inj, none_some, ◌⊎◌, inl, inr, Bool, true, false,
  Option, none, some, List, [], ◌∷◌, String, All, Bool-cases, Option-cases,
}
use cards.Errors.{
  Error, Result, ok, err, is_dropped, is_insufficient_fee, insufficient_fee, Result-cases,
}
use cards.Soroban.Build.{
  ContractCall, BuildOpts, Numbered, preserved, loaded, Transaction, RpcServer,
  build_contract_payment_tx, build_contract_payment_tx-IsBuilt,
}
use cards.Pay.{Attempt, Run, fails, with_attempt, required_fee, build_opts, pay_from}

-- The submission was refused for its fee: the network did not take the transaction.
abbrev pub fee_rejected : Result String → Bool
fee_rejected (ok hash) = false
fee_rejected (err e) = is_insufficient_fee e

pub required_fee-is_insufficient_fee :
    (e : Error) (f : String) → required_fee e ≡ some f → is_insufficient_fee e ≡ true
unfolding required_fee is_insufficient_fee
required_fee-is_insufficient_fee (insufficient_fee fee) f h = refl
required_fee-is_insufficient_fee _ f h = cc

module _ (server : RpcServer) (submit : ℕ → Transaction → Result String) (call : ContractCall)
    (rpc_url : Option String) where
  abbrev pay : (left i : ℕ) → Option ℕ → Option String → Run
  pay = pay_from server submit call rpc_url

  abbrev built : Option ℕ → Option String → Result Transaction
  built p f = build_contract_payment_tx server (build_opts server submit call rpc_url p f)

  abbrev pub attempt_of : ℕ → Transaction → Attempt
  attempt_of i tx = record { tx = tx; outcome = submit i tx }

  -- The loop makes an attempt and stops, or goes on after a fee that was too low or a drop.
  pub pay_from-cases {ℓ} :
      (P : Run → Type ℓ) (left i : ℕ) (p : Option ℕ) (f : Option String)
      → ((e : Error) → P (fails e))
      → ((tx : Transaction)
          → built p f ≡ ok tx
          → P (record { result = submit i tx; submitted = attempt_of i tx ∷ [] }))
      → ((tx : Transaction) (e : Error) (fee : String)
          → built p f ≡ ok tx
          → submit i tx ≡ err e
          → required_fee e ≡ some fee
          → P (with_attempt (attempt_of i tx) (pay left (i + 1) p (some fee))))
      → ((tx : Transaction) (e : Error)
          → built p f ≡ ok tx
          → submit i tx ≡ err e
          → is_dropped e ≡ true
          → P (with_attempt (attempt_of i tx) (pay left (i + 1) (some tx.sequence) f)))
      → P (pay (suc left) i p f)
  unfolding pay_from
  pay_from-cases P left i p f bad stop fee dropped = elim (Result-cases (built p f)) [
    | inr (e, b) ↦ rw (b, pay_from) (bad e)
    | inl (tx, b) ↦ elim (Result-cases (submit i tx)) [
      | inl (hash, s) ↦ rw (b, s, pay_from) (rw s at (stop tx b))
      | inr (e, s) ↦ elim (Option-cases (required_fee e)) [
        | inr (x, q) ↦ rw (b, s, q, pay_from) (rw s at (fee tx e x b s q))
        | inl q ↦ elim (Bool-cases (is_dropped e)) [
          | inl d ↦ rw (b, s, q, d, pay_from) (rw s at (dropped tx e b s d))
          | inr n ↦ rw (b, s, q, n, pay_from) (rw s at (stop tx b))
        ]
      ]
    ]
  ]

  pub pay_from_last {ℓ} :
      (P : Run → Type ℓ) (i : ℕ) (p : Option ℕ) (f : Option String)
      → ((e : Error) → P (fails e))
      → ((tx : Transaction)
          → built p f ≡ ok tx
          → P (record { result = submit i tx; submitted = attempt_of i tx ∷ [] }))
      → P (pay zero i p f)
  unfolding pay_from
  pay_from_last P i p f bad stop = elim (Result-cases (built p f)) [
    | inr (e, b) ↦ rw (b, pay_from) (bad e)
    | inl (tx, b) ↦ rw (b, pay_from) (stop tx b)
  ]

  abbrev AllAt : ℕ → Run → Type 0
  AllAt n run = All (λ a. a.tx.sequence ≡ n) run.submitted

  Numbered-kept :
      (opts : BuildOpts) (n k : ℕ)
      → opts.preserved_sequence ≡ some n
      → Numbered server opts k
      → k ≡ n
  Numbered-kept opts n _ p (preserved k q) = some_inj (sym q ∙ p)
  Numbered-kept opts n _ p (loaded k q r) = none_some (sym q ∙ p)

  kept_sequence :
      (n : ℕ) (f : Option String) (tx : Transaction) → built (some n) f ≡ ok tx → tx.sequence ≡ n
  kept_sequence n f tx b =
      Numbered-kept _ n tx.sequence refl (build_contract_payment_tx-IsBuilt server _ tx b).numbered

  -- With a preserved sequence every attempt has it.
  pay_from-AllAt : (n left i : ℕ) (f : Option String) → AllAt n (pay left i (some n) f)
  pay_from-AllAt n zero i f =
      pay_from_last (AllAt n) i (some n) f (λ e. tt) (λ tx b. (kept_sequence n f tx b, tt))
  pay_from-AllAt n (suc left) i f =
      pay_from-cases (AllAt n) left i (some n) f (λ e. tt) (λ tx b. (kept tx b, tt))
        (λ tx e fee b s q. (kept tx b, pay_from-AllAt n left (i + 1) (some fee)))
        (λ tx e b s d. (kept tx b, rw (kept tx b) (pay_from-AllAt n left (i + 1) f)))
    where
      kept : (tx : Transaction) → built (some n) f ≡ ok tx → tx.sequence ≡ n
      kept tx b = kept_sequence n f tx b

  -- Every attempt that was not refused for its fee has the sequence `n`.
  abbrev pub OneSequence : ℕ → Run → Type 0
  OneSequence n run = All (λ a. (fee_rejected a.outcome ≡ true) ⊎ (a.tx.sequence ≡ n)) run.submitted

  AllAt-OneSequence :
      (n : ℕ) (xs : List Attempt)
      → All (λ a. a.tx.sequence ≡ n) xs
      → All (λ a. (fee_rejected a.outcome ≡ true) ⊎ (a.tx.sequence ≡ n)) xs
  AllAt-OneSequence n [] h = tt
  AllAt-OneSequence n (a ∷ xs) h = (inr h.0, AllAt-OneSequence n xs h.1)

  pub pay_from-OneSequence :
      (left i : ℕ) (f : Option String) → (n : ℕ) × OneSequence n (pay left i none f)
  pay_from-OneSequence zero i f =
      pay_from_last (λ run. (n : ℕ) × OneSequence n run) i none f (λ e. (0, tt))
        (λ tx b. (tx.sequence, (inr refl, tt)))
  pay_from-OneSequence (suc left) i f =
      pay_from-cases (λ run. (n : ℕ) × OneSequence n run) left i none f (λ e. (0, tt))
        (λ tx b. (tx.sequence, (inr refl, tt)))
        (λ tx e fee b s q.
          let (n, rest) = pay_from-OneSequence left (i + 1) (some fee) in
          (n, (inl (rw s (required_fee-is_insufficient_fee e fee q)), rest)))
        (λ tx e b s d. (
          tx.sequence,
          (inr refl, AllAt-OneSequence tx.sequence _ (pay_from-AllAt tx.sequence left (i + 1) f)),
        ))
