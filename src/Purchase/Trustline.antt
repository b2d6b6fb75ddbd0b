-- ===== src/Purchase/Trustline.antt =====
-- The trustline check of `purchaseCardOWS` and `addUsdcTrustlineOWS` (sdk/src/ows.ts).
use cards.Prelude.{
  ◌≡◌, refl, ◌⊎◌, inl, inr, true, Option, none, some, List, String, get_or, Bool-cases,
}
use cards.Errors.{Result, ok, err, ◌>>=◌}
use cards.Soroban.{Network, public_network, get_horizon_url}
use cards.Purchase.{Services}
use cards.Purchase.Account.{BalanceEntry, has_trustline, read_balance-no_trustline}
use cards.Purchase.Steps.{ensure_trustline, add_usdc_trustline}

module _ (s : Services) where
  default_url :
      (n : Option Network) → get_horizon_url (some (get_or n public_network)) ≡ get_horizon_url n
  unfolding get_horizon_url
  default_url none = refl
  default_url (some n) = refl

  has-opened :
      (r : Result String) (h : Option String)
      → (r >>= λ hash. ok (some hash)) ≡ ok h
      → (hash : String) × (r ≡ ok hash)
  has-opened (ok hash) h e = (hash, refl)
  has-opened (err x) h e = cc

  -- Where the purchase pays on the network of the main Horizon server and the check of the trustline
  -- lets it go on, the account has the trustline, or a transaction that opens one was submitted.
  pub ensure_trustline_sound :
      (n : Option Network) (bs : List BalanceEntry) (h : Option String)
      → get_horizon_url n ≡ get_horizon_url none
      → s.load_account (get_horizon_url none) ≡ ok bs
      → (ensure_trustline s n).0 ≡ ok h
      → (has_trustline bs ≡ true)
        ⊎ ((hash : String) × (s.submit_trustline (get_horizon_url none) ≡ ok hash))
  unfolding ensure_trustline add_usdc_trustline
  ensure_trustline_sound n bs h main l e = elim (Bool-cases (has_trustline bs)) [
    | inl t ↦ inl t
    | inr f ↦ inr (
        has-opened (s.submit_trustline (get_horizon_url none)) h (
          rw
            (
              l,
              read_balance-no_trustline bs f,
              main,
              l,
              f,
              default_url n,
              main,
              l,
              f,
              default_url n,
              main,
              ensure_trustline,
              add_usdc_trustline,
            )
            at (e)))
  ]
