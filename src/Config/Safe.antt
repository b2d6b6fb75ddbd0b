-- ===== src/Config/Safe.antt =====
-- The API key, the config file and the base URL that sdk/src/config.ts and the constructor of
-- `Cards402Client` (sdk/src/client.ts) accept.
use cards.Prelude.{
  ℕ, ◌≤◌, ◌≡◌, sym, ap, ◌∙◌, ◌⊎◌, inl, inr, true, false, ◌&&◌, Option, none, some, String, str_eq,
  ltb, arith, Bool-cases, Option-cases, &&-true,
}
use cards.Prelude.Text.{includes}
use cards.Prelude.Trim.{trim}
use cards.Errors.{err_ok, Error, Result, ok, err, Result-cases, message}
use cards.Config.{
  Url, Cards402Config, ConfigFile, missing, unreadable, symbolic_link, irregular, regular,
  max_config_bytes, bad_key, load_cards402_config, Env, assert_safe_base_url, resolve, final_base,
  new_client, is_one,
}

module _ (parse_config : String → Result Cards402Config) (p : String) where
  -- A config that is loaded comes from a regular file that is not larger than the limit, and its key,
  -- if it is a string, is printable.
  pub load_cards402_config-regular :
      (file : ConfigFile) (c : Cards402Config)
      → load_cards402_config parse_config p file ≡ ok (some c)
      → (size : ℕ) × (text : String) × (file ≡ regular size (ok (some text)))
        × (size ≤ max_config_bytes)
        × (parse_config text ≡ ok c)
        × (bad_key c.api_key ≡ false)
  unfolding load_cards402_config
  load_cards402_config-regular missing c h = cc
  load_cards402_config-regular (unreadable e) c h = cc
  load_cards402_config-regular symbolic_link c h = cc
  load_cards402_config-regular irregular c h = cc
  load_cards402_config-regular (regular size text) c h =
      elim (Bool-cases (ltb max_config_bytes size)) [
        | inl large ↦ err_ok (rw (large, load_cards402_config) at (h))
        | inr small ↦ elim (Result-cases text) [
          | inr (e, t) ↦ err_ok (rw (small, t, load_cards402_config) at (h))
          | inl (none, t) ↦ ok_none (rw (small, t, load_cards402_config) at (h))
          | inl (some s, t) ↦ elim (Result-cases (parse_config s)) [
            | inr (e, q) ↦ err_ok (rw (small, t, q, load_cards402_config) at (h))
            | inl (d, q) ↦ elim (Bool-cases (bad_key d.api_key)) [
              | inl b ↦ err_ok (rw (small, t, q, b, load_cards402_config) at (h))
              | inr b ↦
                  let same : d ≡ c = ok_some (rw (small, t, q, b, load_cards402_config) at (h)) in
                  (
                    size,
                    s,
                    ap (regular size) t,
                    ground arith,
                    q ∙ ap ok same,
                    sym (ap (λ x. bad_key x.api_key) same) ∙ b,
                  )
            ]
          ]
        ]
      ]
    where
      ok_none : {A : Type 0} → ◌≡◌ {A = Result (Option Cards402Config)} (ok none) (ok (some c)) → A
      ok_none e = cc

      ok_some :
          {d : Cards402Config}
          → ◌≡◌ {A = Result (Option Cards402Config)} (ok (some d)) (ok (some c))
          → d ≡ c
      ok_some e = cc

module _ (parse_url : String → Option Url) (quote : String → String) (env : Env) where
  -- A URL that parses, holds no credentials, and is HTTPS unless the override is set.
  abbrev pub IsSafe : String → Type 0
  IsSafe url =
      (u : Url) × (parse_url url ≡ some u)
      × (str_eq u.username "" ≡ true)
      × (str_eq u.password "" ≡ true)
      × ((str_eq u.protocol "https:" ≡ true) ⊎ (is_one env.allow_insecure ≡ true))

  assert_safe_base_url-IsSafe :
      (url context href : String)
      → assert_safe_base_url parse_url quote env url context ≡ ok href
      → IsSafe url
  unfolding assert_safe_base_url
  assert_safe_base_url-IsSafe url context href h = elim (Option-cases (parse_url url)) [
    | inl n ↦ err_ok (rw (n, assert_safe_base_url) at (h))
    | inr (u, n) ↦ elim (Bool-cases (str_eq u.username "" && str_eq u.password "")) [
      | inr b ↦ err_ok (rw (n, b, assert_safe_base_url) at (h))
      | inl b ↦
          let (user, password) = &&-true _ _ b in
          elim (Bool-cases (str_eq u.protocol "https:")) [
            | inl s ↦ (u, n, user, password, inl s)
            | inr s ↦ elim (Bool-cases (is_one env.allow_insecure)) [
              | inl i ↦ (u, n, user, password, inr i)
              | inr i ↦ err_ok (rw (n, b, s, i, assert_safe_base_url) at (h))
            ]
          ]
    ]
  ]

  -- A client is constructed only with a base URL that parses, holds no credentials, and is HTTPS
  -- unless the override is set, or with one whose refusal has a message that holds the text `Cannot
  -- find module`.
  pub new_client-IsSafe :
      (api_key base_url : Option String) (c : String × String)
      → new_client parse_url quote env api_key base_url ≡ ok c
      → IsSafe (final_base (resolve parse_url quote env api_key base_url).base_url)
        ⊎ ((e : Error) × (assert_safe_base_url parse_url quote env
                (final_base (resolve parse_url quote env api_key base_url).base_url)
                "Cards402Client constructor"
              ≡ err e)
            × (includes (message e) "Cannot find module" ≡ true))
  unfolding new_client
  new_client-IsSafe api_key base_url c h =
      elim (Result-cases (
        assert_safe_base_url parse_url quote env
          (final_base (resolve parse_url quote env api_key base_url).base_url)
          "Cards402Client constructor")) [
            | inl (href, a) ↦
                inl (assert_safe_base_url-IsSafe _ "Cards402Client constructor" href a)
            | inr (e, a) ↦ elim (Bool-cases (includes (message e) "Cannot find module")) [
              | inl i ↦ inr (e, a, i)
              | inr i ↦ elim (Option-cases (resolve parse_url quote env api_key base_url).api_key) [
                | inl k ↦ err_ok (rw (k, new_client) at (h))
                | inr (key, k) ↦ elim (Bool-cases (str_eq (trim key) "")) [
                  | inl t ↦ err_ok (rw (k, t, new_client) at (h))
                  | inr t ↦ err_ok (rw (k, t, a, i, new_client) at (h))
                ]
              ]
            ]
          ]
