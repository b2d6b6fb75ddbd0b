-- ===== src/Config/Priority.antt =====
-- Where `resolveCredentials` of sdk/src/config.ts takes the API key from.
use cards.Prelude.{
  some_inj, none_some, ◌≡◌, refl, sym, ap, ◌∙◌, inl, inr, Bool, true, false, ◌&&◌, Option, none,
  some, String, truthy, Bool-cases, &&-true,
}
use cards.Errors.{ok_inj, err_ok, ok, Result-cases}
use cards.Config.{
  Url, Cards402Config, Env, Credentials, resolve_credentials, or_env, with_base, check_base,
  config_key, config_base,
}

module _ (parse_url : String → Option Url) (quote : String → String) (env : Env) where
  with_base-api_key :
      (key base : Option String) (c : Credentials)
      → with_base parse_url quote env key base ≡ ok c
      → c.api_key ≡ key
  unfolding with_base
  with_base-api_key key base c h = elim (Result-cases (check_base parse_url quote env base)) [
    | inr (e, b) ↦ err_ok (rw (b, with_base) at (h))
    | inl (url, b) ↦ sym (ap (λ x. x.api_key) (ok_inj (rw (b, with_base) at (h))))
  ]

  or_env-first : (x v : Option String) → truthy x ≡ true → or_env x v ≡ x
  or_env-first x v t = rw (t) refl

  or_env-second : (x v : Option String) → truthy x ≡ false → truthy v ≡ true → or_env x v ≡ v
  or_env-second x v t u = rw (t, u) refl

  or_env-neither :
      (x v : Option String) → truthy x ≡ false → truthy v ≡ false → truthy (or_env x v) ≡ false
  or_env-neither x v t u = rw (t, u) t

  true_false : {A : Type 0} {b : Bool} → b ≡ true → b ≡ false → A
  true_false t f = cc

  config_key-given :
      (config : Cards402Config) (k : Option String) → truthy k ≡ true → config_key config k ≡ k
  config_key-given config k t = rw (t) refl

  config_key-missing :
      (config : Cards402Config) (k : Option String)
      → truthy k ≡ false
      → config_key config k ≡ config.api_key
  config_key-missing config k t = rw (t) refl

  -- The key that the arguments and the environment give, or else the file's.
  abbrev Found : Option String → Credentials → Type 0
  Found key c =
      (truthy key ≡ true → c.api_key ≡ key)
      × ((config : Cards402Config)
          → truthy key ≡ false
          → env.config ≡ ok (some config)
          → c.api_key ≡ config.api_key)

  resolve_credentials-Found :
      (api_key base_url : Option String) (c : Credentials)
      → resolve_credentials parse_url quote env api_key base_url ≡ ok c
      → Found (or_env api_key env.api_key) c
  unfolding resolve_credentials
  resolve_credentials-Found api_key base_url c h =
      elim (Bool-cases
        (truthy (or_env api_key env.api_key) && truthy (or_env base_url env.base_url))) [
          | inl b ↦ (
            λ t.
                with_base-api_key (or_env api_key env.api_key) (or_env base_url env.base_url) c
                  (rw (b, resolve_credentials) at (h)),
            λ config f e. true_false (&&-true _ _ b).0 f,
          )
          | inr b ↦ elim (Result-cases env.config) [
            | inr (x, e) ↦ err_ok (rw (b, e, resolve_credentials) at (h))
            | inl (none, e) ↦ (
              λ t.
                  with_base-api_key (or_env api_key env.api_key) (or_env base_url env.base_url) c
                    (rw (b, e, resolve_credentials) at (h)),
              λ config f g. none_some (ok_inj (sym e ∙ g)),
            )
            | inl (some config, e) ↦ (
              λ t.
                  with_base-api_key (config_key config (or_env api_key env.api_key))
                    (config_base config (or_env base_url env.base_url)) c
                    (rw (b, e, resolve_credentials) at (h))
                  ∙ config_key-given config (or_env api_key env.api_key) t,
              λ config' f g.
                  with_base-api_key (config_key config (or_env api_key env.api_key))
                    (config_base config (or_env base_url env.base_url)) c
                    (rw (b, e, resolve_credentials) at (h))
                  ∙ config_key-missing config (or_env api_key env.api_key) f
                  ∙ ap (λ x. x.api_key) (some_inj (ok_inj (sym e ∙ g))),
            )
          ]
        ]

  -- The key of the resolved credentials is the one that was passed; if that is missing or empty, the
  -- environment's; and if that is too, the one in the config file.
  pub resolve_credentials-api_key :
      (api_key base_url : Option String) (c : Credentials)
      → resolve_credentials parse_url quote env api_key base_url ≡ ok c
      → (truthy api_key ≡ true → c.api_key ≡ api_key)
        × (truthy api_key ≡ false → truthy env.api_key ≡ true → c.api_key ≡ env.api_key)
        × ((config : Cards402Config)
            → truthy api_key ≡ false
            → truthy env.api_key ≡ false
            → env.config ≡ ok (some config)
            → c.api_key ≡ config.api_key)
  unfolding resolve_credentials
  resolve_credentials-api_key api_key base_url c h =
      let (given, filed) = resolve_credentials-Found api_key base_url c h in
      (
        λ t.
            given (ap truthy (or_env-first api_key env.api_key t) ∙ t)
            ∙ or_env-first api_key env.api_key t,
        λ f t.
            given (ap truthy (or_env-second api_key env.api_key f t) ∙ t)
            ∙ or_env-second api_key env.api_key f t,
        λ config f g e. filed config (or_env-neither api_key env.api_key f g) e,
      )
