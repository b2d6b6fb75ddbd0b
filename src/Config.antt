-- ===== src/Config.antt =====
-- sdk/src/config.ts: where the SDK finds its API key and base URL, and the constructor of
-- `Cards402Client` (sdk/src/client.ts), which uses them. `parse_url` is `new URL`, of which a URL's
-- parts are read, and `parse_config` is `JSON.parse` at the fields of the config file.
pub mod Safe
pub mod Priority
pub mod Tests
use Prim.Native.String.{◌++◌}
use cards.Prelude.{
  ℕ, Bool, true, false, not, ◌&&◌, Option, none, some, List, [], ◌∷◌, String, str_eq, truthy, leb,
  ltb, all, if◌then◌else◌,
}
use cards.Prelude.Text.{Text, codes, includes}
use cards.Prelude.Trim.{trim, drop_last}
use cards.Errors.{Error, Result, ok, err, error, auth, message, decimal, ◌>>=◌}

pub record Url : Type 0 where
  pub protocol : String
  pub username : String
  pub password : String
  pub href : String

-- The fields of `Cards402Config` that the credentials come from.
pub record Cards402Config : Type 0 where
  pub api_key : Option String
  pub api_url : Option String

-- What `lstat` says of the path, and what reading the file gives.
pub data ConfigFile : Type 0 where
  missing : ConfigFile
  unreadable : Error → ConfigFile
  symbolic_link : ConfigFile
  irregular : ConfigFile
  regular : (size : ℕ) → (text : Result (Option String)) → ConfigFile

abbrev pub max_config_bytes : ℕ
max_config_bytes = 16384

-- `/^[\x20-\x7e]+$/`.
unfoldable pub is_printable : Text → Bool
is_printable [] = false
is_printable (c ∷ s) = all (λ d. leb 32 d && leb d 126) (c ∷ s)

-- Only a key that is a string is tested.
abbrev pub bad_key : Option String → Bool
unfolding is_printable
bad_key none = false
bad_key (some key) = not (is_printable (codes key))

module _ (parse_config : String → Result Cards402Config) (p : String) where
  -- A text that is not there was deleted since `lstat`.
  read_config : Option String → Result (Option Cards402Config)
  read_config none = ok none
  read_config (some text) = parse_config text >>= λ config.
      if bad_key config.api_key
      then err (
          error (
            "cards402 config at "
            ++ (p ++ " contains an api_key with non-printable characters. ")
            ++ "The file may be corrupted or tampered with. Rotate your key and re-run 'cards402 onboard'."))
      else ok (some config)

  unfoldable pub load_cards402_config : ConfigFile → Result (Option Cards402Config)
  unfolding read_config
  load_cards402_config missing = ok none
  load_cards402_config (unreadable e) = err e
  load_cards402_config symbolic_link = err (
      error (
        "cards402 config at "
        ++ (p ++ " is a symbolic link. Refusing to load. ")
        ++ "Remove the link and re-run 'cards402 onboard --claim <code>' to create a real file."))
  load_cards402_config irregular = err (
      error (
        "cards402 config at "
        ++ (p ++ " is not a regular file. ")
        ++ "Remove it and re-run 'cards402 onboard --claim <code>'."))
  load_cards402_config (regular size text) =
      if ltb max_config_bytes size
      then err (
          error (
            "cards402 config at "
            ++ (p ++ (" is " ++ (decimal size ++ " bytes (max 16384). ")))
            ++ "Refusing to load — the file is either corrupted or has been tampered with. "
            ++ "Rotate your api key via the dashboard and re-run 'cards402 onboard'."))
      else text >>= read_config

-- The environment: its variables, and the config file at the default path.
pub record Env : Type 0 where
  pub api_key : Option String
  pub base_url : Option String
  pub allow_insecure : Option String
  pub config : Result (Option Cards402Config)

pub record Credentials : Type 0 where
  pub api_key : Option String
  pub base_url : Option String

-- `x || y` where both may be missing or empty.
unfoldable pub or_else : Option String → Option String → Option String
or_else x y = if truthy x then x else y

abbrev pub is_one : Option String → Bool
is_one none = false
is_one (some s) = str_eq s "1"

abbrev pub for_context : String → String
for_context context = if str_eq context "" then "" else " for " ++ context

-- `if (!x && env) x = env`: an empty variable changes nothing.
abbrev pub or_env : Option String → Option String → Option String
or_env x variable = if not (truthy x) && truthy variable then variable else x

abbrev pub final_base : Option String → String
final_base none = "https://api.cards402.com/v1"
final_base (some url) = if str_eq url "" then "https://api.cards402.com/v1" else url

-- `if (!x) x = cfg.x`.
abbrev pub config_key : Cards402Config → Option String → Option String
config_key config key = if truthy key then key else config.api_key

abbrev pub config_base : Cards402Config → Option String → Option String
config_base config base = if truthy base then base else config.api_url

module _ (parse_url : String → Option Url) (quote : String → String) (env : Env) where
  -- `quote` is `JSON.stringify` of a string, and a context that is empty is none.
  unfoldable pub assert_safe_base_url : (url context : String) → Result String
  assert_safe_base_url url context = elim (parse_url url) [
    | none ↦ err (error ("Invalid base URL: " ++ url))
    | some u ↦
        if not (str_eq u.username "" && str_eq u.password "")
        then err (
            error (
              "Refusing base URL "
              ++ (quote url ++ " with embedded credentials. ")
              ++ "Use a bare https://host/path form — the api key is sent via the "
              ++ "Authorization header, never in the URL."))
        else if not (str_eq u.protocol "https:")
        then (if is_one env.allow_insecure
            then ok u.href
            else err (
                error (
                  "Refusing to use non-HTTPS base URL ("
                  ++ (url ++ (")" ++ for_context context))
                  ++ ". "
                  ++ "Set CARDS402_ALLOW_INSECURE_BASE_URL=1 to override for local development.")))
        else ok u.href
  ]

  -- `if (baseUrl) baseUrl = assertSafeBaseUrl(baseUrl, …)`.
  unfoldable pub check_base : Option String → Result (Option String)
  unfolding assert_safe_base_url
  check_base none = ok none
  check_base (some url) =
      if str_eq url ""
      then ok (some url)
      else assert_safe_base_url url "resolveCredentials" >>= λ href. ok (some href)

  unfoldable pub with_base : Option String → Option String → Result Credentials
  unfolding check_base
  with_base key base = check_base base >>= λ url. ok (record { api_key = key; base_url = url })

  unfoldable pub resolve_credentials : (api_key base_url : Option String) → Result Credentials
  unfolding with_base
  resolve_credentials api_key base_url =
      let key = or_env api_key env.api_key in
      let base = or_env base_url env.base_url in
      if truthy key && truthy base
      then with_base key base
      else env.config >>= λ config. elim config [
        | none ↦ with_base key base
        | some c ↦ with_base (config_key c key) (config_base c base)
      ]

  -- The key and the URL that the constructor goes on with: an error of `resolveCredentials` is
  -- swallowed.
  unfoldable pub resolve : (api_key base_url : Option String) → Credentials
  unfolding resolve_credentials
  resolve api_key base_url =
      if truthy api_key && truthy base_url
      then record { api_key = api_key; base_url = base_url }
      else (elim (resolve_credentials api_key base_url) [
        | err e ↦ record { api_key = api_key; base_url = base_url }
        | ok c ↦ record {
          api_key = or_else api_key c.api_key;
          base_url = or_else base_url c.base_url;
        }
      ])

  -- The constructor: the key and the base URL of the client. An error of the URL's check is swallowed
  -- where its message reads like that of a module that is not there.
  unfoldable pub new_client : (api_key base_url : Option String) → Result (String × String)
  unfolding resolve assert_safe_base_url
  new_client api_key base_url =
      let c = resolve api_key base_url in
      elim c.api_key [
        | none ↦ err auth
        | some key ↦
            if str_eq (trim key) ""
            then err auth
            else (elim (assert_safe_base_url (final_base c.base_url) "Cards402Client constructor") [
              | ok href ↦ ok (key, drop_last b'/' (final_base c.base_url))
              | err e ↦
                  if includes (message e) "Cannot find module"
                  then ok (key, drop_last b'/' (final_base c.base_url))
                  else err e
            ])
      ]
