-- ===== src/Config/Tests.antt =====
-- Credentials and base URLs that the SDK takes and refuses.
use Prim.Native.String.{◌++◌}
use text.Mathlib.Text.{starts_with}
use cards.Prelude.{◌≡◌, refl, ◌⊎◌, true, Option, none, some, String, if◌then◌else◌}
use cards.Prelude.Text.{includes}
use cards.Prelude.Trim.{trim, drop_last}
use cards.Errors.{Error, ok, err, message}
use cards.Config.{
  Url, Cards402Config, regular, ConfigFile, is_printable, load_cards402_config, Env, Credentials,
  assert_safe_base_url, resolve_credentials, resolve, new_client, final_base, with_base, check_base,
  or_else,
}
use cards.Config.Safe.{IsSafe, new_client-IsSafe}

-- `new URL` at the URLs of the tests.
abbrev parse_url : String → Option Url
parse_url s =
    if starts_with s "https://"
    then some (record { protocol = "https:"; username = ""; password = ""; href = s })
    else if starts_with s "http://"
    then some (record { protocol = "http:"; username = ""; password = ""; href = s })
    else none

abbrev quote : String → String
quote s = "\"" ++ (s ++ "\"")

abbrev config : Cards402Config
config = record { api_key = some "cards402_file"; api_url = some "https://api.cards402.com/v1" }

abbrev env : Env
env = record { api_key = none; base_url = none; allow_insecure = none; config = ok (some config) }

client :
    new_client parse_url quote env none (some "https://host/v1/")
    ≡ ok ("cards402_file", "https://host/v1")
unfolding new_client assert_safe_base_url resolve resolve_credentials with_base check_base or_else
    trim drop_last message
client = refl

new_client-IsSafe_example :
    IsSafe parse_url quote env
      (final_base (resolve parse_url quote env none (some "https://host/v1/")).base_url)
    ⊎ ((e : Error) × (assert_safe_base_url parse_url quote env
            (final_base (resolve parse_url quote env none (some "https://host/v1/")).base_url)
            "Cards402Client constructor"
          ≡ err e)
        × (includes (message e) "Cannot find module" ≡ true))
new_client-IsSafe_example =
    new_client-IsSafe parse_url quote env none (some "https://host/v1/")
      ("cards402_file", "https://host/v1") client

-- A plain HTTP host is taken where the URL holds the text that the constructor looks for.
insecure_client :
    new_client parse_url quote env (some "key") (some "http://host/Cannot find module")
    ≡ ok ("key", "http://host/Cannot find module")
unfolding new_client assert_safe_base_url resolve trim drop_last message
insecure_client = refl

abbrev file : ConfigFile
file = regular 120 (ok (some "{}"))

loaded : load_cards402_config (λ s. ok config) "config.json" file ≡ ok (some config)
unfolding load_cards402_config is_printable
loaded = refl

abbrev credentials : Credentials
credentials = record {
  api_key = some "cards402_file";
  base_url = some "https://api.cards402.com/v1";
}

resolved : resolve_credentials parse_url quote env none none ≡ ok credentials
unfolding resolve_credentials with_base check_base assert_safe_base_url
resolved = refl
