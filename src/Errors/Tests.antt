-- ===== src/Errors/Tests.antt =====
-- Error bodies as the backend sends them.
use cards.Prelude.{◌≡◌, refl, none, some}
use cards.Errors.{ApiBody, spend_limit, parse_api_error, error_of_code}

abbrev body : ApiBody
body = record {
  error_field = some "spend_limit_exceeded";
  message_field = none;
  limit = some "100";
  spent = some "95";
}

limit_error : parse_api_error 403 body ≡ spend_limit "100" "95"
unfolding parse_api_error error_of_code
limit_error = refl
