-- ===== src/Errors/Api.antt =====
-- What `parse_api_error` of sdk/src/errors.ts makes of a response.
use cards.Prelude.{ℕ, ◌≡◌, refl, inl, inr, some, String, str_eq, str_cases, get_or, if◌then◌else◌}
use cards.Errors.{ApiBody, parse_api_error, error_of_code, code}

-- The code under which the SDK reports a code of the backend: two pairs of codes are one.
unfoldable pub reported_code : String → String
reported_code c =
    if str_eq c "xlm_price_unavailable"
    then "price_unavailable"
    else if str_eq c "missing_api_key"
    then "invalid_api_key"
    else c

code-error_of_code :
    (c m : String) (s : ℕ) (body : ApiBody)
    → code (error_of_code c m s body) ≡ some (reported_code c)
unfolding code error_of_code reported_code
code-error_of_code c m s body = elim (str_cases c "spend_limit_exceeded") [
  | inl e ↦ rw e refl
  | inr n1 ↦ elim (str_cases c "rate_limit_exceeded") [
    | inl e ↦ rw e refl
    | inr n2 ↦ elim (str_cases c "service_temporarily_unavailable") [
      | inl e ↦ rw e refl
      | inr n3 ↦ elim (str_cases c "price_unavailable") [
        | inl e ↦ rw e refl
        | inr n4 ↦ elim (str_cases c "xlm_price_unavailable") [
          | inl e ↦ rw e refl
          | inr n5 ↦ elim (str_cases c "invalid_amount") [
            | inl e ↦ rw e refl
            | inr n6 ↦ elim (str_cases c "missing_api_key") [
              | inl e ↦ rw e refl
              | inr n7 ↦ elim (str_cases c "invalid_api_key") [
                | inl e ↦ rw e refl
                | inr n8 ↦ rw (n1, n2, n3, n4, n5, n6, n7, n8, error_of_code, reported_code) refl
              ]
            ]
          ]
        ]
      ]
    ]
  ]
]

-- Whatever the body, the error is a typed one, and its code is the body's, up to the two synonyms.
code-parse_api_error :
    (s : ℕ) (body : ApiBody)
    → code (parse_api_error s body) ≡ some (reported_code (get_or body.error_field "unknown"))
unfolding parse_api_error
code-parse_api_error s body = code-error_of_code (get_or body.error_field "unknown") _ s body
