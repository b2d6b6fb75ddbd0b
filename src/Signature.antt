-- ===== src/Signature.antt =====
-- The signature of a callback: `verifyCallback`, `signCallback` and `safeEqHex` of
-- backend/src/lib/hmac.js, and `verifyVccSignature` of backend/src/vcc-client.js. The HMAC itself, of
-- the platform, is a parameter that gives a hex text. A timestamp so long that `parseInt` makes it
-- infinite is refused here as too old.
pub mod Bound
pub mod Tests
use Prim.Native.String.{◌++◌}
use cards.Prelude.{
  ℕ, ◌+◌, ◌-◌, ◌*◌, ◌≡◌, refl, Bool, true, false, not, ◌&&◌, ◌||◌, List, [], ◌∷◌, Option, none,
  some, String, ◌==◌, str_eq, truthy, ltb, leb, all, any, length, if◌then◌else◌,
}
use cards.Prelude.Text.{Text, codes, is_digit, is_digits, digits_value}
use cards.Fulfillment.{or_null}
use cards.Fulfillment.Callback.{Headers, Signature, signed, fields_missing, too_old, bad}

-- Ten minutes.
abbrev max_skew_ms : ℕ
max_skew_ms = 600_000

-- `Math.abs(now - ts)`.
abbrev distance : ℕ → ℕ → ℕ
distance a b = if leb a b then b - a else a - b

abbrev hex_value : ℕ → ℕ
hex_value c = if is_digit c then c - b'0' else if leb b'a' c then c - 87 else c - 55

abbrev is_hex_digit : ℕ → Bool
is_hex_digit c = is_digit c || leb b'a' c && leb c b'f' || leb b'A' c && leb c b'F'

-- `/^[0-9a-f]+$/i`.
abbrev is_hex : Text → Bool
is_hex [] = false
is_hex (c ∷ s) = all is_hex_digit (c ∷ s)

-- `Buffer.from(text, 'hex')` of hex digits: a last digit alone is dropped.
abbrev hex_bytes : Text → List ℕ
hex_bytes [] = []
hex_bytes (c ∷ []) = []
hex_bytes (c ∷ d ∷ s) = (hex_value c * 16 + hex_value d) ∷ hex_bytes s

abbrev same_bytes : List ℕ → List ℕ → Bool
same_bytes [] [] = true
same_bytes [] (d ∷ t) = false
same_bytes (c ∷ s) [] = false
same_bytes (c ∷ s) (d ∷ t) = c == d && same_bytes s t

unfoldable pub safe_eq_hex : Text → Text → Bool
safe_eq_hex a b =
    if not (length a == length b)
    then false
    else if not (is_hex a) || not (is_hex b)
    then false
    else same_bytes (hex_bytes a) (hex_bytes b)

-- `FIELD_UNSAFE`: a dot, or a control character.
abbrev unsafe : ℕ → Bool
unsafe c = c == b'.' || leb c 31

unfoldable pub is_canonical_field : String → Bool
is_canonical_field value = not (str_eq value "") && not (any unsafe (codes value))

-- The two payloads.
abbrev pub payload_v3 : String → String → String → String → String
payload_v3 ts order nonce body = ts ++ ("." ++ (order ++ ("." ++ (nonce ++ ("." ++ body)))))

abbrev pub payload_v2 : String → String → String → String
payload_v2 ts order body = ts ++ ("." ++ (order ++ ("." ++ body)))

-- `.replace(/^sha256=/, '')`, on codes.
abbrev drop_prefix : Text → Text → Text → Text
drop_prefix whole [] s = s
drop_prefix whole (c ∷ p) [] = whole
drop_prefix whole (c ∷ p) (d ∷ s) =
    let rest = drop_prefix whole p s in if c == d then rest else whole

abbrev pub provided : String → Text
provided header = drop_prefix (codes header) (codes "sha256=") (codes header)

abbrev pub text_or_empty : Option String → String
text_or_empty none = ""
text_or_empty (some s) = s

abbrev pub bad_field : Option String → Bool
bad_field none = false
bad_field (some s) = not (is_canonical_field s)

module _ (hmac : (secret payload : String) → Text) where
  abbrev pub check_v2 : (secret ts body : String) → Option String → Text → Signature
  check_v2 secret ts body order given =
      if truthy order && safe_eq_hex given (hmac secret (payload_v2 ts (text_or_empty order) body))
      then signed
      else bad

  abbrev pub check_v3 :
      (secret ts body : String) → (order nonce : Option String) → Text → Bool → Signature
  check_v3 secret ts body order nonce given require_v3 =
      if truthy order
        && truthy nonce
        && safe_eq_hex given
            (hmac secret (payload_v3 ts (text_or_empty order) (text_or_empty nonce) body))
      then signed
      else if require_v3
      then bad
      else check_v2 secret ts body order given

  -- `verifyCallback`, for a secret, a signature and a timestamp that are there.
  unfoldable pub verify_callback :
      (secret header ts body : String)
      → (order nonce : Option String) → (now : ℕ) → (require_v3 : Bool) → Signature
  verify_callback secret header ts body order nonce now require_v3 =
      if not (is_digits (codes ts))
      then fields_missing
      else if ltb max_skew_ms (distance now (digits_value (codes ts)))
      then too_old
      else if not (is_hex (provided header))
      then bad
      else if bad_field order || bad_field nonce
      then bad
      else check_v3 secret ts body order nonce (provided header) require_v3

  abbrev pub signed_with :
      Option String → Headers → (body : String) → (nonce : Option String) → ℕ → Bool → Signature
  signed_with none h body sent now require_v3 = fields_missing
  signed_with (some secret) h body sent now require_v3 =
      if truthy (some secret) && truthy h.signature && truthy h.timestamp
      then verify_callback secret (text_or_empty h.signature) (text_or_empty h.timestamp) body
          h.order_id sent now require_v3
      else fields_missing

  -- `verifyVccSignature`: the secret of the order, or else the shared one.
  unfoldable pub verify_vcc_signature :
      (shared : Option String)
      → (body : String) → (now : ℕ) → Headers
      → (nonce secret : Option String) → (require_v3 : Bool) → Signature
  verify_vcc_signature shared body now h nonce secret require_v3 =
      signed_with (if truthy secret then secret else shared) h body (or_null nonce) now require_v3
