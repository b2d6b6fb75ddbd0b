-- ===== src/Client/OrderId.antt =====
-- The order ids that the client puts into a URL: `validateOrderId` of sdk/src/client.ts.
use Prim.Native.String.{◌++◌}
use cards.Prelude.{
  ℕ, ◌≤◌, ◌≡◌, refl, Bool, true, ◌&&◌, ◌||◌, [], ◌∷◌, arith, String, ◌==◌, leb, all, any, length,
  if◌then◌else◌, &&-true, ◌/◌, ◌%◌, ◌+◌, ◌-◌,
}
use cards.Prelude.Text.{Text, codes}
use cards.Errors.{Result, ok, err, cards402_error}

unfoldable pub is_alnum : ℕ → Bool
is_alnum c = (leb b'a' c && leb c b'z') || (leb b'A' c && leb c b'Z') || (leb b'0' c && leb c b'9')

-- `[a-zA-Z0-9_-]`.
unfoldable pub is_id_char : ℕ → Bool
is_id_char c = is_alnum c || c == b'_' || c == b'-'

-- `/^[a-zA-Z0-9_-]{1,64}$/`.
unfoldable pub is_order_id : Text → Bool
unfolding is_id_char is_alnum
is_order_id id = leb 1 (length id) && leb (length id) 64 && all is_id_char id

-- `order_id.slice(0, 32)`.
head_chars : ℕ → String → String
head_chars n String.[] = ""
head_chars ℕ.zero (String.◌∷◌ c s) = ""
head_chars (ℕ.suc n) (String.◌∷◌ c s) = String.◌∷◌ c (head_chars n s)

unfoldable pub validate_order_id : String → Result (Unit {0})
unfolding is_order_id head_chars
validate_order_id order_id =
    if is_order_id (codes order_id)
    then ok tt
    else err
        (cards402_error ("Invalid order id: " ++ head_chars 32 order_id) "invalid_order_id" 400)

-- The characters that `encodeURIComponent` leaves alone.
is_unreserved : ℕ → Bool
is_unreserved c = is_alnum c || any (λ u. c == u) (codes "-_.!~*'()")

hex_digit : ℕ → ℕ
hex_digit d = if leb d 9 then b'0' + d else b'A' + (d - 10)

-- `encodeURIComponent`, for ASCII texts.
unfoldable pub encode_component : Text → Text
unfolding is_unreserved hex_digit is_alnum
encode_component [] = []
encode_component (c ∷ s) =
    if is_unreserved c
    then c ∷ encode_component s
    else b'%' ∷ hex_digit (c / 16) ∷ hex_digit (c % 16) ∷ encode_component s

is_id_char-is_unreserved : (c : ℕ) → is_id_char c ≡ true → is_unreserved c ≡ true
unfolding is_id_char is_unreserved
is_id_char-is_unreserved c h = ground arith

encode_component-cons :
    (c : ℕ) (t : Text)
    → is_unreserved c ≡ true
    → encode_component t ≡ t
    → encode_component (c ∷ t) ≡ c ∷ t
unfolding encode_component
encode_component-cons c t h e = rw (e, h, encode_component) refl

all_id_char-encode : (t : Text) → all is_id_char t ≡ true → encode_component t ≡ t
all_id_char-encode [] h = unfold encode_component in refl
all_id_char-encode (c ∷ t) h =
    let (p, ps) = &&-true (is_id_char c) (all is_id_char t) h in
    encode_component-cons c t (is_id_char-is_unreserved c p) (all_id_char-encode t ps)

-- An id that passes the check has 1 to 64 characters, and `encodeURIComponent` leaves it as it is:
-- the URL of the stream, which is built without that call, names the same order as the URL of
-- `getOrder`, which is built with it.
validate_order_id-encode :
    (id : String)
    → validate_order_id id ≡ ok tt
    → (1 ≤ length (codes id)) × (length (codes id) ≤ 64) × (encode_component (codes id) ≡ codes id)
unfolding validate_order_id
validate_order_id-encode id h =
    (ground arith, ground arith, all_id_char-encode (codes id) (ground arith))
