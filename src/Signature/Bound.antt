-- ===== src/Signature/Bound.antt =====
-- What a callback that backend/src/api/vcc-callback.js lets through has signed.
use cards.Prelude.{
  ℕ, ◌≡◌, ◌≢◌, refl, sym, ap, ◌∙◌, Bool, true, false, ◌&&◌, Option, none, some, String, str_cases,
  truthy, if◌then◌else◌, Bool-cases, inl, inr, &&-true, none_some, arith,
}
use cards.Prelude.Text.{Text}
use cards.Fulfillment.{State, or_null}
use cards.Fulfillment.Callback.{
  Headers, Guard, Signature, signed, fields_missing, too_old, bad, Answer, missing_signature, known,
  refused, with_nonce, with_opened, open_row, look_up, checked, after_check, authorize, equal_texts,
  check_body, respond, callback_request, Report, CardPart,
}
use cards.Signature.{
  verify_callback, verify_vcc_signature, signed_with, check_v3, payload_v3, provided, safe_eq_hex,
  text_or_empty,
}

respond-changed :
    (x y : Option Answer) (r : Report) (w : State)
    → (respond x y r w).0 ≢ w
    → (x ≡ none) × (y ≡ none)
respond-changed (some a) y r w c = absurd (c refl)
respond-changed none (some a) r w c = absurd (c refl)
respond-changed none none r w c = (refl, refl)

check_body-same :
    (h : Headers) (id status : Option String)
    → truthy h.order_id ≡ true
    → check_body h id status ≡ none
    → equal_texts h.order_id id ≡ true
check_body-same h id status t e = elim (Bool-cases (equal_texts h.order_id id)) [
  | inl b ↦ b
  | inr b ↦ ground arith
]

module _ (hmac : (secret payload : String) → Text) (h : Headers) (body : String) where
  -- The signature is the HMAC, under the key, of the time, the order, the nonce and the body.
  pub record IsSigned (nonce key : String) : Type 0 where
    pub sent : h.nonce ≡ some nonce
    pub matches :
        safe_eq_hex
          (provided (text_or_empty h.signature))
          (hmac key (payload_v3 (text_or_empty h.timestamp) (text_or_empty h.order_id) nonce body))
        ≡ true

  check_v3-matches :
      (key ts : String) (order : Option String) (n : String) (given : Text)
      → check_v3 hmac key ts body order (some n) given true ≡ signed
      → safe_eq_hex given (hmac key (payload_v3 ts (text_or_empty order) n body)) ≡ true
  check_v3-matches key ts order n given e = ground arith

  passed :
      (a b c d : Bool) (x : Signature)
      → (if a
          then fields_missing
          else if b
          then too_old
          else if c
          then bad
          else if d
          then bad
          else x)
        ≡ signed
      → x ≡ signed
  passed a b c d x e = ground arith

  verify_callback-check_v3 :
      (key ts header : String) (order nonce : Option String) (now : ℕ) (v3 : Bool)
      → verify_callback hmac key header ts body order nonce now v3 ≡ signed
      → check_v3 hmac key ts body order nonce (provided header) v3 ≡ signed
  unfolding verify_callback
  verify_callback-check_v3 key ts header order sent now v3 e = passed _ _ _ _ _ e

  after_check-signed : (s : Signature) → after_check s ≡ none → s ≡ signed
  after_check-signed s e = ground arith

  equal_texts-some : (a : Option String) (n : String) → equal_texts a (some n) ≡ true → a ≡ some n
  equal_texts-some none n e = cc
  equal_texts-some (some s) n e = elim (str_cases s n) [ inl q ↦ ap some q | inr f ↦ ground arith ]

  guarded : (b : Bool) (x : Signature) → (if b then x else fields_missing) ≡ signed → x ≡ signed
  guarded b x e = ground arith

  unguarded :
      (b : Bool) (x : Option Answer) (a : Answer) → (if b then some a else x) ≡ none → x ≡ none
  unguarded true x a e = none_some (sym e)
  unguarded false x a e = e

  or_null-truthy : (n : String) → truthy (some n) ≡ true → or_null (some n) ≡ some n
  or_null-truthy n t = ap (λ b. if b then some n else none) t

  signed_key :
      (key : Option String) (n : String) (now : ℕ)
      → h.nonce ≡ some n
      → signed_with hmac key h body (some n) now true ≡ signed
      → (k : String) × (key ≡ some k) × IsSigned n k
  signed_key none n now e s = cc
  signed_key (some key) n now e s = (
    key,
    refl,
    record {
      sent = e;
      matches =
          check_v3-matches key (text_or_empty h.timestamp) h.order_id n
            (provided (text_or_empty h.signature))
            (verify_callback-check_v3 key (text_or_empty h.timestamp) (text_or_empty h.signature)
              h.order_id (some n) now true (guarded _ _ s));
    },
  )

  module _ (open_secret : String → Option String) (shared : Option String) (now : ℕ) where
    -- The key that a row's callbacks are signed with: its own secret, or the shared one.
    abbrev pub key_of : Option String → Option String
    key_of secret = if truthy secret then secret else shared

    -- A row with a nonce that lets a callback through.
    nonce-IsSigned :
        (n : String) (secret : Option String)
        → truthy (some n) ≡ true
        → checked open_secret
            (verify_vcc_signature hmac shared body now)
            h
            (with_nonce h.nonce (some n) secret)
          ≡ none
        → (k : String) × (key_of secret ≡ some k) × IsSigned n k
    unfolding verify_vcc_signature
    nonce-IsSigned n secret t e =
        elim (Bool-cases (truthy h.nonce && equal_texts h.nonce (some n))) [
          | inl b ↦
              signed_key (key_of secret) n now
                (equal_texts-some h.nonce n
                  (&&-true (truthy h.nonce) (equal_texts h.nonce (some n)) b).1)
                (ap (λ m. signed_with hmac (key_of secret) h body m now true)
                    (sym (or_null-truthy n t))
                  ∙ after_check-signed
                      (signed_with hmac (key_of secret) h body (or_null (some n)) now true)
                      (ap
                          (λ c.
                            checked open_secret (verify_vcc_signature hmac shared body now) h
                              (if c then known (some n) secret else refused))
                          (sym b)
                        ∙ e))
          | inr b ↦ none_some (
              sym e
              ∙ ap
                  (λ c.
                    checked open_secret (verify_vcc_signature hmac shared body now) h
                      (if c then known (some n) secret else refused))
                  b)
        ]

    -- The key of a row, where its secret opens.
    abbrev pub row_key : Option String → Option String
    row_key none = key_of none
    row_key (some box) = key_of (open_secret box)

    opened-IsSigned :
        (n : String) (x : Option String)
        → truthy (some n) ≡ true
        → checked open_secret
            (verify_vcc_signature hmac shared body now)
            h
            (with_opened h.nonce (some n) x)
          ≡ none
        → (k : String) × (key_of x ≡ some k) × IsSigned n k
    opened-IsSigned n none t e = none_some (sym e)
    opened-IsSigned n (some x) t e = nonce-IsSigned n (some x) t e

    open_row-IsSigned :
        (row : Guard) (n : String) (box : Option String)
        → or_null row.callback_nonce ≡ some n
        → truthy (some n) ≡ true
        → checked open_secret
            (verify_vcc_signature hmac shared body now)
            h
            (open_row open_secret h.nonce row box)
          ≡ none
        → (k : String) × (row_key box ≡ some k) × IsSigned n k
    open_row-IsSigned row n none q t e = nonce-IsSigned n none t (rw q at (e))
    open_row-IsSigned row n (some box) q t e = opened-IsSigned n (open_secret box) t (rw q at (e))

    authorize-IsSigned :
        (row : Guard) (n : String)
        → truthy h.order_id ≡ true
        → or_null row.callback_nonce ≡ some n
        → truthy (some n) ≡ true
        → authorize open_secret (verify_vcc_signature hmac shared body now) h (some row) ≡ none
        → (k : String) × (row_key (or_null row.callback_secret) ≡ some k) × IsSigned n k
    unfolding authorize look_up
    authorize-IsSigned row n o q t e =
        let box = or_null row.callback_secret in
        open_row-IsSigned row n box q t (
          ap
            (λ b.
              checked open_secret (verify_vcc_signature hmac shared body now) h
                (if b then open_row open_secret h.nonce row box else known none none))
            (sym o)
          ∙ unguarded _ _ missing_signature e)

    -- A callback that changes anything in the backend, where its headers name an order whose row holds a
    -- nonce, was sent with that nonce and for the order of its body, and its signature is the HMAC of its
    -- time, order, nonce and body under the key of that order: the order's own secret where the row has
    -- one, or else the shared one. So neither a missing nonce, nor a signature of the older form, nor a
    -- secret that does not open lets a callback through.
    pub callback_request-IsSigned :
        (row : Guard) (n : String) (order_id status : Option String) (card : CardPart) (w : State)
        → truthy h.order_id ≡ true
        → or_null row.callback_nonce ≡ some n
        → truthy (some n) ≡ true
        → (callback_request open_secret
            (verify_vcc_signature hmac shared body now)
            h
            (some row)
            order_id
            status
            card
            w).0
          ≢ w
        → (equal_texts h.order_id order_id ≡ true)
          × ((k : String) × (row_key (or_null row.callback_secret) ≡ some k) × IsSigned n k)
    unfolding callback_request
    callback_request-IsSigned row n order_id status card w o q t c =
        let (a, b) =
          respond-changed
            (authorize open_secret (verify_vcc_signature hmac shared body now) h (some row))
            (check_body h order_id status) _ w c in
        (check_body-same h order_id status o b, authorize-IsSigned row n o q t a)
