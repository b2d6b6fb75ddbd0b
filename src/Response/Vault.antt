-- ===== src/Response/Vault.antt =====
-- backend/src/lib/card-vault.js: the sealing of a card's columns and their opening. `seal` and `open` of
-- the secret box are parameters; nothing stands for an exception.
use cards.Prelude.{ℕ, ◌+◌, ◌||◌, Option, none, some, String, [], ◌∷◌, str_eq, ltb, if◌then◌else◌}
use cards.Prelude.Text.{Text, codes}
use cards.Prelude.Trim.{trim}

pub record Card : Type 0 where
  pub number : Option String
  pub cvv : Option String
  pub expiry : Option String
  pub brand : Option String

abbrev max_field_bytes : ℕ
max_field_bytes = 64

-- The bytes of a character in UTF-8.
abbrev utf8_size : ℕ → ℕ
utf8_size c = if ltb c 128 then 1 else if ltb c 2_048 then 2 else if ltb c 65_536 then 3 else 4

-- `Buffer.byteLength(text, 'utf8')`.
abbrev pub byte_length : Text → ℕ
byte_length [] = 0
byte_length (c ∷ s) = utf8_size c + byte_length s

-- The three columns of a card and its brand, when none of them threw.
abbrev pub card_of :
    Option (Option String)
    → Option (Option String)
    → Option (Option String)
    → Option String
    → Option Card
card_of none cvv expiry brand = none
card_of (some n) none expiry brand = none
card_of (some n) (some v) none brand = none
card_of (some n) (some v) (some e) brand =
    some (record { number = n; cvv = v; expiry = e; brand = brand })

module _ (seal : String → String) where
  unfoldable pub seal_field : Option String → Option (Option String)
  seal_field none = some none
  seal_field (some value) =
      if str_eq (trim value) "" || ltb max_field_bytes (byte_length (codes value))
      then none
      else some (some (seal value))

  -- `sealCard` of a card.
  unfoldable pub seal_card : Card → Option Card
  unfolding seal_field
  seal_card c = card_of (seal_field c.number) (seal_field c.cvv) (seal_field c.expiry) c.brand

module _ (open_box : String → Option String) where
  abbrev pub some_opened : Option String → Option (Option String)
  some_opened none = none
  some_opened (some s) = some (some s)

  -- `safeOpen`.
  abbrev pub safe_open : Option String → Option (Option String)
  safe_open none = some none
  safe_open (some value) = if str_eq value "" then some none else some_opened (open_box value)

  -- `openCard` of a row.
  unfoldable pub open_card : Card → Option Card
  open_card c = card_of (safe_open c.number) (safe_open c.cvv) (safe_open c.expiry) c.brand
