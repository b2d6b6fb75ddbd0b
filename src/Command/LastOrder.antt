-- ===== src/Command/LastOrder.antt =====
-- The file ~/.cards402/last-order: `saveLastOrder`, `loadLastOrder` and `clearLastOrder` of
-- sdk/src/commands/purchase.ts. `parse` is `JSON.parse`, read at the fields that the code looks at,
-- and `print` is `JSON.stringify` of the state with the time of the save.
use Prim.Native.Char.{code}
use Prim.Native.String.{[], ◌∷◌}
use cards.Prelude.{
  ℕ, ◌≤◌, ◌≡◌, refl, sym, Bool, true, false, Option, none, some, String, str_eq, ◌==◌, ltb, arith,
  if◌then◌else◌,
}
use cards.Prelude.Trim.{trim, close, trim-close}
use cards.Errors.{Phase}

pub record LastOrderState : Type 0 where
  pub order_id : String
  pub tx_hash : Option String
  pub phase : Option Phase

-- A field of the parsed object is here `none` if it is missing or no string, and the phase also if it
-- is another string.
pub record Fields : Type 0 where
  pub order_id : Option String
  pub tx_hash : Option String
  pub phase : Option Phase

-- The file, if it is there: its size in bytes and its text.
pub record Stored : Type 0 where
  pub size : ℕ
  pub text : String

abbrev pub max_last_order_bytes : ℕ
max_last_order_bytes = 16384

-- `s.split('\n')[0]`.
first_line : String → String
first_line [] = []
first_line (c ∷ s) = let rest = first_line s in if code c == b'\n' then [] else c ∷ rest

-- `clearLastOrder` leaves no file.
abbrev pub clear_last_order : Option Stored
clear_last_order = none

-- A save that fails leaves the file that was there.
unfoldable pub save_last_order :
    (LastOrderState → Stored) → (writable : Bool) → LastOrderState → Option Stored → Option Stored
save_last_order print writable state file = if writable then some (print state) else file

module _ (parse : String → Option Fields) where
  abbrev of_fields : Fields → Option LastOrderState
  of_fields f = elim f.order_id [
    | none ↦ none
    | some order_id ↦
        if str_eq order_id ""
        then none
        else some (record { order_id = order_id; tx_hash = f.tx_hash; phase = f.phase })
  ]

  abbrev of_line : String → Option LastOrderState
  of_line s =
      if str_eq s "" then none else some (record { order_id = s; tx_hash = none; phase = none })

  of_trimmed : String → Option LastOrderState
  unfolding first_line
  of_trimmed [] = none
  of_trimmed (c ∷ s) =
      if code c == b'{'
      then elim (parse (c ∷ s)) [ none ↦ none | some f ↦ of_fields f ]
      else of_line (trim (first_line (c ∷ s)))

  unfoldable pub load_last_order : Option Stored → Option LastOrderState
  unfolding of_trimmed
  load_last_order none = none
  load_last_order (some file) =
      if ltb max_last_order_bytes file.size then none else of_trimmed (trim file.text)

-- What the code relies on of `JSON.stringify` and `JSON.parse`: a state prints as an object, which
-- parses to its fields.
pub record Json (parse : String → Option Fields) (print : LastOrderState → Stored) : Type 0 where
  pub braced : (x : LastOrderState) → (body : String) × ((print x).text ≡ "{" ∷ close body)
  pub parses :
      (x : LastOrderState)
      → parse (print x).text
        ≡ some (record { order_id = some x.order_id; tx_hash = x.tx_hash; phase = x.phase })

module _ (parse : String → Option Fields) (print : LastOrderState → Stored)
    (json : Json parse print) where
  -- A state that is saved, whose order id is not empty and whose file is not too large, is the one
  -- that is loaded next, whatever file there was.
  pub load_last_order-save_last_order :
      (x : LastOrderState) (file : Option Stored)
      → str_eq x.order_id "" ≡ false
      → (print x).size ≤ max_last_order_bytes
      → load_last_order parse (save_last_order print true x file) ≡ some x
  unfolding load_last_order save_last_order of_trimmed
  load_last_order-save_last_order x file named small =
      let (body, b) = json.braced x in
      let named_small : ltb max_last_order_bytes (print x).size ≡ false = ground arith in
      rw (named_small, b, trim-close body, of_trimmed, sym b, json.parses x, named) refl
