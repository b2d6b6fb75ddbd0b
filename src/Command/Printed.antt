-- ===== src/Command/Printed.antt =====
-- A concrete text for the state of the last order, with a reader: an instance of what the command
-- relies on of JSON.
use Prim.Native.Char.{Char, code}
use Prim.Native.String.{[], ◌∷◌}
use cards.Prelude.{◌≡◌, refl, ap, ◌∙◌, Option, none, some, String, ◌==◌, if◌then◌else◌}
use cards.Prelude.Trim.{close}
use cards.Errors.{Phase, unpaid, paid}
use cards.Command.LastOrder.{LastOrderState, Fields, Stored, Json}

-- A string with a mark before each character and one at its end, and what follows it.
abbrev put : String → String → String
put [] rest = "." ∷ rest
put (c ∷ s) rest = "x" ∷ c ∷ put s rest

abbrev cons_first : Char → String × String → String × String
cons_first c (s, rest) = (c ∷ s, rest)

abbrev take : String → String × String
take [] = ([], [])
take (m ∷ []) = ([], [])
take (m ∷ c ∷ s) = if code m == b'x' then cons_first c (take s) else ([], c ∷ s)

take-put : (s : String) (c : Char) (rest : String) → take (put s (c ∷ rest)) ≡ (s, c ∷ rest)
take-put [] c rest = refl
take-put (d ∷ s) c rest = ap (cons_first d) (take-put s c rest)

close-put : (s rest : String) → close (put s rest) ≡ put s (close rest)
close-put [] rest = refl
close-put (c ∷ s) rest = ap (λ t. "x" ∷ c ∷ t) (close-put s rest)

-- The phase and the hash come first.
abbrev phase_mark : Option Phase → Char
phase_mark none = "n"
phase_mark (some unpaid) = "u"
phase_mark (some paid) = "p"

abbrev of_mark : Char → Option Phase
of_mark m = if code m == b'u' then some unpaid else if code m == b'p' then some paid else none

abbrev hash_text : Option String → String → String
hash_text none rest = "n" ∷ put "" rest
hash_text (some h) rest = "s" ∷ put h rest

abbrev print_body : LastOrderState → String
print_body x = phase_mark x.phase ∷ hash_text x.tx_hash (put x.order_id "")

abbrev pub print : LastOrderState → Stored
print x = record { size = 100; text = "{" ∷ close (print_body x) }

abbrev fields : Char → Char → String × String → Fields
fields p h (hash, rest) = record {
  order_id = some (take rest).0;
  tx_hash = if code h == b's' then some hash else none;
  phase = of_mark p;
}

abbrev pub parse : String → Option Fields
parse (b ∷ p ∷ h ∷ s) = some (fields p h (take s))
parse _ = none

take-put-put : (s t : String) → take (put s (put t "}")) ≡ (s, put t "}")
take-put-put s [] = take-put s "." "}"
take-put-put s (c ∷ t) = take-put s "x" (c ∷ put t "}")

of_mark-phase_mark : (p : Option Phase) → of_mark (phase_mark p) ≡ p
of_mark-phase_mark none = refl
of_mark-phase_mark (some unpaid) = refl
of_mark-phase_mark (some paid) = refl

-- The hash and the id, as they are read behind the two marks.
take-close : (s t : String) → take (close (put s (put t ""))) ≡ (s, put t "}")
take-close s t = ap take (close-put s (put t "") ∙ ap (put s) (close-put t "")) ∙ take-put-put s t

parse-print :
    (order_id : String) (tx_hash : Option String) (phase : Option Phase)
    → parse (print (record { order_id = order_id; tx_hash = tx_hash; phase = phase })).text
      ≡ some (record { order_id = some order_id; tx_hash = tx_hash; phase = phase })
parse-print order_id none phase =
    rw (take-close "" order_id, take-put order_id "}" "", of_mark-phase_mark phase) refl
parse-print order_id (some h) phase =
    rw (take-close h order_id, take-put order_id "}" "", of_mark-phase_mark phase) refl

pub printed-Json : Json parse print
printed-Json = record {
  braced = λ x. (print_body x, refl);
  parses = λ x. parse-print x.order_id x.tx_hash x.phase;
}
