-- ===== src/Ledger/Values.antt =====
-- pkg/cantonsdk/values/decode.go and values.go: the readers of ledger values. `nil` is the nil pointer and
-- `other` a value of a kind that no reader looks at; an Optional that holds nothing, or a nil pointer, is
-- `optional nil`; a record, list or map with no message inside is one with no entries. A `time.Time` is the
-- number of its microsecond, and `none` is the zero time.
use canton_middleware.Prelude.{
  String, Bool, true, false, Option, none, some, List, [], ◌∷◌, str_eq, if◌then◌else◌,
}
use canton_middleware.Prelude.Int.{ℤ}
use canton_middleware.Prelude.Assoc.{Eq, lookup, put}
use canton_middleware.Prelude.{eq_iff}

mutual
  pub data Value : Type 0 where
    nil : Value
    other : Value
    text : String → Value
    party : String → Value
    numeric : String → Value
    int64 : ℤ → Value
    contract_id : String → Value
    timestamp : ℤ → Value
    optional : Value → Value
    rec : Fields → Value
    list : Items → Value
    text_map : Fields → Value
    gen_map : Pairs → Value

  -- The fields of a record with their labels, or the entries of a TextMap with their keys.
  pub data Fields : Type 0 where
    end : Fields
    field : String → Value → Fields → Fields

  pub data Items : Type 0 where
    empty : Items
    item : Value → Items → Items

  pub data Pairs : Type 0 where
    done : Pairs
    pair : Value → Value → Pairs → Pairs

instance abbrev pub string_eq : Eq String
string_eq = record { beq = str_eq; beq_iff = eq_iff }

abbrev pub GoMap : Type 0 → Type 0
GoMap V = List (String × V)

unfoldable pub read_text : Value → String
read_text (text s) = s
read_text _ = ""

unfoldable pub read_party : Value → String
read_party (party s) = s
read_party _ = ""

unfoldable pub text_ok : Value → Option String
text_ok (text s) = some s
text_ok _ = none

unfoldable pub party_ok : Value → Option String
party_ok (party s) = some s
party_ok _ = none

abbrev parties_of : Items → List String
parties_of empty = []
parties_of (item v rest) =
    let ps = parties_of rest in if str_eq (read_party v) "" then ps else read_party v ∷ ps

unfoldable pub party_list : Value → List String
unfolding read_party
party_list (list items) = parties_of items
party_list _ = []

unfoldable pub read_numeric : Value → String
read_numeric (numeric s) = s
read_numeric _ = "0"

unfoldable pub numeric_ok : Value → Option String
numeric_ok (numeric s) = some s
numeric_ok _ = none

unfoldable pub read_contract_id : Value → String
read_contract_id (contract_id s) = s
read_contract_id _ = ""

unfoldable pub is_none : Value → Bool
is_none nil = true
is_none (optional nil) = true
is_none _ = false

unfoldable pub optional_text : Value → String
unfolding read_text
optional_text (optional v) = read_text v
optional_text _ = ""

unfoldable pub optional_party : Value → String
unfolding read_party
optional_party (optional v) = read_party v
optional_party _ = ""

unfoldable pub read_timestamp : Value → Option ℤ
read_timestamp (timestamp t) = some t
read_timestamp _ = none

unfoldable pub newtype_text : Value → String
unfolding read_text
newtype_text (rec (field label v rest)) = read_text v
newtype_text _ = ""

-- A later field of a label replaces an earlier one, and a field with no label is passed over.
unfoldable pub record_to_map_from : GoMap Value → Fields → GoMap Value
record_to_map_from m end = m
record_to_map_from m (field label v rest) =
    record_to_map_from (if str_eq label "" then m else put label v m) rest

unfoldable pub record_to_map : Fields → GoMap Value
unfolding record_to_map_from
record_to_map fields = record_to_map_from [] fields

-- A key that is not there reads as the nil pointer.
abbrev or_nil : Option Value → Value
or_nil none = nil
or_nil (some v) = v

unfoldable pub get : GoMap Value → String → Value
get m k = or_nil (lookup k m)

-- A nil map reads as an empty one.
unfoldable pub record_field : Value → GoMap Value
unfolding record_to_map
record_field (rec fields) = record_to_map fields
record_field _ = []

unfoldable pub nested_text_field : Value → String → String
unfolding read_text get record_field
nested_text_field v k = read_text (get (record_field v) k)

unfoldable pub nested_text_field_ok : Value → String → Option String
unfolding text_ok get record_field
nested_text_field_ok v k = text_ok (get (record_field v) k)

unfoldable pub nested_party_field : Value → String → String
unfolding read_party get record_field
nested_party_field v k = read_party (get (record_field v) k)

unfoldable pub nested_party_field_ok : Value → String → Option String
unfolding party_ok get record_field
nested_party_field_ok v k = party_ok (get (record_field v) k)

unfoldable pub optional_record_fields : Value → GoMap Value
unfolding record_field
optional_record_fields (optional v) = record_field v
optional_record_fields _ = []

-- The first entry of a key counts.
abbrev text_entry : Fields → String → String
text_entry end key = ""
text_entry (field k v rest) key = if str_eq k key then read_text v else text_entry rest key

abbrev gen_entry : Pairs → String → String
gen_entry done key = ""
gen_entry (pair k v rest) key = if str_eq (read_text k) key then read_text v else gen_entry rest key

unfoldable pub map_lookup_text : Value → String → String
unfolding read_text
map_lookup_text (text_map entries) key = text_entry entries key
map_lookup_text (gen_map entries) key = gen_entry entries key
map_lookup_text _ key = ""
