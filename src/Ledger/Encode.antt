-- ===== src/Ledger/Encode.antt =====
-- pkg/cantonsdk/values/encode.go and meta.go: ledger values made from Go values, and the readers of metadata.
-- A Go map is the list of its entries, no key twice; `GoMap` has what the readers build.
use Prim.Native.String.{compare}
use package.text.Mathlib.Text.{is_le}
use canton_middleware.Prelude.{String, Option, none, some, List, [], ◌∷◌, if◌then◌else◌}
use canton_middleware.Prelude.Assoc.{lookup, put}
use canton_middleware.Ledger.Values.{
  Value, Fields, Items, nil, text, party, optional, rec, list, text_map, end, field, empty, item,
  GoMap, get, read_text, read_party, record_to_map, string_eq,
}

abbrev pub none_value : Value
none_value = optional nil

abbrev pub optional_value : Value → Value
optional_value v = optional v

-- The field has no label.
unfoldable pub newtype_value : Value → Value
newtype_value inner = rec (field "" inner end)

-- The entries of a map in the order of their keys.
unfoldable pub insert_sorted : String → String → GoMap String → GoMap String
insert_sorted k v [] = (k, v) ∷ []
insert_sorted k v ((j, w) ∷ rows) =
    let rest = insert_sorted k v rows in
    if is_le (compare k j) then (k, v) ∷ (j, w) ∷ rows else (j, w) ∷ rest

unfoldable pub sort_keys : GoMap String → GoMap String
sort_keys [] = []
sort_keys ((k, v) ∷ rows) = insert_sorted k v (sort_keys rows)

unfoldable pub entries_of : GoMap String → Fields
entries_of [] = end
entries_of ((k, v) ∷ rows) = field k (text v) (entries_of rows)

unfoldable pub encode_metadata : GoMap String → Value
unfolding sort_keys entries_of
encode_metadata kvs = rec (field "values" (text_map (entries_of (sort_keys kvs))) end)

unfoldable pub empty_metadata : Value
unfolding encode_metadata
empty_metadata = encode_metadata []

unfoldable pub encode_instrument_id : String → String → Value
encode_instrument_id admin id = rec (field "admin" (party admin) (field "id" (text id) end))

unfoldable pub encode_extra_args : GoMap String → Value
unfolding empty_metadata encode_metadata
encode_extra_args [] = rec (field "context" empty_metadata (field "meta" empty_metadata end))
encode_extra_args (kv ∷ kvs) =
    rec (field "context" (encode_metadata (kv ∷ kvs)) (field "meta" empty_metadata end))

unfoldable pub encode_optional_metadata : GoMap String → Value
unfolding encode_metadata
encode_optional_metadata [] = none_value
encode_optional_metadata (kv ∷ kvs) = optional_value (encode_metadata (kv ∷ kvs))

-- A later entry of a key replaces an earlier one.
unfoldable pub text_map_from : GoMap String → Fields → GoMap String
unfolding read_text
text_map_from out end = out
text_map_from out (field k v rest) = text_map_from (put k (read_text v) out) rest

unfoldable pub decode_text_map : Value → GoMap String
unfolding text_map_from
decode_text_map (text_map entries) = text_map_from [] entries
decode_text_map _ = []

unfoldable pub decode_metadata : Value → GoMap String
unfolding decode_text_map get record_to_map
decode_metadata (rec fields) = decode_text_map (get (record_to_map fields) "values")
decode_metadata _ = []

-- A nil map is `none`.
unfoldable pub decode_optional_metadata : Value → Option (GoMap String)
unfolding decode_metadata
decode_optional_metadata (optional nil) = none
decode_optional_metadata (optional v) = some (decode_metadata v)
decode_optional_metadata _ = none

unfoldable pub decode_instrument_id : Value → String × String
unfolding read_party read_text get record_to_map
decode_instrument_id (rec fields) =
    (read_party (get (record_to_map fields) "admin"), read_text (get (record_to_map fields) "id"))
decode_instrument_id _ = ("", "")

abbrev or_empty : Option String → String
or_empty none = ""
or_empty (some s) = s

unfoldable pub meta_symbol : Value → String
unfolding decode_metadata
meta_symbol v = or_empty (lookup "splice.chainsafe.io/symbol" (decode_metadata v))

unfoldable pub meta_symbol_from_record : Fields → String
unfolding meta_symbol get record_to_map
meta_symbol_from_record args = meta_symbol (get (record_to_map args) "meta")

abbrev pub items_of : List Value → Items
items_of [] = empty
items_of (v ∷ vs) = item v (items_of vs)

unfoldable pub list_value : List Value → Value
list_value elements = list (items_of elements)
