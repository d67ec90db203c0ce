-- ===== src/Ledger/RoundTrip.antt =====
-- What pkg/cantonsdk/values writes it reads back.
use Prim.Native.String.{compare}
use Prim.Native.Nat.{Ordering}
use package.text.Mathlib.Text.{is_le, is_eq}
use canton_middleware.Prelude.{
  String, true, false, Option, none, some, [], ◌∷◌, ◌≡◌, ◌≢◌, refl, ◌∙◌, ap, arith, if◌then◌else◌,
  str_eq, eq_iff, Bool-cases, inl, inr,
}
use canton_middleware.Prelude.Assoc.{lookup, put, lookup-put}
use canton_middleware.Ledger.Values.{
  string_eq, text, read_text, read_party, record_to_map, get, GoMap,
}
use canton_middleware.Ledger.Encode.{
  insert_sorted, sort_keys, entries_of, encode_metadata, text_map_from, decode_text_map,
  decode_metadata, encode_instrument_id, decode_instrument_id, meta_symbol,
  encode_optional_metadata, decode_optional_metadata,
}

-- No key stands twice.
abbrev pub Distinct : GoMap String → Type 0
Distinct [] = Unit
Distinct ((k, v) ∷ rows) = (lookup k rows ≡ none) × Distinct rows

is_le_of_eq : (o : Ordering) → is_eq o ≡ true → is_le o ≡ true
is_le_of_eq Ordering.lt e = refl
is_le_of_eq Ordering.eq e = refl
is_le_of_eq Ordering.gt e = absurd (cc)

-- A key before which another does not come is another key.
not_le : (k j : String) → is_le (compare k j) ≡ false → str_eq k j ≡ false
not_le k j e = ground (arith, e, is_le_of_eq (compare k j))

lookup-insert_sorted :
    (k v x : String) (rows : GoMap String)
    → lookup x (insert_sorted k v rows) ≡ (if str_eq k x then some v else lookup x rows)
unfolding insert_sorted lookup
lookup-insert_sorted k v x [] = refl
lookup-insert_sorted k v x ((j, w) ∷ rows) =
    ground (arith, lookup-insert_sorted k v x rows, not_le k j, eq_iff k j, eq_iff k x, eq_iff j x)

lookup-sort_keys : (x : String) (rows : GoMap String) → lookup x (sort_keys rows) ≡ lookup x rows
unfolding sort_keys lookup
lookup-sort_keys x [] = refl
lookup-sort_keys x ((k, v) ∷ rows) =
    lookup-insert_sorted k v x (sort_keys rows) ∙ rw (lookup-sort_keys x rows) refl

Distinct-insert_sorted :
    (k v : String) (rows : GoMap String)
    → lookup k rows ≡ none
    → Distinct rows
    → Distinct (insert_sorted k v rows)
unfolding insert_sorted lookup
Distinct-insert_sorted k v [] fresh d = (refl, tt)
Distinct-insert_sorted k v ((j, w) ∷ rows) fresh d = elim (Bool-cases (is_le (compare k j))) [
  | inl before ↦ rw before (fresh, d)
  | inr after ↦ rw after (
    ground (arith, lookup-insert_sorted k v j rows, not_le k j after, d.0),
    Distinct-insert_sorted k v rows (ground (arith, fresh)) d.1,
  )
]

Distinct-sort_keys : (rows : GoMap String) → Distinct rows → Distinct (sort_keys rows)
unfolding sort_keys
Distinct-sort_keys [] d = tt
Distinct-sort_keys ((k, v) ∷ rows) d =
    Distinct-insert_sorted k v (sort_keys rows) (lookup-sort_keys k rows ∙ d.0)
      (Distinct-sort_keys rows d.1)

abbrev or_else : Option String → Option String → Option String
or_else none o = o
or_else (some v) o = some v

same_key : (k x : String) (rows : GoMap String) → str_eq k x ≡ true → lookup k rows ≡ lookup x rows
same_key k x rows e = ap (λ j. lookup j rows) ((eq_iff k x).0 e)

-- What is read after some entries were.
lookup-text_map_from :
    (x : String) (rows out : GoMap String)
    → Distinct rows
    → lookup x (text_map_from out (entries_of rows)) ≡ or_else (lookup x rows) (lookup x out)
unfolding text_map_from entries_of lookup read_text
lookup-text_map_from x [] out d = refl
lookup-text_map_from x ((k, v) ∷ rows) out d = ground (
  arith,
  lookup-text_map_from x rows (put k v out) d.1,
  lookup-put k x v out,
  same_key k x rows,
  d.0,
)

-- A map with no key twice that is written as metadata is read back as the same map: every key has the value that it had, and no
-- other key is there.
pub decode_metadata-encode_metadata :
    (kvs : GoMap String) (key : String)
    → Distinct kvs
    → lookup key (decode_metadata (encode_metadata kvs)) ≡ lookup key kvs
unfolding decode_metadata encode_metadata decode_text_map record_to_map get lookup put
decode_metadata-encode_metadata kvs key d =
    lookup-text_map_from key (sort_keys kvs) [] (Distinct-sort_keys kvs d)
    ∙ rw (lookup-sort_keys key kvs) (or_nothing (lookup key kvs))
  where
    or_nothing : (o : Option String) → or_else o none ≡ o
    or_nothing none = refl
    or_nothing (some v) = refl

-- An instrument id that is written is read back.
decode_instrument_id-encode_instrument_id :
    (admin id : String) → decode_instrument_id (encode_instrument_id admin id) ≡ (admin, id)
unfolding decode_instrument_id encode_instrument_id record_to_map get lookup put read_party
    read_text
decode_instrument_id-encode_instrument_id admin id = refl

abbrev symbol_of : Option String → String
symbol_of none = ""
symbol_of (some s) = s

-- The symbol that is read from written metadata is the one of the map.
pub meta_symbol-encode_metadata :
    (kvs : GoMap String)
    → Distinct kvs
    → meta_symbol (encode_metadata kvs) ≡ symbol_of (lookup "splice.chainsafe.io/symbol" kvs)
unfolding meta_symbol
meta_symbol-encode_metadata kvs d =
    ap symbol_of (decode_metadata-encode_metadata kvs "splice.chainsafe.io/symbol" d)

abbrev pub ReadsAs : String → GoMap String → Option (GoMap String) → Type 0
ReadsAs key kvs none = kvs ≡ []
ReadsAs key kvs (some m) = (kvs ≢ []) × (lookup key m ≡ lookup key kvs)

-- A map with no key twice that is written as optional metadata is read back as the same map, or as nil just if it is empty.
pub decode_optional_metadata-encode_optional_metadata :
    (kvs : GoMap String) (key : String)
    → Distinct kvs
    → ReadsAs key kvs (decode_optional_metadata (encode_optional_metadata kvs))
unfolding decode_optional_metadata encode_optional_metadata encode_metadata
decode_optional_metadata-encode_optional_metadata [] key d = refl
decode_optional_metadata-encode_optional_metadata (kv ∷ kvs) key d =
    (λ e. cc, decode_metadata-encode_metadata (kv ∷ kvs) key d)
