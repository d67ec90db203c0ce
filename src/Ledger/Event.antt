-- ===== src/Ledger/Event.antt =====
-- pkg/cantonsdk/streaming/types.go: a transaction of the ledger's stream, its events, and the readers of the
-- fields of a created event. The map of fields is nil for an archived one; a nil map reads as an empty one.
use canton_middleware.Prelude.{String, Bool, Option, List}
use canton_middleware.Prelude.Int.{ℤ}
use canton_middleware.Ledger.Values.{
  Value, GoMap, get, read_party, read_numeric, read_timestamp, optional_party, is_none,
  record_field, nested_text_field, nested_party_field, optional_record_fields, map_lookup_text,
}

pub record LedgerEvent : Type 0 where
  pub contract_id : String
  pub package_id : String
  pub module_name : String
  pub template_name : String
  pub is_created : Bool
  pub choice : String
  pub fields : GoMap Value

pub record LedgerTransaction : Type 0 where
  pub update_id : String
  pub offset : ℤ
  pub effective_time : ℤ
  pub events : List LedgerEvent

unfoldable pub party_of : LedgerEvent → String → String
party_of e name = read_party (get e.fields name)

unfoldable pub numeric_of : LedgerEvent → String → String
numeric_of e name = read_numeric (get e.fields name)

unfoldable pub optional_party_of : LedgerEvent → String → String
optional_party_of e name = optional_party (get e.fields name)

unfoldable pub is_none_of : LedgerEvent → String → Bool
is_none_of e name = is_none (get e.fields name)

unfoldable pub timestamp_of : LedgerEvent → String → Option ℤ
timestamp_of e name = read_timestamp (get e.fields name)

unfoldable pub nested_text_of : LedgerEvent → String → String → String
nested_text_of e outer name = nested_text_field (get e.fields outer) name

unfoldable pub nested_party_of : LedgerEvent → String → String → String
nested_party_of e outer name = nested_party_field (get e.fields outer) name

unfoldable pub nested_numeric_of : LedgerEvent → String → String → String
nested_numeric_of e outer name = read_numeric (get (record_field (get e.fields outer)) name)

unfoldable pub nested_timestamp_of : LedgerEvent → String → String → Option ℤ
nested_timestamp_of e outer name = read_timestamp (get (record_field (get e.fields outer)) name)

unfoldable pub doubly_nested_party_of : LedgerEvent → String → String → String → String
doubly_nested_party_of e outer middle name =
    nested_party_field (get (record_field (get e.fields outer)) middle) name

unfoldable pub doubly_nested_text_of : LedgerEvent → String → String → String → String
doubly_nested_text_of e outer middle name =
    nested_text_field (get (record_field (get e.fields outer)) middle) name

unfoldable pub optional_meta_lookup : LedgerEvent → String → String → String
optional_meta_lookup e meta_field key =
    map_lookup_text (get (optional_record_fields (get e.fields meta_field)) "values") key
