-- ===== src/Ledger/Examples.antt =====
-- The theorems on pkg/cantonsdk/values at concrete inputs.
use canton_middleware.Prelude.{String, [], ◌∷◌, ◌≡◌, refl}
use canton_middleware.Prelude.Assoc.{lookup}
use canton_middleware.Ledger.Values.{GoMap, string_eq}
use canton_middleware.Ledger.Encode.{
  encode_metadata, decode_metadata, encode_optional_metadata, decode_optional_metadata,
}
use canton_middleware.Ledger.RoundTrip.{
  Distinct, ReadsAs, decode_metadata-encode_metadata,
  decode_optional_metadata-encode_optional_metadata,
}

abbrev entries : GoMap String
entries = ("z", "last") ∷ ("splice.chainsafe.io/symbol", "DEMO") ∷ []

entries-Distinct : Distinct entries
unfolding lookup
entries-Distinct = (refl, (refl, tt))

decode_metadata-encode_metadata_example :
    lookup "z" (decode_metadata (encode_metadata entries)) ≡ lookup "z" entries
decode_metadata-encode_metadata_example =
    decode_metadata-encode_metadata entries "z" entries-Distinct

decode_optional_metadata-encode_optional_metadata_example :
    ReadsAs "z" entries (decode_optional_metadata (encode_optional_metadata entries))
decode_optional_metadata-encode_optional_metadata_example =
    decode_optional_metadata-encode_optional_metadata entries "z" entries-Distinct
