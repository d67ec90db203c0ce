-- ===== src/Transfers/Checks.antt =====
-- The checks and the error mappings of pkg/transfer/service.go.
use Prim.Native.Char.{Char, code}
use Prim.Native.String.{String, [], ◌∷◌, ◌++◌ as str_append}
use canton_middleware.Prelude.{
  ℕ, zero, suc, Bool, true, Option, none, some, if◌then◌else◌, ◌*◌, ◌==◌, ◌&&◌, ◌||◌, leb, str_eq,
  not,
}
use canton_middleware.Prelude.Int.{ℤ, pos, negsuc}
use canton_middleware.Exec.{Result, ok, err}
use canton_middleware.Failure.{
  Failure, plain, prefixed, bad_request_error, dependency_error, conflict_error,
}
use canton_middleware.Transfers.Types.{
  Code, invalid_argument, not_found, failed_precondition, aborted, already_exists, unavailable,
  deadline_exceeded,
}

-- `math.MaxInt64 / int64(time.Second)`.
abbrev pub max_validity_seconds : ℕ
max_validity_seconds = 9223372036

-- In nanoseconds.
unfoldable pub validity_duration : ℤ → Result Failure ℕ
validity_duration (negsuc n) =
    err (bad_request_error none "validity_seconds must be a positive number")
validity_duration (pos zero) =
    err (bad_request_error none "validity_seconds must be a positive number")
validity_duration (pos (suc n)) =
    if leb (suc n) max_validity_seconds
    then ok (suc n * 1000000000)
    else err (bad_request_error none "validity_seconds is too large")

-- `strings.Cut(s, "::")`.
abbrev pub before_colons : Char → Option (String × String) → Option (String × String)
before_colons c none = none
before_colons c (some (a, b)) = some (c ∷ a, b)

abbrev pub without_colon : String → Option String
without_colon [] = none
without_colon (c ∷ s) = if code c == b':' then some s else none

abbrev pub cut_here : Bool → Option String → Option (String × String) → Option (String × String)
cut_here true (some rest) later = some ([], rest)
cut_here _ _ later = later

unfoldable pub cut_colons : String → Option (String × String)
cut_colons [] = none
cut_colons (c ∷ s) =
    let later = before_colons c (cut_colons s) in cut_here (code c == b':') (without_colon s) later

abbrev pub is_hex_digit : Char → Bool
is_hex_digit c =
    (leb b'0' (code c) && leb (code c) b'9')
    || ((leb b'a' (code c) && leb (code c) b'f') || (leb b'A' (code c) && leb (code c) b'F'))

-- Whether `hex.DecodeString` reads a text: pairs of hexadecimal digits. `even` is what has been read so far.
unfoldable pub is_hex : Bool → String → Bool
is_hex even [] = even
is_hex even (c ∷ s) = let rest = is_hex (not even) s in is_hex_digit c && rest

abbrev pub is_empty : String → Bool
is_empty s = str_eq s ""

abbrev pub bad_party : Option (String × String) → Option Failure
bad_party none = some (plain "party id must be of the form <hint>::<fingerprint>")
bad_party (some (hint, fingerprint)) =
    if is_empty hint || is_empty fingerprint
    then some (plain "party id must be of the form <hint>::<fingerprint>")
    else if is_hex true fingerprint
    then none
    else some (plain "party id fingerprint must be hex-encoded")

unfoldable pub validate_party_id : String → Option Failure
validate_party_id party_id = bad_party (cut_colons party_id)

abbrev pub by_code : Option Code → Failure → Failure
by_code (some invalid_argument) e =
    bad_request_error (some e)
      "transfer rejected by the ledger: verify the recipient party id and amount"
by_code (some not_found) e =
    bad_request_error (some e)
      "transfer rejected by the ledger: verify the recipient party id and amount"
by_code (some failed_precondition) e =
    bad_request_error (some e)
      "transfer rejected by the ledger: verify the recipient party id and amount"
by_code (some aborted) e =
    conflict_error (some e) "transfer conflicted with a concurrent operation, try again"
by_code (some unavailable) e =
    dependency_error (some e) "ledger temporarily unavailable, try again later"
by_code (some deadline_exceeded) e =
    dependency_error (some e) "ledger temporarily unavailable, try again later"
by_code _ e = e

-- The code is that of the cause, whatever wraps it.
unfoldable pub map_transfer_err : Bool → Option Code → String → Failure → Failure
map_transfer_err is_insufficient grpc_code op e =
    if is_insufficient
    then bad_request_error (some e) "insufficient balance"
    else by_code grpc_code (prefixed (str_append op ": ") e)

abbrev pub claim_conflict : Failure → Failure
claim_conflict e =
    conflict_error (some e)
      "offer is no longer claimable (it may have been accepted or already withdrawn)"

unfoldable pub map_withdraw_err : Option Code → Failure → Failure
map_withdraw_err (some not_found) e = claim_conflict e
map_withdraw_err (some failed_precondition) e = claim_conflict e
map_withdraw_err (some aborted) e = claim_conflict e
map_withdraw_err (some already_exists) e = claim_conflict e
map_withdraw_err _ e = prefixed "withdraw transfer: " e
