-- ===== src/Transfers/Service.antt =====
-- pkg/transfer/service.go: the transfers that a client signs, in two calls, and those that the server signs. The
-- ledger's client, the user store, the party registry and the indexer are an interface on a state `C`.
use Prim.Native.String.{◌++◌ as str_append}
use canton_middleware.Prelude.{
  ℕ, String, Bool, true, false, Option, none, some, if◌then◌else◌, str_eq, not,
}
use canton_middleware.Exec.{Result, ok, err, Exec, pure, raise, attempt, ◌>>=◌, ◌>>◌}
use canton_middleware.Failure.{
  Failure, plain, prefixed, bad_request_error, dependency_error, forbidden_error,
  unauthorized_error, gone_error, general_error_of, resource_not_found_error,
}
use canton_middleware.Transfers.Types.{
  PreparedTransfer, PrepareRequest, CustodialTransferRequest, ExecuteRequest, KeyMode, custodial,
  external, User, Code, invalid_argument, permission_denied, Offer,
}
use canton_middleware.Indexer.Types.{
  transfer_kind_offer, transfer_status_completed, transfer_status_canceled,
  transfer_status_rejected,
}
use canton_middleware.Transfers.Cache.{
  CacheError, transfer_not_found, transfer_expired, cache_full, Entries, put_transfer,
  get_and_delete,
}
use canton_middleware.Transfers.Checks.{
  validity_duration, validate_party_id, is_empty, map_transfer_err, map_withdraw_err,
}

pub record State (C : Type 0) : Type 0 where
  pub cache : Entries
  pub clock : ℕ
  pub canton : C

-- `prepare_transfer` takes the two parties, the amount, the symbol and the validity; `transfer_by_party_id` a fresh
-- command id in front. `decode_hex` is `hex.DecodeString` after the prefix 0x is taken off.
pub record Clients (C : Type 0) : Type 0 where
  pub get_user_by_evm_address : String → Exec Failure C User
  pub get_user_by_canton_party_id : String → Exec Failure C User
  pub is_user_not_found : Failure → Bool
  pub party_exists : Option (String → Exec Failure C Bool)
  pub prepare_transfer : String → String → String → String → ℕ → Exec Failure C PreparedTransfer
  pub transfer_by_party_id : String → String → String → String → ℕ → Exec Failure C Unit
  pub execute_transfer : PreparedTransfer → String → String → Exec Failure C Unit
  pub prepare_accept_transfer : String → String → String → Exec Failure C PreparedTransfer
  pub prepare_withdraw_transfer : String → String → String → Exec Failure C PreparedTransfer
  pub withdraw_transfer_instruction : String → String → String → Exec Failure C Unit
  pub get_transfer : String → Exec Failure C (Option Offer)
  pub is_insufficient : Failure → Bool
  pub grpc_code : Failure → Option Code
  pub decode_hex : String → Result Failure String

pub record Settings : Type 0 where
  pub is_allowed : String → Bool
  pub is_external_token : String → Bool
  pub ttl : ℕ
  pub max_size : ℕ

abbrev pub Handler : Type 0 → Type 0 → Type 0
Handler C A = Exec Failure (State C) A

abbrev pub map_err : {A : Type 0} → (Failure → Failure) → Result Failure A → Result Failure A
map_err f (ok a) = ok a
map_err f (err e) = err (f e)

module _ {C : Type 0} where
  abbrev pub moved : {A : Type 0} → Result Failure A × C → State C → Result Failure A × State C
  moved (r, c) s = (r, record s { canton = c })

  unfoldable pub on_canton : {A : Type 0} → Exec Failure C A → Handler C A
  on_canton m s = moved (m s.canton) s

  -- `if err != nil { return f(err) }`.
  unfoldable pub mapped : {A : Type 0} → (Failure → Failure) → Handler C A → Handler C A
  mapped f m s = (map_err f (m s).0, (m s).1)

  abbrev pub returned : {A : Type 0} → Result Failure A → Handler C A
  returned (ok a) = pure a
  returned (err e) = raise e

  unfoldable pub require : Bool → Failure → Handler C Unit
  require b e = if b then pure tt else raise e

  abbrev pub raise_if : Option Failure → (Failure → Failure) → Handler C Unit
  raise_if none f = pure tt
  raise_if (some e) f = raise (f e)

abbrev pub is_external : KeyMode → Bool
is_external external = true
is_external custodial = false

abbrev pub is_custodial : KeyMode → Bool
is_custodial custodial = true
is_custodial external = false

abbrev pub cache_failure : CacheError → Failure
cache_failure transfer_not_found =
    resource_not_found_error (some (plain "transfer not found")) "transfer not found"
cache_failure transfer_expired = gone_error (some (plain "transfer expired")) "transfer expired"
cache_failure cache_full = prefixed "retrieve prepared transfer: " (plain "cache is full")

abbrev pub one_recipient : PrepareRequest → Bool
one_recipient req =
    if is_empty req.to_address then not (is_empty req.to_party_id) else is_empty req.to_party_id

abbrev pub signature_failure : Option Code → Failure → Failure
signature_failure (some invalid_argument) e =
    forbidden_error (some e) "signature verification failed"
signature_failure (some permission_denied) e =
    forbidden_error (some e) "signature verification failed"
signature_failure _ e = prefixed "execute transfer: " e

abbrev pub withdrawable : String → Option Failure
withdrawable status =
    if str_eq status transfer_status_completed
    then some (bad_request_error none "transfer already completed; nothing to claim back")
    else if str_eq status transfer_status_canceled
    then some (bad_request_error none "transfer already canceled; nothing to claim back")
    else if str_eq status transfer_status_rejected
    then some
        (bad_request_error none "transfer was rejected by the receiver; nothing to claim back")
    else none

abbrev pub not_claimable : Failure
not_claimable = resource_not_found_error none "no claimable offer found for this contract id"

module _ {C : Type 0} (k : Clients C) (t : Settings) where
  abbrev pub caller_failure : String → Failure → Failure
  caller_failure words e =
      if k.is_user_not_found e
      then unauthorized_error (some e) "user not found"
      else prefixed words e

  abbrev pub recipient_failure : Failure → Failure
  recipient_failure e =
      if k.is_user_not_found e
      then bad_request_error (some e) "recipient not found"
      else prefixed "lookup recipient: " e

  unfoldable pub find_caller : String → String → Handler C User
  find_caller words address =
      mapped (caller_failure words) (on_canton (k.get_user_by_evm_address address))

  abbrev pub topology_check : Option (String → Exec Failure C Bool) → String → Handler C Unit
  topology_check none party = raise (dependency_error none "could not verify recipient party id")
  topology_check (some exists) party = do
    known ←
        mapped (λ e. dependency_error (some e) "could not verify recipient party id")
          (on_canton (exists party))
    require known (bad_request_error none "recipient party id is not known on the network")

  abbrev pub unregistered : Bool → String → String → Handler C Unit
  unregistered true token party = topology_check k.party_exists party
  unregistered false token party = raise (
      bad_request_error none (
        str_append "recipient party is not registered with this service and "
          (str_append token " does not support transfers to external parties")))

  abbrev pub after_lookup : Result Failure User → String → String → Handler C Unit
  after_lookup (ok u) token party = pure tt
  after_lookup (err e) token party =
      if k.is_user_not_found e
      then unregistered (t.is_external_token token) token party
      else raise (prefixed "lookup recipient party: " e)

  unfoldable pub check_recipient_party : String → String → Handler C Unit
  check_recipient_party token party = do
    found ← attempt (on_canton (k.get_user_by_canton_party_id party))
    after_lookup found token party

  abbrev pub resolve_recipient : Bool → PrepareRequest → Handler C String
  resolve_recipient true req = do
    u ← mapped recipient_failure (on_canton (k.get_user_by_evm_address req.to_address))
    pure u.canton_party_id
  resolve_recipient false req = do
    raise_if (validate_party_id req.to_party_id)
        (λ e. bad_request_error (some e) "invalid recipient party id")
    pure req.to_party_id

  abbrev pub stored :
      Result CacheError PreparedTransfer × Entries
      → State C
      → Result Failure PreparedTransfer × State C
  stored (ok p, entries) s = (ok p, record s { cache = entries })
  stored (err e, entries) s = (
    err (general_error_of (some (prefixed "too many pending transfers: " (plain "cache is full")))),
    record s { cache = entries },
  )

  -- The answer of the calls that prepare is the transfer that is stored.
  unfoldable pub put_prepared : PreparedTransfer → Handler C PreparedTransfer
  put_prepared p s = stored (put_transfer t.ttl t.max_size s.clock p s.cache) s

  abbrev pub transfer_failure : String → Failure → Failure
  transfer_failure op e = map_transfer_err (k.is_insufficient e) (k.grpc_code e) op e

  unfoldable pub prepare : String → PrepareRequest → Handler C PreparedTransfer
  prepare address req = do
    require (t.is_allowed req.token) (bad_request_error none "unsupported token")
    validity ← returned (validity_duration req.validity_seconds)
    sender ← find_caller "lookup sender: " address
    require (is_external sender.key_mode)
        (bad_request_error none "prepare/execute API requires key_mode=external")
    require (one_recipient req)
        (bad_request_error none "exactly one of to or to_party_id is required")
    to_party ← resolve_recipient (is_empty req.to_party_id) req
    require (not (str_eq to_party sender.canton_party_id))
        (bad_request_error none "cannot transfer to self")
    if is_empty req.to_party_id then pure tt else check_recipient_party req.token to_party
    p ← mapped (transfer_failure "prepare transfer") (
        on_canton
          (k.prepare_transfer sender.canton_party_id to_party req.amount req.token validity))
    put_prepared p

  unfoldable pub send_custodial : String → CustodialTransferRequest → Handler C Unit
  send_custodial address req = do
    require (t.is_allowed req.token) (bad_request_error none "unsupported token")
    validity ← returned (validity_duration req.validity_seconds)
    raise_if (validate_party_id req.to_party_id)
        (λ e. bad_request_error (some e) "invalid recipient party id")
    sender ← find_caller "lookup sender: " address
    require (is_custodial sender.key_mode)
        (bad_request_error none "this endpoint requires key_mode=custodial")
    require (not (str_eq req.to_party_id sender.canton_party_id))
        (bad_request_error none "cannot transfer to self")
    check_recipient_party req.token req.to_party_id
    mapped (transfer_failure "transfer") (
        on_canton (
          k.transfer_by_party_id sender.canton_party_id req.to_party_id req.amount req.token
            validity))

  abbrev pub fetched :
      Result CacheError PreparedTransfer × Entries
      → State C
      → Result Failure PreparedTransfer × State C
  fetched (ok p, entries) s = (ok p, record s { cache = entries })
  fetched (err e, entries) s = (err (cache_failure e), record s { cache = entries })

  unfoldable pub take_prepared : String → Handler C PreparedTransfer
  take_prepared id s = fetched (get_and_delete s.clock id s.cache) s

  -- `ExecuteAccept` is this too.
  unfoldable pub execute : String → ExecuteRequest → Handler C Unit
  execute address req = do
    sender ← find_caller "lookup sender: " address
    require (str_eq sender.public_key_fingerprint req.signed_by)
        (forbidden_error none "signature fingerprint does not match registered key")
    p ← take_prepared req.transfer_id
    signature ←
        mapped (λ e. bad_request_error (some e) "invalid DER signature")
          (returned (k.decode_hex req.signature))
    mapped (λ e. signature_failure (k.grpc_code e) e)
        (on_canton (k.execute_transfer p signature req.signed_by))

  unfoldable pub prepare_accept : String → String → String → Handler C PreparedTransfer
  prepare_accept address contract_id instrument_admin = do
    u ← find_caller "lookup user: " address
    require (is_external u.key_mode)
        (bad_request_error none "incoming transfer API requires key_mode=external")
    p ←
        mapped (prefixed "prepare accept: ")
          (on_canton (k.prepare_accept_transfer u.canton_party_id contract_id instrument_admin))
    put_prepared p

  abbrev pub claimed_of : Option Offer → String → Handler C Offer
  claimed_of none party = raise not_claimable
  claimed_of (some o) party = do
    require (str_eq o.from_party_id party) not_claimable
    require (str_eq o.kind transfer_kind_offer)
        (bad_request_error none "only offer-based transfers can be claimed back")
    raise_if (withdrawable o.status) (λ e. e)
    pure o

  unfoldable pub claimable_transfer : String → String → Handler C Offer
  claimable_transfer party contract_id = do
    found ← on_canton (k.get_transfer contract_id)
    claimed_of found party

  abbrev pub withdraw_failure : Failure → Failure
  withdraw_failure e = map_withdraw_err (k.grpc_code e) e

  unfoldable pub prepare_withdraw : String → String → Handler C PreparedTransfer
  prepare_withdraw address contract_id = do
    u ← find_caller "lookup user: " address
    require (is_external u.key_mode)
        (bad_request_error none "withdraw prepare/execute API requires key_mode=external")
    o ← claimable_transfer u.canton_party_id contract_id
    p ←
        mapped withdraw_failure
          (on_canton (k.prepare_withdraw_transfer u.canton_party_id contract_id o.instrument_admin))
    put_prepared p

  unfoldable pub withdraw_custodial : String → String → Handler C Unit
  withdraw_custodial address contract_id = do
    u ← find_caller "lookup user: " address
    require (is_custodial u.key_mode)
        (bad_request_error none "this endpoint requires key_mode=custodial")
    o ← claimable_transfer u.canton_party_id contract_id
    mapped withdraw_failure (
        on_canton
          (k.withdraw_transfer_instruction u.canton_party_id contract_id o.instrument_admin))
