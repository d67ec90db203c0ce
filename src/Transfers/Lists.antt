-- ===== src/Transfers/Lists.antt =====
-- The lists of pkg/transfer/service.go: what an unauthenticated caller reads of a user's transfers. The texts are of
-- bytes below 128, one to a character; the product of a page and its limit stays within an int.
use Prim.Native.String.{String, [], ◌∷◌, ◌++◌ as str_append}
use canton_middleware.Prelude.{
  ℕ, zero, suc, Bool, Option, none, some, List, [] as nil, ◌∷◌ as cons, if◌then◌else◌, ◌-◌, ◌*◌,
  leb, ltb, str_eq,
}
use canton_middleware.Prelude.Int.{ℤ}
use canton_middleware.Prelude.Assoc.{lookup}
use canton_middleware.Exec.{Exec, pure, ◌>>=◌, ◌>>◌}
use canton_middleware.Failure.{Failure, prefixed, bad_request_error}
use canton_middleware.Rpc.Store.{hash_key}
use canton_middleware.Transfers.Types.{User}
use canton_middleware.Indexer.Types.{transfer_status_pending, transfer_status_completed}
use canton_middleware.Transfers.Service.{Clients, Handler, on_canton, mapped, require, is_external}

-- A row of the indexer.
pub record Listed : Type 0 where
  pub contract_id : String
  pub kind : String
  pub status : String
  pub from_party_id : String
  pub to_party_id : String
  pub amount : String
  pub instrument_admin : String
  pub instrument_id : String
  pub created_at : ℕ
  pub expires_at : Option ℕ
  pub tx_id : String

pub record Pagination : Type 0 where
  pub page : ℕ
  pub limit : ℕ

pub record Page (A : Type 0) : Type 0 where
  pub items : List A
  pub total : ℕ

pub record InstrumentMeta : Type 0 where
  pub contract_address : String
  pub name : String
  pub symbol : String
  pub decimals : ℤ

pub data Role : Type 0 where
  receiver sender any_role : Role

-- `get_transfers` takes the party, the role and the status; the empty status is every one. `rfc3339` writes a time.
pub record Reader (C : Type 0) : Type 0 where
  pub get_transfers : String → Role → String → Pagination → Exec Failure C (Page Listed)
  pub rfc3339 : ℕ → String
  pub tokens_by_instrument : List (String × InstrumentMeta)

pub record Incoming : Type 0 where
  pub contract_id : String
  pub sender_party_id : String
  pub receiver_party_id : String
  pub amount : String
  pub instrument_admin : String
  pub instrument_id : String
  pub meta : Option InstrumentMeta

pub record Outgoing : Type 0 where
  pub incoming : Incoming
  pub status : String
  pub created_at : String
  pub expires_at : String

pub record Settled : Type 0 where
  pub incoming : Incoming
  pub kind : String
  pub status : String
  pub timestamp : String
  pub tx_id : String

pub record Listing (A : Type 0) : Type 0 where
  pub items : List A
  pub total : ℕ
  pub page : ℕ
  pub limit : ℕ
  pub has_more : Bool

abbrev pub size : String → ℕ
size [] = 0
size (c ∷ s) = suc (size s)

abbrev pub first : ℕ → String → String
first zero s = []
first (suc n) [] = []
first (suc n) (c ∷ s) = c ∷ first n s

abbrev pub skip : ℕ → String → String
skip zero s = s
skip (suc n) [] = []
skip (suc n) (c ∷ s) = skip n s

unfoldable pub truncate_party_id : String → String
truncate_party_id party =
    if leb (size party) 17
    then party
    else str_append (first 8 party) (str_append "…" (skip (size party - 8) party))

module _ {C : Type 0} (k : Clients C) (r : Reader C) where
  abbrev pub item_of : Listed → Incoming
  item_of o = record {
    contract_id = o.contract_id;
    sender_party_id = truncate_party_id o.from_party_id;
    receiver_party_id = truncate_party_id o.to_party_id;
    amount = o.amount;
    instrument_admin = o.instrument_admin;
    instrument_id = o.instrument_id;
    meta = lookup o.instrument_id r.tokens_by_instrument;
  }

  abbrev pub time_or_empty : Option ℕ → String
  time_or_empty none = ""
  time_or_empty (some t) = r.rfc3339 t

  abbrev pub outgoing_of : Listed → Outgoing
  outgoing_of o = record {
    incoming = item_of o;
    status = o.status;
    created_at = r.rfc3339 o.created_at;
    expires_at = time_or_empty o.expires_at;
  }

  abbrev pub settled_of : Listed → Settled
  settled_of o = record {
    incoming = item_of o;
    kind = o.kind;
    status = o.status;
    timestamp = r.rfc3339 o.created_at;
    tx_id = o.tx_id;
  }

  -- Rows of another status are passed over.
  unfoldable pub incoming_items : List Listed → List Incoming
  incoming_items nil = nil
  incoming_items (cons o os) =
      let rest = incoming_items os in
      if str_eq o.status transfer_status_pending then cons (item_of o) rest else rest

  unfoldable pub outgoing_items : List Listed → List Outgoing
  outgoing_items nil = nil
  outgoing_items (cons o os) = cons (outgoing_of o) (outgoing_items os)

  unfoldable pub settled_items : List Listed → List Settled
  settled_items nil = nil
  settled_items (cons o os) = cons (settled_of o) (settled_items os)

  abbrev pub listing_of : {A : Type 0} → Pagination → ℕ → List A → Listing A
  listing_of p total items = record {
    items = items;
    total = total;
    page = p.page;
    limit = p.limit;
    has_more = ltb (p.page * p.limit) total;
  }

  abbrev pub user_failure : Failure → Failure
  user_failure e =
      if k.is_user_not_found e
      then bad_request_error (some e) "user not found"
      else prefixed "lookup user: " e

  unfoldable pub find_user : String → Handler C User
  find_user address = mapped user_failure (on_canton (k.get_user_by_evm_address address))

  unfoldable pub list_incoming : String → Pagination → Handler C (Listing Incoming)
  list_incoming address p = do
    u ← find_user address
    require (is_external u.key_mode)
        (bad_request_error none "incoming transfer API requires key_mode=external")
    result ←
        mapped (prefixed "list pending transfers: ")
          (on_canton (r.get_transfers u.canton_party_id receiver transfer_status_pending p))
    pure (listing_of p result.total (incoming_items result.items))

  -- The empty status stands for all of them.
  unfoldable pub list_outgoing : String → String → Pagination → Handler C (Listing Outgoing)
  list_outgoing address status p = do
    u ← find_user address
    result ←
        mapped (prefixed "list outgoing transfers: ")
          (on_canton (r.get_transfers u.canton_party_id sender status p))
    pure (listing_of p result.total (outgoing_items result.items))

  unfoldable pub list_completed : String → Pagination → Handler C (Listing Settled)
  list_completed address p = do
    u ← find_user address
    result ←
        mapped (prefixed "list completed transfers: ")
          (on_canton (r.get_transfers u.canton_party_id any_role transfer_status_completed p))
    pure (listing_of p result.total (settled_items result.items))
