-- ===== src/Indexer/Decoder.antt =====
-- pkg/indexer/engine/decoder.go: what the indexer makes of an event of the ledger.
use canton_middleware.Prelude.{
  String, Bool, true, false, Option, none, some, List, [], ◌∷◌, str_eq, if◌then◌else◌, ◌&&◌, ◌||◌,
  not,
}
use canton_middleware.Prelude.Int.{ℤ, negsuc, leb_ℤ}
use canton_middleware.Ledger.Event.{
  LedgerEvent, LedgerTransaction, party_of, numeric_of, optional_party_of, is_none_of, timestamp_of,
  nested_text_of, nested_party_of, nested_numeric_of, nested_timestamp_of, doubly_nested_party_of,
  doubly_nested_text_of, optional_meta_lookup,
}
use canton_middleware.Indexer.Types.{
  Transfer, ParsedEvent, EventType, mint, burn, transfer, HoldingChange, transfer_status_pending,
  transfer_status_completed, transfer_status_canceled, transfer_status_rejected,
  transfer_kind_offer,
}
use canton_middleware.Indexer.Store.{InstrumentKey, same_instrument}
use canton_middleware.Indexer.Processor.{Item, event, offer, holding}

pub data FilterMode : Type 0 where
  all whitelist : FilterMode

abbrev token_transfer_event_module : String
token_transfer_event_module = "CIP56.Events"

abbrev token_transfer_event_entity : String
token_transfer_event_entity = "TokenTransferEvent"

abbrev transfer_offer_module : String
transfer_offer_module = "Utility.Registry.App.V0.Model.Transfer"

abbrev transfer_offer_entity : String
transfer_offer_entity = "TransferOffer"

abbrev holding_module : String
holding_module = "Utility.Registry.Holding.V0.Holding"

abbrev holding_entity : String
holding_entity = "Holding"

abbrev choice_instruction_accept : String
choice_instruction_accept = "TransferInstruction_Accept"

abbrev choice_instruction_withdraw : String
choice_instruction_withdraw = "TransferInstruction_Withdraw"

abbrev choice_instruction_reject : String
choice_instruction_reject = "TransferInstruction_Reject"

-- An empty text stands for a nil pointer.
abbrev pub non_empty : String → Option String
non_empty s = if str_eq s "" then none else some s

unfoldable pub optional_party_id : LedgerEvent → String → Option String
optional_party_id ev name =
    if is_none_of ev name then none else non_empty (optional_party_of ev name)

abbrev pub event_type_of : Option String → Option String → Option EventType
event_type_of none (some to) = some mint
event_type_of (some from) none = some burn
event_type_of (some from) (some to) = some transfer
event_type_of none none = none

abbrev pub listed : InstrumentKey → List InstrumentKey → Bool
listed key [] = false
listed key (k ∷ ks) = same_instrument k key || listed key ks

abbrev pub admitted : FilterMode → List InstrumentKey → InstrumentKey → Bool
admitted all allowed key = true
admitted whitelist allowed key = listed key allowed

abbrev pub parsed_event : LedgerTransaction → LedgerEvent → EventType → ParsedEvent
parsed_event tx ev kind = record {
  instrument_id = nested_text_of ev "instrumentId" "id";
  instrument_admin = nested_party_of ev "instrumentId" "admin";
  issuer = party_of ev "issuer";
  event_type = kind;
  amount = numeric_of ev "amount";
  from_party_id = optional_party_id ev "fromParty";
  to_party_id = optional_party_id ev "toParty";
  external_tx_id = non_empty (optional_meta_lookup ev "meta" "bridge.externalTxId");
  external_address = non_empty (optional_meta_lookup ev "meta" "bridge.externalAddress");
  fingerprint = non_empty (optional_meta_lookup ev "meta" "bridge.fingerprint");
  contract_id = ev.contract_id;
  tx_id = tx.update_id;
  ledger_offset = tx.offset;
  timestamp = timestamp_of ev "timestamp";
  effective_time = tx.effective_time;
}

abbrev pub classified : LedgerTransaction → LedgerEvent → Option EventType → Option ParsedEvent
classified tx ev none = none
classified tx ev (some kind) = some (parsed_event tx ev kind)

unfoldable pub decode_token_transfer :
    FilterMode → List InstrumentKey → LedgerTransaction → LedgerEvent → Option ParsedEvent
decode_token_transfer mode allowed tx ev =
    if not ev.is_created
    then none
    else if not (str_eq ev.module_name token_transfer_event_module)
        || not (str_eq ev.template_name token_transfer_event_entity)
    then none
    else if not (
        admitted mode allowed (record {
          admin = nested_party_of ev "instrumentId" "admin";
          id = nested_text_of ev "instrumentId" "id";
        }))
    then none
    else classified tx ev
        (event_type_of (optional_party_id ev "fromParty") (optional_party_id ev "toParty"))

unfoldable pub offer_terminal_status : String → String
offer_terminal_status choice =
    if str_eq choice choice_instruction_accept
    then transfer_status_completed
    else if str_eq choice choice_instruction_withdraw
    then transfer_status_canceled
    else if str_eq choice choice_instruction_reject
    then transfer_status_rejected
    else transfer_status_completed

-- Go's zero time, January 1 of the year 1, is `none` too.
abbrev pub unless_zero : Option ℤ → Option ℤ
unless_zero none = none
unless_zero (some time) =
    if leb_ℤ time (negsuc 62135596799999999) && leb_ℤ (negsuc 62135596799999999) time
    then none
    else some time

abbrev pub created_offer : LedgerTransaction → LedgerEvent → Transfer
created_offer tx ev = record {
  contract_id = ev.contract_id;
  kind = transfer_kind_offer;
  status = transfer_status_pending;
  from_party_id = nested_party_of ev "transfer" "sender";
  to_party_id = nested_party_of ev "transfer" "receiver";
  instrument_admin = doubly_nested_party_of ev "transfer" "instrumentId" "admin";
  instrument_id = doubly_nested_text_of ev "transfer" "instrumentId" "id";
  amount = nested_numeric_of ev "transfer" "amount";
  expires_at = unless_zero (nested_timestamp_of ev "transfer" "executeBefore");
  tx_id = tx.update_id;
  ledger_offset = tx.offset;
  created_at = tx.effective_time;
  archived = false;
}

abbrev pub archived_offer : LedgerTransaction → LedgerEvent → Transfer
archived_offer tx ev = record {
  contract_id = ev.contract_id;
  kind = transfer_kind_offer;
  status = offer_terminal_status ev.choice;
  from_party_id = "";
  to_party_id = "";
  instrument_admin = "";
  instrument_id = "";
  amount = "";
  expires_at = none;
  tx_id = "";
  ledger_offset = tx.offset;
  created_at = tx.effective_time;
  archived = true;
}

unfoldable pub decode_offer : String → LedgerTransaction → LedgerEvent → Option Transfer
decode_offer package_id tx ev =
    if str_eq package_id ""
    then none
    else if not (str_eq ev.module_name transfer_offer_module)
        || not (str_eq ev.template_name transfer_offer_entity)
    then none
    else some (if ev.is_created then created_offer tx ev else archived_offer tx ev)

abbrev pub created_holding : LedgerTransaction → LedgerEvent → HoldingChange
created_holding tx ev = record {
  contract_id = ev.contract_id;
  is_archived = false;
  ledger_offset = tx.offset;
  owner = party_of ev "owner";
  instrument_admin = party_of ev "registrar";
  instrument_id = nested_text_of ev "instrument" "id";
  amount = numeric_of ev "amount";
  locked = not (is_none_of ev "lock");
}

abbrev pub archived_holding : LedgerTransaction → LedgerEvent → HoldingChange
archived_holding tx ev = record {
  contract_id = ev.contract_id;
  is_archived = true;
  ledger_offset = tx.offset;
  owner = "";
  instrument_admin = "";
  instrument_id = "";
  amount = "";
  locked = false;
}

unfoldable pub decode_holding : String → LedgerTransaction → LedgerEvent → Option HoldingChange
decode_holding package_id tx ev =
    if str_eq package_id ""
    then none
    else if not (str_eq ev.module_name holding_module)
        || not (str_eq ev.template_name holding_entity)
    then none
    else some (if ev.is_created then created_holding tx ev else archived_holding tx ev)

-- The first decoder that takes the event decides.
abbrev pub first_of : Option ParsedEvent → Option Transfer → Option HoldingChange → Option Item
first_of (some e) _ _ = some (event e)
first_of none (some t) _ = some (offer t)
first_of none none (some h) = some (holding h)
first_of none none none = none

unfoldable pub decode :
    FilterMode
    → List InstrumentKey
    → String
    → String
    → LedgerTransaction
    → LedgerEvent
    → Option Item
decode mode allowed offer_package holding_package tx ev =
    first_of (decode_token_transfer mode allowed tx ev) (decode_offer offer_package tx ev)
      (decode_holding holding_package tx ev)
