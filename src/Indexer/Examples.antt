-- ===== src/Indexer/Examples.antt =====
-- The theorems on pkg/indexer at concrete inputs.
mod Tally
use mathlib.Core.Path.{subst}
use canton_middleware.Prelude.{
  String, Bool, true, false, Option, none, some, List, [], ◌∷◌, ◌≡◌, ◌≢◌, refl, arith,
  if◌then◌else◌, eq_iff,
}
use canton_middleware.Prelude.Assoc.{lookup, put}
use canton_middleware.Prelude.Int.{pos, ◌+ℤ◌, is_negative}
use canton_middleware.Ledger.Values.{
  text, party, numeric, optional, rec, end, field, nested_party_field, nested_text_field, is_none,
  optional_party, read_numeric, map_lookup_text, read_timestamp, optional_record_fields,
}
use canton_middleware.Ledger.Event.{
  LedgerEvent, LedgerTransaction, nested_party_of, nested_text_of, is_none_of, optional_party_of,
  party_of, numeric_of, optional_meta_lookup, timestamp_of,
}
use canton_middleware.Indexer.Types.{
  Transfer, ParsedEvent, mint, HoldingChange, transfer_status_pending,
}
use canton_middleware.Indexer.Store.{Db, Tables, BalanceKey, InstrumentKey, string_key, balance_key}
use canton_middleware.Indexer.Processor.{
  Batch, event, offer, process_batch, process_batch_with_retry, run_batches, process_transfer_event,
  process_holding_change, balance_updates_from_event,
}
use canton_middleware.Indexer.Decoder.{
  whitelist, optional_party_id, decode_token_transfer, admitted, archived_offer,
}
use canton_middleware.Indexer.Resume.{Resumes, run_batches-Resumes}
use canton_middleware.Indexer.Credit.{balance_of, process_holding_change_twice}
use canton_middleware.Indexer.Batches.{
  Atomic, process_batch_with_retry-Atomic, process_transfer_event_again, IsNonNegative, IsAmount,
  process_batch-IsNonNegative, process_batch-final,
}
use canton_middleware.Indexer.Decoded.{Moves, decode_token_transfer-Moves}
use Tally.{tallies, tallies-ReadsBack, read, count}

abbrev registry : InstrumentKey
registry = record { admin = "issuer"; id = "DEMO" }

abbrev minted : LedgerEvent
minted = record {
  contract_id = "event-1";
  package_id = "package";
  module_name = "CIP56.Events";
  template_name = "TokenTransferEvent";
  is_created = true;
  choice = "";
  fields =
      (("instrumentId", rec (field "admin" (party "issuer") (field "id" (text "DEMO") end)))
        ∷ ("toParty", optional (party "alice"))
        ∷ ("amount", numeric "III")
        ∷ ("issuer", party "issuer")
        ∷ []);
}

abbrev transaction : LedgerTransaction
transaction = record {
  update_id = "update-1";
  offset = pos 7;
  effective_time = pos 1000;
  events = minted ∷ [];
}

abbrev mint_event : ParsedEvent
mint_event = record {
  instrument_id = "DEMO";
  instrument_admin = "issuer";
  issuer = "issuer";
  event_type = mint;
  amount = "III";
  from_party_id = none;
  to_party_id = some "alice";
  external_tx_id = none;
  external_address = none;
  fingerprint = none;
  contract_id = "event-1";
  tx_id = "update-1";
  ledger_offset = pos 7;
  timestamp = none;
  effective_time = pos 1000;
}

decoded : decode_token_transfer whitelist (registry ∷ []) transaction minted ≡ some mint_event
unfolding decode_token_transfer nested_party_of nested_party_field lookup put nested_text_of
    nested_text_field optional_party_id is_none_of is_none optional_party_of optional_party party_of
    numeric_of optional_meta_lookup timestamp_of read_numeric map_lookup_text read_timestamp
    optional_record_fields
decoded = refl

decode_token_transfer-Moves_example :
    Moves mint_event (balance_updates_from_event mint_event)
    × (admitted whitelist (registry ∷ []) registry ≡ true)
decode_token_transfer-Moves_example =
    decode_token_transfer-Moves transaction minted whitelist (registry ∷ []) mint_event decoded

abbrev completed_offer : Transfer
completed_offer = record {
  contract_id = "offer-1";
  kind = "offer";
  status = "completed";
  from_party_id = "alice";
  to_party_id = "bob";
  instrument_admin = "issuer";
  instrument_id = "USDCx";
  amount = "II";
  expires_at = none;
  tx_id = "update-0";
  ledger_offset = pos 3;
  created_at = pos 900;
  archived = false;
}

abbrev alice : BalanceKey
alice = record { party = "alice"; instrument = registry }

abbrev tables : Tables
tables = record {
  events = [];
  tokens = [];
  balances = (alice, "II") ∷ [];
  holdings = [];
  transfers = ("offer-1", completed_offer) ∷ [];
  offset = some (pos 6);
}

abbrev db : Db
db = record { tables = tables; faults = false ∷ false ∷ true ∷ []; clock = pos 2000 }

abbrev batch : Batch
batch = record {
  offset = pos 7;
  items = event mint_event ∷ offer (archived_offer transaction minted) ∷ [];
}

process_batch_with_retry-Atomic_example :
    Atomic (pos 7) tables (process_batch_with_retry tallies 2 batch db)
process_batch_with_retry-Atomic_example = process_batch_with_retry-Atomic tallies 2 batch db

abbrev indexed : Db
indexed = record db { tables = record tables { events = ("event-1", mint_event) ∷ [] } }

event_found : lookup "event-1" indexed.tables.events ≡ some mint_event
unfolding lookup
event_found = refl

process_transfer_event_again_example :
    (process_transfer_event tallies mint_event indexed).1.tables ≡ indexed.tables
process_transfer_event_again_example =
    process_transfer_event_again tallies mint_event mint_event indexed event_found

of_some : (a b : String) → some a ≡ some b → a ≡ b
of_some a b e = cc

balances-IsNonNegative : IsNonNegative tallies tables.balances
unfolding lookup read count
balances-IsNonNegative key t found = go (balance_key.beq alice key) found
  where
    go : (b : Bool) → (if b then some "II" else none) ≡ some t → IsAmount tallies t
    go true e = subst (IsAmount tallies) (of_some "II" t e) (pos 2, refl, refl)
    go false e = absurd (cc)

process_batch-IsNonNegative_example :
    IsNonNegative tallies (process_batch tallies batch db).1.tables.balances
process_batch-IsNonNegative_example =
    process_batch-IsNonNegative tallies tallies-ReadsBack batch db balances-IsNonNegative

completed-not_pending : completed_offer.status ≢ transfer_status_pending
completed-not_pending e = ground (arith, e, eq_iff "completed" "pending")

completed_found : lookup "offer-1" tables.transfers ≡ some completed_offer
unfolding lookup
completed_found = refl

process_batch-final_example :
    lookup "offer-1" (process_batch tallies batch db).1.tables.transfers ≡ some completed_offer
process_batch-final_example =
    process_batch-final tallies batch "offer-1" completed_offer db completed-not_pending
      completed_found

abbrev withdrawn : LedgerEvent
withdrawn = record minted {
  contract_id = "offer-2";
  is_created = false;
  choice = "TransferInstruction_Withdraw";
  fields = [];
}

abbrev pending_offer : Transfer
pending_offer = record completed_offer { contract_id = "offer-2"; status = "pending" }

abbrev pending_db : Db
pending_db = record db {
  tables = record tables { transfers = ("offer-2", pending_offer) ∷ [] };
  faults = [];
}

abbrev deposited : HoldingChange
deposited = record {
  contract_id = "holding-1";
  is_archived = false;
  ledger_offset = pos 8;
  owner = "alice";
  instrument_admin = "issuer";
  instrument_id = "DEMO";
  amount = "III";
  locked = false;
}

abbrev steady_db : Db
steady_db = record db { faults = [] }

balance_before : balance_of tallies alice steady_db ≡ some (pos 2)
unfolding lookup read count
balance_before = refl

amount_read : read "III" ≡ some (pos 3)
unfolding read count
amount_read = refl

process_holding_change_twice_example :
    let s = (process_holding_change tallies deposited steady_db).1 in
    (balance_of tallies alice s ≡ some (pos 2 +ℤ pos 3))
    × (balance_of tallies alice (process_holding_change tallies deposited s).1
        ≡ some (pos 2 +ℤ pos 3 +ℤ pos 3))
process_holding_change_twice_example =
    process_holding_change_twice tallies tallies-ReadsBack deposited (pos 3) refl refl refl
      amount_read (pos 2) steady_db refl balance_before once twice
  where
    once : is_negative (pos 2 +ℤ pos 3) ≡ false
    once = unfold ◌+ℤ◌ in refl

    twice : is_negative (pos 2 +ℤ pos 3 +ℤ pos 3) ≡ false
    twice = unfold ◌+ℤ◌ in refl

abbrev second_batch : Batch
second_batch = record { offset = pos 9; items = [] }

run_batches-Resumes_example :
    Resumes tallies 1 db
      (batch ∷ second_batch ∷ [])
      (run_batches tallies 1 (batch ∷ second_batch ∷ []) db)
run_batches-Resumes_example = run_batches-Resumes tallies 1 (batch ∷ second_batch ∷ []) db
