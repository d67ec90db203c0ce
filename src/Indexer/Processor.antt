-- ===== src/Indexer/Processor.antt =====
-- pkg/indexer/engine/processor.go. A batch is persisted in one transaction; a batch that fails is tried
-- again with a growing delay.
use Prim.Native.String.{◌++◌ as str_append}
use canton_middleware.Prelude.{
  ℕ, zero, suc, String, Bool, true, false, Option, none, some, List, [], ◌∷◌, str_eq, if◌then◌else◌,
  ◌||◌, ltb, ◌*◌,
}
use canton_middleware.Prelude.Int.{ℤ, pos}
use canton_middleware.Prelude.Text.{has_minus}
use canton_middleware.Exec.{Result, ok, err, pure, raise, attempt, ◌>>=◌, ◌>>◌}
use canton_middleware.Indexer.Types.{
  Transfer, ParsedEvent, EventType, mint, burn, transfer, HoldingChange, Token,
  transfer_status_completed, transfer_kind_direct,
}
use canton_middleware.Indexer.Store.{
  Db, Action, latest_offset, Error, negative_balance, Decimals, InstrumentKey, run_in_tx,
  insert_event, save_offset, upsert_token, apply_supply_delta, apply_balance_delta, insert_holding,
  take_holding, insert_transfer, finalize_transfer,
}

-- What the decoders give; `unrecognized` is a value of any other type.
pub data Item : Type 0 where
  event : ParsedEvent → Item
  offer : Transfer → Item
  holding : HoldingChange → Item
  unrecognized : Item

pub record Batch : Type 0 where
  pub offset : ℤ
  pub items : List Item

abbrev pub negated : String → String
negated amount = str_append "-" amount

unfoldable pub token_from_event : ParsedEvent → Token
token_from_event e = record {
  instrument_admin = e.instrument_admin;
  instrument_id = e.instrument_id;
  issuer = e.issuer;
  total_supply = "";
  holder_count = pos 0;
  first_seen_offset = e.ledger_offset;
  first_seen_at = e.effective_time;
}

abbrev pub supply_delta : EventType → String → Option String
supply_delta mint amount = some amount
supply_delta burn amount = some (negated amount)
supply_delta transfer amount = none

unfoldable pub supply_delta_from_event : ParsedEvent → Option String
supply_delta_from_event e = supply_delta e.event_type e.amount

-- A delta is negative if its text begins with a minus sign.
unfoldable pub is_negative_delta : String → Bool
is_negative_delta delta = has_minus delta

abbrev pub balance_updates :
    EventType → Option String → Option String → String → List (String × String)
balance_updates mint from none amount = []
balance_updates mint from (some to) amount = (to, amount) ∷ []
balance_updates burn none to amount = []
balance_updates burn (some from) to amount = (from, negated amount) ∷ []
balance_updates transfer (some from) (some to) amount = (from, negated amount) ∷ (to, amount) ∷ []
balance_updates transfer _ _ amount = []

unfoldable pub balance_updates_from_event : ParsedEvent → List (String × String)
balance_updates_from_event e = balance_updates e.event_type e.from_party_id e.to_party_id e.amount

unfoldable pub instrument_of : ParsedEvent → InstrumentKey
instrument_of e = record { admin = e.instrument_admin; id = e.instrument_id }

unfoldable pub direct_transfer : ParsedEvent → String → String → Transfer
direct_transfer e from to = record {
  contract_id = e.contract_id;
  kind = transfer_kind_direct;
  status = transfer_status_completed;
  from_party_id = from;
  to_party_id = to;
  instrument_admin = e.instrument_admin;
  instrument_id = e.instrument_id;
  amount = e.amount;
  expires_at = none;
  tx_id = e.tx_id;
  ledger_offset = e.ledger_offset;
  created_at = e.effective_time;
  archived = false;
}

abbrev pub record_direct : EventType → Option String → Option String → ParsedEvent → Action Unit
record_direct transfer (some from) (some to) e = insert_transfer (direct_transfer e from to)
record_direct _ _ _ e = pure tt

unfoldable pub process_offer : Transfer → Action Unit
process_offer t =
    if t.archived
    then finalize_transfer t.contract_id
        (if str_eq t.status "" then transfer_status_completed else t.status)
    else insert_transfer t

module _ {N : Type 0} (dec : Decimals N) where
  abbrev pub with_supply : InstrumentKey → Option String → Action Unit
  with_supply key none = pure tt
  with_supply key (some delta) = apply_supply_delta dec key delta

  -- The error of one balance update: the underflow of a sender is passed over.
  abbrev pub after_update : EventType → String → Result Error Unit → Action Unit
  after_update transfer delta (err negative_balance) =
      if is_negative_delta delta then pure tt else raise negative_balance
  after_update _ delta (err e) = raise e
  after_update _ delta (ok u) = pure tt

  unfoldable pub apply_updates : EventType → InstrumentKey → List (String × String) → Action Unit
  apply_updates kind key [] = pure tt
  apply_updates kind key ((party, delta) ∷ rest) = do
    result ← attempt (apply_balance_delta dec (record { party = party; instrument = key }) delta)
    after_update kind delta result
    apply_updates kind key rest

  abbrev pub index_event : ParsedEvent → Bool → Action Unit
  index_event e false = pure tt
  index_event e true = do
    upsert_token (token_from_event e)
    with_supply (instrument_of e) (supply_delta_from_event e)
    apply_updates e.event_type (instrument_of e) (balance_updates_from_event e)
    record_direct e.event_type e.from_party_id e.to_party_id e

  unfoldable pub process_transfer_event : ParsedEvent → Action Unit
  process_transfer_event e = do inserted ← insert_event e; index_event e inserted

  abbrev pub after_debit : Result Error Unit → Action Unit
  after_debit (err negative_balance) = pure tt
  after_debit (err e) = raise e
  after_debit (ok u) = pure tt

  abbrev pub debit : Option HoldingChange → Action Unit
  debit none = pure tt
  debit (some h) = do
    result ← attempt (
        apply_balance_delta dec
          (record {
            party = h.owner;
            instrument = record { admin = h.instrument_admin; id = h.instrument_id };
          })
          (negated h.amount))
    after_debit result

  -- A change of a locked holding, or one with a field missing, is passed over.
  unfoldable pub process_holding_change : HoldingChange → Action Unit
  process_holding_change h =
      if h.is_archived
      then (do stored ← take_holding h.contract_id; debit stored)
      else if str_eq h.owner "" || str_eq h.instrument_id "" || str_eq h.instrument_admin ""
      then pure tt
      else if h.locked
      then pure tt
      else (do
        insert_holding h
        apply_balance_delta dec
            (record {
              party = h.owner;
              instrument = record { admin = h.instrument_admin; id = h.instrument_id };
            })
            h.amount)

  abbrev pub process_item : Item → Action Unit
  process_item (event e) = process_transfer_event e
  process_item (offer t) = process_offer t
  process_item (holding h) = process_holding_change h
  process_item unrecognized = pure tt

  unfoldable pub process_items : List Item → Action Unit
  process_items [] = pure tt
  process_items (item ∷ items) = process_item item >> process_items items

  unfoldable pub process_batch : Batch → Action Unit
  process_batch batch = run_in_tx (process_items batch.items >> save_offset batch.offset)

-- Durations are in seconds.
abbrev pub processor_retry_base_delay : ℕ
processor_retry_base_delay = 5

abbrev pub processor_retry_max_delay : ℕ
processor_retry_max_delay = 60

unfoldable pub next_delay : ℕ → ℕ
next_delay delay =
    if ltb (delay * 2) processor_retry_max_delay then delay * 2 else processor_retry_max_delay

abbrev pub stop_or_retry : Result Error Unit × Db → Action Unit → Result Error Unit × Db
stop_or_retry (ok u, s) again = (ok u, s)
stop_or_retry (err e, s) again = again s

module _ {N : Type 0} (dec : Decimals N) where
  -- At most so many more tries of a batch, then what the last one returned.
  unfoldable pub process_batch_with_retry : ℕ → Batch → Action Unit
  process_batch_with_retry zero batch s = process_batch dec batch s
  process_batch_with_retry (suc n) batch s =
      let again = process_batch_with_retry n batch in
      stop_or_retry (process_batch dec batch s) again

  unfoldable pub run_batches : ℕ → List Batch → Action Unit
  run_batches tries [] = pure tt
  run_batches tries (batch ∷ batches) =
      process_batch_with_retry tries batch >> run_batches tries batches

  -- `Run` on the batches that the fetcher delivers from an offset before it closes its channel.
  unfoldable pub run : ℕ → (ℤ → List Batch) → Action Unit
  run tries fetch = do offset ← latest_offset; run_batches tries (fetch offset)
