-- ===== src/Indexer/Effects.antt =====
-- What the statements of pkg/indexer/store/pg.go and the steps of pkg/indexer/engine/processor.go preserve
-- of the tables of balances and transfers.
use canton_middleware.Prelude.{
  String, Bool, true, false, Option, none, some, List, [], ◌∷◌, ◌≡◌, refl, Bool-cases, Option-cases,
  inl, inr, ◌||◌,
}
use canton_middleware.Prelude.Assoc.{put, insert_new, modify}
use canton_middleware.Prelude.Int.{ℤ}
use canton_middleware.Exec.{Result, ok, err}
use canton_middleware.Exec.Keeps.{
  Keeps, Keeps-if, Keeps-bind, Keeps-pure, Keeps-raise, Keeps-attempt,
}
use canton_middleware.Indexer.Types.{
  Transfer, ParsedEvent, EventType, mint, burn, transfer, HoldingChange, Token,
}
use canton_middleware.Indexer.Store.{
  Db, Tables, BalanceKey, InstrumentKey, balance_key, string_key, instrument_key, Decimals, Error,
  negative_balance, database_error, invalid_decimal, statement, query, execute, run_in_tx,
  insert_event, save_offset, upsert_token, count_holder, holder_delta, added, parsed, old_amount,
  write_balance, apply_supply_delta, apply_balance_delta, insert_holding, taken, take_holding,
  insert_transfer, to_transfer_dao, finalize_transfer, finalized, if_ok, absent,
}
use canton_middleware.Indexer.Processor.{
  Item, event, offer, holding, unrecognized, Batch, with_supply, after_update, apply_updates,
  index_event, process_transfer_event, after_debit, debit, process_holding_change, process_offer,
  process_item, process_items, process_batch, record_direct, direct_transfer, is_negative_delta,
  instrument_of, supply_delta_from_event, balance_updates_from_event,
}

module _ (P : Tables → Type 0) where
  pub statement-Keeps : Keeps (λ s. P s.tables) statement
  unfolding statement
  statement-Keeps = record { at = λ s h. h }

  pub query-Keeps : {A : Type 0} (f : Tables → A) → Keeps (λ s. P s.tables) (query f)
  unfolding query
  query-Keeps f = Keeps-bind statement-Keeps (λ u. record { at = λ s h. h })

  pub execute-Keeps :
      (f : Tables → Tables) → ((t : Tables) → P t → P (f t)) → Keeps (λ s. P s.tables) (execute f)
  unfolding execute
  execute-Keeps f k = Keeps-bind statement-Keeps (λ u. record { at = λ s h. k s.tables h })

  pub run_in_tx-Keeps :
      {body : Db → Result Error Unit × Db}
      → Keeps (λ s. P s.tables) body
      → Keeps (λ s. P s.tables) (run_in_tx body)
  unfolding run_in_tx
  run_in_tx-Keeps {body} k = record {
    at = λ s h.
        after _ _ s h
          ((Keeps-bind (Keeps-bind statement-Keeps (λ u. k)) (λ u. statement-Keeps)).at s h);
  }
    where
      after :
          (r : Result Error Unit) (s' s : Db)
          → P s.tables
          → P s'.tables
          → P (if_ok r s.tables s').1.tables
      after (ok u) s' s h k = k
      after (err e) s' s h k = h

-- A property of the balances and the transfers that the three statements on them preserve.
pub record Stable {N : Type 0} (dec : Decimals N)
    (Q : List (BalanceKey × String) → List (String × Transfer) → Type 0) : Type 0 where
  pub on_balance :
      (key : BalanceKey) (n : N) (balances : List (BalanceKey × String))
      (transfers : List (String × Transfer))
      → dec.is_negative n ≡ false
      → Q balances transfers
      → Q (put key (dec.to_string n) balances) transfers
  pub on_insert :
      (t : Transfer) (balances : List (BalanceKey × String)) (transfers : List (String × Transfer))
      → Q balances transfers
      → Q balances (insert_new t.contract_id t transfers)
  pub on_finalize :
      (id status : String) (balances : List (BalanceKey × String))
      (transfers : List (String × Transfer))
      → Q balances transfers
      → Q balances (modify id (finalized status) transfers)

module _ {N : Type 0} {dec : Decimals N}
    {Q : List (BalanceKey × String) → List (String × Transfer) → Type 0}
    (stable : Stable dec Q) where
  abbrev OfTables : Tables → Type 0
  OfTables t = Q t.balances t.transfers

  abbrev pub Holds : Db → Type 0
  Holds s = OfTables s.tables

  parsed-Holds : (o : Option N) → Keeps Holds (parsed dec o)
  parsed-Holds none = Keeps-raise _
  parsed-Holds (some n) = Keeps-pure _

  old_amount-Holds : (o : Option String) → Keeps Holds (old_amount dec o)
  old_amount-Holds none = Keeps-pure _
  old_amount-Holds (some text) = parsed-Holds _

  untouched :
      (f : Tables → Tables)
      → ((t : Tables) → (f t).balances ≡ t.balances)
      → ((t : Tables) → (f t).transfers ≡ t.transfers)
      → Keeps Holds (execute f)
  untouched f b r = execute-Keeps OfTables f (λ t h. rw (b t, r t) h)

  count_holder-Holds : (key : InstrumentKey) (d : Option ℤ) → Keeps Holds (count_holder key d)
  count_holder-Holds key none = Keeps-pure _
  count_holder-Holds key (some d) = untouched _ (λ t. refl) (λ t. refl)

  write_balance-Holds :
      (key : BalanceKey) (is_new : Bool) (old new : N)
      → Keeps Holds (write_balance dec key is_new old new)
  write_balance-Holds key is_new old new = elim (Bool-cases (dec.is_negative new)) [
    | inl bad ↦ rw bad (Keeps-raise _)
    | inr good ↦ rw good (
        Keeps-bind
          (execute-Keeps OfTables _
            (λ t h. stable.on_balance key new t.balances t.transfers good h))
          (λ u.
            count_holder-Holds key.instrument
              (holder_delta (is_new || dec.is_zero old) (dec.is_zero new))))
  ]

  apply_balance_delta-Holds :
      (key : BalanceKey) (delta : String) → Keeps Holds (apply_balance_delta dec key delta)
  unfolding apply_balance_delta
  apply_balance_delta-Holds key delta = Keeps-bind (query-Keeps OfTables _) (λ row.
      Keeps-bind (old_amount-Holds row) (λ old.
        Keeps-bind (parsed-Holds (dec.new_from_string delta))
          (λ d. write_balance-Holds key (absent row) old (dec.add old d))))

  event_added :
      (e : ParsedEvent) (inserted : Bool)
      → Keeps {E = Error} Holds (λ s. (
        ok inserted,
        record s {
          tables = record s.tables { events = insert_new e.contract_id e s.tables.events };
        },
      ))
  event_added e inserted = record { at = λ s h. h }

  insert_event-Holds : (e : ParsedEvent) → Keeps Holds (insert_event e)
  unfolding insert_event
  insert_event-Holds e = Keeps-bind (query-Keeps OfTables _) (event_added e)

  with_supply-Holds :
      (key : InstrumentKey) (delta : Option String) → Keeps Holds (with_supply dec key delta)
  unfolding apply_supply_delta
  with_supply-Holds key none = Keeps-pure _
  with_supply-Holds key (some delta) = Keeps-bind (query-Keeps OfTables _) summed_up
    where
      summed_up : (token : Option Token) → Keeps Holds (added dec token key delta)
      summed_up none = Keeps-pure _
      summed_up (some token) = elim (Option-cases (dec.numeric_add token.total_supply delta)) [
        | inl bad ↦ rw bad (Keeps-raise _)
        | inr sum ↦ rw sum.1 (record { at = λ s h. h })
      ]

  after_update-Holds :
      (kind : EventType) (delta : String) (result : Result Error Unit)
      → Keeps Holds (after_update dec kind delta result)
  after_update-Holds kind delta (ok u) = Keeps-pure _
  after_update-Holds mint delta (err e) = Keeps-raise _
  after_update-Holds burn delta (err e) = Keeps-raise _
  after_update-Holds transfer delta (err database_error) = Keeps-raise _
  after_update-Holds transfer delta (err invalid_decimal) = Keeps-raise _
  after_update-Holds transfer delta (err negative_balance) =
      Keeps-if (is_negative_delta delta) (Keeps-pure _) (Keeps-raise _)

  apply_updates-Holds :
      (kind : EventType) (key : InstrumentKey) (updates : List (String × String))
      → Keeps Holds (apply_updates dec kind key updates)
  unfolding apply_updates
  apply_updates-Holds kind key [] = Keeps-pure _
  apply_updates-Holds kind key ((party, delta) ∷ rest) =
      Keeps-bind (Keeps-attempt (apply_balance_delta-Holds _ delta)) (λ result.
        Keeps-bind (after_update-Holds kind delta result) (λ u. apply_updates-Holds kind key rest))

  insert_transfer-Holds : (t : Transfer) → Keeps Holds (insert_transfer t)
  unfolding insert_transfer to_transfer_dao
  insert_transfer-Holds t =
      execute-Keeps OfTables _
        (λ u h. stable.on_insert (to_transfer_dao t) u.balances u.transfers h)

  record_direct-Holds :
      (kind : EventType) (from to : Option String) (e : ParsedEvent)
      → Keeps Holds (record_direct kind from to e)
  record_direct-Holds mint from to e = Keeps-pure _
  record_direct-Holds burn from to e = Keeps-pure _
  record_direct-Holds transfer none to e = Keeps-pure _
  record_direct-Holds transfer (some from) none e = Keeps-pure _
  record_direct-Holds transfer (some from) (some to) e =
      insert_transfer-Holds (direct_transfer e from to)

  index_event-Holds : (e : ParsedEvent) (inserted : Bool) → Keeps Holds (index_event dec e inserted)
  unfolding upsert_token
  index_event-Holds e false = Keeps-pure _
  index_event-Holds e true = Keeps-bind (untouched _ (λ t. refl) (λ t. refl)) (λ u.
      Keeps-bind (with_supply-Holds (instrument_of e) (supply_delta_from_event e)) (λ u.
        Keeps-bind
          (apply_updates-Holds e.event_type (instrument_of e) (balance_updates_from_event e))
          (λ u. record_direct-Holds e.event_type e.from_party_id e.to_party_id e)))

  after_debit-Holds : (result : Result Error Unit) → Keeps Holds (after_debit dec result)
  after_debit-Holds (ok u) = Keeps-pure _
  after_debit-Holds (err database_error) = Keeps-raise _
  after_debit-Holds (err negative_balance) = Keeps-pure _
  after_debit-Holds (err invalid_decimal) = Keeps-raise _

  debit-Holds : (stored : Option HoldingChange) → Keeps Holds (debit dec stored)
  debit-Holds none = Keeps-pure _
  debit-Holds (some h) =
      Keeps-bind (Keeps-attempt (apply_balance_delta-Holds _ _)) after_debit-Holds

  taken-Holds : (id : String) (row : Option HoldingChange) → Keeps Holds (taken id row)
  taken-Holds id none = Keeps-pure _
  taken-Holds id (some h) = Keeps-bind (untouched _ (λ t. refl) (λ t. refl)) (λ u. Keeps-pure _)

  process_holding_change-Holds : (h : HoldingChange) → Keeps Holds (process_holding_change dec h)
  unfolding process_holding_change take_holding insert_holding
  process_holding_change-Holds h =
      Keeps-if h.is_archived
        (Keeps-bind (Keeps-bind (query-Keeps OfTables _) (taken-Holds h.contract_id)) debit-Holds)
        (Keeps-if _ (Keeps-pure _) (
          Keeps-if h.locked (Keeps-pure _) (
            Keeps-bind (untouched _ (λ t. refl) (λ t. refl))
              (λ u. apply_balance_delta-Holds _ h.amount))))

  process_offer-Holds : (t : Transfer) → Keeps Holds (process_offer t)
  unfolding process_offer finalize_transfer
  process_offer-Holds t =
      Keeps-if t.archived
        (execute-Keeps OfTables _
          (λ u h. stable.on_finalize t.contract_id _ u.balances u.transfers h))
        (insert_transfer-Holds t)

  process_item-Holds : (item : Item) → Keeps Holds (process_item dec item)
  unfolding process_transfer_event
  process_item-Holds (event e) = Keeps-bind (insert_event-Holds e) (index_event-Holds e)
  process_item-Holds (offer t) = process_offer-Holds t
  process_item-Holds (holding h) = process_holding_change-Holds h
  process_item-Holds unrecognized = Keeps-pure _

  process_items-Holds : (items : List Item) → Keeps Holds (process_items dec items)
  unfolding process_items
  process_items-Holds [] = Keeps-pure _
  process_items-Holds (item ∷ items) =
      Keeps-bind (process_item-Holds item) (λ u. process_items-Holds items)

  pub process_batch-Holds : (batch : Batch) → Keeps Holds (process_batch dec batch)
  unfolding process_batch save_offset
  process_batch-Holds batch =
      run_in_tx-Keeps OfTables
        (Keeps-bind (process_items-Holds batch.items) (λ u. untouched _ (λ t. refl) (λ t. refl)))
