-- ===== src/Indexer/Store.antt =====
-- pkg/indexer/store/pg.go: the indexer's tables, each with its primary key, and the statements on them.
-- `faults` says which of the coming statements fail (none, when it is used up). A step that fails leaves
-- its error beside the state, and `run_in_tx` takes the tables back.
use canton_middleware.Prelude.{
  String, Bool, true, false, Option, none, some, List, ◌≡◌, ◌↔◌, str_eq, eq_iff, if◌then◌else◌,
  ◌&&◌, ◌||◌, arith,
}
use canton_middleware.Prelude.Assoc.{Eq, lookup, put, remove, insert_new, modify}
use canton_middleware.Prelude.Int.{ℤ, pos, negsuc, ◌+ℤ◌, leb_ℤ}
use canton_middleware.Exec.{Result, ok, err, Exec, pure, raise, ◌>>=◌, ◌>>◌}
use canton_middleware.Exec.Faults.{is_faulty, rest_of}
use canton_middleware.Indexer.Types.{
  Transfer, ParsedEvent, HoldingChange, Token, transfer_status_pending, transfer_status_expired,
}

instance abbrev pub string_key : Eq String
string_key = record { beq = str_eq; beq_iff = eq_iff }

pub record InstrumentKey : Type 0 where
  pub admin : String
  pub id : String

pub record BalanceKey : Type 0 where
  pub party : String
  pub instrument : InstrumentKey

abbrev pub same_instrument : InstrumentKey → InstrumentKey → Bool
same_instrument i j = str_eq i.admin j.admin && str_eq i.id j.id

pub same_instrument_iff : (i j : InstrumentKey) → (same_instrument i j ≡ true) ↔ (i ≡ j)
same_instrument_iff i j = ground (arith, eq_iff i.admin j.admin, eq_iff i.id j.id)

instance abbrev pub instrument_key : Eq InstrumentKey
instrument_key = record { beq = same_instrument; beq_iff = same_instrument_iff }

abbrev pub same_balance : BalanceKey → BalanceKey → Bool
same_balance k l = str_eq k.party l.party && same_instrument k.instrument l.instrument

pub same_balance_iff : (k l : BalanceKey) → (same_balance k l ≡ true) ↔ (k ≡ l)
same_balance_iff k l = ground (
  arith,
  eq_iff k.party l.party,
  eq_iff k.instrument.admin l.instrument.admin,
  eq_iff k.instrument.id l.instrument.id,
)

instance abbrev pub balance_key : Eq BalanceKey
balance_key = record { beq = same_balance; beq_iff = same_balance_iff }

pub data Error : Type 0 where
  database_error negative_balance invalid_decimal : Error

-- What the store uses of shopspring/decimal, on numbers `N`, and of Postgres's `numeric`: the sum of two
-- texts as a text, `none` where a text is not a number.
pub record Decimals (N : Type 0) : Type 0 where
  pub zero : N
  pub new_from_string : String → Option N
  pub add : N → N → N
  pub is_negative : N → Bool
  pub is_zero : N → Bool
  pub to_string : N → String
  pub numeric_add : String → String → Option String

pub record Tables : Type 0 where
  pub events : List (String × ParsedEvent)
  pub tokens : List (InstrumentKey × Token)
  pub balances : List (BalanceKey × String)
  pub holdings : List (String × HoldingChange)
  pub transfers : List (String × Transfer)
  pub offset : Option ℤ

pub record Db : Type 0 where
  pub tables : Tables
  pub faults : List Bool
  pub clock : ℤ

abbrev pub Action : Type 0 → Type 0
Action A = Exec Error Db A

-- One statement sent to the database.
unfoldable pub statement : Action Unit
statement s = (
  if is_faulty s.faults then err database_error else ok tt,
  record s { faults = rest_of s.faults },
)

-- A statement that reads or writes the tables.
unfoldable pub query : {A : Type 0} → (Tables → A) → Action A
query f = do statement; λ s. (ok (f s.tables), s)

unfoldable pub execute : (Tables → Tables) → Action Unit
execute f = do statement; λ s. (ok tt, record s { tables = f s.tables })

abbrev pub if_ok : {A : Type 0} → Result Error A → Tables → Db → Result Error A × Db
if_ok (ok a) old s = (ok a, s)
if_ok (err e) old s = (err e, record s { tables = old })

-- BEGIN, the body, COMMIT; on an error the tables are as they were.
unfoldable pub run_in_tx : Action Unit → Action Unit
run_in_tx body s = let (r, s') = (statement >> body >> statement) s in if_ok r s.tables s'

abbrev pub absent : {V : Type 0} → Option V → Bool
absent none = true
absent (some v) = false

-- Whether a row was inserted.
unfoldable pub insert_event : ParsedEvent → Action Bool
insert_event e = do
  inserted ← query (λ t. absent (lookup e.contract_id t.events))
  λ s. (
    ok inserted,
    record s { tables = record s.tables { events = insert_new e.contract_id e s.tables.events } },
  )

unfoldable pub save_offset : ℤ → Action Unit
save_offset offset = execute (λ t. record t { offset = some offset })

unfoldable pub upsert_token : Token → Action Unit
upsert_token token = execute (λ t. record t {
  tokens =
      insert_new (record { admin = token.instrument_admin; id = token.instrument_id })
        (record token { total_supply = "0"; holder_count = pos 0 }) t.tokens;
})

abbrev or_zero : Option ℤ → ℤ
or_zero none = pos 0
or_zero (some n) = n

unfoldable pub latest_offset : Action ℤ
latest_offset = query (λ t. or_zero t.offset)

-- The holder count changes when a balance leaves or reaches zero.
unfoldable pub holder_delta : Bool → Bool → Option ℤ
holder_delta true false = some (pos 1)
holder_delta false true = some (negsuc 0)
holder_delta _ _ = none

abbrev pub count_holder : InstrumentKey → Option ℤ → Action Unit
count_holder key none = pure tt
count_holder key (some d) = execute (λ t. record t {
  tokens = modify key (λ token. record token { holder_count = token.holder_count +ℤ d }) t.tokens;
})

module _ {N : Type 0} (dec : Decimals N) where
  abbrev pub added : Option Token → InstrumentKey → String → Action Unit
  added none key delta = pure tt
  added (some token) key delta = summed (dec.numeric_add token.total_supply delta)
    where
      summed : Option String → Action Unit
      summed none = raise database_error
      summed (some supply) = λ s. (
        ok tt,
        record s {
          tables = record s.tables {
            tokens = modify key (λ u. record u { total_supply = supply }) s.tables.tokens;
          };
        },
      )

  -- UPDATE … SET total_supply = total_supply + delta: a text that is no number is the database's error.
  unfoldable pub apply_supply_delta : InstrumentKey → String → Action Unit
  apply_supply_delta key delta = do token ← query (λ t. lookup key t.tokens); added token key delta

  abbrev pub parsed : Option N → Action N
  parsed none = raise invalid_decimal
  parsed (some n) = pure n

  abbrev pub old_amount : Option String → Action N
  old_amount none = pure dec.zero
  old_amount (some text) = parsed (dec.new_from_string text)

  abbrev pub write_balance : BalanceKey → Bool → N → N → Action Unit
  write_balance key is_new old new = if dec.is_negative new then raise negative_balance else (do
    execute (λ t. record t { balances = put key (dec.to_string new) t.balances })
    count_holder key.instrument (holder_delta (is_new || dec.is_zero old) (dec.is_zero new)))

  unfoldable pub apply_balance_delta : BalanceKey → String → Action Unit
  apply_balance_delta key delta = do
    row ← query (λ t. lookup key t.balances)
    old ← old_amount row
    d ← parsed (dec.new_from_string delta)
    write_balance key (absent row) old (dec.add old d)

-- The columns of a holding's row leave out what only a change has.
unfoldable pub to_holding_dao : HoldingChange → HoldingChange
to_holding_dao h = record h { is_archived = false; locked = false }

unfoldable pub insert_holding : HoldingChange → Action Unit
unfolding to_holding_dao
insert_holding h =
    execute (λ t. record t { holdings = insert_new h.contract_id (to_holding_dao h) t.holdings })

abbrev pub taken : String → Option HoldingChange → Action (Option HoldingChange)
taken contract_id none = pure none
taken contract_id (some h) = do
  execute (λ t. record t { holdings = remove contract_id t.holdings })
  pure (some h)

-- The row, which it deletes.
unfoldable pub take_holding : String → Action (Option HoldingChange)
take_holding contract_id = do
  row ← query (λ t. lookup contract_id t.holdings)
  taken contract_id row

-- `Archived` has no column.
unfoldable pub to_transfer_dao : Transfer → Transfer
to_transfer_dao t = record t { archived = false }

unfoldable pub insert_transfer : Transfer → Action Unit
unfolding to_transfer_dao
insert_transfer transfer = execute (λ t. record t {
  transfers = insert_new transfer.contract_id (to_transfer_dao transfer) t.transfers;
})

-- WHERE status = 'pending'.
abbrev pub finalized : String → Transfer → Transfer
finalized status t =
    if str_eq t.status transfer_status_pending then record t { status = status } else t

unfoldable pub finalize_transfer : String → String → Action Unit
finalize_transfer contract_id status =
    execute (λ t. record t { transfers = modify contract_id (finalized status) t.transfers })

-- A pending offer whose time is over reads as expired.
abbrev pub expired_at : ℤ → Option ℤ → Bool
expired_at now none = false
expired_at now (some time) = leb_ℤ time now

abbrev pub surfaced : ℤ → Transfer → Transfer
surfaced now t =
    if str_eq t.status transfer_status_pending && expired_at now t.expires_at
    then record t { status = transfer_status_expired }
    else t

abbrev seen : ℤ → Option Transfer → Option Transfer
seen now none = none
seen now (some t) = some (surfaced now t)

unfoldable pub get_transfer : String → Action (Option Transfer)
get_transfer contract_id = do
  row ← query (λ t. lookup contract_id t.transfers)
  λ s. (ok (seen s.clock row), s)
