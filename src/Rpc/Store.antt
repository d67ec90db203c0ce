-- ===== src/Rpc/Store.antt =====
-- pkg/ethrpc/store/pg.go: the mempool, the transactions, the logs and the number of the latest block. The rows
-- of the mempool stand in the order of their ids, which is that of insertion. `before` is what the tables were
-- when the open transaction of a pending block began; there is none when it is over, and that is its `done`.
pub mod Queries
use canton_middleware.Prelude.{
  ℕ, String, Bool, true, false, Option, none, some, List, [], ◌∷◌, ◌++◌, ◌≡◌, ◌↔◌, map, str_eq,
  eq_iff, if◌then◌else◌, ◌&&◌, ◌||◌, leb, zero, suc, ◌==◌, ◌+◌, ◌%◌, ◌^◌, arith,
}
use canton_middleware.Prelude.Assoc.{Eq, lookup, insert_new}
use canton_middleware.Exec.{Result, ok, err, Exec, pure, raise, ◌>>=◌, ◌>>◌}
use canton_middleware.Exec.Faults.{is_faulty, rest_of}
use canton_middleware.Rpc.Types.{
  MempoolStatus, pending, completed, failed, mined, MempoolEntry, EvmTransaction, EvmLog,
}

pub data Error : Type 0 where
  database_error : Error

instance abbrev pub hash_key : Eq String
hash_key = record { beq = str_eq; beq_iff = eq_iff }

-- The key of a log: its transaction's hash and its index.
pub record LogKey : Type 0 where
  pub tx_hash : String
  pub log_index : ℕ

abbrev pub same_log : LogKey → LogKey → Bool
same_log k l = str_eq k.tx_hash l.tx_hash && k.log_index == l.log_index

pub same_log_iff : (k l : LogKey) → (same_log k l ≡ true) ↔ (k ≡ l)
same_log_iff k l = ground (arith, eq_iff k.tx_hash l.tx_hash)

instance abbrev pub log_key : Eq LogKey
log_key = record { beq = same_log; beq_iff = same_log_iff }

pub record Tables : Type 0 where
  pub mempool : List MempoolEntry
  pub next_id : ℕ
  pub transactions : List (String × EvmTransaction)
  pub logs : List (LogKey × EvmLog)
  pub latest_block : ℕ

pub record Db : Type 0 where
  pub tables : Tables
  pub before : Option Tables
  pub faults : List Bool
  pub clock : ℕ

abbrev pub Action : Type 0 → Type 0
Action A = Exec Error Db A

unfoldable pub statement : Action Unit
statement s = (
  if is_faulty s.faults then err database_error else ok tt,
  record s { faults = rest_of s.faults },
)

unfoldable pub query : {A : Type 0} → (Tables → A) → Action A
query f = do statement; λ s. (ok (f s.tables), s)

unfoldable pub execute : (Tables → Tables) → Action Unit
execute f = do statement; λ s. (ok tt, record s { tables = f s.tables })

-- INSERT … ON CONFLICT (tx_hash) DO NOTHING. The sequence of the ids goes on even where nothing is inserted.
abbrev pub has_hash : String → List MempoolEntry → Bool
has_hash hash [] = false
has_hash hash (e ∷ rows) = str_eq e.tx_hash hash || has_hash hash rows

abbrev pub pending_row : MempoolEntry → ℕ → MempoolEntry
pending_row e id = record e { id = id; status = pending; error_message = "" }

unfoldable pub with_entry : MempoolEntry → Tables → Tables
with_entry e t = record t {
  mempool =
      if has_hash e.tx_hash t.mempool then t.mempool else t.mempool ++ pending_row e t.next_id ∷ [];
  next_id = t.next_id + 1;
}

unfoldable pub insert_mempool_entry : MempoolEntry → Action Unit
insert_mempool_entry e = execute (with_entry e)

abbrev pub is_pending : MempoolStatus → Bool
is_pending pending = true
is_pending _ = false

-- UPDATE … WHERE tx_hash = … AND status = 'pending'.
unfoldable pub settle : String → MempoolStatus → String → MempoolEntry → MempoolEntry
settle hash status message e =
    if str_eq e.tx_hash hash && is_pending e.status
    then record e { status = status; error_message = message }
    else e

-- The error message of a row is left as it was.
unfoldable pub complete : String → MempoolEntry → MempoolEntry
complete hash e =
    if str_eq e.tx_hash hash && is_pending e.status then record e { status = completed } else e

unfoldable pub complete_mempool_entry : String → Action Unit
complete_mempool_entry hash = execute (λ t. record t { mempool = map (complete hash) t.mempool })

unfoldable pub fail_mempool_entry : String → String → Action Unit
fail_mempool_entry hash message =
    execute (λ t. record t { mempool = map (settle hash failed message) t.mempool })

-- `LIMIT n`; a limit of 0 is none.
abbrev pub first_rows : ℕ → List MempoolEntry → List MempoolEntry
first_rows zero rows = []
first_rows (suc n) [] = []
first_rows (suc n) (e ∷ rows) = e ∷ first_rows n rows

abbrev pub limited : ℕ → List MempoolEntry → List MempoolEntry
limited n rows = if n == 0 then rows else first_rows n rows

unfoldable pub pending_entries : List MempoolEntry → List MempoolEntry
pending_entries [] = []
pending_entries (e ∷ rows) =
    let rest = pending_entries rows in if is_pending e.status then e ∷ rest else rest

-- `GetMempoolEntriesByStatus` at the status that the submitter asks for.
unfoldable pub get_pending_entries : ℕ → Action (List MempoolEntry)
get_pending_entries limit = query (λ t. limited limit (pending_entries t.mempool))

pub record PendingBlock : Type 0 where
  pub number : ℕ
  pub hash : String

-- A uint64.
abbrev pub next_number : ℕ → ℕ
next_number n = (n + 1) % 2 ^ 64

-- BEGIN and the lock on evm_state. `compute_block_hash` is the SHA-256 of the chain id and the number.
unfoldable pub new_block : (ℕ → String) → Action PendingBlock
new_block compute_block_hash = do
  statement
  latest ← query (λ t. t.latest_block)
  λ s. (
    ok (record { number = next_number latest; hash = compute_block_hash (next_number latest) }),
    record s { before = some s.tables },
  )

abbrev pub is_terminal : MempoolStatus → Bool
is_terminal completed = true
is_terminal failed = true
is_terminal _ = false

unfoldable pub terminal_entries : List MempoolEntry → List MempoolEntry
terminal_entries [] = []
terminal_entries (e ∷ rows) =
    let rest = terminal_entries rows in if is_terminal e.status then e ∷ rest else rest

abbrev pub has_id : ℕ → List MempoolEntry → Bool
has_id id [] = false
has_id id (e ∷ rows) = e.id == id || has_id id rows

-- UPDATE … SET status = 'mined' WHERE id IN (…).
unfoldable pub mark_mined : List MempoolEntry → MempoolEntry → MempoolEntry
mark_mined claimed e = if has_id e.id claimed then record e { status = mined } else e

unfoldable pub claimed_or_none : List MempoolEntry → Action (List MempoolEntry)
claimed_or_none [] = pure []
claimed_or_none (e ∷ es) = do
  execute (λ t. record t { mempool = map (mark_mined (e ∷ es)) t.mempool })
  pure (e ∷ es)

-- The entries are returned with the status that they had before.
unfoldable pub claim_mempool_entries : ℕ → Action (List MempoolEntry)
claim_mempool_entries max_txs = do
  rows ← query (λ t. limited max_txs (terminal_entries t.mempool))
  claimed_or_none rows

unfoldable pub add_evm_transaction : EvmTransaction → Action Unit
add_evm_transaction tx =
    execute (λ t. record t { transactions = insert_new tx.tx_hash tx t.transactions })

abbrev pub key_of : EvmLog → LogKey
key_of log = record { tx_hash = log.tx_hash; log_index = log.log_index }

unfoldable pub add_evm_log : EvmLog → Action Unit
add_evm_log log = execute (λ t. record t { logs = insert_new (key_of log) log t.logs })

abbrev pub rolled_back : Option Tables → Db → Db
rolled_back none s = s
rolled_back (some old) s = record s { tables = old; before = none }

-- The tables are as they were before the block; nothing if the block is done.
unfoldable pub abort : Db → Db
abort s = rolled_back s.before s

abbrev pub or_roll_back : Result Error Unit × Db → Result Error Unit × Db
or_roll_back (ok u, s) = (ok u, record s { before = none })
or_roll_back (err e, s) = (err e, abort s)

abbrev pub unless_done : Option Tables → Action Unit → Action Unit
unless_done none m = pure tt
unless_done (some old) m = m

-- The number of the block is saved and the transaction is committed; a statement that fails rolls it back.
unfoldable pub finalize : PendingBlock → Action Unit
unfolding abort
finalize b s =
    unless_done s.before
      (λ s. or_roll_back ((execute (λ t. record t { latest_block = b.number }) >> statement) s)) s
