-- ===== src/Rpc/Block.antt =====
-- What a tick of the miner (`mine` in pkg/ethrpc/miner/miner.go) makes of the tables: an account of a block that does
-- not follow the statements, and the agreement of the two.
pub mod Fills
use canton_middleware.Prelude.{
  ℕ, String, Bool, true, false, Option, none, some, List, [], ◌∷◌, ◌≡◌, ◌≢◌, refl, sym, ◌∙◌, ap,
  ◌⊎◌, inl, inr, Bool-cases, if◌then◌else◌, map, ◌+◌,
}
use canton_middleware.Prelude.Assoc.{insert_new}
use canton_middleware.Exec.{Result, ok, err, pure, ◌>>=◌, ◌>>◌}
use canton_middleware.Rpc.Types.{MempoolEntry, EvmTransaction, EvmLog}
use canton_middleware.Rpc.Store.{
  Tables, Db, Error, database_error, Action, LogKey, hash_key, log_key, key_of, PendingBlock,
  next_number, limited, terminal_entries, mark_mined, has_id, claimed_or_none,
  claim_mempool_entries, add_evm_transaction, add_evm_log, execute, query,
}
use canton_middleware.Rpc.Miner.{
  Miner, succeeded, evm_transaction, build_transfer_log, add_log, add_entries,
}
use canton_middleware.Rpc.Runs.{Runs, bind-Runs, pure-Runs, query-Runs, execute-Runs}

-- The transactions and the logs of a block, in their order; the logs are numbered from `log_index`.
abbrev pub block_transactions : Miner → PendingBlock → ℕ → List MempoolEntry → List EvmTransaction
block_transactions m b tx_index [] = []
block_transactions m b tx_index (e ∷ es) =
    evm_transaction m b tx_index e ∷ block_transactions m b (tx_index + 1) es

abbrev pub block_logs : Miner → PendingBlock → ℕ → ℕ → ℕ → List MempoolEntry → List EvmLog
block_logs m b time tx_index log_index [] = []
block_logs m b time tx_index log_index (e ∷ es) =
    if succeeded e.status
    then build_transfer_log m.codec e b tx_index log_index time
      ∷ block_logs m b time (tx_index + 1) (log_index + 1) es
    else block_logs m b time (tx_index + 1) log_index es

abbrev pub with_transactions :
    List EvmTransaction → List (String × EvmTransaction) → List (String × EvmTransaction)
with_transactions [] rows = rows
with_transactions (tx ∷ txs) rows = with_transactions txs (insert_new tx.tx_hash tx rows)

abbrev pub with_logs : List EvmLog → List (LogKey × EvmLog) → List (LogKey × EvmLog)
with_logs [] rows = rows
with_logs (l ∷ ls) rows = with_logs ls (insert_new (key_of l) l rows)

abbrev pub with_block_rows : List EvmTransaction → List EvmLog → Tables → Tables
with_block_rows txs ls t = record t {
  transactions = with_transactions txs t.transactions;
  logs = with_logs ls t.logs;
}

abbrev pub claimed : ℕ → Tables → List MempoolEntry
claimed max_txs t = limited max_txs (terminal_entries t.mempool)

abbrev pub with_mined : List MempoolEntry → Tables → Tables
with_mined es t = record t { mempool = map (mark_mined es) t.mempool }

abbrev pub next_block : Miner → Tables → PendingBlock
next_block m t = record {
  number = next_number t.latest_block;
  hash = m.codec.compute_block_hash (next_number t.latest_block);
}

abbrev pub sealed : Miner → PendingBlock → ℕ → List MempoolEntry → Tables → Tables
sealed m b time es t =
    record (with_block_rows (block_transactions m b 0 es) (block_logs m b time 0 0 es)
      (with_mined es t)) { latest_block = b.number }

-- With nothing to mine there is no block.
abbrev pub sealed_if_any : Miner → PendingBlock → ℕ → List MempoolEntry → Tables → Tables
sealed_if_any m b time [] t = t
sealed_if_any m b time (e ∷ es) t = sealed m b time (e ∷ es) t

-- The tables after a tick at a time.
abbrev pub mined_tables : Miner → ℕ → Tables → Tables
mined_tables m time t = sealed_if_any m (next_block m t) time (claimed m.max_txs_per_block t) t

entry-Runs :
    (clock : ℕ) (tx : EvmTransaction) (c : Bool) (l : EvmLog) (j : ℕ) (rest : ℕ → Action Unit)
    (txs : List EvmTransaction) (ls : ℕ → List EvmLog)
    → ((k : ℕ) → Runs clock (rest k) (λ t. tt) (with_block_rows txs (ls k)))
    → Runs clock
        (add_evm_transaction tx >>= λ u. add_log c l >>= λ v. rest (if c then j + 1 else j))
        (λ t. tt)
        (with_block_rows (tx ∷ txs) (if c then l ∷ ls (j + 1) else ls j))
unfolding add_evm_transaction add_evm_log pure ◌>>=◌
entry-Runs clock tx c l j rest txs ls h = go c
  where
    row : Tables → Tables
    row t = record t { transactions = insert_new tx.tx_hash tx t.transactions }

    log : Tables → Tables
    log t = record t { logs = insert_new (key_of l) l t.logs }

    go :
        (c : Bool)
        → Runs clock
            (execute row >>= λ u. add_log c l >>= λ v. rest (if c then j + 1 else j))
            (λ t. tt)
            (with_block_rows (tx ∷ txs) (if c then l ∷ ls (j + 1) else ls j))
    go true =
        bind-Runs clock (execute row) (λ u. execute log >>= λ v. rest (j + 1)) (λ t. tt) row
          (λ u t. tt) (λ u t. with_block_rows txs (ls (j + 1)) (log t)) (execute-Runs clock row)
          (λ u.
            bind-Runs clock (execute log) (λ v. rest (j + 1)) (λ t. tt) log (λ u t. tt)
              (λ u. with_block_rows txs (ls (j + 1))) (execute-Runs clock log) (λ v. h (j + 1)))
    go false =
        bind-Runs clock (execute row) (λ u. pure tt >>= λ v. rest j) (λ t. tt) row (λ u t. tt)
          (λ u. with_block_rows txs (ls j)) (execute-Runs clock row) (λ u. h j)

pub add_entries-Runs :
    (clock : ℕ) (m : Miner) (b : PendingBlock) (time : ℕ) (es : List MempoolEntry) (i j : ℕ)
    → Runs clock
        (add_entries m b time es i j)
        (λ t. tt)
        (with_block_rows (block_transactions m b i es) (block_logs m b time i j es))
unfolding add_entries pure
add_entries-Runs clock m b time [] i j = pure-Runs clock (λ t. tt) (λ t. t)
add_entries-Runs clock m b time (e ∷ es) i j =
    entry-Runs clock (evm_transaction m b i e) (succeeded e.status)
      (build_transfer_log m.codec e b i j time) j (λ k. add_entries m b time es (i + 1) k)
      (block_transactions m b (i + 1) es) (λ k. block_logs m b time (i + 1) k es)
      (λ k. add_entries-Runs clock m b time es (i + 1) k)

mark_mined-nil : (rows : List MempoolEntry) → map (mark_mined []) rows ≡ rows
unfolding mark_mined
mark_mined-nil [] = refl
mark_mined-nil (e ∷ rows) = ap (λ l. e ∷ l) (mark_mined-nil rows)

claimed_or_none-Runs :
    (clock : ℕ) (es : List MempoolEntry) → Runs clock (claimed_or_none es) (λ t. es) (with_mined es)
unfolding claimed_or_none pure
claimed_or_none-Runs clock [] s time = (
  (refl, time, λ h. h),
  inr (
    refl,
    ap (λ rows. record s.tables { mempool = rows }) (sym (mark_mined-nil s.tables.mempool)),
  ),
)
claimed_or_none-Runs clock (e ∷ es) s time =
    bind-Runs clock (execute (with_mined (e ∷ es))) (λ u. pure (e ∷ es)) (λ t. tt)
      (with_mined (e ∷ es)) (λ u t. e ∷ es) (λ u t. t) (execute-Runs clock (with_mined (e ∷ es)))
      (λ u. pure-Runs clock (λ t. e ∷ es) (λ t. t)) s time

pub claim-Runs :
    (clock : ℕ) (max_txs : ℕ)
    → Runs clock
        (claim_mempool_entries max_txs)
        (claimed max_txs)
        (λ t. with_mined (claimed max_txs t) t)
unfolding claim_mempool_entries
claim-Runs clock max_txs =
    bind-Runs clock (query (claimed max_txs)) claimed_or_none (claimed max_txs) (λ t. t)
      (λ es t. es) with_mined (query-Runs clock (claimed max_txs)) (claimed_or_none-Runs clock)
