-- ===== src/Rpc/Store/Queries.antt =====
-- The reads of pkg/ethrpc/store/pg.go that the JSON-RPC handlers send. A log of the miner has three
-- topics, which is what its columns hold.
use canton_middleware.Prelude.{
  ℕ, zero, suc, String, Bool, true, Option, none, some, List, [], ◌∷◌, str_eq, if◌then◌else◌, ◌&&◌,
  ◌||◌, leb, ltb, ◌==◌, ◌+◌,
}
use canton_middleware.Prelude.Assoc.{lookup}
use canton_middleware.Rpc.Types.{EvmTransaction, EvmLog}
use canton_middleware.Rpc.Store.{Action, LogKey, hash_key, query}

unfoldable pub get_latest_evm_block_number : Action ℕ
get_latest_evm_block_number = query (λ t. t.latest_block)

unfoldable pub get_evm_transaction : String → Action (Option EvmTransaction)
get_evm_transaction hash = query (λ t. lookup hash t.transactions)

abbrev pub next_nonce : String → ℕ → List (String × EvmTransaction) → ℕ
next_nonce from n [] = n
next_nonce from n ((hash, tx) ∷ rows) =
    next_nonce from (if str_eq tx.from_address from && leb n tx.nonce then tx.nonce + 1 else n) rows

-- COALESCE(MAX(nonce) + 1, 0).
unfoldable pub get_evm_transaction_count : String → Action ℕ
get_evm_transaction_count from = query (λ t. next_nonce from 0 t.transactions)

unfoldable pub number_of_hash : String → List (String × EvmTransaction) → ℕ
number_of_hash block_hash [] = 0
number_of_hash block_hash ((hash, tx) ∷ rows) =
    if str_eq tx.block_hash block_hash then tx.block_number else number_of_hash block_hash rows

unfoldable pub get_block_number_by_hash : String → Action ℕ
get_block_number_by_hash block_hash = query (λ t. number_of_hash block_hash t.transactions)

-- The logs of a list of rows that pass a test, in an order: a stable insertion sort.
unfoldable pub put_log : (EvmLog → EvmLog → Bool) → EvmLog → List EvmLog → List EvmLog
put_log before l [] = l ∷ []
put_log before l (m ∷ ms) =
    let rest = put_log before l ms in if before m l then m ∷ rest else l ∷ m ∷ ms

unfoldable pub select_logs :
    (EvmLog → Bool) → (EvmLog → EvmLog → Bool) → List (LogKey × EvmLog) → List EvmLog
select_logs wanted before [] = []
select_logs wanted before ((key, l) ∷ rows) =
    let rest = select_logs wanted before rows in if wanted l then put_log before l rest else rest

abbrev pub by_index : EvmLog → EvmLog → Bool
by_index l m = ltb l.log_index m.log_index

unfoldable pub get_evm_logs_by_tx_hash : String → Action (List EvmLog)
get_evm_logs_by_tx_hash hash = query (λ t. select_logs (λ l. str_eq l.tx_hash hash) by_index t.logs)

abbrev pub by_position : EvmLog → EvmLog → Bool
by_position l m =
    ltb l.block_number m.block_number
    || (l.block_number == m.block_number
        && (ltb l.tx_index m.tx_index || (l.tx_index == m.tx_index && ltb l.log_index m.log_index)))

abbrev pub is_or_any : Option String → String → Bool
is_or_any none text = true
is_or_any (some wanted) text = str_eq text wanted

abbrev pub topic0 : List String → String
topic0 [] = ""
topic0 (t ∷ ts) = t

abbrev pub in_filter : Option String → Option String → ℕ → ℕ → EvmLog → Bool
in_filter address topic from_block to_block l =
    leb from_block l.block_number
    && (leb l.block_number to_block
        && (is_or_any address l.address && is_or_any topic (topic0 l.topics)))

abbrev pub first_logs : ℕ → List EvmLog → List EvmLog
first_logs zero ls = []
first_logs (suc n) [] = []
first_logs (suc n) (l ∷ ls) = l ∷ first_logs n ls

abbrev pub evm_logs_query_limit : ℕ
evm_logs_query_limit = 10000

unfoldable pub get_evm_logs : Option String → Option String → ℕ → ℕ → Action (List EvmLog)
get_evm_logs address topic from_block to_block = query (λ t.
    first_logs evm_logs_query_limit
      (select_logs (in_filter address topic from_block to_block) by_position t.logs))
