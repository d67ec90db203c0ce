-- ===== src/Rpc/Confirmed.antt =====
-- What a wallet reads of a mined entry: its receipt and its confirmations (pkg/ethrpc/service/service.go).
use canton_middleware.Prelude.{
  ℕ, String, Option, none, some, List, [], ◌∷◌, ◌≡◌, ◌≢◌, refl, ◌⊎◌, inl, inr, Bool, true, false,
  if◌then◌else◌, ◌∙◌, ap, ◌+◌, ◌≤◌, ◌<◌, ◌%◌, ◌^◌, str_eq, arith,
}
use canton_middleware.Prelude.Assoc.{lookup}
use canton_middleware.Exec.{ok, pure, ◌>>=◌}
use canton_middleware.Exec.Faults.{is_faulty, rest_of}
use canton_middleware.Rpc.Types.{
  EvmTransaction, EvmLog, MempoolEntry, MempoolStatus, pending, completed, failed, mined,
}
use canton_middleware.Rpc.Store.{Tables, Db, PendingBlock, hash_key, query, statement}
use canton_middleware.Rpc.Store.Queries.{
  get_latest_evm_block_number, get_evm_transaction, get_evm_logs_by_tx_hash, select_logs, by_index,
}
use canton_middleware.Rpc.Miner.{Miner, mine, evm_transaction, tx_status, succeeded}
use canton_middleware.Rpc.Service.{EthService, block_number, larger}
use canton_middleware.Rpc.Service.Reads.{Receipt, receipt_of, get_transaction_receipt}
use canton_middleware.Rpc.Block.{claimed, next_block}
use canton_middleware.Rpc.Block.Fills.{mine-Mined}
use canton_middleware.Rpc.Receipts.{or_else, transaction_of, lookup-mine}

query-steady :
    {A : Type 0} (v : Tables → A) (s : Db)
    → s.faults ≡ []
    → query v s ≡ (ok (v s.tables), record s { faults = [] })
unfolding query statement is_faulty rest_of ◌>>=◌
query-steady v s steady = simp (steady) refl

receipt-steady :
    (hash : String) (tx : EvmTransaction) (s : Db)
    → s.faults ≡ []
    → lookup hash s.tables.transactions ≡ some tx
    → (get_transaction_receipt hash s).0
      ≡ ok (
          some
            (receipt_of hash tx (select_logs (λ l. str_eq l.tx_hash hash) by_index s.tables.logs)))
unfolding get_transaction_receipt get_evm_transaction get_evm_logs_by_tx_hash pure ◌>>=◌
receipt-steady hash tx s steady found =
    rw
      (
        query-steady (λ t. lookup hash t.transactions) s steady,
        found,
        query-steady (λ t. select_logs (λ l. str_eq l.tx_hash hash) by_index t.logs)
            (record s { faults = [] }) refl,
      )
      refl

-- The first of some entries that has a hash, with its position.
abbrev pub first_at : String → ℕ → List MempoolEntry → Option (ℕ × MempoolEntry)
first_at hash i [] = none
first_at hash i (e ∷ es) = if str_eq e.tx_hash hash then some (i, e) else first_at hash (i + 1) es

-- A receipt of an entry that is mined at a position of a block: a success has status 1 and no reason, and any other
-- outcome has status 0 and the entry's error as the reason.
abbrev pub Reports : Miner → ℕ → String → String → ℕ × MempoolEntry → Receipt → Type 0
Reports m number block_hash hash (i, e) r =
    (r.transaction_hash ≡ hash)
    × (r.transaction_index ≡ i)
    × (r.block_number ≡ number)
    × (r.block_hash ≡ block_hash)
    × (r.from_address ≡ e.from_address)
    × (r.to_address ≡ e.contract_address)
    × (r.gas_used ≡ m.gas_limit)
    × (((e.status ≡ completed) × (r.status ≡ 1) × (r.revert_reason ≡ ""))
        ⊎ ((e.status ≢ completed) × (r.status ≡ 0) × (r.revert_reason ≡ e.error_message)))

of_some : (p q : ℕ × MempoolEntry) → some p ≡ some q → p ≡ q
of_some p q h = cc

transaction_of-first_at :
    (m : Miner) (b : PendingBlock) (hash : String) (i : ℕ) (es : List MempoolEntry)
    (found : ℕ × MempoolEntry)
    → first_at hash i es ≡ some found
    → transaction_of m b hash i es ≡ some (evm_transaction m b found.0 found.1)
transaction_of-first_at m b hash i [] found h = absurd (cc)
transaction_of-first_at m b hash i (e ∷ es) found h =
    go (str_eq e.tx_hash hash) (transaction_of-first_at m b hash (i + 1) es found) h
  where
    go :
        (c : Bool)
        → (first_at hash (i + 1) es ≡ some found
            → transaction_of m b hash (i + 1) es ≡ some (evm_transaction m b found.0 found.1))
        → (if c then some (i, e) else first_at hash (i + 1) es) ≡ some found
        → (if c then some (evm_transaction m b i e) else transaction_of m b hash (i + 1) es)
          ≡ some (evm_transaction m b found.0 found.1)
    go true rest same =
        ap (λ (p : ℕ × MempoolEntry). some (evm_transaction m b p.0 p.1))
          (of_some (i, e) found same)
    go false rest same = rest same

evm_transaction-Reports :
    (m : Miner) (b : PendingBlock) (hash : String) (found : ℕ × MempoolEntry) (logs : List EvmLog)
    → Reports m b.number b.hash hash found
        (receipt_of hash (evm_transaction m b found.0 found.1) logs)
unfolding evm_transaction tx_status
evm_transaction-Reports m b hash found logs =
    (refl, refl, refl, refl, refl, refl, refl, outcome found.1.status refl)
  where
    outcome :
        (status : MempoolStatus)
        → found.1.status ≡ status
        → ((found.1.status ≡ completed)
            × (tx_status (succeeded found.1.status) ≡ 1)
            × ((if succeeded found.1.status then "" else found.1.error_message) ≡ ""))
          ⊎ ((found.1.status ≢ completed)
              × (tx_status (succeeded found.1.status) ≡ 0)
              × ((if succeeded found.1.status then "" else found.1.error_message)
                  ≡ found.1.error_message))
    outcome pending h = inr (rw h (λ p. cc), rw h refl, rw h refl)
    outcome completed h = inl (h, rw h refl, rw h refl)
    outcome failed h = inr (rw h (λ p. cc), rw h refl, rw h refl)
    outcome mined h = inr (rw h (λ p. cc), rw h refl, rw h refl)

-- If no statement fails and no transaction is open, and the tick claims an entry with a hash that has no transaction
-- yet: after the tick the hash has a receipt, in the next block, at the position of the first such entry, with the
-- entry's sender and contract, and with status 1 and no reason just if the entry was completed, and else with status
-- 0 and the entry's error.
pub receipt-mine :
    (m : Miner) (hash : String) (found : ℕ × MempoolEntry) (s : Db)
    → s.before ≡ none
    → s.faults ≡ []
    → lookup hash s.tables.transactions ≡ none
    → first_at hash 0 (claimed m.max_txs_per_block s.tables) ≡ some found
    → (r : Receipt) × ((get_transaction_receipt hash (mine m s).1).0 ≡ ok (some r))
      × Reports m
          ((s.tables.latest_block + 1) % 2 ^ 64)
          (m.codec.compute_block_hash ((s.tables.latest_block + 1) % 2 ^ 64))
          hash
          found
          r
receipt-mine m hash found s closed steady fresh claims = (
  receipt_of hash tx logs,
  receipt-steady hash tx (mine m s).1 ((mine-Mined m s closed).1 steady) (
      lookup-mine m hash s closed steady
      ∙ ap
          (λ o. or_else o (
            transaction_of m (next_block m s.tables) hash 0 (claimed m.max_txs_per_block s.tables)))
          fresh
      ∙ transaction_of-first_at m (next_block m s.tables) hash 0
          (claimed m.max_txs_per_block s.tables) found claims),
  evm_transaction-Reports m (next_block m s.tables) hash found logs,
)
  where
    tx : EvmTransaction
    tx = evm_transaction m (next_block m s.tables) found.0 found.1

    logs : List EvmLog
    logs = select_logs (λ l. str_eq l.tx_hash hash) by_index (mine m s).1.tables.logs

larger_bound : (a b : ℕ) → (a ≤ larger a b) × (b ≤ larger a b)
larger_bound a b = (ground arith, ground arith)

no_wrap : (n seconds : ℕ) → n + 12 < 2 ^ 64 → n + 12 ≤ larger ((n + 12) % 2 ^ 64) seconds
no_wrap n seconds h =
    let same : (n + 12) % 2 ^ 64 ≡ n + 12 = omega arith in
    omega (arith, same, (larger_bound ((n + 12) % 2 ^ 64) seconds).0)

-- If no statement fails and the latest block's number plus 12 is a number of 64 bits: the number that a wallet is told
-- is at least 12 past the latest block, and at least the seconds since the start.
pub block_number_bound :
    (k : EthService) (s : Db)
    → s.faults ≡ []
    → s.tables.latest_block + 12 < 2 ^ 64
    → (n : ℕ) × ((block_number k s).0 ≡ ok n)
      × (s.tables.latest_block + 12 ≤ n)
      × (k.seconds_since_start (record s { faults = [] }) ≤ n)
unfolding block_number get_latest_evm_block_number ◌>>=◌
block_number_bound k s steady small =
    let latest = s.tables.latest_block in
    let seconds = k.seconds_since_start (record s { faults = [] }) in
    (
      larger ((latest + 12) % 2 ^ 64) seconds,
      rw (query-steady (λ t. t.latest_block) s steady) refl,
      no_wrap latest seconds small,
      (larger_bound ((latest + 12) % 2 ^ 64) seconds).1,
    )
