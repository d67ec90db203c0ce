-- ===== src/Rpc/Service/Reads.antt =====
-- The reads of pkg/ethrpc/service/service.go: receipts, transactions, blocks and logs. The fields that the facade
-- fills with constants are left out, and go-ethereum's conversions of bytes are the identity on the stored texts.
use Prim.Native.String.{◌++◌ as str_append}
use canton_middleware.Prelude.{
  ℕ, zero, suc, String, Option, none, some, List, if◌then◌else◌, ◌==◌, ◌*◌, ◌%◌, ◌^◌,
}
use canton_middleware.Exec.{pure, ◌>>=◌}
use canton_middleware.Rpc.Types.{EvmTransaction, EvmLog}
use canton_middleware.Rpc.Store.Queries.{
  get_latest_evm_block_number, get_evm_transaction, get_block_number_by_hash,
  get_evm_logs_by_tx_hash, get_evm_logs,
}
use canton_middleware.Rpc.Service.{EthService, Handler, or_dependency, block_number}

pub record Receipt : Type 0 where
  pub transaction_hash : String
  pub transaction_index : ℕ
  pub block_hash : String
  pub block_number : ℕ
  pub from_address : String
  pub to_address : String
  pub gas_used : ℕ
  pub logs : List EvmLog
  pub status : ℕ
  pub revert_reason : String

abbrev pub receipt_of : String → EvmTransaction → List EvmLog → Receipt
receipt_of hash tx logs = record {
  transaction_hash = hash;
  transaction_index = tx.tx_index;
  block_hash = tx.block_hash;
  block_number = tx.block_number;
  from_address = tx.from_address;
  to_address = tx.to_address;
  gas_used = tx.gas_used;
  logs = logs;
  status = tx.status;
  revert_reason = tx.error_message;
}

abbrev pub receipt_with_logs : String → Option EvmTransaction → Handler (Option Receipt)
receipt_with_logs hash none = pure none
receipt_with_logs hash (some tx) = do
  logs ←
      or_dependency (str_append "get logs for transaction receipt " hash)
        (get_evm_logs_by_tx_hash hash)
  pure (some (receipt_of hash tx logs))

unfoldable pub get_transaction_receipt : String → Handler (Option Receipt)
get_transaction_receipt hash = do
  row ← or_dependency (str_append "get transaction receipt for " hash) (get_evm_transaction hash)
  receipt_with_logs hash row

pub record Block : Type 0 where
  pub number : ℕ
  pub hash : String
  pub parent_hash : String
  pub timestamp : ℕ

abbrev pub zero_hash : String
zero_hash = "0x0000000000000000000000000000000000000000000000000000000000000000"

-- There is no block 0, and the parent of block 1 has no hash. The timestamp is a uint64.
abbrev pub block_at : (ℕ → String) → ℕ → Option Block
block_at compute_block_hash zero = none
block_at compute_block_hash (suc n) = some record {
  number = suc n;
  hash = compute_block_hash (suc n);
  parent_hash = if n == 0 then zero_hash else compute_block_hash n;
  timestamp = suc n * 12 % 2 ^ 64;
}

module _ (k : EthService) where
  abbrev pub number_or_latest : Option ℕ → Handler ℕ
  number_or_latest (some n) = pure n
  number_or_latest none = block_number k

  unfoldable pub get_block_by_number : Option ℕ → Handler (Option Block)
  get_block_by_number block = do n ← number_or_latest block; pure (block_at k.compute_block_hash n)

  abbrev pub number_if_found : ℕ → Option ℕ
  number_if_found zero = none
  number_if_found (suc n) = some (suc n)

  unfoldable pub get_block_by_hash : String → Handler (Option Block)
  get_block_by_hash hash = do
    n ← or_dependency (str_append "get block number by hash " hash) (get_block_number_by_hash hash)
    get_block_by_number (number_if_found n)

abbrev pub from_or_zero : Option ℕ → ℕ
from_or_zero none = 0
from_or_zero (some n) = n

abbrev pub to_or_latest : Option ℕ → Handler ℕ
to_or_latest none = or_dependency "get latest EVM block number for logs" get_latest_evm_block_number
to_or_latest (some n) = pure n

-- The filters are the address and the first topic that the query has, decoded.
unfoldable pub get_logs :
    Option ℕ → Option ℕ → Option String → Option String → Handler (List EvmLog)
get_logs from_block to_block address topic = do
  last ← to_or_latest to_block
  or_dependency "get EVM logs" (get_evm_logs address topic (from_or_zero from_block) last)
