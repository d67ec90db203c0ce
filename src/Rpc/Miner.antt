-- ===== src/Rpc/Miner.antt =====
-- pkg/ethrpc/miner/miner.go. The hexadecimal conversions and paddings of go-ethereum are a parameter.
use canton_middleware.Prelude.{ℕ, String, Bool, true, false, List, [], ◌∷◌, ◌+◌, if◌then◌else◌}
use canton_middleware.Exec.{Result, ok, err, pure, ◌>>=◌, ◌>>◌}
use canton_middleware.Rpc.Types.{MempoolStatus, completed, MempoolEntry, EvmTransaction, EvmLog}
use canton_middleware.Rpc.Store.{
  Db, Error, Action, PendingBlock, new_block, claim_mempool_entries, add_evm_transaction,
  add_evm_log, finalize, abort,
}

-- `address_topic` is an address of 20 bytes, padded to a word; `address_bytes` has no padding.
pub record Codec : Type 0 where
  pub transfer_event_topic : String
  pub address_topic : String → String
  pub address_bytes : String → String
  pub pad_word : String → String
  pub compute_block_hash : ℕ → String

-- The settings of the miner; the hashes of the codec are of its chain.
pub record Miner : Type 0 where
  pub codec : Codec
  pub gas_limit : ℕ
  pub max_txs_per_block : ℕ

abbrev pub succeeded : MempoolStatus → Bool
succeeded completed = true
succeeded _ = false

unfoldable pub tx_status : Bool → ℕ
tx_status b = if b then 1 else 0

unfoldable pub evm_transaction : Miner → PendingBlock → ℕ → MempoolEntry → EvmTransaction
unfolding tx_status
evm_transaction m b tx_index e = record {
  tx_hash = e.tx_hash;
  from_address = e.from_address;
  to_address = e.contract_address;
  nonce = e.nonce;
  input = e.input;
  value_wei = "0";
  status = tx_status (succeeded e.status);
  block_number = b.number;
  block_hash = b.hash;
  tx_index = tx_index;
  gas_used = m.gas_limit;
  error_message = if succeeded e.status then "" else e.error_message;
}

unfoldable pub build_transfer_log : Codec → MempoolEntry → PendingBlock → ℕ → ℕ → ℕ → EvmLog
build_transfer_log c e b tx_index log_index block_timestamp = record {
  tx_hash = e.tx_hash;
  log_index = log_index;
  address = c.address_bytes e.contract_address;
  topics =
      c.transfer_event_topic
      ∷ c.address_topic e.from_address
      ∷ c.address_topic e.recipient_address
      ∷ [];
  data_bytes = c.pad_word e.amount_data;
  block_number = b.number;
  block_hash = b.hash;
  tx_index = tx_index;
  removed = false;
  block_timestamp = block_timestamp;
}

abbrev pub add_log : Bool → EvmLog → Action Unit
add_log true log = add_evm_log log
add_log false log = pure tt

-- Only an entry that succeeded has a log, and only then does the index of the logs advance.
unfoldable pub add_entries : Miner → PendingBlock → ℕ → List MempoolEntry → ℕ → ℕ → Action Unit
add_entries m b time [] tx_index log_index = pure tt
add_entries m b time (e ∷ entries) tx_index log_index = do
  add_evm_transaction (evm_transaction m b tx_index e)
  add_log (succeeded e.status) (build_transfer_log m.codec e b tx_index log_index time)
  add_entries m b time entries (tx_index + 1)
      (if succeeded e.status then log_index + 1 else log_index)

-- A block with no entries is left to the deferred `Abort`.
abbrev pub seal : Miner → PendingBlock → List MempoolEntry → Action Unit
seal m b [] s = pure tt s
seal m b (e ∷ entries) s = (add_entries m b s.clock (e ∷ entries) 0 0 >> finalize b) s

unfoldable pub fill_block : Miner → PendingBlock → Action Unit
fill_block m b = do entries ← claim_mempool_entries m.max_txs_per_block; seal m b entries

abbrev pub deferred_abort : Result Error Unit × Db → Result Error Unit × Db
deferred_abort (r, s) = (r, abort s)

abbrev pub with_block : Miner → Result Error PendingBlock × Db → Result Error Unit × Db
with_block m (err e, s) = (err e, s)
with_block m (ok b, s) = deferred_abort (fill_block m b s)

-- One tick of the loop of `Start`.
unfoldable pub mine : Miner → Action Unit
mine m s = with_block m (new_block m.codec.compute_block_hash s)
