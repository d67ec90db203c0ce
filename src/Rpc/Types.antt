-- ===== src/Rpc/Types.antt =====
-- The records of pkg/ethrpc/types.go that are persisted. A slice of bytes is a text of its bytes.
use canton_middleware.Prelude.{ℕ, String, Bool, List}

pub data MempoolStatus : Type 0 where
  pending completed failed mined : MempoolStatus

pub MempoolStatus-discrete : Discrete MempoolStatus
MempoolStatus-discrete = hlevel

-- A row of the mempool table, or what is read of it: an error message that is NULL reads as the empty text.
pub record MempoolEntry : Type 0 where
  pub id : ℕ
  pub tx_hash : String
  pub from_address : String
  pub contract_address : String
  pub recipient_address : String
  pub nonce : ℕ
  pub input : String
  pub amount_data : String
  pub status : MempoolStatus
  pub error_message : String

pub record EvmTransaction : Type 0 where
  pub tx_hash : String
  pub from_address : String
  pub to_address : String
  pub nonce : ℕ
  pub input : String
  pub value_wei : String
  pub status : ℕ
  pub block_number : ℕ
  pub block_hash : String
  pub tx_index : ℕ
  pub gas_used : ℕ
  pub error_message : String

pub record EvmLog : Type 0 where
  pub tx_hash : String
  pub log_index : ℕ
  pub address : String
  pub topics : List String
  pub data_bytes : String
  pub block_number : ℕ
  pub block_hash : String
  pub tx_index : ℕ
  pub removed : Bool
  pub block_timestamp : ℕ
