-- ===== src/Relayer/Types.antt =====
-- pkg/relayer/types.go and config.go. A pointer is an `Option`; a time is a number of nanoseconds.
-- Metrics and logging are left out everywhere.
use canton_middleware.Prelude.{ℕ, String, Bool, Option}
use canton_middleware.Prelude.Int.{ℤ}

pub data TransferStatus : Type 0 where
  pending completed failed : TransferStatus

pub data TransferDirection : Type 0 where
  canton_to_ethereum ethereum_to_canton : TransferDirection

pub TransferStatus-discrete : Discrete TransferStatus
TransferStatus-discrete = hlevel

pub TransferDirection-discrete : Discrete TransferDirection
TransferDirection-discrete = hlevel

abbrev pub chain_canton : String
chain_canton = "canton"

abbrev pub chain_ethereum : String
chain_ethereum = "ethereum"

abbrev pub offset_begin : String
offset_begin = "BEGIN"

pub record Transfer : Type 0 where
  pub id : String
  pub direction : TransferDirection
  pub status : TransferStatus
  pub source_chain : String
  pub destination_chain : String
  pub source_tx_hash : String
  pub destination_tx_hash : Option String
  pub token_address : String
  pub amount : String
  pub sender : String
  pub recipient : String
  pub nonce : ℤ
  pub source_block_number : ℕ
  pub retry_count : ℕ
  pub created_at : ℕ
  pub updated_at : ℕ
  pub completed_at : Option ℕ
  pub error_message : Option String

pub record ChainState : Type 0 where
  pub chain_id : String
  pub last_block : ℕ
  pub offset : String
  pub updated_at : ℕ

pub record Event : Type 0 where
  pub id : String
  pub transaction_id : String
  pub source_chain : String
  pub destination_chain : String
  pub source_tx_hash : String
  pub source_contract_id : String
  pub token_address : String
  pub amount : String
  pub sender : String
  pub recipient : String
  pub nonce : ℤ
  pub source_block_number : ℕ
  pub checkpoint : Bool

-- The settings that the engine reads. A negative `max_retries`, `retry_delay` or lookback means what
-- 0 means, so these are numbers.
pub record Config : Type 0 where
  pub max_retries : ℕ
  pub retry_delay : ℕ
  pub canton_chain_id : String
  pub canton_start_block : ℕ
  pub canton_lookback : ℕ
  pub eth_chain_id : String
  pub eth_start_block : ℕ
  pub eth_lookback_blocks : ℕ
  pub eth_token_contract : String
