-- ===== src/Relayer/Clients.antt =====
-- What the relayer calls and does not implement: the Canton bridge client and the Ethereum client
-- (`canton.Bridge` and `EthereumBridgeClient`), each a function on the chains `D`, and the conversions of
-- go-ethereum, encoding/hex and shopspring/decimal. A client that fails may have changed the chains.
use canton_middleware.Prelude.{ℕ, String, Bool, Option}
use canton_middleware.Prelude.Int.{ℤ}
use canton_middleware.Exec.{Result}
use canton_middleware.Relayer.World.{Error}

abbrev pub Call : Type 0 → Type 0 → Type 0
Call D A = D → Result Error A × D

-- `CreatePendingDepositRequest` and the two contract ids of a `PendingDeposit`.
pub record DepositRequest : Type 0 where
  pub fingerprint : String
  pub amount : String
  pub evm_tx_hash : String

pub record PendingDeposit : Type 0 where
  pub contract_id : String
  pub mapping_cid : String

pub record Clients (D : Type 0) : Type 0 where
  pub is_deposit_processed : String → Call D Bool
  pub create_pending_deposit : DepositRequest → Call D PendingDeposit
  pub process_deposit_and_mint : PendingDeposit → Call D String
  pub complete_withdrawal : String → String → Call D Unit
  pub get_latest_ledger_offset : Call D ℕ
  pub is_withdrawal_processed : String → Call D Bool
  pub withdraw_from_canton : String → String → ℤ → ℤ → String → Call D String
  pub get_latest_block_number : Call D ℕ
  pub get_last_scanned_block : D → ℕ
  -- `bigIntToDecimal(amount, 18)` and `decimalToBigInt(s, 18)`
  pub big_int_to_decimal : ℤ → String
  pub decimal_to_big_int : String → Option ℤ
  pub hex_to_address : String → String
  -- `hex.DecodeString`, then a copy into 32 bytes
  pub decode_hash : String → Option String
  -- `Error()`
  pub error_text : Error → String
