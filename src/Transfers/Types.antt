-- ===== src/Transfers/Types.antt =====
-- The data of pkg/transfer/types.go, `PreparedTransfer` of pkg/cantonsdk/token/types.go and what the service reads of
-- a user and of the indexer's transfers, whose kinds and statuses are texts. A time is a number, and a slice of bytes the text of its bytes.
use canton_middleware.Prelude.{ℕ, String}
use canton_middleware.Prelude.Int.{ℤ}

-- `transaction` is the opaque message of the ledger with its hashing scheme.
pub record PreparedTransfer : Type 0 where
  pub transfer_id : String
  pub transaction_hash : String
  pub transaction : String
  pub party_id : String
  pub expires_at : ℕ

pub record PrepareRequest : Type 0 where
  pub to_address : String
  pub to_party_id : String
  pub amount : String
  pub token : String
  pub validity_seconds : ℤ

pub record CustodialTransferRequest : Type 0 where
  pub to_party_id : String
  pub amount : String
  pub token : String
  pub validity_seconds : ℤ

pub record ExecuteRequest : Type 0 where
  pub transfer_id : String
  pub signature : String
  pub signed_by : String

pub data KeyMode : Type 0 where
  custodial external : KeyMode

pub record User : Type 0 where
  pub canton_party_id : String
  pub key_mode : KeyMode
  pub public_key_fingerprint : String

-- The code of a gRPC status, as far as the service tells them apart.
pub data Code : Type 0 where
  invalid_argument not_found failed_precondition aborted already_exists : Code
  unavailable deadline_exceeded permission_denied other_code : Code

pub record Offer : Type 0 where
  pub from_party_id : String
  pub instrument_admin : String
  pub kind : String
  pub status : String
