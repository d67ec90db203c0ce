-- ===== src/Indexer/Types.antt =====
-- pkg/indexer/types.go. Amounts are decimal texts, a pointer is an `Option`, a time is a number of
-- microseconds and a ledger offset is an int64.
use canton_middleware.Prelude.{String, Bool, Option}
use canton_middleware.Prelude.Int.{ℤ}

abbrev pub transfer_status_pending : String
transfer_status_pending = "pending"

abbrev pub transfer_status_expired : String
transfer_status_expired = "expired"

abbrev pub transfer_status_completed : String
transfer_status_completed = "completed"

abbrev pub transfer_status_canceled : String
transfer_status_canceled = "canceled"

abbrev pub transfer_status_rejected : String
transfer_status_rejected = "rejected"

abbrev pub transfer_kind_direct : String
transfer_kind_direct = "direct"

abbrev pub transfer_kind_offer : String
transfer_kind_offer = "offer"

pub record Transfer : Type 0 where
  pub contract_id : String
  pub kind : String
  pub status : String
  pub from_party_id : String
  pub to_party_id : String
  pub instrument_admin : String
  pub instrument_id : String
  pub amount : String
  pub expires_at : Option ℤ
  pub tx_id : String
  pub ledger_offset : ℤ
  pub created_at : ℤ
  pub archived : Bool

pub data EventType : Type 0 where
  mint burn transfer : EventType

pub record ParsedEvent : Type 0 where
  pub instrument_id : String
  pub instrument_admin : String
  pub issuer : String
  pub event_type : EventType
  pub amount : String
  pub from_party_id : Option String
  pub to_party_id : Option String
  pub external_tx_id : Option String
  pub external_address : Option String
  pub fingerprint : Option String
  pub contract_id : String
  pub tx_id : String
  pub ledger_offset : ℤ
  pub timestamp : Option ℤ
  pub effective_time : ℤ

pub record HoldingChange : Type 0 where
  pub contract_id : String
  pub is_archived : Bool
  pub ledger_offset : ℤ
  pub owner : String
  pub instrument_admin : String
  pub instrument_id : String
  pub amount : String
  pub locked : Bool

pub record Token : Type 0 where
  pub instrument_admin : String
  pub instrument_id : String
  pub issuer : String
  pub total_supply : String
  pub holder_count : ℤ
  pub first_seen_offset : ℤ
  pub first_seen_at : ℤ
