-- ===== src/Relayer/Source.antt =====
-- pkg/relayer/engine/source.go: the offset that is saved after an event, and the events that the two
-- sources make of what the clients report.
use canton_middleware.Prelude.{
  ℕ, String, Bool, true, false, Option, none, some, if◌then◌else◌, ◌==◌,
}
use Prim.Native.String.{◌++◌ as str_append}
use canton_middleware.Prelude.Int.{ℤ, pos}
use canton_middleware.Prelude.Text.{parse_int, parse_uint, format_uint, before_dash}
use canton_middleware.Exec.{Result, ok, err}
use canton_middleware.Relayer.Types.{
  Event, TransferDirection, canton_to_ethereum, ethereum_to_canton, chain_canton, chain_ethereum,
  offset_begin,
}
use canton_middleware.Relayer.World.{Error, invalid_offset}
use canton_middleware.Prelude.{str_eq, ◌||◌}

abbrev pub if_number : Option ℤ → String → String
if_number none s = ""
if_number (some _) s = s

-- "12345-0" gives "12345"; a text with no number in front gives "".
unfoldable pub canton_offset_from_event_id : String → String
canton_offset_from_event_id event_id =
    if_number (parse_int (before_dash event_id)) (before_dash event_id)

-- `ExtractOffset` of the source of a direction.
unfoldable pub extract_offset : TransferDirection → Event → String
unfolding canton_offset_from_event_id
extract_offset canton_to_ethereum event = canton_offset_from_event_id event.id
extract_offset ethereum_to_canton event =
    if event.source_block_number == 0 then "" else format_uint event.source_block_number

abbrev pub or_invalid : Option ℕ → Result Error ℕ
or_invalid none = err invalid_offset
or_invalid (some n) = ok n

-- The block from which the Ethereum source watches deposits.
unfoldable pub from_block : String → Result Error ℕ
from_block offset =
    if str_eq offset "" || str_eq offset offset_begin then ok 0 else or_invalid (parse_uint offset)

-- What the Canton client reports of a withdrawal.
pub record Withdrawal : Type 0 where
  pub event_id : String
  pub transaction_id : String
  pub contract_id : String
  pub amount : String
  pub user_party : String
  pub evm_destination : String

unfoldable pub withdrawal_event : String → Withdrawal → Event
withdrawal_event token_contract w = record {
  id = w.event_id;
  transaction_id = w.transaction_id;
  source_chain = chain_canton;
  destination_chain = chain_ethereum;
  source_tx_hash = w.contract_id;
  source_contract_id = w.contract_id;
  token_address = token_contract;
  amount = w.amount;
  sender = w.user_party;
  recipient = w.evm_destination;
  nonce = pos 0;
  source_block_number = 0;
  checkpoint = false;
}

-- What the Ethereum client reports: the texts are those that its values print to.
pub record Deposit : Type 0 where
  pub tx_hash : String
  pub log_index : ℕ
  pub token : String
  pub amount : String
  pub sender : String
  pub canton_recipient : String
  pub nonce : ℤ
  pub block_number : ℕ
  pub checkpoint : Bool

-- A checkpoint carries the block alone.
unfoldable pub deposit_event : Deposit → Event
deposit_event d =
    if d.checkpoint
    then record {
      id = "";
      transaction_id = "";
      source_chain = chain_ethereum;
      destination_chain = "";
      source_tx_hash = "";
      source_contract_id = "";
      token_address = "";
      amount = "";
      sender = "";
      recipient = "";
      nonce = pos 0;
      source_block_number = d.block_number;
      checkpoint = true;
    }
    else record {
      id = str_append d.tx_hash (str_append "-" (format_uint d.log_index));
      transaction_id = d.tx_hash;
      source_chain = chain_ethereum;
      destination_chain = chain_canton;
      source_tx_hash = d.tx_hash;
      source_contract_id = "";
      token_address = d.token;
      amount = d.amount;
      sender = d.sender;
      recipient = d.canton_recipient;
      nonce = d.nonce;
      source_block_number = d.block_number;
      checkpoint = false;
    }
