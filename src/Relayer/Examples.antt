-- ===== src/Relayer/Examples.antt =====
-- The theorems on pkg/relayer at concrete inputs: clients of chains that know only whether the transfer
-- was made, a deposit, and a database with one transfer in it.
use canton_middleware.Prelude.{
  Bool, true, false, none, some, [], ◌∷◌, ◌≡◌, ◌≢◌, ◌↔◌, ◌⊎◌, refl, arith, All, ltb, if◌then◌else◌,
  ◌∙◌, eq_iff, ◌^◌, ◌*◌,
}
use Prim.Native.Nat.{min}
use canton_middleware.Prelude.Int.{pos}
use canton_middleware.Prelude.Text.{format_uint}
use canton_middleware.Exec.{ok}
use canton_middleware.Relayer.Types.{
  Transfer, ChainState, Config, Event, ethereum_to_canton, pending, completed,
}
use canton_middleware.Relayer.World.{World}
use canton_middleware.Relayer.Clients.{Clients}
use canton_middleware.Relayer.Destination.{submit_transfer}
use canton_middleware.Relayer.Store.Rows.{find, find_state}
use canton_middleware.Relayer.Processor.{process_event, handle_event, start}
use canton_middleware.Relayer.Engine.{processor_of, restart_backoff, restart_max_backoff, second}
use canton_middleware.Relayer.Engine.Offsets.{
  save_chain_offset, load_ethereum_offset, validate_stored_canton_offset,
}
use canton_middleware.Relayer.Engine.Readiness.{check_ethereum_readiness}
use canton_middleware.Relayer.Engine.Rows.{process_event_again, start-keeps_row}
use canton_middleware.Relayer.Engine.Outcome.{settled, row, process_event_outcome}
use canton_middleware.Relayer.Engine.Recorded.{IsRecorded, start-IsRecorded}
use canton_middleware.Relayer.Engine.Saved.{
  Agrees, save_chain_offset-Agrees, load_ethereum_offset-save_chain_offset,
}
use canton_middleware.Relayer.Engine.Start.{StartsAt, validate-StartsAt, restart_backoff_lem}
use canton_middleware.Relayer.Engine.Steps.{Reach, read, here, next, IsWellFormed}
use canton_middleware.Relayer.Engine.Reach.{Reach-IsWellFormed, Reach-settled}
use canton_middleware.Relayer.Engine.Lost.{lost_deposit}
use canton_middleware.Relayer.Engine.Synced.{IsNear, check_ethereum_readiness-synced}

abbrev clients : Clients Bool
clients = record {
  is_deposit_processed = λ hash d. (ok d, d);
  create_pending_deposit =
      λ request d. (ok (record { contract_id = "pending"; mapping_cid = "mapping" }), d);
  process_deposit_and_mint = λ deposit d. (ok "holding", true);
  complete_withdrawal = λ contract hash d. (ok tt, d);
  get_latest_ledger_offset = λ d. (ok 100, d);
  is_withdrawal_processed = λ hash d. (ok d, d);
  withdraw_from_canton = λ token recipient amount nonce hash d. (ok "0xfeed", true);
  get_latest_block_number = λ d. (ok 51, d);
  get_last_scanned_block = λ d. 50;
  big_int_to_decimal = λ n. "1";
  decimal_to_big_int = λ s. some (pos 1);
  hex_to_address = λ s. s;
  decode_hash = λ s. some s;
  error_text = λ e. "transaction rejected";
}

abbrev cfg : Config
cfg = record {
  max_retries = 3;
  retry_delay = 0;
  canton_chain_id = "canton-1";
  canton_start_block = 0;
  canton_lookback = 10;
  eth_chain_id = "eth-1";
  eth_start_block = 5;
  eth_lookback_blocks = 20;
  eth_token_contract = "0x01";
}

abbrev deposit : Event
deposit = record {
  id = "0xaa-0";
  transaction_id = "0xaa";
  source_chain = "ethereum";
  destination_chain = "canton";
  source_tx_hash = "0xaa";
  source_contract_id = "";
  token_address = "0x01";
  amount = "7";
  sender = "0x02";
  recipient = "fingerprint";
  nonce = pos 1;
  source_block_number = 42;
  checkpoint = false;
}

abbrev mark : Event
mark = record deposit { id = ""; checkpoint = true; source_block_number = 43 }

abbrev empty_world : World Bool
empty_world = record {
  transfers = [];
  chain_states = [];
  faults = [];
  clock = 1000;
  chains = false;
  canton_offset = "";
  eth_last_block = 0;
  canton_saved = "";
  eth_saved = "";
  canton_synced = false;
  ethereum_synced = false;
  canton_stream_started = none;
}

abbrev stored : Transfer
stored = record {
  id = "0xaa-0";
  direction = ethereum_to_canton;
  status = completed;
  source_chain = "eth-1";
  destination_chain = "canton-1";
  source_tx_hash = "0xaa";
  destination_tx_hash = some "holding";
  token_address = "0x01";
  amount = "7";
  sender = "0x02";
  recipient = "fingerprint";
  nonce = pos 1;
  source_block_number = 42;
  retry_count = 0;
  created_at = 900;
  updated_at = 900;
  completed_at = some 900;
  error_message = none;
}

abbrev world : World Bool
world = record empty_world { transfers = stored ∷ [] }

stored-found : find "0xaa-0" world.transfers ≡ some stored
unfolding find
stored-found = refl

world-IsWellFormed : IsWellFormed cfg world
unfolding find
world-IsWellFormed = record { distinct = (tt, tt); bounded = λ p id t found. ground (arith, found) }

stored-not_pending : stored.status ≢ pending
stored-not_pending e = cc

moved :
    Reach clients cfg world
      (handle_event clients (processor_of clients cfg ethereum_to_canton) deposit world).1
moved = next here (read world ethereum_to_canton deposit)

process_event_again_example :
    ((process_event clients (processor_of clients cfg ethereum_to_canton) deposit world).1.transfers
      ≡ world.transfers)
    × ((process_event clients (processor_of clients cfg ethereum_to_canton) deposit world).1.chains
        ≡ world.chains)
process_event_again_example =
    process_event_again clients cfg ethereum_to_canton deposit world stored-found

start-keeps_row_example :
    find "0xaa-0"
      (start clients
        (processor_of clients cfg ethereum_to_canton)
        (deposit ∷ mark ∷ [])
        world).1.transfers
    ≡ some stored
start-keeps_row_example =
    start-keeps_row clients cfg ethereum_to_canton (deposit ∷ mark ∷ []) world "0xaa-0" stored
      stored-found

fresh_deposit : find "0xaa-0" empty_world.transfers ≡ none
unfolding find
fresh_deposit = refl

process_event_outcome_example :
    find "0xaa-0"
      (process_event clients
        (processor_of clients cfg ethereum_to_canton)
        deposit
        empty_world).1.transfers
    ≡ some (
        settled clients.error_text
          (submit_transfer clients
            (processor_of clients cfg ethereum_to_canton).direction
            deposit
            false).0
          1000
          (row clients cfg ethereum_to_canton deposit 1000))
process_event_outcome_example =
    process_event_outcome clients cfg ethereum_to_canton deposit empty_world refl fresh_deposit

start-IsRecorded_example :
    All
      (IsRecorded
        (start clients
          (processor_of clients cfg ethereum_to_canton)
          (deposit ∷ mark ∷ [])
          empty_world).1)
      (deposit ∷ mark ∷ [])
start-IsRecorded_example =
    start-IsRecorded clients cfg ethereum_to_canton (deposit ∷ mark ∷ []) empty_world refl

save_chain_offset-Agrees_example :
    Agrees cfg "eth-1" "42" empty_world (save_chain_offset cfg "eth-1" "42" empty_world)
save_chain_offset-Agrees_example = save_chain_offset-Agrees cfg "eth-1" "42" empty_world

abbrev restarted : World Bool
restarted = record empty_world {
  chain_states = (save_chain_offset cfg "eth-1" (format_uint 42) empty_world).1.chain_states;
}

load_ethereum_offset-save_chain_offset_example :
    (load_ethereum_offset clients cfg restarted).1.eth_last_block
    ≡ (if ltb 42 cfg.eth_start_block then cfg.eth_start_block else 42)
load_ethereum_offset-save_chain_offset_example =
    load_ethereum_offset-save_chain_offset clients cfg 42 empty_world restarted (omega arith) refl
      refl refl

validate-StartsAt_example :
    StartsAt cfg "250"
      (ok 100)
      (validate_stored_canton_offset clients cfg "250" empty_world).1.canton_offset
validate-StartsAt_example = validate-StartsAt clients cfg "250" empty_world (omega arith)

restart_backoff_lem_example : restart_backoff 3 ≡ min (2 ^ 3 * second) restart_max_backoff
restart_backoff_lem_example = restart_backoff_lem 3

Reach-IsWellFormed_example :
    IsWellFormed cfg
      (handle_event clients (processor_of clients cfg ethereum_to_canton) deposit world).1
Reach-IsWellFormed_example = Reach-IsWellFormed clients cfg world-IsWellFormed moved

Reach-settled_example :
    find "0xaa-0"
      (handle_event clients (processor_of clients cfg ethereum_to_canton) deposit world).1.transfers
    ≡ some stored
Reach-settled_example =
    Reach-settled clients cfg "0xaa-0" stored world-IsWellFormed stored-found stored-not_pending
      moved

abbrev failing_world : World Bool
failing_world = record empty_world { faults = true ∷ []; eth_saved = "41" }

block_text : format_uint 43 ≡ "43"
unfolding format_uint
block_text = refl

not_saved : failing_world.eth_saved ≢ format_uint 43
not_saved e = ground (arith, e ∙ block_text, eq_iff "41" "43")

lost_deposit_example :
    let v =
      (start clients
        (processor_of clients cfg ethereum_to_canton)
        (deposit ∷ mark ∷ [])
        failing_world).1 in
    (find "0xaa-0" v.transfers ≡ none)
    × (v.chains ≡ false)
    × (v.eth_last_block ≡ 43)
    × ((s : ChainState) × (find_state "eth-1" v.chain_states ≡ some s) × (s.last_block ≡ 43))
lost_deposit_example =
    lost_deposit clients cfg deposit mark failing_world refl refl (omega arith) (omega arith) refl
      fresh_deposit not_saved

check_ethereum_readiness-synced_example :
    ((check_ethereum_readiness clients empty_world).1.ethereum_synced ≡ true)
    ↔ ((empty_world.ethereum_synced ≡ true) ⊎ IsNear (ok 51) 0 50)
check_ethereum_readiness-synced_example =
    check_ethereum_readiness-synced clients empty_world (omega arith) (omega arith)
