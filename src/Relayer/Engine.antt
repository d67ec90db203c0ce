-- ===== src/Relayer/Engine.antt =====
-- pkg/relayer/engine/engine.go: the engine's two processors, the retry of stuck transfers, and the
-- restart backoff. The offsets and the readiness of the engine are in the children.
pub mod Offsets
pub mod Readiness
pub mod Effects
pub mod Rows
pub mod Outcome
pub mod Recorded
pub mod Saved
pub mod Start
pub mod Retry
pub mod Steps
pub mod Reach
pub mod Lost
pub mod Synced
use canton_middleware.Prelude.{
  ℕ, String, Bool, true, false, Option, none, some, List, [], ◌∷◌, str_eq, ◌||◌, ◌&&◌,
  if◌then◌else◌, ltb, leb, ◌==◌, ◌+◌, ◌*◌,
}
use Prim.Native.String.{◌++◌ as str_append}
use canton_middleware.Prelude.Text.{format_uint}
use canton_middleware.Exec.{Result, ok, err, Exec, raise, pure, attempt, ignore, ◌>>=◌, ◌>>◌}
use canton_middleware.Relayer.Types.{
  Event, Transfer, Config, TransferDirection, canton_to_ethereum, ethereum_to_canton, pending,
  completed, failed,
}
use canton_middleware.Relayer.World.{Error, World, Action, client}
use canton_middleware.Relayer.Clients.{Clients}
use canton_middleware.Relayer.Destination.{submit_transfer}
use canton_middleware.Relayer.Store.{
  get_pending_transfers, update_transfer_status, increment_retry_count,
}
use canton_middleware.Relayer.Processor.{Processor}
use Offsets.{save_chain_offset}

-- Durations are in nanoseconds.
abbrev pub second : ℕ
second = 1000000000

abbrev pub stuck_transfer_threshold : ℕ
stuck_transfer_threshold = 15 * 60 * second

abbrev pub restart_initial_backoff : ℕ
restart_initial_backoff = second

abbrev pub restart_max_backoff : ℕ
restart_max_backoff = 30 * second

-- `nextCantonProcessorBackoff`.
unfoldable pub next_canton_processor_backoff : ℕ → ℕ
next_canton_processor_backoff current =
    if current == 0
    then restart_initial_backoff
    else if ltb restart_max_backoff (current * 2)
    then restart_max_backoff
    else current * 2

-- The wait before the restart that follows so many restarts.
unfoldable pub restart_backoff : ℕ → ℕ
restart_backoff = elim [
  | ℕ.zero ↦ restart_initial_backoff
  | ℕ.suc (n → before) ↦ next_canton_processor_backoff before
]

-- The event that a stuck transfer is submitted by: it has no source contract id.
unfoldable pub event_of_transfer : Transfer → Event
event_of_transfer t = record {
  id = t.id;
  transaction_id = "";
  source_chain = t.source_chain;
  destination_chain = t.destination_chain;
  source_tx_hash = t.source_tx_hash;
  source_contract_id = "";
  token_address = t.token_address;
  amount = t.amount;
  sender = t.sender;
  recipient = t.recipient;
  nonce = t.nonce;
  source_block_number = t.source_block_number;
  checkpoint = false;
}

abbrev pub delay_of : ℕ → ℕ
delay_of retry_delay = if retry_delay == 0 then stuck_transfer_threshold else retry_delay

-- `fmt.Sprintf("max retries (%d) exceeded", maxRetries)`.
abbrev pub retries_exceeded : ℕ → String
retries_exceeded max_retries =
    str_append "max retries (" (str_append (format_uint max_retries) ") exceeded")

module _ {D : Type 0} (c : Clients D) where
  abbrev pub completed_by : Event → String → Action D Unit
  completed_by event hash =
      if str_eq event.source_contract_id ""
      then pure tt
      else ignore (client (c.complete_withdrawal event.source_contract_id hash))

  -- The processor of withdrawals, as `Engine.Start` makes it.
  unfoldable pub canton_processor : Config → Processor D
  canton_processor cfg = record {
    direction = canton_to_ethereum;
    source_chain = cfg.canton_chain_id;
    destination_chain = cfg.eth_chain_id;
    on_offset_update = some (save_chain_offset cfg);
    on_post_submit = some completed_by;
  }

  -- The processor of deposits.
  unfoldable pub ethereum_processor : Config → Processor D
  ethereum_processor cfg = record {
    direction = ethereum_to_canton;
    source_chain = cfg.eth_chain_id;
    destination_chain = cfg.canton_chain_id;
    on_offset_update = some (save_chain_offset cfg);
    on_post_submit = none;
  }

  -- The processor of a direction.
  unfoldable pub processor_of : Config → TransferDirection → Processor D
  unfolding canton_processor ethereum_processor
  processor_of cfg canton_to_ethereum = canton_processor cfg
  processor_of cfg ethereum_to_canton = ethereum_processor cfg

  abbrev pub retried : Transfer → Result Error (String × Bool) → Action D Unit
  retried t (err e) = ignore (increment_retry_count t.id)
  retried t (ok (hash, true)) = ignore (update_transfer_status t.id completed none none)
  retried t (ok (hash, false)) = ignore (update_transfer_status t.id completed (some hash) none)

  unfoldable pub retry_stuck_transfer : TransferDirection → Transfer → Action D Unit
  unfolding event_of_transfer
  retry_stuck_transfer direction t = do
    result ← attempt (client (submit_transfer c direction (event_of_transfer t)))
    retried t result

  -- The destination of the retry is that of the direction whose pending transfers were read.
  unfoldable pub maybe_retry_transfer : TransferDirection → ℕ → ℕ → Transfer → Action D Unit
  maybe_retry_transfer direction max_retries retry_delay t w =
      if ltb 0 max_retries && leb max_retries t.retry_count
      then ignore (update_transfer_status t.id failed none (some (retries_exceeded max_retries))) w
      else if ltb w.clock (t.updated_at + retry_delay)
      then (ok tt, w)
      else retry_stuck_transfer direction t w

  unfoldable pub retry_all : TransferDirection → ℕ → ℕ → List Transfer → Action D Unit
  retry_all direction max_retries retry_delay [] w = (ok tt, w)
  retry_all direction max_retries retry_delay (t ∷ ts) w =
      retry_all direction max_retries retry_delay ts
        (maybe_retry_transfer direction max_retries retry_delay t w).1

  unfoldable pub run_reconciliation : Config → Action D Unit
  run_reconciliation cfg = do
    canton_pending ← get_pending_transfers canton_to_ethereum
    eth_pending ← get_pending_transfers ethereum_to_canton
    retry_all canton_to_ethereum cfg.max_retries (delay_of cfg.retry_delay) canton_pending
    retry_all ethereum_to_canton cfg.max_retries (delay_of cfg.retry_delay) eth_pending
