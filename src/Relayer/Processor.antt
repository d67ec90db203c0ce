-- ===== src/Relayer/Processor.antt =====
-- pkg/relayer/engine/processor.go. A processor reads the events of one source, in order, and submits each
-- to its destination.
use canton_middleware.Prelude.{
  ℕ, String, Bool, true, false, Option, none, some, List, [], ◌∷◌, str_eq, ◌||◌, if◌then◌else◌,
}
use canton_middleware.Exec.{Result, ok, err, raise, pure, attempt, ignore, ◌>>=◌, ◌>>◌}
use canton_middleware.Relayer.Types.{Event, Transfer, TransferDirection, pending, completed}
use canton_middleware.Relayer.World.{
  Error, Action, client, now, last_saved_offset, set_last_saved_offset, submission_failed,
}
use canton_middleware.Relayer.Clients.{Clients}
use canton_middleware.Relayer.Source.{extract_offset}
use canton_middleware.Relayer.Destination.{submit_transfer}
use canton_middleware.Relayer.Store.{create_transfer, update_transfer_status}

abbrev pub OffsetUpdate : Type 0 → Type 0
OffsetUpdate D = String → String → Action D Unit

abbrev pub PostSubmitHook : Type 0 → Type 0
PostSubmitHook D = Event → String → Action D Unit

pub record Processor (D : Type 0) : Type 0 where
  pub direction : TransferDirection
  pub source_chain : String
  pub destination_chain : String
  pub on_offset_update : Option (OffsetUpdate D)
  pub on_post_submit : Option (PostSubmitHook D)

-- The row of an event that was detected at a time.
unfoldable pub new_transfer : TransferDirection → String → String → Event → ℕ → Transfer
new_transfer direction source_chain destination_chain event created_at = record {
  id = event.id;
  direction = direction;
  status = pending;
  source_chain = source_chain;
  destination_chain = destination_chain;
  source_tx_hash = event.source_tx_hash;
  destination_tx_hash = none;
  token_address = event.token_address;
  amount = event.amount;
  sender = event.sender;
  recipient = event.recipient;
  nonce = event.nonce;
  source_block_number = event.source_block_number;
  retry_count = 0;
  created_at = created_at;
  updated_at = 0;
  completed_at = none;
  error_message = none;
}

module _ {D : Type 0} where
  abbrev pub update_offset :
      Option (OffsetUpdate D) → TransferDirection → String → String → Action D Unit
  update_offset none direction chain offset w = (ok tt, w)
  update_offset (some update) direction chain offset w =
      if str_eq offset "" || str_eq offset (last_saved_offset direction w)
      then (ok tt, w)
      else ignore (update chain offset) (set_last_saved_offset direction offset w)

  -- The offset counts as saved before the update is tried; an error of the update is logged.
  unfoldable pub persist_offset : Processor D → Event → Action D Unit
  persist_offset p event =
      update_offset p.on_offset_update p.direction p.source_chain (extract_offset p.direction event)

  abbrev pub run_hook : Option (PostSubmitHook D) → Event → String → Action D Unit
  run_hook none event hash = pure tt
  run_hook (some hook) event hash = ignore (hook event hash)

module _ {D : Type 0} (c : Clients D) where
  abbrev pub submitted : Processor D → Event → Result Error (String × Bool) → Action D Unit
  submitted p event (err e) = do
    ignore (update_transfer_status event.id pending none (some (c.error_text e)))
    raise submission_failed
  submitted p event (ok (hash, true)) = do
    ignore (update_transfer_status event.id completed none none)
    persist_offset p event
  submitted p event (ok (hash, false)) = do
    ignore (update_transfer_status event.id completed (some hash) none)
    run_hook p.on_post_submit event hash
    persist_offset p event

  abbrev pub process_new : Processor D → Event → Bool → Action D Unit
  process_new p event false = persist_offset p event
  process_new p event true = do
    result ← attempt (client (submit_transfer c p.direction event))
    submitted p event result

  unfoldable pub process_event : Processor D → Event → Action D Unit
  process_event p event = do
    created_at ← now
    inserted ←
        create_transfer
          (new_transfer p.direction p.source_chain p.destination_chain event created_at)
    process_new p event inserted

  -- One turn of the loop of `Start`: an error of an event is logged and the loop goes on.
  unfoldable pub handle_event : Processor D → Event → Action D Unit
  handle_event p event =
      if event.checkpoint then persist_offset p event else ignore (process_event p event)

  -- `Start` on the events that the stream delivers before it closes.
  unfoldable pub start : Processor D → List Event → Action D Unit
  start p [] w = (ok tt, w)
  start p (event ∷ events) w = start p events (handle_event p event w).1
