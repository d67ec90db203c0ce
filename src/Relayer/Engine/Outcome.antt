-- ===== src/Relayer/Engine/Outcome.antt =====
-- How an event is settled when no statement fails, on every branch of `processEvent` in
-- pkg/relayer/engine/processor.go, and that every event that is read has a row.
use canton_middleware.Prelude.{
  ℕ, String, Bool, true, false, Option, none, some, [], ◌∷◌, ◌++◌, ◌≡◌, refl, eq_refl, ◌∙◌,
}
use canton_middleware.Exec.{Result, ok, err, ◌>>=◌}
use canton_middleware.Exec.Keeps.{Keeps, Keeps-bind}
use canton_middleware.Relayer.Types.{
  Transfer, Config, Event, TransferStatus, pending, completed, TransferDirection,
}
use canton_middleware.Relayer.World.{World, is_faulty, rest_of, now, statement, client, Error}
use canton_middleware.Relayer.Clients.{Clients}
use canton_middleware.Relayer.Destination.{submit_transfer}
use canton_middleware.Relayer.Store.{
  create_transfer, update_transfer_status, with_status, to_transfer_dao,
}
use canton_middleware.Relayer.Store.Rows.{find, find-append, find-update}
use canton_middleware.Relayer.Processor.{
  process_event, persist_offset, new_transfer, submitted, run_hook,
}
use canton_middleware.Relayer.Engine.{processor_of}
use canton_middleware.Relayer.Engine.Effects.{persist_offset-Holds, Holds-blind, run_hook-Rows}

-- The row that an event leaves behind for what the destination answered at a time.
abbrev pub settled : (Error → String) → Result Error (String × Bool) → ℕ → Transfer → Transfer
settled words (ok (hash, true)) time t = record t { status = completed; completed_at = some time }
settled words (ok (hash, false)) time t = record t {
  status = completed;
  destination_tx_hash = some hash;
  completed_at = some time;
}
settled words (err e) time t = record t { error_message = some (words e) }

module _ {D : Type 0} where
  -- With no statement failing, an update reaches the row.
  status_row :
      (id : String) (status : TransferStatus) (hash msg : Option String) (w : World D)
      {t : Transfer}
      → w.faults ≡ []
      → find id w.transfers ≡ some t
      → find id (update_transfer_status id status hash msg w).1.transfers
        ≡ some (with_status status hash msg w.clock t)
  unfolding update_transfer_status statement now is_faulty ◌>>=◌
  status_row id status hash msg w steady found =
      rw (steady, found)
        (find-update id id (with_status status hash msg w.clock) w.transfers
            (λ u. unfold with_status in refl)
          ∙ rw (eq_refl id, found))

module _ {D : Type 0} (c : Clients D) (cfg : Config) (direction : TransferDirection)
    (event : Event) where
  abbrev pub row : ℕ → Transfer
  row time =
      to_transfer_dao
        (new_transfer (processor_of c cfg direction).direction
          (processor_of c cfg direction).source_chain
          (processor_of c cfg direction).destination_chain event time)
        time

  persisted :
      (t : Transfer)
      → Keeps
          (λ v. find event.id v.transfers ≡ some t)
          (persist_offset (processor_of c cfg direction) event)
  persisted t =
      persist_offset-Holds (Holds-blind (λ rows d. find event.id rows ≡ some t)) c cfg direction
        event

  hooked :
      (t : Transfer) (hash : String)
      → Keeps
          (λ v. find event.id v.transfers ≡ some t)
          (run_hook (processor_of c cfg direction).on_post_submit event hash)
  hooked t hash =
      run_hook-Rows (Holds-blind (λ rows d. find event.id rows ≡ some t)) (λ v d k. k) c cfg
        direction event hash

  submitted-row :
      (result : Result Error (String × Bool)) (v : World D)
      → v.faults ≡ []
      → find event.id v.transfers ≡ some (row v.clock)
      → find event.id (submitted c (processor_of c cfg direction) event result v).1.transfers
        ≡ some (settled c.error_text result v.clock (row v.clock))
  unfolding ◌>>=◌ with_status to_transfer_dao new_transfer
  submitted-row (err e) v steady found =
      status_row event.id pending none (some (c.error_text e)) v steady found
  submitted-row (ok (hash, true)) v steady found =
      (persisted _).at _ (status_row event.id completed none none v steady found)
  submitted-row (ok (hash, false)) v steady found =
      (Keeps-bind (hooked _ hash) (λ u. persisted _)).at _
        (status_row event.id completed (some hash) none v steady found)

  created :
      (w : World D)
      → w.faults ≡ []
      → find event.id w.transfers ≡ none
      → create_transfer
          (new_transfer
            (processor_of c cfg direction).direction
            (processor_of c cfg direction).source_chain
            (processor_of c cfg direction).destination_chain
            event
            w.clock)
          w
        ≡ (ok true, record w { faults = []; transfers = w.transfers ++ row w.clock ∷ [] })
  unfolding create_transfer statement now new_transfer is_faulty rest_of ◌>>=◌
  created w steady fresh = rw (steady, fresh)

  -- If no statement fails and the event's id has no row yet, the event leaves one row: completed with the
  -- destination's transaction hash if the destination took the transfer, completed with no hash if it had
  -- the transfer already, and pending with the text of the error if the submission failed.
  pub process_event_outcome :
      (w : World D)
      → w.faults ≡ []
      → find event.id w.transfers ≡ none
      → find event.id (process_event c (processor_of c cfg direction) event w).1.transfers
        ≡ some (
            settled c.error_text
              (submit_transfer c (processor_of c cfg direction).direction event w.chains).0
              w.clock
              (row w.clock))
  unfolding process_event now client ◌>>=◌
  process_event_outcome w steady fresh = rw (created w steady fresh) (
      submitted-row (submit_transfer c (processor_of c cfg direction).direction event w.chains).0 _
        refl
        (find-append event.id w.transfers (row w.clock)
          ∙ rw fresh (unfold to_transfer_dao new_transfer in rw (eq_refl event.id))))
