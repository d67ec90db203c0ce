-- ===== src/Relayer/Engine/Rows.antt =====
-- What happens to the rows of the transfers table while a processor of pkg/relayer/engine runs, whatever
-- statements fail and whatever the clients do.
use canton_middleware.Prelude.{
  String, Bool, true, false, some, List, [], ◌∷◌, ◌≡◌, ◌≢◌, refl, String-cases, inl, inr,
  if◌then◌else◌, ◌∙◌, ap, str_ne,
}
use canton_middleware.Exec.{err, ignore}
use canton_middleware.Exec.Keeps.{Keeps-if}
use canton_middleware.Relayer.Types.{Transfer, Config, Event, TransferDirection}
use canton_middleware.Relayer.World.{World, is_faulty, rest_of, database_error}
use canton_middleware.Relayer.Clients.{Clients}
use canton_middleware.Relayer.Store.{with_status}
use canton_middleware.Relayer.Store.Rows.{find, find-append, find-update}
use canton_middleware.Relayer.Processor.{process_event, persist_offset, handle_event, start}
use canton_middleware.Relayer.Engine.{processor_of}
use canton_middleware.Relayer.Engine.Effects.{
  process_event-found, process_event-Rows, persist_offset-Holds, Holds-blind,
}

module _ {D : Type 0} (c : Clients D) (cfg : Config) (direction : TransferDirection) where
  -- An event whose id has a row leaves the rows and the chains as they were.
  pub process_event_again :
      (event : Event) (w : World D) {r : Transfer}
      → find event.id w.transfers ≡ some r
      → ((process_event c (processor_of c cfg direction) event w).1.transfers ≡ w.transfers)
        × ((process_event c (processor_of c cfg direction) event w).1.chains ≡ w.chains)
  process_event_again event w h =
      rw (process_event-found c cfg direction event w h) (by_fault (is_faulty w.faults))
    where
      w' : World D
      w' = record w { faults = rest_of w.faults }

      Same : World D → Type 0
      Same v = (v.transfers ≡ w.transfers) × (v.chains ≡ w.chains)

      by_fault :
          (b : Bool)
          → Same
              (if b
                then (err database_error, w')
                else persist_offset (processor_of c cfg direction) event w').1
      by_fault true = (refl, refl)
      by_fault false =
          (persist_offset-Holds (Holds-blind (λ rows d. (rows ≡ w.transfers) × (d ≡ w.chains))) c
              cfg direction event).at
            w' (refl, refl)

  process_other :
      (event : Event) (w : World D) (id : String) (t : Transfer)
      → event.id ≢ id
      → find id w.transfers ≡ some t
      → find id (process_event c (processor_of c cfg direction) event w).1.transfers ≡ some t
  process_other event w id t differ h =
      (process_event-Rows (Holds-blind (λ rows d. find id rows ≡ some t)) (λ v d k. k) c cfg
          direction event
          (λ v u e zero_retries fresh found. rw (find-append id v.transfers u, found))
          (λ v status hash msg time found.
            find-update event.id id (with_status status hash msg time) v.transfers
              (λ u. unfold with_status in refl)
            ∙ rw (str_ne event.id id differ) found)).at
        w h

  -- A row that is there before an event is the same row after it.
  pub process_event-keeps_row :
      (event : Event) (w : World D) (id : String) (t : Transfer)
      → find id w.transfers ≡ some t
      → find id (process_event c (processor_of c cfg direction) event w).1.transfers ≡ some t
  process_event-keeps_row event w id t h = elim (String-cases event.id id) [
    | inl same ↦
        ap (find id) (process_event_again event w (ap (λ k. find k w.transfers) same.0 ∙ h)).0 ∙ h
    | inr differ ↦ process_other event w id t differ.0 h
  ]

  pub handle_event-keeps_row :
      (event : Event) (w : World D) (id : String) (t : Transfer)
      → find id w.transfers ≡ some t
      → find id (handle_event c (processor_of c cfg direction) event w).1.transfers ≡ some t
  unfolding handle_event ignore
  handle_event-keeps_row event w id t h =
      (Keeps-if event.checkpoint
          (persist_offset-Holds (Holds-blind (λ rows d. find id rows ≡ some t)) c cfg direction
            event)
          (record { at = λ v k. process_event-keeps_row event v id t k })).at
        w h

  -- Whatever events a processor reads, whatever statements fail and whatever the clients answer, a row
  -- that is in the table when it starts is there unchanged when it ends.
  pub start-keeps_row :
      (events : List Event) (w : World D) (id : String) (t : Transfer)
      → find id w.transfers ≡ some t
      → find id (start c (processor_of c cfg direction) events w).1.transfers ≡ some t
  unfolding start
  start-keeps_row [] w id t h = h
  start-keeps_row (event ∷ events) w id t h =
      start-keeps_row events (handle_event c (processor_of c cfg direction) event w).1 id t
        (handle_event-keeps_row event w id t h)
