-- ===== src/Relayer/Engine/Recorded.antt =====
-- Which events that a processor of pkg/relayer/engine reads have a row.
use canton_middleware.Prelude.{false, some, List, [], ◌∷◌, ◌≡◌, inl, inr, Option-cases, All}
use canton_middleware.Exec.{ignore}
use canton_middleware.Exec.Keeps.{Keeps, Keeps-if, Keeps-ignore}
use canton_middleware.Relayer.Types.{Transfer, Config, Event, TransferDirection}
use canton_middleware.Relayer.World.{World}
use canton_middleware.Relayer.Clients.{Clients}
use canton_middleware.Relayer.Store.Rows.{find}
use canton_middleware.Relayer.Processor.{process_event, handle_event, start}
use canton_middleware.Relayer.Engine.{processor_of}
use canton_middleware.Relayer.Engine.Effects.{
  persist_offset-Holds, no_faults-blind, process_event-Rows,
}
use canton_middleware.Relayer.Engine.Rows.{process_event-keeps_row, start-keeps_row}
use canton_middleware.Relayer.Engine.Outcome.{process_event_outcome}

-- An event that is a transfer has a row.
abbrev pub IsRecorded : {D : Type 0} → World D → Event → Type 0
IsRecorded w event =
    event.checkpoint ≡ false → (t : Transfer) × (find event.id w.transfers ≡ some t)

module _ {D : Type 0} (c : Clients D) (cfg : Config) (direction : TransferDirection) where
  handle_event-steady :
      (event : Event)
      → Keeps (λ w. w.faults ≡ []) (handle_event c (processor_of c cfg direction) event)
  unfolding handle_event
  handle_event-steady event = record {
    at = λ w h.
        (Keeps-if event.checkpoint (persist_offset-Holds no_faults-blind c cfg direction event) (
            Keeps-ignore (
              process_event-Rows no_faults-blind (λ v d k. k) c cfg direction event
                (λ v t e r f k. k) (λ v s m n time k. k)))).at
          w h;
  }

  process_event-recorded :
      (event : Event) (w : World D)
      → w.faults ≡ []
      → (t : Transfer) × (find event.id
            (process_event c (processor_of c cfg direction) event w).1.transfers
          ≡ some t)
  process_event-recorded event w steady = elim (Option-cases (find event.id w.transfers)) [
    | inl fresh ↦ (_, process_event_outcome c cfg direction event w steady fresh)
    | inr found ↦
        (found.0, process_event-keeps_row c cfg direction event w event.id found.0 found.1)
  ]

  handle_event-IsRecorded :
      (event : Event) (w : World D)
      → w.faults ≡ []
      → IsRecorded (handle_event c (processor_of c cfg direction) event w).1 event
  unfolding handle_event ignore
  handle_event-IsRecorded event w steady real =
      let (t, e) = process_event-recorded event w steady in (t, simp real e)

  -- If no statement fails, each event that a processor reads has a row when it ends, checkpoints aside.
  pub start-IsRecorded :
      (events : List Event) (w : World D)
      → w.faults ≡ []
      → All (IsRecorded (start c (processor_of c cfg direction) events w).1) events
  unfolding start
  start-IsRecorded [] w steady = tt
  start-IsRecorded (event ∷ events) w steady =
      let w' = (handle_event c (processor_of c cfg direction) event w).1 in
      (
        λ real.
            let (t, e) = handle_event-IsRecorded event w steady real in
            (t, start-keeps_row c cfg direction events w' event.id t e),
        start-IsRecorded events w' ((handle_event-steady event).at w steady),
      )
