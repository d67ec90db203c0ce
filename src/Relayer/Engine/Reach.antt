-- ===== src/Relayer/Engine/Reach.antt =====
-- What holds of the transfers table of pkg/relayer/store however long the relayer runs.
use canton_middleware.Prelude.{
  ℕ, String, Option, none, some, List, [], ◌∷◌, ◌++◌, ◌≡◌, ◌≢◌, refl, sym, ◌∙◌, inl, inr, ◌≤◌,
  arith, if◌then◌else◌, str_eq,
}
use canton_middleware.Exec.Keeps.{Keeps, Keeps-if, Keeps-ignore}
use canton_middleware.Relayer.Types.{
  Transfer, Config, Event, TransferStatus, TransferDirection, pending,
}
use canton_middleware.Relayer.World.{World}
use canton_middleware.Relayer.Clients.{Clients}
use canton_middleware.Relayer.Store.{with_status}
use canton_middleware.Relayer.Store.Rows.{find, update, find-update, find-append, map_option}
use canton_middleware.Relayer.Store.Distinct.{Distinct}
use canton_middleware.Relayer.Processor.{handle_event}
use canton_middleware.Relayer.Engine.{processor_of, run_reconciliation}
use canton_middleware.Relayer.Engine.Effects.{Holds-blind, persist_offset-Holds, process_event-Rows}
use canton_middleware.Relayer.Engine.Rows.{handle_event-keeps_row}
use canton_middleware.Relayer.Engine.Retry.{Bounded}
use canton_middleware.Relayer.Engine.Steps.{
  Step, Reach, read, reconcile, wait, outside, trouble, restart, here, next, IsWellFormed,
  handle_event-Distinct, run_reconciliation-Reconciled, Reconciled, rounds-Distinct, rounds-Bounded,
  rounds-settled,
}

Bounded-insert :
    (limit : ℕ) (rows : List Transfer) (t : Transfer)
    → t.retry_count ≡ 0
    → Bounded limit rows
    → Bounded limit (rows ++ t ∷ [])
Bounded-insert limit rows t none_yet h id u found =
    ground (arith, find-append id rows t, h id u, found)

Bounded-status :
    (limit : ℕ) (id : String) (status : TransferStatus) (hash msg : Option String) (time : ℕ)
    (rows : List Transfer)
    → Bounded limit rows
    → Bounded limit (update id (with_status status hash msg time) rows)
unfolding with_status
Bounded-status limit id status hash msg time rows h j u found =
    go (find j rows) refl
      (sym (find-update id j (with_status status hash msg time) rows (λ x. refl)) ∙ found)
  where
    go :
        (o : Option Transfer)
        → find j rows ≡ o
        → (if str_eq id j then map_option (with_status status hash msg time) o else o) ≡ some u
        → u.retry_count ≤ limit
    go none e k = ground arith
    go (some r) e k = ground (arith, h j r e)

module _ {D : Type 0} (c : Clients D) (cfg : Config) where
  handle_event-Bounded :
      (d : TransferDirection) (e : Event)
      → Keeps (λ w. Bounded cfg.max_retries w.transfers) (handle_event c (processor_of c cfg d) e)
  unfolding handle_event
  handle_event-Bounded d e = record {
    at = λ w h.
        (Keeps-if e.checkpoint
            (persist_offset-Holds (Holds-blind (λ rows x. Bounded cfg.max_retries rows)) c cfg d e)
            (Keeps-ignore (
              process_event-Rows (Holds-blind (λ rows x. Bounded cfg.max_retries rows)) (λ v x k. k)
                c cfg d e
                (λ v t same retries fresh k. Bounded-insert cfg.max_retries v.transfers t retries k)
                (λ v s m n time k.
                  Bounded-status cfg.max_retries e.id s m n time v.transfers k)))).at
          w h;
  }

  Reconciled-IsWellFormed :
      (w v : World D) → Reconciled c cfg w v → IsWellFormed cfg w → IsWellFormed cfg v
  Reconciled-IsWellFormed w v (inl same) h = record {
    distinct = rw same h.distinct;
    bounded = λ p. rw same (h.bounded p);
  }
  Reconciled-IsWellFormed w v (inr (fs, e)) h = rw e (record {
    distinct = rounds-Distinct c cfg (record w { faults = fs }) h.distinct;
    bounded = λ p. rounds-Bounded c cfg (record w { faults = fs }) h.distinct p (h.bounded p);
  })

  Reconciled-settled :
      (w v : World D) (id : String) (r : Transfer)
      → Reconciled c cfg w v
      → Distinct w.transfers
      → find id w.transfers ≡ some r
      → r.status ≢ pending
      → find id v.transfers ≡ some r
  Reconciled-settled w v id r (inl same) d found done = rw same found
  Reconciled-settled w v id r (inr (fs, e)) d found done =
      rw e (rounds-settled c cfg (record w { faults = fs }) d id r found done)

  Step-IsWellFormed : {w v : World D} → Step c cfg w v → IsWellFormed cfg w → IsWellFormed cfg v
  Step-IsWellFormed (read w d e) h = record {
    distinct = (handle_event-Distinct c cfg d e).at w h.distinct;
    bounded = λ p. (handle_event-Bounded d e).at w (h.bounded p);
  }
  Step-IsWellFormed (reconcile w) h =
      Reconciled-IsWellFormed w (run_reconciliation c cfg w).1
        (run_reconciliation-Reconciled c cfg w) h
  Step-IsWellFormed (wait w time) h = record { distinct = h.distinct; bounded = h.bounded }
  Step-IsWellFormed (outside w d) h = record { distinct = h.distinct; bounded = h.bounded }
  Step-IsWellFormed (trouble w fs) h = record { distinct = h.distinct; bounded = h.bounded }
  Step-IsWellFormed (restart w o b) h = record { distinct = h.distinct; bounded = h.bounded }

  -- From a table with distinct ids and no row above the retry limit, every order of events,
  -- reconciliations, restarts, database faults and answers of the chains leads to such a table.
  pub Reach-IsWellFormed :
      {w v : World D} → IsWellFormed cfg w → Reach c cfg w v → IsWellFormed cfg v
  Reach-IsWellFormed h here = h
  Reach-IsWellFormed h (next r s) = Step-IsWellFormed s (Reach-IsWellFormed h r)

  Step-settled :
      {w v : World D} (id : String) (r : Transfer)
      → Step c cfg w v
      → Distinct w.transfers
      → find id w.transfers ≡ some r
      → r.status ≢ pending
      → find id v.transfers ≡ some r
  Step-settled id r (read w d e) h found done = handle_event-keeps_row c cfg d e w id r found
  Step-settled id r (reconcile w) h found done =
      Reconciled-settled w (run_reconciliation c cfg w).1 id r
        (run_reconciliation-Reconciled c cfg w) h found done
  Step-settled id r (wait w time) h found done = found
  Step-settled id r (outside w d) h found done = found
  Step-settled id r (trouble w fs) h found done = found
  Step-settled id r (restart w o b) h found done = found

  -- A transfer that is completed or failed keeps its row, in every field, however long the relayer runs.
  pub Reach-settled :
      {w v : World D} (id : String) (r : Transfer)
      → IsWellFormed cfg w
      → find id w.transfers ≡ some r
      → r.status ≢ pending
      → Reach c cfg w v
      → find id v.transfers ≡ some r
  Reach-settled id r h found done here = found
  Reach-settled id r h found done (next path s) =
      Step-settled id r s (Reach-IsWellFormed h path).distinct
        (Reach-settled id r h found done path) done
