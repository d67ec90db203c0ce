-- ===== src/Relayer/Engine/Steps.antt =====
-- The relayer of pkg/relayer/engine as a system of steps: its processors, the reconciliation loop, the
-- chains and the clock take turns, in any order, and the process may restart. What a turn does runs to
-- its end; two goroutines inside their handlers at once are not modelled.
use canton_middleware.Prelude.{
  ℕ, String, Bool, true, some, List, [], ◌∷◌, ◌≡◌, ◌≢◌, refl, sym, ◌∙◌, ap, inl, inr, ◌⊎◌,
  Bool-cases, ◌<◌, ◌+◌, All, arith,
}
use canton_middleware.Exec.{ok, ◌>>=◌}
use canton_middleware.Exec.Keeps.{Keeps, Keeps-if, Keeps-ignore}
use canton_middleware.Relayer.Types.{
  Transfer, Config, Event, TransferDirection, pending, canton_to_ethereum, ethereum_to_canton,
}
use canton_middleware.Relayer.World.{World, statement, is_faulty, rest_of}
use canton_middleware.Relayer.Clients.{Clients}
use canton_middleware.Relayer.Store.{with_status, get_pending_transfers}
use canton_middleware.Relayer.Store.Rows.{same_direction, find, pending_rows}
use canton_middleware.Relayer.Store.Distinct.{
  Distinct, Apart, Apart-of_none, Distinct-append, Distinct-update, Distinct-pending, pending-IsRow,
  IsRow,
}
use canton_middleware.Relayer.Processor.{handle_event}
use canton_middleware.Relayer.Engine.{processor_of, run_reconciliation, retry_all, delay_of}
use canton_middleware.Relayer.Engine.Effects.{Holds-blind, persist_offset-Holds, process_event-Rows}
use canton_middleware.Relayer.Engine.Retry.{
  Bounded, retry_all-Bounded, retry_all-Distinct, retry_all-other, Apart-settled,
}

pub data Step {D : Type 0} (c : Clients D) (cfg : Config) : World D → World D → Type 0 where
  read :
      (w : World D) (d : TransferDirection) (e : Event)
      → Step c cfg w (handle_event c (processor_of c cfg d) e w).1
  reconcile : (w : World D) → Step c cfg w (run_reconciliation c cfg w).1
  wait : (w : World D) (time : ℕ) → Step c cfg w (record w { clock = w.clock + time })
  outside : (w : World D) (d : D) → Step c cfg w (record w { chains = d })
  trouble : (w : World D) (fs : List Bool) → Step c cfg w (record w { faults = fs })
  restart :
      (w : World D) (offset : String) (block : ℕ)
      → Step c cfg w (record w {
        canton_offset = offset;
        eth_last_block = block;
        canton_saved = "";
        eth_saved = "";
      })

pub data Reach {D : Type 0} (c : Clients D) (cfg : Config) (w : World D) : World D → Type 0 where
  here : Reach c cfg w w
  next : {u v : World D} → Reach c cfg w u → Step c cfg u v → Reach c cfg w v

module _ {D : Type 0} (c : Clients D) (cfg : Config) where
  pub handle_event-Distinct :
      (d : TransferDirection) (e : Event)
      → Keeps (λ w. Distinct w.transfers) (handle_event c (processor_of c cfg d) e)
  unfolding handle_event
  handle_event-Distinct d e = record {
    at = λ w h.
        (Keeps-if e.checkpoint
            (persist_offset-Holds (Holds-blind (λ rows x. Distinct rows)) c cfg d e)
            (Keeps-ignore (
              process_event-Rows (Holds-blind (λ rows x. Distinct rows)) (λ v x k. k) c cfg d e
                (λ v t same retries fresh k.
                  Distinct-append v.transfers t (rw same (Apart-of_none e.id v.transfers fresh)) k)
                (λ v s m n time k.
                  Distinct-update e.id (with_status s m n time) (λ u. unfold with_status in refl)
                    v.transfers k)))).at
          w h;
  }

  -- The retries of a list do not fail.
  retry_all-ok :
      (d : TransferDirection) (limit delay : ℕ) (ts : List Transfer) (w : World D)
      → (retry_all c d limit delay ts w).0 ≡ ok tt
  unfolding retry_all
  retry_all-ok d limit delay [] w = refl
  retry_all-ok d limit delay (t ∷ ts) w = retry_all-ok d limit delay ts _

  -- The two rounds of retries, for what the two queries returned.
  abbrev pub first_round : World D → World D
  first_round w =
      (retry_all c canton_to_ethereum cfg.max_retries (delay_of cfg.retry_delay)
        (pending_rows canton_to_ethereum w.transfers) w).1

  abbrev pub second_round : World D → World D
  second_round w =
      (retry_all c ethereum_to_canton cfg.max_retries (delay_of cfg.retry_delay)
        (pending_rows ethereum_to_canton w.transfers) (first_round w)).1

  abbrev pub Reconciled : World D → World D → Type 0
  Reconciled w v =
      (v.transfers ≡ w.transfers)
      ⊎ ((fs : List Bool) × (v ≡ second_round (record w { faults = fs })))

  pub run_reconciliation-Reconciled : (w : World D) → Reconciled w (run_reconciliation c cfg w).1
  unfolding run_reconciliation get_pending_transfers statement ◌>>=◌
  run_reconciliation-Reconciled w = elim (Bool-cases (is_faulty w.faults)) [
    | inl bad ↦ inl (rw bad)
    | inr good ↦ elim (Bool-cases (is_faulty (rest_of w.faults))) [
      | inl bad ↦ inl (rw (good, bad))
      | inr fine ↦ inr (
        rest_of (rest_of w.faults),
        rw (
          good,
          fine,
          retry_all-ok canton_to_ethereum cfg.max_retries (delay_of cfg.retry_delay)
              (pending_rows canton_to_ethereum w.transfers)
              (record w { faults = rest_of (rest_of w.faults) }),
        ),
      )
    ]
  ]

  -- A transfer of one direction has no id of the other.
  crossing :
      (rows ts : List Transfer) (t : Transfer)
      → find t.id rows ≡ some t
      → same_direction t.direction ethereum_to_canton ≡ true
      → All (IsRow canton_to_ethereum rows) ts
      → Apart t.id ts
  crossing rows [] t row d h = tt
  crossing rows (u ∷ us) t row d h = (
    (λ e. clash t u (sym row ∙ ap (λ k. find k rows) (sym e) ∙ h.0.0) d h.0.2),
    crossing rows us t row d h.1,
  )
    where
      clash :
          (a b : Transfer)
          → some a ≡ some b
          → same_direction a.direction ethereum_to_canton ≡ true
          → same_direction b.direction canton_to_ethereum ≡ true
          → ⊥
      clash a b e p q = ground arith

  second_rows :
      (w : World D) (ts : List Transfer)
      → Distinct w.transfers
      → All (IsRow ethereum_to_canton w.transfers) ts
      → All (IsRow ethereum_to_canton (first_round w).transfers) ts
  second_rows w [] d h = tt
  second_rows w (t ∷ ts) d h = (
    (
      retry_all-other c canton_to_ethereum cfg.max_retries (delay_of cfg.retry_delay)
            (pending_rows canton_to_ethereum w.transfers) w t.id
            (crossing w.transfers (pending_rows canton_to_ethereum w.transfers) t h.0.0 h.0.2
              (pending-IsRow canton_to_ethereum w.transfers d))
          ∙ h.0.0,
      h.0.1,
      h.0.2,
    ),
    second_rows w ts d h.1,
  )

  -- What the two rounds keep.
  module _ (w : World D) (d : Distinct w.transfers) where
    pub rounds-Distinct : Distinct (second_round w).transfers
    rounds-Distinct =
        retry_all-Distinct c ethereum_to_canton cfg.max_retries (delay_of cfg.retry_delay)
          (pending_rows ethereum_to_canton w.transfers) (first_round w)
          (retry_all-Distinct c canton_to_ethereum cfg.max_retries (delay_of cfg.retry_delay)
            (pending_rows canton_to_ethereum w.transfers) w d)

    pub rounds-Bounded :
        0 < cfg.max_retries
        → Bounded cfg.max_retries w.transfers
        → Bounded cfg.max_retries (second_round w).transfers
    rounds-Bounded p h =
        retry_all-Bounded c ethereum_to_canton cfg.max_retries (delay_of cfg.retry_delay)
          (pending_rows ethereum_to_canton w.transfers) (first_round w) p
          (Distinct-pending ethereum_to_canton w.transfers d)
          (second_rows w (pending_rows ethereum_to_canton w.transfers) d
            (pending-IsRow ethereum_to_canton w.transfers d))
          (retry_all-Bounded c canton_to_ethereum cfg.max_retries (delay_of cfg.retry_delay)
            (pending_rows canton_to_ethereum w.transfers) w p
            (Distinct-pending canton_to_ethereum w.transfers d)
            (pending-IsRow canton_to_ethereum w.transfers d) h)

    pub rounds-settled :
        (id : String) (r : Transfer)
        → find id w.transfers ≡ some r
        → r.status ≢ pending
        → find id (second_round w).transfers ≡ some r
    rounds-settled id r found done =
        retry_all-other c ethereum_to_canton cfg.max_retries (delay_of cfg.retry_delay)
          (pending_rows ethereum_to_canton w.transfers) (first_round w) id
          (Apart-settled ethereum_to_canton w.transfers _ id r found done
            (pending-IsRow ethereum_to_canton w.transfers d))
        ∙ retry_all-other c canton_to_ethereum cfg.max_retries (delay_of cfg.retry_delay)
            (pending_rows canton_to_ethereum w.transfers) w id
            (Apart-settled canton_to_ethereum w.transfers _ id r found done
              (pending-IsRow canton_to_ethereum w.transfers d))
        ∙ found

-- What holds of the table between two steps.
pub record IsWellFormed {D : Type 0} (cfg : Config) (w : World D) : Type 0 where
  pub distinct : Distinct w.transfers
  pub bounded : 0 < cfg.max_retries → Bounded cfg.max_retries w.transfers
