-- ===== src/Relayer/Engine/Effects.antt =====
-- What the two processors of pkg/relayer/engine keep: rules for a property of the rows and for one of the
-- chains.
use canton_middleware.Prelude.{
  ℕ, String, Bool, true, false, Option, none, some, List, [], ◌∷◌, ◌++◌, ◌≡◌, refl, ap, str_eq,
  Bool-cases, inl, inr, if◌then◌else◌,
}
use canton_middleware.Prelude.Text.{parse_uint}
use canton_middleware.Exec.{Result, ok, err, ◌>>=◌, ignore}
use canton_middleware.Exec.Keeps.{
  Keeps, Keeps-ignore, Keeps-pure, Keeps-if, Keeps-bind, Keeps-raise, Keeps-attempt,
}
use canton_middleware.Relayer.Types.{
  Transfer, ChainState, Config, Event, TransferStatus, TransferDirection, canton_to_ethereum,
  ethereum_to_canton,
}
use canton_middleware.Relayer.World.{World, Error, client, database_error, is_faulty, rest_of, now}
use canton_middleware.Relayer.Clients.{Clients, Call}
use canton_middleware.Relayer.Source.{extract_offset}
use canton_middleware.Relayer.Store.{
  set_chain_state, update_transfer_status, with_status, to_transfer_dao,
}
use canton_middleware.Relayer.Store.Effects.{
  set_chain_state-Keeps, create_transfer-found, create_transfer-Keeps, update_transfer_status-Keeps,
}
use canton_middleware.Relayer.Store.Rows.{find, update}
use canton_middleware.Relayer.Processor.{
  OffsetUpdate, process_event, persist_offset, new_transfer, update_offset, run_hook, submitted,
  process_new,
}
use canton_middleware.Relayer.Engine.{processor_of}
use canton_middleware.Relayer.Engine.Offsets.{save_chain_offset}
use canton_middleware.Relayer.Engine.Offsets

-- A property that what the offsets are kept in does not touch.
pub record IsOffsetBlind {D : Type 0} (P : World D → Type 0) : Type 0 where
  pub quiet : (w : World D) → P w → P (record w { faults = rest_of w.faults })
  pub states : (w : World D) (rows : List ChainState) → P w → P (record w { chain_states = rows })
  pub memory : (w : World D) (o : String) → P w → P (record w { canton_offset = o })
  pub block : (w : World D) (n : ℕ) → P w → P (record w { eth_last_block = n })
  pub canton : (w : World D) (o : String) → P w → P (record w { canton_saved = o })
  pub eth : (w : World D) (o : String) → P w → P (record w { eth_saved = o })

-- Every property of the rows and of the chains is one.
pub Holds-blind :
    {D : Type 0} (Q : List Transfer → D → Type 0) → IsOffsetBlind (λ w. Q w.transfers w.chains)
Holds-blind Q = record {
  quiet = λ w h. h;
  states = λ w rows h. h;
  memory = λ w o h. h;
  block = λ w n h. h;
  canton = λ w o h. h;
  eth = λ w o h. h;
}

-- That no statement fails is one.
pub no_faults-blind : {D : Type 0} → IsOffsetBlind {D = D} (λ w. w.faults ≡ [])
unfolding rest_of
no_faults-blind = record {
  quiet = λ w h. ap rest_of h;
  states = λ w rows h. h;
  memory = λ w o h. h;
  block = λ w n h. h;
  canton = λ w o h. h;
  eth = λ w o h. h;
}

module _ {D : Type 0} {P : World D → Type 0} (blind : IsOffsetBlind P) where
  pub set_chain_state-Holds :
      (chain_id : String) (block : ℕ) (offset : String)
      → Keeps P (set_chain_state {D = D} chain_id block offset)
  set_chain_state-Holds chain_id block offset =
      set_chain_state-Keeps P blind.quiet chain_id block offset (λ w c h. blind.states w _ h)

  pub save_chain_offset-Holds :
      (cfg : Config) (chain offset : String) → Keeps P (save_chain_offset {D = D} cfg chain offset)
  unfolding save_chain_offset
  save_chain_offset-Holds cfg chain offset =
      Keeps-if (str_eq chain cfg.eth_chain_id) (parsed (parse_uint offset)) (
        Keeps-bind (set_chain_state-Holds chain 0 offset)
          (λ u. record { at = λ w h. blind.memory w offset h }))
    where
      parsed : (o : Option ℕ) → Keeps P (Offsets.save_ethereum {D = D} chain offset o)
      parsed none = Keeps-raise _
      parsed (some n) =
          Keeps-bind (set_chain_state-Holds chain n offset)
            (λ u. record { at = λ w h. blind.block w n h })

  either_Holds :
      (b : Bool) (x y : Result Error Unit × World D) → P x.1 → P y.1 → P (if b then x else y).1
  either_Holds true x y h k = h
  either_Holds false x y h k = k

  update_offset-Holds :
      (update : OffsetUpdate D) (direction : TransferDirection) (chain offset : String)
      → ((a b : String) → Keeps P (update a b))
      → Keeps P (update_offset (some update) direction chain offset)
  unfolding ignore
  update_offset-Holds update canton_to_ethereum chain offset k = record {
    at = λ w h.
        either_Holds _ _ _ h
          ((k chain offset).at (record w { canton_saved = offset }) (blind.canton w offset h));
  }
  update_offset-Holds update ethereum_to_canton chain offset k = record {
    at = λ w h.
        either_Holds _ _ _ h
          ((k chain offset).at (record w { eth_saved = offset }) (blind.eth w offset h));
  }

  -- Saving a position changes neither the rows nor the chains.
  pub persist_offset-Holds :
      (c : Clients D) (cfg : Config) (direction : TransferDirection) (event : Event)
      → Keeps P (persist_offset (processor_of c cfg direction) event)
  unfolding persist_offset processor_of
  persist_offset-Holds c cfg canton_to_ethereum event =
      update_offset-Holds _ canton_to_ethereum cfg.canton_chain_id
        (extract_offset canton_to_ethereum event) (save_chain_offset-Holds cfg)
  persist_offset-Holds c cfg ethereum_to_canton event =
      update_offset-Holds _ ethereum_to_canton cfg.eth_chain_id
        (extract_offset ethereum_to_canton event) (save_chain_offset-Holds cfg)

module _ {D : Type 0} (c : Clients D) (cfg : Config) (direction : TransferDirection)
    (event : Event) where
  -- An event whose id has a row is not submitted again.
  pub process_event-found :
      (w : World D) {r : Transfer}
      → find event.id w.transfers ≡ some r
      → process_event c (processor_of c cfg direction) event w ≡ (
          if is_faulty w.faults
          then (err database_error, record w { faults = rest_of w.faults })
          else persist_offset
              (processor_of c cfg direction)
              event
              (record w { faults = rest_of w.faults }))
  unfolding process_event now new_transfer ◌>>=◌
  process_event-found w h =
      let p = processor_of c cfg direction in
      rw
        (create_transfer-found
          (new_transfer p.direction p.source_chain p.destination_chain event w.clock) w h)
        (elim (Bool-cases (is_faulty w.faults)) [ inl bad ↦ rw bad | inr good ↦ rw good ])

-- A property of the rows, and of what is neither an offset nor a chain.
module _ {D : Type 0} {P : World D → Type 0} (blind : IsOffsetBlind P)
    (calls : (w : World D) (d : D) → P w → P (record w { chains = d })) where
  pub client-Rows : {A : Type 0} (call : Call D A) → Keeps P (client call)
  unfolding client
  client-Rows call = record { at = λ w h. calls w (call w.chains).1 h }

  pub run_hook-Rows :
      (c : Clients D) (cfg : Config) (direction : TransferDirection) (event : Event) (hash : String)
      → Keeps P (run_hook (processor_of c cfg direction).on_post_submit event hash)
  unfolding processor_of
  run_hook-Rows c cfg canton_to_ethereum event hash =
      Keeps-ignore (
        Keeps-if (str_eq event.source_contract_id "") (Keeps-pure tt)
          (Keeps-ignore (client-Rows _)))
  run_hook-Rows c cfg ethereum_to_canton event hash = Keeps-pure tt

  module _ (c : Clients D) (cfg : Config) (direction : TransferDirection) (event : Event)
      (inserts : (w : World D) (t : Transfer)
        → t.id ≡ event.id
        → t.retry_count ≡ 0
        → find event.id w.transfers ≡ none
        → P w
        → P (record w { transfers = w.transfers ++ t ∷ [] }))
      (updates : (w : World D) (status : TransferStatus) (hash msg : Option String) (time : ℕ)
        → P w
        → P (record w {
          transfers = update event.id (with_status status hash msg time) w.transfers;
        })) where
    status-Rows :
        (status : TransferStatus) (hash msg : Option String)
        → Keeps P (ignore (update_transfer_status {D = D} event.id status hash msg))
    status-Rows status hash msg = Keeps-ignore (
        update_transfer_status-Keeps P blind.quiet event.id status hash msg
          (λ w time h. updates w status hash msg time h))

    submitted-Rows :
        (result : Result Error (String × Bool))
        → Keeps P (submitted c (processor_of c cfg direction) event result)
    submitted-Rows (err e) = Keeps-bind (status-Rows _ _ _) (λ u. Keeps-raise _)
    submitted-Rows (ok (hash, true)) =
        Keeps-bind (status-Rows _ _ _) (λ u. persist_offset-Holds blind c cfg direction event)
    submitted-Rows (ok (hash, false)) = Keeps-bind (status-Rows _ _ _) (λ u.
        Keeps-bind (run_hook-Rows c cfg direction event hash)
          (λ v. persist_offset-Holds blind c cfg direction event))

    process_new-Rows :
        (new : Bool) → Keeps P (process_new c (processor_of c cfg direction) event new)
    process_new-Rows false = persist_offset-Holds blind c cfg direction event
    process_new-Rows true = Keeps-bind (Keeps-attempt (client-Rows _)) submitted-Rows

    -- A property of the rows that the insertion and the updates of the event's row keep is kept.
    pub process_event-Rows : Keeps P (process_event c (processor_of c cfg direction) event)
    unfolding process_event now new_transfer to_transfer_dao
    process_event-Rows =
        Keeps-bind (record { at = λ w h. h })
          (λ time.
            Keeps-bind
              (create_transfer-Keeps P blind.quiet _ (λ w t h e. inserts w _ refl refl e h))
              process_new-Rows)
