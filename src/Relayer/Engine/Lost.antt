-- ===== src/Relayer/Engine/Lost.antt =====
-- An event whose row could not be written: `Start` in pkg/relayer/engine/processor.go logs the error and
-- goes on, and the next checkpoint moves the saved position past the event.
use canton_middleware.Prelude.{
  ℕ, String, true, false, none, some, [], ◌∷◌, ◌≡◌, ◌≢◌, refl, sym, arith, eq_refl, str_ne, ◌≤◌,
  ◌<◌, ◌==◌,
}
use canton_middleware.Prelude.Text.{format_uint, parse_uint, parse_uint-format_uint, max_u64}
use canton_middleware.Exec.{ignore, ◌>>=◌}
use canton_middleware.Relayer.Types.{Config, Event, ChainState, ethereum_to_canton}
use canton_middleware.Relayer.World.{World, statement, now, is_faulty, rest_of}
use canton_middleware.Relayer.Clients.{Clients}
use canton_middleware.Relayer.Source.{extract_offset}
use canton_middleware.Relayer.Store.{create_transfer, set_chain_state}
use canton_middleware.Relayer.Store.Rows.{find, find_state, find_state-set_state_self}
use canton_middleware.Relayer.Processor.{process_event, persist_offset, handle_event, start}
use canton_middleware.Relayer.Engine.{processor_of}
use canton_middleware.Relayer.Engine.Offsets.{save_chain_offset}

module _ {D : Type 0} (c : Clients D) (cfg : Config) (event mark : Event) (w : World D) where
  -- A text that is read as a number is not empty.
  not_empty : (s : String) (n : ℕ) → parse_uint s ≡ some n → s ≢ ""
  unfolding parse_uint
  not_empty s n h e = clash (rw e at h)
    where
      clash : none ≡ some n → ⊥
      clash k = cc

  -- If the one statement that writes the row of a deposit fails and the next event is a checkpoint, the
  -- deposit has no row, nothing was submitted, and the saved block is that of the checkpoint.
  pub lost_deposit :
      event.checkpoint ≡ false
      → mark.checkpoint ≡ true
      → 0 < mark.source_block_number
      → mark.source_block_number ≤ max_u64
      → w.faults ≡ true ∷ []
      → find event.id w.transfers ≡ none
      → w.eth_saved ≢ format_uint mark.source_block_number
      → let v = (start c (processor_of c cfg ethereum_to_canton) (event ∷ mark ∷ []) w).1 in
        (find event.id v.transfers ≡ none)
        × (v.chains ≡ w.chains)
        × (v.eth_last_block ≡ mark.source_block_number)
        × ((s : ChainState) × (find_state cfg.eth_chain_id v.chain_states ≡ some s)
            × (s.last_block ≡ mark.source_block_number))
  unfolding start handle_event process_event persist_offset processor_of extract_offset
      save_chain_offset set_chain_state create_transfer statement now is_faulty rest_of ignore ◌>>=◌
  lost_deposit real check low high fault fresh moved =
      simp
        (
          real,
          check,
          fault,
          positive mark.source_block_number low,
          str_ne block "" (not_empty block mark.source_block_number read_back),
          str_ne block w.eth_saved (λ e. moved (sym e)),
          eq_refl,
        )
        (simp (read_back)
          (fresh, refl, refl, (saved, find_state-set_state_self saved w.chain_states, refl)))
    where
      block : String
      block = format_uint mark.source_block_number

      saved : ChainState
      saved = record {
        chain_id = cfg.eth_chain_id;
        last_block = mark.source_block_number;
        offset = block;
        updated_at = w.clock;
      }

      read_back : parse_uint (format_uint mark.source_block_number) ≡ some mark.source_block_number
      read_back = parse_uint-format_uint mark.source_block_number high

      positive : (n : ℕ) → 0 < n → (n == 0) ≡ false
      positive n h = ground arith
