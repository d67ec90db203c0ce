-- ===== src/Relayer/Engine/Saved.antt =====
-- The position that pkg/relayer/engine/engine.go saves, and what the next start makes of it.
use canton_middleware.Prelude.{
  ℕ, String, some, [], ◌≡◌, refl, inl, inr, Option-cases, Bool-cases, if◌then◌else◌, str_eq,
  eq_refl, ◌≤◌, ltb,
}
use canton_middleware.Prelude.Text.{parse_uint, format_uint, parse_uint-format_uint, max_u64}
use canton_middleware.Exec.{Result, ok, err, ◌>>=◌}
use canton_middleware.Relayer.Types.{Config, ChainState}
use canton_middleware.Relayer.World.{World, Error, statement, now, is_faulty}
use canton_middleware.Relayer.Clients.{Clients}
use canton_middleware.Relayer.Store.{get_chain_state, set_chain_state}
use canton_middleware.Relayer.Store.Rows.{
  find_state, find_state-set_state, find_state-set_state_self,
}
use canton_middleware.Relayer.Engine.Offsets.{save_chain_offset, load_ethereum_offset}

module _ {D : Type 0} (cfg : Config) (chain offset : String) (w : World D) where
  -- What a call of `saveChainOffset` leaves behind.
  abbrev pub Agrees : Result Error Unit × World D → Type 0
  Agrees (ok u, v) =
      (c : ChainState) × (find_state chain v.chain_states ≡ some c)
      × (c.offset ≡ offset)
      × (if str_eq chain cfg.eth_chain_id
          then (parse_uint offset ≡ some c.last_block)
            × (v.eth_last_block ≡ c.last_block)
            × (v.canton_offset ≡ w.canton_offset)
          else (v.canton_offset ≡ offset) × (v.eth_last_block ≡ w.eth_last_block))
  Agrees (err e, v) =
      (v.chain_states ≡ w.chain_states)
      × (v.canton_offset ≡ w.canton_offset)
      × (v.eth_last_block ≡ w.eth_last_block)

  -- If the call succeeds, the database row of the chain has the offset and the engine's own field agrees
  -- with it; if it fails, neither has changed.
  pub save_chain_offset-Agrees : Agrees (save_chain_offset cfg chain offset w)
  unfolding save_chain_offset set_chain_state statement now ◌>>=◌
  save_chain_offset-Agrees = elim (Bool-cases (str_eq chain cfg.eth_chain_id)) [
    | inl eth ↦ elim (Option-cases (parse_uint offset)) [
      | inl bad ↦ rw (eth, bad) (refl, refl, refl)
      | inr n ↦ elim (Bool-cases (is_faulty w.faults)) [
        | inl fault ↦ rw (eth, n.1, fault) (refl, refl, refl)
        | inr good ↦
            rw (eth, n.1, good)
              (_, find_state-set_state_self _ w.chain_states, refl, rw eth (n.1, refl, refl))
      ]
    ]
    | inr canton ↦ elim (Bool-cases (is_faulty w.faults)) [
      | inl fault ↦ rw (canton, fault) (refl, refl, refl)
      | inr good ↦
          rw (canton, good)
            (_, find_state-set_state_self _ w.chain_states, refl, rw canton (refl, refl))
    ]
  ]

module _ {D : Type 0} (c : Clients D) (cfg : Config) where
  -- If the block of an event is saved and no statement fails, an engine that starts on the same table
  -- resumes at that block, or at the configured one if that is later.
  pub load_ethereum_offset-save_chain_offset :
      (n : ℕ) (w v : World D)
      → n ≤ max_u64
      → w.faults ≡ []
      → v.faults ≡ []
      → v.chain_states ≡ (save_chain_offset cfg cfg.eth_chain_id (format_uint n) w).1.chain_states
      → (load_ethereum_offset c cfg v).1.eth_last_block
        ≡ (if ltb n cfg.eth_start_block then cfg.eth_start_block else n)
  unfolding save_chain_offset load_ethereum_offset get_chain_state set_chain_state statement now
      is_faulty ◌>>=◌
  load_ethereum_offset-save_chain_offset n w v small steady steady' same =
      rw (steady', same, eq_refl cfg.eth_chain_id, parse_uint-format_uint n small, steady)
        (rw (find_state-set_state _ cfg.eth_chain_id w.chain_states, eq_refl cfg.eth_chain_id))
