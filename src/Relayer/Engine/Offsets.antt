-- ===== src/Relayer/Engine/Offsets.antt =====
-- pkg/relayer/engine/engine.go: where the two streams start (`loadOffsets`), and how the position after
-- an event is saved (`saveChainOffset`). Ledger offsets are not negative.
use canton_middleware.Prelude.{
  ℕ, String, Bool, true, false, Option, none, some, str_eq, if◌then◌else◌, ltb, leb, ◌==◌, ◌-◌,
}
use canton_middleware.Prelude.Int.{ℤ, pos, leb_ℤ}
use canton_middleware.Prelude.Text.{format_uint, parse_uint, parse_int}
use canton_middleware.Exec.{Result, ok, err, raise, attempt, ◌>>=◌, ◌>>◌}
use canton_middleware.Relayer.Types.{Config, ChainState, offset_begin}
use canton_middleware.Relayer.World.{Error, Action, client, invalid_offset}
use canton_middleware.Relayer.Clients.{Clients}
use canton_middleware.Relayer.Store.{get_chain_state, set_chain_state}

module _ {D : Type 0} where
  abbrev pub set_canton_offset : String → Action D Unit
  set_canton_offset offset w = (ok tt, record w { canton_offset = offset })

  abbrev pub set_eth_last_block : ℕ → Action D Unit
  set_eth_last_block block w = (ok tt, record w { eth_last_block = block })

  abbrev pub save_ethereum : String → String → Option ℕ → Action D Unit
  save_ethereum chain_id offset none = raise invalid_offset
  save_ethereum chain_id offset (some block) = do
    set_chain_state chain_id block offset
    set_eth_last_block block

  -- The engine's own field changes only after the database was written.
  unfoldable pub save_chain_offset : Config → String → String → Action D Unit
  save_chain_offset cfg chain_id offset =
      if str_eq chain_id cfg.eth_chain_id
      then save_ethereum chain_id offset (parse_uint offset)
      else (do set_chain_state chain_id 0 offset; set_canton_offset offset)

-- `safeCantonOffset`.
unfoldable pub safe_canton_offset : Config → ℕ → String
safe_canton_offset cfg ledger_end =
    let lookback = if cfg.canton_lookback == 0 then 1 else cfg.canton_lookback in
    if leb ledger_end lookback then offset_begin else format_uint (ledger_end - lookback)

-- A stored offset that is a number above the ledger's end.
abbrev pub is_ahead : Option ℤ → ℕ → Bool
is_ahead none ledger_end = false
is_ahead (some n) ledger_end = if leb_ℤ n (pos ledger_end) then false else true

module _ {D : Type 0} (c : Clients D) (cfg : Config) where
  abbrev pub validated : String → Result Error ℕ → Action D Unit
  validated stored (err e) = set_canton_offset stored
  validated stored (ok ledger_end) =
      if is_ahead (parse_int stored) ledger_end
      then (do
        set_canton_offset (safe_canton_offset cfg ledger_end)
        set_chain_state cfg.canton_chain_id 0 (safe_canton_offset cfg ledger_end))
      else set_canton_offset stored

  unfoldable pub validate_stored_canton_offset : String → Action D Unit
  validate_stored_canton_offset stored = do
    ledger_end ← attempt (client c.get_latest_ledger_offset)
    validated stored ledger_end

  abbrev pub from_ledger_end : Result Error ℕ → Action D Unit
  from_ledger_end (err e) = set_canton_offset offset_begin
  from_ledger_end (ok ledger_end) =
      if ledger_end == 0
      then set_canton_offset offset_begin
      else if cfg.canton_lookback == 0
      then set_canton_offset (format_uint ledger_end)
      else set_canton_offset (safe_canton_offset cfg ledger_end)

  unfoldable pub canton_offset_from_ledger_end : Action D Unit
  canton_offset_from_ledger_end = do
    ledger_end ← attempt (client c.get_latest_ledger_offset)
    from_ledger_end ledger_end

  abbrev pub canton_offset_of : Option ChainState → Action D Unit
  canton_offset_of (some state) = validate_stored_canton_offset state.offset
  canton_offset_of none =
      if ltb 0 cfg.canton_start_block
      then set_canton_offset (format_uint cfg.canton_start_block)
      else canton_offset_from_ledger_end

  unfoldable pub load_canton_offset : Action D Unit
  load_canton_offset = do state ← get_chain_state cfg.canton_chain_id; canton_offset_of state

  abbrev pub from_head : Result Error ℕ → Action D Unit
  from_head (err e) = set_eth_last_block cfg.eth_start_block
  from_head (ok head) =
      set_eth_last_block
        (if leb head cfg.eth_lookback_blocks then 0 else head - cfg.eth_lookback_blocks)

  abbrev pub from_chain_head : Action D Unit
  from_chain_head = do head ← attempt (client c.get_latest_block_number); from_head head

  unfoldable pub eth_block_from_chain_head : Action D Unit
  eth_block_from_chain_head =
      if cfg.eth_lookback_blocks == 0 then set_eth_last_block 0 else from_chain_head

  abbrev pub eth_block_of : Option ChainState → Action D Unit
  eth_block_of (some state) =
      set_eth_last_block
        (if ltb state.last_block cfg.eth_start_block then cfg.eth_start_block else state.last_block)
  eth_block_of none =
      if ltb 0 cfg.eth_start_block
      then set_eth_last_block cfg.eth_start_block
      else eth_block_from_chain_head

  unfoldable pub load_ethereum_offset : Action D Unit
  load_ethereum_offset = do state ← get_chain_state cfg.eth_chain_id; eth_block_of state

  unfoldable pub load_offsets : Action D Unit
  load_offsets = do load_canton_offset; load_ethereum_offset
