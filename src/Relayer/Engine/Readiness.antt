-- ===== src/Relayer/Engine/Readiness.antt =====
-- pkg/relayer/engine/engine.go: when the engine counts as caught up with both chains.
use canton_middleware.Prelude.{
  ℕ, Bool, true, false, Option, none, some, str_eq, if◌then◌else◌, ltb, leb, ◌+◌, ◌-◌, ◌*◌, ◌%◌,
  ◌^◌, ◌||◌, ◌&&◌,
}
use canton_middleware.Prelude.Int.{ℤ, pos, leb_ℤ}
use canton_middleware.Prelude.Text.{format_uint, parse_int}
use canton_middleware.Exec.{Result, ok, err, attempt, ◌>>=◌}
use canton_middleware.Relayer.Types.{offset_begin}
use canton_middleware.Relayer.World.{Error, World, Action, client}
use canton_middleware.Relayer.Clients.{Clients}

abbrev pub later : ℕ → ℕ → ℕ
later a b = if ltb a b then b else a

-- `lastProcessed+lagTolerance >= headBlock` in uint64.
abbrev pub is_near_head : ℕ → ℕ → Bool
is_near_head last head = leb head ((last + 1) % 2 ^ 64)

abbrev pub grace_period : ℕ
grace_period = 10 * 1000000000

abbrev pub is_healthy : Option ℕ → ℕ → Bool
is_healthy none time = false
is_healthy (some started) time = leb grace_period (time - started)

module _ {D : Type 0} where
  unfoldable pub is_ready : World D → Bool
  is_ready w = w.canton_synced && w.ethereum_synced

  abbrev pub at_number : Option ℤ → ℕ → World D → Bool
  at_number none ledger_end w = false
  at_number (some n) ledger_end w =
      leb_ℤ (pos ledger_end) n || is_healthy w.canton_stream_started w.clock

  abbrev pub has_caught_up : ℕ → World D → Bool
  has_caught_up ledger_end w =
      str_eq w.canton_offset ""
      || str_eq w.canton_offset (format_uint ledger_end)
      || str_eq w.canton_offset offset_begin
      || at_number (parse_int w.canton_offset) ledger_end w

module _ {D : Type 0} (c : Clients D) where
  abbrev pub ethereum_at : Result Error ℕ → Action D Unit
  ethereum_at (err e) w = (ok tt, w)
  ethereum_at (ok head) w =
      if w.ethereum_synced
      then (ok tt, w)
      else if is_near_head (later w.eth_last_block (c.get_last_scanned_block w.chains)) head
      then (ok tt, record w { ethereum_synced = true })
      else (ok tt, w)

  unfoldable pub check_ethereum_readiness : Action D Unit
  check_ethereum_readiness = do head ← attempt (client c.get_latest_block_number); ethereum_at head

  abbrev pub canton_at : Result Error ℕ → Action D Unit
  canton_at (err e) w = (ok tt, w)
  canton_at (ok ledger_end) w =
      if w.canton_synced
      then (ok tt, w)
      else if has_caught_up ledger_end w
      then (ok tt, record w { canton_synced = true })
      else (ok tt, w)

  unfoldable pub check_canton_readiness : Action D Unit
  check_canton_readiness = do
    ledger_end ← attempt (client c.get_latest_ledger_offset)
    canton_at ledger_end

  -- Neither check returns an error.
  unfoldable pub check_readiness : Action D Unit
  unfolding check_ethereum_readiness check_canton_readiness
  check_readiness w = check_canton_readiness (check_ethereum_readiness w).1
