-- ===== src/Relayer/Engine/Start.antt =====
-- Where the Canton stream of pkg/relayer/engine/engine.go starts, and the wait between its restarts.
use canton_middleware.Prelude.{
  ℕ, zero, suc, String, Bool, true, false, some, ◌≡◌, refl, inl, inr, arith, Bool-cases,
  if◌then◌else◌, ◌≤◌, leb, ◌-◌, ◌*◌, ◌==◌, ◌^◌,
}
use native.Mathlib.Nat.{pow-suc}
use Prim.Native.Nat.{min}
use canton_middleware.Prelude.Int.{pos}
use canton_middleware.Prelude.Text.{parse_int, format_uint, parse_int-format_uint, max_i64}
use canton_middleware.Exec.{Result, ok, err, ◌>>=◌}
use canton_middleware.Relayer.Types.{Config, offset_begin}
use canton_middleware.Relayer.World.{World, Error, client, statement, now, is_faulty}
use canton_middleware.Relayer.Clients.{Clients}
use canton_middleware.Relayer.Store.{set_chain_state}
use canton_middleware.Relayer.Engine.{
  next_canton_processor_backoff, restart_backoff, restart_max_backoff, second,
}
use canton_middleware.Relayer.Engine.Offsets.{
  safe_canton_offset, is_ahead, validate_stored_canton_offset, validated,
}

-- The offset to which a position that lies ahead is reset is not ahead.
safe_canton_offset-not_ahead :
    (cfg : Config) (ledger_end : ℕ)
    → ledger_end ≤ max_i64
    → is_ahead (parse_int (safe_canton_offset cfg ledger_end)) ledger_end ≡ false
unfolding safe_canton_offset
safe_canton_offset-not_ahead cfg e h = by_test (leb e lookback)
  where
    lookback : ℕ
    lookback = if cfg.canton_lookback == 0 then 1 else cfg.canton_lookback

    number : is_ahead (some (pos (e - lookback))) e ≡ false
    number = ground arith

    by_test :
        (b : Bool)
        → is_ahead (parse_int (if b then offset_begin else format_uint (e - lookback))) e ≡ false
    by_test true = unfold parse_int in refl
    by_test false = rw (parse_int-format_uint (e - lookback) (omega arith)) number

-- Where the stream starts, by what the ledger answered.
abbrev pub StartsAt : Config → String → Result Error ℕ → String → Type 0
StartsAt cfg stored (ok ledger_end) offset = is_ahead (parse_int offset) ledger_end ≡ false
StartsAt cfg stored (err e) offset = offset ≡ stored

module _ {D : Type 0} (c : Clients D) (cfg : Config) where
  abbrev pub IsSmall : Result Error ℕ → Type 0
  IsSmall (ok n) = n ≤ max_i64
  IsSmall (err e) = Unit

  validated-StartsAt :
      (stored : String) (end : Result Error ℕ) (w : World D)
      → IsSmall end
      → StartsAt cfg stored end (validated c cfg stored end w).1.canton_offset
  unfolding set_chain_state statement now ◌>>=◌
  validated-StartsAt stored (err e) w small = refl
  validated-StartsAt stored (ok n) w small = elim (Bool-cases (is_ahead (parse_int stored) n)) [
    | inl ahead ↦ elim (Bool-cases (is_faulty w.faults)) [
      | inl fault ↦ rw (ahead, fault) (safe_canton_offset-not_ahead cfg n small)
      | inr good ↦ rw (ahead, good) (safe_canton_offset-not_ahead cfg n small)
    ]
    | inr fine ↦ rw fine fine
  ]

  -- Whatever offset was stored and whatever statements fail: when the ledger's end is known, as a number of 63
  -- bits, the stream starts at an offset that is not ahead of it; when it is not known, the stored offset is
  -- used as it is.
  pub validate-StartsAt :
      (stored : String) (w : World D)
      → IsSmall (c.get_latest_ledger_offset w.chains).0
      → StartsAt cfg stored
          (c.get_latest_ledger_offset w.chains).0
          (validate_stored_canton_offset c cfg stored w).1.canton_offset
  unfolding validate_stored_canton_offset client ◌>>=◌
  validate-StartsAt stored w small =
      validated-StartsAt stored (c.get_latest_ledger_offset w.chains).0 _ small

next_backoff :
    (b : ℕ) → second ≤ b → next_canton_processor_backoff b ≡ min (b * 2) restart_max_backoff
unfolding next_canton_processor_backoff
next_backoff b h = ground arith

one_le_pow : (n : ℕ) → 1 ≤ 2 ^ n
one_le_pow zero = omega arith
one_le_pow (suc n) = omega (arith, pow-suc 2 n, one_le_pow n)

-- The wait before the restart after n restarts is 2^n seconds, and never more than 30 seconds.
pub restart_backoff_lem : (n : ℕ) → restart_backoff n ≡ min (2 ^ n * second) restart_max_backoff
unfolding restart_backoff
restart_backoff_lem zero = refl
restart_backoff_lem (suc n) =
    rw
      (
        restart_backoff_lem n,
        next_backoff (min (2 ^ n * second) restart_max_backoff) (omega (arith, one_le_pow n)),
      )
      (omega (arith, pow-suc 2 n))
