-- ===== src/Relayer/Engine/Synced.antt =====
-- Readiness in pkg/relayer/engine/engine.go.
use canton_middleware.Prelude.{
  ℕ, true, false, ◌≡◌, ◌↔◌, ◌⊎◌, inl, inr, refl, arith, Bool-cases, ◌≤◌, ◌<◌, ◌+◌,
}
use canton_middleware.Prelude.Text.{max_u64}
use canton_middleware.Exec.{Result, ok, err, ◌>>=◌}
use canton_middleware.Relayer.World.{World, Error, client}
use canton_middleware.Relayer.Clients.{Clients}
use canton_middleware.Relayer.Engine.Readiness.{
  check_ethereum_readiness, ethereum_at, later, is_near_head,
}

-- The head of the chain is known, and one of two blocks is at most one behind it.
abbrev pub IsNear : Result Error ℕ → ℕ → ℕ → Type 0
IsNear r processed scanned =
    (head : ℕ) × (r ≡ ok head) × ((head ≤ processed + 1) ⊎ (head ≤ scanned + 1))

is_near_head-later :
    (processed scanned head : ℕ)
    → processed < max_u64
    → scanned < max_u64
    → (is_near_head (later processed scanned) head ≡ true)
      ↔ ((head ≤ processed + 1) ⊎ (head ≤ scanned + 1))
is_near_head-later processed scanned head a b = ground arith

of_ok : (n m : ℕ) → ◌≡◌ {A = Result Error ℕ} (ok n) (ok m) → n ≡ m
of_ok n m h = cc

module _ {D : Type 0} (c : Clients D) where
  ethereum_at-synced :
      (r : Result Error ℕ) (w : World D)
      → w.eth_last_block < max_u64
      → c.get_last_scanned_block w.chains < max_u64
      → ((ethereum_at c r w).1.ethereum_synced ≡ true) ↔ (
          (w.ethereum_synced ≡ true)
          ⊎ IsNear r w.eth_last_block (c.get_last_scanned_block w.chains))
  ethereum_at-synced (err e) w a b = (λ h. inl h, back)
    where
      back :
          ((w.ethereum_synced ≡ true)
            ⊎ IsNear (err e) w.eth_last_block (c.get_last_scanned_block w.chains))
          → w.ethereum_synced ≡ true
      back (inl h) = h
      back (inr (head, same, near)) = absurd (cc)
  ethereum_at-synced (ok head) w a b = by_flag (Bool-cases w.ethereum_synced)
    where
      near :
          (is_near_head (later w.eth_last_block (c.get_last_scanned_block w.chains)) head ≡ true)
          ↔ ((head ≤ w.eth_last_block + 1) ⊎ (head ≤ c.get_last_scanned_block w.chains + 1))
      near = is_near_head-later w.eth_last_block (c.get_last_scanned_block w.chains) head a b

      back :
          w.ethereum_synced ≡ false
          → (w.ethereum_synced ≡ true)
            ⊎ IsNear (ok head) w.eth_last_block (c.get_last_scanned_block w.chains)
          → (ethereum_at c (ok head) w).1.ethereum_synced ≡ true
      back f (inl t) = absurd (cc)
      back f (inr (n, same, close)) = simp (f, near.1 (rw (of_ok head n same) close)) refl

      by_flag :
          (w.ethereum_synced ≡ true) ⊎ (w.ethereum_synced ≡ false)
          → ((ethereum_at c (ok head) w).1.ethereum_synced ≡ true) ↔ (
              (w.ethereum_synced ≡ true)
              ⊎ IsNear (ok head) w.eth_last_block (c.get_last_scanned_block w.chains))
      by_flag (inl t) = (λ h. inl t, λ h. simp (t) refl)
      by_flag (inr f) = (λ h. inr (head, refl, near.0 (ground (arith, f, h))), back f)

  -- While the block numbers are below the last of uint64: after a check, an engine is synced with Ethereum just if it
  -- was before, or the check learns the head of the chain and the last block that was processed or the last that was
  -- scanned is at most one behind it.
  pub check_ethereum_readiness-synced :
      (w : World D)
      → w.eth_last_block < max_u64
      → c.get_last_scanned_block (c.get_latest_block_number w.chains).1 < max_u64
      → ((check_ethereum_readiness c w).1.ethereum_synced ≡ true) ↔ (
          (w.ethereum_synced ≡ true)
          ⊎ IsNear
              (c.get_latest_block_number w.chains).0
              w.eth_last_block
              (c.get_last_scanned_block (c.get_latest_block_number w.chains).1))
  unfolding check_ethereum_readiness client ◌>>=◌
  check_ethereum_readiness-synced w a b =
      ethereum_at-synced (c.get_latest_block_number w.chains).0
        (record w { chains = (c.get_latest_block_number w.chains).1 }) a b
