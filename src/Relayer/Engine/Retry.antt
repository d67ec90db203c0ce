-- ===== src/Relayer/Engine/Retry.antt =====
-- What the retry of a stuck transfer (`maybeRetryTransfer` in pkg/relayer/engine/engine.go) does to the rows.
use canton_middleware.Prelude.{
  ℕ, String, Bool, true, false, Option, none, some, List, [], ◌∷◌, ◌≡◌, ◌≢◌, refl, sym, ◌∙◌, ap,
  inl, inr, arith, Bool-cases, String-cases, ◌&&◌, ◌⊎◌, ◌≤◌, ◌<◌, ltb, leb, ◌+◌, All, str_ne,
  eq_refl,
}
use mathlib.Core.Path.{subst}
use canton_middleware.Exec.{Result, ok, err, ignore, ◌>>=◌}
use canton_middleware.Relayer.Types.{
  Transfer, TransferStatus, pending, completed, failed, TransferDirection,
}
use canton_middleware.Relayer.World.{World, client, Error}
use canton_middleware.Relayer.Clients.{Clients}
use canton_middleware.Relayer.Destination.{submit_transfer}
use canton_middleware.Relayer.Store.{with_status, with_retry}
use canton_middleware.Relayer.Store.Rows.{find, update, find-update}
use canton_middleware.Relayer.Store.Effects.{
  update_transfer_status-rows, increment_retry_count-rows,
}
use canton_middleware.Relayer.Store.Distinct.{Distinct, Apart, Distinct-update, IsRow}
use canton_middleware.Relayer.Engine.{
  retry_stuck_transfer, maybe_retry_transfer, retries_exceeded, retried, retry_all,
  event_of_transfer,
}

-- The rows after a transfer was looked at: as they were, with its status set, or with one more retry
-- counted, if the limit allowed it.
pub data Change (limit : ℕ) (t : Transfer) (rows rows' : List Transfer) : Type 0 where
  same : rows' ≡ rows → Change limit t rows rows'
  settled :
      (status : TransferStatus) (hash msg : Option String) (time : ℕ)
      → rows' ≡ update t.id (with_status status hash msg time) rows
      → Change limit t rows rows'
  retried_at :
      (time : ℕ)
      → (0 < limit → t.retry_count < limit)
      → rows' ≡ update t.id (with_retry time) rows
      → Change limit t rows rows'

module _ {D : Type 0} (c : Clients D) (direction : TransferDirection) (limit delay : ℕ)
    (t : Transfer) where
  of_status :
      {rows rows' : List Transfer} (status : TransferStatus) (hash msg : Option String) (time : ℕ)
      → (rows' ≡ rows) ⊎ (rows' ≡ update t.id (with_status status hash msg time) rows)
      → Change limit t rows rows'
  of_status status hash msg time (inl e) = same e
  of_status status hash msg time (inr e) = settled status hash msg time e

  of_retry :
      {rows rows' : List Transfer} (time : ℕ)
      → (0 < limit → t.retry_count < limit)
      → (rows' ≡ rows) ⊎ (rows' ≡ update t.id (with_retry time) rows)
      → Change limit t rows rows'
  of_retry time h (inl e) = same e
  of_retry time h (inr e) = retried_at time h e

  retried-Change :
      (result : Result Error (String × Bool)) (w : World D)
      → (0 < limit → t.retry_count < limit)
      → Change limit t w.transfers (retried c t result w).1.transfers
  unfolding ignore
  retried-Change (err e) w h = of_retry w.clock h (increment_retry_count-rows t.id w)
  retried-Change (ok (hash, true)) w h =
      of_status completed none none w.clock (update_transfer_status-rows t.id completed none none w)
  retried-Change (ok (hash, false)) w h =
      of_status completed (some hash) none w.clock
        (update_transfer_status-rows t.id completed (some hash) none w)

  below_limit : (ltb 0 limit && leb limit t.retry_count) ≡ false → 0 < limit → t.retry_count < limit
  below_limit h p = ground arith

  pub maybe_retry_transfer-Change :
      (w : World D)
      → Change limit t w.transfers (maybe_retry_transfer c direction limit delay t w).1.transfers
  unfolding maybe_retry_transfer retry_stuck_transfer client ignore ◌>>=◌
  maybe_retry_transfer-Change w = elim (Bool-cases (ltb 0 limit && leb limit t.retry_count)) [
    | inl over ↦ rw over (
        of_status failed none (some (retries_exceeded limit)) w.clock
          (update_transfer_status-rows t.id failed none (some (retries_exceeded limit)) w))
    | inr under ↦ elim (Bool-cases (ltb w.clock (t.updated_at + delay))) [
      | inl early ↦ rw (under, early) (same refl)
      | inr due ↦
          rw (under, due)
            (retried-Change (submit_transfer c direction (event_of_transfer t) w.chains).0 _
              (below_limit under))
    ]
  ]

some_eq : (a b : Transfer) → some a ≡ some b → a ≡ b
some_eq a b e = cc

-- No row counts more retries than the limit.
abbrev pub Bounded : ℕ → List Transfer → Type 0
Bounded limit rows = (id : String) (t : Transfer) → find id rows ≡ some t → t.retry_count ≤ limit

Bounded-update :
    (limit : ℕ) (u : Transfer) (f : Transfer → Transfer) (rows : List Transfer)
    → ((t : Transfer) → (f t).id ≡ t.id)
    → find u.id rows ≡ some u
    → (f u).retry_count ≤ limit
    → Bounded limit rows
    → Bounded limit (update u.id f rows)
Bounded-update limit u f rows keep row fits h id t found = elim (String-cases u.id id) [
  | inl same_id ↦ fits_of (sym row_after ∙ ap (λ k. find k (update u.id f rows)) same_id.0 ∙ found)
  | inr other ↦ h id t (sym (find-update u.id id f rows keep ∙ rw other.1) ∙ found)
]
  where
    row_after : find u.id (update u.id f rows) ≡ some (f u)
    row_after = find-update u.id u.id f rows keep ∙ rw (eq_refl u.id, row)

    fits_of : some (f u) ≡ some t → t.retry_count ≤ limit
    fits_of e = subst (λ (x : Transfer). x.retry_count ≤ limit) (some_eq (f u) t e) fits

module _ (limit : ℕ) (positive : 0 < limit) (t : Transfer) (rows rows' : List Transfer)
    (row : find t.id rows ≡ some t) where
  pub Change-Bounded : Change limit t rows rows' → Bounded limit rows → Bounded limit rows'
  unfolding with_status with_retry
  Change-Bounded (same e) h = rw e h
  Change-Bounded (settled status hash msg time e) h = rw e (
      Bounded-update limit t (with_status status hash msg time) rows (λ u. refl) row (h t.id t row)
        h)
  Change-Bounded (retried_at time small e) h = rw e (
      Bounded-update limit t (with_retry time) rows (λ u. refl) row (omega (arith, small positive))
        h)

module _ (limit : ℕ) (t : Transfer) (rows rows' : List Transfer) where
  pub Change-Distinct : Change limit t rows rows' → Distinct rows → Distinct rows'
  unfolding with_status with_retry
  Change-Distinct (same e) h = rw e h
  Change-Distinct (settled status hash msg time e) h =
      rw e (Distinct-update t.id (with_status status hash msg time) (λ u. refl) rows h)
  Change-Distinct (retried_at time small e) h =
      rw e (Distinct-update t.id (with_retry time) (λ u. refl) rows h)

  -- The rows of the other ids stay.
  pub Change-other :
      Change limit t rows rows' → (id : String) → t.id ≢ id → find id rows' ≡ find id rows
  unfolding with_status with_retry
  Change-other (same e) id differ = rw e
  Change-other (settled status hash msg time e) id differ = rw e (
      find-update t.id id (with_status status hash msg time) rows (λ u. refl)
      ∙ rw (str_ne t.id id differ))
  Change-other (retried_at time small e) id differ =
      rw e (find-update t.id id (with_retry time) rows (λ u. refl) ∙ rw (str_ne t.id id differ))

module _ {D : Type 0} (c : Clients D) (direction : TransferDirection) (limit delay : ℕ) where
  abbrev step : Transfer → World D → World D
  step t w = (maybe_retry_transfer c direction limit delay t w).1

  -- The transfers that are still to be looked at are the rows that they were.
  IsRow-after :
      (d : TransferDirection) (t : Transfer) (ts : List Transfer) (w : World D)
      → Apart t.id ts
      → All (IsRow d w.transfers) ts
      → All (IsRow d (step t w).transfers) ts
  IsRow-after d t [] w apart h = tt
  IsRow-after d t (u ∷ us) w apart h = (
    (
      Change-other limit t w.transfers _ (maybe_retry_transfer-Change c direction limit delay t w)
            u.id (λ e. apart.0 (sym e))
          ∙ h.0.0,
      h.0.1,
      h.0.2,
    ),
    IsRow-after d t us w apart.1 h.1,
  )

  pub retry_all-Bounded :
      (ts : List Transfer) (w : World D)
      → 0 < limit
      → Distinct ts
      → All (IsRow direction w.transfers) ts
      → Bounded limit w.transfers
      → Bounded limit (retry_all c direction limit delay ts w).1.transfers
  unfolding retry_all
  retry_all-Bounded [] w p d rows h = h
  retry_all-Bounded (t ∷ ts) w p d rows h =
      retry_all-Bounded ts (step t w) p d.1 (IsRow-after direction t ts w d.0 rows.1) (
        Change-Bounded limit p t w.transfers _ rows.0.0
          (maybe_retry_transfer-Change c direction limit delay t w) h)

  pub retry_all-Distinct :
      (ts : List Transfer) (w : World D)
      → Distinct w.transfers
      → Distinct (retry_all c direction limit delay ts w).1.transfers
  unfolding retry_all
  retry_all-Distinct [] w h = h
  retry_all-Distinct (t ∷ ts) w h = retry_all-Distinct ts (step t w) (
      Change-Distinct limit t w.transfers _
        (maybe_retry_transfer-Change c direction limit delay t w) h)

  -- A row that none of the transfers is stays.
  pub retry_all-other :
      (ts : List Transfer) (w : World D) (id : String)
      → Apart id ts
      → find id (retry_all c direction limit delay ts w).1.transfers ≡ find id w.transfers
  unfolding retry_all
  retry_all-other [] w id a = refl
  retry_all-other (t ∷ ts) w id a =
      retry_all-other ts (step t w) id a.1
      ∙ Change-other limit t w.transfers _ (maybe_retry_transfer-Change c direction limit delay t w)
          id a.0

-- No transfer of a list of pending ones has the id of a row that is not pending.
pub Apart-settled :
    (d : TransferDirection) (rows ts : List Transfer) (id : String) (r : Transfer)
    → find id rows ≡ some r
    → r.status ≢ pending
    → All (IsRow d rows) ts
    → Apart id ts
Apart-settled d rows [] id r found done h = tt
Apart-settled d rows (t ∷ ts) id r found done h = (
  (λ e. done (same_status (sym found ∙ ap (λ k. find k rows) (sym e) ∙ h.0.0))),
  Apart-settled d rows ts id r found done h.1,
)
  where
    same_status : some r ≡ some t → r.status ≡ pending
    same_status e = ap (λ (x : Transfer). x.status) (some_eq r t e) ∙ h.0.1
