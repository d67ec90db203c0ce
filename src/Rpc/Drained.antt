-- ===== src/Rpc/Drained.antt =====
-- How many ticks the miner (pkg/ethrpc/miner/miner.go) needs for the entries that have an outcome.
use canton_middleware.Prelude.{
  ℕ, zero, suc, true, none, List, [], ◌∷◌, ◌≡◌, refl, ap, inl, inr, Bool-cases, if◌then◌else◌, map,
  ◌*◌, ◌-◌, ◌≤◌, arith, length, false, sym, ◌∙◌, All,
}
use canton_middleware.Rpc.Types.{MempoolEntry, MempoolStatus, pending, completed, failed, mined}
use canton_middleware.Rpc.Ids.{Ascending, Ascending-map, Sound, claimed-Sound}
use canton_middleware.Rpc.Store.{
  Tables, Db, is_terminal, terminal_entries, has_id, mark_mined, limited, first_rows,
}
use canton_middleware.Rpc.Miner.{Miner, mine}
use canton_middleware.Rpc.Block.{claimed, mined_tables, sealed_if_any, next_block}
use canton_middleware.Rpc.Block.Fills.{mine-Mined, Mined}

abbrev unclaimed : List MempoolEntry → List MempoolEntry → ℕ
unclaimed es [] = 0
unclaimed es (e ∷ rows) = let rest = unclaimed es rows in if has_id e.id es then rest else suc rest

left_over :
    (es rows : List MempoolEntry)
    → length (terminal_entries (map (mark_mined es) rows)) ≡ unclaimed es (terminal_entries rows)
unfolding terminal_entries mark_mined
left_over es [] = refl
left_over es (e ∷ rows) = elim (Bool-cases (is_terminal e.status)) [
  | inl t ↦ elim (Bool-cases (has_id e.id es)) [
    | inl h ↦ simp (h, t) (left_over es rows)
    | inr h ↦ simp (h, t) (ap suc (left_over es rows))
  ]
  | inr t ↦ elim (Bool-cases (has_id e.id es)) [
    | inl h ↦ simp (h, t) (left_over es rows)
    | inr h ↦ simp (h, t) (left_over es rows)
  ]
]

-- The entries that are not among the first n are at most the rest.
unclaimed-first_rows :
    (n : ℕ) (es rows : List MempoolEntry)
    → ((id : ℕ) → has_id id (first_rows n rows) ≡ true → has_id id es ≡ true)
    → unclaimed es rows ≤ length rows - n
unclaimed-first_rows zero es [] h = omega arith
unclaimed-first_rows zero es (e ∷ rows) h = ground (arith, unclaimed-first_rows zero es rows h)
unclaimed-first_rows (suc n) es [] h = omega arith
unclaimed-first_rows (suc n) es (e ∷ rows) h =
    rw (h e.id (ground arith))
      (omega (arith, unclaimed-first_rows n es rows (λ id p. h id (ground arith))))

has_id-limited :
    (n id : ℕ) (rows : List MempoolEntry)
    → has_id id (first_rows n rows) ≡ true
    → has_id id (limited n rows) ≡ true
has_id-limited zero id rows h = ground arith
has_id-limited (suc n) id rows h = ground arith

terminal-mined_tables :
    (m : Miner) (time : ℕ) (t : Tables)
    → length (terminal_entries (mined_tables m time t).mempool)
      ≤ length (terminal_entries t.mempool) - m.max_txs_per_block
terminal-mined_tables m time t = go (claimed m.max_txs_per_block t) refl
  where
    bound :
        unclaimed (claimed m.max_txs_per_block t) (terminal_entries t.mempool)
        ≤ length (terminal_entries t.mempool) - m.max_txs_per_block
    bound =
        unclaimed-first_rows m.max_txs_per_block (claimed m.max_txs_per_block t)
          (terminal_entries t.mempool)
          (λ id h. has_id-limited m.max_txs_per_block id (terminal_entries t.mempool) h)

    unclaimed-nil : (rows : List MempoolEntry) → unclaimed [] rows ≡ length rows
    unclaimed-nil [] = refl
    unclaimed-nil (e ∷ rows) = ap suc (unclaimed-nil rows)

    go :
        (es : List MempoolEntry)
        → claimed m.max_txs_per_block t ≡ es
        → length (terminal_entries (sealed_if_any m (next_block m t) time es t).mempool)
          ≤ length (terminal_entries t.mempool) - m.max_txs_per_block
    go [] same =
        let at_nil : unclaimed [] (terminal_entries t.mempool)
            ≤ length (terminal_entries t.mempool) - m.max_txs_per_block =
          rw⁻¹ same bound in
        omega (arith, at_nil, unclaimed-nil (terminal_entries t.mempool))
    go (e ∷ es) same = rw (left_over (e ∷ es) t.mempool) (rw⁻¹ same bound)

-- The database after a number of ticks.
abbrev pub ticks_on : Miner → ℕ → Db → Db
ticks_on m zero s = s
ticks_on m (suc k) s = ticks_on m k (mine m s).1

tick-tables :
    (m : Miner) (s : Db)
    → s.faults ≡ []
    → Mined m s (mine m s)
    → (mine m s).1.tables ≡ mined_tables m s.clock s.tables
tick-tables m s steady (closed, keeps, inl ((broken, faulty), same)) = absurd (faulty steady)
tick-tables m s steady (closed, keeps, inr (done, after)) = after

nil_of : (rows : List MempoolEntry) → length rows ≤ 0 → rows ≡ []
nil_of [] h = refl
nil_of (e ∷ rows) h = absurd (omega arith)

-- An entry that has an outcome, as it is once it is mined; any other as it is.
abbrev pub finished : MempoolEntry → MempoolEntry
finished e = at_status e.status
  where
    at_status : MempoolStatus → MempoolEntry
    at_status completed = record e { status = mined }
    at_status failed = record e { status = mined }
    at_status pending = e
    at_status mined = e

finished_terminal :
    (e : MempoolEntry) → is_terminal e.status ≡ true → finished e ≡ record e { status = mined }
finished_terminal e t = ground (arith, t)

finished_other : (e : MempoolEntry) → is_terminal e.status ≡ false → finished e ≡ e
finished_other e t = ground (arith, t)

finished-mark_mined :
    (es : List MempoolEntry) (e : MempoolEntry)
    → Sound es e
    → finished (mark_mined es e) ≡ finished e
unfolding mark_mined
finished-mark_mined es e sound = elim (Bool-cases (has_id e.id es)) [
  | inl h ↦ rw h (sym (finished_terminal e (sound h)))
  | inr h ↦ rw h refl
]

map-finished-mark_mined :
    (es rows : List MempoolEntry)
    → All (Sound es) rows
    → map finished (map (mark_mined es) rows) ≡ map finished rows
map-finished-mark_mined es [] sound = refl
map-finished-mark_mined es (e ∷ rows) sound =
    rw (finished-mark_mined es e sound.0, map-finished-mark_mined es rows sound.1) refl

-- A tick mines only entries that have an outcome, and keeps the ids.
finished-mined_tables :
    (m : Miner) (time : ℕ) (t : Tables)
    → Ascending 0 t.mempool t.next_id
    → (map finished (mined_tables m time t).mempool ≡ map finished t.mempool)
      × Ascending 0 (mined_tables m time t).mempool (mined_tables m time t).next_id
unfolding mark_mined
finished-mined_tables m time t a = go (claimed m.max_txs_per_block t) refl
  where
    keeps_id : (es : List MempoolEntry) (e : MempoolEntry) → (mark_mined es e).id ≡ e.id
    keeps_id es e = ground arith

    go :
        (es : List MempoolEntry)
        → claimed m.max_txs_per_block t ≡ es
        → (map finished (sealed_if_any m (next_block m t) time es t).mempool
            ≡ map finished t.mempool)
          × Ascending 0
              (sealed_if_any m (next_block m t) time es t).mempool
              (sealed_if_any m (next_block m t) time es t).next_id
    go [] same = (refl, a)
    go (e ∷ es) same = (
      map-finished-mark_mined (e ∷ es) t.mempool
          (rw⁻¹ same (claimed-Sound m.max_txs_per_block 0 t.next_id t.mempool a)),
      Ascending-map (mark_mined (e ∷ es)) 0 t.next_id t.mempool (keeps_id (e ∷ es)) a,
    )

finished_all : (rows : List MempoolEntry) → terminal_entries rows ≡ [] → rows ≡ map finished rows
unfolding terminal_entries
finished_all [] h = refl
finished_all (e ∷ rows) h = elim (Bool-cases (is_terminal e.status)) [
  | inl t ↦ absurd (ground (arith, t, h))
  | inr t ↦ rw (finished_other e t) (ap (λ l. e ∷ l) (finished_all rows (ground (arith, t, h))))
]

-- If no statement fails, no transaction is open and the ids ascend: once the ticks of the miner, times the limit of
-- entries in a block, come to the number of entries that have an outcome, every one of them has the status mined,
-- with nothing else of it changed, and every other entry is as it was.
pub ticks-drain :
    (m : Miner) (k : ℕ) (s : Db)
    → s.before ≡ none
    → s.faults ≡ []
    → Ascending 0 s.tables.mempool s.tables.next_id
    → length (terminal_entries s.tables.mempool) ≤ k * m.max_txs_per_block
    → (ticks_on m k s).tables.mempool ≡ map finished s.tables.mempool
ticks-drain m zero s closed steady a h =
    finished_all s.tables.mempool (nil_of (terminal_entries s.tables.mempool) (omega arith))
ticks-drain m (suc k) s closed steady a h =
    let tick = mine-Mined m s closed in
    let after = tick-tables m s steady tick in
    let (same, ascends) = finished-mined_tables m s.clock s.tables a in
    ticks-drain m k (mine m s).1 tick.0 (tick.1 steady) (rw after ascends)
      (rw after (omega (arith, terminal-mined_tables m s.clock s.tables)))
    ∙ ap (λ (t : Tables). map finished t.mempool) after
    ∙ same
