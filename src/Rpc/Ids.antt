-- ===== src/Rpc/Ids.antt =====
-- The ids of the mempool's rows (pkg/ethrpc/store/pg.go): they ascend, so that the rows that a block marks by their ids
-- are the ones that it claimed.
use canton_middleware.Prelude.{
  ℕ, zero, suc, Bool, true, false, List, [], ◌∷◌, ◌++◌, ◌≡◌, refl, Bool-cases, inl, inr,
  if◌then◌else◌, map, ◌+◌, ◌≤◌, arith, All,
}
use canton_middleware.Rpc.Types.{MempoolEntry}
use canton_middleware.Rpc.Store.{is_terminal, terminal_entries, has_id, limited, first_rows}

-- From `low` on, and below `next`.
abbrev pub Ascending : ℕ → List MempoolEntry → ℕ → Type 0
Ascending low [] next = low ≤ next
Ascending low (e ∷ rows) next = (low ≤ e.id) × Ascending (suc e.id) rows next

pub Ascending-append :
    (low next : ℕ) (rows : List MempoolEntry) (e : MempoolEntry)
    → e.id ≡ next
    → Ascending low rows next
    → Ascending low (rows ++ e ∷ []) (next + 1)
Ascending-append low next [] e h a = (omega arith, omega arith)
Ascending-append low next (r ∷ rows) e h a = (a.0, Ascending-append (suc r.id) next rows e h a.1)

pub Ascending-next :
    (low next : ℕ) (rows : List MempoolEntry)
    → Ascending low rows next
    → Ascending low rows (next + 1)
Ascending-next low next [] a = omega arith
Ascending-next low next (r ∷ rows) a = (a.0, Ascending-next (suc r.id) next rows a.1)

pub Ascending-map :
    (f : MempoolEntry → MempoolEntry) (low next : ℕ) (rows : List MempoolEntry)
    → ((e : MempoolEntry) → (f e).id ≡ e.id)
    → Ascending low rows next
    → Ascending low (map f rows) next
Ascending-map f low next [] h a = a
Ascending-map f low next (r ∷ rows) h a = rw (h r) (a.0, Ascending-map f (suc r.id) next rows h a.1)

has_id-first_rows :
    (n id : ℕ) (rows : List MempoolEntry)
    → has_id id (first_rows n rows) ≡ true
    → has_id id rows ≡ true
has_id-first_rows zero id rows h = ground arith
has_id-first_rows (suc n) id [] h = h
has_id-first_rows (suc n) id (e ∷ rows) h = ground (arith, has_id-first_rows n id rows)

has_id-limited :
    (n id : ℕ) (rows : List MempoolEntry)
    → has_id id (limited n rows) ≡ true
    → has_id id rows ≡ true
has_id-limited n id rows h = ground (arith, has_id-first_rows n id rows)

has_id-terminal_entries :
    (low next id : ℕ) (rows : List MempoolEntry)
    → Ascending low rows next
    → has_id id (terminal_entries rows) ≡ true
    → low ≤ id
unfolding terminal_entries
has_id-terminal_entries low next id [] a h = ground arith
has_id-terminal_entries low next id (e ∷ rows) a h = elim (Bool-cases (is_terminal e.status)) [
  | inl t ↦ ground (arith, has_id-terminal_entries (suc e.id) next id rows a.1, t, a.0)
  | inr t ↦ ground (arith, has_id-terminal_entries (suc e.id) next id rows a.1, t, a.0)
]

-- A row whose id is that of an entry that is claimed is one that has an outcome.
abbrev pub Sound : List MempoolEntry → MempoolEntry → Type 0
Sound es e = has_id e.id es ≡ true → is_terminal e.status ≡ true

weaken :
    (low id next : ℕ) (e : MempoolEntry) (es rows : List MempoolEntry)
    → low ≤ id
    → e.id ≡ id
    → Ascending (suc id) rows next
    → All (Sound es) rows
    → All (Sound (e ∷ es)) rows
weaken low id next e es [] below same a h = tt
weaken low id next e es (r ∷ rows) below same a h = (
  (λ p. h.0 (ground (arith, a.0, same, p))),
  weaken low id next e es rows below same (raise r.id rows a.0 a.1) h.1,
)
  where
    raise :
        (k : ℕ) (rows : List MempoolEntry)
        → suc id ≤ k
        → Ascending (suc k) rows next
        → Ascending (suc id) rows next
    raise k [] h a = omega arith
    raise k (r ∷ rows) h a = (omega (arith, a.0), a.1)

All-Sound :
    (low next : ℕ) (rows : List MempoolEntry)
    → Ascending low rows next
    → All (Sound (terminal_entries rows)) rows
unfolding terminal_entries
All-Sound low next [] a = tt
All-Sound low next (e ∷ rows) a =
    go (is_terminal e.status) refl (All-Sound (suc e.id) next rows a.1)
  where
    go :
        (b : Bool)
        → is_terminal e.status ≡ b
        → All (Sound (terminal_entries rows)) rows
        → All (Sound (if b then e ∷ terminal_entries rows else terminal_entries rows)) (e ∷ rows)
    go true t h = ((λ p. t), weaken low e.id next e (terminal_entries rows) rows a.0 refl a.1 h)
    go false t h = (
      (λ p. absurd (ground (arith, has_id-terminal_entries (suc e.id) next e.id rows a.1, p))),
      h,
    )

All-limited :
    (n : ℕ) (es rows : List MempoolEntry) → All (Sound es) rows → All (Sound (limited n es)) rows
All-limited n es [] h = tt
All-limited n es (e ∷ rows) h = ((λ p. h.0 (has_id-limited n e.id es p)), All-limited n es rows h.1)

pub claimed-Sound :
    (n low next : ℕ) (rows : List MempoolEntry)
    → Ascending low rows next
    → All (Sound (limited n (terminal_entries rows))) rows
claimed-Sound n low next rows a =
    All-limited n (terminal_entries rows) rows (All-Sound low next rows a)
