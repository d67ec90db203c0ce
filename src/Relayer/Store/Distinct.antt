-- ===== src/Relayer/Store/Distinct.antt =====
-- The primary key of the transfers table: no two rows have the same id.
use canton_middleware.Prelude.{
  String, Bool, true, false, none, some, List, [], ◌∷◌, ◌++◌, ◌≡◌, ◌≢◌, refl, sym, ◌∙◌, arith,
  str_eq, if◌then◌else◌, All, Bool-cases, inl, inr, ◌&&◌, str_ne, String-cases, eq_refl,
}
use canton_middleware.Relayer.Types.{Transfer, TransferDirection, pending}
use canton_middleware.Relayer.Store.Rows.{find, update, pending_rows, same_direction, is_pending}

abbrev pub Apart : String → List Transfer → Type 0
Apart id = All (λ u. u.id ≢ id)

abbrev pub Distinct : List Transfer → Type 0
Distinct [] = Unit
Distinct (t ∷ ts) = Apart t.id ts × Distinct ts

-- A text that has no row differs from every id.
pub Apart-of_none : (id : String) (rows : List Transfer) → find id rows ≡ none → Apart id rows
unfolding find
Apart-of_none id [] h = tt
Apart-of_none id (r ∷ rows) h = elim (String-cases r.id id) [
  | inl same ↦ absurd (clash (rw same.1 at h))
  | inr differ ↦ (differ.0, Apart-of_none id rows (rw differ.1 at h))
]
  where
    clash : some r ≡ none → ⊥
    clash e = cc

Apart-append :
    (id : String) (rows : List Transfer) (t : Transfer)
    → t.id ≢ id
    → Apart id rows
    → Apart id (rows ++ t ∷ [])
Apart-append id [] t h a = (h, tt)
Apart-append id (r ∷ rows) t h a = (a.0, Apart-append id rows t h a.1)

-- An insertion under a new id keeps the ids distinct.
pub Distinct-append :
    (rows : List Transfer) (t : Transfer)
    → Apart t.id rows
    → Distinct rows
    → Distinct (rows ++ t ∷ [])
Distinct-append [] t a d = (tt, tt)
Distinct-append (r ∷ rows) t a d =
    (Apart-append r.id rows t (λ e. a.0 (sym e)) d.0, Distinct-append rows t a.1 d.1)

module _ (id : String) (f : Transfer → Transfer) (keep : (t : Transfer) → (f t).id ≡ t.id) where
  changed : Transfer → Transfer
  changed t = if str_eq t.id id then f t else t

  id-changed : (b : Bool) (t : Transfer) → (if b then f t else t).id ≡ t.id
  id-changed true t = keep t
  id-changed false t = refl

  Apart-update : (j : String) (rows : List Transfer) → Apart j rows → Apart j (update id f rows)
  unfolding update
  Apart-update j [] a = tt
  Apart-update j (r ∷ rows) a =
      (λ e. a.0 (sym (id-changed (str_eq r.id id) r) ∙ e), Apart-update j rows a.1)

  -- So does an update that keeps the ids.
  pub Distinct-update : (rows : List Transfer) → Distinct rows → Distinct (update id f rows)
  unfolding update
  Distinct-update [] d = tt
  Distinct-update (r ∷ rows) d =
      (rw (id-changed (str_eq r.id id) r) (Apart-update r.id rows d.0), Distinct-update rows d.1)

Apart-pending :
    (d : TransferDirection) (id : String) (rows : List Transfer)
    → Apart id rows
    → Apart id (pending_rows d rows)
unfolding pending_rows
Apart-pending d id [] a = tt
Apart-pending d id (r ∷ rows) a =
    elim (Bool-cases (same_direction r.direction d && is_pending r.status)) [
      | inl y ↦ rw y (a.0, Apart-pending d id rows a.1)
      | inr n ↦ rw n (Apart-pending d id rows a.1)
    ]

pub Distinct-pending :
    (d : TransferDirection) (rows : List Transfer) → Distinct rows → Distinct (pending_rows d rows)
unfolding pending_rows
Distinct-pending d [] h = tt
Distinct-pending d (r ∷ rows) h =
    elim (Bool-cases (same_direction r.direction d && is_pending r.status)) [
      | inl y ↦ rw y (Apart-pending d r.id rows h.0, Distinct-pending d rows h.1)
      | inr n ↦ rw n (Distinct-pending d rows h.1)
    ]

-- A transfer of a list is the row of its id, and is pending in the direction.
abbrev pub IsRow : TransferDirection → List Transfer → Transfer → Type 0
IsRow d rows t =
    (find t.id rows ≡ some t) × (t.status ≡ pending) × (same_direction t.direction d ≡ true)

IsRow-cons :
    (d : TransferDirection) (r : Transfer) (rows ts : List Transfer)
    → Apart r.id ts
    → All (IsRow d rows) ts
    → All (IsRow d (r ∷ rows)) ts
unfolding find
IsRow-cons d r rows [] a h = tt
IsRow-cons d r rows (t ∷ ts) a h =
    ((rw (str_ne r.id t.id (λ e. a.0 (sym e))) h.0.0, h.0.1, h.0.2), IsRow-cons d r rows ts a.1 h.1)

both :
    (d : TransferDirection) (t : Transfer)
    → (same_direction t.direction d && is_pending t.status) ≡ true
    → (t.status ≡ pending) × (same_direction t.direction d ≡ true)
both d t h = ground arith

-- What the query for pending transfers returns are rows of the table.
pub pending-IsRow :
    (d : TransferDirection) (rows : List Transfer)
    → Distinct rows
    → All (IsRow d rows) (pending_rows d rows)
unfolding pending_rows find
pending-IsRow d [] h = tt
pending-IsRow d (r ∷ rows) h =
    elim (Bool-cases (same_direction r.direction d && is_pending r.status)) [
      | inl y ↦ rw y (
        (rw (eq_refl r.id), (both d r y).0, (both d r y).1),
        IsRow-cons d r rows (pending_rows d rows) (Apart-pending d r.id rows h.0)
            (pending-IsRow d rows h.1),
      )
      | inr n ↦ rw n (
          IsRow-cons d r rows (pending_rows d rows) (Apart-pending d r.id rows h.0)
            (pending-IsRow d rows h.1))
    ]
