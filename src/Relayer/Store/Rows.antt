-- ===== src/Relayer/Store/Rows.antt =====
-- The statements of pkg/relayer/store/pg.go on the rows of its two tables, and their laws.
use canton_middleware.Prelude.{
  String, Bool, true, false, Option, none, some, List, [], ◌∷◌, ◌++◌, str_eq, if◌then◌else◌, ◌≡◌,
  refl, ◌∙◌, arith, eq_iff, eq_refl, ◌&&◌,
}
use canton_middleware.Relayer.Types.{
  Transfer, ChainState, TransferStatus, pending, TransferDirection, canton_to_ethereum,
  ethereum_to_canton,
}

-- SELECT … WHERE id = … LIMIT 1.
unfoldable pub find : String → List Transfer → Option Transfer
find id [] = none
find id (t ∷ rows) = if str_eq t.id id then some t else find id rows

-- UPDATE … WHERE id = …
unfoldable pub update : String → (Transfer → Transfer) → List Transfer → List Transfer
update id f [] = []
update id f (t ∷ rows) = (if str_eq t.id id then f t else t) ∷ update id f rows

abbrev pub is_pending : TransferStatus → Bool
is_pending pending = true
is_pending _ = false

abbrev pub same_direction : TransferDirection → TransferDirection → Bool
same_direction canton_to_ethereum canton_to_ethereum = true
same_direction ethereum_to_canton ethereum_to_canton = true
same_direction _ _ = false

-- SELECT … WHERE direction = … AND status = 'pending' ORDER BY created_at.
unfoldable pub pending_rows : TransferDirection → List Transfer → List Transfer
pending_rows d [] = []
pending_rows d (t ∷ rows) =
    let rest = pending_rows d rows in
    if same_direction t.direction d && is_pending t.status then t ∷ rest else rest

unfoldable pub find_state : String → List ChainState → Option ChainState
find_state id [] = none
find_state id (c ∷ rows) = if str_eq c.chain_id id then some c else find_state id rows

unfoldable pub set_state : ChainState → List ChainState → List ChainState
set_state c [] = c ∷ []
set_state c (d ∷ rows) = if str_eq d.chain_id c.chain_id then c ∷ rows else d ∷ set_state c rows

abbrev pub or_else {ℓ} : {A : Type ℓ} → Option A → Option A → Option A
or_else none b = b
or_else (some a) b = some a

pub find-append :
    (id : String) (rows : List Transfer) (t : Transfer)
    → find id (rows ++ t ∷ []) ≡ or_else (find id rows) (if str_eq t.id id then some t else none)
unfolding find
find-append id [] t = refl
find-append id (r ∷ rows) t = ground (arith, find-append id rows t)

abbrev pub map_option {ℓ κ} : {A : Type ℓ} {B : Type κ} → (A → B) → Option A → Option B
map_option f none = none
map_option f (some a) = some (f a)

-- An update that keeps the id changes the row of that id and no other.
pub find-update :
    (id j : String) (f : Transfer → Transfer) (rows : List Transfer)
    → ((t : Transfer) → (f t).id ≡ t.id)
    → find j (update id f rows) ≡ (if str_eq id j then map_option f (find j rows) else find j rows)
unfolding find update
find-update id j f [] keep = ground arith
find-update id j f (r ∷ rows) keep = ground (
  arith,
  find-update id j f rows keep,
  keep r,
  eq_iff id j,
  eq_iff r.id id,
  eq_iff r.id j,
  eq_iff (f r).id j,
)

pub find_state-set_state :
    (c : ChainState) (j : String) (rows : List ChainState)
    → find_state j (set_state c rows) ≡ (if str_eq c.chain_id j then some c else find_state j rows)
unfolding find_state set_state
find_state-set_state c j [] = refl
find_state-set_state c j (d ∷ rows) = ground (
  arith,
  find_state-set_state c j rows,
  eq_iff d.chain_id c.chain_id,
  eq_iff d.chain_id j,
  eq_iff c.chain_id j,
)

pub find_state-set_state_self :
    (c : ChainState) (rows : List ChainState) → find_state c.chain_id (set_state c rows) ≡ some c
find_state-set_state_self c rows = find_state-set_state c c.chain_id rows ∙ rw (eq_refl c.chain_id)

pub find_id :
    (id : String) (rows : List Transfer) {t : Transfer} → find id rows ≡ some t → t.id ≡ id
unfolding find
find_id id [] h = ground arith
find_id id (r ∷ rows) {t} h = ground (arith, find_id id rows {t = t}, eq_iff r.id id)
