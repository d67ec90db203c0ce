-- ===== src/Rpc/Lifecycle.antt =====
-- The life of a row of the mempool: pending, then completed or failed, then mined. The steps are those of the JSON-RPC
-- service, the submitter and the miner (pkg/ethrpc), with any statement failing.
use canton_middleware.Prelude.{
  ℕ, String, Bool, true, false, none, List, [], ◌∷◌, ◌++◌, ◌≡◌, refl, if◌then◌else◌, map, ◌&&◌,
  str_eq, All,
}
use canton_middleware.Rpc.Types.{MempoolStatus, pending, completed, failed, mined, MempoolEntry}
use canton_middleware.Rpc.Store.{
  Db, insert_mempool_entry, is_pending, is_terminal, settle, complete, complete_mempool_entry,
  fail_mempool_entry, has_id, mark_mined,
}
use canton_middleware.Rpc.Ids.{Ascending, Sound}
use canton_middleware.Rpc.Miner.{Miner, mine}

-- The transitions of the state machine, and what a status may come to.
infix 20 ◌steps_to◌ ◌leads_to◌ ◌becomes◌
pub data ◌steps_to◌ : MempoolStatus → MempoolStatus → Type 0 where
  completes : pending steps_to completed
  fails : pending steps_to failed
  mines_completed : completed steps_to mined
  mines_failed : failed steps_to mined

pub data ◌leads_to◌ : MempoolStatus → MempoolStatus → Type 0 where
  stays : (x : MempoolStatus) → x leads_to x
  goes_on : (x y z : MempoolStatus) → x steps_to y → y leads_to z → x leads_to z

leads_to_trans : (x y z : MempoolStatus) → x leads_to y → y leads_to z → x leads_to z
leads_to_trans x y z (stays _) q = q
leads_to_trans x y z (goes_on _ w _ s p) q = goes_on x w z s (leads_to_trans w y z p q)

-- A later version of a row: nothing else of it changes.
abbrev pub Later : MempoolEntry → MempoolEntry → Type 0
Later e e' =
    (e.status leads_to e'.status)
    × (e' ≡ record e { status = e'.status; error_message = e'.error_message })

-- The old rows stand in front of the new table, in later versions.
abbrev pub Grows : List MempoolEntry → List MempoolEntry → Type 0
Grows [] new = Unit
Grows (e ∷ old) [] = ⊥
Grows (e ∷ old) (e' ∷ new) = Later e e' × Grows old new

Later-refl : (e : MempoolEntry) → Later e e
Later-refl e = (stays e.status, refl)

Later-trans : (a b c : MempoolEntry) → Later a b → Later b c → Later a c
Later-trans a b c p q = (leads_to_trans a.status b.status c.status p.0 q.0, cc)

pub Grows-trans : (a b c : List MempoolEntry) → Grows a b → Grows b c → Grows a c
Grows-trans [] b c p q = tt
Grows-trans (x ∷ a) [] c p q = absurd p
Grows-trans (x ∷ a) (y ∷ b) [] p q = absurd q
Grows-trans (x ∷ a) (y ∷ b) (z ∷ c) p q = (Later-trans x y z p.0 q.0, Grows-trans a b c p.1 q.1)

pub Grows-append : (rows more : List MempoolEntry) → Grows rows (rows ++ more)
Grows-append [] more = tt
Grows-append (e ∷ rows) more = (Later-refl e, Grows-append rows more)

pub Grows-refl : (rows : List MempoolEntry) → Grows rows rows
Grows-refl [] = tt
Grows-refl (e ∷ rows) = (Later-refl e, Grows-refl rows)

pub Grows-map :
    (f : MempoolEntry → MempoolEntry) (rows : List MempoolEntry)
    → All (λ e. Later e (f e)) rows
    → Grows rows (map f rows)
Grows-map f [] h = tt
Grows-map f (e ∷ rows) h = (h.0, Grows-map f rows h.1)

updated-Later :
    (c : Bool) (e e' : MempoolEntry) → (c ≡ true → Later e e') → Later e (if c then e' else e)
updated-Later true e e' h = h refl
updated-Later false e e' h = Later-refl e

pending_of : (x : MempoolStatus) → is_pending x ≡ true → x ≡ pending
pending_of pending h = refl
pending_of completed h = absurd (cc)
pending_of failed h = absurd (cc)
pending_of mined h = absurd (cc)

terminal_steps : (x : MempoolStatus) → is_terminal x ≡ true → x steps_to mined
terminal_steps pending h = absurd (cc)
terminal_steps completed h = mines_completed
terminal_steps failed h = mines_failed
terminal_steps mined h = absurd (cc)

from_pending :
    (x y : MempoolStatus) (b : Bool)
    → (b && is_pending x) ≡ true
    → pending steps_to y
    → x leads_to y
from_pending x y true h step = goes_on x y y (rw (pending_of x h) step) (stays y)
from_pending x y false h step = absurd (cc)

pub settle-Later :
    (hash message : String) (e : MempoolEntry) → Later e (settle hash failed message e)
unfolding settle
settle-Later hash message e =
    updated-Later (str_eq e.tx_hash hash && is_pending e.status) e
      (record e { status = failed; error_message = message })
      (λ h. (from_pending e.status failed (str_eq e.tx_hash hash) h fails, refl))

pub complete-Later : (hash : String) (e : MempoolEntry) → Later e (complete hash e)
unfolding complete
complete-Later hash e =
    updated-Later (str_eq e.tx_hash hash && is_pending e.status) e (record e { status = completed })
      (λ h. (from_pending e.status completed (str_eq e.tx_hash hash) h completes, refl))

mark_mined-Later :
    (es : List MempoolEntry) (e : MempoolEntry) → Sound es e → Later e (mark_mined es e)
unfolding mark_mined
mark_mined-Later es e sound =
    updated-Later (has_id e.id es) e (record e { status = mined })
      (λ h. (goes_on e.status mined mined (terminal_steps e.status (sound h)) (stays mined), refl))

pub All-Later :
    (f : MempoolEntry → MempoolEntry) (rows : List MempoolEntry)
    → ((e : MempoolEntry) → Later e (f e))
    → All (λ e. Later e (f e)) rows
All-Later f [] h = tt
All-Later f (e ∷ rows) h = (h e, All-Later f rows h)

pub mark_mined-All :
    (es rows : List MempoolEntry) → All (Sound es) rows → All (λ e. Later e (mark_mined es e)) rows
mark_mined-All es [] h = tt
mark_mined-All es (e ∷ rows) h = (mark_mined-Later es e h.0, mark_mined-All es rows h.1)

-- No transaction is open, and the ids ascend.
abbrev pub Invariant : Db → Type 0
Invariant s = (s.before ≡ none) × Ascending 0 s.tables.mempool s.tables.next_id

-- What the three parts do to the database, and what passes by itself.
pub data ◌becomes◌ : Db → Db → Type 0 where
  inserts : (e : MempoolEntry) (s : Db) → s becomes (insert_mempool_entry e s).1
  is_completed : (hash : String) (s : Db) → s becomes (complete_mempool_entry hash s).1
  is_failed : (hash message : String) (s : Db) → s becomes (fail_mempool_entry hash message s).1
  ticks : (m : Miner) (s : Db) → s becomes (mine m s).1
  waits :
      (clock : ℕ) (faults : List Bool) (s : Db)
      → s becomes record s { clock = clock; faults = faults }

pub data Reach : Db → Db → Type 0 where
  here : (s : Db) → Reach s s
  then_on : (s s' s'' : Db) → s becomes s' → Reach s' s'' → Reach s s''
