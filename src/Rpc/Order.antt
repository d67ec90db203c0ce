-- ===== src/Rpc/Order.antt =====
-- The writes with which the goroutines of a drain end (`completeEntry` and `failEntry` in
-- pkg/ethrpc/submitter/submitter.go), in the orders in which they may come.
use canton_middleware.Prelude.{
  String, Bool, true, false, List, [], ◌∷◌, ◌≡◌, ◌≢◌, refl, sym, ◌∙◌, ap, inl, inr, Bool-cases,
  if◌then◌else◌, map, ◌&&◌, str_eq, eq_iff, str_ne, All,
}
use canton_middleware.Exec.{Result}
use canton_middleware.Rpc.Types.{MempoolEntry, completed, failed}
use canton_middleware.Rpc.Store.{
  Tables, Db, Error, settle, complete, is_pending, complete_mempool_entry, fail_mempool_entry,
}
use canton_middleware.Rpc.Runs.{Ran, execute-Runs}

-- The hash of the entry, and the message if its transfer failed.
pub data Write : Type 0 where
  completion : String → Write
  failure : String → String → Write

abbrev pub hash_of : Write → String
hash_of (completion hash) = hash
hash_of (failure hash message) = hash

abbrev pub settled_by : Write → MempoolEntry → MempoolEntry
settled_by (completion hash) = complete hash
settled_by (failure hash message) = settle hash failed message

unfoldable pub run_write : Write → Db → Db
run_write (completion hash) s = (complete_mempool_entry hash s).1
run_write (failure hash message) s = (fail_mempool_entry hash message s).1

abbrev pub run_writes : List Write → Db → Db
run_writes [] s = s
run_writes (w ∷ ws) s = run_writes ws (run_write w s)

-- The orders that swaps of neighbours lead to.
pub data Shuffle : List Write → List Write → Type 0 where
  as_it_is : (ws : List Write) → Shuffle ws ws
  behind : (w : Write) (ws vs : List Write) → Shuffle ws vs → Shuffle (w ∷ ws) (w ∷ vs)
  swapped : (w v : Write) (ws : List Write) → Shuffle (w ∷ v ∷ ws) (v ∷ w ∷ ws)
  and_then : (us vs ws : List Write) → Shuffle us vs → Shuffle vs ws → Shuffle us ws

abbrev pub Apart : List Write → Type 0
Apart [] = Unit
Apart (w ∷ ws) = All (λ v. hash_of w ≢ hash_of v) ws × Apart ws

hash-settled_by : (w : Write) (e : MempoolEntry) → (settled_by w e).tx_hash ≡ e.tx_hash
unfolding complete settle
hash-settled_by (completion hash) e = go (str_eq e.tx_hash hash && is_pending e.status)
  where
    go : (b : Bool) → (if b then record e { status = completed } else e).tx_hash ≡ e.tx_hash
    go true = refl
    go false = refl
hash-settled_by (failure hash message) e = go (str_eq e.tx_hash hash && is_pending e.status)
  where
    go :
        (b : Bool)
        → (if b then record e { status = failed; error_message = message } else e).tx_hash
          ≡ e.tx_hash
    go true = refl
    go false = refl

other_hash :
    (w : Write) (e : MempoolEntry) → str_eq e.tx_hash (hash_of w) ≡ false → settled_by w e ≡ e
unfolding complete settle
other_hash (completion hash) e h = simp (h) refl
other_hash (failure hash message) e h = simp (h) refl

commute :
    (w v : Write) (e : MempoolEntry)
    → hash_of w ≢ hash_of v
    → settled_by v (settled_by w e) ≡ settled_by w (settled_by v e)
commute w v e apart = elim (Bool-cases (str_eq e.tx_hash (hash_of w))) [
  | inl same ↦
      let ours : e.tx_hash ≡ hash_of w = (eq_iff e.tx_hash (hash_of w)).0 same in
      let other : str_eq e.tx_hash (hash_of v) ≡ false =
        str_ne e.tx_hash (hash_of v) (λ p. apart (sym ours ∙ p)) in
      other_hash v (settled_by w e) (rw (hash-settled_by w e) other)
      ∙ sym (ap (settled_by w) (other_hash v e other))
  | inr other ↦
      ap (settled_by v) (other_hash w e other)
      ∙ sym (other_hash w (settled_by v e) (rw (hash-settled_by v e) other))
]

abbrev all_settled : List Write → List MempoolEntry → List MempoolEntry
all_settled [] rows = rows
all_settled (w ∷ ws) rows = all_settled ws (map (settled_by w) rows)

commute-map :
    (w v : Write) (rows : List MempoolEntry)
    → hash_of w ≢ hash_of v
    → map (settled_by v) (map (settled_by w) rows) ≡ map (settled_by w) (map (settled_by v) rows)
commute-map w v [] apart = refl
commute-map w v (e ∷ rows) apart =
    ap (λ x. x ∷ map (settled_by v) (map (settled_by w) rows)) (commute w v e apart)
    ∙ ap (λ l. settled_by w (settled_by v e) ∷ l) (commute-map w v rows apart)

All-Shuffle : (P : Write → Type 0) (ws vs : List Write) → Shuffle ws vs → All P ws → All P vs
All-Shuffle P ws vs (as_it_is _) h = h
All-Shuffle P ws vs (behind w us us' s) h = (h.0, All-Shuffle P us us' s h.1)
All-Shuffle P ws vs (swapped w v us) h = (h.1.0, (h.0, h.1.1))
All-Shuffle P ws vs (and_then _ us _ s s') h = All-Shuffle P us vs s' (All-Shuffle P ws us s h)

Apart-Shuffle : (ws vs : List Write) → Shuffle ws vs → Apart ws → Apart vs
Apart-Shuffle ws vs (as_it_is _) h = h
Apart-Shuffle ws vs (behind w us us' s) h =
    (All-Shuffle (λ v. hash_of w ≢ hash_of v) us us' s h.0, Apart-Shuffle us us' s h.1)
Apart-Shuffle ws vs (swapped w v us) h = (((λ p. h.0.0 (sym p)), h.1.0), (h.0.1, h.1.1))
Apart-Shuffle ws vs (and_then _ us _ s s') h = Apart-Shuffle us vs s' (Apart-Shuffle ws us s h)

all_settled-Shuffle :
    (ws vs : List Write) (rows : List MempoolEntry)
    → Shuffle ws vs
    → Apart ws
    → all_settled ws rows ≡ all_settled vs rows
all_settled-Shuffle ws vs rows (as_it_is _) h = refl
all_settled-Shuffle ws vs rows (behind w us us' s) h =
    all_settled-Shuffle us us' (map (settled_by w) rows) s h.1
all_settled-Shuffle ws vs rows (swapped w v us) h = ap (all_settled us) (commute-map w v rows h.0.0)
all_settled-Shuffle ws vs rows (and_then _ us _ s s') h =
    all_settled-Shuffle ws us rows s h ∙ all_settled-Shuffle us vs rows s' (Apart-Shuffle ws us s h)

abbrev with_rows : List MempoolEntry → Tables → Tables
with_rows rows t = record t { mempool = rows }

abbrev Wrote : Write → Db → Db → Type 0
Wrote w s s' =
    (s'.faults ≡ []) × (s'.tables ≡ with_rows (map (settled_by w) s.tables.mempool) s.tables)

run_write-Wrote : (w : Write) (s : Db) → s.faults ≡ [] → Wrote w s (run_write w s)
unfolding run_write complete_mempool_entry fail_mempool_entry
run_write-Wrote w s steady = go w
  where
    done :
        (w : Write) (p : Result Error Unit × Db)
        → Ran s.clock (λ t. tt) (λ t. with_rows (map (settled_by w) t.mempool) t) s p
        → Wrote w s p.1
    done w p (frame, inl (refused, faulty)) = absurd (faulty steady)
    done w p (frame, inr (value, after)) = (frame.2 steady, after)

    go : (w : Write) → Wrote w s (run_write w s)
    go (completion hash) =
        done (completion hash) (complete_mempool_entry hash s)
          (execute-Runs s.clock (λ t. with_rows (map (complete hash) t.mempool) t) s refl)
    go (failure hash message) = done (failure hash message) (fail_mempool_entry hash message s) (
        execute-Runs s.clock (λ t. with_rows (map (settle hash failed message) t.mempool) t) s refl)

run_writes-all_settled :
    (ws : List Write) (s : Db)
    → s.faults ≡ []
    → (run_writes ws s).tables ≡ with_rows (all_settled ws s.tables.mempool) s.tables
run_writes-all_settled [] s steady = refl
run_writes-all_settled (w ∷ ws) s steady =
    let wrote = run_write-Wrote w s steady in
    run_writes-all_settled ws (run_write w s) wrote.0
    ∙ ap (λ (t : Tables). with_rows (all_settled ws t.mempool) t) wrote.1

-- If no statement fails and no two of the writes are of one hash: in whatever order the goroutines of a drain come to
-- their writes, the tables are the same in the end.
pub run_writes-Shuffle :
    (ws vs : List Write) (s : Db)
    → s.faults ≡ []
    → Apart ws
    → Shuffle ws vs
    → (run_writes ws s).tables ≡ (run_writes vs s).tables
run_writes-Shuffle ws vs s steady apart order =
    run_writes-all_settled ws s steady
    ∙ ap (λ rows. with_rows rows s.tables) (all_settled-Shuffle ws vs s.tables.mempool order apart)
    ∙ sym (run_writes-all_settled vs s steady)
