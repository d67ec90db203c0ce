-- ===== src/Rpc/Reach.antt =====
-- Every history of the mempool: the service inserts, the submitter settles and the miner mines, in any order.
use canton_middleware.Prelude.{
  ℕ, String, Bool, true, false, List, [], ◌∷◌, ◌++◌, ◌≡◌, refl, ◌∙◌, inl, inr, if◌then◌else◌, map,
  ◌&&◌, str_eq, All, ◌+◌,
}
use canton_middleware.Rpc.Types.{MempoolEntry, completed, failed, mined}
use canton_middleware.Rpc.Store.{
  Tables, Db, execute, with_entry, has_hash, insert_mempool_entry, settle, complete,
  complete_mempool_entry, fail_mempool_entry, mark_mined, pending_row, has_id, is_pending,
}
use canton_middleware.Rpc.Ids.{
  Ascending, Ascending-append, Ascending-next, Ascending-map, claimed-Sound,
}
use canton_middleware.Rpc.Miner.{Miner, mine}
use canton_middleware.Rpc.Runs.{Either, execute-Either}
use canton_middleware.Rpc.Block.{claimed, mined_tables, sealed_if_any, next_block}
use canton_middleware.Rpc.Block.Fills.{mine-Mined, Mined}
use canton_middleware.Rpc.Lifecycle.{
  Grows, Grows-trans, Grows-append, Grows-refl, Grows-map, settle-Later, complete-Later,
  mark_mined-All, All-Later, Later, Invariant, ◌becomes◌, inserts, is_completed, is_failed, ticks,
  waits, Reach, here, then_on,
}

-- The ids ascend still, and the rows stand in later versions.
abbrev Advance : Tables → Tables → Type 0
Advance t t' =
    (Ascending 0 t.mempool t.next_id → Ascending 0 t'.mempool t'.next_id)
    × Grows t.mempool t'.mempool

Either-Advance : (t t' t'' : Tables) → Either t t' t'' → Advance t t' → Advance t t''
Either-Advance t t' t'' (inl e) h = rw e ((λ a. a), Grows-refl t.mempool)
Either-Advance t t' t'' (inr e) h = rw e h

map-Advance :
    (f : MempoolEntry → MempoolEntry) (t : Tables)
    → ((e : MempoolEntry) → (f e).id ≡ e.id)
    → All (λ e. Later e (f e)) t.mempool
    → Advance t (record t { mempool = map f t.mempool })
map-Advance f t ids later = (Ascending-map f 0 t.next_id t.mempool ids, Grows-map f t.mempool later)

updated-id : (c : Bool) (e e' : MempoolEntry) → e'.id ≡ e.id → (if c then e' else e).id ≡ e.id
updated-id true e e' h = h
updated-id false e e' h = refl

mark_mined-id : (es : List MempoolEntry) (e : MempoolEntry) → (mark_mined es e).id ≡ e.id
unfolding mark_mined
mark_mined-id es e = updated-id (has_id e.id es) e (record e { status = mined }) refl

settle-id : (hash message : String) (e : MempoolEntry) → (settle hash failed message e).id ≡ e.id
unfolding settle
settle-id hash message e =
    updated-id (str_eq e.tx_hash hash && is_pending e.status) e
      (record e { status = failed; error_message = message }) refl

complete-id : (hash : String) (e : MempoolEntry) → (complete hash e).id ≡ e.id
unfolding complete
complete-id hash e =
    updated-id (str_eq e.tx_hash hash && is_pending e.status) e (record e { status = completed })
      refl

with_entry-Advance : (e : MempoolEntry) (t : Tables) → Advance t (with_entry e t)
unfolding with_entry
with_entry-Advance e t = go (has_hash e.tx_hash t.mempool)
  where
    go :
        (b : Bool)
        → Advance t (record t {
          mempool = if b then t.mempool else t.mempool ++ pending_row e t.next_id ∷ [];
          next_id = t.next_id + 1;
        })
    go true = (Ascending-next 0 t.next_id t.mempool, Grows-refl t.mempool)
    go false = (
      Ascending-append 0 t.next_id t.mempool (pending_row e t.next_id) refl,
      Grows-append t.mempool (pending_row e t.next_id ∷ []),
    )

mined-Advance :
    (m : Miner) (time : ℕ) (t : Tables)
    → Ascending 0 t.mempool t.next_id
    → Advance t (mined_tables m time t)
mined-Advance m time t a = go (claimed m.max_txs_per_block t) refl
  where
    go :
        (es : List MempoolEntry)
        → claimed m.max_txs_per_block t ≡ es
        → Advance t (sealed_if_any m (next_block m t) time es t)
    go [] same = ((λ a. a), Grows-refl t.mempool)
    go (e ∷ es) same = map-Advance (mark_mined (e ∷ es)) t (mark_mined-id (e ∷ es)) (
        mark_mined-All (e ∷ es) t.mempool
          (rw⁻¹ same (claimed-Sound m.max_txs_per_block 0 t.next_id t.mempool a)))

execute-Advance :
    (f : Tables → Tables) (s : Db)
    → Invariant s
    → Advance s.tables (f s.tables)
    → Invariant (execute f s).1 × Grows s.tables.mempool (execute f s).1.tables.mempool
execute-Advance f s inv h =
    let done = execute-Either f s in
    let ahead = Either-Advance s.tables (f s.tables) (execute f s).1.tables done.1 h in
    ((done.0 ∙ inv.0, ahead.0 inv.1), ahead.1)

becomes-Advance :
    (s s' : Db)
    → s becomes s'
    → Invariant s
    → Invariant s' × Grows s.tables.mempool s'.tables.mempool
unfolding insert_mempool_entry complete_mempool_entry fail_mempool_entry
becomes-Advance s s' (inserts e _) inv =
    execute-Advance (with_entry e) s inv (with_entry-Advance e s.tables)
becomes-Advance s s' (is_completed hash _) inv =
    execute-Advance (λ t. record t { mempool = map (complete hash) t.mempool }) s inv
      (map-Advance (complete hash) s.tables (complete-id hash)
        (All-Later (complete hash) s.tables.mempool (complete-Later hash)))
becomes-Advance s s' (is_failed hash message _) inv =
    execute-Advance (λ t. record t { mempool = map (settle hash failed message) t.mempool }) s inv
      (map-Advance (settle hash failed message) s.tables (settle-id hash message)
        (All-Later (settle hash failed message) s.tables.mempool (settle-Later hash message)))
becomes-Advance s s' (ticks m _) inv =
    let tick = mine-Mined m s inv.0 in
    let ahead =
      Either-Advance s.tables (mined_tables m s.clock s.tables) (mine m s).1.tables (effect tick)
        (mined-Advance m s.clock s.tables inv.1) in
    ((tick.0, ahead.0 inv.1), ahead.1)
  where
    effect :
        Mined m s (mine m s) → Either s.tables (mined_tables m s.clock s.tables) (mine m s).1.tables
    effect (closed, steady, inl (fails, same)) = inl same
    effect (closed, steady, inr (done, after)) = inr after
becomes-Advance s s' (waits clock faults _) inv = (inv, Grows-refl s.tables.mempool)

-- From a state in which no transaction is open and the ids ascend, whatever entries come in, whatever the submitter
-- writes, whenever the miner ticks and whatever statements fail: the invariant stays, and every row stays where it
-- is, with every field but its status and error message, and its status has only followed the state machine: from
-- pending to completed or failed, and from there to mined.
pub Reach-Grows :
    (s s' : Db) → Reach s s' → Invariant s → Invariant s' × Grows s.tables.mempool s'.tables.mempool
Reach-Grows s s' (here _) inv = (inv, Grows-refl s.tables.mempool)
Reach-Grows s s' (then_on _ mid _ step rest) inv =
    let first = becomes-Advance s mid step inv in
    let after = Reach-Grows mid s' rest first.0 in
    (after.0, Grows-trans s.tables.mempool mid.tables.mempool s'.tables.mempool first.1 after.1)
