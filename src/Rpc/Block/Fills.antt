-- ===== src/Rpc/Block/Fills.antt =====
-- A tick of the miner: the transaction of its block, with the deferred `Abort`.
use canton_middleware.Prelude.{
  ℕ, Option, none, some, List, [], ◌∷◌, ◌≡◌, refl, sym, ◌∙◌, ap, ◌⊎◌, inl, inr, if◌then◌else◌,
}
use canton_middleware.Exec.{Result, ok, err, pure, continue, ◌>>=◌}
use canton_middleware.Exec.Faults.{is_faulty, rest_of}
use canton_middleware.Rpc.Types.{MempoolEntry}
use canton_middleware.Rpc.Store.{
  Tables, Db, Error, database_error, Action, PendingBlock, next_number, statement, query, execute,
  abort, rolled_back, finalize, new_block, unless_done, or_roll_back, claim_mempool_entries,
}
use canton_middleware.Rpc.Miner.{Miner, add_entries, seal, fill_block, with_block, mine}
use canton_middleware.Rpc.Runs.{
  Runs, Ran, Fails, Framed, bind-Runs, query-Runs, execute-Runs, statement-Runs,
}
use canton_middleware.Rpc.Block.{
  claimed, with_mined, sealed, sealed_if_any, mined_tables, claim-Runs, add_entries-Runs,
  block_transactions, block_logs, with_block_rows,
}

-- The end of a transaction that began on `old`, once the deferred `Abort` has run.
abbrev pub Ended : Tables → Tables → Db → Result Error Unit × Db → Type 0
Ended old target s p =
    ((abort p.1).before ≡ none)
    × (s.faults ≡ [] → p.1.faults ≡ [])
    × ((Fails s p.0 × ((abort p.1).tables ≡ old)) ⊎ ((p.0 ≡ ok tt) × ((abort p.1).tables ≡ target)))

abort-open :
    (s : Db) (old : Tables)
    → s.before ≡ some old
    → ((abort s).before ≡ none) × ((abort s).tables ≡ old)
unfolding abort
abort-open s old h = go s.before h
  where
    go :
        (o : Option Tables)
        → o ≡ some old
        → ((rolled_back o s).before ≡ none) × ((rolled_back o s).tables ≡ old)
    go none h = absurd (cc)
    go (some t) h = (refl, cc)

abort-done : (s : Db) → s.before ≡ none → abort s ≡ s
unfolding abort
abort-done s h = rw h refl

abort-faults : (s : Db) → (abort s).faults ≡ s.faults
unfolding abort
abort-faults s = go s.before
  where
    go : (o : Option Tables) → (rolled_back o s).faults ≡ s.faults
    go none = refl
    go (some t) = refl

finalize-Ended :
    (b : PendingBlock) (s : Db) (old : Tables)
    → s.before ≡ some old
    → Ended old (record s.tables { latest_block = b.number }) s (finalize b s)
unfolding finalize abort ◌>>=◌
finalize-Ended b s old h = opened s.before h
  where
    body : Action Unit
    body = execute (λ t. record t { latest_block = b.number }) >>= λ u. statement

    body-Runs : Runs s.clock body (λ t. tt) (λ t. record t { latest_block = b.number })
    body-Runs =
        bind-Runs s.clock (execute (λ t. record t { latest_block = b.number })) (λ u. statement)
          (λ t. tt) (λ t. record t { latest_block = b.number }) (λ u t. tt) (λ u t. t)
          (execute-Runs s.clock (λ t. record t { latest_block = b.number }))
          (λ u. statement-Runs s.clock)

    go :
        (r : Result Error Unit) (s' : Db)
        → Ran s.clock (λ t. tt) (λ t. record t { latest_block = b.number }) s (r, s')
        → Ended old (record s.tables { latest_block = b.number }) s (or_roll_back (r, s'))
    go (ok u) s' (frame, inl fails) = absurd (cc)
    go (ok u) s' (frame, inr (done, after)) = (refl, frame.2, inr (refl, after))
    go (err e) s' (frame, inl (failed, faulty)) =
        let aborted = abort-open s' old (frame.0 ∙ h) in
        (
          ap (λ (d : Db). d.before) (abort-done (abort s') aborted.0) ∙ aborted.0,
          (λ none. abort-faults s' ∙ frame.2 none),
          inl (
            (failed, faulty),
            ap (λ (d : Db). d.tables) (abort-done (abort s') aborted.0) ∙ aborted.1,
          ),
        )
    go (err e) s' (frame, inr (done, after)) = absurd (cc)

    opened :
        (o : Option Tables)
        → o ≡ some old
        → Ended old
            (record s.tables { latest_block = b.number })
            s
            (unless_done o (λ s. or_roll_back (body s)) s)
    opened none h = absurd (cc)
    opened (some t) e = go (body s).0 (body s).1 (body-Runs s refl)

-- The rows of a block with entries, up to its end.
abbrev with_rows : Miner → PendingBlock → ℕ → List MempoolEntry → Tables → Tables
with_rows m b time es = with_block_rows (block_transactions m b 0 es) (block_logs m b time 0 0 es)

then-Ended :
    (clock : ℕ) (s s' : Db) (old target target' : Tables) (p : Result Error Unit × Db)
    → Framed clock s s'
    → target' ≡ target
    → Ended old target' s' p
    → Ended old target s p
then-Ended clock s s' old target target' p frame same
      (closed, steady, inl ((failed, faulty), back)) =
    (closed, (λ none. steady (frame.2 none)), inl ((failed, λ none. faulty (frame.2 none)), back))
then-Ended clock s s' old target target' p frame same (closed, steady, inr (done, after)) =
    (closed, (λ none. steady (frame.2 none)), inr (done, after ∙ same))

seal-Ended :
    (m : Miner) (b : PendingBlock) (es : List MempoolEntry) (s : Db) (old : Tables)
    → s.before ≡ some old
    → s.tables ≡ with_mined es old
    → Ended old (sealed_if_any m b s.clock es old) s (seal m b es s)
unfolding pure ◌>>=◌
seal-Ended m b [] s old h t =
    ((abort-open s old h).0, (λ none. none), inr (refl, (abort-open s old h).1))
seal-Ended m b (e ∷ es) s old h t =
    go (add_entries m b s.clock (e ∷ es) 0 0 s).0 (add_entries m b s.clock (e ∷ es) 0 0 s).1
      (add_entries-Runs s.clock m b s.clock (e ∷ es) 0 0 s refl)
  where
    go :
        (r : Result Error Unit) (s' : Db)
        → Ran s.clock (λ t. tt) (with_rows m b s.clock (e ∷ es)) s (r, s')
        → Ended old (sealed m b s.clock (e ∷ es) old) s (continue r (λ u. finalize b) s')
    go (ok u) s' (frame, inl (failed, faulty)) = absurd (cc)
    go (ok u) s' (frame, inr (done, after)) =
        then-Ended s.clock s s' old (sealed m b s.clock (e ∷ es) old)
          (record s'.tables { latest_block = b.number }) (finalize b s') frame
          (ap (λ (x : Tables). record x { latest_block = b.number })
            (after ∙ ap (with_rows m b s.clock (e ∷ es)) t))
          (finalize-Ended b s' old (frame.0 ∙ h))
    go (err f) s' (frame, inl (failed, faulty)) =
        let aborted = abort-open s' old (frame.0 ∙ h) in
        (aborted.0, frame.2, inl ((failed, faulty), aborted.1))
    go (err f) s' (frame, inr (done, after)) = absurd (cc)

sealed_if_any-at :
    (m : Miner) (b : PendingBlock) (c c' : ℕ) (es : List MempoolEntry) (t old : Tables)
    → c ≡ c'
    → es ≡ claimed m.max_txs_per_block t
    → t ≡ old
    → sealed_if_any m b c es old ≡ sealed_if_any m b c' (claimed m.max_txs_per_block old) old
sealed_if_any-at m b c c' es t old clock same tables =
    ap (λ k. sealed_if_any m b k es old) clock
    ∙ ap (λ l. sealed_if_any m b c' l old) (same ∙ ap (claimed m.max_txs_per_block) tables)

fill_block-Ended :
    (m : Miner) (b : PendingBlock) (s : Db) (old : Tables)
    → s.before ≡ some old
    → s.tables ≡ old
    → Ended old
        (sealed_if_any m b s.clock (claimed m.max_txs_per_block old) old)
        s
        (fill_block m b s)
unfolding fill_block ◌>>=◌
fill_block-Ended m b s old h t =
    go (claim_mempool_entries m.max_txs_per_block s).0
      (claim_mempool_entries m.max_txs_per_block s).1
      (claim-Runs s.clock m.max_txs_per_block s refl)
  where
    made :
        (s' : Db) (es : List MempoolEntry)
        → es ≡ claimed m.max_txs_per_block s.tables
        → s'.tables ≡ with_mined (claimed m.max_txs_per_block s.tables) s.tables
        → s'.tables ≡ with_mined es old
    made s' es e after = after ∙ ap (λ l. with_mined l s.tables) (sym e) ∙ ap (with_mined es) t

    go :
        (r : Result Error (List MempoolEntry)) (s' : Db)
        → Ran s.clock
            (claimed m.max_txs_per_block)
            (λ t. with_mined (claimed m.max_txs_per_block t) t)
            s
            (r, s')
        → Ended old
            (sealed_if_any m b s.clock (claimed m.max_txs_per_block old) old)
            s
            (continue r (seal m b) s')
    go (ok es) s' (frame, inl (failed, faulty)) = absurd (cc)
    go (ok es) s' (frame, inr (done, after)) =
        then-Ended s.clock s s' old
          (sealed_if_any m b s.clock (claimed m.max_txs_per_block old) old)
          (sealed_if_any m b s'.clock es old) (seal m b es s') frame
          (sealed_if_any-at m b s'.clock s.clock es s.tables old frame.1 (cc) t)
          (seal-Ended m b es s' old (frame.0 ∙ h) (made s' es (cc) after))
    go (err f) s' (frame, inl (failed, faulty)) =
        let aborted = abort-open s' old (frame.0 ∙ h) in
        (aborted.0, frame.2, inl ((cc, faulty), aborted.1))
    go (err f) s' (frame, inr (done, after)) = absurd (cc)

-- A tick fails with no effect, or makes the block.
abbrev pub Mined : Miner → Db → Result Error Unit × Db → Type 0
Mined m s p =
    (p.1.before ≡ none)
    × (s.faults ≡ [] → p.1.faults ≡ [])
    × ((Fails s p.0 × (p.1.tables ≡ s.tables))
        ⊎ ((p.0 ≡ ok tt) × (p.1.tables ≡ mined_tables m s.clock s.tables)))

query-tables : {A : Type 0} (v : Tables → A) (s : Db) → (query v s).1.tables ≡ s.tables
unfolding query statement ◌>>=◌
query-tables v s = go (if is_faulty s.faults then err database_error else ok tt)
  where
    go :
        (r : Result Error Unit)
        → (continue r
            (λ u s. (ok (v s.tables), s))
            (record s { faults = rest_of s.faults })).1.tables
          ≡ s.tables
    go (ok u) = refl
    go (err e) = refl

statement-tables : (s : Db) → (statement s).1.tables ≡ s.tables
unfolding statement
statement-tables s = refl

abbrev block_numbered : Miner → ℕ → PendingBlock
block_numbered m n = record {
  number = next_number n;
  hash = m.codec.compute_block_hash (next_number n);
}

Ended-Mined :
    (m : Miner) (s s' : Db) (p : Result Error Unit × Db)
    → Framed s.clock s s'
    → s'.tables ≡ s.tables
    → Ended s'.tables (mined_tables m s'.clock s'.tables) s' p
    → Mined m s (p.0, abort p.1)
Ended-Mined m s s' p frame same (closed, steady, inl ((failed, faulty), back)) = (
  closed,
  (λ none. abort-faults p.1 ∙ steady (frame.2 none)),
  inl ((failed, λ none. faulty (frame.2 none)), back ∙ same),
)
Ended-Mined m s s' p frame same (closed, steady, inr (done, after)) = (
  closed,
  (λ none. abort-faults p.1 ∙ steady (frame.2 none)),
  inr (
    done,
    after ∙ ap (λ t. mined_tables m s'.clock t) same ∙ ap (λ c. mined_tables m c s.tables) frame.1,
  ),
)

pub mine-Mined : (m : Miner) (s : Db) → s.before ≡ none → Mined m s (mine m s)
unfolding mine new_block ◌>>=◌
mine-Mined m s closed =
    go (statement s).0 (statement s).1 (statement-tables s) (statement-Runs s.clock s refl)
  where
    latest : Tables → ℕ
    latest t = t.latest_block

    begin : ℕ → Action PendingBlock
    begin n s = (ok (block_numbered m n), record s { before = some s.tables })

    at_number : ℕ → ℕ → Tables → Tables
    at_number n clock t =
        sealed_if_any m (block_numbered m n) clock (claimed m.max_txs_per_block t) t

    number_of :
        (n : ℕ) (s1 s' : Db)
        → ◌≡◌ {A = Result Error ℕ} (ok n) (ok s1.tables.latest_block)
        → s'.tables ≡ s1.tables
        → n ≡ s'.tables.latest_block
    number_of n s1 s' e same = cc

    opened :
        (r : Result Error ℕ) (s1 s' : Db)
        → Framed s.clock s s1
        → s1.tables ≡ s.tables
        → s'.tables ≡ s1.tables
        → Ran s.clock latest (λ t. t) s1 (r, s')
        → Mined m s (with_block m (continue r begin s'))
    opened (ok n) s1 s' frame1 same1 same (frame, inl (failed, faulty)) = absurd (cc)
    opened (ok n) s1 s' frame1 same1 same (frame, inr (done, after)) =
        Ended-Mined m s s' (fill_block m (block_numbered m n) (begin n s').1)
          (frame.0 ∙ frame1.0, frame.1, λ none. frame.2 (frame1.2 none)) (same ∙ same1)
          (then-Ended s'.clock (begin n s').1 (begin n s').1 s'.tables
            (mined_tables m s'.clock s'.tables) (at_number n s'.clock s'.tables)
            (fill_block m (block_numbered m n) (begin n s').1) (refl, refl, λ none. none)
            (ap (λ k. at_number k s'.clock s'.tables) (number_of n s1 s' done after))
            (fill_block-Ended m (block_numbered m n) (begin n s').1 s'.tables refl refl))
    opened (err e) s1 s' frame1 same1 same (frame, inl (failed, faulty)) = (
      frame.0 ∙ frame1.0 ∙ closed,
      (λ none. frame.2 (frame1.2 none)),
      inl ((cc, λ none. faulty (frame1.2 none)), same ∙ same1),
    )
    opened (err e) s1 s' frame1 same1 same (frame, inr (done, after)) = absurd (cc)

    go :
        (r : Result Error Unit) (s' : Db)
        → s'.tables ≡ s.tables
        → Ran s.clock (λ t. tt) (λ t. t) s (r, s')
        → Mined m s (with_block m (continue r (λ u. query latest >>= begin) s'))
    go (ok u) s' same (frame, inl (failed, faulty)) = absurd (cc)
    go (ok u) s' same (frame, inr (done, after)) =
        opened (query latest s').0 s' (query latest s').1 frame same (query-tables latest s')
          (query-Runs s.clock latest s' frame.1)
    go (err e) s' same (frame, inl (failed, faulty)) =
        (frame.0 ∙ closed, frame.2, inl ((cc, faulty), same))
    go (err e) s' same (frame, inr (done, after)) = absurd (cc)
