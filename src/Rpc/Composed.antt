-- ===== src/Rpc/Composed.antt =====
-- The facade as a whole (pkg/ethrpc): the service, the submitter and the miner on one database.
use canton_middleware.Prelude.{
  ℕ, String, Bool, true, false, Option, none, some, List, [], ◌∷◌, inl, inr, Bool-cases, ◌==◌,
}
use canton_middleware.Exec.{Result, ok, err, continue, pure, raise, ◌>>=◌}
use canton_middleware.Exec.Faults.{is_faulty, rest_of}
use canton_middleware.Failure.{Failure, prefixed}
use canton_middleware.Rpc.Types.{MempoolEntry}
use canton_middleware.Rpc.Store.{
  Db, Error, Action, Tables, statement, query, limited, pending_entries, get_pending_entries,
  insert_mempool_entry, complete_mempool_entry, fail_mempool_entry,
}
use canton_middleware.Rpc.Miner.{Miner, mine}
use canton_middleware.Rpc.Submitter.{
  TokenService, Conversions, World, complete_entry, fail_entry, is_permanent_error, refused,
  recorded, process_on, process, process_all, process_batch, drain,
}
use canton_middleware.Rpc.Service.{
  EthService, SignedTransaction, mempool_entry, rewrapped, gated, check_whitelist, record_intent,
  with_args, to_contract, with_sender, send_decoded, decode_transfer_call, send_raw_transaction,
}
use canton_middleware.Rpc.Lifecycle.{
  Invariant, Grows, Reach, here, then_on, ◌becomes◌, inserts, is_completed, is_failed, ticks, waits,
}
use canton_middleware.Rpc.Reach.{Reach-Grows}

step : (s s' : Db) → s becomes s' → Reach s s'
step s s' b = then_on s s' s' b (here s')

Reach-trans : (a b c : Db) → Reach a b → Reach b c → Reach a c
Reach-trans a b c (here _) q = q
Reach-trans a b c (then_on _ m _ s p) q = then_on a m c s (Reach-trans m b c p q)

module _ (k : EthService) (s : Db) where
  answered :
      (tx : SignedTransaction) (r : Result Error Unit) (s' : Db)
      → Reach s s'
      → Reach s
          (continue
            (rewrapped "insert mempool entry" (r, s')).0
            (λ u. pure tx.hash)
            (rewrapped "insert mempool entry" (r, s')).1).1
  unfolding pure
  answered tx (ok u) s' h = h
  answered tx (err e) s' h = h

  supported :
      (tx : SignedTransaction) (contract : String) (args : String × ℕ) (o : Option Failure)
      → Reach s (record_intent k tx contract args o s).1
  unfolding raise ◌>>=◌
  supported tx contract args (some e) = here s
  supported tx contract args none =
      let e = mempool_entry k.wallet tx contract args in
      answered tx (insert_mempool_entry e s).0 (insert_mempool_entry e s).1
        (step s (insert_mempool_entry e s).1 (inserts e s))

  transfers :
      (tx : SignedTransaction) (contract : String) (r : Result Failure (String × ℕ))
      → Reach s (with_args k tx contract r s).1
  unfolding raise
  transfers tx contract (err e) = here s
  transfers tx contract (ok args) = supported tx contract args (k.erc20 contract)

  called : (tx : SignedTransaction) (o : Option String) → Reach s (to_contract k tx o s).1
  unfolding raise
  called tx none = here s
  called tx (some contract) = elim (Bool-cases (tx.value == 0)) [
    | inl e ↦ simp (e) (transfers tx contract (decode_transfer_call k.wallet tx.input))
    | inr e ↦ simp (e) (here s)
  ]

  allowed :
      (tx : SignedTransaction) (address : String) (r : Result Failure Bool)
      → Reach s
          (continue
            (gated address r s).0
            (λ u. to_contract k tx tx.to_address)
            (gated address r s).1).1
  unfolding raise pure
  allowed tx address (err e) = here s
  allowed tx address (ok false) = here s
  allowed tx address (ok true) = called tx tx.to_address

  signed : (tx : SignedTransaction) (o : Option Failure) → Reach s (with_sender k tx o s).1
  unfolding raise check_whitelist ◌>>=◌
  signed tx (some e) = here s
  signed tx none =
      allowed tx (k.wallet.to_lower tx.sender) (k.is_whitelisted (k.wallet.to_lower tx.sender) s)

  decoded : (r : Result Failure SignedTransaction) → Reach s (send_decoded k r s).1
  unfolding raise
  decoded (err e) = here s
  decoded (ok tx) = signed tx (k.wallet.recover tx)

send-Reach : (k : EthService) (raw : String) (s : Db) → Reach s (send_raw_transaction k raw s).1
unfolding send_raw_transaction
send-Reach k raw s = decoded k s (k.wallet.unmarshal raw)

module _ {C : Type 0} (svc : TokenService C) (v : Conversions) where
  refused-Reach :
      (b : Bool) (e : MempoolEntry) (cause : Failure) (w : World C)
      → Reach w.db (refused b e cause w).1.db
  unfolding fail_entry
  refused-Reach true e cause w =
      step w.db (fail_mempool_entry e.tx_hash cause.text w.db).1
        (is_failed e.tx_hash cause.text w.db)
  refused-Reach false e cause w = here w.db

  recorded-Reach :
      (e : MempoolEntry) (db : Db) (p : Result Failure Unit × C) → Reach db (recorded e db p).1.db
  unfolding complete_entry
  recorded-Reach e db (ok u, c) =
      step db (complete_mempool_entry e.tx_hash db).1 (is_completed e.tx_hash db)
  recorded-Reach e db (err cause, c) =
      refused-Reach (is_permanent_error cause) e cause (record { db = db; canton = c })

  process_on-Reach :
      (o : Option Failure) (e : MempoolEntry) (w : World C)
      → Reach w.db (process_on svc v o e w).1.db
  process_on-Reach (some cause) e w =
      refused-Reach true e (prefixed "contract not supported: " cause) w
  process_on-Reach none e w = recorded-Reach e w.db _

  process_all-Reach :
      (es : List MempoolEntry) (w : World C) → Reach w.db (process_all svc v es w).db
  unfolding process_all process
  process_all-Reach [] w = here w.db
  process_all-Reach (e ∷ es) w =
      let o = svc.erc20 (v.hex_to_address e.contract_address) in
      Reach-trans w.db (process_on svc v o e w).1.db
        (process_all svc v es (process_on svc v o e w).1).db (process_on-Reach o e w)
        (process_all-Reach es (process_on svc v o e w).1)

  batch-Reach :
      (r : Result Error (List MempoolEntry)) (s' : Db) (w : World C)
      → Reach w.db s'
      → Reach w.db (process_batch svc v w (r, s')).1.db
  batch-Reach (err e) s' w h = h
  batch-Reach (ok es) s' w h =
      Reach-trans w.db s' (process_all svc v es (record w { db = s' })).db h
        (process_all-Reach es (record w { db = s' }))

  query-Reach : {A : Type 0} (f : Tables → A) (s : Db) → Reach s (query f s).1
  unfolding query statement ◌>>=◌
  query-Reach f s = elim (Bool-cases (is_faulty s.faults)) [
    | inl e ↦
        simp (e)
          (step s (record s { faults = rest_of s.faults }) (waits s.clock (rest_of s.faults) s))
    | inr e ↦
        simp (e)
          (step s (record s { faults = rest_of s.faults }) (waits s.clock (rest_of s.faults) s))
  ]

  drain-Reach : (batch_size : ℕ) (w : World C) → Reach w.db (drain svc v batch_size w).1.db
  unfolding drain get_pending_entries
  drain-Reach n w =
      let rows : Action (List MempoolEntry) = query (λ t. limited n (pending_entries t.mempool)) in
      batch-Reach (rows w.db).0 (rows w.db).1 w
        (query-Reach (λ t. limited n (pending_entries t.mempool)) w.db)

-- What happens to the facade: a wallet sends a raw transaction, the submitter drains a batch, the miner ticks, and
-- time passes, with whatever statements failing next.
pub data Happening : Type 0 where
  sends : String → Happening
  drains : ℕ → Happening
  mines : Happening
  passes : ℕ → List Bool → Happening

module _ {C : Type 0} (k : EthService) (svc : TokenService C) (v : Conversions) (m : Miner) where
  abbrev pub happens : Happening → World C → World C
  happens (sends raw) w = record w { db = (send_raw_transaction k raw w.db).1 }
  happens (drains n) w = (drain svc v n w).1
  happens mines w = record w { db = (mine m w.db).1 }
  happens (passes clock faults) w = record w { db = record w.db { clock = clock; faults = faults } }

  abbrev pub all_happen : List Happening → World C → World C
  all_happen [] w = w
  all_happen (h ∷ hs) w = all_happen hs (happens h w)

  happens-Reach : (h : Happening) (w : World C) → Reach w.db (happens h w).db
  happens-Reach (sends raw) w = send-Reach k raw w.db
  happens-Reach (drains n) w = drain-Reach svc v n w
  happens-Reach mines w = step w.db (mine m w.db).1 (ticks m w.db)
  happens-Reach (passes clock faults) w =
      step w.db (record w.db { clock = clock; faults = faults }) (waits clock faults w.db)

  all_happen-Reach : (hs : List Happening) (w : World C) → Reach w.db (all_happen hs w).db
  all_happen-Reach [] w = here w.db
  all_happen-Reach (h ∷ hs) w =
      Reach-trans w.db (happens h w).db (all_happen hs (happens h w)).db (happens-Reach h w)
        (all_happen-Reach hs (happens h w))

-- From a database with no open transaction and ascending ids, whatever raw transactions come in, whenever the
-- submitter drains and the miner ticks, whatever the token service answers and whatever statements fail: the
-- invariant stays, every row of the mempool stays in its place with every field but its status and error message, and
-- its status only follows the state machine, from pending to completed or failed and from there to mined.
pub all_happen-Grows :
    {C : Type 0} (k : EthService) (svc : TokenService C) (v : Conversions) (m : Miner)
    (hs : List Happening) (w : World C)
    → Invariant w.db
    → Invariant (all_happen k svc v m hs w).db
      × Grows w.db.tables.mempool (all_happen k svc v m hs w).db.tables.mempool
all_happen-Grows k svc v m hs w =
    Reach-Grows w.db (all_happen k svc v m hs w).db (all_happen-Reach k svc v m hs w)
