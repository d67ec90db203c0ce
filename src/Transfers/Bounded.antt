-- ===== src/Transfers/Bounded.antt =====
-- The size of the cache of prepared transfers (pkg/transfer/cache.go), through every history of calls.
use canton_middleware.Prelude.{
  ℕ, suc, String, Bool, true, false, Option, none, some, List, [], ◌∷◌, length, arith, ◌≤◌, ◌<◌,
  ◌+◌, inl, inr, Bool-cases,
}
use canton_middleware.Prelude.Assoc.{lookup, put, remove}
use canton_middleware.Exec.{Result, ok, err, Exec}
use canton_middleware.Exec.Keeps.{
  Keeps, Keeps-bind, Keeps-pure, Keeps-raise, Keeps-if, Keeps-attempt,
}
use canton_middleware.Failure.{Failure}
use canton_middleware.Rpc.Store.{hash_key}
use canton_middleware.Transfers.Types.{
  PreparedTransfer, PrepareRequest, CustodialTransferRequest, ExecuteRequest, User, Offer,
}
use canton_middleware.Transfers.Cache.{
  CacheError, Entries, put_transfer, get_and_delete, taken, cleanup, is_full,
}
use canton_middleware.Transfers.Service.{
  State, Clients, Settings, on_canton, mapped, raise_if, find_caller, take_prepared, put_prepared,
  fetched, prepare, send_custodial, execute, prepare_accept, prepare_withdraw, withdraw_custodial,
  check_recipient_party, claimable_transfer, resolve_recipient, after_lookup, unregistered,
  topology_check, claimed_of,
}
use canton_middleware.Transfers.Once.{
  OnCache, on_canton-Keeps, mapped-Keeps, returned-Keeps, require-Keeps,
}

length-put :
    (id : String) (p : PreparedTransfer) (entries : Entries)
    → length (put id p entries) ≤ suc (length entries)
unfolding put
length-put id p [] = omega arith
length-put id p ((j, q) ∷ entries) = ground (arith, length-put id p entries)

length-remove : (id : String) (entries : Entries) → length (remove id entries) ≤ length entries
unfolding remove
length-remove id [] = omega arith
length-remove id ((j, q) ∷ entries) = ground (arith, length-remove id entries)

length-cleanup : (now : ℕ) (entries : Entries) → length (cleanup now entries) ≤ length entries
unfolding cleanup
length-cleanup now [] = omega arith
length-cleanup now ((j, q) ∷ entries) = ground (arith, length-cleanup now entries)

-- A cache with a limit does not grow past it.
abbrev pub Bounded : ℕ → Entries → Type 0
Bounded max_size entries = length entries ≤ max_size

module _ {C : Type 0} (k : Clients C) (t : Settings) (limited : 0 < t.max_size) where
  put_prepared-Keeps :
      (p : PreparedTransfer) → Keeps (OnCache (Bounded t.max_size)) (put_prepared k t p)
  unfolding put_prepared put_transfer
  put_prepared-Keeps p = record { at = λ s h. go s h }
    where
      go :
          (s : State C)
          → Bounded t.max_size s.cache
          → Bounded t.max_size (put_prepared k t p s).1.cache
      go s h = elim (Bool-cases (is_full t.max_size s.cache)) [
        | inl e ↦ simp (e) h
        | inr e ↦ simp (e) (
            ground (
              arith,
              limited,
              e,
              h,
              length-put p.transfer_id (record p { expires_at = s.clock + t.ttl }) s.cache,
            ))
      ]

  take_prepared-Keeps : (id : String) → Keeps (OnCache (Bounded t.max_size)) (take_prepared k t id)
  unfolding take_prepared get_and_delete
  take_prepared-Keeps id = record { at = λ s h. go s h (lookup id s.cache) }
    where
      smaller :
          (r : Result CacheError PreparedTransfer) (s : State C)
          → Bounded t.max_size s.cache
          → Bounded t.max_size (fetched k t (r, remove id s.cache) s).1.cache
      smaller (ok p) s h = omega (arith, h, length-remove id s.cache)
      smaller (err e) s h = omega (arith, h, length-remove id s.cache)

      go :
          (s : State C)
          → Bounded t.max_size s.cache
          → (o : Option PreparedTransfer)
          → Bounded t.max_size (fetched k t (taken s.clock o id s.cache) s).1.cache
      go s h none = h
      go s h (some p) = smaller _ s h

  raise_if-Keeps :
      (o : Option Failure) (f : Failure → Failure)
      → Keeps (OnCache {C = C} (Bounded t.max_size)) (raise_if o f)
  raise_if-Keeps none f = Keeps-pure tt
  raise_if-Keeps (some e) f = Keeps-raise (f e)

  ledger :
      {A : Type 0} (f : Failure → Failure) (m : Exec Failure C A)
      → Keeps (OnCache (Bounded t.max_size)) (mapped f (on_canton m))
  ledger f m =
      mapped-Keeps (Bounded t.max_size) f (on_canton m) (on_canton-Keeps (Bounded t.max_size) m)

  find_caller-Keeps :
      (words address : String)
      → Keeps (OnCache (Bounded t.max_size)) (find_caller k t words address)
  unfolding find_caller
  find_caller-Keeps words address = ledger _ _

  topology_check-Keeps :
      (o : Option (String → Exec Failure C Bool)) (party : String)
      → Keeps (OnCache (Bounded t.max_size)) (topology_check k t o party)
  topology_check-Keeps none party = Keeps-raise _
  topology_check-Keeps (some exists) party = Keeps-bind (ledger _ _) (λ known. require-Keeps _ _ _)

  unregistered-Keeps :
      (b : Bool) (token party : String)
      → Keeps (OnCache (Bounded t.max_size)) (unregistered k t b token party)
  unregistered-Keeps true token party = topology_check-Keeps k.party_exists party
  unregistered-Keeps false token party = Keeps-raise _

  check_recipient_party-Keeps :
      (token party : String)
      → Keeps (OnCache (Bounded t.max_size)) (check_recipient_party k t token party)
  unfolding check_recipient_party
  check_recipient_party-Keeps token party = Keeps-bind (Keeps-attempt (on_canton-Keeps _ _)) go
    where
      go :
          (r : Result Failure User)
          → Keeps (OnCache (Bounded t.max_size)) (after_lookup k t r token party)
      go (ok u) = Keeps-pure tt
      go (err e) =
          Keeps-if (k.is_user_not_found e)
            (unregistered-Keeps (t.is_external_token token) token party) (Keeps-raise _)

  resolve_recipient-Keeps :
      (b : Bool) (req : PrepareRequest)
      → Keeps (OnCache (Bounded t.max_size)) (resolve_recipient k t b req)
  resolve_recipient-Keeps true req = Keeps-bind (ledger _ _) (λ u. Keeps-pure _)
  resolve_recipient-Keeps false req = Keeps-bind (raise_if-Keeps _ _) (λ u. Keeps-pure _)

  claimable_transfer-Keeps :
      (party id : String) → Keeps (OnCache (Bounded t.max_size)) (claimable_transfer k t party id)
  unfolding claimable_transfer
  claimable_transfer-Keeps party id = Keeps-bind (on_canton-Keeps _ _) go
    where
      go : (o : Option Offer) → Keeps (OnCache (Bounded t.max_size)) (claimed_of k t o party)
      go none = Keeps-raise _
      go (some o) = Keeps-bind (require-Keeps _ _ _) (λ u.
          Keeps-bind (require-Keeps _ _ _)
            (λ v. Keeps-bind (raise_if-Keeps _ _) (λ w. Keeps-pure _)))

  prepare-Keeps :
      (address : String) (req : PrepareRequest)
      → Keeps (OnCache (Bounded t.max_size)) (prepare k t address req)
  unfolding prepare
  prepare-Keeps address req = Keeps-bind (require-Keeps _ _ _) (λ u.
      Keeps-bind (returned-Keeps _ _) (λ validity. Keeps-bind (find_caller-Keeps _ _) (λ sender.
        Keeps-bind (require-Keeps _ _ _) (λ v. Keeps-bind (require-Keeps _ _ _) (λ w.
          Keeps-bind (resolve_recipient-Keeps _ _) (λ party. Keeps-bind (require-Keeps _ _ _) (λ x.
            Keeps-bind (Keeps-if _ (Keeps-pure _) (check_recipient_party-Keeps _ _))
              (λ y. Keeps-bind (ledger _ _) put_prepared-Keeps))))))))

  execute-Keeps :
      (address : String) (req : ExecuteRequest)
      → Keeps (OnCache (Bounded t.max_size)) (execute k t address req)
  unfolding execute
  execute-Keeps address req = Keeps-bind (find_caller-Keeps _ _) (λ sender.
      Keeps-bind (require-Keeps _ _ _) (λ u.
        Keeps-bind (take_prepared-Keeps _)
          (λ p. Keeps-bind (mapped-Keeps _ _ _ (returned-Keeps _ _)) (λ signature. ledger _ _))))

  send_custodial-Keeps :
      (address : String) (req : CustodialTransferRequest)
      → Keeps (OnCache (Bounded t.max_size)) (send_custodial k t address req)
  unfolding send_custodial
  send_custodial-Keeps address req = Keeps-bind (require-Keeps _ _ _) (λ u.
      Keeps-bind (returned-Keeps _ _) (λ validity. Keeps-bind (raise_if-Keeps _ _) (λ v.
        Keeps-bind (find_caller-Keeps _ _) (λ sender. Keeps-bind (require-Keeps _ _ _) (λ w.
          Keeps-bind (require-Keeps _ _ _)
            (λ x. Keeps-bind (check_recipient_party-Keeps _ _) (λ y. ledger _ _)))))))

  prepare_accept-Keeps :
      (address contract_id admin : String)
      → Keeps (OnCache (Bounded t.max_size)) (prepare_accept k t address contract_id admin)
  unfolding prepare_accept
  prepare_accept-Keeps address contract_id admin =
      Keeps-bind (find_caller-Keeps _ _)
        (λ u. Keeps-bind (require-Keeps _ _ _) (λ v. Keeps-bind (ledger _ _) put_prepared-Keeps))

  prepare_withdraw-Keeps :
      (address contract_id : String)
      → Keeps (OnCache (Bounded t.max_size)) (prepare_withdraw k t address contract_id)
  unfolding prepare_withdraw
  prepare_withdraw-Keeps address contract_id = Keeps-bind (find_caller-Keeps _ _) (λ u.
      Keeps-bind (require-Keeps _ _ _) (λ v.
        Keeps-bind (claimable_transfer-Keeps _ _)
          (λ o. Keeps-bind (ledger _ _) put_prepared-Keeps)))

  withdraw_custodial-Keeps :
      (address contract_id : String)
      → Keeps (OnCache (Bounded t.max_size)) (withdraw_custodial k t address contract_id)
  unfolding withdraw_custodial
  withdraw_custodial-Keeps address contract_id = Keeps-bind (find_caller-Keeps _ _) (λ u.
      Keeps-bind (require-Keeps _ _ _)
        (λ v. Keeps-bind (claimable_transfer-Keeps _ _) (λ o. ledger _ _)))

-- What happens to the service: the calls, the clean-up, and what passes by itself.
pub data Happening (C : Type 0) : Type 0 where
  prepares : String → PrepareRequest → Happening C
  executes : String → ExecuteRequest → Happening C
  sends : String → CustodialTransferRequest → Happening C
  accepts : String → String → String → Happening C
  withdraws withdraws_custodial : String → String → Happening C
  cleans_up : Happening C
  passes : ℕ → C → Happening C

abbrev pub happens : {C : Type 0} → Clients C → Settings → Happening C → State C → State C
happens k t (prepares address req) s = (prepare k t address req s).1
happens k t (executes address req) s = (execute k t address req s).1
happens k t (sends address req) s = (send_custodial k t address req s).1
happens k t (accepts address contract_id admin) s =
    (prepare_accept k t address contract_id admin s).1
happens k t (withdraws address contract_id) s = (prepare_withdraw k t address contract_id s).1
happens k t (withdraws_custodial address contract_id) s =
    (withdraw_custodial k t address contract_id s).1
happens k t cleans_up s = record s { cache = cleanup s.clock s.cache }
happens k t (passes clock canton) s = record s { clock = clock; canton = canton }

abbrev pub all_happen : {C : Type 0} → Clients C → Settings → List (Happening C) → State C → State C
all_happen k t [] s = s
all_happen k t (h ∷ hs) s = all_happen k t hs (happens k t h s)

-- With a limit on the cache: from a cache within it, whatever calls come in whatever order, and whatever the ledger,
-- the user store and the indexer answer, the cache stays within the limit.
pub all_happen-Bounded :
    {C : Type 0} (k : Clients C) (t : Settings) (hs : List (Happening C)) (s : State C)
    → 0 < t.max_size
    → Bounded t.max_size s.cache
    → Bounded t.max_size (all_happen k t hs s).cache
all_happen-Bounded {C = C} k t [] s limited h = h
all_happen-Bounded {C = C} k t (x ∷ hs) s limited h =
    all_happen-Bounded k t hs (happens k t x s) limited (step x)
  where
    step : (x : Happening C) → Bounded t.max_size (happens k t x s).cache
    step (prepares address req) = (prepare-Keeps k t limited address req).at s h
    step (executes address req) = (execute-Keeps k t limited address req).at s h
    step (sends address req) = (send_custodial-Keeps k t limited address req).at s h
    step (accepts address contract_id admin) =
        (prepare_accept-Keeps k t limited address contract_id admin).at s h
    step (withdraws address contract_id) =
        (prepare_withdraw-Keeps k t limited address contract_id).at s h
    step (withdraws_custodial address contract_id) =
        (withdraw_custodial-Keeps k t limited address contract_id).at s h
    step cleans_up = omega (arith, h, length-cleanup s.clock s.cache)
    step (passes clock canton) = h
