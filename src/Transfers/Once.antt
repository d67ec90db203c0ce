-- ===== src/Transfers/Once.antt =====
-- A prepared transfer is executed at most once (`Execute` in pkg/transfer/service.go).
use canton_middleware.Prelude.{
  ℕ, String, Bool, true, false, Option, none, some, List, [], ◌∷◌, ◌≡◌, refl, ◌⊎◌, inl, inr, str_eq,
  eq_refl, if◌then◌else◌,
}
use canton_middleware.Prelude.Assoc.{lookup, remove, lookup-remove}
use canton_middleware.Exec.{Result, ok, err, Exec, continue, pure, raise, ◌>>=◌}
use canton_middleware.Exec.Keeps.{Keeps, Keeps-bind}
use canton_middleware.Failure.{Failure, bad_request_error, forbidden_error}
use canton_middleware.Rpc.Store.{hash_key}
use canton_middleware.Transfers.Types.{PreparedTransfer, ExecuteRequest, User}
use canton_middleware.Transfers.Cache.{CacheError, Entries, get_and_delete, taken}
use canton_middleware.Transfers.Service.{
  State, Clients, Settings, Handler, on_canton, mapped, returned, require, find_caller,
  caller_failure, take_prepared, fetched, execute, signature_failure,
}

-- Only what the cache holds counts.
abbrev pub OnCache : {C : Type 0} → (Entries → Type 0) → State C → Type 0
OnCache P s = P s.cache

module _ {C A : Type 0} (P : Entries → Type 0) where
  pub on_canton-Keeps : (m : Exec Failure C A) → Keeps (OnCache P) (on_canton m)
  unfolding on_canton
  on_canton-Keeps m = record { at = λ s h. h }

  pub mapped-Keeps :
      (f : Failure → Failure) (m : Handler C A)
      → Keeps (OnCache P) m
      → Keeps (OnCache P) (mapped f m)
  unfolding mapped
  mapped-Keeps f m k = record { at = k.at }

  pub returned-Keeps : (r : Result Failure A) → Keeps (OnCache {C = C} P) (returned r)
  unfolding pure raise
  returned-Keeps (ok a) = record { at = λ s h. h }
  returned-Keeps (err e) = record { at = λ s h. h }

pub require-Keeps :
    {C : Type 0} (P : Entries → Type 0) (b : Bool) (e : Failure)
    → Keeps (OnCache {C = C} P) (require b e)
unfolding require pure raise
require-Keeps P true e = record { at = λ s h. h }
require-Keeps P false e = record { at = λ s h. h }

abbrev Absent : String → Entries → Type 0
Absent id entries = lookup id entries ≡ none

abbrev pub Fails : {C A : Type 0} → Result Failure A × State C → Type 0
Fails p = (f : Failure) × (p.0 ≡ err f)

-- A call that succeeds leaves no transfer under the id.
abbrev Spent : {C A : Type 0} → String → Result Failure A × State C → Type 0
Spent id p = Fails p ⊎ Absent id p.1.cache

module _ {C A B : Type 0} (id : String) (m : Handler C A) (f : A → Handler C B) where
  Spent-bind : ((a : A) (s : State C) → Spent id (f a s)) → (s : State C) → Spent id ((m >>= f) s)
  unfolding ◌>>=◌
  Spent-bind h s = go (m s).0 (m s).1
    where
      go : (r : Result Failure A) (s' : State C) → Spent id (continue r f s')
      go (ok a) s' = h a s'
      go (err e) s' = inl (e, refl)

  Fails-bind :
      Keeps (OnCache (Absent id)) m
      → ((a : A) (s : State C) → Absent id s.cache → Fails (f a s))
      → (s : State C) → Absent id s.cache
      → Fails ((m >>= f) s)
  unfolding ◌>>=◌
  Fails-bind k h s absent = go (m s).0 (m s).1 (k.at s absent)
    where
      go : (r : Result Failure A) (s' : State C) → Absent id s'.cache → Fails (continue r f s')
      go (ok a) s' absent = h a s' absent
      go (err e) s' absent = (e, refl)

module _ {C : Type 0} (k : Clients C) (t : Settings) where
  take_prepared-Absent : (id : String) (s : State C) → Absent id (take_prepared k t id s).1.cache
  unfolding take_prepared get_and_delete
  take_prepared-Absent id s = go (lookup id s.cache) refl
    where
      gone :
          (r : Result CacheError PreparedTransfer)
          → Absent id (fetched k t (r, remove id s.cache) s).1.cache
      gone (ok p) = rw (lookup-remove id id s.cache, eq_refl id) refl
      gone (err e) = rw (lookup-remove id id s.cache, eq_refl id) refl

      go :
          (o : Option PreparedTransfer)
          → lookup id s.cache ≡ o
          → Absent id (fetched k t (taken s.clock o id s.cache) s).1.cache
      go none h = h
      go (some p) h = gone _

  take_prepared-Fails :
      (id : String) (s : State C) → Absent id s.cache → Fails (take_prepared k t id s)
  unfolding take_prepared get_and_delete
  take_prepared-Fails id s h = rw h (_, refl)

  -- What follows once the transfer is taken.
  abbrev sign_and_send : ExecuteRequest → PreparedTransfer → Handler C Unit
  sign_and_send req p = do
    signature ←
        mapped (λ e. bad_request_error (some e) "invalid DER signature")
          (returned (k.decode_hex req.signature))
    mapped (λ e. signature_failure (k.grpc_code e) e)
        (on_canton (k.execute_transfer p signature req.signed_by))

  sign_and_send-Keeps :
      (P : Entries → Type 0) (req : ExecuteRequest) (p : PreparedTransfer)
      → Keeps (OnCache P) (sign_and_send req p)
  sign_and_send-Keeps P req p =
      Keeps-bind
        (mapped-Keeps P (λ e. bad_request_error (some e) "invalid DER signature")
          (returned (k.decode_hex req.signature)) (returned-Keeps P (k.decode_hex req.signature)))
        (λ signature.
          mapped-Keeps P (λ e. signature_failure (k.grpc_code e) e)
            (on_canton (k.execute_transfer p signature req.signed_by))
            (on_canton-Keeps P (k.execute_transfer p signature req.signed_by)))

  take_and_send : ExecuteRequest → Handler C Unit
  take_and_send req = take_prepared k t req.transfer_id >>= sign_and_send req

  take_and_send-Spent :
      (req : ExecuteRequest) (s : State C) → Spent req.transfer_id (take_and_send req s)
  unfolding take_and_send ◌>>=◌
  take_and_send-Spent req s = inr (
      go (take_prepared k t req.transfer_id s).0 (take_prepared k t req.transfer_id s).1
        (take_prepared-Absent req.transfer_id s))
    where
      go :
          (r : Result Failure PreparedTransfer) (s' : State C)
          → Absent req.transfer_id s'.cache
          → Absent req.transfer_id (continue r (sign_and_send req) s').1.cache
      go (ok p) s' h = (sign_and_send-Keeps (Absent req.transfer_id) req p).at s' h
      go (err e) s' h = h

  take_and_send-Fails :
      (req : ExecuteRequest) (s : State C)
      → Absent req.transfer_id s.cache
      → Fails (take_and_send req s)
  unfolding take_and_send ◌>>=◌
  take_and_send-Fails req s absent =
      go (take_prepared k t req.transfer_id s) (take_prepared-Fails req.transfer_id s absent)
    where
      go :
          (p : Result Failure PreparedTransfer × State C)
          → Fails p
          → Fails (continue p.0 (sign_and_send req) p.1)
      go (ok q, s') (e, h) = absurd (cc)
      go (err d, s') (e, h) = (d, refl)

  abbrev matches : ExecuteRequest → User → Handler C Unit
  matches req u =
      require (str_eq u.public_key_fingerprint req.signed_by)
        (forbidden_error none "signature fingerprint does not match registered key")

  execute-Spent :
      (address : String) (req : ExecuteRequest) (s : State C)
      → Spent req.transfer_id (execute k t address req s)
  unfolding execute take_and_send
  execute-Spent address req =
      Spent-bind req.transfer_id (find_caller k t "lookup sender: " address)
        (λ u. matches req u >>= λ v. take_and_send req)
        (λ u.
          Spent-bind req.transfer_id (matches req u) (λ v. take_and_send req)
            (λ v. take_and_send-Spent req))

  execute-Fails :
      (address : String) (req : ExecuteRequest) (s : State C)
      → Absent req.transfer_id s.cache
      → Fails (execute k t address req s)
  unfolding execute take_and_send find_caller
  execute-Fails address req =
      Fails-bind req.transfer_id (find_caller k t "lookup sender: " address)
        (λ u. matches req u >>= λ v. take_and_send req)
        (mapped-Keeps (Absent req.transfer_id) (caller_failure k t "lookup sender: ")
          (on_canton (k.get_user_by_evm_address address))
          (on_canton-Keeps (Absent req.transfer_id) (k.get_user_by_evm_address address)))
        (λ u s.
          Fails-bind req.transfer_id (matches req u) (λ v. take_and_send req)
            (require-Keeps (Absent req.transfer_id) (str_eq u.public_key_fingerprint req.signed_by)
              (forbidden_error none "signature fingerprint does not match registered key"))
            (λ v. take_and_send-Fails req) s)

  fetched-Absent :
      (id : String) (r : Result CacheError PreparedTransfer) (entries : Entries) (s : State C)
      → Absent id entries
      → Absent id (fetched k t (r, entries) s).1.cache
  fetched-Absent id (ok p) entries s h = h
  fetched-Absent id (err e) entries s h = h

  remove-Absent :
      (id other : String) (entries : Entries) → Absent id entries → Absent id (remove other entries)
  remove-Absent id other entries h = rw (lookup-remove other id entries, h) (go (str_eq other id))
    where
      go : (b : Bool) → ◌≡◌ {A = Option PreparedTransfer} (if b then none else none) none
      go true = refl
      go false = refl

  take_prepared-Keeps : (id other : String) → Keeps (OnCache (Absent id)) (take_prepared k t other)
  unfolding take_prepared get_and_delete
  take_prepared-Keeps id other = record { at = λ s h. go s h (lookup other s.cache) }
    where
      go :
          (s : State C)
          → Absent id s.cache
          → (o : Option PreparedTransfer)
          → Absent id (fetched k t (taken s.clock o other s.cache) s).1.cache
      go s h none = h
      go s h (some p) =
          fetched-Absent id _ (remove other s.cache) s (remove-Absent id other s.cache h)

  execute-Keeps :
      (id address : String) (req : ExecuteRequest)
      → Keeps (OnCache (Absent id)) (execute k t address req)
  unfolding execute find_caller
  execute-Keeps id address req =
      Keeps-bind
        (mapped-Keeps (Absent id) _ _
          (on_canton-Keeps (Absent id) (k.get_user_by_evm_address address)))
        (λ u. Keeps-bind (require-Keeps (Absent id) _ _) (λ v.
          Keeps-bind (take_prepared-Keeps id req.transfer_id)
            (sign_and_send-Keeps (Absent id) req)))

-- An execution that is asked for: who asks, for what, and the time and the clients' state then.
pub record Attempt (C : Type 0) : Type 0 where
  pub address : String
  pub request : ExecuteRequest
  pub clock : ℕ
  pub canton : C

module _ {C : Type 0} (k : Clients C) (t : Settings) where
  abbrev pub attempted : Attempt C → State C → Result Failure Unit × State C
  attempted a s = execute k t a.address a.request (record s { clock = a.clock; canton = a.canton })

  abbrev pub all_attempted : List (Attempt C) → State C → State C
  all_attempted [] s = s
  all_attempted (a ∷ attempts) s = all_attempted attempts (attempted a s).1

  all_attempted-Absent :
      (id : String) (attempts : List (Attempt C)) (s : State C)
      → Absent id s.cache
      → Absent id (all_attempted attempts s).cache
  all_attempted-Absent id [] s h = h
  all_attempted-Absent id (a ∷ attempts) s h = all_attempted-Absent id attempts (attempted a s).1 (
      (execute-Keeps k t id a.address a.request).at
        (record s { clock = a.clock; canton = a.canton }) h)

  -- Once an execution of a prepared transfer has succeeded, and executions of whatever ids have followed, an
  -- execution of the same id fails, whoever asks for it, whatever the request says, at whatever time and whatever
  -- has become of the ledger.
  pub execute_twice :
      (first second : Attempt C) (between : List (Attempt C)) (s : State C)
      → (attempted first s).0 ≡ ok tt
      → second.request.transfer_id ≡ first.request.transfer_id
      → Fails (attempted second (all_attempted between (attempted first s).1))
  execute_twice first second between s done same = go (
      execute-Spent k t first.address first.request
        (record s { clock = first.clock; canton = first.canton }))
    where
      go :
          Spent first.request.transfer_id (attempted first s)
          → Fails (attempted second (all_attempted between (attempted first s).1))
      go (inl (e, h)) = absurd (cc)
      go (inr absent) =
          let u = all_attempted between (attempted first s).1 in
          execute-Fails k t second.address second.request
            (record u { clock = second.clock; canton = second.canton })
            (rw same
              (all_attempted-Absent first.request.transfer_id between (attempted first s).1 absent))
