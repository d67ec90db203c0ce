-- ===== src/Rpc/Runs.antt =====
-- What the statements of a block do while its transaction is open: either one fails, or the run has the value and the
-- tables that a function of the tables before gives. `clock` is the time of the tick.
use canton_middleware.Prelude.{
  ℕ, Bool, true, List, [], ◌∷◌, ◌≡◌, ◌≢◌, refl, ◌∙◌, ◌⊎◌, inl, inr, Bool-cases,
}
use canton_middleware.Exec.{Result, ok, err, continue, ◌>>=◌}
use canton_middleware.Exec.Faults.{is_faulty, rest_of}
use canton_middleware.Rpc.Store.{
  Tables, Db, Error, database_error, Action, statement, query, execute,
}

abbrev pub Fails : {A : Type 0} → Db → Result Error A → Type 0
Fails s r = (r ≡ err database_error) × (s.faults ≢ [])

abbrev pub Succeeds :
    {A : Type 0} → (Tables → A) → (Tables → Tables) → Db → Result Error A × Db → Type 0
Succeeds v f s p = (p.0 ≡ ok (v s.tables)) × (p.1.tables ≡ f s.tables)

-- The open transaction, the time and a database that does not fail stay as they are.
abbrev pub Framed : ℕ → Db → Db → Type 0
Framed clock s s' = (s'.before ≡ s.before) × (s'.clock ≡ clock) × (s.faults ≡ [] → s'.faults ≡ [])

abbrev pub Ran :
    {A : Type 0} → ℕ → (Tables → A) → (Tables → Tables) → Db → Result Error A × Db → Type 0
Ran clock v f s p = Framed clock s p.1 × (Fails s p.0 ⊎ Succeeds v f s p)

abbrev pub Runs : {A : Type 0} → ℕ → Action A → (Tables → A) → (Tables → Tables) → Type 0
Runs clock m v f = (s : Db) → s.clock ≡ clock → Ran clock v f s (m s)

faulty_cons : (l : List Bool) → is_faulty l ≡ true → l ≢ []
unfolding is_faulty
faulty_cons [] h p = absurd (cc)
faulty_cons (b ∷ l) h p = absurd (cc)

rest_of_nil : (l : List Bool) → l ≡ [] → rest_of l ≡ []
unfolding rest_of
rest_of_nil [] h = refl
rest_of_nil (b ∷ l) h = absurd (cc)

pub statement-Runs : (clock : ℕ) → Runs clock statement (λ t. tt) (λ t. t)
unfolding statement
statement-Runs clock s time = elim (Bool-cases (is_faulty s.faults)) [
  | inl e ↦ ((refl, time, rest_of_nil s.faults), inl (rw e refl, faulty_cons s.faults e))
  | inr e ↦ ((refl, time, rest_of_nil s.faults), inr (rw e refl, refl))
]

module _ {A B : Type 0} (clock : ℕ) (m : Action A) (n : A → Action B) (v : Tables → A)
    (f : Tables → Tables) (w : A → Tables → B) (g : A → Tables → Tables) where
  then-Ran :
      (s s' : Db) (a : A) (p : Result Error B × Db)
      → Framed clock s s'
      → a ≡ v s.tables
      → s'.tables ≡ f s.tables
      → Ran clock (w a) (g a) s' p
      → Ran clock (λ t. w (v t) (f t)) (λ t. g (v t) (f t)) s p
  then-Ran s s' a p frame value tables (frame', inl (failed, faulty)) = (
    (frame'.0 ∙ frame.0, frame'.1, λ none. frame'.2 (frame.2 none)),
    inl (failed, λ none. faulty (frame.2 none)),
  )
  then-Ran s s' a p frame value tables (frame', inr (done, after)) =
      ((frame'.0 ∙ frame.0, frame'.1, λ none. frame'.2 (frame.2 none)), inr (cc, cc))

  pub bind-Runs :
      Runs clock m v f
      → ((a : A) → Runs clock (n a) (w a) (g a))
      → Runs clock (m >>= n) (λ t. w (v t) (f t)) (λ t. g (v t) (f t))
  unfolding ◌>>=◌
  bind-Runs hm hn s time = go (m s).0 (m s).1 (hm s time)
    where
      go :
          (r : Result Error A) (s' : Db)
          → Ran clock v f s (r, s')
          → Ran clock (λ t. w (v t) (f t)) (λ t. g (v t) (f t)) s (continue r n s')
      go (err e) s' (frame, inl (failed, faulty)) = (frame, inl (cc, faulty))
      go (err e) s' (frame, inr (done, after)) = absurd (cc)
      go (ok a) s' (frame, inl (failed, faulty)) = absurd (cc)
      go (ok a) s' (frame, inr (done, after)) =
          then-Ran s s' a (n a s') frame (cc) after (hn a s' frame.1)

pub pure-Runs :
    {A : Type 0} (clock : ℕ) (v : Tables → A) (f : Tables → Tables)
    → Runs clock (λ s. (ok (v s.tables), record s { tables = f s.tables })) v f
pure-Runs clock v f s time = ((refl, time, λ none. none), inr (refl, refl))

pub query-Runs : {A : Type 0} (clock : ℕ) (v : Tables → A) → Runs clock (query v) v (λ t. t)
unfolding query
query-Runs clock v =
    bind-Runs clock statement (λ u. λ s. (ok (v s.tables), s)) (λ t. tt) (λ t. t) (λ u. v)
      (λ u. λ t. t) (statement-Runs clock) (λ u. pure-Runs clock v (λ t. t))

pub execute-Runs : (clock : ℕ) (f : Tables → Tables) → Runs clock (execute f) (λ t. tt) f
unfolding execute
execute-Runs clock f =
    bind-Runs clock statement (λ u. λ s. (ok tt, record s { tables = f s.tables })) (λ t. tt)
      (λ t. t) (λ u t. tt) (λ u. f) (statement-Runs clock) (λ u. pure-Runs clock (λ t. tt) f)

-- A statement that fails has no effect.
abbrev pub Either : Tables → Tables → Tables → Type 0
Either old new t = (t ≡ old) ⊎ (t ≡ new)

-- The whole of what a statement that writes can do.
abbrev pub Decides : (Tables → Tables) → Db → Result Error Unit × Db → Type 0
Decides f s p =
    (p.1.before ≡ s.before)
    × (((p.0 ≡ err database_error) × (p.1.tables ≡ s.tables))
        ⊎ ((p.0 ≡ ok tt) × (p.1.tables ≡ f s.tables)))

pub execute-Decides : (f : Tables → Tables) (s : Db) → Decides f s (execute f s)
unfolding execute statement ◌>>=◌
execute-Decides f s = elim (Bool-cases (is_faulty s.faults)) [
  | inl e ↦ simp (e) (refl, inl (refl, refl))
  | inr e ↦ simp (e) (refl, inr (refl, refl))
]

pub execute-Either :
    (f : Tables → Tables) (s : Db)
    → ((execute f s).1.before ≡ s.before) × Either s.tables (f s.tables) (execute f s).1.tables
execute-Either f s = go (execute-Decides f s)
  where
    go :
        Decides f s (execute f s)
        → ((execute f s).1.before ≡ s.before) × Either s.tables (f s.tables) (execute f s).1.tables
    go (closed, inl (failed, same)) = (closed, inl same)
    go (closed, inr (done, after)) = (closed, inr after)
