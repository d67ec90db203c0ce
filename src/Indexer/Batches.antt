-- ===== src/Indexer/Batches.antt =====
-- What a batch does to the indexer's tables (`processBatch` and `processBatchWithRetry` in
-- pkg/indexer/engine/processor.go), whatever statements fail and whatever the items are.
use canton_middleware.Prelude.{
  ℕ, zero, suc, String, Bool, true, false, none, some, List, ◌≡◌, ◌≢◌, refl, sym, ◌∙◌, ap,
  Bool-cases, inl, inr, str_eq, str_ne, if◌then◌else◌,
}
use canton_middleware.Prelude.Assoc.{
  lookup, put, insert_new, modify, lookup-put, lookup-insert_new, lookup-modify, map_option,
}
use canton_middleware.Prelude.Int.{ℤ}
use canton_middleware.Exec.{Result, ok, err, continue, ◌>>=◌, ◌>>◌}
use canton_middleware.Exec.Faults.{is_faulty}
use mathlib.Core.Path.{subst}
use canton_middleware.Indexer.Types.{Transfer, ParsedEvent, transfer_status_pending}
use canton_middleware.Indexer.Store.{
  Db, Tables, Action, insert_event, query, BalanceKey, balance_key, string_key, Decimals, Error,
  statement, execute, run_in_tx, if_ok, save_offset, finalized,
}
use canton_middleware.Indexer.Processor.{
  Batch, process_batch, process_batch_with_retry, process_items, process_transfer_event,
  stop_or_retry,
}
use canton_middleware.Indexer.Effects.{Stable, process_batch-Holds}

-- A batch is written as a whole, with its offset, or not at all.
abbrev pub Atomic : ℤ → Tables → Result Error Unit × Db → Type 0
Atomic offset old (ok u, s) = s.tables.offset ≡ some offset
Atomic offset old (err e, s) = s.tables ≡ old

-- What a successful action leaves as the saved offset.
abbrev Saves : ℤ → Result Error Unit × Db → Type 0
Saves offset (ok u, s) = s.tables.offset ≡ some offset
Saves offset (err e, s) = Unit

save_offset-Saves : (offset : ℤ) (s : Db) → Saves offset (save_offset offset s)
unfolding save_offset execute statement ◌>>=◌
save_offset-Saves offset s = elim (Bool-cases (is_faulty s.faults)) [
  | inl bad ↦ rw bad tt
  | inr good ↦ rw good refl
]

after-Saves :
    (offset : ℤ) (r : Result Error Unit) (next : Unit → Action Unit) (s : Db)
    → ((s : Db) → Saves offset (next tt s))
    → Saves offset (continue r next s)
after-Saves offset (ok u) next s k = k s
after-Saves offset (err e) next s k = tt

commit-Atomic :
    (offset : ℤ) (old : Tables) (r : Result Error Unit) (s : Db)
    → Saves offset (r, s)
    → Atomic offset old
        (if_ok (continue r (λ u. statement) s).0 old (continue r (λ u. statement) s).1)
unfolding statement
commit-Atomic offset old (err e) s k = refl
commit-Atomic offset old (ok u) s k = elim (Bool-cases (is_faulty s.faults)) [
  | inl bad ↦ rw bad refl
  | inr good ↦ rw good k
]

again-Atomic :
    (offset : ℤ) (old : Tables) (r : Result Error Unit) (s : Db) (again : Action Unit)
    → Atomic offset old (r, s)
    → ((s' : Db) → Atomic offset s'.tables (again s'))
    → Atomic offset old (stop_or_retry (r, s) again)
again-Atomic offset old (ok u) s again k h = k
again-Atomic offset old (err e) s again k h = subst (λ t. Atomic offset t (again s)) k (h s)

module _ {N : Type 0} (dec : Decimals N) where
  -- A batch that succeeds leaves its offset as the saved one; a batch that fails leaves every table as it was.
  process_batch-Atomic :
      (batch : Batch) (s : Db) → Atomic batch.offset s.tables (process_batch dec batch s)
  unfolding process_batch run_in_tx ◌>>=◌
  process_batch-Atomic batch s = commit-Atomic batch.offset s.tables _ _ (
      after-Saves batch.offset (statement s).0
        (λ u. process_items dec batch.items >> save_offset batch.offset) (statement s).1
        (λ s'.
          after-Saves batch.offset (process_items dec batch.items s').0
            (λ u. save_offset batch.offset) _ (save_offset-Saves batch.offset)))

  -- However often a batch is tried: if the last try succeeds, the saved offset is the batch's; if it fails, every
  -- table is as it was before the first.
  pub process_batch_with_retry-Atomic :
      (tries : ℕ) (batch : Batch) (s : Db)
      → Atomic batch.offset s.tables (process_batch_with_retry dec tries batch s)
  unfolding process_batch_with_retry
  process_batch_with_retry-Atomic zero batch s = process_batch-Atomic batch s
  process_batch_with_retry-Atomic (suc n) batch s =
      again-Atomic batch.offset s.tables (process_batch dec batch s).0 (process_batch dec batch s).1
        (process_batch_with_retry dec n batch) (process_batch-Atomic batch s)
        (λ s'. process_batch_with_retry-Atomic n batch s')

  -- An event whose contract id has a row changes no table when it is processed again.
  pub process_transfer_event_again :
      (e f : ParsedEvent) (s : Db)
      → lookup e.contract_id s.tables.events ≡ some f
      → (process_transfer_event dec e s).1.tables ≡ s.tables
  unfolding process_transfer_event insert_event query statement insert_new ◌>>=◌
  process_transfer_event_again e f s found = elim (Bool-cases (is_faulty s.faults)) [
    | inl bad ↦ rw bad refl
    | inr good ↦ simp (good, found) refl
  ]

-- A text that is the text of a number that is not negative.
abbrev pub IsAmount : {N : Type 0} → Decimals N → String → Type 0
IsAmount {N} dec text = (n : N) × (dec.new_from_string text ≡ some n) × (dec.is_negative n ≡ false)

abbrev pub IsNonNegative : {N : Type 0} → Decimals N → List (BalanceKey × String) → Type 0
IsNonNegative dec balances =
    (key : BalanceKey) (text : String) → lookup key balances ≡ some text → IsAmount dec text

-- shopspring/decimal reads back the text that it writes.
pub record ReadsBack {N : Type 0} (dec : Decimals N) : Type 0 where
  pub read_back : (n : N) → dec.new_from_string (dec.to_string n) ≡ some n

module _ {N : Type 0} (dec : Decimals N) (law : ReadsBack dec) where
  put-IsNonNegative :
      (key : BalanceKey) (n : N) (balances : List (BalanceKey × String))
      → dec.is_negative n ≡ false
      → IsNonNegative dec balances
      → IsNonNegative dec (put key (dec.to_string n) balances)
  put-IsNonNegative key n balances positive h j text found =
      go (balance_key.beq key j) refl (sym (lookup-put key j (dec.to_string n) balances) ∙ found)
    where
      go :
          (b : Bool)
          → balance_key.beq key j ≡ b
          → (if b then some (dec.to_string n) else lookup j balances) ≡ some text
          → IsAmount dec text
      go true e k = (
        n,
        ap (λ o. elim o [ none ↦ none | some t ↦ dec.new_from_string t ]) (sym k) ∙ law.read_back n,
        positive,
      )
      go false e k = h j text k

  -- If every balance is a number that is not negative before a batch, so is every one after it, whatever the
  -- items of the batch are, whatever statements fail, and whether or not the batch succeeds.
  pub process_batch-IsNonNegative :
      (batch : Batch) (s : Db)
      → IsNonNegative dec s.tables.balances
      → IsNonNegative dec (process_batch dec batch s).1.tables.balances
  process_batch-IsNonNegative batch s h = (process_batch-Holds stable batch).at s h
    where
      stable : Stable dec (λ balances transfers. IsNonNegative dec balances)
      stable = record {
        on_balance =
            λ key n balances transfers positive k. put-IsNonNegative key n balances positive k;
        on_insert = λ t balances transfers k. k;
        on_finalize = λ id status balances transfers k. k;
      }

module _ {N : Type 0} (dec : Decimals N) where
  -- A transfer that is no longer pending keeps its row, in every field, through every batch: no offer of a later
  -- event with its contract id and no archive changes it.
  pub process_batch-final :
      (batch : Batch) (id : String) (t : Transfer) (s : Db)
      → t.status ≢ transfer_status_pending
      → lookup id s.tables.transfers ≡ some t
      → lookup id (process_batch dec batch s).1.tables.transfers ≡ some t
  process_batch-final batch id t s settled found = (process_batch-Holds stable batch).at s found
    where
      finalized_again :
          (k status : String) (rows : List (String × Transfer))
          → lookup id rows ≡ some t
          → lookup id (modify k (finalized status) rows) ≡ some t
      finalized_again k status rows e =
          lookup-modify k id (finalized status) rows ∙ rw e (go (str_eq k id))
        where
          go : (b : Bool) → (if b then map_option (finalized status) (some t) else some t) ≡ some t
          go true = rw (str_ne t.status transfer_status_pending settled)
          go false = refl

      stable : Stable dec (λ balances transfers. lookup id transfers ≡ some t)
      stable = record {
        on_balance = λ key n balances transfers positive k. k;
        on_insert = λ u balances transfers k. lookup-insert_new u.contract_id id u t transfers k;
        on_finalize = λ k status balances transfers e. finalized_again k status transfers e;
      }
