-- ===== src/Indexer/Resume.antt =====
-- Where the indexer resumes (`Run` in pkg/indexer/engine/processor.go).
use canton_middleware.Prelude.{ℕ, Option, some, List, [], ◌∷◌, ◌++◌, ◌≡◌, refl, ◌∙◌, ap}
use canton_middleware.Prelude.Int.{ℤ}
use canton_middleware.Exec.{Result, ok, err, continue, ◌>>=◌}
use canton_middleware.Indexer.Store.{Db, Error, Decimals}
use canton_middleware.Indexer.Processor.{Batch, process_batch_with_retry, run_batches}
use canton_middleware.Indexer.Batches.{Atomic, process_batch_with_retry-Atomic}

-- The offset of the last of some batches.
abbrev pub last_offset : Option ℤ → List Batch → Option ℤ
last_offset old [] = old
last_offset old (batch ∷ batches) = last_offset (some batch.offset) batches

module _ {N : Type 0} (dec : Decimals N) (tries : ℕ) where
  -- Each of some batches was written, in their order: each try starts from what the one before left.
  abbrev pub Written : Db → List Batch → Db → Type 0
  Written s [] s' = s ≡ s'
  Written s (batch ∷ batches) s' =
      (between : Db) × (process_batch_with_retry dec tries batch s ≡ (ok tt, between))
      × Written between batches s'

  -- A run that has come to a database ends there if no batch is left, and else with the failure of the next one,
  -- which leaves the tables alone.
  abbrev pub Stops : Db → List Batch → Result Error Unit × Db → Type 0
  Stops s [] p = p ≡ (ok tt, s)
  Stops s (batch ∷ batches) p =
      (e : Error) × (process_batch_with_retry dec tries batch s ≡ p)
      × (p.0 ≡ err e)
      × (p.1.tables ≡ s.tables)

  -- The batches are those that were written, the last of which is the saved offset, and those that were not.
  abbrev pub Resumes : Db → List Batch → Result Error Unit × Db → Type 0
  Resumes s batches p =
      (written : List Batch) × (rest : List Batch) × (s' : Db) × (batches ≡ written ++ rest)
      × Written s written s'
      × Stops s' rest p
      × (p.1.tables.offset ≡ last_offset s.tables.offset written)

  after-Resumes :
      (batch : Batch) (batches : List Batch) (s : Db) (r : Result Error Unit) (s₁ : Db)
      → process_batch_with_retry dec tries batch s ≡ (r, s₁)
      → Atomic batch.offset s.tables (r, s₁)
      → Resumes s₁ batches (run_batches dec tries batches s₁)
      → Resumes s (batch ∷ batches) (continue r (λ u. run_batches dec tries batches) s₁)
  after-Resumes batch batches s (ok u) s₁ did k (done, rest, s', split, wrote, stops, saved) = (
    batch ∷ done,
    rest,
    s',
    ap (λ bs. batch ∷ bs) split,
    (s₁, did, wrote),
    stops,
    saved ∙ ap (λ o. last_offset o done) k,
  )
  after-Resumes batch batches s (err e) s₁ did k h =
      ([], batch ∷ batches, s, refl, refl, (e, did, refl, k), ap (λ t. t.offset) k)

  -- However many tries a batch has, whatever statements fail: a run writes the batches in their order, each from
  -- what the one before left, up to the first that fails, and none after that; it ends with the error of that one
  -- and the tables as the last written batch left them, or well if there is none that fails; and the saved offset
  -- is that of the last batch written, or the old one if there is none.
  pub run_batches-Resumes :
      (batches : List Batch) (s : Db) → Resumes s batches (run_batches dec tries batches s)
  unfolding run_batches ◌>>=◌
  run_batches-Resumes [] s = ([], [], s, refl, refl, refl, refl)
  run_batches-Resumes (batch ∷ batches) s =
      after-Resumes batch batches s (process_batch_with_retry dec tries batch s).0
        (process_batch_with_retry dec tries batch s).1 refl
        (process_batch_with_retry-Atomic dec tries batch s)
        (run_batches-Resumes batches (process_batch_with_retry dec tries batch s).1)
