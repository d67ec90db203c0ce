-- ===== src/Prelude/Assoc.antt =====
-- A table with a unique key, as the list of its rows: the statements that the stores send, and their laws.
use canton_middleware.Prelude.Tests.{if◌then◌else◌}
use mathlib.Core.Path.{◌≡◌, refl, ap}
use mathlib.Core.Bool.{Bool, true}
use mathlib.Core.Logic.{◌↔◌}
use mathlib.Core.Option.{Option, none, some}
use mathlib.Core.List.{List, [], ◌∷◌}
use native.Mathlib.Omega.{arith}

pub record Eq {ℓ} (A : Type ℓ) : Type ℓ where
  pub beq : A → A → Bool
  pub beq_iff : (a b : A) → (beq a b ≡ true) ↔ (a ≡ b)

abbrev pub map_option : {V : Type 0} → (V → V) → Option V → Option V
map_option f none = none
map_option f (some v) = some (f v)

module _ {K V : Type 0} ⦃e : Eq K⦄ where
  -- SELECT … WHERE key = …
  unfoldable pub lookup : K → List (K × V) → Option V
  lookup k [] = none
  lookup k ((j, v) ∷ rows) = if e.beq j k then some v else lookup k rows

  -- INSERT … ON CONFLICT DO UPDATE.
  unfoldable pub put : K → V → List (K × V) → List (K × V)
  put k v [] = (k, v) ∷ []
  put k v ((j, w) ∷ rows) = if e.beq j k then (j, v) ∷ rows else (j, w) ∷ put k v rows

  -- DELETE … WHERE key = …
  unfoldable pub remove : K → List (K × V) → List (K × V)
  remove k [] = []
  remove k ((j, w) ∷ rows) = let rest = remove k rows in if e.beq j k then rest else (j, w) ∷ rest

  abbrev pub put_if_absent : Option V → K → V → List (K × V) → List (K × V)
  put_if_absent none k v rows = put k v rows
  put_if_absent (some w) k v rows = rows

  -- INSERT … ON CONFLICT DO NOTHING.
  unfoldable pub insert_new : K → V → List (K × V) → List (K × V)
  insert_new k v rows = put_if_absent (lookup k rows) k v rows

  abbrev pub put_if_present : Option V → K → (V → V) → List (K × V) → List (K × V)
  put_if_present none k f rows = rows
  put_if_present (some w) k f rows = put k (f w) rows

  -- UPDATE … WHERE key = …
  unfoldable pub modify : K → (V → V) → List (K × V) → List (K × V)
  modify k f rows = put_if_present (lookup k rows) k f rows

  pub lookup-put :
      (k j : K) (v : V) (rows : List (K × V))
      → lookup j (put k v rows) ≡ (if e.beq k j then some v else lookup j rows)
  unfolding lookup put
  lookup-put k j v [] = refl
  lookup-put k j v ((i, w) ∷ rows) =
      ground (arith, lookup-put k j v rows, e.beq_iff i k, e.beq_iff i j, e.beq_iff k j)

  pub lookup-remove :
      (k j : K) (rows : List (K × V))
      → lookup j (remove k rows) ≡ (if e.beq k j then none else lookup j rows)
  unfolding lookup remove
  lookup-remove k j [] = ground arith
  lookup-remove k j ((i, w) ∷ rows) =
      ground (arith, lookup-remove k j rows, e.beq_iff i k, e.beq_iff i j, e.beq_iff k j)

  same_row : (k j : K) (rows : List (K × V)) → e.beq k j ≡ true → lookup k rows ≡ lookup j rows
  same_row k j rows same = ap (λ i. lookup i rows) ((e.beq_iff k j).0 same)

  -- A row that is there stays when another is inserted.
  pub lookup-insert_new :
      (k j : K) (v w : V) (rows : List (K × V))
      → lookup j rows ≡ some w
      → lookup j (insert_new k v rows) ≡ some w
  unfolding insert_new
  lookup-insert_new k j v w rows found = go (lookup k rows) refl
    where
      go : (o : Option V) → lookup k rows ≡ o → lookup j (put_if_absent o k v rows) ≡ some w
      go none fresh = ground (arith, lookup-put k j v rows, same_row k j rows, fresh, found)
      go (some u) e = found

  pub lookup-modify :
      (k j : K) (f : V → V) (rows : List (K × V))
      → lookup j (modify k f rows)
        ≡ (if e.beq k j then map_option f (lookup j rows) else lookup j rows)
  unfolding modify
  lookup-modify k j f rows = go (lookup k rows) refl
    where
      go :
          (o : Option V)
          → lookup k rows ≡ o
          → lookup j (put_if_present o k f rows)
            ≡ (if e.beq k j then map_option f (lookup j rows) else lookup j rows)
      go none h = ground (arith, same_row k j rows, h)
      go (some u) h = ground (arith, lookup-put k j (f u) rows, same_row k j rows, h)
