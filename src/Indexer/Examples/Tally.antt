-- ===== src/Indexer/Examples/Tally.antt =====
-- Decimals for the examples: whole numbers, written as tallies with a minus sign in front.
use Prim.Native.Nat.{ℕ, zero, suc}
use Prim.Native.Char.{code}
use Prim.Native.String.{String, [], ◌∷◌}
use mathlib.Core.Path.{◌≡◌, refl, ap}
use mathlib.Core.Option.{Option, none, some}
use canton_middleware.Prelude.{◌==◌, if◌then◌else◌}
use canton_middleware.Prelude.Int.{ℤ, pos, negsuc, ◌+ℤ◌, is_negative, is_zero}
use canton_middleware.Indexer.Store.{Decimals}
use canton_middleware.Indexer.Batches.{ReadsBack}

tally : ℕ → String
tally zero = []
tally (suc n) = "I" ∷ tally n

unfoldable pub count : String → ℕ
count [] = 0
count (c ∷ s) = suc (count s)

unfoldable pub write : ℤ → String
unfolding tally
write (pos n) = tally n
write (negsuc n) = "-" ∷ tally (suc n)

abbrev pub minus : ℕ → ℤ
minus zero = pos 0
minus (suc n) = negsuc n

unfoldable pub read : String → Option ℤ
unfolding count
read [] = some (pos 0)
read (c ∷ s) = some (if code c == b'-' then minus (count s) else pos (suc (count s)))

unfoldable pub summed : Option ℤ → Option ℤ → Option String
unfolding write
summed (some a) (some b) = some (write (a +ℤ b))
summed _ _ = none

unfoldable pub sum : String → String → Option String
unfolding summed read
sum s t = summed (read s) (read t)

abbrev pub tallies : Decimals ℤ
tallies = record {
  zero = pos 0;
  new_from_string = read;
  add = λ a b. a +ℤ b;
  is_negative = is_negative;
  is_zero = is_zero;
  to_string = write;
  numeric_add = sum;
}

count-tally : (n : ℕ) → count (tally n) ≡ n
unfolding count tally
count-tally zero = refl
count-tally (suc n) = ap suc (count-tally n)

read-write : (a : ℤ) → read (write a) ≡ some a
unfolding read write
read-write (pos zero) = refl
read-write (pos (suc n)) = rw (count-tally n) refl
read-write (negsuc n) = rw (count-tally n) refl

pub tallies-ReadsBack : ReadsBack tallies
tallies-ReadsBack = record { read_back = read-write }
