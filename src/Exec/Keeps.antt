-- ===== src/Exec/Keeps.antt =====
-- What an action preserves, whether it returns or fails: one rule for each way to build an action.
use canton_middleware.Prelude.{Bool, true, false, if◌then◌else◌}
use canton_middleware.Exec.{Result, ok, err, Exec, pure, raise, ignore, attempt, ◌>>=◌}
use canton_middleware.Exec

pub record Keeps {E S A : Type 0} (P : S → Type 0) (m : Exec E S A) : Type 0 where
  pub at : (s : S) → P s → P (m s).1

module _ {E S A : Type 0} {P : S → Type 0} where
  pub Keeps-pure : (a : A) → Keeps {E = E} P (pure a)
  unfolding pure
  Keeps-pure a = record { at = λ s h. h }

  pub Keeps-raise : (e : E) → Keeps {A = A} P (raise e)
  unfolding raise
  Keeps-raise e = record { at = λ s h. h }

  pub Keeps-ignore : {m : Exec E S A} → Keeps P m → Keeps P (ignore m)
  unfolding ignore
  Keeps-ignore k = record { at = k.at }

  pub Keeps-attempt : {m : Exec E S A} → Keeps P m → Keeps P (attempt m)
  unfolding attempt
  Keeps-attempt k = record { at = k.at }

  pub Keeps-if :
      (b : Bool) {m n : Exec E S A} → Keeps P m → Keeps P n → Keeps P (if b then m else n)
  Keeps-if true k l = k
  Keeps-if false k l = l

module _ {E S A B : Type 0} {P : S → Type 0} where
  pub Keeps-bind :
      {m : Exec E S A} {f : A → Exec E S B}
      → Keeps P m
      → ((a : A) → Keeps P (f a))
      → Keeps P (m >>= f)
  unfolding ◌>>=◌
  Keeps-bind {m} {f} k l = record { at = λ s h. after (m s).0 (m s).1 (k.at s h) }
    where
      after : (r : Result E A) (s' : S) → P s' → P (Exec.continue r f s').1
      after (ok a) s' h = (l a).at s' h
      after (err e) s' h = h

pub ruleset keeps_rules =
    (Keeps-pure, Keeps-raise, Keeps-ignore, Keeps-attempt, Keeps-if, Keeps-bind)
