-- ===== src/Transfers/Claims.antt =====
-- The guards of a claim and of a validity (pkg/transfer/service.go).
use canton_middleware.Prelude.{
  ℕ, zero, suc, String, Bool, true, false, Option, none, some, ◌≡◌, ◌≢◌, refl, sym, inl, inr, ap,
  if◌then◌else◌, str_eq, eq_iff, leb, leb→le, arith, ◌≤◌, ◌<◌, ◌*◌, ◌^◌, ◌⊎◌, ◌↔◌, Bool-cases,
}
use mathlib.Core.Path.{subst}
use canton_middleware.Prelude.Int.{ℤ, pos, negsuc}
use canton_middleware.Exec.{Result, ok, err, continue, pure, raise, ◌>>=◌, ◌>>◌}
use canton_middleware.Failure.{Failure, bad_request_error}
use canton_middleware.Transfers.Types.{Offer}
use canton_middleware.Transfers.Checks.{validity_duration, max_validity_seconds}
use canton_middleware.Transfers.Service.{
  State, Clients, Settings, Handler, on_canton, require, raise_if, not_claimable, claimed_of,
  claimable_transfer,
}

-- An offer that a party may claim back: it sent the offer, which is in two steps and is not settled.
abbrev pub Claim : String → Offer → Type 0
Claim party o =
    (o.from_party_id ≡ party)
    × (o.kind ≡ "offer")
    × (o.status ≢ "completed")
    × (o.status ≢ "canceled")
    × (o.status ≢ "rejected")

-- The checks one after another, on the tests that they make.
abbrev guarded : {C : Type 0} → Offer → Bool → Bool → Bool → Bool → Bool → Handler C Offer
guarded x is_sender is_offer is_completed is_canceled is_rejected = do
  require is_sender not_claimable
  require is_offer (bad_request_error none "only offer-based transfers can be claimed back")
  raise_if
      (if is_completed
        then some (bad_request_error none "transfer already completed; nothing to claim back")
        else if is_canceled
        then some (bad_request_error none "transfer already canceled; nothing to claim back")
        else if is_rejected
        then some
            (bad_request_error none "transfer was rejected by the receiver; nothing to claim back")
        else none)
      (λ e. e)
  pure x

abbrev Passed : Offer → Offer → Bool → Bool → Bool → Bool → Bool → Type 0
Passed x o is_sender is_offer is_completed is_canceled is_rejected =
    (x ≡ o)
    × (is_sender ≡ true)
    × (is_offer ≡ true)
    × (is_completed ≡ false)
    × (is_canceled ≡ false)
    × (is_rejected ≡ false)

of_ok : {A : Type 0} (x o : A) → ◌≡◌ {A = Result Failure A} (ok x) (ok o) → x ≡ o
of_ok x o h = cc

guarded-Passed :
    {C : Type 0} (x o : Offer) (a b c d e : Bool) (s : State C)
    → ((guarded x a b c d e s).0 ≡ ok o) ↔ Passed x o a b c d e
unfolding pure raise require ◌>>=◌
guarded-Passed x o false b c d e s = ((λ h. absurd (cc)), λ p. absurd (cc))
guarded-Passed x o true false c d e s = ((λ h. absurd (cc)), λ p. absurd (cc))
guarded-Passed x o true true true d e s = ((λ h. absurd (cc)), λ p. absurd (cc))
guarded-Passed x o true true false true e s = ((λ h. absurd (cc)), λ p. absurd (cc))
guarded-Passed x o true true false false true s = ((λ h. absurd (cc)), λ p. absurd (cc))
guarded-Passed x o true true false false false s =
    ((λ h. (of_ok x o h, refl, refl, refl, refl, refl)), λ p. ap (λ y. ok y) p.0)

differs : (a b : String) → (str_eq a b ≡ false) ↔ (a ≢ b)
differs a b = (
  (λ f e. let t : str_eq a b ≡ true = (eq_iff a b).1 e in cc),
  λ n. by (Bool-cases (str_eq a b)) n,
)
  where
    by : (str_eq a b ≡ true) ⊎ (str_eq a b ≡ false) → a ≢ b → str_eq a b ≡ false
    by (inl t) n = absurd (n ((eq_iff a b).0 t))
    by (inr f) n = f

tests-Claim :
    (party : String) (x : Offer)
    → ((str_eq x.from_party_id party ≡ true)
        × (str_eq x.kind "offer" ≡ true)
        × (str_eq x.status "completed" ≡ false)
        × (str_eq x.status "canceled" ≡ false)
        × (str_eq x.status "rejected" ≡ false))
      ↔ Claim party x
tests-Claim party x = (
  (λ p. (
    (eq_iff x.from_party_id party).0 p.0,
    (eq_iff x.kind "offer").0 p.1,
    (differs x.status "completed").0 p.2,
    (differs x.status "canceled").0 p.3,
    (differs x.status "rejected").0 p.4,
  )),
  λ p. (
    (eq_iff x.from_party_id party).1 p.0,
    (eq_iff x.kind "offer").1 p.1,
    (differs x.status "completed").1 p.2,
    (differs x.status "canceled").1 p.3,
    (differs x.status "rejected").1 p.4,
  ),
)

module _ {C : Type 0} (k : Clients C) (t : Settings) (party : String) (o : Offer) where
  of_found :
      (x : Offer) → ◌≡◌ {A = Result Failure (Option Offer)} (ok (some x)) (ok (some o)) → x ≡ o
  of_found x h = cc

  claimed_of-Claim :
      (r : Result Failure (Option Offer)) (s : State C)
      → ((continue r (λ found. claimed_of k t found party) s).0 ≡ ok o)
        ↔ ((r ≡ ok (some o)) × Claim party o)
  unfolding raise
  claimed_of-Claim (err e) s = ((λ h. absurd (cc)), λ p. absurd (cc))
  claimed_of-Claim (ok none) s = ((λ h. absurd (cc)), λ p. absurd (cc))
  claimed_of-Claim (ok (some x)) s = (
    (λ h.
        let p = passed.0 h in
        (
          ap (λ y. ok (some y)) p.0,
          subst (Claim party) p.0 ((tests-Claim party x).0 (p.1, p.2, p.3, p.4, p.5)),
        )),
    λ q.
        let same : x ≡ o = of_found x q.0 in
        let (a, b, c, d, e) = (tests-Claim party x).1 (subst (Claim party) (sym same) q.1) in
        passed.1 (same, a, b, c, d, e),
  )
    where
      passed :
          ((claimed_of k t (some x) party s).0 ≡ ok o)
          ↔ Passed x o
              (str_eq x.from_party_id party)
              (str_eq x.kind "offer")
              (str_eq x.status "completed")
              (str_eq x.status "canceled")
              (str_eq x.status "rejected")
      passed =
          guarded-Passed x o (str_eq x.from_party_id party) (str_eq x.kind "offer")
            (str_eq x.status "completed") (str_eq x.status "canceled") (str_eq x.status "rejected")
            s

  -- A claim succeeds with an offer just if the indexer answers with it for the id, the caller sent it, its kind is
  -- that of the transfers in two steps, and its status is not completed, canceled or rejected.
  pub claimable_transfer-Claim :
      (contract_id : String) (s : State C)
      → ((claimable_transfer k t party contract_id s).0 ≡ ok o)
        ↔ (((k.get_transfer contract_id s.canton).0 ≡ ok (some o)) × Claim party o)
  unfolding claimable_transfer on_canton ◌>>=◌
  claimable_transfer-Claim contract_id s =
      claimed_of-Claim (k.get_transfer contract_id s.canton).0
        (record s { canton = (k.get_transfer contract_id s.canton).1 })

-- A validity that is accepted is a positive number of seconds, and its nanoseconds are a number of 63 bits.
pub validity_duration_bound :
    (seconds : ℤ) (n : ℕ)
    → validity_duration seconds ≡ ok n
    → (m : ℕ) × (seconds ≡ pos m) × (1 ≤ m) × (n ≡ m * 1000000000) × (n < 2 ^ 63)
unfolding validity_duration
validity_duration_bound (negsuc m) n h = absurd (cc)
validity_duration_bound (pos zero) n h = absurd (cc)
validity_duration_bound (pos (suc m)) n h = go (leb (suc m) max_validity_seconds) refl h
  where
    go :
        (b : Bool)
        → leb (suc m) max_validity_seconds ≡ b
        → (if b
            then ok (suc m * 1000000000)
            else err (bad_request_error none "validity_seconds is too large"))
          ≡ ok n
        → (j : ℕ) × (pos (suc m) ≡ pos j) × (1 ≤ j) × (n ≡ j * 1000000000) × (n < 2 ^ 63)
    go true small h =
        let same : suc m * 1000000000 ≡ n = cc in
        let within : suc m ≤ max_validity_seconds = leb→le (suc m) max_validity_seconds small in
        (suc m, refl, omega arith, sym same, omega (arith, same, within))
    go false large h = absurd (cc)
