-- ===== src/Whitelist/Gate.antt =====
-- What the administration of the whitelist makes of its gate (pkg/user/whitelist/whitelist.go).
use canton_middleware.Prelude.{
  String, Bool, true, false, List, [], ◌∷◌, ◌≡◌, refl, sym, ◌∙◌, ap, str_eq, eq_iff, eq_refl, ◌||◌,
  arith, inl, inr, Bool-cases,
}
use canton_middleware.Exec.{ok, pure, raise, ◌>>=◌}
use canton_middleware.Exec.Faults.{is_faulty, rest_of}
use canton_middleware.Whitelist.{
  WhitelistEntry, Db, Texts, statement, same_address, has_address, is_in_table, upsert,
  add_to_whitelist, without, remove_from_whitelist, is_whitelisted, add, or_not_found, remove,
  note_of,
}
use canton_middleware.Whitelist.Address.{validate_evm_address}

-- What go-ethereum promises of a text that begins with 0x and has 40 hexadecimal digits behind it: it writes the same
-- digits, but for their case, with no spaces.
pub record Checksums (k : Texts) : Type 0 where
  pub same_but_for_case :
      (a : String) → validate_evm_address a ≡ true → k.lower (k.checksummed a) ≡ k.lower a
  pub has_no_spaces :
      (a : String) → validate_evm_address a ≡ true → k.trim (k.checksummed a) ≡ k.checksummed a
  pub is_not_empty :
      (a : String) → validate_evm_address a ≡ true → str_eq (k.checksummed a) "" ≡ false

has_address-same :
    (k : Texts) (a b : String) (rows : List WhitelistEntry)
    → k.lower a ≡ k.lower b
    → has_address k a rows ≡ has_address k b rows
unfolding has_address
has_address-same k a b [] h = refl
has_address-same k a b (e ∷ rows) h = rw (h, has_address-same k a b rows h) refl

has_address-upsert :
    (k : Texts) (e : WhitelistEntry) (rows : List WhitelistEntry)
    → has_address k e.evm_address (upsert k e rows) ≡ true
unfolding has_address upsert
has_address-upsert k e [] = ground (arith, eq_refl (k.lower e.evm_address))
has_address-upsert k e (r ∷ rows) = elim (Bool-cases (str_eq r.evm_address e.evm_address)) [
  | inl same ↦
      let found : str_eq (k.lower r.evm_address) (k.lower e.evm_address) ≡ true =
        (eq_iff (k.lower r.evm_address) (k.lower e.evm_address)).1
          (ap k.lower ((eq_iff r.evm_address e.evm_address).0 same)) in
      simp (same, found) refl
  | inr other ↦
      simp (other) (or_true (same_address k e.evm_address r) (has_address-upsert k e rows))
]
  where
    or_true : (b : Bool) {c : Bool} → c ≡ true → (b || c) ≡ true
    or_true true h = refl
    or_true false h = h

has_address-without :
    (k : Texts) (a : String) (rows : List WhitelistEntry)
    → has_address k a (without k a rows) ≡ false
unfolding has_address without
has_address-without k a [] = refl
has_address-without k a (e ∷ rows) = ground (arith, has_address-without k a rows)

gate-steady :
    (k : Texts) (b : String) (s : Db)
    → s.faults ≡ []
    → (is_whitelisted k false b s).0 ≡ ok (has_address k b s.rows)
unfolding is_whitelisted is_in_table statement is_faulty
gate-steady k b s steady = simp (steady) refl

module _ (k : Texts) (law : Checksums k) (a note : String) (s : Db)
    (valid : validate_evm_address a ≡ true) (steady : s.faults ≡ []) where
  added : WhitelistEntry
  added = record { evm_address = k.checksummed a; note = note_of k note; created_at = s.clock }

  add-steady : ((add k a note s).1.rows ≡ upsert k added s.rows) × ((add k a note s).1.faults ≡ [])
  unfolding add add_to_whitelist statement is_faulty rest_of added
  add-steady =
      simp (valid, law.has_no_spaces a valid, law.is_not_empty a valid, steady) (refl, refl)

  remove-steady :
      ((remove k a s).1.rows ≡ without k (k.checksummed a) s.rows) × ((remove k a s).1.faults ≡ [])
  unfolding remove remove_from_whitelist statement is_faulty rest_of pure raise ◌>>=◌
  remove-steady = simp (valid, steady) (go (has_address k (k.checksummed a) s.rows))
    where
      after : Db
      after = record s { rows = without k (k.checksummed a) s.rows; faults = [] }

      go :
          (b : Bool)
          → ((or_not_found b after).1.rows ≡ without k (k.checksummed a) s.rows)
            × ((or_not_found b after).1.faults ≡ [])
      go true = (refl, refl)
      go false = (refl, refl)

  in_table : has_address k (k.checksummed a) (upsert k added s.rows) ≡ true
  unfolding added
  in_table = has_address-upsert k added s.rows

-- If go-ethereum keeps a valid address but for its case and writes it with no spaces, and no statement fails: once
-- an address of 0x and 40 hexadecimal digits is added, the gate lets it in, however its letters are written; and once
-- it is removed, the gate does not.
pub add-is_whitelisted :
    (k : Texts) (law : Checksums k) (a b note : String) (s : Db)
    → validate_evm_address a ≡ true
    → s.faults ≡ []
    → k.lower b ≡ k.lower a
    → ((is_whitelisted k false b (add k a note s).1).0 ≡ ok true)
      × ((is_whitelisted k false b (remove k a s).1).0 ≡ ok false)
add-is_whitelisted k law a b note s valid steady same =
    let same_normal : k.lower b ≡ k.lower (k.checksummed a) =
      same ∙ sym (law.same_but_for_case a valid) in
    let plus = add-steady k law a note s valid steady in
    let minus = remove-steady k law a note s valid steady in
    (
      gate-steady k b (add k a note s).1 plus.1
          ∙ ap (λ x. ok (has_address k b x)) plus.0
          ∙ ap (λ x. ok x)
              (has_address-same k b (k.checksummed a)
                  (upsert k (added k law a note s valid steady) s.rows) same_normal
                ∙ in_table k law a note s valid steady),
      gate-steady k b (remove k a s).1 minus.1
          ∙ ap (λ x. ok (has_address k b x)) minus.0
          ∙ ap (λ x. ok x)
              (has_address-same k b (k.checksummed a) (without k (k.checksummed a) s.rows)
                  same_normal
                ∙ has_address-without k (k.checksummed a) s.rows),
    )
