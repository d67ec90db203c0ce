-- ===== src/Whitelist.antt =====
-- The registration whitelist: pkg/user/whitelist/whitelist.go and its table in pkg/userstore/pg.go. An address is
-- found whatever the case of its letters. The conversions of addresses and of texts are a parameter.
pub mod Address
pub mod Gate
mod Examples
use canton_middleware.Prelude.{
  ℕ, zero, suc, String, Bool, true, false, Option, none, some, List, [], ◌∷◌, if◌then◌else◌, leb,
  ltb, str_eq, length, ◌+◌, ◌||◌,
}
use canton_middleware.Prelude.Int.{ℤ, pos, negsuc}
use canton_middleware.Exec.{Result, ok, err, Exec, pure, raise, ◌>>=◌, ◌>>◌}
use canton_middleware.Exec.Faults.{is_faulty, rest_of}
use canton_middleware.Failure.{
  Failure, plain, prefixed, bad_request_error, general_error_of, resource_not_found_error,
}
use canton_middleware.Whitelist.Address.{validate_evm_address}

pub record WhitelistEntry : Type 0 where
  pub evm_address : String
  pub note : Option String
  pub created_at : ℕ

pub record Db : Type 0 where
  pub rows : List WhitelistEntry
  pub faults : List Bool
  pub clock : ℕ

-- `checksummed` is go-ethereum's `common.HexToAddress(address).Hex()`; `lt` is the order of texts.
pub record Texts : Type 0 where
  pub lower : String → String
  pub trim : String → String
  pub checksummed : String → String
  pub lt : String → String → Bool

abbrev pub Handler : Type 0 → Type 0
Handler A = Exec Failure Db A

-- A statement that fails has no effect; its error has the text that the method puts in front.
unfoldable pub statement : {A : Type 0} → String → (Db → A) → (Db → Db) → Handler A
statement words f g s =
    if is_faulty s.faults
    then (err (plain words), record s { faults = rest_of s.faults })
    else (ok (f s), g (record s { faults = rest_of s.faults }))

abbrev pub take : ℕ → List WhitelistEntry → List WhitelistEntry
take zero rows = []
take (suc n) [] = []
take (suc n) (e ∷ rows) = e ∷ take n rows

abbrev pub wrapped : {A : Type 0} → String → Result Failure A × Db → Result Failure A × Db
wrapped words (ok a, s) = (ok a, s)
wrapped words (err e, s) = (err (general_error_of (some (prefixed words e))), s)

abbrev pub or_not_found : Bool → Handler Unit
or_not_found true = pure tt
or_not_found false =
    raise (
      resource_not_found_error (some (plain "whitelist entry not found")) "address not whitelisted")

module _ (k : Texts) where
  abbrev pub same_address : String → WhitelistEntry → Bool
  same_address address e = str_eq (k.lower e.evm_address) (k.lower address)

  unfoldable pub has_address : String → List WhitelistEntry → Bool
  has_address address [] = false
  has_address address (e ∷ rows) = same_address address e || has_address address rows

  unfoldable pub is_in_table : String → Handler Bool
  is_in_table address =
      statement "failed to check whitelist" (λ s. has_address address s.rows) (λ s. s)

  -- INSERT … ON CONFLICT (evm_address) DO UPDATE SET note. The key is the address as it is written.
  unfoldable pub upsert : WhitelistEntry → List WhitelistEntry → List WhitelistEntry
  upsert e [] = e ∷ []
  upsert e (r ∷ rows) =
      if str_eq r.evm_address e.evm_address
      then record r { note = e.note } ∷ rows
      else r ∷ upsert e rows

  abbrev pub note_of : String → Option String
  note_of note = if str_eq (k.trim note) "" then none else some note

  unfoldable pub add_to_whitelist : String → String → Handler Unit
  add_to_whitelist address note =
      if str_eq (k.trim address) ""
      then raise (plain "evm address is required")
      else statement "failed to add whitelist entry" (λ s. tt)
          (λ s. record s {
            rows =
                upsert
                  (record {
                    evm_address = k.trim address;
                    note = note_of note;
                    created_at = s.clock;
                  })
                  s.rows;
          })

  unfoldable pub without : String → List WhitelistEntry → List WhitelistEntry
  without address [] = []
  without address (e ∷ rows) =
      let rest = without address rows in if same_address address e then rest else e ∷ rest

  unfoldable pub remove_from_whitelist : String → Handler Bool
  remove_from_whitelist address =
      statement "failed to remove whitelist entry" (λ s. has_address address s.rows)
        (λ s. record s { rows = without address s.rows })

  unfoldable pub put_sorted : WhitelistEntry → List WhitelistEntry → List WhitelistEntry
  put_sorted e [] = e ∷ []
  put_sorted e (r ∷ rows) =
      let rest = put_sorted e rows in
      if k.lt (k.lower r.evm_address) (k.lower e.evm_address) then r ∷ rest else e ∷ r ∷ rows

  abbrev pub is_after : String → WhitelistEntry → Bool
  is_after cursor e =
      if str_eq cursor "" then true else k.lt (k.lower cursor) (k.lower e.evm_address)

  unfoldable pub after_cursor : String → List WhitelistEntry → List WhitelistEntry
  after_cursor cursor [] = []
  after_cursor cursor (e ∷ rows) =
      let rest = after_cursor cursor rows in if is_after cursor e then put_sorted e rest else rest

  unfoldable pub list_whitelist : String → ℕ → Handler (List WhitelistEntry)
  list_whitelist cursor limit =
      statement "failed to list whitelist entries" (λ s. take limit (after_cursor cursor s.rows))
        (λ s. s)

  -- The gate: with `skip` every address is let in.
  unfoldable pub is_whitelisted : Bool → String → Handler Bool
  is_whitelisted true address = pure true
  is_whitelisted false address = is_in_table address

  abbrev pub normalize_address : String → String
  normalize_address address = k.checksummed address

  abbrev pub normalized : String → Result Failure String
  normalized address =
      if validate_evm_address address
      then ok (normalize_address address)
      else err (bad_request_error none "valid evm address is required")

  abbrev pub add_normalized : Result Failure String → String → Handler Unit
  add_normalized (err e) note = raise e
  add_normalized (ok address) note =
      λ s. wrapped "add to whitelist: " (add_to_whitelist address note s)

  unfoldable pub add : String → String → Handler Unit
  add address note = add_normalized (normalized address) note

  abbrev pub remove_normalized : Result Failure String → Handler Unit
  remove_normalized (err e) = raise e
  remove_normalized (ok address) = do
    removed ← λ s. wrapped "remove from whitelist: " (remove_from_whitelist address s)
    or_not_found removed

  unfoldable pub remove : String → Handler Unit
  remove address = remove_normalized (normalized address)

pub record Page : Type 0 where
  pub items : List WhitelistEntry
  pub next_cursor : String
  pub has_more : Bool

-- The default is 50 and the most is 200.
abbrev pub clamped : ℤ → ℕ
clamped (negsuc n) = 50
clamped (pos zero) = 50
clamped (pos (suc n)) = if leb (suc n) 200 then suc n else 200

abbrev pub last_address : List WhitelistEntry → String
last_address [] = ""
last_address (e ∷ []) = e.evm_address
last_address (e ∷ r ∷ rows) = last_address (r ∷ rows)

abbrev pub page_of : ℕ → Bool → List WhitelistEntry → Page
page_of limit true rows = record {
  items = take limit rows;
  next_cursor = last_address (take limit rows);
  has_more = true;
}
page_of limit false rows = record { items = rows; next_cursor = ""; has_more = false }

-- One row more than the limit is read, to see whether there is more.
unfoldable pub list : Texts → String → ℤ → Handler Page
list k cursor limit = do
  rows ← λ s. wrapped "list whitelist: " (list_whitelist k cursor (clamped limit + 1) s)
  pure (page_of (clamped limit) (ltb (clamped limit) (length rows)) rows)
