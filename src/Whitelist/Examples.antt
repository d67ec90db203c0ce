-- ===== src/Whitelist/Examples.antt =====
-- The whitelist (pkg/user/whitelist/whitelist.go) with two addresses. The checksums of the instance are in lower case.
use Prim.Native.Char.{Char, code}
use Prim.Native.String.{String, [] as empty, ◌∷◌ as cons}
use canton_middleware.Prelude.{
  true, false, none, [], ◌∷◌, ◌≡◌, refl, ◌==◌, if◌then◌else◌, str_eq, eq_iff, Bool-cases, inl, inr,
}
use canton_middleware.Exec.{ok}
use canton_middleware.Whitelist.{Db, Texts, is_whitelisted, add, remove}
use canton_middleware.Whitelist.Address.{validate_evm_address, is_hex}
use canton_middleware.Whitelist.Gate.{Checksums, add-is_whitelisted}

-- The letters of hexadecimal digits in lower case.
abbrev lower_char : Char → Char
lower_char c =
    if code c == b'A'
    then "a"
    else if code c == b'B'
    then "b"
    else if code c == b'C'
    then "c"
    else if code c == b'D'
    then "d"
    else if code c == b'E'
    then "e"
    else if code c == b'F'
    then "f"
    else c

abbrev lower_text : String → String
lower_text empty = empty
lower_text (cons c s) = cons (lower_char c) (lower_text s)

abbrev texts : Texts
texts = record { lower = lower_text; trim = λ s. s; checksummed = lower_text; lt = λ a b. false }

lower_char_twice : (c : Char) → lower_char (lower_char c) ≡ lower_char c
lower_char_twice c = elim (Bool-cases (code c == b'A')) [
  | inl t ↦ simp (t) refl
  | inr not_a ↦ elim (Bool-cases (code c == b'B')) [
    | inl t ↦ simp (not_a, t) refl
    | inr not_b ↦ elim (Bool-cases (code c == b'C')) [
      | inl t ↦ simp (not_a, not_b, t) refl
      | inr not_c ↦ elim (Bool-cases (code c == b'D')) [
        | inl t ↦ simp (not_a, not_b, not_c, t) refl
        | inr not_d ↦ elim (Bool-cases (code c == b'E')) [
          | inl t ↦ simp (not_a, not_b, not_c, not_d, t) refl
          | inr not_e ↦ elim (Bool-cases (code c == b'F')) [
            | inl t ↦ simp (not_a, not_b, not_c, not_d, not_e, t) refl
            | inr not_f ↦ simp (not_a, not_b, not_c, not_d, not_e, not_f) refl
          ]
        ]
      ]
    ]
  ]
]

lower_text_twice : (s : String) → lower_text (lower_text s) ≡ lower_text s
lower_text_twice empty = refl
lower_text_twice (cons c s) = rw (lower_char_twice c, lower_text_twice s) refl

not_empty : (s : String) → validate_evm_address s ≡ true → str_eq (lower_text s) "" ≡ false
unfolding validate_evm_address
not_empty empty h = absurd (cc)
not_empty (cons c s) h = elim (Bool-cases (str_eq (lower_text (cons c s)) "")) [
  | inl t ↦
      let same : lower_text (cons c s) ≡ "" = (eq_iff (lower_text (cons c s)) "").0 t in absurd (cc)
  | inr f ↦ f
]

texts-Checksums : Checksums texts
texts-Checksums = record {
  same_but_for_case = λ a h. lower_text_twice a;
  has_no_spaces = λ a h. refl;
  is_not_empty = not_empty;
}

abbrev db : Db
db = record {
  rows =
      record {
        evm_address = "0xcdcdcdcdcdcdcdcdcdcdcdcdcdcdcdcdcdcdcdcd";
        note = none;
        created_at = 1;
      }
      ∷ [];
  faults = [];
  clock = 9;
}

abbrev address : String
address = "0xAb5801a7D398351b8bE11C439e05C5B3259aeC9B"

abbrev lower_case : String
lower_case = "0xab5801a7d398351b8be11c439e05c5b3259aec9b"

valid : validate_evm_address address ≡ true
unfolding validate_evm_address is_hex
valid = refl

add-is_whitelisted_example :
    ((is_whitelisted texts false lower_case (add texts address "team" db).1).0 ≡ ok true)
    × ((is_whitelisted texts false lower_case (remove texts address db).1).0 ≡ ok false)
add-is_whitelisted_example =
    add-is_whitelisted texts texts-Checksums address lower_case "team" db valid refl refl
