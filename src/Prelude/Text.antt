-- ===== src/Prelude/Text.antt =====
-- The standard library's functions on texts that the code calls: `strconv.FormatUint`,
-- `strconv.ParseUint` and `strconv.ParseInt` in base 10 at 64 bits, and the first part of a
-- `strings.SplitN` at a dash.
use Prim.Native.Nat.{ℕ, zero, suc, ◌+◌, ◌-◌, ◌*◌, ◌/◌, ◌%◌, ◌^◌, ◌≤◌, ◌<◌}
use Prim.Native.Char.{Char, code}
use Prim.Native.String.{String, [], ◌∷◌}
use mathlib.Core.Path.{◌≡◌, refl, ◌∙◌, ap}
use mathlib.Core.Logic.{inl, inr}
use mathlib.Core.Bool.{Bool, true, false, ◌&&◌}
use mathlib.Core.Option.{Option, none, some}
use native.Mathlib.Nat.{pow-suc}
use native.Mathlib.Omega.{arith}
use canton_middleware.Prelude.Tests.{leb, ◌==◌, if◌then◌else◌, Bool-cases, leb→le, le→leb}
use canton_middleware.Prelude.Int.{ℤ, pos, neg}

abbrev pub max_u64 : ℕ
max_u64 = 2 ^ 64 - 1

abbrev pub max_i64 : ℕ
max_i64 = 2 ^ 63 - 1

-- The character of a digit.
digit : ℕ → Char
digit zero = "0"
digit (suc zero) = "1"
digit (suc (suc zero)) = "2"
digit (suc (suc (suc zero))) = "3"
digit (suc (suc (suc (suc zero)))) = "4"
digit (suc (suc (suc (suc (suc zero))))) = "5"
digit (suc (suc (suc (suc (suc (suc zero)))))) = "6"
digit (suc (suc (suc (suc (suc (suc (suc zero))))))) = "7"
digit (suc (suc (suc (suc (suc (suc (suc (suc zero)))))))) = "8"
digit _ = "9"

is_digit : Char → Bool
is_digit c = leb b'0' (code c) && leb (code c) b'9'

-- At most as many digits as the first argument are written in front of the last one.
digits : ℕ → ℕ → String → String
digits zero n out = out
digits (suc f) n out =
    let rest = digits f (n / 10) (digit (n % 10) ∷ out) in if leb n 9 then digit n ∷ out else rest

-- `FormatUint(n, 10)`: a number of 64 bits has at most 20 digits.
unfoldable pub format_uint : ℕ → String
unfolding digits digit
format_uint n = digits 20 n []

scan : String → ℕ → Option ℕ
scan [] n = some n
scan (c ∷ s) n = let rest = scan s (n * 10 + (code c - b'0')) in if is_digit c then rest else none

abbrev in_range : ℕ → Option ℕ → Option ℕ
in_range top none = none
in_range top (some n) = if leb n top then some n else none

-- `ParseUint(s, 10, 64)`; `none` is the error.
unfoldable pub parse_uint : String → Option ℕ
unfolding scan is_digit
parse_uint [] = none
parse_uint (c ∷ s) = in_range max_u64 (scan (c ∷ s) 0)

abbrev signed : Bool → Option ℕ → Option ℤ
signed negative none = none
signed true (some n) = if leb n (max_i64 + 1) then some (neg (pos n)) else none
signed false (some n) = if leb n max_i64 then some (pos n) else none

-- `ParseInt(s, 10, 64)`: a sign may stand in front.
unfoldable pub parse_int : String → Option ℤ
unfolding parse_uint
parse_int [] = none
parse_int (c ∷ s) =
    if code c == b'-'
    then signed true (parse_uint s)
    else if code c == b'+'
    then signed false (parse_uint s)
    else signed false (parse_uint (c ∷ s))

-- Whether a text begins with a minus sign.
abbrev pub has_minus : String → Bool
has_minus [] = false
has_minus (c ∷ s) = code c == b'-'

abbrev digits_only : String → Option ℕ
digits_only [] = none
digits_only (c ∷ s) = scan (c ∷ s) 0

abbrev with_sign : Bool → Option ℕ → Option ℤ
with_sign negative none = none
with_sign true (some n) = some (neg (pos n))
with_sign false (some n) = some (pos n)

-- `new(big.Int).SetString(s, 10)`.
unfoldable pub parse_big_int : String → Option ℤ
unfolding scan is_digit
parse_big_int [] = none
parse_big_int (c ∷ s) =
    if code c == b'-'
    then with_sign true (digits_only s)
    else if code c == b'+'
    then with_sign false (digits_only s)
    else with_sign false (digits_only (c ∷ s))

-- `strings.SplitN(s, "-", 2)[0]`.
unfoldable pub before_dash : String → String
before_dash [] = []
before_dash (c ∷ s) = let rest = c ∷ before_dash s in if code c == b'-' then [] else rest

is_digit-digit : (d : ℕ) → d ≤ 9 → is_digit (digit d) ≡ true
unfolding is_digit digit
is_digit-digit zero h = refl
is_digit-digit (suc zero) h = refl
is_digit-digit (suc (suc zero)) h = refl
is_digit-digit (suc (suc (suc zero))) h = refl
is_digit-digit (suc (suc (suc (suc zero)))) h = refl
is_digit-digit (suc (suc (suc (suc (suc zero))))) h = refl
is_digit-digit (suc (suc (suc (suc (suc (suc zero)))))) h = refl
is_digit-digit (suc (suc (suc (suc (suc (suc (suc zero))))))) h = refl
is_digit-digit (suc (suc (suc (suc (suc (suc (suc (suc zero)))))))) h = refl
is_digit-digit (suc (suc (suc (suc (suc (suc (suc (suc (suc d))))))))) h = refl

code-digit : (d : ℕ) → d ≤ 9 → code (digit d) ≡ d + b'0'
unfolding digit
code-digit zero h = refl
code-digit (suc zero) h = refl
code-digit (suc (suc zero)) h = refl
code-digit (suc (suc (suc zero))) h = refl
code-digit (suc (suc (suc (suc zero)))) h = refl
code-digit (suc (suc (suc (suc (suc zero))))) h = refl
code-digit (suc (suc (suc (suc (suc (suc zero)))))) h = refl
code-digit (suc (suc (suc (suc (suc (suc (suc zero))))))) h = refl
code-digit (suc (suc (suc (suc (suc (suc (suc (suc zero)))))))) h = refl
code-digit (suc (suc (suc (suc (suc (suc (suc (suc (suc d))))))))) h = omega arith

-- Reading a digit that was written.
scan-digit : (d : ℕ) (s : String) (n : ℕ) → d ≤ 9 → scan (digit d ∷ s) n ≡ scan s (n * 10 + d)
unfolding scan
scan-digit d s n h = rw (is_digit-digit d h) (ap (scan s) (omega (arith, code-digit d h)))

lt-ten_pow : (n : ℕ) → n < 10 ^ 1 → n ≤ 9
lt-ten_pow n h = omega arith

div_lt_pow : (f n : ℕ) → n < 10 ^ suc f → n / 10 < 10 ^ f
div_lt_pow f n h = omega (arith, pow-suc 10 f)

-- What is written is read back, whatever stands behind it.
scan-digits : (f n : ℕ) (s : String) → n < 10 ^ suc f → scan (digits (suc f) n s) 0 ≡ scan s n
unfolding digits
scan-digits zero n s h =
    rw (le→leb n 9 (lt-ten_pow n h)) (scan-digit n s 0 (lt-ten_pow n h) ∙ ap (scan s) (omega arith))
scan-digits (suc f) n s h = elim (Bool-cases (leb n 9)) [
  | inl small ↦ rw small (scan-digit n s 0 (leb→le n 9 small) ∙ ap (scan s) (omega arith))
  | inr large ↦ rw large (
      scan-digits f (n / 10) (digit (n % 10) ∷ s) (div_lt_pow (suc f) n h)
      ∙ scan-digit (n % 10) s (n / 10) (omega arith)
      ∙ ap (scan s) (omega arith))
]

abbrev IsCons : String → Type 0
IsCons s = (c : Char) × (r : String) × (s ≡ c ∷ r) × (is_digit c ≡ true)

digits-IsCons : (f n : ℕ) (c : Char) (s : String) → is_digit c ≡ true → IsCons (digits f n (c ∷ s))
unfolding digits
digits-IsCons zero n c s h = (c, s, refl, h)
digits-IsCons (suc f) n c s h = elim (Bool-cases (leb n 9)) [
  | inl small ↦ (digit n, c ∷ s, rw small, is_digit-digit n (leb→le n 9 small))
  | inr large ↦
      let (d, r, e, k) =
        digits-IsCons f (n / 10) (digit (n % 10)) (c ∷ s) (is_digit-digit (n % 10) (omega arith)) in
      (d, r, rw large e, k)
]

-- At least one character is written.
some_digits : (f n : ℕ) → IsCons (digits (suc f) n [])
unfolding digits
some_digits f n = elim (Bool-cases (leb n 9)) [
  | inl small ↦ (digit n, [], rw small, is_digit-digit n (leb→le n 9 small))
  | inr large ↦
      let (d, r, e, k) =
        digits-IsCons f (n / 10) (digit (n % 10)) [] (is_digit-digit (n % 10) (omega arith)) in
      (d, r, rw large e, k)
]

parse_uint_of_scan :
    (s : String) (n : ℕ) → IsCons s → scan s 0 ≡ some n → n ≤ max_u64 → parse_uint s ≡ some n
unfolding parse_uint
parse_uint_of_scan s n (c, r, e, d) h small = rw e (cc_scan (rw e at h))
  where
    cc_scan : scan (c ∷ r) 0 ≡ some n → in_range max_u64 (scan (c ∷ r) 0) ≡ some n
    cc_scan k = rw k (rw (le→leb n max_u64 small))

format_lem : (n : ℕ) → format_uint n ≡ digits 20 n []
unfolding format_uint
format_lem n = refl

-- A number of 64 bits that is written is read back.
pub parse_uint-format_uint : (n : ℕ) → n ≤ max_u64 → parse_uint (format_uint n) ≡ some n
parse_uint-format_uint n h = rw (format_lem n) (
    parse_uint_of_scan (digits 20 n []) n (some_digits 19 n)
      (scan-digits 19 n [] (omega arith) ∙ scan-nil n) h)
  where
    scan-nil : (m : ℕ) → scan [] m ≡ some m
    scan-nil m = unfold scan in refl

-- A text that begins with a digit has no sign.
parse_int_of_digit : (s : String) → IsCons s → parse_int s ≡ signed false (parse_uint s)
unfolding parse_int is_digit
parse_int_of_digit s (c, r, e, d) = rw e (ground arith)

unsigned_text : (n : ℕ) → parse_int (format_uint n) ≡ signed false (parse_uint (format_uint n))
unsigned_text n = rw (format_lem n) (parse_int_of_digit (digits 20 n []) (some_digits 19 n))

-- A number of 63 bits that is written is read back as a signed one.
pub parse_int-format_uint : (n : ℕ) → n ≤ max_i64 → parse_int (format_uint n) ≡ some (pos n)
parse_int-format_uint n h =
    rw (unsigned_text n, parse_uint-format_uint n (omega arith), le→leb n max_i64 h)
