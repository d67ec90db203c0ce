-- ===== src/Token/Walk.antt =====
-- A client that follows the cursors of `GetSupportedTokens` (pkg/token/service.go).
use canton_middleware.Prelude.{
  ℕ, zero, suc, String, Bool, true, false, some, List, [], ◌∷◌, ◌++◌, ◌≡◌, refl, sym, ◌∙◌, ap, inl,
  inr, Bool-cases, if◌then◌else◌, ◌≤◌, ◌<◌, ltb, length, arith, str_eq, All,
}
use canton_middleware.Exec.{Result, ok, err}
use canton_middleware.Failure.{Failure}
use canton_middleware.Token.Service.{Config}
use canton_middleware.Token.Pages.{
  TokenItem, TokensPage, Texts, sorted_items, after_cursor, from_cursor, take, last_address,
  page_or_error, get_supported_tokens,
}

abbrev followed : List TokenItem → Bool → List TokenItem → List TokenItem
followed items has_more rest = items ++ (if has_more then rest else [])

abbrev after_page : Result Failure TokensPage → (String → List TokenItem) → List TokenItem
after_page (err e) rest = []
after_page (ok page) rest = followed page.items page.has_more (rest page.next_cursor)

-- The items of at most as many pages as the first number.
abbrev pub walk : Texts → Config → ℕ → ℕ → String → List TokenItem
walk k cfg limit zero cursor = []
walk k cfg limit (suc fuel) cursor =
    after_page (get_supported_tokens k cfg cursor limit) (walk k cfg limit fuel)

-- No two addresses are one but for the case of their letters, and none is empty.
abbrev pub Distinct : Texts → List TokenItem → Type 0
Distinct k [] = Unit
Distinct k (x ∷ xs) =
    (str_eq x.address "" ≡ false)
    × All (λ y. k.fold_eq x.address y.address ≡ false) xs
    × Distinct k xs

-- A page that is not the last: what it has but its last item, that item, and what is left.
record Cut (n : ℕ) (rest : List TokenItem) : Type 0 where
  front : List TokenItem
  end : TokenItem
  post : List TokenItem
  page : take n rest ≡ front ++ end ∷ []
  whole : rest ≡ front ++ end ∷ post
  cursor : last_address (take n rest) ≡ end.address
  shorter : suc (length post) ≤ length rest

last-snoc : (front : List TokenItem) (x : TokenItem) → last_address (front ++ x ∷ []) ≡ x.address
last-snoc [] x = refl
last-snoc (y ∷ []) x = refl
last-snoc (y ∷ z ∷ front) x = last-snoc (z ∷ front) x

cut : (n : ℕ) (rest : List TokenItem) → suc n < length rest → Cut (suc n) rest
cut n [] h = absurd (omega arith)
cut zero (x ∷ rest) h = record {
  front = [];
  end = x;
  post = rest;
  page = refl;
  whole = refl;
  cursor = refl;
  shorter = omega arith;
}
cut (suc n) (x ∷ rest) h =
    let c = cut n rest (omega arith) in
    record {
      front = x ∷ c.front;
      end = c.end;
      post = c.post;
      page = ap (λ l. x ∷ l) c.page;
      whole = ap (λ l. x ∷ l) c.whole;
      cursor = ap last_address (ap (λ l. x ∷ l) c.page) ∙ last-snoc (x ∷ c.front) c.end;
      shorter = omega (arith, c.shorter);
    }

after_cursor-append :
    (k : Texts) (before : List TokenItem) (x : TokenItem) (post : List TokenItem)
    → ((s : String) → k.fold_eq s s ≡ true)
    → Distinct k (before ++ x ∷ post)
    → after_cursor k x.address (before ++ x ∷ post) ≡ some post
unfolding after_cursor
after_cursor-append k [] x post same d = rw (same x.address) refl
after_cursor-append k (y ∷ before) x post same d =
    rw (apart before d.1) (after_cursor-append k before x post same d.2)
  where
    apart :
        (l : List TokenItem)
        → All (λ z. k.fold_eq y.address z.address ≡ false) (l ++ x ∷ post)
        → k.fold_eq y.address x.address ≡ false
    apart [] h = h.0
    apart (z ∷ l) h = apart l h.1

nonempty :
    (k : Texts) (before : List TokenItem) (x : TokenItem) (post : List TokenItem)
    → Distinct k (before ++ x ∷ post)
    → str_eq x.address "" ≡ false
nonempty k [] x post d = d.0
nonempty k (y ∷ before) x post d = nonempty k before x post d.2

append_assoc : (xs ys zs : List TokenItem) → (xs ++ ys) ++ zs ≡ xs ++ (ys ++ zs)
append_assoc [] ys zs = refl
append_assoc (x ∷ xs) ys zs = ap (λ l. x ∷ l) (append_assoc xs ys zs)

append_nil : (xs : List TokenItem) → xs ++ [] ≡ xs
append_nil [] = refl
append_nil (x ∷ xs) = ap (λ l. x ∷ l) (append_nil xs)

take_all : (n : ℕ) (rest : List TokenItem) → length rest ≤ n → take n rest ≡ rest
take_all zero [] h = refl
take_all zero (x ∷ rest) h = absurd (omega arith)
take_all (suc n) [] h = refl
take_all (suc n) (x ∷ rest) h = ap (λ l. x ∷ l) (take_all n rest (omega arith))

module _ (k : Texts) (cfg : Config) (limit : ℕ) (same : (s : String) → k.fold_eq s s ≡ true)
    (distinct : Distinct k (sorted_items k cfg)) where
  cursor_of :
      (before rest : List TokenItem)
      → sorted_items k cfg ≡ before ++ rest
      → (c : Cut (suc limit) rest)
      → from_cursor k (last_address (take (suc limit) rest)) (sorted_items k cfg) ≡ some c.post
  cursor_of before rest whole c =
      let all : sorted_items k cfg ≡ (before ++ c.front) ++ c.end ∷ c.post =
        whole
        ∙ ap (λ l. before ++ l) c.whole
        ∙ sym (append_assoc before c.front (c.end ∷ c.post)) in
      rw (c.cursor, all, nonempty k (before ++ c.front) c.end c.post (rw⁻¹ all distinct))
        (after_cursor-append k (before ++ c.front) c.end c.post same (rw⁻¹ all distinct))

  -- Where the cursor points, and that the pages from there on are what is left.
  abbrev Continues : ℕ → Type 0
  Continues fuel =
      (before rest : List TokenItem) (cursor : String)
      → sorted_items k cfg ≡ before ++ rest
      → from_cursor k cursor (sorted_items k cfg) ≡ some rest
      → length rest < fuel
      → walk k cfg (suc limit) fuel cursor ≡ rest

  next_page :
      (fuel : ℕ) (before rest : List TokenItem)
      → sorted_items k cfg ≡ before ++ rest
      → length rest < suc fuel
      → Continues fuel
      → Cut (suc limit) rest
      → take (suc limit) rest ++ walk k cfg (suc limit) fuel (last_address (take (suc limit) rest))
        ≡ rest
  next_page fuel before rest whole h continues c =
      ap (λ l. take (suc limit) rest ++ l)
        (continues (before ++ (c.front ++ c.end ∷ [])) c.post (last_address (take (suc limit) rest))
          (whole
            ∙ ap (λ l. before ++ l) (c.whole ∙ sym (append_assoc c.front (c.end ∷ []) c.post))
            ∙ sym (append_assoc before (c.front ++ c.end ∷ []) c.post))
          (cursor_of before rest whole c) (omega (arith, c.shorter)))
      ∙ ap (λ l. l ++ c.post) c.page
      ∙ append_assoc c.front (c.end ∷ []) c.post
      ∙ sym c.whole

  walk-rest : (fuel : ℕ) → Continues fuel
  unfolding get_supported_tokens
  walk-rest zero before rest cursor whole at h = absurd (omega arith)
  walk-rest (suc fuel) before rest cursor whole at h =
      ap (λ o. after_page (page_or_error (suc limit) o) (walk k cfg (suc limit) fuel)) at
      ∙ elim (Bool-cases (ltb (suc limit) (length rest))) [
        | inl more ↦
            simp (more)
              (next_page fuel before rest whole h (walk-rest fuel) (cut limit rest (ground arith)))
        | inr last ↦
            simp (last)
              (append_nil (take (suc limit) rest) ∙ take_all (suc limit) rest (ground arith))
      ]

-- If `EqualFold` finds a text equal to itself and tells the addresses of the tokens apart, and no address is empty:
-- with pages of at least one item, a client that starts with no cursor and follows the next cursors for as long as
-- there is more gets the sorted list of the tokens, each once, in as many requests as there are tokens and one more.
pub walk-sorted_items :
    (k : Texts) (cfg : Config) (limit : ℕ)
    → ((s : String) → k.fold_eq s s ≡ true)
    → Distinct k (sorted_items k cfg)
    → walk k cfg (suc limit) (suc (length (sorted_items k cfg))) "" ≡ sorted_items k cfg
walk-sorted_items k cfg limit same distinct =
    walk-rest k cfg limit same distinct (suc (length (sorted_items k cfg))) [] (sorted_items k cfg)
      "" refl refl (omega arith)
