-- ===== src/Token/Pages.antt =====
-- `GetSupportedTokens` in pkg/token/service.go: the pages of the list of tokens, which is sorted by address.
-- `fold_eq` is `strings.EqualFold`, `lt` the order of texts.
use canton_middleware.Prelude.{
  ℕ, zero, suc, String, Bool, Option, none, some, List, [], ◌∷◌, ltb, leb, length, if◌then◌else◌,
  str_eq,
}
use canton_middleware.Prelude.Int.{ℤ, pos}
use canton_middleware.Prelude.Text.{parse_int}
use canton_middleware.Exec.{Result, ok, err}
use canton_middleware.Failure.{Failure, bad_request_error}
use canton_middleware.Token.Service.{Erc20Token, Config}

pub record TokenItem : Type 0 where
  pub address : String
  pub name : String
  pub symbol : String
  pub decimals : ℤ

pub record TokensPage : Type 0 where
  pub items : List TokenItem
  pub next_cursor : String
  pub has_more : Bool

pub record Texts : Type 0 where
  pub fold_eq : String → String → Bool
  pub lt : String → String → Bool

abbrev pub item_of : String × Erc20Token → TokenItem
item_of (address, tkn) = record {
  address = address;
  name = tkn.name;
  symbol = tkn.symbol;
  decimals = tkn.decimals;
}

unfoldable pub put_sorted : Texts → TokenItem → List TokenItem → List TokenItem
put_sorted k x [] = x ∷ []
put_sorted k x (y ∷ ys) =
    let rest = put_sorted k x ys in if k.lt y.address x.address then y ∷ rest else x ∷ y ∷ ys

unfoldable pub sorted_items : Texts → Config → List TokenItem
sorted_items k [] = []
sorted_items k (row ∷ cfg) = put_sorted k (item_of row) (sorted_items k cfg)

-- What comes after the item that the cursor names; `none` if there is none.
unfoldable pub after_cursor : Texts → String → List TokenItem → Option (List TokenItem)
after_cursor k cursor [] = none
after_cursor k cursor (x ∷ xs) =
    let rest = after_cursor k cursor xs in if k.fold_eq x.address cursor then some xs else rest

abbrev pub from_cursor : Texts → String → List TokenItem → Option (List TokenItem)
from_cursor k cursor xs = if str_eq cursor "" then some xs else after_cursor k cursor xs

abbrev pub take : ℕ → List TokenItem → List TokenItem
take zero xs = []
take (suc n) [] = []
take (suc n) (x ∷ xs) = x ∷ take n xs

abbrev pub last_address : List TokenItem → String
last_address [] = ""
last_address (x ∷ []) = x.address
last_address (x ∷ y ∷ ys) = last_address (y ∷ ys)

abbrev pub page_of : ℕ → List TokenItem → TokensPage
page_of limit rest = record {
  items = take limit rest;
  next_cursor = if ltb limit (length rest) then last_address (take limit rest) else "";
  has_more = ltb limit (length rest);
}

abbrev pub page_or_error : ℕ → Option (List TokenItem) → Result Failure TokensPage
page_or_error limit none = err (bad_request_error none "invalid cursor")
page_or_error limit (some rest) = ok (page_of limit rest)

unfoldable pub get_supported_tokens : Texts → Config → String → ℕ → Result Failure TokensPage
get_supported_tokens k cfg cursor limit =
    page_or_error limit (from_cursor k cursor (sorted_items k cfg))

abbrev pub checked_limit : Option ℤ → Result Failure ℕ
checked_limit (some (pos (suc n))) =
    if leb (suc n) 200
    then ok (suc n)
    else err (bad_request_error none "limit must be an integer between 1 and 200")
checked_limit _ = err (bad_request_error none "limit must be an integer between 1 and 200")

-- `parsePagination` in pkg/token/http.go, on the text of the limit; an empty one is the default.
unfoldable pub parse_limit : String → Result Failure ℕ
parse_limit text = if str_eq text "" then ok 50 else checked_limit (parse_int text)
