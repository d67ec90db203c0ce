-- ===== src/Token/Examples.antt =====
-- The pages of the tokens (pkg/token/service.go) on two tokens.
use canton_middleware.Prelude.{String, false, [], ◌∷◌, ◌≡◌, refl, str_eq, eq_refl}
use canton_middleware.Prelude.Int.{pos}
use canton_middleware.Token.Service.{Config, Erc20Token}
use canton_middleware.Token.Pages.{Texts, sorted_items, put_sorted}
use canton_middleware.Token.Walk.{walk, walk-sorted_items}

abbrev texts : Texts
texts = record { fold_eq = str_eq; lt = λ a b. str_eq a "0xa" }

abbrev token_named : String → Erc20Token
token_named name = record {
  name = name;
  symbol = name;
  decimals = pos 18;
  instrument_id = name;
  external_transfer = false;
}

abbrev config : Config
config = ("0xb", token_named "Beta") ∷ ("0xa", token_named "Alpha") ∷ []

walk-sorted_items_example : walk texts config 1 3 "" ≡ sorted_items texts config
unfolding sorted_items put_sorted
walk-sorted_items_example =
    walk-sorted_items texts config 0 eq_refl (refl, (refl, tt), (refl, tt, tt))
