-- ===== src/Token/Service.antt =====
-- pkg/token/config.go, service.go, erc20.go and native.go, pagination aside (Token/Pages.antt). An address is its
-- checksummed text. The user store, the provider of balances and the ledger's client are interfaces on a state `C`;
-- the decimals of shopspring are a parameter.
use Prim.Native.String.{◌++◌ as str_append}
use canton_middleware.Prelude.{ℕ, String, Bool, Option, none, some, List, leb, if◌then◌else◌}
use canton_middleware.Prelude.Int.{ℤ, pos, negsuc}
use canton_middleware.Prelude.Assoc.{lookup, put}
use canton_middleware.Exec.{Result, ok, err, Exec, pure, raise, attempt, ◌>>=◌}
use canton_middleware.Failure.{Failure, plain, prefixed, bad_request_error, dependency_error}
use canton_middleware.Rpc.Store.{hash_key}
use canton_middleware.Rpc.Submitter.{TokenService}

pub record Erc20Token : Type 0 where
  pub name : String
  pub symbol : String
  pub decimals : ℤ
  pub instrument_id : String
  pub external_transfer : Bool

pub record User : Type 0 where
  pub fingerprint : String
  pub canton_party_id : String

-- `is_not_found` is `errors.Is(err, user.ErrUserNotFound)`, `is_insufficient` that of `ErrInsufficientBalance`.
pub record Clients (C : Type 0) : Type 0 where
  pub get_user_by_evm_address : String → Exec Failure C User
  pub is_not_found : Failure → Bool
  pub transfer_by_fingerprint : String → String → String → String → String → Exec Failure C Unit
  pub is_insufficient : Failure → Bool
  pub get_balance : String → String → Exec Failure C String
  pub get_total_supply : String → Exec Failure C String

-- `to_units` is `NewFromString` and the product with a power of ten, `of_units` the text of units divided by it.
pub record Amounts : Type 0 where
  pub to_units : String → ℕ → Option ℤ
  pub of_units : ℕ → ℕ → String

abbrev pub Config : Type 0
Config = List (String × Erc20Token)

unfoldable pub add_token : String → Erc20Token → Config → Config
add_token address tkn cfg = put address tkn cfg

abbrev pub token_or_error : String → Option Erc20Token → Result Failure Erc20Token
token_or_error address none = err (plain (str_append "token not supported: " address))
token_or_error address (some tkn) = ok tkn

unfoldable pub get_token : Config → String → Result Failure Erc20Token
get_token cfg address = token_or_error address (lookup address cfg)

abbrev max_uint8 : ℕ
max_uint8 = 255

abbrev pub uint8_or_zero : ℤ → ℕ
uint8_or_zero (pos n) = if leb n max_uint8 then n else 0
uint8_or_zero (negsuc n) = 0

abbrev decimals_or_zero : Result Failure Erc20Token → ℕ
decimals_or_zero (ok tkn) = uint8_or_zero tkn.decimals
decimals_or_zero (err e) = 0

unfoldable pub decimals : Config → String → ℕ
decimals cfg address = decimals_or_zero (get_token cfg address)

module _ {C : Type 0} (k : Clients C) (a : Amounts) (cfg : Config) where
  -- The user of an address; any failure of the store is a bad request.
  abbrev pub user_or_bad_request : String → Result Failure User → Exec Failure C User
  user_or_bad_request words (ok u) = pure u
  user_or_bad_request words (err e) =
      raise (bad_request_error (some (prefixed (str_append words ": ") e)) words)

  abbrev pub transferred : Result Failure Unit → Exec Failure C Unit
  transferred (ok u) = pure u
  transferred (err e) = raise (
      if k.is_insufficient e
      then bad_request_error (some e) "insufficient balance"
      else dependency_error (some (prefixed "canton transfer failed: " e)) "canton transfer failed")

  abbrev pub transfer_of :
      Result Failure Erc20Token → String → String → String → String → String → Exec Failure C Unit
  transfer_of (err e) contract key sender recipient amount =
      raise (bad_request_error (some e) (str_append "token not supported: " contract))
  transfer_of (ok tkn) contract key sender recipient amount = do
    sent_by ← attempt (k.get_user_by_evm_address sender)
    from_user ← user_or_bad_request "failed to get sender" sent_by
    sent_to ← attempt (k.get_user_by_evm_address recipient)
    to_user ← user_or_bad_request "failed to get recipient" sent_to
    done ←
        attempt (
          k.transfer_by_fingerprint key from_user.fingerprint to_user.fingerprint amount tkn.symbol)
    transferred done

  unfoldable pub transfer : String → String → String → String → String → Exec Failure C Unit
  transfer contract key sender recipient amount =
      transfer_of (get_token cfg contract) contract key sender recipient amount

  unfoldable pub transfer_from : String → String → String → String → ℕ → Exec Failure C Unit
  transfer_from contract key sender recipient amount =
      transfer contract key sender recipient (a.of_units amount (decimals cfg contract))

  -- `ERC20`, the view that the submitter and the JSON-RPC service use.
  unfoldable pub erc20 : String → Option Failure
  erc20 address = error_of (get_token cfg address)
    where
      error_of : Result Failure Erc20Token → Option Failure
      error_of (ok tkn) = none
      error_of (err e) = some e

  abbrev pub service : TokenService C
  service = record { erc20 = erc20; transfer_from = transfer_from }

  abbrev pub balance_of_user : String → Result Failure User → Exec Failure C String
  balance_of_user symbol (ok u) = k.get_balance symbol u.canton_party_id
  balance_of_user symbol (err e) =
      if k.is_not_found e then pure "0" else raise (prefixed "failed to get user: " e)

  abbrev pub balance_of_token : Result Failure Erc20Token → String → Exec Failure C String
  balance_of_token (err e) address = raise e
  balance_of_token (ok tkn) address = do
    found ← attempt (k.get_user_by_evm_address address)
    balance_of_user tkn.symbol found

  unfoldable pub get_balance : String → String → Exec Failure C String
  get_balance contract address = balance_of_token (get_token cfg contract) address

  abbrev pub supply_of_token : Result Failure Erc20Token → Exec Failure C String
  supply_of_token (err e) = raise e
  supply_of_token (ok tkn) = k.get_total_supply tkn.symbol

  unfoldable pub get_total_supply : String → Exec Failure C String
  get_total_supply contract = supply_of_token (get_token cfg contract)

  abbrev pub units_or_zero : Option ℤ → ℤ
  units_or_zero none = pos 0
  units_or_zero (some n) = n

  abbrev pub in_units : String → Result Failure String × C → ℤ × C
  in_units contract (ok text, c) = (units_or_zero (a.to_units text (decimals cfg contract)), c)
  in_units contract (err e, c) = (pos 0, c)

  unfoldable pub total_supply : String → C → ℤ × C
  total_supply contract c = in_units contract (get_total_supply contract c)

  unfoldable pub balance_of : String → String → C → ℤ × C
  balance_of contract address c = in_units contract (get_balance contract address c)

abbrev pub name_or_empty : Result Failure Erc20Token → String
name_or_empty (ok tkn) = tkn.name
name_or_empty (err e) = ""

abbrev pub symbol_or_empty : Result Failure Erc20Token → String
symbol_or_empty (ok tkn) = tkn.symbol
symbol_or_empty (err e) = ""

unfoldable pub name : Config → String → String
name cfg contract = name_or_empty (get_token cfg contract)

unfoldable pub symbol : Config → String → String
symbol cfg contract = symbol_or_empty (get_token cfg contract)

-- `Allowance` and the balance of the native coin are always 0.
unfoldable pub allowance : String → String → ℤ
allowance owner spender = pos 0

unfoldable pub native_balance : String → ℤ
native_balance address = pos 0
