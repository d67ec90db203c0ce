-- ===== src/Rpc/Service/Calls.antt =====
-- `Call` and `GetTransactionByHash` in pkg/ethrpc/service/service.go. The ABI of go-ethereum is a parameter, and the
-- views of a token are an interface on the state `C` of the token service.
use Prim.Native.String.{◌++◌ as str_append}
use canton_middleware.Prelude.{ℕ, String, Option, none, some, if◌then◌else◌, ltb}
use canton_middleware.Prelude.Int.{ℤ}
use canton_middleware.Exec.{Result, ok, err, Exec, pure, raise, ◌>>=◌}
use canton_middleware.Failure.{Failure, prefixed, bad_request_error, not_supported_error}
use canton_middleware.Rpc.Types.{EvmTransaction}
use canton_middleware.Rpc.Store.Queries.{get_evm_transaction}
use canton_middleware.Rpc.Service.{Handler, or_dependency}

pub record CallArgs : Type 0 where
  pub to_address : Option String
  pub data_bytes : Option String
  pub input : Option String

-- `GetData`: `input` goes before `data`; none is the empty text.
abbrev pub first_of : Option String → Option String → String
first_of (some input) d = input
first_of none (some d) = d
first_of none none = ""

unfoldable pub get_data : CallArgs → String
get_data args = first_of args.input args.data_bytes

-- The methods of the ERC-20 ABI; `other_name` is one that the facade does not answer.
pub data MethodName : Type 0 where
  balance_of decimals symbol name total_supply allowance : MethodName
  other_name : String → MethodName

pub record Abi : Type 0 where
  pub byte_length : String → ℕ
  pub method_by_id : String → Option MethodName
  pub account_of : String → Result Failure String
  pub owner_and_spender_of : String → Result Failure (String × String)
  pub encode_uint256 : ℤ → Result Failure String
  pub encode_uint8 : ℕ → Result Failure String
  pub encode_string : String → Result Failure String

-- The views of the token at a contract.
pub record TokenViews (C : Type 0) : Type 0 where
  pub erc20 : String → Option Failure
  pub balance_of : String → String → C → ℤ × C
  pub total_supply : String → C → ℤ × C
  pub decimals : String → ℕ
  pub symbol : String → String
  pub name : String → String
  pub allowance : String → String → ℤ

module _ {C : Type 0} (v : TokenViews C) (a : Abi) where
  abbrev pub answered : Result Failure String → Exec Failure C String
  answered (ok bytes) = pure bytes
  answered (err e) = raise e

  abbrev pub encoded : ℤ × C → Result Failure String × C
  encoded (n, c) = (a.encode_uint256 n, c)

  abbrev pub call_balance_of : String → Result Failure String → Exec Failure C String
  call_balance_of contract (err e) = raise (prefixed "decode balanceOf args: " e)
  call_balance_of contract (ok account) = λ c. encoded (v.balance_of contract account c)

  abbrev pub call_allowance : Result Failure (String × String) → Exec Failure C String
  call_allowance (err e) = raise (prefixed "decode allowance args: " e)
  call_allowance (ok (owner, spender)) = answered (a.encode_uint256 (v.allowance owner spender))

  abbrev pub dispatch : String → String → Option MethodName → Exec Failure C String
  dispatch contract input none = raise (bad_request_error none "unknown method")
  dispatch contract input (some balance_of) = call_balance_of contract (a.account_of input)
  dispatch contract input (some decimals) = answered (a.encode_uint8 (v.decimals contract))
  dispatch contract input (some symbol) = answered (a.encode_string (v.symbol contract))
  dispatch contract input (some name) = answered (a.encode_string (v.name contract))
  dispatch contract input (some total_supply) = λ c. encoded (v.total_supply contract c)
  dispatch contract input (some allowance) = call_allowance (a.owner_and_spender_of input)
  dispatch contract input (some (other_name method)) =
      raise (not_supported_error none (str_append "unsupported method: " method))

  abbrev pub call_supported : String → String → Option Failure → Exec Failure C String
  call_supported contract input (some e) =
      raise (bad_request_error (some e) (str_append "contract not supported: " contract))
  call_supported contract input none =
      if ltb (a.byte_length input) 4
      then raise (bad_request_error none "missing function selector")
      else dispatch contract input (a.method_by_id input)

  abbrev pub call_at : Option String → String → Exec Failure C String
  call_at none input = raise (bad_request_error none "unsupported 'contract' address")
  call_at (some contract) input = call_supported contract input (v.erc20 contract)

  -- No arguments are as good as no contract.
  unfoldable pub call : Option CallArgs → Exec Failure C String
  call none = raise (bad_request_error none "unsupported 'contract' address")
  call (some args) = call_at args.to_address (get_data args)

-- The fields that are constants are left out, and the gas is the default limit.
pub record RpcTransaction : Type 0 where
  pub hash : String
  pub nonce : ℕ
  pub block_hash : String
  pub block_number : ℕ
  pub transaction_index : ℕ
  pub from_address : String
  pub to_address : String
  pub gas : ℕ
  pub input : String

abbrev pub rpc_transaction : String → Option EvmTransaction → Option RpcTransaction
rpc_transaction hash none = none
rpc_transaction hash (some tx) = some record {
  hash = hash;
  nonce = tx.nonce;
  block_hash = tx.block_hash;
  block_number = tx.block_number;
  transaction_index = tx.tx_index;
  from_address = tx.from_address;
  to_address = tx.to_address;
  gas = 21000;
  input = tx.input;
}

unfoldable pub get_transaction_by_hash : String → Handler (Option RpcTransaction)
get_transaction_by_hash hash = do
  row ← or_dependency (str_append "get transaction by hash " hash) (get_evm_transaction hash)
  pure (rpc_transaction hash row)
