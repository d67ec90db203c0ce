-- ===== src/Rpc/Service.antt =====
-- pkg/ethrpc/service/service.go: what a wallet sends. go-ethereum decodes and signs, and the gate of the whitelist
-- answers from the state; both are parameters. The state of the token service is not touched here.
pub mod Reads
pub mod Calls
use Prim.Native.String.{◌++◌ as str_append}
use canton_middleware.Prelude.{
  ℕ, String, Bool, true, false, Option, none, some, List, [], ◌∷◌, if◌then◌else◌, not, ◌==◌, str_eq,
  ◌+◌, ◌%◌, ◌^◌, ◌*◌, ◌-◌, leb, ltb, map,
}
use canton_middleware.Exec.{Result, ok, err, Exec, pure, raise, continue, ◌>>=◌, ◌>>◌}
use canton_middleware.Failure.{
  Failure, plain, prefixed, bad_request_error, not_supported_error, forbidden_error,
  dependency_error,
}
use canton_middleware.Rpc.Types.{pending, MempoolEntry, EvmTransaction, EvmLog}
use canton_middleware.Rpc.Store.{Db, Error, Action, insert_mempool_entry}
use canton_middleware.Rpc.Store.Queries.{get_latest_evm_block_number, get_evm_transaction_count}

-- A transaction that `UnmarshalBinary` reads and whose signature is recovered.
pub record SignedTransaction : Type 0 where
  pub hash : String
  pub sender : String
  pub to_address : Option String
  pub value : ℕ
  pub nonce : ℕ
  pub input : String

-- What an input of at least 4 bytes calls: no known method, or one with the arguments of a transfer, if they decode.
pub data Method : Type 0 where
  unknown_method : Failure → Method
  transfer_call : Result Failure (String × ℕ) → Method
  other_method : String → Method

pub record Wallet : Type 0 where
  pub unmarshal : String → Result Failure SignedTransaction
  pub recover : SignedTransaction → Option Failure
  pub byte_length : String → ℕ
  pub method_of : String → Method
  pub to_lower : String → String
  pub big_bytes : ℕ → String

-- `erc20` is that of the token service.
pub record EthService : Type 0 where
  pub wallet : Wallet
  pub is_whitelisted : String → Db → Result Failure Bool
  pub erc20 : String → Option Failure
  pub compute_block_hash : ℕ → String
  pub seconds_since_start : Db → ℕ

-- An error of the store, wrapped.
abbrev pub database_failure : Failure
database_failure = plain "database error"

abbrev pub Handler : Type 0 → Type 0
Handler A = Exec Failure Db A

abbrev pub rewrapped : {A : Type 0} → String → Result Error A × Db → Result Failure A × Db
rewrapped message (ok a, s) = (ok a, s)
rewrapped message (err e, s) = (err (dependency_error (some database_failure) message), s)

abbrev pub or_dependency : {A : Type 0} → String → Action A → Handler A
or_dependency message m s = rewrapped message (m s)

-- `checkWhitelist`.
abbrev pub gated : String → Result Failure Bool → Handler Unit
gated address (err e) = raise (dependency_error (some e) "whitelist check")
gated address (ok true) = pure tt
gated address (ok false) =
    raise (forbidden_error none (str_append "sender not whitelisted: " address))

unfoldable pub check_whitelist : EthService → String → Handler Unit
check_whitelist k sender s =
    gated (k.wallet.to_lower sender) (k.is_whitelisted (k.wallet.to_lower sender) s) s

abbrev pub transfer_args : Method → Result Failure (String × ℕ)
transfer_args (unknown_method e) = err (prefixed "decode method selector: " e)
transfer_args (other_method name) = err (plain (str_append "unsupported method: " name))
transfer_args (transfer_call (err e)) = err (prefixed "failed to decode transfer args: " e)
transfer_args (transfer_call (ok args)) = ok args

unfoldable pub decode_transfer_call : Wallet → String → Result Failure (String × ℕ)
decode_transfer_call w input =
    if ltb (w.byte_length input) 4
    then err (plain "missing function selector")
    else transfer_args (w.method_of input)

unfoldable pub mempool_entry : Wallet → SignedTransaction → String → String × ℕ → MempoolEntry
mempool_entry w tx contract args = record {
  id = 0;
  tx_hash = tx.hash;
  from_address = tx.sender;
  contract_address = contract;
  recipient_address = args.0;
  nonce = tx.nonce;
  input = tx.input;
  amount_data = w.big_bytes args.1;
  status = pending;
  error_message = "";
}

abbrev pub larger : ℕ → ℕ → ℕ
larger a b = if leb a b then b else a

module _ (k : EthService) where
  abbrev pub record_intent :
      SignedTransaction → String → String × ℕ → Option Failure → Handler String
  record_intent tx contract args (some e) =
      raise (bad_request_error (some e) (str_append "contract not supported: " contract))
  record_intent tx contract args none = do
    or_dependency "insert mempool entry"
        (insert_mempool_entry (mempool_entry k.wallet tx contract args))
    pure tx.hash

  abbrev pub with_args : SignedTransaction → String → Result Failure (String × ℕ) → Handler String
  with_args tx contract (err e) = raise (bad_request_error (some e) "invalid transaction data")
  with_args tx contract (ok args) = record_intent tx contract args (k.erc20 contract)

  abbrev pub to_contract : SignedTransaction → Option String → Handler String
  to_contract tx none = raise (bad_request_error none "contract deploy transactions not supported")
  to_contract tx (some contract) =
      if tx.value == 0
      then with_args tx contract (decode_transfer_call k.wallet tx.input)
      else raise (not_supported_error none "native ETH transfers not supported")

  abbrev pub with_sender : SignedTransaction → Option Failure → Handler String
  with_sender tx (some e) = raise (bad_request_error (some e) "invalid transaction signature")
  with_sender tx none = check_whitelist k tx.sender >> to_contract tx tx.to_address

  abbrev pub send_decoded : Result Failure SignedTransaction → Handler String
  send_decoded (err e) = raise (bad_request_error (some e) "invalid transaction encoding")
  send_decoded (ok tx) = with_sender tx (k.wallet.recover tx)

  unfoldable pub send_raw_transaction : String → Handler String
  send_raw_transaction raw = send_decoded (k.wallet.unmarshal raw)

  -- `BlockNumber`: the sum is a uint64.
  unfoldable pub block_number : Handler ℕ
  block_number = do
    n ← or_dependency "get latest EVM block number" get_latest_evm_block_number
    λ s. (ok (larger ((n + 12) % 2 ^ 64) (k.seconds_since_start s)), s)

  unfoldable pub get_transaction_count : String → Handler ℕ
  get_transaction_count address =
      or_dependency (str_append "get transaction count for " address)
        (get_evm_transaction_count address)

  -- The bytecode of a contract: two bytes for a supported token, none for any other.
  unfoldable pub get_code : String → String
  get_code address = elim (k.erc20 address) [ none ↦ "0x6080" | some e ↦ "0x" ]
