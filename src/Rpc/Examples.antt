-- ===== src/Rpc/Examples.antt =====
-- The facade (pkg/ethrpc) on concrete data: a mempool of three entries.
use canton_middleware.Prelude.{
  ℕ, List, String, Bool, true, false, none, some, [], ◌∷◌, ◌≡◌, ◌≢◌, refl, arith, str_eq, ◌≤◌, ◌+◌,
  map, if◌then◌else◌,
}
use canton_middleware.Prelude.Int.{pos}
use canton_middleware.Prelude.Assoc.{lookup}
use canton_middleware.Exec.{ok, err}
use canton_middleware.Failure.{Failure, plain, bad_request_error}
use canton_middleware.Rpc.Types.{MempoolStatus, pending, completed, failed, MempoolEntry}
use canton_middleware.Rpc.Store.{Tables, Db, hash_key, terminal_entries, settle}
use canton_middleware.Rpc.Miner.{Miner, Codec, mine}
use canton_middleware.Rpc.Submitter.{
  Conversions, World, process, Outcome, is_permanent_error, categorize_transfer_error,
  transient_retry, failed_permanent,
}
use canton_middleware.Rpc.Service.{
  EthService, Wallet, transfer_call, send_raw_transaction, block_number,
}
use canton_middleware.Rpc.Service.Reads.{get_transaction_receipt, Receipt}
use canton_middleware.Rpc.Block.Fills.{Mined, mine-Mined}
use canton_middleware.Rpc.Lifecycle.{Invariant, Grows}
use canton_middleware.Rpc.Composed.{Happening, sends, drains, mines, all_happen, all_happen-Grows}
use canton_middleware.Rpc.Drained.{finished, ticks_on, ticks-drain}
use canton_middleware.Rpc.Outcomes.{
  differs, categorize_transfer_error_lem, sender_lookup_failure, ledger_failure,
}
use canton_middleware.Rpc.Order.{completion, failure, swapped, run_writes, run_writes-Shuffle}
use canton_middleware.Rpc.Sent.{Verdict, send_raw_transaction-Verdict}
use canton_middleware.Rpc.Confirmed.{Reports, receipt-mine, block_number_bound}
use canton_middleware.Token.Service.{Clients, Amounts, Config, Erc20Token, service, get_token}

abbrev codec : Codec
codec = record {
  transfer_event_topic = "Transfer";
  address_topic = λ a. a;
  address_bytes = λ a. a;
  pad_word = λ a. a;
  compute_block_hash = λ n. "block";
}

abbrev miner : Miner
miner = record { codec = codec; gas_limit = 21000; max_txs_per_block = 1 }

abbrev entry : ℕ → String → MempoolStatus → MempoolEntry
entry id hash status = record {
  id = id;
  tx_hash = hash;
  from_address = "alice";
  contract_address = "token";
  recipient_address = "bob";
  nonce = id;
  input = "0xa9059cbb";
  amount_data = "5";
  status = status;
  error_message = "";
}

abbrev tables : Tables
tables = record {
  mempool = entry 0 "a" completed ∷ entry 1 "b" failed ∷ entry 2 "c" pending ∷ [];
  next_id = 3;
  transactions = [];
  logs = [];
  latest_block = 6;
}

abbrev db : Db
db = record { tables = tables; before = none; faults = []; clock = 100 }

mine-Mined_example : Mined miner db (mine miner db)
mine-Mined_example = mine-Mined miner db refl

db-Invariant : Invariant db
db-Invariant = (refl, (omega arith, (omega arith, (omega arith, omega arith))))

abbrev after_tick : Db
after_tick = (mine miner db).1

ticks-drain_example : (ticks_on miner 2 db).tables.mempool ≡ map finished db.tables.mempool
unfolding terminal_entries
ticks-drain_example = ticks-drain miner 2 db refl refl db-Invariant.1 (omega arith)

abbrev rejected : Failure
rejected = bad_request_error none "no amount"

categorize_transfer_error_lem_example : categorize_transfer_error rejected ≢ "transient"
unfolding is_permanent_error bad_request_error
categorize_transfer_error_lem_example = categorize_transfer_error_lem rejected refl

-- The state of the clients is the number of calls of the ledger.
abbrev outage : Failure
outage = plain "connection refused"

abbrev clients : Bool → Clients ℕ
clients knows_users = record {
  get_user_by_evm_address = λ a n.
      (if knows_users then ok (record { fingerprint = a; canton_party_id = a }) else err outage, n);
  is_not_found = λ f. false;
  transfer_by_fingerprint = λ key x y amount symbol n. (err outage, n + 1);
  is_insufficient = λ f. false;
  get_balance = λ symbol party n. (ok "0", n);
  get_total_supply = λ symbol n. (ok "0", n);
}

abbrev amounts : Amounts
amounts = record { to_units = λ text d. none; of_units = λ n d. "5" }

abbrev demo : Erc20Token
demo = record {
  name = "Demo";
  symbol = "DEMO";
  decimals = pos 18;
  instrument_id = "DEMO";
  external_transfer = false;
}

abbrev config : Config
config = ("token", demo) ∷ []

abbrev conversions : Conversions
conversions = record { hex_to_address = λ a. a; hash_hex = λ h. h; set_bytes = λ b. 5 }

abbrev world : World ℕ
world = record { db = db; canton = 0 }

abbrev due : MempoolEntry
due = entry 2 "c" pending

abbrev lost : Bool → Outcome × World ℕ
lost knows_users = process (service (clients knows_users) amounts config) conversions due world

sender_lookup_failure_example :
    ((lost false).0 ≡ failed_permanent)
    × ((lost false).1.canton ≡ 0)
    × ((lost false).1.db.tables ≡ record tables {
      mempool = map (settle "c" failed "failed to get sender: connection refused") tables.mempool;
    })
unfolding get_token lookup
sender_lookup_failure_example =
    sender_lookup_failure (clients false) amounts config conversions due world demo outage 0 refl
      refl refl

ledger_failure_example : lost true ≡ (transient_retry, record world { canton = 1 })
unfolding get_token lookup
ledger_failure_example =
    ledger_failure (clients true) amounts config conversions due world demo
      (record { fingerprint = "alice"; canton_party_id = "alice" })
      (record { fingerprint = "bob"; canton_party_id = "bob" }) outage 0 0 1 refl refl refl refl
      refl

run_writes-Shuffle_example :
    (run_writes (completion "c" ∷ failure "b" "no" ∷ []) db).tables
    ≡ (run_writes (failure "b" "no" ∷ completion "c" ∷ []) db).tables
run_writes-Shuffle_example =
    run_writes-Shuffle (completion "c" ∷ failure "b" "no" ∷ [])
      (failure "b" "no" ∷ completion "c" ∷ []) db refl ((differs "c" "b" refl, tt), (tt, tt))
      (swapped (completion "c") (failure "b" "no") [])

receipt-mine_example :
    (r : Receipt) × ((get_transaction_receipt "a" after_tick).0 ≡ ok (some r))
    × Reports miner 7 "block" "a" (0, entry 0 "a" completed) r
unfolding lookup terminal_entries
receipt-mine_example = receipt-mine miner "a" (0, entry 0 "a" completed) db refl refl refl refl

abbrev wallet : Wallet
wallet = record {
  unmarshal = λ raw. ok (record {
    hash = raw;
    sender = "alice";
    to_address = some "token";
    value = 0;
    nonce = 3;
    input = "0xa9059cbb";
  });
  recover = λ tx. none;
  byte_length = λ input. 68;
  method_of = λ input. transfer_call (ok ("bob", 5));
  to_lower = λ a. a;
  big_bytes = λ n. "5";
}

abbrev eth : EthService
eth = record {
  wallet = wallet;
  is_whitelisted = λ a s. ok (str_eq a "alice");
  erc20 = λ a. none;
  compute_block_hash = λ n. "block";
  seconds_since_start = λ s. 3;
}

send_raw_transaction-Verdict_example : Verdict eth "d" db (send_raw_transaction eth "d" db)
send_raw_transaction-Verdict_example = send_raw_transaction-Verdict eth "d" db

block_number_bound_example : (n : ℕ) × ((block_number eth db).0 ≡ ok n) × (18 ≤ n) × (3 ≤ n)
block_number_bound_example = block_number_bound eth db refl (omega arith)

abbrev history : List Happening
history = drains 0 ∷ mines ∷ sends "d" ∷ mines ∷ []

abbrev after_history : World ℕ
after_history =
    all_happen eth (service (clients false) amounts config) conversions miner history world

all_happen-Grows_example :
    Invariant after_history.db × Grows tables.mempool after_history.db.tables.mempool
all_happen-Grows_example =
    all_happen-Grows eth (service (clients false) amounts config) conversions miner history world
      db-Invariant
