-- ===== src/Rpc/Submitter.antt =====
-- pkg/ethrpc/submitter/submitter.go. The token service is an interface on a state of its own, `C`. A drain takes its
-- entries one after another in the order of the list; Rpc/Order.antt is about other orders. The contexts are not
-- cancelled, and a call that takes too long is a failure of the token service.
use canton_middleware.Prelude.{
  ℕ, String, Bool, true, false, Option, none, some, List, [], ◌∷◌, if◌then◌else◌,
}
use canton_middleware.Exec.{Result, ok, err, Exec}
use canton_middleware.Failure.{
  Category, data_error, unauthorized, forbidden, resource_not_found, not_supported, data_conflict,
  gone, connection_timeout, Failure, prefixed,
}
use canton_middleware.Rpc.Types.{MempoolEntry}
use canton_middleware.Rpc.Store.{
  Db, Error, get_pending_entries, complete_mempool_entry, fail_mempool_entry,
}

-- `erc20` is the error of a contract that is not supported. `transfer_from` takes the contract, the idempotency key,
-- the sender, the recipient and the amount.
pub record TokenService (C : Type 0) : Type 0 where
  pub erc20 : String → Option Failure
  pub transfer_from : String → String → String → String → ℕ → Exec Failure C Unit

-- The conversions of go-ethereum and of math/big.
pub record Conversions : Type 0 where
  pub hex_to_address : String → String
  pub hash_hex : String → String
  pub set_bytes : String → ℕ

pub record World (C : Type 0) : Type 0 where
  pub db : Db
  pub canton : C

pub data Outcome : Type 0 where
  transfer_completed failed_permanent transient_retry : Outcome

abbrev pub label_of : Option Category → String
label_of none = "transient"
label_of (some data_error) = "data"
label_of (some not_supported) = "not_supported"
label_of (some unauthorized) = "unauthorized"
label_of (some forbidden) = "forbidden"
label_of (some resource_not_found) = "not_found"
label_of (some data_conflict) = "conflict"
label_of (some gone) = "gone"
label_of (some connection_timeout) = "timeout"
label_of (some _) = "transient"

unfoldable pub categorize_transfer_error : Failure → String
categorize_transfer_error f = if f.is_deadline then "timeout" else label_of f.category

abbrev pub is_permanent : Option Category → Bool
is_permanent (some data_error) = true
is_permanent (some not_supported) = true
is_permanent (some unauthorized) = true
is_permanent (some forbidden) = true
is_permanent (some resource_not_found) = true
is_permanent (some data_conflict) = true
is_permanent (some gone) = true
is_permanent _ = false

unfoldable pub is_permanent_error : Failure → Bool
is_permanent_error f = is_permanent f.category

module _ {C : Type 0} where
  abbrev pub on_db : Result Error Unit × Db → World C → World C
  on_db (r, db) w = record w { db = db }

  -- A failure of the write is logged, and the row stays as it was.
  unfoldable pub complete_entry : MempoolEntry → World C → World C
  complete_entry e w = on_db (complete_mempool_entry e.tx_hash w.db) w

  unfoldable pub fail_entry : MempoolEntry → Failure → World C → World C
  fail_entry e cause w = on_db (fail_mempool_entry e.tx_hash cause.text w.db) w

  abbrev pub refused : Bool → MempoolEntry → Failure → World C → Outcome × World C
  refused true e cause w = (failed_permanent, fail_entry e cause w)
  refused false e cause w = (transient_retry, w)

  abbrev pub recorded : MempoolEntry → Db → Result Failure Unit × C → Outcome × World C
  recorded e db (ok u, c) = (transfer_completed, complete_entry e (record { db = db; canton = c }))
  recorded e db (err cause, c) =
      refused (is_permanent_error cause) e cause (record { db = db; canton = c })

  module _ (svc : TokenService C) (k : Conversions) where
    abbrev pub process_on : Option Failure → MempoolEntry → World C → Outcome × World C
    process_on (some cause) e w =
        (failed_permanent, fail_entry e (prefixed "contract not supported: " cause) w)
    process_on none e w = recorded e w.db (
        svc.transfer_from (k.hex_to_address e.contract_address) (k.hash_hex e.tx_hash)
          (k.hex_to_address e.from_address) (k.hex_to_address e.recipient_address)
          (k.set_bytes e.amount_data) w.canton)

    unfoldable pub process : MempoolEntry → World C → Outcome × World C
    process e w = process_on (svc.erc20 (k.hex_to_address e.contract_address)) e w

    unfoldable pub process_all : List MempoolEntry → World C → World C
    process_all [] w = w
    process_all (e ∷ entries) w = process_all entries (process e w).1

    abbrev pub process_batch :
        World C → Result Error (List MempoolEntry) × Db → Result Error Unit × World C
    process_batch w (err e, db) = (err e, record w { db = db })
    process_batch w (ok entries, db) = (ok tt, process_all entries (record w { db = db }))

    -- One tick of the loop of `Start`; a batch size of 0 is unlimited.
    unfoldable pub drain : ℕ → World C → Result Error Unit × World C
    drain batch_size w = process_batch w (get_pending_entries batch_size w.db)
