-- ===== src/Relayer/World.antt =====
-- What the relayer's goroutines share: the two tables of the bridge database, the engine's fields, the
-- `lastSavedOffset` of each processor, and the chains behind the clients (`D`). `faults` says which of
-- the coming database statements fail (none, when it is used up); `clock` is what `time.Now` returns.
use canton_middleware.Prelude.{ℕ, String, Bool, Option, List, if◌then◌else◌}
unfoldable pub use canton_middleware.Exec.Faults.{is_faulty, rest_of}
use canton_middleware.Exec.{Result, ok, err, Exec}
use canton_middleware.Relayer.Types.{
  Transfer, ChainState, TransferDirection, canton_to_ethereum, ethereum_to_canton,
}

-- The errors that the code tells apart or passes on.
pub data Error : Type 0 where
  database_error not_found submission_failed invalid_offset invalid_amount client_error : Error
  stream_closed : Error

pub record World (D : Type 0) : Type 0 where
  pub transfers : List Transfer
  pub chain_states : List ChainState
  pub faults : List Bool
  pub clock : ℕ
  pub chains : D
  pub canton_offset : String
  pub eth_last_block : ℕ
  pub canton_saved : String
  pub eth_saved : String
  pub canton_synced : Bool
  pub ethereum_synced : Bool
  pub canton_stream_started : Option ℕ

abbrev pub Action : Type 0 → Type 0 → Type 0
Action D A = Exec Error (World D) A

module _ {D : Type 0} where
  -- One statement sent to the database.
  unfoldable pub statement : Action D Unit
  statement w = (
    if is_faulty w.faults then err database_error else ok tt,
    record w { faults = rest_of w.faults },
  )

  unfoldable pub now : Action D ℕ
  now w = (ok w.clock, w)

  -- A call of a client changes the chains only.
  abbrev pub returned : {A : Type 0} → World D → Result Error A × D → Result Error A × World D
  returned w (r, d) = (r, record w { chains = d })

  unfoldable pub client : {A : Type 0} → (D → Result Error A × D) → Action D A
  client call w = returned w (call w.chains)

  -- `p.lastSavedOffset` of the processor of a direction.
  abbrev pub last_saved_offset : TransferDirection → World D → String
  last_saved_offset canton_to_ethereum w = w.canton_saved
  last_saved_offset ethereum_to_canton w = w.eth_saved

  abbrev pub set_last_saved_offset : TransferDirection → String → World D → World D
  set_last_saved_offset canton_to_ethereum o w = record w { canton_saved = o }
  set_last_saved_offset ethereum_to_canton o w = record w { eth_saved = o }
