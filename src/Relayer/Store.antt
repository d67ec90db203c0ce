-- ===== src/Relayer/Store.antt =====
-- pkg/relayer/store/pg.go with the conversions of model.go. A table is the list of its rows in the
-- order of insertion, which is that of `created_at`; a statement is a function on the rows.
pub mod Rows
pub mod Effects
pub mod Distinct
use canton_middleware.Prelude.{
  ℕ, String, Bool, true, false, Option, none, some, List, [], ◌∷◌, ◌++◌, str_eq, if◌then◌else◌, ◌+◌,
}
use canton_middleware.Exec.{Result, ok, err, Exec, pure, raise, ◌>>=◌, ◌>>◌}
use canton_middleware.Relayer.Types.{
  Transfer, ChainState, TransferStatus, pending, completed, failed, TransferDirection,
}
use canton_middleware.Relayer.World.{
  World, Action, statement, now, database_error, not_found, Error,
}
use Rows.{find, update, pending_rows, find_state, set_state}

-- The row that `toTransferDao` gives: it names neither `created_at` nor `updated_at`, which take the
-- columns' default, the current time.
unfoldable pub to_transfer_dao : Transfer → ℕ → Transfer
to_transfer_dao t time = record t { created_at = time; updated_at = time }

abbrev pub completion : TransferStatus → ℕ → Option ℕ → Option ℕ
completion completed time old = some time
completion _ time old = old

unfoldable pub with_status :
    TransferStatus → Option String → Option String → ℕ → Transfer → Transfer
with_status status dest_tx_hash err_msg time t = record t {
  status = status;
  destination_tx_hash = dest_tx_hash;
  error_message = err_msg;
  updated_at = time;
  completed_at = completion status time t.completed_at;
}

unfoldable pub with_retry : ℕ → Transfer → Transfer
with_retry time t = record t { retry_count = t.retry_count + 1; updated_at = time }

module _ {D : Type 0} where
  abbrev pub inserted_row : Option Transfer → Transfer → World D → Result Error Bool × World D
  inserted_row (some _) row w = (ok false, w)
  inserted_row none row w = (ok true, record w { transfers = w.transfers ++ row ∷ [] })

  -- INSERT … ON CONFLICT (id) DO NOTHING: true if a row was inserted.
  unfoldable pub create_transfer : Transfer → Action D Bool
  unfolding to_transfer_dao
  create_transfer t = do
    statement
    time ← now
    λ w. inserted_row (find t.id w.transfers) (to_transfer_dao t time) w

  unfoldable pub get_transfer : String → Action D (Option Transfer)
  get_transfer id = do statement; λ w. (ok (find id w.transfers), w)

  abbrev pub if_found : Option Transfer → World D → World D → Result Error Unit × World D
  if_found none w w' = (err not_found, w)
  if_found (some _) w w' = (ok tt, w')

  -- UPDATE … WHERE id = …: an error if no row was changed.
  unfoldable pub update_transfer_status :
      String → TransferStatus → Option String → Option String → Action D Unit
  update_transfer_status id status dest_tx_hash err_msg = do
    time ← now
    statement
    λ w. if_found (find id w.transfers) w (record w {
      transfers = update id (with_status status dest_tx_hash err_msg time) w.transfers;
    })

  unfoldable pub increment_retry_count : String → Action D Unit
  increment_retry_count id = do
    time ← now
    statement
    λ w.
        if_found (find id w.transfers) w
          (record w { transfers = update id (with_retry time) w.transfers })

  unfoldable pub get_pending_transfers : TransferDirection → Action D (List Transfer)
  get_pending_transfers direction = do statement; λ w. (ok (pending_rows direction w.transfers), w)

  unfoldable pub get_chain_state : String → Action D (Option ChainState)
  get_chain_state chain_id = do statement; λ w. (ok (find_state chain_id w.chain_states), w)

  -- INSERT … ON CONFLICT (chain_id) DO UPDATE.
  unfoldable pub set_chain_state : String → ℕ → String → Action D Unit
  set_chain_state chain_id block_number offset = do
    time ← now
    statement
    λ w. (
      ok tt,
      record w {
        chain_states =
            set_state
              (record {
                chain_id = chain_id;
                last_block = block_number;
                offset = offset;
                updated_at = time;
              })
              w.chain_states;
      },
    )
