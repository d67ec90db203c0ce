-- ===== src/Relayer/Destination.antt =====
-- pkg/relayer/engine/destination.go: `SubmitTransfer` of the two destinations. The result is the
-- transaction hash, and whether the transfer was skipped since the destination has it already.
use canton_middleware.Prelude.{String, Bool, true, false, Option, none, some}
use canton_middleware.Prelude.Int.{ℤ}
use canton_middleware.Prelude.Text.{parse_big_int}
use canton_middleware.Exec.{Result, ok, err, raise, pure, attempt, ◌>>=◌}
use canton_middleware.Relayer.Types.{
  Event, TransferDirection, canton_to_ethereum, ethereum_to_canton,
}
use canton_middleware.Relayer.World.{Error, invalid_amount, submission_failed}
use canton_middleware.Relayer.Clients.{Clients, Call}

-- Only a check that answers "processed" skips: one that fails is logged, and the code goes on.
abbrev pub unless_processed :
    {D : Type 0} → Result Error Bool → Call D (String × Bool) → Call D (String × Bool)
unless_processed (ok true) submit = pure ("", true)
unless_processed (ok false) submit = submit
unless_processed (err e) submit = submit

module _ {D : Type 0} (c : Clients D) where
  abbrev pub mint : Event → ℤ → Call D (String × Bool)
  mint event amount = do
    deposit ← c.create_pending_deposit (record {
      fingerprint = event.recipient;
      amount = c.big_int_to_decimal amount;
      evm_tx_hash = event.source_tx_hash;
    })
    contract_id ← c.process_deposit_and_mint deposit
    pure (contract_id, false)

  abbrev pub deposit_amount : Event → Option ℤ → Call D (String × Bool)
  deposit_amount event none = raise invalid_amount
  deposit_amount event (some amount) = do
    processed ← attempt (c.is_deposit_processed event.source_tx_hash)
    unless_processed processed (mint event amount)

  -- `CantonDestination.SubmitTransfer`.
  unfoldable pub submit_to_canton : Event → Call D (String × Bool)
  submit_to_canton event = deposit_amount event (parse_big_int event.amount)

  abbrev pub withdraw : Event → ℤ → String → Call D (String × Bool)
  withdraw event amount hash = do
    tx_hash ←
        c.withdraw_from_canton (c.hex_to_address event.token_address)
          (c.hex_to_address event.recipient) amount event.nonce hash
    pure (tx_hash, false)

  abbrev pub withdraw_hash : Event → Option ℤ → Option String → Call D (String × Bool)
  withdraw_hash event none hash = raise invalid_amount
  withdraw_hash event (some amount) none = raise submission_failed
  withdraw_hash event (some amount) (some hash) = do
    processed ← attempt (c.is_withdrawal_processed hash)
    unless_processed processed (withdraw event amount hash)

  -- `EthereumDestination.SubmitTransfer`.
  unfoldable pub submit_to_ethereum : Event → Call D (String × Bool)
  submit_to_ethereum event =
      withdraw_hash event (c.decimal_to_big_int event.amount) (c.decode_hash event.source_tx_hash)

  -- The destination that the processor of a direction submits to.
  unfoldable pub submit_transfer : TransferDirection → Event → Call D (String × Bool)
  submit_transfer canton_to_ethereum event = submit_to_ethereum event
  submit_transfer ethereum_to_canton event = submit_to_canton event
