-- ===== src/Relayer/Store/Effects.antt =====
-- What the methods of pkg/relayer/store/pg.go keep: a property that the pending faults do not touch is
-- kept by a method if the method's one write keeps it.
use canton_middleware.Prelude.{
  ℕ, String, false, Option, none, some, [], ◌∷◌, ◌++◌, ◌≡◌, Bool-cases, Option-cases, inl, inr, ◌⊎◌,
  if◌then◌else◌,
}
use canton_middleware.Exec.{ok, err, ◌>>=◌}
use canton_middleware.Exec.Keeps.{Keeps}
use canton_middleware.Relayer.Types.{Transfer, TransferStatus, TransferDirection, ChainState}
use canton_middleware.Relayer.World.{World, statement, now, is_faulty, rest_of, database_error}
use canton_middleware.Relayer.Store.{
  create_transfer, update_transfer_status, increment_retry_count, get_pending_transfers,
  set_chain_state, with_status, with_retry, to_transfer_dao,
}
use canton_middleware.Relayer.Store.Rows.{find, update, set_state}

-- A transfer whose id has a row is not inserted.
pub create_transfer-found :
    {D : Type 0} (t : Transfer) (w : World D) {r : Transfer}
    → find t.id w.transfers ≡ some r
    → create_transfer t w ≡ (
      if is_faulty w.faults then err database_error else ok false,
      record w { faults = rest_of w.faults },
    )
unfolding create_transfer statement now ◌>>=◌
create_transfer-found t w h = elim (Bool-cases (is_faulty w.faults)) [
  | inl bad ↦ rw bad
  | inr good ↦ rw (good, h)
]

module _ {D : Type 0} (P : World D → Type 0)
    (quiet : (w : World D) → P w → P (record w { faults = rest_of w.faults })) where
  pub create_transfer-Keeps :
      (t : Transfer)
      → ((w : World D) (time : ℕ)
          → P w
          → find t.id w.transfers ≡ none
          → P (record w { transfers = w.transfers ++ to_transfer_dao t time ∷ [] }))
      → Keeps P (create_transfer t)
  unfolding create_transfer statement now ◌>>=◌
  create_transfer-Keeps t write = record {
    at = λ w h. elim (Bool-cases (is_faulty w.faults)) [
      | inl bad ↦ rw bad (quiet w h)
      | inr good ↦ elim (Option-cases (find t.id w.transfers)) [
        | inl e ↦
            rw (good, e) (write (record w { faults = rest_of w.faults }) w.clock (quiet w h) e)
        | inr x ↦ rw (good, x.1) (quiet w h)
      ]
    ];
  }

  pub update_transfer_status-Keeps :
      (id : String) (status : TransferStatus) (hash msg : Option String)
      → ((w : World D) (time : ℕ)
          → P w
          → P (record w { transfers = update id (with_status status hash msg time) w.transfers }))
      → Keeps P (update_transfer_status id status hash msg)
  unfolding update_transfer_status statement now ◌>>=◌
  update_transfer_status-Keeps id status hash msg write = record {
    at = λ w h. elim (Bool-cases (is_faulty w.faults)) [
      | inl bad ↦ rw bad (quiet w h)
      | inr good ↦ elim (Option-cases (find id w.transfers)) [
        | inl e ↦ rw (good, e) (quiet w h)
        | inr x ↦
            rw (good, x.1) (write (record w { faults = rest_of w.faults }) w.clock (quiet w h))
      ]
    ];
  }

  pub increment_retry_count-Keeps :
      (id : String)
      → ((w : World D) (time : ℕ)
          → P w
          → P (record w { transfers = update id (with_retry time) w.transfers }))
      → Keeps P (increment_retry_count id)
  unfolding increment_retry_count statement now ◌>>=◌
  increment_retry_count-Keeps id write = record {
    at = λ w h. elim (Bool-cases (is_faulty w.faults)) [
      | inl bad ↦ rw bad (quiet w h)
      | inr good ↦ elim (Option-cases (find id w.transfers)) [
        | inl e ↦ rw (good, e) (quiet w h)
        | inr x ↦
            rw (good, x.1) (write (record w { faults = rest_of w.faults }) w.clock (quiet w h))
      ]
    ];
  }

  pub set_chain_state-Keeps :
      (chain_id : String) (block : ℕ) (offset : String)
      → ((w : World D) (c : ChainState)
          → P w
          → P (record w { chain_states = set_state c w.chain_states }))
      → Keeps P (set_chain_state chain_id block offset)
  unfolding set_chain_state statement now ◌>>=◌
  set_chain_state-Keeps chain_id block offset write = record {
    at = λ w h. elim (Bool-cases (is_faulty w.faults)) [
      | inl bad ↦ rw bad (quiet w h)
      | inr good ↦ rw good (write (record w { faults = rest_of w.faults }) _ (quiet w h))
    ];
  }

  pub get_pending_transfers-Keeps :
      (direction : TransferDirection) → Keeps P (get_pending_transfers direction)
  unfolding get_pending_transfers statement ◌>>=◌
  get_pending_transfers-Keeps direction = record {
    at = λ w h. elim (Bool-cases (is_faulty w.faults)) [
      | inl bad ↦ rw bad (quiet w h)
      | inr good ↦ rw good (quiet w h)
    ];
  }

-- What an update of a status does to the rows: nothing, or the update of the row.
pub update_transfer_status-rows :
    {D : Type 0} (id : String) (status : TransferStatus) (hash msg : Option String) (w : World D)
    → ((update_transfer_status id status hash msg w).1.transfers ≡ w.transfers)
      ⊎ ((update_transfer_status id status hash msg w).1.transfers
          ≡ update id (with_status status hash msg w.clock) w.transfers)
unfolding update_transfer_status statement now ◌>>=◌
update_transfer_status-rows id status hash msg w = elim (Bool-cases (is_faulty w.faults)) [
  | inl bad ↦ inl (rw bad)
  | inr good ↦ elim (Option-cases (find id w.transfers)) [
    | inl e ↦ inl (rw (good, e))
    | inr x ↦ inr (rw (good, x.1))
  ]
]

pub increment_retry_count-rows :
    {D : Type 0} (id : String) (w : World D)
    → ((increment_retry_count id w).1.transfers ≡ w.transfers)
      ⊎ ((increment_retry_count id w).1.transfers ≡ update id (with_retry w.clock) w.transfers)
unfolding increment_retry_count statement now ◌>>=◌
increment_retry_count-rows id w = elim (Bool-cases (is_faulty w.faults)) [
  | inl bad ↦ inl (rw bad)
  | inr good ↦ elim (Option-cases (find id w.transfers)) [
    | inl e ↦ inl (rw (good, e))
    | inr x ↦ inr (rw (good, x.1))
  ]
]
