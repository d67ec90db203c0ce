-- ===== src/Transfers/Examples.antt =====
-- The transfer service (pkg/transfer) at concrete requests. The state of the clients is the number of transfers that
-- the ledger has executed.
use canton_middleware.Prelude.{
  ℕ, true, false, none, some, [], ◌∷◌, ◌≡◌, refl, arith, ◌≤◌, ◌<◌, ◌+◌, ◌*◌, ◌^◌, ◌↔◌,
}
use canton_middleware.Prelude.Int.{pos}
use canton_middleware.Prelude.Assoc.{lookup}
use canton_middleware.Exec.{ok, ◌>>=◌}
use canton_middleware.Transfers.Types.{
  PreparedTransfer, PrepareRequest, ExecuteRequest, User, external, Offer,
}
use canton_middleware.Transfers.Cache.{get_and_delete}
use canton_middleware.Transfers.Checks.{validity_duration}
use canton_middleware.Transfers.Service.{
  State, Clients, Settings, execute, claimable_transfer, find_caller, on_canton, mapped, require,
  take_prepared,
}
use canton_middleware.Transfers.Lists.{truncate_party_id}
use canton_middleware.Transfers.Once.{Fails, Attempt, attempted, all_attempted, execute_twice}
use canton_middleware.Transfers.Bounded.{
  Bounded, all_happen, prepares, executes, all_happen-Bounded,
}
use canton_middleware.Transfers.Claims.{Claim, claimable_transfer-Claim, validity_duration_bound}

abbrev alice : User
alice = record { canton_party_id = "alice::12"; key_mode = external; public_key_fingerprint = "12" }

abbrev prepared : PreparedTransfer
prepared = record {
  transfer_id = "t1";
  transaction_hash = "hash";
  transaction = "transaction";
  party_id = "alice::12";
  expires_at = 100;
}

abbrev offered : Offer
offered = record {
  from_party_id = "alice::12";
  instrument_admin = "admin";
  kind = "offer";
  status = "pending";
}

abbrev clients : Clients ℕ
clients = record {
  get_user_by_evm_address = λ a n. (ok alice, n);
  get_user_by_canton_party_id = λ a n. (ok alice, n);
  is_user_not_found = λ e. false;
  party_exists = none;
  prepare_transfer = λ x y amount symbol v n. (ok prepared, n);
  transfer_by_party_id = λ x y amount symbol v n. (ok tt, n + 1);
  execute_transfer = λ p signature signed_by n. (ok tt, n + 1);
  prepare_accept_transfer = λ x id admin n. (ok prepared, n);
  prepare_withdraw_transfer = λ x id admin n. (ok prepared, n);
  withdraw_transfer_instruction = λ x id admin n. (ok tt, n + 1);
  get_transfer = λ id n. (ok (some offered), n);
  is_insufficient = λ e. false;
  grpc_code = λ e. none;
  decode_hex = λ text. ok text;
}

abbrev settings : Settings
settings = record { is_allowed = λ s. true; is_external_token = λ s. false; ttl = 60; max_size = 1 }

abbrev state : State ℕ
state = record { cache = ("t1", prepared) ∷ []; clock = 50; canton = 0 }

abbrev request : ExecuteRequest
request = record { transfer_id = "t1"; signature = "0xsigned"; signed_by = "12" }

abbrev attempt : ExecuteRequest → ℕ → Attempt ℕ
attempt req clock = record { address = "0xa"; request = req; clock = clock; canton = 0 }

execute_twice_example : Fails (
    attempted clients settings (attempt request 52) (
      all_attempted clients settings
        (attempt (record request { transfer_id = "t2" }) 51 ∷ [])
        (attempted clients settings (attempt request 50) state).1))
unfolding execute find_caller on_canton mapped require take_prepared get_and_delete lookup ◌>>=◌
execute_twice_example =
    execute_twice clients settings (attempt request 50) (attempt request 52)
      (attempt (record request { transfer_id = "t2" }) 51 ∷ []) state refl refl

abbrev demand : PrepareRequest
demand = record {
  to_address = "0xb";
  to_party_id = "";
  amount = "5";
  token = "DEMO";
  validity_seconds = pos 60;
}

all_happen-Bounded_example :
    Bounded 1
      (all_happen clients settings
        (prepares "0xa" demand ∷ executes "0xa" request ∷ [])
        state).cache
all_happen-Bounded_example =
    all_happen-Bounded clients settings (prepares "0xa" demand ∷ executes "0xa" request ∷ []) state
      (omega arith) (omega arith)

claimable_transfer-Claim_example :
    ((claimable_transfer clients settings "alice::12" "c1" state).0 ≡ ok offered)
    ↔ (((clients.get_transfer "c1" 0).0 ≡ ok (some offered)) × Claim "alice::12" offered)
claimable_transfer-Claim_example =
    claimable_transfer-Claim clients settings "alice::12" offered "c1" state

validity_duration_bound_example :
    (m : ℕ) × (pos 60 ≡ pos m) × (1 ≤ m) × (60000000000 ≡ m * 1000000000) × (60000000000 < 2 ^ 63)
unfolding validity_duration
validity_duration_bound_example = validity_duration_bound (pos 60) 60000000000 refl

-- A long party id keeps its two ends.
truncated : truncate_party_id "alice::1220aaaabbbbcccc" ≡ "alice::1…bbbbcccc"
unfolding truncate_party_id
truncated = refl
