-- ===== src/Rpc/Outcomes.antt =====
-- What the submitter (pkg/ethrpc/submitter/submitter.go) makes of the answers of the token service
-- (pkg/token/service.go).
use Prim.Native.String.{◌++◌ as str_append}
use canton_middleware.Prelude.{
  ℕ, String, Bool, true, false, Option, none, some, [], ◌≡◌, ◌≢◌, refl, if◌then◌else◌, map, str_eq,
  eq_iff, arith,
}
use canton_middleware.Exec.{ok, err, attempt, pure, raise, ◌>>=◌}
use canton_middleware.Exec.Faults.{is_faulty, rest_of}
use canton_middleware.Failure.{
  Category, no_error, data_error, unauthorized, forbidden, resource_not_found, not_supported,
  data_conflict, locked, gone, dependency_failure, general_error, recovering, connection_timeout,
  Failure, prefixed, bad_request_error, dependency_error,
}
use canton_middleware.Rpc.Types.{MempoolEntry, failed}
use canton_middleware.Rpc.Store.{Db, statement, execute, settle, fail_mempool_entry}
use canton_middleware.Rpc.Submitter.{
  Conversions, World, failed_permanent, transient_retry, label_of, is_permanent,
  categorize_transfer_error, is_permanent_error, fail_entry, process,
}
use canton_middleware.Token.Service.{
  Clients, Amounts, Config, Erc20Token, User, get_token, decimals, transfer, transfer_from, erc20,
  service,
}

pub differs : (s t : String) → str_eq s t ≡ false → s ≢ t
differs s t e p = go ((eq_iff s t).1 p)
  where
    go : str_eq s t ≡ true → ⊥
    go q = ground arith

permanent-label : (c : Option Category) → is_permanent c ≡ true → label_of c ≢ "transient"
permanent-label none h p = absurd (cc)
permanent-label (some data_error) h p = differs _ _ refl p
permanent-label (some not_supported) h p = differs _ _ refl p
permanent-label (some unauthorized) h p = differs _ _ refl p
permanent-label (some forbidden) h p = differs _ _ refl p
permanent-label (some resource_not_found) h p = differs _ _ refl p
permanent-label (some data_conflict) h p = differs _ _ refl p
permanent-label (some gone) h p = differs _ _ refl p
permanent-label (some no_error) h p = absurd (cc)
permanent-label (some locked) h p = absurd (cc)
permanent-label (some dependency_failure) h p = absurd (cc)
permanent-label (some general_error) h p = absurd (cc)
permanent-label (some recovering) h p = absurd (cc)
permanent-label (some connection_timeout) h p = absurd (cc)

-- A failure after which an entry is marked as failed is never counted as a transient one.
pub categorize_transfer_error_lem :
    (f : Failure) → is_permanent_error f ≡ true → categorize_transfer_error f ≢ "transient"
unfolding is_permanent_error categorize_transfer_error
categorize_transfer_error_lem f h = go f.is_deadline
  where
    go : (b : Bool) → (if b then "timeout" else label_of f.category) ≢ "transient"
    go true = differs "timeout" "transient" refl
    go false = permanent-label f.category h

fail_mempool_entry-tables :
    (hash message : String) (s : Db)
    → s.faults ≡ []
    → (fail_mempool_entry hash message s).1.tables
      ≡ record s.tables { mempool = map (settle hash failed message) s.tables.mempool }
unfolding fail_mempool_entry execute statement is_faulty rest_of ◌>>=◌
fail_mempool_entry-tables hash message s steady = simp (steady) refl

module _ {C : Type 0} (k : Clients C) (a : Amounts) (cfg : Config)
    (contract key from_address to_address : String) (amount : ℕ) (tkn : Erc20Token) (c c' : C)
    (cause : Failure) (supported : get_token cfg contract ≡ ok tkn) where
  sender_fails :
      k.get_user_by_evm_address from_address c ≡ (err cause, c')
      → transfer_from k a cfg contract key from_address to_address amount c ≡ (
        err (
            bad_request_error
              (some (prefixed "failed to get sender: " cause))
              "failed to get sender"),
        c',
      )
  unfolding transfer_from transfer attempt pure raise ◌>>=◌
  sender_fails h = rw (supported, h) refl

module _ {C : Type 0} (k : Clients C) (a : Amounts) (cfg : Config)
    (contract key from_address to_address : String) (amount : ℕ) (tkn : Erc20Token)
    (c0 c1 c2 c3 : C) (from_user to_user : User) (cause : Failure)
    (supported : get_token cfg contract ≡ ok tkn)
    (from_found : k.get_user_by_evm_address from_address c0 ≡ (ok from_user, c1))
    (to_found : k.get_user_by_evm_address to_address c1 ≡ (ok to_user, c2))
    (outage : k.is_insufficient cause ≡ false) where
  ledger_fails :
      k.transfer_by_fingerprint key from_user.fingerprint to_user.fingerprint
          (a.of_units amount (decimals cfg contract))
          tkn.symbol
          c2
        ≡ (err cause, c3)
      → transfer_from k a cfg contract key from_address to_address amount c0 ≡ (
        err (
            dependency_error
              (some (prefixed "canton transfer failed: " cause))
              "canton transfer failed"),
        c3,
      )
  unfolding transfer_from transfer attempt pure raise ◌>>=◌
  ledger_fails h = rw (supported, from_found, to_found, h, outage) refl

-- The lookup of the sender's user fails, in whatever way: the entry, with its transfer not even sent to the ledger, is
-- settled as failed.
pub sender_lookup_failure :
    {C : Type 0} (k : Clients C) (a : Amounts) (cfg : Config) (v : Conversions) (e : MempoolEntry)
    (w : World C) (tkn : Erc20Token) (cause : Failure) (c : C)
    → get_token cfg (v.hex_to_address e.contract_address) ≡ ok tkn
    → k.get_user_by_evm_address (v.hex_to_address e.from_address) w.canton ≡ (err cause, c)
    → w.db.faults ≡ []
    → let p = process (service k a cfg) v e w in
      (p.0 ≡ failed_permanent)
      × (p.1.canton ≡ c)
      × (p.1.db.tables ≡ record w.db.tables {
        mempool =
            map
              (settle e.tx_hash failed (str_append "failed to get sender: " cause.text))
              w.db.tables.mempool;
      })
unfolding process erc20 is_permanent_error bad_request_error fail_entry
sender_lookup_failure k a cfg v e w tkn cause c supported lost steady =
    rw
      (
        supported,
        sender_fails k a cfg (v.hex_to_address e.contract_address) (v.hash_hex e.tx_hash)
            (v.hex_to_address e.from_address) (v.hex_to_address e.recipient_address)
            (v.set_bytes e.amount_data) tkn w.canton c cause supported lost,
      )
      (
        refl,
        refl,
        fail_mempool_entry-tables e.tx_hash (str_append "failed to get sender: " cause.text) w.db
            steady,
      )

-- Both users are known and the ledger does not take the transfer, for a reason other than the balance: the database is
-- as it was, so that the entry is still pending and the next tick tries it again.
pub ledger_failure :
    {C : Type 0} (k : Clients C) (a : Amounts) (cfg : Config) (v : Conversions) (e : MempoolEntry)
    (w : World C) (tkn : Erc20Token) (from_user to_user : User) (cause : Failure) (c1 c2 c3 : C)
    → get_token cfg (v.hex_to_address e.contract_address) ≡ ok tkn
    → k.get_user_by_evm_address (v.hex_to_address e.from_address) w.canton ≡ (ok from_user, c1)
    → k.get_user_by_evm_address (v.hex_to_address e.recipient_address) c1 ≡ (ok to_user, c2)
    → k.is_insufficient cause ≡ false
    → k.transfer_by_fingerprint
        (v.hash_hex e.tx_hash)
        from_user.fingerprint
        to_user.fingerprint
        (a.of_units
          (v.set_bytes e.amount_data)
          (decimals cfg (v.hex_to_address e.contract_address)))
        tkn.symbol
        c2
      ≡ (err cause, c3)
    → process (service k a cfg) v e w ≡ (transient_retry, record w { canton = c3 })
unfolding process erc20 is_permanent_error dependency_error
ledger_failure k a cfg v e w tkn from_user to_user cause c1 c2 c3 supported from_found to_found
      outage lost =
    rw
      (
        supported,
        ledger_fails k a cfg (v.hex_to_address e.contract_address) (v.hash_hex e.tx_hash)
            (v.hex_to_address e.from_address) (v.hex_to_address e.recipient_address)
            (v.set_bytes e.amount_data) tkn w.canton c1 c2 c3 from_user to_user cause supported
            from_found to_found outage lost,
      )
      refl
