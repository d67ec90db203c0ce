-- ===== src/Rpc/Sent.antt =====
-- What becomes of a raw transaction (`SendRawTransaction` in pkg/ethrpc/service/service.go).
use canton_middleware.Prelude.{
  ℕ, String, Bool, true, false, Option, none, some, ◌≡◌, refl, ◌⊎◌, inl, inr, Bool-cases, ◌==◌,
  arith,
}
use canton_middleware.Exec.{Result, ok, err, continue, pure, raise, ◌>>=◌}
use canton_middleware.Failure.{Failure}
use canton_middleware.Rpc.Store.{Db, Error, with_entry, insert_mempool_entry, execute}
use canton_middleware.Rpc.Runs.{Decides, execute-Decides}
use canton_middleware.Rpc.Service.{
  SignedTransaction, EthService, rewrapped, gated, check_whitelist, decode_transfer_call,
  mempool_entry, record_intent, with_args, to_contract, with_sender, send_decoded,
  send_raw_transaction,
}

module _ (k : EthService) (raw : String) (s : Db) where
  -- The checks that a transaction passes, and the entry that it leaves.
  pub record Accepted (p : Result Failure String × Db) : Type 0 where
    pub tx : SignedTransaction
    pub contract : String
    pub args : String × ℕ
    pub decodes : k.wallet.unmarshal raw ≡ ok tx
    pub is_signed : k.wallet.recover tx ≡ none
    pub is_allowed : k.is_whitelisted (k.wallet.to_lower tx.sender) s ≡ ok true
    pub calls : tx.to_address ≡ some contract
    pub is_free : tx.value ≡ 0
    pub is_transfer : decode_transfer_call k.wallet tx.input ≡ ok args
    pub is_supported : k.erc20 contract ≡ none
    pub answer : p.0 ≡ ok tx.hash
    pub intent : p.1.tables ≡ with_entry (mempool_entry k.wallet tx contract args) s.tables

  abbrev pub Refused : Result Failure String × Db → Type 0
  Refused p = ((f : Failure) × (p.0 ≡ err f)) × (p.1.tables ≡ s.tables)

  abbrev pub Verdict : Result Failure String × Db → Type 0
  Verdict p = Refused p ⊎ Accepted p

  module _ (tx : SignedTransaction) (decodes : k.wallet.unmarshal raw ≡ ok tx)
      (is_signed : k.wallet.recover tx ≡ none)
      (is_allowed : k.is_whitelisted (k.wallet.to_lower tx.sender) s ≡ ok true) where
    inserted :
        (contract : String) (args : String × ℕ)
        → tx.to_address ≡ some contract
        → tx.value ≡ 0
        → decode_transfer_call k.wallet tx.input ≡ ok args
        → k.erc20 contract ≡ none
        → (r : Result Error Unit) (s' : Db)
        → Decides (with_entry (mempool_entry k.wallet tx contract args)) s (r, s')
        → Verdict (
            continue
              (rewrapped "insert mempool entry" (r, s')).0
              (λ u. pure tx.hash)
              (rewrapped "insert mempool entry" (r, s')).1)
    unfolding pure
    inserted contract args calls free transfers supported (ok u) s' (closed, inl (failed, same)) =
        absurd (cc)
    inserted contract args calls free transfers supported (ok u) s' (closed, inr (done, after)) =
        inr record {
          tx = tx;
          contract = contract;
          args = args;
          decodes = decodes;
          is_signed = is_signed;
          is_allowed = is_allowed;
          calls = calls;
          is_free = free;
          is_transfer = transfers;
          is_supported = supported;
          answer = refl;
          intent = after;
        }
    inserted contract args calls free transfers supported (err e) s' (closed, inl (failed, same)) =
        inl ((_, refl), same)
    inserted contract args calls free transfers supported (err e) s' (closed, inr (done, after)) =
        absurd (cc)

    supported_or_not :
        (contract : String) (args : String × ℕ)
        → tx.to_address ≡ some contract
        → tx.value ≡ 0
        → decode_transfer_call k.wallet tx.input ≡ ok args
        → (o : Option Failure) → k.erc20 contract ≡ o
        → Verdict (record_intent k tx contract args o s)
    unfolding raise insert_mempool_entry ◌>>=◌
    supported_or_not contract args calls free transfers (some e) h = inl ((_, refl), refl)
    supported_or_not contract args calls free transfers none h =
        let e = mempool_entry k.wallet tx contract args in
        inserted contract args calls free transfers h (execute (with_entry e) s).0
          (execute (with_entry e) s).1 (execute-Decides (with_entry e) s)

    transfer_or_not :
        (contract : String)
        → tx.to_address ≡ some contract
        → tx.value ≡ 0
        → (r : Result Failure (String × ℕ)) → decode_transfer_call k.wallet tx.input ≡ r
        → Verdict (with_args k tx contract r s)
    unfolding raise
    transfer_or_not contract calls free (err e) h = inl ((_, refl), refl)
    transfer_or_not contract calls free (ok args) h =
        supported_or_not contract args calls free h (k.erc20 contract) refl

    call_or_not : (o : Option String) → tx.to_address ≡ o → Verdict (to_contract k tx o s)
    unfolding raise
    call_or_not none h = inl ((_, refl), refl)
    call_or_not (some contract) h = elim (Bool-cases (tx.value == 0)) [
      | inl e ↦
          simp (e) (
            transfer_or_not contract h (ground arith) (decode_transfer_call k.wallet tx.input) refl)
      | inr e ↦ simp (e) (inl ((_, refl), refl))
    ]

  allowed_or_not :
      (tx : SignedTransaction)
      → k.wallet.unmarshal raw ≡ ok tx
      → k.wallet.recover tx ≡ none
      → (r : Result Failure Bool) → k.is_whitelisted (k.wallet.to_lower tx.sender) s ≡ r
      → Verdict (
          continue
            (gated (k.wallet.to_lower tx.sender) r s).0
            (λ u. to_contract k tx tx.to_address)
            (gated (k.wallet.to_lower tx.sender) r s).1)
  unfolding raise pure
  allowed_or_not tx decodes signed (err e) h = inl ((_, refl), refl)
  allowed_or_not tx decodes signed (ok false) h = inl ((_, refl), refl)
  allowed_or_not tx decodes signed (ok true) h = call_or_not tx decodes signed h tx.to_address refl

  signed_or_not :
      (tx : SignedTransaction)
      → k.wallet.unmarshal raw ≡ ok tx
      → (o : Option Failure) → k.wallet.recover tx ≡ o
      → Verdict (with_sender k tx o s)
  unfolding raise check_whitelist ◌>>=◌
  signed_or_not tx decodes (some e) h = inl ((_, refl), refl)
  signed_or_not tx decodes none h =
      allowed_or_not tx decodes h (k.is_whitelisted (k.wallet.to_lower tx.sender) s) refl

  decoded_or_not :
      (r : Result Failure SignedTransaction)
      → k.wallet.unmarshal raw ≡ r
      → Verdict (send_decoded k r s)
  unfolding raise
  decoded_or_not (err e) h = inl ((_, refl), refl)
  decoded_or_not (ok tx) h = signed_or_not tx h (k.wallet.recover tx) refl

-- A raw transaction is refused with an error, and the tables are as they were; or its hash is the answer, its entry is
-- inserted as pending unless its hash has a row, and it had passed every check: its encoding, its signature, the whitelist for its sender, a
-- contract that is called with no value, the arguments of a transfer, and a supported token.
pub send_raw_transaction-Verdict :
    (k : EthService) (raw : String) (s : Db) → Verdict k raw s (send_raw_transaction k raw s)
unfolding send_raw_transaction
send_raw_transaction-Verdict k raw s = decoded_or_not k raw s (k.wallet.unmarshal raw) refl
