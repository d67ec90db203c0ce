-- ===== src/Rpc/Receipts.antt =====
-- What `GetTransactionReceipt` and `GetTransactionByHash` read of a block (pkg/ethrpc/miner/miner.go,
-- pkg/ethrpc/store/pg.go).
use canton_middleware.Prelude.{
  ℕ, String, Bool, true, false, Option, none, some, List, [], ◌∷◌, ◌≡◌, refl, sym, ◌∙◌, ap, inl,
  inr, if◌then◌else◌, ◌+◌, str_eq, eq_iff,
}
use canton_middleware.Prelude.Assoc.{lookup, insert_new, put_if_absent, lookup-put}
use canton_middleware.Rpc.Types.{MempoolEntry, EvmTransaction}
use canton_middleware.Rpc.Store.{Tables, Db, PendingBlock, hash_key}
use canton_middleware.Rpc.Miner.{Miner, evm_transaction, mine}
use canton_middleware.Rpc.Block.{
  block_transactions, with_transactions, claimed, next_block, mined_tables, sealed_if_any,
}
use canton_middleware.Rpc.Block.Fills.{Mined, mine-Mined}

abbrev pub or_else : {A : Type 0} → Option A → Option A → Option A
or_else (some a) o = some a
or_else none o = o

-- The first entry of a block that has a hash, as the transaction of its position.
abbrev pub transaction_of :
    Miner → PendingBlock → String → ℕ → List MempoolEntry → Option EvmTransaction
transaction_of m b hash i [] = none
transaction_of m b hash i (e ∷ es) =
    if str_eq e.tx_hash hash
    then some (evm_transaction m b i e)
    else transaction_of m b hash (i + 1) es

lookup-insert :
    (hash : String) (tx : EvmTransaction) (rows : List (String × EvmTransaction))
    → lookup hash (insert_new tx.tx_hash tx rows)
      ≡ or_else (lookup hash rows) (if str_eq tx.tx_hash hash then some tx else none)
unfolding insert_new
lookup-insert hash tx rows = go (lookup tx.tx_hash rows) refl
  where
    same : str_eq tx.tx_hash hash ≡ true → lookup tx.tx_hash rows ≡ lookup hash rows
    same e = ap (λ h. lookup h rows) ((eq_iff tx.tx_hash hash).0 e)

    found :
        (w : EvmTransaction) (o : Option EvmTransaction) (b : Bool)
        → (b ≡ true → some w ≡ o)
        → o ≡ or_else o (if b then some tx else none)
    found w none true h = let p : some w ≡ none = h refl in absurd (cc)
    found w none false h = refl
    found w (some v) b h = refl

    fresh :
        (o : Option EvmTransaction) (b : Bool)
        → (b ≡ true → none ≡ o)
        → (if b then some tx else o) ≡ or_else o (if b then some tx else none)
    fresh none true h = refl
    fresh none false h = refl
    fresh (some v) true h = let p : none ≡ some v = h refl in absurd (cc)
    fresh (some v) false h = refl

    go :
        (o : Option EvmTransaction)
        → lookup tx.tx_hash rows ≡ o
        → lookup hash (put_if_absent o tx.tx_hash tx rows)
          ≡ or_else (lookup hash rows) (if str_eq tx.tx_hash hash then some tx else none)
    go none h =
        lookup-put tx.tx_hash hash tx rows
        ∙ fresh (lookup hash rows) (str_eq tx.tx_hash hash) (λ e. sym h ∙ same e)
    go (some w) h = found w (lookup hash rows) (str_eq tx.tx_hash hash) (λ e. sym h ∙ same e)

or_else_assoc : {A : Type 0} (o p q : Option A) → or_else (or_else o p) q ≡ or_else o (or_else p q)
or_else_assoc none p q = refl
or_else_assoc (some a) p q = refl

-- In a block the first entry with a hash has the transaction, unless the hash has one already.
pub lookup-with_transactions :
    (m : Miner) (b : PendingBlock) (hash : String) (es : List MempoolEntry) (i : ℕ)
    (rows : List (String × EvmTransaction))
    → lookup hash (with_transactions (block_transactions m b i es) rows)
      ≡ or_else (lookup hash rows) (transaction_of m b hash i es)
unfolding evm_transaction
lookup-with_transactions m b hash [] i rows = go (lookup hash rows)
  where
    go : (o : Option EvmTransaction) → o ≡ or_else o none
    go none = refl
    go (some v) = refl
lookup-with_transactions m b hash (e ∷ es) i rows =
    lookup-with_transactions m b hash es (i + 1)
      (insert_new e.tx_hash (evm_transaction m b i e) rows)
    ∙ ap (λ o. or_else o (transaction_of m b hash (i + 1) es))
        (lookup-insert hash (evm_transaction m b i e) rows)
    ∙ or_else_assoc (lookup hash rows)
        (if str_eq e.tx_hash hash then some (evm_transaction m b i e) else none)
        (transaction_of m b hash (i + 1) es)
    ∙ ap (or_else (lookup hash rows)) (choose (str_eq e.tx_hash hash))
  where
    choose :
        (c : Bool)
        → or_else
            (if c then some (evm_transaction m b i e) else none)
            (transaction_of m b hash (i + 1) es)
          ≡ (if c then some (evm_transaction m b i e) else transaction_of m b hash (i + 1) es)
    choose true = refl
    choose false = refl

mined-lookup :
    (m : Miner) (time : ℕ) (hash : String) (t : Tables)
    → lookup hash (mined_tables m time t).transactions
      ≡ or_else
          (lookup hash t.transactions)
          (transaction_of m (next_block m t) hash 0 (claimed m.max_txs_per_block t))
mined-lookup m time hash t = go (claimed m.max_txs_per_block t)
  where
    b : PendingBlock
    b = next_block m t

    go :
        (es : List MempoolEntry)
        → lookup hash (sealed_if_any m b time es t).transactions
          ≡ or_else (lookup hash t.transactions) (transaction_of m b hash 0 es)
    go [] = lookup-with_transactions m b hash [] 0 t.transactions
    go (e ∷ es) = lookup-with_transactions m b hash (e ∷ es) 0 t.transactions

-- If no statement fails and no transaction is open, a tick of the miner changes what a hash has in just one way: a hash
-- with no transaction, of an entry that the tick claims, gets that of the entry's position in the next block.
pub lookup-mine :
    (m : Miner) (hash : String) (s : Db)
    → s.before ≡ none
    → s.faults ≡ []
    → lookup hash (mine m s).1.tables.transactions
      ≡ or_else
          (lookup hash s.tables.transactions)
          (transaction_of m (next_block m s.tables) hash 0 (claimed m.max_txs_per_block s.tables))
lookup-mine m hash s closed steady = go (mine-Mined m s closed)
  where
    go :
        Mined m s (mine m s)
        → lookup hash (mine m s).1.tables.transactions
          ≡ or_else (lookup hash s.tables.transactions) (
              transaction_of m
                (next_block m s.tables)
                hash
                0
                (claimed m.max_txs_per_block s.tables))
    go (shut, keeps, inl ((failed, faulty), same)) = absurd (faulty steady)
    go (shut, keeps, inr (done, after)) =
        ap (λ (t : Tables). lookup hash t.transactions) after ∙ mined-lookup m s.clock hash s.tables
