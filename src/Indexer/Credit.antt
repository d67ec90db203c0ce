-- ===== src/Indexer/Credit.antt =====
-- What a created holding does to the balance of its owner (`processHoldingChange` in
-- pkg/indexer/engine/processor.go), the first time and when it is delivered again.
use canton_middleware.Prelude.{
  String, Bool, true, false, Option, none, some, List, [], ◌≡◌, refl, sym, ◌∙◌, ap, str_eq, ◌||◌,
}
use canton_middleware.Prelude.Int.{ℤ}
use canton_middleware.Prelude.Assoc.{lookup, put, insert_new, lookup-put}
use canton_middleware.Exec.{◌>>=◌}
use canton_middleware.Exec.Faults.{is_faulty, rest_of}
use canton_middleware.Indexer.Types.{HoldingChange}
use canton_middleware.Indexer.Store.{
  Db, Decimals, BalanceKey, InstrumentKey, balance_key, statement, query, execute, count_holder,
  write_balance, apply_balance_delta, insert_holding, to_holding_dao, string_key, holder_delta,
  old_amount, parsed, absent,
}
use canton_middleware.Indexer.Processor.{process_holding_change}
use canton_middleware.Indexer.Batches.{ReadsBack}

-- The number that a balance's row stands for; no row is zero.
abbrev pub value_of : {N : Type 0} → Decimals N → Option String → Option N
value_of dec none = some dec.zero
value_of dec (some text) = dec.new_from_string text

abbrev pub balance_of : {N : Type 0} → Decimals N → BalanceKey → Db → Option N
balance_of dec key s = value_of dec (lookup key s.tables.balances)

abbrev pub owner_of : HoldingChange → BalanceKey
owner_of h = record {
  party = h.owner;
  instrument = record { admin = h.instrument_admin; id = h.instrument_id };
}

abbrev Credited : {N : Type 0} → Decimals N → BalanceKey → N → Db → Type 0
Credited dec key n s = (balance_of dec key s ≡ some n) × (s.faults ≡ [])

of_some : {N : Type 0} (a b : N) → some a ≡ some b → a ≡ b
of_some a b e = cc

module _ {N : Type 0} (dec : Decimals N) (law : ReadsBack dec) where
  value_of-put :
      (key : BalanceKey) (n : N) (rows : List (BalanceKey × String))
      → value_of dec (lookup key (put key (dec.to_string n) rows)) ≡ some n
  value_of-put key n rows =
      rw (lookup-put key key (dec.to_string n) rows, (balance_key.beq_iff key key).1 refl)
        (law.read_back n)

  count_holder-Credited :
      (key : BalanceKey) (i : InstrumentKey) (n : N) (o : Option ℤ) (s : Db)
      → Credited dec key n s
      → Credited dec key n (count_holder i o s).1
  unfolding execute statement is_faulty rest_of ◌>>=◌
  count_holder-Credited key i n none s h = h
  count_holder-Credited key i n (some d) s h = rw h.1 (h.0, refl)

  write_balance-Credited :
      (key : BalanceKey) (is_new : Bool) (old new : N) (s : Db)
      → s.faults ≡ []
      → dec.is_negative new ≡ false
      → Credited dec key new (write_balance dec key is_new old new s).1
  unfolding execute statement is_faulty rest_of ◌>>=◌
  write_balance-Credited key is_new old new s steady positive =
      simp (positive, steady)
        (count_holder-Credited key key.instrument new
          (holder_delta (is_new || dec.is_zero old) (dec.is_zero new))
          (record s {
            tables = record s.tables { balances = put key (dec.to_string new) s.tables.balances };
            faults = [];
          })
          (value_of-put key new s.tables.balances, refl))

  module _ (key : BalanceKey) (delta : String) (b d : N)
      (number : dec.new_from_string delta ≡ some d)
      (positive : dec.is_negative (dec.add b d) ≡ false) where
    row-Credited :
        (row : Option String) (s : Db)
        → s.faults ≡ []
        → value_of dec row ≡ some b
        → Credited dec key
            (dec.add b d)
            ((old_amount dec row >>= λ old. parsed dec (dec.new_from_string delta) >>= λ n.
                write_balance dec key (absent row) old (dec.add old n))
              s).1
    unfolding ◌>>=◌
    row-Credited none s steady now =
        let zero_is : dec.zero ≡ b = of_some dec.zero b now in
        rw (number, sym zero_is)
          (write_balance-Credited key true dec.zero (dec.add dec.zero d) s steady
            (ap (λ x. dec.is_negative (dec.add x d)) zero_is ∙ positive))
    row-Credited (some t) s steady now =
        rw (now, number) (write_balance-Credited key false b (dec.add b d) s steady positive)

    apply_balance_delta-Credited :
        (s : Db)
        → s.faults ≡ []
        → balance_of dec key s ≡ some b
        → Credited dec key (dec.add b d) (apply_balance_delta dec key delta s).1
    unfolding apply_balance_delta query statement is_faulty rest_of ◌>>=◌
    apply_balance_delta-Credited s steady now =
        rw steady (row-Credited (lookup key s.tables.balances) (record s { faults = [] }) refl now)

  module _ (h : HoldingChange) (d : N) (created : h.is_archived ≡ false)
      (whole : (str_eq h.owner "" || str_eq h.instrument_id "" || str_eq h.instrument_admin "")
        ≡ false)
      (unlocked : h.locked ≡ false) (number : dec.new_from_string h.amount ≡ some d) where
    process_holding_change-Credited :
        (b : N) (s : Db)
        → s.faults ≡ []
        → balance_of dec (owner_of h) s ≡ some b
        → dec.is_negative (dec.add b d) ≡ false
        → Credited dec (owner_of h) (dec.add b d) (process_holding_change dec h s).1
    unfolding process_holding_change insert_holding execute statement is_faulty rest_of ◌>>=◌
    process_holding_change-Credited b s steady now positive =
        simp (created, whole, unlocked, steady)
          (apply_balance_delta-Credited (owner_of h) h.amount b d number positive
            (record s {
              tables = record s.tables {
                holdings = insert_new h.contract_id (to_holding_dao h) s.tables.holdings;
              };
              faults = [];
            })
            refl now)

    -- If decimals read back what they write and no statement fails, a created holding that is whole and not
    -- locked adds its amount to the balance of its owner, and the same holding delivered again adds it again.
    pub process_holding_change_twice :
        (b : N) (s : Db)
        → s.faults ≡ []
        → balance_of dec (owner_of h) s ≡ some b
        → dec.is_negative (dec.add b d) ≡ false
        → dec.is_negative (dec.add (dec.add b d) d) ≡ false
        → let s' = (process_holding_change dec h s).1 in
          (balance_of dec (owner_of h) s' ≡ some (dec.add b d))
          × (balance_of dec (owner_of h) (process_holding_change dec h s').1
              ≡ some (dec.add (dec.add b d) d))
    process_holding_change_twice b s steady now once twice =
        let (first, still) = process_holding_change-Credited b s steady now once in
        (
          first,
          (process_holding_change-Credited (dec.add b d) (process_holding_change dec h s).1 still
              first twice).0,
        )
