-- ===== src/Indexer/Decoded.antt =====
-- What the decoders of pkg/indexer/engine/decoder.go promise to the processor.
use canton_middleware.Prelude.{
  String, Bool, true, false, Option, none, some, List, [], ◌∷◌, ◌≡◌, ◌≢◌, refl, sym, ◌∙◌, ap,
  if◌then◌else◌, not, ◌⊎◌,
}
use mathlib.Core.Path.{subst}
use canton_middleware.Ledger.Event.{LedgerEvent, LedgerTransaction, nested_party_of, nested_text_of}
use canton_middleware.Indexer.Types.{ParsedEvent, EventType, mint, burn, transfer}
use canton_middleware.Indexer.Store.{InstrumentKey, string_key}
use canton_middleware.Indexer.Processor.{balance_updates_from_event, negated}
use canton_middleware.Indexer.Decoder.{
  FilterMode, decode_token_transfer, classified, event_type_of, optional_party_id, parsed_event,
  admitted,
}

-- The parties that an event of a type has, and the balances that it changes.
abbrev pub Moves : ParsedEvent → List (String × String) → Type 0
Moves e updates = by_type e.event_type
  where
    by_type : EventType → Type 0
    by_type mint =
        (to : String) × (e.from_party_id ≡ none)
        × (e.to_party_id ≡ some to)
        × (updates ≡ (to, e.amount) ∷ [])
    by_type burn =
        (from : String) × (e.from_party_id ≡ some from)
        × (e.to_party_id ≡ none)
        × (updates ≡ (from, negated e.amount) ∷ [])
    by_type transfer =
        (from : String) × (to : String) × (e.from_party_id ≡ some from)
        × (e.to_party_id ≡ some to)
        × (updates ≡ (from, negated e.amount) ∷ (to, e.amount) ∷ [])

of_some : {A : Type 0} (a b : A) → some a ≡ some b → a ≡ b
of_some a b e = cc

-- A guard that returns nothing was not taken where there is a result.
unguarded :
    {A : Type 0} (b : Bool) (x : Option A) (a : A)
    → (if b then none else x) ≡ some a
    → (b ≡ false) × (x ≡ some a)
unguarded true x a e = absurd (cc)
unguarded false x a e = (refl, e)

not-false : (b : Bool) → not b ≡ false → b ≡ true
not-false true e = refl
not-false false e = absurd (cc)

module _ (tx : LedgerTransaction) (ev : LedgerEvent) where
  abbrev instrument : InstrumentKey
  instrument = record {
    admin = nested_party_of ev "instrumentId" "admin";
    id = nested_text_of ev "instrumentId" "id";
  }

  abbrev IsDecoded : ParsedEvent → Type 0
  IsDecoded e =
      Moves e (balance_updates_from_event e)
      × (instrument ≡ record { admin = e.instrument_admin; id = e.instrument_id })

  classified-IsDecoded :
      (e : ParsedEvent) (from to : Option String)
      → from ≡ optional_party_id ev "fromParty"
      → to ≡ optional_party_id ev "toParty"
      → classified tx ev (event_type_of from to) ≡ some e
      → IsDecoded e
  unfolding balance_updates_from_event
  classified-IsDecoded e none none p q k = absurd (cc)
  classified-IsDecoded e none (some to) p q k =
      subst IsDecoded (of_some (parsed_event tx ev mint) e k)
        ((to, sym p, sym q, rw (sym p, sym q) refl), refl)
  classified-IsDecoded e (some from) none p q k =
      subst IsDecoded (of_some (parsed_event tx ev burn) e k)
        ((from, sym p, sym q, rw (sym p) refl), refl)
  classified-IsDecoded e (some from) (some to) p q k =
      subst IsDecoded (of_some (parsed_event tx ev transfer) e k)
        ((from, to, sym p, sym q, rw (sym p, sym q) refl), refl)

  -- An event that the decoder makes has just the parties of its type, so that the balances of all of them are
  -- updated by its amount, and in the whitelist mode its instrument is a listed one.
  pub decode_token_transfer-Moves :
      (mode : FilterMode) (allowed : List InstrumentKey) (e : ParsedEvent)
      → decode_token_transfer mode allowed tx ev ≡ some e
      → Moves e (balance_updates_from_event e)
        × (admitted mode allowed (record { admin = e.instrument_admin; id = e.instrument_id })
            ≡ true)
  unfolding decode_token_transfer
  decode_token_transfer-Moves mode allowed e k =
      let (_, k₁) = unguarded _ _ e k in
      let (_, k₂) = unguarded _ _ e k₁ in
      let (listed, k₃) = unguarded (not (admitted mode allowed instrument)) _ e k₂ in
      let (moves, same) = classified-IsDecoded e _ _ refl refl k₃ in
      (
        moves,
        ap (admitted mode allowed) (sym same) ∙ not-false (admitted mode allowed instrument) listed,
      )

-- What each choice that archives an offer makes of it.
abbrev pub Ends : String → String → Type 0
Ends choice status =
    ((choice ≡ "TransferInstruction_Accept") × (status ≡ "completed"))
    ⊎ ((choice ≡ "TransferInstruction_Withdraw") × (status ≡ "canceled"))
    ⊎ ((choice ≡ "TransferInstruction_Reject") × (status ≡ "rejected"))
    ⊎ ((choice ≢ "TransferInstruction_Withdraw")
        × (choice ≢ "TransferInstruction_Reject")
        × (status ≡ "completed"))
