-- ===== src/Extract/Matcher.antt =====
-- `CrossPlatformMatcher`, cli/src/extract/matcher.rs: which slot of a vtable a method is. With
-- `VtableSlot` and `ClassVtable` of cli/src/extract/vtable.rs and `DerivedSymbol` of
-- cli/src/extract/demangle.rs.
pub mod Outcome
use pulse_sdk.Prelude.{
  ℕ, zero, suc, ◌+◌, Bool, true, false, Option, none, some, List, [], ◌∷◌, is_empty, list_eq, ◌==◌,
  if◌then◌else◌,
}
use pulse_sdk.Bindings.{Signature, sentinel_value}

pub record VtableSlot : Type 0 where
  pub index : ℕ
  pub rva : ℕ

pub record ClassVtable : Type 0 where
  pub class : List ℕ
  pub slots : List VtableSlot

pub record DerivedSymbol : Type 0 where
  pub class : List ℕ
  pub method : List ℕ
  pub signature : Signature
  pub rva : ℕ

pub data MatchOutcome : Type 0 where
  matched : (slot : VtableSlot) → MatchOutcome
  no_match : MatchOutcome
  ambiguous : (candidates : ℕ) → MatchOutcome

pub record MethodMatch : Type 0 where
  pub symbol : DerivedSymbol
  pub outcome : MatchOutcome

unfoldable is_matched : MatchOutcome → Bool
is_matched (matched slot) = true
is_matched no_match = false
is_matched (ambiguous candidates) = false

unfoldable offset_or_sentinel : MatchOutcome → ℕ
offset_or_sentinel (matched slot) = slot.rva
offset_or_sentinel no_match = sentinel_value
offset_or_sentinel (ambiguous candidates) = sentinel_value

-- The variables `matched` and `candidates` of the loops.
pub record Tally : Type 0 where
  pub first : Option VtableSlot
  pub candidates : ℕ

-- `candidates += 1`, and the slot if it is the first.
count_slot : VtableSlot → Tally → Tally
count_slot slot tally = record {
  first = elim tally.first [ none ↦ some slot | some s ↦ some s ];
  candidates = tally.candidates + 1;
}

-- The inner loop of `match_method_at`.
tally_slots_at : ℕ → List VtableSlot → Tally → Tally
tally_slots_at ordinal [] tally = tally
tally_slots_at ordinal (slot ∷ slots) tally =
    tally_slots_at ordinal slots (if slot.index == ordinal then count_slot slot tally else tally)

-- The outer loop of `match_method_at`.
tally_vtables_at : List ℕ → ℕ → List ClassVtable → Tally → Tally
tally_vtables_at class ordinal [] tally = tally
tally_vtables_at class ordinal (vtable ∷ vtables) tally =
    tally_vtables_at class ordinal vtables
      (if list_eq vtable.class class then tally_slots_at ordinal vtable.slots tally else tally)

-- The loops of `match_symbol`.
tally_slots : List VtableSlot → Tally → Tally
tally_slots [] tally = tally
tally_slots (slot ∷ slots) tally = tally_slots slots (count_slot slot tally)

tally_vtables : List ℕ → List ClassVtable → Tally → Tally
tally_vtables class [] tally = tally
tally_vtables class (vtable ∷ vtables) tally =
    tally_vtables class vtables
      (if list_eq vtable.class class then tally_slots vtable.slots tally else tally)

abbrev no_tally : Tally
no_tally = record { first = none; candidates = 0 }

-- `classify`. With one candidate and no slot the code panics; `none` is that panic.
classify : Tally → Option MatchOutcome
classify tally = elim tally.candidates [
  | zero ↦ some no_match
  | suc zero ↦ elim tally.first [ none ↦ none | some slot ↦ some (matched slot) ]
  | suc (suc n) ↦ some (ambiguous (suc (suc n)))
]

unfoldable pub match_method_at : DerivedSymbol → ℕ → List ClassVtable → Option MatchOutcome
unfolding classify tally_vtables_at tally_slots_at count_slot
match_method_at symbol ordinal vtables =
    if is_empty symbol.class
    then some no_match
    else classify (tally_vtables_at symbol.class ordinal vtables no_tally)

unfoldable pub match_symbol : DerivedSymbol → List ClassVtable → Option MatchOutcome
unfolding classify tally_vtables tally_slots count_slot
match_symbol symbol vtables =
    if is_empty symbol.class
    then some no_match
    else classify (tally_vtables symbol.class vtables no_tally)

-- `class_methods.iter().enumerate()`, from an ordinal on.
match_from : ℕ → List DerivedSymbol → List ClassVtable → Option (List MethodMatch)
match_from ordinal [] vtables = some []
match_from ordinal (symbol ∷ symbols) vtables = elim (match_method_at symbol ordinal vtables) [
  | none ↦ none
  | some outcome ↦ elim (match_from (ordinal + 1) symbols vtables) [
    | none ↦ none
    | some rest ↦ some (record { symbol = symbol; outcome = outcome } ∷ rest)
  ]
]

unfoldable pub match_class : List DerivedSymbol → List ClassVtable → Option (List MethodMatch)
unfolding match_from
match_class class_methods vtables = match_from 0 class_methods vtables
