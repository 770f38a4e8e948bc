-- ===== src/Tests/Symbols.antt =====
-- Runs of the matcher of symbols, and its theorems at a small class.
use pulse_sdk.Prelude.{ℕ, ◌≡◌, refl, some, List, [], ◌∷◌, map, get_elem?}
use pulse_sdk.Prelude.Text.{codes}
use pulse_sdk.Extract.Matcher.{
  VtableSlot, ClassVtable, DerivedSymbol, matched, no_match, ambiguous, MethodMatch,
  match_method_at, match_symbol, match_class,
}
use pulse_sdk.Extract.Matcher.Outcome.{
  slots_at, outcome_of, candidates_of, match_of, match_method_at-eq-outcome_of,
  match_symbol-eq-outcome_of, match_symbol-match_method_at, match_class_lem,
}

abbrev method_of : List ℕ → List ℕ → DerivedSymbol
method_of class method = record {
  class = class;
  method = method;
  signature = record { return_type = codes "void"; param_types = [] };
  rva = 8;
}

abbrev slot_of : ℕ → ℕ → VtableSlot
slot_of index rva = record { index = index; rva = rva }

abbrev vtables : List ClassVtable
vtables =
    record { class = codes "A"; slots = slot_of 0 16 ∷ slot_of 1 32 ∷ [] }
    ∷ record { class = codes "B"; slots = slot_of 0 48 ∷ [] }
    ∷ []

abbrev first : DerivedSymbol
first = method_of (codes "A") (codes "f")

abbrev only : DerivedSymbol
only = method_of (codes "B") (codes "g")

match_two :
    match_class (first ∷ first ∷ first ∷ []) vtables
    ≡ some (
        record { symbol = first; outcome = matched (slot_of 0 16) }
        ∷ record { symbol = first; outcome = matched (slot_of 1 32) }
        ∷ record { symbol = first; outcome = no_match }
        ∷ [])
unfolding match_class match_method_at
match_two = refl

match_first : match_symbol first vtables ≡ some (ambiguous 2)
unfolding match_symbol
match_first = refl

match_only : match_symbol only vtables ≡ some (matched (slot_of 0 48))
unfolding match_symbol
match_only = refl

-- The witnesses.
match_method_at-eq-outcome_of_example :
    match_method_at first 1 vtables ≡ some (outcome_of (slots_at 1 (candidates_of first vtables)))
match_method_at-eq-outcome_of_example = match_method_at-eq-outcome_of first 1 vtables

match_symbol-eq-outcome_of_example :
    match_symbol first vtables ≡ some (outcome_of (candidates_of first vtables))
match_symbol-eq-outcome_of_example = match_symbol-eq-outcome_of first vtables

match_symbol-match_method_at_example :
    match_method_at only 0 vtables ≡ some (matched (slot_of 0 48))
match_symbol-match_method_at_example =
    match_symbol-match_method_at only vtables (slot_of 0 48) match_only

match_class_lem_example :
    (matches : List MethodMatch) × (match_class (first ∷ only ∷ []) vtables ≡ some matches)
    × (map (λ m. m.symbol) matches ≡ first ∷ only ∷ [])
    × ((i : ℕ) (symbol : DerivedSymbol)
        → get_elem? (first ∷ only ∷ []) i ≡ some symbol
        → get_elem? matches i ≡ some (match_of symbol i vtables))
match_class_lem_example = match_class_lem (first ∷ only ∷ []) vtables
