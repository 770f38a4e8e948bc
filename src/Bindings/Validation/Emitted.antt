-- ===== src/Bindings/Validation/Emitted.antt =====
-- The sets that the generator writes, and their validation.
use pulse_sdk.Prelude.{◌≡◌, refl, ap, List, [], ◌∷◌, ok, arith, inl, inr, Option-cases}
use pulse_sdk.Bindings.{SymbolId, TargetPair}
use pulse_sdk.Bindings.Catalog.{effective_rva}
use pulse_sdk.Bindings.Generator.{PivotFunction, emit_verified, unresolved_of}
use pulse_sdk.Bindings.Validation.{
  PbindFunction, Resolvable, resolvable, unresolvable, ValidationReport, check_consistency,
  states_of, validate_set,
}

-- A function as the generator writes it.
abbrev pub emitted : PivotFunction → PbindFunction
emitted f = record {
  symbol = f.symbol;
  offset = effective_rva f.offset;
  signature = f.signature;
  verified = emit_verified f.offset;
}

unfoldable pub emitted_all : List PivotFunction → List PbindFunction
emitted_all [] = []
emitted_all (f ∷ functions) = emitted f ∷ emitted_all functions

abbrev add_unless :
    Resolvable → TargetPair × SymbolId → List (TargetPair × SymbolId) → List (TargetPair × SymbolId)
add_unless resolvable s rest = rest
add_unless unresolvable s rest = s ∷ rest

-- The symbols that a report calls unresolvable, each with the pair.
unfoldable pub unresolvable_in :
    TargetPair → List (SymbolId × Resolvable) → List (TargetPair × SymbolId)
unresolvable_in pair [] = []
unresolvable_in pair ((symbol, state) ∷ states) =
    add_unless state (pair, symbol) (unresolvable_in pair states)

consistent :
    (pair : TargetPair) (functions : List PivotFunction)
    → check_consistency pair (emitted_all functions) ≡ ok tt
unfolding check_consistency emitted_all
consistent pair [] = refl
consistent pair (f ∷ functions) = elim (Option-cases f.offset.rva) [
  | inl e ↦ rw e (consistent pair functions)
  | inr (rva, e) ↦ rw e (ground (arith, consistent pair functions))
]

unresolved_lem :
    (pair : TargetPair) (functions : List PivotFunction)
    → unresolvable_in pair (states_of (emitted_all functions)) ≡ unresolved_of pair functions
unfolding unresolvable_in states_of emitted_all unresolved_of
unresolved_lem pair [] = refl
unresolved_lem pair (f ∷ functions) = elim (Option-cases f.offset.rva) [
  | inl e ↦ rw e (ap (λ l. (pair, f.symbol) ∷ l) (unresolved_lem pair functions))
  | inr (rva, e) ↦ rw e (ground (arith, unresolved_lem pair functions))
]

-- The set passes, and its unresolvable symbols are those that the generator reports.
abbrev pub Validates : TargetPair → List PivotFunction → Type 0
Validates pair functions =
    (report : ValidationReport) × (validate_set
        (record { pair = pair; functions = emitted_all functions })
      ≡ ok report)
    × (unresolvable_in pair report.states ≡ unresolved_of pair functions)

-- The validation takes every set that the generator writes, whatever the catalogue claims, and calls
-- unresolvable exactly the symbols that the generator reports as unresolved, in their order.
pub validate_set-emitted :
    (pair : TargetPair) (functions : List PivotFunction) → Validates pair functions
unfolding validate_set
validate_set-emitted pair functions = (
  record { states = states_of (emitted_all functions) },
  rw (consistent pair functions) refl,
  unresolved_lem pair functions,
)
