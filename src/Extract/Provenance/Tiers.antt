-- ===== src/Extract/Provenance/Tiers.antt =====
-- Which tier an offset gets.
use pulse_sdk.Prelude.{◌≡◌, true, some, refl, sym, arith}
use pulse_sdk.Extract.Prologue.{PrologueOutcome}
use pulse_sdk.Extract.Provenance.{
  ProvenanceTier, is_automatable_subset, Derivation, from_symbol_table, from_rtti_vtable,
  from_cross_derived, origin_tier, assign_tier,
}

-- An offset that gets a tier gets that of its derivation.
origin_tier-of_assigned :
    (derivation : Derivation) (prologue : PrologueOutcome) (tier : ProvenanceTier)
    → assign_tier derivation prologue ≡ some tier
    → origin_tier derivation ≡ tier
unfolding assign_tier
origin_tier-of_assigned derivation prologue tier h = ground arith

-- No derivation is given the tier of a manual confirmation.
pub assign_tier-automatable :
    (derivation : Derivation) (prologue : PrologueOutcome) (tier : ProvenanceTier)
    → assign_tier derivation prologue ≡ some tier
    → is_automatable_subset tier ≡ true
assign_tier-automatable derivation prologue tier h =
    of_origin derivation tier (origin_tier-of_assigned derivation prologue tier h)
  where
    of_origin :
        (derivation : Derivation) (tier : ProvenanceTier)
        → origin_tier derivation ≡ tier
        → is_automatable_subset tier ≡ true
    of_origin (from_symbol_table rva) tier e = rw (sym e) refl
    of_origin (from_rtti_vtable rva) tier e = rw (sym e) refl
    of_origin (from_cross_derived rva) tier e = rw (sym e) refl
