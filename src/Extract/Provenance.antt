-- ===== src/Extract/Provenance.antt =====
-- Provenance, cli/src/extract/provenance.rs.
pub mod Tiers
pub mod Emission
use pulse_sdk.Prelude.{ℕ, Bool, true, false, ◌||◌, Option, none, some, List, ◌==◌, if◌then◌else◌}
use pulse_sdk.Bindings.{sentinel_value, SymbolId, GdVersion, TargetPlatform, TargetPair}
use pulse_sdk.Extract.Prologue.{
  SkipReason, zero_offset, sentinel_offset, unreadable_prologue, PrologueOutcome, plausible_entry,
  not_plausible, skipped,
}

pub data ProvenanceTier : Type 0 where
  manual_prologue_confirmed symbol_table rtti_vtable cross_derived : ProvenanceTier

-- The derived order of the tiers.
abbrev pub rank : ProvenanceTier → ℕ
rank manual_prologue_confirmed = 0
rank symbol_table = 1
rank rtti_vtable = 2
rank cross_derived = 3

abbrev pub is_automatable_subset : ProvenanceTier → Bool
is_automatable_subset manual_prologue_confirmed = false
is_automatable_subset symbol_table = true
is_automatable_subset rtti_vtable = true
is_automatable_subset cross_derived = true

-- `Derivation`, by the tier that it comes from.
pub data Derivation : Type 0 where
  from_symbol_table from_rtti_vtable from_cross_derived : (rva : ℕ) → Derivation

abbrev pub rva_of : Derivation → ℕ
rva_of (from_symbol_table rva) = rva
rva_of (from_rtti_vtable rva) = rva
rva_of (from_cross_derived rva) = rva

abbrev pub origin_tier : Derivation → ProvenanceTier
origin_tier (from_symbol_table rva) = symbol_table
origin_tier (from_rtti_vtable rva) = rtti_vtable
origin_tier (from_cross_derived rva) = cross_derived

abbrev pub skipped_sentinel : PrologueOutcome → Bool
skipped_sentinel plausible_entry = false
skipped_sentinel (not_plausible reason) = false
skipped_sentinel (skipped zero_offset) = false
skipped_sentinel (skipped sentinel_offset) = true
skipped_sentinel (skipped unreadable_prologue) = false

unfoldable pub assign_tier : Derivation → PrologueOutcome → Option ProvenanceTier
assign_tier derivation prologue =
    if rva_of derivation == sentinel_value || skipped_sentinel prologue
    then none
    else some (origin_tier derivation)
