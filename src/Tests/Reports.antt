-- ===== src/Tests/Reports.antt =====
-- Runs of the assignment of tiers and of the report, and their theorems there.
use pulse_sdk.Prelude.{◌≡◌, refl, true, some, none, List, [], ◌∷◌, length}
use pulse_sdk.Extract.Prologue.{plausible_entry, skipped, sentinel_offset}
use pulse_sdk.Extract.Provenance.{
  ProvenanceTier, manual_prologue_confirmed, symbol_table, cross_derived, from_symbol_table,
  is_automatable_subset, assign_tier,
}
use pulse_sdk.Extract.Provenance.Tiers.{assign_tier-automatable}
use pulse_sdk.Extract.Report.{from_tiers, count, automatable_subset_total}
use pulse_sdk.Extract.Report.Counts.{occurrences, automatable, from_tiers_lem}

abbrev recorded : List ProvenanceTier
recorded = cross_derived ∷ symbol_table ∷ cross_derived ∷ manual_prologue_confirmed ∷ []

three_automatable : automatable_subset_total (from_tiers recorded) ≡ 3
unfolding automatable_subset_total from_tiers
three_automatable = refl

tier_of_symbol : assign_tier (from_symbol_table 16) plausible_entry ≡ some symbol_table
unfolding assign_tier
tier_of_symbol = refl

tier_of_sentinel : assign_tier (from_symbol_table 16) (skipped sentinel_offset) ≡ none
unfolding assign_tier
tier_of_sentinel = refl

-- The witnesses.
assign_tier-automatable_example : is_automatable_subset symbol_table ≡ true
assign_tier-automatable_example =
    assign_tier-automatable (from_symbol_table 16) plausible_entry symbol_table tier_of_symbol

from_tiers_lem_example :
    ((from_tiers recorded).total_offsets ≡ length recorded)
    × ((t : ProvenanceTier) → count (from_tiers recorded) t ≡ occurrences t recorded)
    × (automatable_subset_total (from_tiers recorded) ≡ automatable recorded)
from_tiers_lem_example = from_tiers_lem recorded
