-- ===== src/Extract/Report.antt =====
-- The report of an extraction, cli/src/extract/report.rs. The `BTreeMap` is the list of its pairs in
-- the order of the tiers.
pub mod Counts
use pulse_sdk.Prelude.{ℕ, ◌+◌, List, [], ◌∷◌, ltb, ◌==◌, if◌then◌else◌}
use pulse_sdk.Extract.Provenance.{ProvenanceTier, rank, is_automatable_subset}

abbrev pub Tally : Type 0
Tally = List (ProvenanceTier × ℕ)

pub record ExtractReport : Type 0 where
  pub total_offsets : ℕ
  pub by_tier : Tally

-- `*by_tier.entry(tier).or_insert(0) += 1`
add_one : ProvenanceTier → Tally → Tally
add_one tier [] = (tier, 1) ∷ []
add_one tier ((key, n) ∷ rest) =
    let later = add_one tier rest in
    if rank key == rank tier
    then (key, n + 1) ∷ rest
    else if ltb (rank tier) (rank key)
    then (tier, 1) ∷ (key, n) ∷ rest
    else (key, n) ∷ later

unfoldable pub record_tier : ProvenanceTier → ExtractReport → ExtractReport
unfolding add_one
record_tier tier report = record {
  total_offsets = report.total_offsets + 1;
  by_tier = add_one tier report.by_tier;
}

-- The loop of `from_tiers`.
record_all : List ProvenanceTier → ExtractReport → ExtractReport
unfolding record_tier
record_all [] report = report
record_all (tier ∷ tiers) report = record_all tiers (record_tier tier report)

unfoldable pub from_tiers : List ProvenanceTier → ExtractReport
unfolding record_all
from_tiers tiers = record_all tiers (record { total_offsets = 0; by_tier = [] })

get_count : ProvenanceTier → Tally → ℕ
get_count tier [] = 0
get_count tier ((key, n) ∷ rest) =
    let later = get_count tier rest in if rank key == rank tier then n else later

unfoldable pub count : ExtractReport → ProvenanceTier → ℕ
unfolding get_count
count report tier = get_count tier report.by_tier

-- `.iter().filter(..).map(..).sum()`
sum_automatable : Tally → ℕ
sum_automatable [] = 0
sum_automatable ((key, n) ∷ rest) =
    let later = sum_automatable rest in if is_automatable_subset key then n + later else later

unfoldable pub automatable_subset_total : ExtractReport → ℕ
unfolding sum_automatable
automatable_subset_total report = sum_automatable report.by_tier
