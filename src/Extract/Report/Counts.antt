-- ===== src/Extract/Report/Counts.antt =====
-- The numbers of a report, against the tiers that were recorded.
use pulse_sdk.Prelude.{
  ℕ, ◌+◌, ◌≤◌, ◌≡◌, refl, List, [], ◌∷◌, length, ltb, ◌==◌, if◌then◌else◌, Bool-cases, inl, inr,
  arith,
}
use pulse_sdk.Extract.Provenance.{
  ProvenanceTier, manual_prologue_confirmed, symbol_table, rtti_vtable, cross_derived, rank,
  is_automatable_subset,
}
use pulse_sdk.Extract.Report.{
  Tally, ExtractReport, add_one, record_tier, record_all, from_tiers, get_count, count,
  sum_automatable, automatable_subset_total,
}

-- How often a tier stands in a list.
abbrev pub occurrences : ProvenanceTier → List ProvenanceTier → ℕ
occurrences tier [] = 0
occurrences tier (t ∷ tiers) =
    let rest = occurrences tier tiers in if rank t == rank tier then 1 + rest else rest

-- How many tiers of a list are of the automatable subset.
abbrev pub automatable : List ProvenanceTier → ℕ
automatable [] = 0
automatable (t ∷ tiers) =
    let rest = automatable tiers in if is_automatable_subset t then 1 + rest else rest

-- The keys increase, from a rank on.
abbrev IsOrdered : ℕ → Tally → Type 0
IsOrdered least [] = Unit
IsOrdered least ((key, n) ∷ rest) = (least ≤ rank key) × IsOrdered (rank key + 1) rest

get_count-absent :
    (t : ProvenanceTier) (least : ℕ) (m : Tally)
    → rank t + 1 ≤ least
    → IsOrdered least m
    → get_count t m ≡ 0
unfolding get_count
get_count-absent t least [] h o = refl
get_count-absent t least ((k, n) ∷ m) h (le, o) =
    ground (arith, get_count-absent t (rank k + 1) m (omega arith) o)

add_one-IsOrdered :
    (u : ProvenanceTier) (least : ℕ) (m : Tally)
    → least ≤ rank u
    → IsOrdered least m
    → IsOrdered least (add_one u m)
unfolding add_one
add_one-IsOrdered u least [] h o = (h, tt)
add_one-IsOrdered u least ((k, n) ∷ m) h (le, o) = elim (Bool-cases (rank k == rank u)) [
  | inl e ↦ rw e (le, o)
  | inr ne ↦ elim (Bool-cases (ltb (rank u) (rank k))) [
    | inl e ↦ rw (ne, e) (h, (ground arith, o))
    | inr e ↦ rw (ne, e) (le, add_one-IsOrdered u (rank k + 1) m (ground arith) o)
  ]
]

get_count-add_one :
    (t u : ProvenanceTier) (least : ℕ) (m : Tally)
    → IsOrdered least m
    → get_count t (add_one u m) ≡ (if rank u == rank t then 1 + get_count t m else get_count t m)
unfolding get_count add_one
get_count-add_one t u least [] o = ground arith
get_count-add_one t u least ((k, n) ∷ m) (le, o) =
    ground (arith, get_count-add_one t u (rank k + 1) m o, get_count-absent t (rank k + 1) m)

-- All tiers but the first one are automatable.
is_automatable_subset_lem : (t : ProvenanceTier) → is_automatable_subset t ≡ ltb 0 (rank t)
is_automatable_subset_lem manual_prologue_confirmed = refl
is_automatable_subset_lem symbol_table = refl
is_automatable_subset_lem rtti_vtable = refl
is_automatable_subset_lem cross_derived = refl

sum_automatable-add_one :
    (u : ProvenanceTier) (m : Tally)
    → sum_automatable (add_one u m)
      ≡ (if is_automatable_subset u then 1 + sum_automatable m else sum_automatable m)
unfolding sum_automatable add_one
sum_automatable-add_one u [] = ground arith
sum_automatable-add_one u ((k, n) ∷ m) =
    ground
      (arith, is_automatable_subset_lem k, is_automatable_subset_lem u, sum_automatable-add_one u m)

get_count-record_all :
    (t : ProvenanceTier) (tiers : List ProvenanceTier) (r : ExtractReport)
    → IsOrdered 0 r.by_tier
    → count (record_all tiers r) t ≡ occurrences t tiers + count r t
unfolding count record_all record_tier
get_count-record_all t [] r o = omega arith
get_count-record_all t (u ∷ tiers) r o = ground (
  arith,
  get_count-record_all t tiers (record_tier u r) (add_one-IsOrdered u 0 r.by_tier (omega arith) o),
  get_count-add_one t u 0 r.by_tier o,
)

total-record_all :
    (tiers : List ProvenanceTier) (r : ExtractReport)
    → (record_all tiers r).total_offsets ≡ length tiers + r.total_offsets
unfolding record_all record_tier
total-record_all [] r = omega arith
total-record_all (u ∷ tiers) r = omega (arith, total-record_all tiers (record_tier u r))

automatable-record_all :
    (tiers : List ProvenanceTier) (r : ExtractReport)
    → automatable_subset_total (record_all tiers r) ≡ automatable tiers + automatable_subset_total r
unfolding automatable_subset_total record_all record_tier
automatable-record_all [] r = omega arith
automatable-record_all (u ∷ tiers) r =
    ground
      (arith, automatable-record_all tiers (record_tier u r), sum_automatable-add_one u r.by_tier)

-- A report counts every recorded tier: the total is the number of records, the count of a tier is
-- the number of its records, and the automatable total the number of records that are automatable.
pub from_tiers_lem :
    (tiers : List ProvenanceTier)
    → ((from_tiers tiers).total_offsets ≡ length tiers)
      × ((t : ProvenanceTier) → count (from_tiers tiers) t ≡ occurrences t tiers)
      × (automatable_subset_total (from_tiers tiers) ≡ automatable tiers)
unfolding from_tiers
from_tiers_lem tiers =
    let empty : ExtractReport = record { total_offsets = 0; by_tier = [] } in
    let none_counted : (t : ProvenanceTier) → count empty t ≡ 0 =
      λ t. unfold count get_count in refl in
    let none_automatable : automatable_subset_total empty ≡ 0 =
      unfold automatable_subset_total sum_automatable in refl in
    (
      omega (arith, total-record_all tiers empty),
      λ t. omega (arith, get_count-record_all t tiers empty tt, none_counted t),
      omega (arith, automatable-record_all tiers empty, none_automatable),
    )
