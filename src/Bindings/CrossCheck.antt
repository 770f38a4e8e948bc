-- ===== src/Bindings/CrossCheck.antt =====
-- The numeric comparison of cli/src/bindings/crosscheck.rs. The `BTreeMap` of a reference table is
-- the list of its pairs.
use pulse_sdk.Prelude.{ℕ, Option, none, some, List, [], ◌∷◌, list_eq, ◌==◌, if◌then◌else◌}
use pulse_sdk.Bindings.{TargetPair}

pub data CrossCheck : Type 0 where
  concordant discordant rejected : CrossCheck

pub record GeodeReferenceTable : Type 0 where
  pub pair : Option TargetPair
  pub entries : List (List ℕ × ℕ)

abbrev lookup : List ℕ → List (List ℕ × ℕ) → Option ℕ
lookup key [] = none
lookup key ((k, address) ∷ entries) =
    let rest = lookup key entries in if list_eq k key then some address else rest

-- `GeodeReferenceTable::get`
abbrev pub get : GeodeReferenceTable → List ℕ → Option ℕ
get table key = lookup key table.entries

unfoldable pub cross_check_value : ℕ → ℕ → CrossCheck
cross_check_value candidate_rva reference_value =
    if candidate_rva == reference_value then concordant else discordant
