-- ===== src/Extract/Provenance/Emission.antt =====
-- The provenance of an offset and the gate that emits it, cli/src/extract/provenance.rs.
pub mod Gate
use pulse_sdk.Prelude.{
  ℕ, ◌/◌, ◌%◌, Bool, true, false, ◌&&◌, not, Option, none, some, List, [], ◌∷◌, ◌++◌, map, take,
  if◌then◌else◌,
}
use pulse_sdk.Prelude.Text.{codes}
use pulse_sdk.Bindings.{
  SymbolId, GdVersion, TargetPlatform, macos_arm64, macos_x64, windows_x64, android_arm64,
  ios_arm64, TargetPair,
}
use pulse_sdk.Bindings.CrossCheck.{CrossCheck, GeodeReferenceTable, get, cross_check_value}
use pulse_sdk.Extract.Prologue.{PrologueOutcome, plausible_entry, not_plausible, skipped}
use pulse_sdk.Extract.Provenance.{
  ProvenanceTier, Derivation, from_symbol_table, from_rtti_vtable, from_cross_derived,
}

-- `Derivation::method_label`
abbrev method_label : Derivation → List ℕ
method_label (from_symbol_table rva) = codes "android-symbol-table"
method_label (from_rtti_vtable rva) = codes "rtti-vtable-slot"
method_label (from_cross_derived rva) = codes "android-symbol->macho-pe-vtable-slot"

pub data GeodeConcordance : Type 0 where
  concordant discordant : GeodeConcordance

abbrev concordance_of : CrossCheck → GeodeConcordance
concordance_of CrossCheck.concordant = GeodeConcordance.concordant
concordance_of CrossCheck.discordant = GeodeConcordance.discordant
concordance_of CrossCheck.rejected = GeodeConcordance.discordant

unfoldable geode_concordance : ℕ → GeodeReferenceTable → SymbolId → Option GeodeConcordance
unfolding cross_check_value
geode_concordance rva reference symbol = elim (get reference symbol) [
  | none ↦ none
  | some reference_value ↦ some (concordance_of (cross_check_value rva reference_value))
]

pub record BinaryIdentity : Type 0 where
  pub gd_version : GdVersion
  pub platform : TargetPlatform
  pub content_hash : List ℕ

pub record ExtractionProvenance : Type 0 where
  pub tier : ProvenanceTier
  pub derivation_method : List ℕ
  pub binary_identity : List BinaryIdentity
  pub prologue_outcome : Option PrologueOutcome
  pub geode_concordance : Option GeodeConcordance
  pub geode_no_reuse : Bool

-- `ExtractionProvenance::new`
abbrev pub new_provenance :
    ProvenanceTier
    → Derivation
    → List BinaryIdentity
    → Option PrologueOutcome
    → Option GeodeConcordance
    → ExtractionProvenance
new_provenance tier derivation identities outcome concordance = record {
  tier = tier;
  derivation_method = method_label derivation;
  binary_identity = identities;
  prologue_outcome = outcome;
  geode_concordance = concordance;
  geode_no_reuse = true;
}

abbrev is_some : {A : Type 0} → Option A → Bool
is_some none = false
is_some (some a) = true

abbrev has_prologue_outcome : ExtractionProvenance → Bool
has_prologue_outcome provenance = is_some provenance.prologue_outcome

pub record AuditabilityError : Type 0 where
  pub symbol : SymbolId
  pub pair : TargetPair

pub record EmittedOffset : Type 0 where
  pub symbol : SymbolId
  pub pair : TargetPair
  pub offset : ℕ
  pub verified : Bool
  pub provenance : ExtractionProvenance

unfoldable pub emit_offset :
    SymbolId
    → TargetPair
    → ℕ
    → Bool
    → ExtractionProvenance
    → EmittedOffset × Option AuditabilityError
emit_offset symbol pair offset requested_verified provenance =
    let (verified, error) : Bool × Option AuditabilityError =
      if requested_verified && not (has_prologue_outcome provenance)
      then (false, some (record { symbol = symbol; pair = pair }))
      else (requested_verified, none) in
    (
      record {
        symbol = symbol;
        pair = pair;
        offset = offset;
        verified = verified;
        provenance = provenance;
      },
      error,
    )
