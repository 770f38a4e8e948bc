-- ===== src/Bindings/Catalog/Raw.antt =====
-- cli/src/bindings/catalog.rs: an entry as a TOML file holds it, and what is made of it.
use pulse_sdk.Prelude.{
  ℕ, ◌^◌, Bool, true, false, ◌&&◌, Option, none, some, List, [], ◌∷◌, Result, ok, err, ◌>>=◌, ◌==◌,
  if◌then◌else◌,
}
use pulse_sdk.Prelude.Text.{from_str_radix}
use pulse_sdk.Prelude.Trim.{split_once}
use pulse_sdk.Bindings.{SymbolId, GdVersion, TargetPlatform, TargetPair}
use pulse_sdk.Bindings.Catalog.{ProvenanceRecord, empty_record, OffsetRecord, CatalogEntry}
use pulse_sdk.Installer.Paths.{FilePath}

abbrev pub catalog_schema_version : ℕ
catalog_schema_version = 1

pub record RawSignature : Type 0 where
  pub return_type : List ℕ
  pub params : List (List ℕ)

pub record RawProvenance : Type 0 where
  pub address_source : Option (List ℕ)
  pub cross_check : Option (List ℕ)
  pub cross_check_no_reuse : Bool
  pub prologue_method : Option (List ℕ)
  pub prologue_outcome : Option (List ℕ)

pub record RawOffset : Type 0 where
  pub gd_version : List ℕ
  pub platform : TargetPlatform
  pub rva : Option ℕ
  pub verified : Bool
  pub provenance : Option RawProvenance

pub record RawCatalogEntry : Type 0 where
  pub schema_version : ℕ
  pub symbol : List ℕ
  pub signature : RawSignature
  pub offset : List RawOffset

-- The two signatures of a conflict are in the message, as text.
pub data CatalogError : Type 0 where
  io parse empty_catalog : FilePath → CatalogError
  unsupported_schema_version : FilePath → ℕ → CatalogError
  malformed_gd_version : FilePath → List ℕ → CatalogError
  duplicate_symbol_pair : SymbolId → TargetPair → CatalogError
  signature_conflict : SymbolId → List ℕ → List ℕ → CatalogError

-- `parse::<u32>()`
abbrev parse_u32 : List ℕ → Option ℕ
parse_u32 text = from_str_radix 10 (2 ^ 32) text

abbrev version_parts : Option ℕ → Option ℕ → CatalogError → Result CatalogError GdVersion
version_parts (some major) (some minor) e = ok (record { major = major; minor = minor })
version_parts none minor e = err e
version_parts (some major) none e = err e

unfoldable pub parse_gd_version : List ℕ → FilePath → Result CatalogError GdVersion
parse_gd_version value path = elim (split_once b'.' value) [
  | none ↦ err (malformed_gd_version path value)
  | some (major, minor) ↦
      version_parts (parse_u32 major) (parse_u32 minor) (malformed_gd_version path value)
]

abbrev pub is_some_rva : Option ℕ → Bool
is_some_rva none = false
is_some_rva (some rva) = true

abbrev pub provenance_of : SymbolId → TargetPair → Option RawProvenance → ProvenanceRecord
provenance_of symbol pair none = empty_record symbol pair
provenance_of symbol pair (some p) = record {
  symbol = symbol;
  pair = pair;
  address_source = p.address_source;
  cross_check = p.cross_check;
  cross_check_no_reuse = p.cross_check_no_reuse;
  prologue_method = p.prologue_method;
  prologue_outcome = p.prologue_outcome;
}

-- One offset; an absent `rva` is never verified.
abbrev pub offset_from_raw : SymbolId → RawOffset → GdVersion → OffsetRecord
offset_from_raw symbol raw gd =
    let pair : TargetPair = record { gd = gd; platform = raw.platform } in
    record {
      pair = pair;
      rva = raw.rva;
      verified = raw.verified && is_some_rva raw.rva;
      provenance = provenance_of symbol pair raw.provenance;
    }

unfoldable pub offsets_from_raw :
    SymbolId → FilePath → List RawOffset → Result CatalogError (List OffsetRecord)
unfolding parse_gd_version
offsets_from_raw symbol path [] = ok []
offsets_from_raw symbol path (raw ∷ raws) =
    let rest = offsets_from_raw symbol path raws in
    parse_gd_version raw.gd_version path >>= λ gd.
    rest >>= λ offsets. ok (offset_from_raw symbol raw gd ∷ offsets)

unfoldable pub entry_from_raw : RawCatalogEntry → FilePath → Result CatalogError CatalogEntry
unfolding offsets_from_raw
entry_from_raw raw path =
    if raw.schema_version == catalog_schema_version
    then (offsets_from_raw raw.symbol path raw.offset >>= λ offsets. ok (record {
      symbol = raw.symbol;
      signature = record {
        return_type = raw.signature.return_type;
        param_types = raw.signature.params;
      };
      offsets = offsets;
    }))
    else err (unsupported_schema_version path raw.schema_version)
