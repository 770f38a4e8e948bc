-- ===== src/Bindings/Contribution.antt =====
-- cli/src/bindings/contribution.rs: the names of the catalogue's files, and the entries written back.
-- `toml::to_string_pretty` and SHA-256 are parameters. The records that are written have the fields of
-- those that are read, and are the same here.
pub mod Stored
pub mod Stem
pub mod Storable
pub mod Edits
pub mod Changed
pub mod Names
use pulse_sdk.Prelude.{
  ℕ, ◌/◌, ◌%◌, ◌<◌, Bool, true, false, not, ◌&&◌, ◌||◌, Option, none, some, List, [], ◌∷◌, ◌++◌,
  Result, ok, err, ◌>>=◌, ltb, leb, ◌==◌, if◌then◌else◌, is_empty, length, take, contains,
}
use pulse_sdk.Prelude.Text.{codes, in_range, utf8}
use pulse_sdk.Prelude.Trim.{trim}
use pulse_sdk.Prelude.Radix.{hex_upper}
use pulse_sdk.Bindings.{Signature, SymbolId, TargetPair, version_text, pair_eq}
use pulse_sdk.Bindings.Catalog.{ProvenanceRecord, empty_record, OffsetRecord, CatalogEntry}
use pulse_sdk.Bindings.Catalog.Raw.{
  RawCatalogEntry, RawOffset, RawProvenance, CatalogError, catalog_schema_version,
}
use pulse_sdk.Bindings.Contribution.Stem.{symbol_file_path}
use pulse_sdk.Bindings.Catalog.Load.{load_catalog_entry}
use pulse_sdk.Installer.Fs.{Fs, exists, write, create_dir_all}
use pulse_sdk.Installer.Paths.{FilePath, key, join}

pub data ContributionError : Type 0 where
  missing_symbol missing_signature : ContributionError
  already_exists not_found : SymbolId → FilePath → ContributionError
  load : SymbolId → CatalogError → ContributionError
  io : FilePath → ContributionError
  serialize : SymbolId → ContributionError

abbrev pub require_symbol : SymbolId → Result ContributionError (Unit {0})
require_symbol symbol = if is_empty (trim symbol) then err missing_symbol else ok tt

abbrev pub require_signature : Signature → Result ContributionError (Unit {0})
require_signature signature =
    if is_empty (trim signature.return_type) then err missing_signature else ok tt

unfoldable pub sentinel_offsets : SymbolId → List TargetPair → List OffsetRecord
sentinel_offsets symbol [] = []
sentinel_offsets symbol (pair ∷ pairs) =
    record { pair = pair; rva = none; verified = false; provenance = empty_record symbol pair }
    ∷ sentinel_offsets symbol pairs

abbrev pub build_sentinel_entry : SymbolId → Signature → List TargetPair → CatalogEntry
build_sentinel_entry symbol signature pairs = record {
  symbol = symbol;
  signature = signature;
  offsets = sentinel_offsets symbol pairs;
}

abbrev is_none : Option (List ℕ) → Bool
is_none none = true
is_none (some text) = false

-- `RawProvenanceOut::from_record`
unfoldable pub from_record : ProvenanceRecord → Option RawProvenance
from_record p =
    if is_none p.address_source
      && (is_none p.cross_check
          && (not p.cross_check_no_reuse
              && (is_none p.prologue_method && is_none p.prologue_outcome)))
    then none
    else some (record {
      address_source = p.address_source;
      cross_check = p.cross_check;
      cross_check_no_reuse = p.cross_check_no_reuse;
      prologue_method = p.prologue_method;
      prologue_outcome = p.prologue_outcome;
    })

abbrev pub raw_of : OffsetRecord → RawOffset
raw_of o = record {
  gd_version = version_text o.pair.gd;
  platform = o.pair.platform;
  rva = o.rva;
  verified = o.verified;
  provenance = from_record o.provenance;
}

unfoldable pub raws_of : List OffsetRecord → List RawOffset
unfolding from_record
raws_of [] = []
raws_of (o ∷ offsets) = raw_of o ∷ raws_of offsets

-- The record that `serialize_entry` writes.
abbrev pub raw_entry : CatalogEntry → RawCatalogEntry
raw_entry entry = record {
  schema_version = catalog_schema_version;
  symbol = entry.symbol;
  signature = record {
    return_type = entry.signature.return_type;
    params = entry.signature.param_types;
  };
  offset = raws_of entry.offsets;
}

-- The offset of a contributor, not verified.
abbrev pub contributed : SymbolId → TargetPair → ℕ → List ℕ → OffsetRecord
contributed symbol pair rva contributor = record {
  pair = pair;
  rva = some rva;
  verified = false;
  provenance = record (empty_record symbol pair) { address_source = some contributor };
}

-- The first offset of the pair is replaced; without one the new offset stands last.
unfoldable pub replace_offset : OffsetRecord → List OffsetRecord → List OffsetRecord
replace_offset new [] = new ∷ []
replace_offset new (o ∷ offsets) =
    let rest = replace_offset new offsets in
    if pair_eq o.pair new.pair then new ∷ offsets else o ∷ rest

abbrev clear_outcomes : OffsetRecord → OffsetRecord
clear_outcomes o = record o {
  verified = false;
  provenance = record (o.provenance) {
    cross_check = none;
    cross_check_no_reuse = false;
    prologue_method = none;
    prologue_outcome = none;
  };
}

unfoldable pub clear_all : List OffsetRecord → List OffsetRecord
clear_all [] = []
clear_all (o ∷ offsets) = clear_outcomes o ∷ clear_all offsets

abbrev pub written : FilePath → Bool × Fs → Result ContributionError FilePath × Fs
written path (true, fs) = (ok path, fs)
written path (false, fs) = (err (io path), fs)

abbrev made :
    FilePath
    → Bool × Fs
    → (Fs → Result ContributionError FilePath × Fs)
    → Result ContributionError FilePath × Fs
made dir (true, fs) next = next fs
made dir (false, fs) next = (err (io dir), fs)

module _ (to_toml : RawCatalogEntry → Option (List ℕ)) where
  unfoldable pub serialize_entry : CatalogEntry → Result ContributionError (List ℕ)
  unfolding raws_of
  serialize_entry entry = elim (to_toml (raw_entry entry)) [
    | none ↦ err (serialize entry.symbol)
    | some content ↦ ok content
  ]

  -- An entry is serialized and written.
  unfoldable pub store_entry : FilePath → CatalogEntry → Fs → Result ContributionError FilePath × Fs
  unfolding serialize_entry
  store_entry path entry fs = elim (serialize_entry entry) [
    | err e ↦ (err e, fs)
    | ok content ↦ written path (write (key path) (utf8 content) fs)
  ]

  -- The directory is made before the file is written, and after the text is.
  abbrev add_entry :
      FilePath → FilePath → CatalogEntry → Fs → Result ContributionError FilePath × Fs
  add_entry dir path entry fs = elim (serialize_entry entry) [
    | err e ↦ (err e, fs)
    | ok content ↦
        made dir (create_dir_all (key dir) fs)
          (λ fs'. written path (write (key path) (utf8 content) fs'))
  ]

  module _ (from_toml : List ℕ → Option RawCatalogEntry) where
    abbrev pub loaded :
        SymbolId → Result CatalogError CatalogEntry → Result ContributionError CatalogEntry
    loaded symbol (err e) = err (load symbol e)
    loaded symbol (ok entry) = ok entry

    -- An entry is loaded, changed and stored.
    unfoldable pub edit_entry :
        SymbolId
        → FilePath
        → (CatalogEntry → CatalogEntry)
        → Fs
        → Result ContributionError FilePath × Fs
    unfolding store_entry
    edit_entry symbol path change fs =
        if exists fs (key path)
        then (let (r, fs') = load_catalog_entry from_toml path fs in
            elim (loaded symbol r) [
              | err e ↦ (err e, fs')
              | ok entry ↦ store_entry path (change entry) fs'
            ])
        else (err (not_found symbol path), fs)

    module _ (sha256 : List ℕ → List ℕ) where
      abbrev pub with_offset : OffsetRecord → CatalogEntry → CatalogEntry
      with_offset new entry = record entry { offsets = replace_offset new entry.offsets }

      unfoldable pub set_offset :
          FilePath
          → SymbolId
          → TargetPair
          → ℕ
          → List ℕ
          → Fs
          → Result ContributionError FilePath × Fs
      unfolding symbol_file_path edit_entry replace_offset
      set_offset catalog_root symbol pair rva contributor fs = elim (require_symbol symbol) [
        | err e ↦ (err e, fs)
        | ok u ↦
            edit_entry symbol (symbol_file_path sha256 catalog_root symbol)
              (with_offset (contributed symbol pair rva contributor)) fs
      ]

      abbrev pub with_signature : Signature → CatalogEntry → CatalogEntry
      with_signature signature entry = record entry {
        signature = signature;
        offsets = clear_all entry.offsets;
      }

      unfoldable pub set_signature :
          FilePath → SymbolId → Signature → Fs → Result ContributionError FilePath × Fs
      unfolding symbol_file_path edit_entry clear_all
      set_signature catalog_root symbol signature fs =
          elim (require_symbol symbol >>= λ _. require_signature signature) [
            | err e ↦ (err e, fs)
            | ok u ↦
                edit_entry symbol (symbol_file_path sha256 catalog_root symbol)
                  (with_signature signature) fs
          ]

  module _ (sha256 : List ℕ → List ℕ) where
    unfoldable pub add :
        FilePath
        → SymbolId
        → Signature
        → List TargetPair
        → Fs
        → Result ContributionError FilePath × Fs
    unfolding symbol_file_path serialize_entry sentinel_offsets
    add catalog_root symbol signature pairs fs =
        let path = symbol_file_path sha256 catalog_root symbol in
        elim (require_symbol symbol >>= λ _. require_signature signature) [
          | err e ↦ (err e, fs)
          | ok u ↦
              if exists fs (key path)
              then (err (already_exists symbol path), fs)
              else add_entry (join catalog_root (codes "symbols")) path
                  (build_sentinel_entry symbol signature pairs) fs
        ]
