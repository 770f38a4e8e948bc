-- ===== src/Bindings/Catalog.antt =====
-- cli/src/bindings/catalog.rs: the entries of the catalogue.
pub mod Raw
pub mod Load
pub mod Merged
pub mod Complete
pub mod Loaded
use pulse_sdk.Prelude.{ℕ, Bool, true, false, ◌||◌, Option, none, some, List, ◌==◌}
use pulse_sdk.Bindings.{Signature, SymbolId, TargetPair, sentinel_value}

pub record ProvenanceRecord : Type 0 where
  pub symbol : SymbolId
  pub pair : TargetPair
  pub address_source : Option (List ℕ)
  pub cross_check : Option (List ℕ)
  pub cross_check_no_reuse : Bool
  pub prologue_method : Option (List ℕ)
  pub prologue_outcome : Option (List ℕ)

-- `ProvenanceRecord::empty`
abbrev pub empty_record : SymbolId → TargetPair → ProvenanceRecord
empty_record symbol pair = record {
  symbol = symbol;
  pair = pair;
  address_source = none;
  cross_check = none;
  cross_check_no_reuse = false;
  prologue_method = none;
  prologue_outcome = none;
}

pub record OffsetRecord : Type 0 where
  pub pair : TargetPair
  pub rva : Option ℕ
  pub verified : Bool
  pub provenance : ProvenanceRecord

abbrev pub effective_rva : OffsetRecord → ℕ
effective_rva offset = elim offset.rva [ none ↦ sentinel_value | some rva ↦ rva ]

abbrev pub is_sentinel : OffsetRecord → Bool
is_sentinel offset = elim offset.rva [ none ↦ true | some rva ↦ rva == sentinel_value ]

pub record CatalogEntry : Type 0 where
  pub symbol : SymbolId
  pub signature : Signature
  pub offsets : List OffsetRecord

pub record BindingCatalog : Type 0 where
  pub entries : List CatalogEntry
