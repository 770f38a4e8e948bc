-- ===== src/Tests/Catalogues.antt =====
-- A catalogue of two files, loaded, generated and linted.
use pulse_sdk.Prelude.{true, false, none, some, [], ◌∷◌}
use pulse_sdk.Prelude.Text.{codes}
use pulse_sdk.Bindings.{TargetPair, macos_arm64, windows_x64, Signature, SymbolId}
use pulse_sdk.Bindings.Catalog.{OffsetRecord, CatalogEntry, BindingCatalog, empty_record}
use pulse_sdk.Installer.Paths.{FilePath}

abbrev pub mac : TargetPair
mac = record { gd = record { major = 2; minor = 2081 }; platform = macos_arm64 }

abbrev pub windows : TargetPair
windows = record { gd = record { major = 2; minor = 2081 }; platform = windows_x64 }

abbrev pub init : SymbolId
init = codes "A::b"

abbrev pub update : SymbolId
update = codes "C::d"

abbrev pub init_signature : Signature
init_signature = record { return_type = codes "bool"; param_types = codes "A*" ∷ codes "int" ∷ [] }

abbrev pub update_signature : Signature
update_signature = record { return_type = codes "void"; param_types = [] }

abbrev pub init_offset : OffsetRecord
init_offset = record {
  pair = mac;
  rva = some 0x40;
  verified = true;
  provenance = record (empty_record init mac) { cross_check = some (codes "concordant") };
}

abbrev pub update_offset : OffsetRecord
update_offset = record {
  pair = mac;
  rva = none;
  verified = false;
  provenance = empty_record update mac;
}

abbrev pub init_entry : CatalogEntry
init_entry = record { symbol = init; signature = init_signature; offsets = init_offset ∷ [] }

abbrev pub update_entry : CatalogEntry
update_entry = record {
  symbol = update;
  signature = update_signature;
  offsets = update_offset ∷ [];
}

abbrev pub sample : BindingCatalog
sample = record { entries = update_entry ∷ init_entry ∷ [] }

abbrev pub index : FilePath
index = codes "/m"
