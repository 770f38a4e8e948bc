-- ===== src/Bindings/Catalog/Loaded.antt =====
-- What a catalogue that loads is, against the files read one by one.
use pulse_sdk.Prelude.{ℕ, ◌≡◌, Option, List, [], ◌∷◌, Result, ok, ◌>>=◌}
use pulse_sdk.Prelude.Text.{codes}
use pulse_sdk.Bindings.{SymbolId}
use pulse_sdk.Bindings.Catalog.{CatalogEntry, BindingCatalog}
use pulse_sdk.Bindings.Catalog.Raw.{RawCatalogEntry, CatalogError}
use pulse_sdk.Bindings.Catalog.Load.{
  MergedEntries, entries_of, read_dir, sort_paths, toml_paths, load_catalog_entry,
}
use pulse_sdk.Bindings.Catalog.Merged.{IsCatalog, offsets_for}
use pulse_sdk.Installer.Fs.{Fs}
use pulse_sdk.Installer.Paths.{FilePath, join}

abbrev as_catalog : MergedEntries → Result CatalogError BindingCatalog
as_catalog merged = ok (record { entries = entries_of merged })

module _ (from_toml : List ℕ → Option RawCatalogEntry) where
  -- The entries of the files, read in the order of the list.
  unfoldable pub read_all : List FilePath → Fs → Result CatalogError (List CatalogEntry)
  unfolding load_catalog_entry
  read_all [] fs = ok []
  read_all (path ∷ paths) fs =
      let (loaded, fs') = load_catalog_entry from_toml path fs in
      loaded >>= λ entry. read_all paths fs' >>= λ entries. ok (entry ∷ entries)

  module _ (path : FilePath) (paths : List FilePath) (fs : Fs) where
    loaded : Result CatalogError CatalogEntry
    loaded = (load_catalog_entry from_toml path fs).0

    after : Fs
    after = (load_catalog_entry from_toml path fs).1

  -- The files can be read one by one, no symbol and no pair of a symbol occurs twice, and the offsets
  -- of each symbol are those of its files, in their order.
  abbrev pub IsLoaded : Option (List (Option FilePath)) → FilePath → Fs → BindingCatalog → Type 0
  IsLoaded listing root fs catalog =
      (paths : List FilePath) × (entries : List CatalogEntry) × (read_dir
          (join root (codes "symbols")) listing
        ≡ ok paths)
      × (read_all (sort_paths (toml_paths paths fs)) fs ≡ ok entries)
      × IsCatalog catalog.entries
      × ((s : SymbolId) → offsets_for s catalog.entries ≡ offsets_for s entries)
