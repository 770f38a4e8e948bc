-- ===== src/Bindings/Catalog/Load.antt =====
-- cli/src/bindings/catalog.rs: the files of the catalogue read in the order of their paths and merged
-- by symbol. `toml::from_str` and the listing of the directory are parameters. The map by symbol is
-- the list of its pairs in the order of their insertion, which the source keeps beside it.
use pulse_sdk.Prelude.{
  ℕ, Bool, true, false, ◌&&◌, ◌||◌, Option, none, some, List, [], ◌∷◌, ◌++◌, Result, ok, err, ◌>>=◌,
  list_eq, if◌then◌else◌,
}
use pulse_sdk.Prelude.Text.{codes}
use pulse_sdk.Bindings.{Signature, SymbolId, TargetPair, pair_eq}
use pulse_sdk.Bindings.Catalog.{OffsetRecord, CatalogEntry, BindingCatalog}
use pulse_sdk.Bindings.Catalog.Raw.{
  RawCatalogEntry, CatalogError, io, parse, empty_catalog, duplicate_symbol_pair,
  signature_conflict, entry_from_raw,
}
use pulse_sdk.Bindings.Generator.{text_lt, join_texts}
use pulse_sdk.Installer.Fs.{Fs, read_to_string, is_file}
use pulse_sdk.Installer.Paths.{FilePath, key, join}
use pulse_sdk.Installer.Paths.Names.{is_toml}

pub record MergedEntry : Type 0 where
  pub signature : Signature
  pub offsets : List OffsetRecord
  pub seen_pairs : List TargetPair

abbrev pub MergedEntries : Type 0
MergedEntries = List (SymbolId × MergedEntry)

unfoldable pub signature_to_string : Signature → List ℕ
unfolding join_texts
signature_to_string signature =
    signature.return_type ++ (b'(' ∷ (join_texts (codes ", ") signature.param_types ++ b')' ∷ []))

abbrev texts_eq : List (List ℕ) → List (List ℕ) → Bool
texts_eq [] [] = true
texts_eq [] (y ∷ ys) = false
texts_eq (x ∷ xs) [] = false
texts_eq (x ∷ xs) (y ∷ ys) = list_eq x y && texts_eq xs ys

abbrev pub signature_eq : Signature → Signature → Bool
signature_eq s t = list_eq s.return_type t.return_type && texts_eq s.param_types t.param_types

unfoldable pub contains_pair : List TargetPair → TargetPair → Bool
contains_pair [] pair = false
contains_pair (p ∷ pairs) pair = pair_eq p pair || contains_pair pairs pair

-- The loop over the offsets of an entry.
unfoldable pub add_offsets :
    SymbolId → List OffsetRecord → MergedEntry → Result CatalogError MergedEntry
unfolding contains_pair
add_offsets symbol [] merged = ok merged
add_offsets symbol (offset ∷ offsets) merged = elim (contains_pair merged.seen_pairs offset.pair) [
  | true ↦ err (duplicate_symbol_pair symbol offset.pair)
  | false ↦ add_offsets symbol offsets (record merged {
    offsets = merged.offsets ++ offset ∷ [];
    seen_pairs = merged.seen_pairs ++ offset.pair ∷ [];
  })
]

abbrev pub new_merged : Signature → MergedEntry
new_merged signature = record { signature = signature; offsets = []; seen_pairs = [] }

-- One file's entry, merged into those before it.
unfoldable pub merge_entry : CatalogEntry → MergedEntries → Result CatalogError MergedEntries
unfolding add_offsets signature_to_string
merge_entry entry [] =
    add_offsets entry.symbol entry.offsets (new_merged entry.signature) >>= λ merged.
    ok ((entry.symbol, merged) ∷ [])
merge_entry entry ((symbol, merged) ∷ rest) =
    let later = merge_entry entry rest in
    if list_eq symbol entry.symbol
    then (if signature_eq merged.signature entry.signature
        then (add_offsets entry.symbol entry.offsets merged >>= λ merged'.
            ok ((symbol, merged') ∷ rest))
        else err (
            signature_conflict entry.symbol (signature_to_string merged.signature)
              (signature_to_string entry.signature)))
    else (later >>= λ rest'. ok ((symbol, merged) ∷ rest'))

abbrev entry_of : SymbolId × MergedEntry → CatalogEntry
entry_of (symbol, merged) = record {
  symbol = symbol;
  signature = merged.signature;
  offsets = merged.offsets;
}

unfoldable pub entries_of : MergedEntries → List CatalogEntry
entries_of [] = []
entries_of (m ∷ merged) = entry_of m ∷ entries_of merged

-- The paths that are TOML files.
unfoldable pub toml_paths : List FilePath → Fs → List FilePath
unfolding is_toml
toml_paths [] fs = []
toml_paths (path ∷ paths) fs =
    let rest = toml_paths paths fs in
    if is_toml path && is_file fs (key path) then path ∷ rest else rest

-- `sort`: paths in one directory are compared as texts.
unfoldable pub insert_path : FilePath → List FilePath → List FilePath
unfolding text_lt
insert_path path [] = path ∷ []
insert_path path (p ∷ paths) =
    let rest = insert_path path paths in if text_lt p path then p ∷ rest else path ∷ p ∷ paths

unfoldable pub sort_paths : List FilePath → List FilePath
unfolding insert_path
sort_paths [] = []
sort_paths (path ∷ paths) = insert_path path (sort_paths paths)

-- The entries of a directory, until one cannot be read.
unfoldable pub dir_entries : FilePath → List (Option FilePath) → Result CatalogError (List FilePath)
dir_entries dir [] = ok []
dir_entries dir (none ∷ listing) = err (io dir)
dir_entries dir (some path ∷ listing) = dir_entries dir listing >>= λ paths. ok (path ∷ paths)

abbrev pub read_dir :
    FilePath → Option (List (Option FilePath)) → Result CatalogError (List FilePath)
read_dir dir none = err (io dir)
read_dir dir (some listing) = dir_entries dir listing

module _ (from_toml : List ℕ → Option RawCatalogEntry) where
  abbrev pub parse_catalog_entry : List ℕ → FilePath → Result CatalogError CatalogEntry
  parse_catalog_entry content path = elim (from_toml content) [
    | none ↦ err (parse path)
    | some raw ↦ entry_from_raw raw path
  ]

  abbrev parse_read : FilePath → Option (List ℕ) → Result CatalogError CatalogEntry
  parse_read path none = err (io path)
  parse_read path (some content) = parse_catalog_entry content path

  unfoldable pub load_catalog_entry : FilePath → Fs → Result CatalogError CatalogEntry × Fs
  unfolding entry_from_raw
  load_catalog_entry path fs =
      let (text, fs') = read_to_string (key path) fs in (parse_read path text, fs')

  -- The loop over the files: an error stops it.
  unfoldable pub load_entries :
      List FilePath → MergedEntries → Fs → Result CatalogError MergedEntries × Fs
  unfolding load_catalog_entry merge_entry
  load_entries [] merged fs = (ok merged, fs)
  load_entries (path ∷ paths) merged fs =
      let (loaded, fs') = load_catalog_entry path fs in
      elim (loaded >>= λ entry. merge_entry entry merged) [
        | err e ↦ (err e, fs')
        | ok merged' ↦ load_entries paths merged' fs'
      ]

  abbrev catalog_of : Result CatalogError MergedEntries → Result CatalogError BindingCatalog
  catalog_of r = r >>= λ merged. ok (record { entries = entries_of merged })

  abbrev pub load_paths : FilePath → List FilePath → Fs → Result CatalogError BindingCatalog × Fs
  load_paths symbols_dir [] fs = (err (empty_catalog symbols_dir), fs)
  load_paths symbols_dir (path ∷ paths) fs =
      let (merged, fs') = load_entries (path ∷ paths) [] fs in (catalog_of merged, fs')

  -- `listing` is what `std::fs::read_dir` gives for the directory `symbols` of the root.
  unfoldable pub load_catalog :
      Option (List (Option FilePath)) → FilePath → Fs → Result CatalogError BindingCatalog × Fs
  unfolding toml_paths sort_paths load_entries entries_of dir_entries join
  load_catalog listing root fs =
      let symbols_dir = join root (codes "symbols") in
      elim (read_dir symbols_dir listing) [
        | err e ↦ (err e, fs)
        | ok paths ↦ load_paths symbols_dir (sort_paths (toml_paths paths fs)) fs
      ]
