-- ===== src/Bindings/Contribution/Edits.antt =====
-- What setting an offset or a signature leaves in the file of the symbol.
use mathlib.Core.Path.{subst}
use pulse_sdk.Prelude.{
  ℕ, ◌≡◌, refl, sym, ap, ◌∙◌, Bool, true, false, Option, none, some, List, Result, ok, err,
  Result-cases, Bool-cases, inl, inr, All,
}
use pulse_sdk.Prelude.Text.{utf8}
use pulse_sdk.Bindings.{SymbolId}
use pulse_sdk.Bindings.Catalog.{CatalogEntry}
use pulse_sdk.Bindings.Catalog.Raw.{RawCatalogEntry, CatalogError}
use pulse_sdk.Bindings.Catalog.Load.{load_catalog_entry, parse_catalog_entry}
use pulse_sdk.Bindings.Contribution.{
  ContributionError, not_found, serialize_entry, store_entry, edit_entry, written, loaded,
}
use pulse_sdk.Bindings.Contribution.Stored.{IsStorable, parse_catalog_entry-serialize_entry}
use pulse_sdk.Bindings.Contribution.Storable.{load_catalog_entry-IsStorable}
use pulse_sdk.Installer.Fs.{Fs, Bytes, file_at, exists, text_outcome, read_to_string, read, write}
use pulse_sdk.Installer.Native.{write-outcomes}
use pulse_sdk.Installer.Paths.{FilePath, Key, key, key_eq}

abbrev pub first : Result ContributionError FilePath × Fs → Result ContributionError FilePath
first r = r.0

abbrev pub second : Result ContributionError FilePath × Fs → Fs
second r = r.1

text_outcome_lem : (r : Option Bytes × Fs) → (text_outcome r).1 ≡ r.1
text_outcome_lem (none, fs) = refl
text_outcome_lem (some b, fs) = refl

written_lem :
    (path p : FilePath) (r : Bool × Fs)
    → (written path r).0 ≡ ok p
    → (r.0 ≡ true) × ((written path r).1 ≡ r.1)
written_lem path p (true, fs) e = (refl, refl)
written_lem path p (false, fs) e = cc

module _ (to_toml : RawCatalogEntry → Option (List ℕ))
    (from_toml : List ℕ → Option RawCatalogEntry) where
  -- Reading TOML inverts writing it.
  abbrev pub IsInverse : Type 0
  IsInverse =
      (raw : RawCatalogEntry) (text : List ℕ) → to_toml raw ≡ some text → from_toml text ≡ some raw

  -- The file holds a text that is read as the entry, and no other file has changed.
  abbrev pub Holds : FilePath → CatalogEntry → Fs → Fs → Type 0
  Holds path entry fs fs' =
      (content : List ℕ) × (file_at fs' (key path) ≡ some (utf8 content))
      × (parse_catalog_entry from_toml content path ≡ ok entry)
      × ((j : Key) → key_eq (key path) j ≡ false → file_at fs' j ≡ file_at fs j)

  load-keeps :
      (path : FilePath) (fs : Fs) (j : Key)
      → file_at (load_catalog_entry from_toml path fs).1 j ≡ file_at fs j
  unfolding load_catalog_entry read_to_string read
  load-keeps path fs j = ap (λ k. file_at k j) (text_outcome_lem (read (key path) fs))

  store_entry-step :
      (path : FilePath) (entry : CatalogEntry) (fs : Fs) (content : List ℕ)
      → serialize_entry to_toml entry ≡ ok content
      → store_entry to_toml path entry fs ≡ written path (write (key path) (utf8 content) fs)
  unfolding store_entry
  store_entry-step path entry fs content s =
      ap
        (λ (r : Result ContributionError (List ℕ)).
          elim r as (λ _. Result ContributionError FilePath × Fs) [
            | err e ↦ (err e, fs)
            | ok content ↦ written path (write (key path) (utf8 content) fs)
          ])
        s

  store_entry-fails :
      (path : FilePath) (entry : CatalogEntry) (fs : Fs) (x : ContributionError)
      → serialize_entry to_toml entry ≡ err x
      → store_entry to_toml path entry fs ≡ (err x, fs)
  unfolding store_entry
  store_entry-fails path entry fs x s =
      ap
        (λ (r : Result ContributionError (List ℕ)).
          elim r as (λ _. Result ContributionError FilePath × Fs) [
            | err e ↦ (err e, fs)
            | ok content ↦ written path (write (key path) (utf8 content) fs)
          ])
        s

  store_entry-Holds :
      (path p : FilePath) (entry : CatalogEntry) (fs : Fs)
      → IsInverse
      → All (IsStorable entry.symbol) entry.offsets
      → (store_entry to_toml path entry fs).0 ≡ ok p
      → Holds path entry fs (store_entry to_toml path entry fs).1
  store_entry-Holds path p entry fs inverse h e =
      elim (Result-cases (serialize_entry to_toml entry)) [
        | inr (x, s) ↦ let f = ap first (store_entry-fails path entry fs x s) in absurd (cc)
        | inl (content, s) ↦
            let f = store_entry-step path entry fs content s in
            let w = write (key path) (utf8 content) fs in
            let (outcome, kept) = write-outcomes (key path) (utf8 content) fs in
            let (fine, same) = written_lem path p w (sym (ap first f) ∙ e) in
            let there : file_at w.1 (key path) ≡ some (utf8 content) = elim outcome [
              | inl (t, at) ↦ at
              | inr t ↦ absurd (cc)
            ] in
            subst (Holds path entry fs) (sym (ap second f ∙ same)) (
              content,
              there,
              parse_catalog_entry-serialize_entry to_toml from_toml entry path content inverse h s,
              kept,
            )
      ]

  edit_entry-step :
      (symbol : SymbolId) (path : FilePath) (change : CatalogEntry → CatalogEntry) (fs : Fs)
      (r : Result CatalogError CatalogEntry)
      → exists fs (key path) ≡ true
      → (load_catalog_entry from_toml path fs).0 ≡ r
      → edit_entry to_toml from_toml symbol path change fs
        ≡ elim (loaded to_toml from_toml symbol r) [
          | err e ↦ (err e, (load_catalog_entry from_toml path fs).1)
          | ok entry ↦
              store_entry to_toml path (change entry) (load_catalog_entry from_toml path fs).1
        ]
  unfolding edit_entry
  edit_entry-step symbol path change fs r x l = rw x (
      ap
        (λ (r : Result CatalogError CatalogEntry).
          elim (loaded to_toml from_toml symbol r)
            as (λ _. Result ContributionError FilePath × Fs) [
              | err e ↦ (err e, (load_catalog_entry from_toml path fs).1)
              | ok entry ↦
                  store_entry to_toml path (change entry) (load_catalog_entry from_toml path fs).1
            ])
        l)

  edit_entry-missing :
      (symbol : SymbolId) (path : FilePath) (change : CatalogEntry → CatalogEntry) (fs : Fs)
      → exists fs (key path) ≡ false
      → edit_entry to_toml from_toml symbol path change fs ≡ (err (not_found symbol path), fs)
  unfolding edit_entry
  edit_entry-missing symbol path change fs x = rw x refl

  -- An edit that succeeds has changed the entry that the file held.
  pub edit_entry-Holds :
      (symbol : SymbolId) (path p : FilePath) (change : CatalogEntry → CatalogEntry) (fs : Fs)
      → IsInverse
      → ((e : CatalogEntry)
          → (load_catalog_entry from_toml path fs).0 ≡ ok e
          → All (IsStorable e.symbol) e.offsets
          → All (IsStorable (change e).symbol) (change e).offsets)
      → (edit_entry to_toml from_toml symbol path change fs).0 ≡ ok p
      → (entry : CatalogEntry) × ((load_catalog_entry from_toml path fs).0 ≡ ok entry)
        × Holds path (change entry) fs (edit_entry to_toml from_toml symbol path change fs).1
  edit_entry-Holds symbol path p change fs inverse keeps e =
      elim (Bool-cases (exists fs (key path))) [
        | inr x ↦ let f = ap first (edit_entry-missing symbol path change fs x) in absurd (cc)
        | inl x ↦ elim (Result-cases (load_catalog_entry from_toml path fs).0) [
          | inr (y, l) ↦
              let f = ap first (edit_entry-step symbol path change fs (err y) x l) in absurd (cc)
          | inl (entry, l) ↦
              let f = edit_entry-step symbol path change fs (ok entry) x l in
              let fs1 = (load_catalog_entry from_toml path fs).1 in
              let (content, there, reads, kept) =
                store_entry-Holds path p (change entry) fs1 inverse
                  (keeps entry l (load_catalog_entry-IsStorable from_toml path fs entry l))
                  (sym (ap first f) ∙ e) in
              (
                entry,
                l,
                subst (Holds path (change entry) fs) (sym (ap second f))
                    (content, there, reads, λ j h. kept j h ∙ load-keeps path fs j),
              )
        ]
      ]
