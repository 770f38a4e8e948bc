-- ===== src/Bindings/Contribution/Changed.antt =====
-- What setting an offset or a signature means for the entry, and for what is generated from it.
use mathlib.Core.Path.{subst}
use pulse_sdk.Prelude.{
  ℕ, ◌≡◌, refl, sym, ap, ◌∙◌, false, Option, none, some, List, [], ◌∷◌, Result, ok, err, ◌>>=◌,
  Option-cases, inl, inr, All,
}
use pulse_sdk.Bindings.{Signature, SymbolId, TargetPair, pair_eq}
use pulse_sdk.Bindings.Catalog.{OffsetRecord, CatalogEntry}
use pulse_sdk.Bindings.Catalog.Raw.{RawCatalogEntry}
use pulse_sdk.Bindings.Catalog.Load.{load_catalog_entry}
use pulse_sdk.Bindings.Contribution.{
  ContributionError, require_symbol, require_signature, edit_entry, clear_all, with_offset,
  with_signature, set_signature,
}
use pulse_sdk.Bindings.Contribution.Stem.{symbol_file_path}
use pulse_sdk.Bindings.Contribution.Stored.{IsStorable}
use pulse_sdk.Bindings.Contribution.Edits.{IsInverse, Holds, first, second, edit_entry-Holds}
use pulse_sdk.Bindings.Generator.{emit_verified, find_offset}
use pulse_sdk.Installer.Fs.{Fs}
use pulse_sdk.Installer.Paths.{FilePath}

-- Nothing is claimed of the offset: the generator writes it as not verified.
abbrev pub IsCleared : OffsetRecord → Type 0
IsCleared o =
    (emit_verified o ≡ false)
    × (o.provenance.cross_check ≡ none)
    × (o.provenance.prologue_outcome ≡ none)

abbrev pub addresses : List OffsetRecord → List (TargetPair × Option ℕ)
addresses [] = []
addresses (o ∷ offsets) = (o.pair, o.rva) ∷ addresses offsets

clear_all_lem :
    (offsets : List OffsetRecord)
    → All IsCleared (clear_all offsets) × (addresses (clear_all offsets) ≡ addresses offsets)
unfolding clear_all
clear_all_lem [] = (tt, refl)
clear_all_lem (o ∷ offsets) =
    let (cleared, same) = clear_all_lem offsets in
    (
      (
        ((elim (Option-cases o.rva) [ inl e ↦ rw e refl | inr (r, e) ↦ rw e refl ]), refl, refl),
        cleared,
      ),
      ap (λ l. (o.pair, o.rva) ∷ l) same,
    )

clear_all-IsStorable :
    (symbol : SymbolId) (offsets : List OffsetRecord)
    → All (IsStorable symbol) offsets
    → All (IsStorable symbol) (clear_all offsets)
unfolding clear_all
clear_all-IsStorable symbol [] h = tt
clear_all-IsStorable symbol (o ∷ offsets) (s, h) = (
  record {
    major = s.major;
    minor = s.minor;
    verified = λ e. refl;
    of_symbol = s.of_symbol;
    of_pair = s.of_pair;
  },
  clear_all-IsStorable symbol offsets h,
)

-- A guard that lets pass.
guarded :
    (r : Result ContributionError (Unit {0})) (next : Result ContributionError FilePath × Fs)
    (fs : Fs) (p : FilePath)
    → first (elim r [ err e ↦ (err e, fs) | ok u ↦ next ]) ≡ ok p
    → ◌≡◌ {A = Result ContributionError FilePath × Fs}
        (elim r [ err e ↦ (err e, fs) | ok u ↦ next ])
        next
guarded (err e) next fs p h = cc
guarded (ok u) next fs p h = refl

module _ (to_toml : RawCatalogEntry → Option (List ℕ)) (from_toml : List ℕ → Option RawCatalogEntry)
    (sha256 : List ℕ → List ℕ) where
  abbrev changing : Signature → CatalogEntry → CatalogEntry
  changing = with_signature to_toml from_toml sha256

  abbrev putting : OffsetRecord → CatalogEntry → CatalogEntry
  putting = with_offset to_toml from_toml sha256

  set_signature-step :
      (root : FilePath) (symbol : SymbolId) (signature : Signature) (fs : Fs) (p : FilePath)
      → (set_signature to_toml from_toml sha256 root symbol signature fs).0 ≡ ok p
      → set_signature to_toml from_toml sha256 root symbol signature fs
        ≡ edit_entry to_toml from_toml symbol
            (symbol_file_path sha256 root symbol)
            (changing signature)
            fs
  unfolding set_signature
  set_signature-step root symbol signature fs p e =
      guarded (require_symbol symbol >>= λ _. require_signature signature)
        (edit_entry to_toml from_toml symbol (symbol_file_path sha256 root symbol)
          (changing signature) fs)
        fs p e

  -- What a new signature makes of the file: `fs'` and the entry that it holds.
  abbrev pub IsResigned : FilePath → Signature → Fs → Fs → Type 0
  IsResigned path signature fs fs' =
      (entry changed : CatalogEntry) × ((load_catalog_entry from_toml path fs).0 ≡ ok entry)
      × Holds to_toml from_toml path changed fs fs'
      × (changed.symbol ≡ entry.symbol)
      × (changed.signature ≡ signature)
      × (addresses changed.offsets ≡ addresses entry.offsets)
      × All IsCleared changed.offsets

  -- What a new offset makes of the file.
  abbrev pub IsReaddressed : FilePath → OffsetRecord → Fs → Fs → Type 0
  IsReaddressed path new fs fs' =
      (entry changed : CatalogEntry) × ((load_catalog_entry from_toml path fs).0 ≡ ok entry)
      × Holds to_toml from_toml path changed fs fs'
      × (changed.signature ≡ entry.signature)
      × (find_offset new.pair changed.offsets ≡ some new)
      × IsCleared new
      × ((q : TargetPair)
          → pair_eq new.pair q ≡ false
          → find_offset q changed.offsets ≡ find_offset q entry.offsets)

  -- Setting a signature, if it succeeds, leaves the file of the symbol with the entry that it held
  -- but for the signature, which is the new one, and for the claims: the pairs and addresses stay,
  -- every offset has lost its outcomes, and the generator writes none as verified. No other file
  -- changes. Reading TOML inverts writing it.
  pub set_signature-IsResigned :
      (root : FilePath) (symbol : SymbolId) (signature : Signature) (fs : Fs) (p : FilePath)
      → IsInverse to_toml from_toml
      → (set_signature to_toml from_toml sha256 root symbol signature fs).0 ≡ ok p
      → IsResigned
          (symbol_file_path sha256 root symbol)
          signature
          fs
          (set_signature to_toml from_toml sha256 root symbol signature fs).1
  set_signature-IsResigned root symbol signature fs p inverse e =
      let path = symbol_file_path sha256 root symbol in
      let f = set_signature-step root symbol signature fs p e in
      let (entry, l, holds) =
        edit_entry-Holds to_toml from_toml symbol path p (changing signature) fs inverse
          (λ k l h. clear_all-IsStorable k.symbol k.offsets h) (sym (ap first f) ∙ e) in
      let (cleared, same) = clear_all_lem entry.offsets in
      (
        entry,
        changing signature entry,
        l,
        subst (Holds to_toml from_toml path (changing signature entry) fs) (sym (ap second f))
            holds,
        refl,
        refl,
        same,
        cleared,
      )
