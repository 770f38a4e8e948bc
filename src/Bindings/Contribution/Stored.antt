-- ===== src/Bindings/Contribution/Stored.antt =====
-- An entry that is stored is loaded as it was.
use mathlib.Core.Path.{subst}
use pulse_sdk.Prelude.{
  ℕ, ◌^◌, ◌<◌, ◌≡◌, ◌≢◌, refl, sym, ap, ◌∙◌, Bool, true, false, ◌&&◌, Option, none, some, List, [],
  ◌∷◌, ok, arith, Option-cases, inl, inr, All,
}
use pulse_sdk.Prelude.Text.{decimal}
use pulse_sdk.Prelude.Digits.{decimal-All}
use pulse_sdk.Prelude.Radix.{from_str_radix-decimal}
use pulse_sdk.Prelude.Trim.{split_once, split_once-append}
use pulse_sdk.Bindings.{SymbolId, GdVersion, TargetPair, version_text}
use pulse_sdk.Bindings.Catalog.{ProvenanceRecord, OffsetRecord, CatalogEntry}
use pulse_sdk.Bindings.Catalog.Raw.{
  RawCatalogEntry, parse_gd_version, offsets_from_raw, entry_from_raw, provenance_of,
  offset_from_raw, is_some_rva,
}
use pulse_sdk.Bindings.Catalog.Load.{parse_catalog_entry}
use pulse_sdk.Bindings.Contribution.{from_record, raws_of, raw_of, raw_entry, serialize_entry}
use pulse_sdk.Installer.Paths.{FilePath}

-- An offset as a file can hold it: 32-bit versions, nothing verified without an address, and a
-- provenance of the symbol and the pair.
pub record IsStorable (symbol : SymbolId) (o : OffsetRecord) : Type 0 where
  pub major : o.pair.gd.major < 2 ^ 32
  pub minor : o.pair.gd.minor < 2 ^ 32
  pub verified : o.rva ≡ none → o.verified ≡ false
  pub of_symbol : o.provenance.symbol ≡ symbol
  pub of_pair : o.provenance.pair ≡ o.pair

parse_gd_version-version_text :
    (gd : GdVersion) (path : FilePath)
    → gd.major < 2 ^ 32
    → gd.minor < 2 ^ 32
    → parse_gd_version (version_text gd) path ≡ ok gd
unfolding parse_gd_version
parse_gd_version-version_text gd path h k =
    let split : split_once b'.' (version_text gd) ≡ some (decimal gd.major, decimal gd.minor) =
      unfold version_text in
      split_once-append b'.' (decimal gd.major) (decimal gd.minor)
        (decimal-All (λ c. c ≢ b'.') gd.major (λ d l e. omega arith)) in
    rw (split, parse_gd_version)
      (rw (from_str_radix-decimal (2 ^ 32) gd.major h, from_str_radix-decimal (2 ^ 32) gd.minor k)
        refl)

provenance_fields :
    (symbol : SymbolId) (pair : TargetPair) (source check : Option (List ℕ)) (no_reuse : Bool)
    (method outcome : Option (List ℕ))
    → provenance_of symbol pair (
        from_record (record {
          symbol = symbol;
          pair = pair;
          address_source = source;
          cross_check = check;
          cross_check_no_reuse = no_reuse;
          prologue_method = method;
          prologue_outcome = outcome;
        }))
      ≡ record {
        symbol = symbol;
        pair = pair;
        address_source = source;
        cross_check = check;
        cross_check_no_reuse = no_reuse;
        prologue_method = method;
        prologue_outcome = outcome;
      }
unfolding from_record
provenance_fields symbol pair (some s) check no_reuse method outcome = refl
provenance_fields symbol pair none (some c) no_reuse method outcome = refl
provenance_fields symbol pair none none true method outcome = refl
provenance_fields symbol pair none none false (some m) outcome = refl
provenance_fields symbol pair none none false none (some o) = refl
provenance_fields symbol pair none none false none none = refl

provenance-from_record :
    (symbol : SymbolId) (pair : TargetPair) (p : ProvenanceRecord)
    → p.symbol ≡ symbol
    → p.pair ≡ pair
    → provenance_of symbol pair (from_record p) ≡ p
provenance-from_record symbol pair p h k =
    ap (λ s. provenance_of s pair (from_record p)) (sym h)
    ∙ (ap (λ q. provenance_of p.symbol q (from_record p)) (sym k)
        ∙ provenance_fields p.symbol p.pair p.address_source p.cross_check p.cross_check_no_reuse
            p.prologue_method p.prologue_outcome)

verified_lem :
    (verified : Bool) (rva : Option ℕ)
    → (rva ≡ none → verified ≡ false)
    → (verified && is_some_rva rva) ≡ verified
verified_lem false rva h = refl
verified_lem true none h = sym (h refl)
verified_lem true (some rva) h = refl

offset_lem :
    (symbol : SymbolId) (o : OffsetRecord)
    → IsStorable symbol o
    → offset_from_raw symbol (raw_of o) o.pair.gd ≡ o
offset_lem symbol o h =
    let v = verified_lem o.verified o.rva h.verified in
    let p = provenance-from_record symbol o.pair o.provenance h.of_symbol h.of_pair in
    λ i. record { pair = o.pair; rva = o.rva; verified = v i; provenance = p i }

offsets_lem :
    (symbol : SymbolId) (path : FilePath) (offsets : List OffsetRecord)
    → All (IsStorable symbol) offsets
    → offsets_from_raw symbol path (raws_of offsets) ≡ ok offsets
unfolding offsets_from_raw raws_of
offsets_lem symbol path [] h = refl
offsets_lem symbol path (o ∷ offsets) (s, h) =
    rw (parse_gd_version-version_text o.pair.gd path s.major s.minor)
      (rw (offsets_lem symbol path offsets h) (λ i. ok (offset_lem symbol o s i ∷ offsets)))

pub entry_from_raw-raw_entry :
    (entry : CatalogEntry) (path : FilePath)
    → All (IsStorable entry.symbol) entry.offsets
    → entry_from_raw (raw_entry entry) path ≡ ok entry
unfolding entry_from_raw
entry_from_raw-raw_entry entry path h = rw (offsets_lem entry.symbol path entry.offsets h) refl

-- An entry that can be stored is read back from its text as it was, if reading TOML inverts writing
-- it.
pub parse_catalog_entry-serialize_entry :
    (to_toml : RawCatalogEntry → Option (List ℕ)) (from_toml : List ℕ → Option RawCatalogEntry)
    (entry : CatalogEntry) (path : FilePath) (content : List ℕ)
    → ((raw : RawCatalogEntry) (text : List ℕ)
        → to_toml raw ≡ some text
        → from_toml text ≡ some raw)
    → All (IsStorable entry.symbol) entry.offsets
    → serialize_entry to_toml entry ≡ ok content
    → parse_catalog_entry from_toml content path ≡ ok entry
unfolding serialize_entry
parse_catalog_entry-serialize_entry to_toml from_toml entry path content inverse h e =
    elim (Option-cases (to_toml (raw_entry entry))) [
      | inl n ↦ absurd (ground (arith, n, e))
      | inr (text, t) ↦
          let same : text ≡ content = ground (arith, t, e) in
          let read = inverse (raw_entry entry) text t in
          subst (λ t. parse_catalog_entry from_toml t path ≡ ok entry) same
            (rw (read, parse_catalog_entry) (entry_from_raw-raw_entry entry path h))
    ]
