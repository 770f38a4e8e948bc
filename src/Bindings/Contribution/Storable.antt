-- ===== src/Bindings/Contribution/Storable.antt =====
-- What a file of the catalogue holds can be stored again.
use pulse_sdk.Prelude.{
  ℕ, ◌+◌, ◌*◌, ◌^◌, ◌<◌, ◌≡◌, refl, sym, ◌∙◌, Bool, true, false, ◌&&◌, Option, none, some, List, [],
  ◌∷◌, Result, ok, ok-injective, ◌>>=◌, >>=-eq-ok, ltb, ◌==◌, arith, Bool-cases, Option-cases, inl,
  inr, All,
}
use mathlib.Core.Path.{subst}
use pulse_sdk.Prelude.Text.{to_digit, digits_value, from_str_radix}
use pulse_sdk.Prelude.Trim.{split_once}
use pulse_sdk.Bindings.{SymbolId, GdVersion}
use pulse_sdk.Bindings.Catalog.{OffsetRecord, CatalogEntry}
use pulse_sdk.Bindings.Catalog.Raw.{
  RawCatalogEntry, RawOffset, RawProvenance, CatalogError, parse_gd_version, offsets_from_raw,
  entry_from_raw, provenance_of, offset_from_raw, catalog_schema_version, is_some_rva,
}
use pulse_sdk.Bindings.Catalog.Load.{load_catalog_entry}
use pulse_sdk.Bindings.Contribution.Stored.{IsStorable}
use pulse_sdk.Installer.Fs.{Fs, read_to_string}
use pulse_sdk.Installer.Paths.{FilePath, key}

digits_value-lt :
    (radix limit acc : ℕ) (text : List ℕ) {n : ℕ}
    → acc < limit
    → digits_value radix limit acc text ≡ some n
    → n < limit
unfolding digits_value
digits_value-lt radix limit acc [] h e = ground (arith, e)
digits_value-lt radix limit acc (c ∷ text) h e = elim (Option-cases (to_digit radix c)) [
  | inl d ↦ absurd (ground (arith, d, e))
  | inr (d, q) ↦ elim (Bool-cases (ltb (acc * radix + d) limit)) [
    | inl l ↦
        digits_value-lt radix limit (acc * radix + d) text (ground arith) (ground (arith, q, e))
    | inr l ↦ absurd (ground (arith, q, e))
  ]
]

from_str_radix-lt :
    (radix limit : ℕ) (text : List ℕ) {n : ℕ}
    → 0 < limit
    → from_str_radix radix limit text ≡ some n
    → n < limit
unfolding from_str_radix
from_str_radix-lt radix limit [] h e = cc
from_str_radix-lt radix limit (c ∷ []) h e = digits_value-lt radix limit 0 (c ∷ []) h e
from_str_radix-lt radix limit (c ∷ d ∷ text) h e = elim (Bool-cases (c == b'+')) [
  | inl s ↦ digits_value-lt radix limit 0 (d ∷ text) h (ground (arith, s, e))
  | inr s ↦ digits_value-lt radix limit 0 (c ∷ d ∷ text) h (ground (arith, s, e))
]

parse_step :
    (value : List ℕ) (path : FilePath) {a b : List ℕ} {major minor : ℕ}
    → split_once b'.' value ≡ some (a, b)
    → from_str_radix 10 (2 ^ 32) a ≡ some major
    → from_str_radix 10 (2 ^ 32) b ≡ some minor
    → parse_gd_version value path ≡ ok (record { major = major; minor = minor })
unfolding parse_gd_version
parse_step value path s m k = rw (s, parse_gd_version) (rw (m, k) refl)

parse_gd_version-lt :
    (value : List ℕ) (path : FilePath) (gd : GdVersion)
    → parse_gd_version value path ≡ ok gd
    → (gd.major < 2 ^ 32) × (gd.minor < 2 ^ 32)
unfolding parse_gd_version
parse_gd_version-lt value path gd e = elim (Option-cases (split_once b'.' value)) [
  | inl s ↦ absurd (ground (arith, s, e))
  | inr ((a, b), s) ↦ elim (Option-cases (from_str_radix 10 (2 ^ 32) a)) [
    | inl m ↦ absurd (ground (arith, s, m, e))
    | inr (major, m) ↦ elim (Option-cases (from_str_radix 10 (2 ^ 32) b)) [
      | inl k ↦ absurd (ground (arith, s, m, k, e))
      | inr (minor, k) ↦
          let l = from_str_radix-lt 10 (2 ^ 32) a (omega arith) m in
          let l' = from_str_radix-lt 10 (2 ^ 32) b (omega arith) k in
          let f = parse_step value path s m k in
          let r : ◌≡◌ {A = Result CatalogError GdVersion}
              (ok (record { major = major; minor = minor })) (ok gd) =
            sym f ∙ e in
          subst (λ (g : GdVersion). (g.major < 2 ^ 32) × (g.minor < 2 ^ 32)) (ok-injective r)
            (l, l')
    ]
  ]
]

offset_from_raw-IsStorable :
    (symbol : SymbolId) (raw : RawOffset) (gd : GdVersion)
    → gd.major < 2 ^ 32
    → gd.minor < 2 ^ 32
    → IsStorable symbol (offset_from_raw symbol raw gd)
offset_from_raw-IsStorable symbol raw gd h k =
    let (s, p) = same raw.provenance in
    record {
      major = h;
      minor = k;
      verified = λ e. unverified raw.verified raw.rva e;
      of_symbol = s;
      of_pair = p;
    }
  where
    unverified :
        (verified : Bool) (rva : Option ℕ) → rva ≡ none → (verified && is_some_rva rva) ≡ false
    unverified true rva e = rw e refl
    unverified false rva e = refl

    same :
        (p : Option RawProvenance)
        → ((provenance_of symbol (record { gd = gd; platform = raw.platform }) p).symbol ≡ symbol)
          × ((provenance_of symbol (record { gd = gd; platform = raw.platform }) p).pair
              ≡ record { gd = gd; platform = raw.platform })
    same none = (refl, refl)
    same (some p) = (refl, refl)

offsets_from_raw-IsStorable :
    (symbol : SymbolId) (path : FilePath) (raws : List RawOffset) (offsets : List OffsetRecord)
    → offsets_from_raw symbol path raws ≡ ok offsets
    → All (IsStorable symbol) offsets
unfolding offsets_from_raw
offsets_from_raw-IsStorable symbol path [] offsets e =
    let r : ◌≡◌ {A = Result CatalogError (List OffsetRecord)} (ok []) (ok offsets) = e in
    subst (All (IsStorable symbol)) (ok-injective r) tt
offsets_from_raw-IsStorable symbol path (raw ∷ raws) offsets e =
    let (gd, g, e1) =
      >>=-eq-ok (parse_gd_version raw.gd_version path)
        (λ gd. offsets_from_raw symbol path raws >>= λ os. ok (offset_from_raw symbol raw gd ∷ os))
        e in
    let (rest, r, e2) =
      >>=-eq-ok (offsets_from_raw symbol path raws) (λ os. ok (offset_from_raw symbol raw gd ∷ os))
        e1 in
    let (major, minor) = parse_gd_version-lt raw.gd_version path gd g in
    subst (All (IsStorable symbol)) (ok-injective e2) (
      offset_from_raw-IsStorable symbol raw gd major minor,
      offsets_from_raw-IsStorable symbol path raws rest r,
    )

abbrev built : RawCatalogEntry → List OffsetRecord → Result CatalogError CatalogEntry
built raw offsets = ok (record {
  symbol = raw.symbol;
  signature = record {
    return_type = raw.signature.return_type;
    param_types = raw.signature.params;
  };
  offsets = offsets;
})

entry_from_raw-IsStorable :
    (raw : RawCatalogEntry) (path : FilePath) (entry : CatalogEntry)
    → entry_from_raw raw path ≡ ok entry
    → All (IsStorable entry.symbol) entry.offsets
unfolding entry_from_raw
entry_from_raw-IsStorable raw path entry e =
    elim (Bool-cases (raw.schema_version == catalog_schema_version)) [
      | inr b ↦ absurd (ground (arith, b, e))
      | inl b ↦
          let f : (offsets_from_raw raw.symbol path raw.offset >>= built raw) ≡ ok entry =
            ground (arith, b, e) in
          let (offsets, o, e') =
            >>=-eq-ok (offsets_from_raw raw.symbol path raw.offset) (built raw) f in
          subst (λ (k : CatalogEntry). All (IsStorable k.symbol) k.offsets) (ok-injective e')
            (offsets_from_raw-IsStorable raw.symbol path raw.offset offsets o)
    ]

-- What is loaded can be stored.
pub load_catalog_entry-IsStorable :
    (from_toml : List ℕ → Option RawCatalogEntry) (path : FilePath) (fs : Fs) (entry : CatalogEntry)
    → (load_catalog_entry from_toml path fs).0 ≡ ok entry
    → All (IsStorable entry.symbol) entry.offsets
unfolding load_catalog_entry
load_catalog_entry-IsStorable from_toml path fs entry e =
    elim (Option-cases (read_to_string (key path) fs).0) [
      | inl n ↦ absurd (ground (arith, n, e))
      | inr (text, n) ↦ elim (Option-cases (from_toml text)) [
        | inl t ↦ absurd (ground (arith, n, t, e))
        | inr (raw, t) ↦ entry_from_raw-IsStorable raw path entry (ground (arith, n, t, e))
      ]
    ]
