-- ===== src/Bindings/Contribution/Stem.antt =====
-- The names of the catalogue's files: cli/src/bindings/contribution.rs. SHA-256 is a parameter.
use pulse_sdk.Prelude.{
  ℕ, ◌+◌, ◌-◌, ◌/◌, ◌%◌, Bool, true, false, ◌&&◌, ◌||◌, List, [], ◌∷◌, ◌++◌, ltb, ◌==◌,
  if◌then◌else◌, length, take,
}
use pulse_sdk.Prelude.Text.{codes, in_range, utf8}
use pulse_sdk.Prelude.Radix.{hex_upper}
use pulse_sdk.Bindings.{SymbolId}
use pulse_sdk.Installer.Paths.{FilePath, join}

abbrev pub max_stem_len : ℕ
max_stem_len = 200

abbrev pub is_stem_safe : ℕ → Bool
is_stem_safe c =
    in_range b'0' b'9' c
    || (in_range b'A' b'Z' c || (in_range b'a' b'z' c || (c == b'_' || (c == b'.' || c == b'-'))))

-- `replace("::", "__")`
unfoldable pub replace_scope : List ℕ → List ℕ
replace_scope [] = []
replace_scope (c ∷ []) = c ∷ []
replace_scope (c ∷ d ∷ text) = elim (c == b':' && d == b':') [
  | true ↦ b'_' ∷ b'_' ∷ replace_scope text
  | false ↦ c ∷ replace_scope (d ∷ text)
]

abbrev pub escape_char : ℕ → List ℕ
escape_char c = if is_stem_safe c then c ∷ [] else (codes "_x" ++ (hex_upper c ++ b'_' ∷ []))

unfoldable pub escape_text : List ℕ → List ℕ
escape_text [] = []
escape_text (c ∷ text) = escape_char c ++ escape_text text

abbrev pub lower_hex : ℕ → ℕ
lower_hex d = if ltb d 10 then b'0' + d else b'a' + (d - 10)

unfoldable pub hex_pairs : List ℕ → List ℕ
hex_pairs [] = []
hex_pairs (byte ∷ bytes) = lower_hex (byte / 16) ∷ lower_hex (byte % 16) ∷ hex_pairs bytes

module _ (sha256 : List ℕ → List ℕ) where
  -- The first eight bytes of the digest.
  abbrev pub stem_hash_suffix : List ℕ → List ℕ
  stem_hash_suffix symbol = hex_pairs (take 8 (sha256 (utf8 symbol)))

  -- The stem is ASCII, so its length in bytes is that in characters.
  unfoldable pub symbol_file_stem : SymbolId → List ℕ
  unfolding replace_scope escape_text hex_pairs
  symbol_file_stem symbol =
      let stem = escape_text (replace_scope symbol) in
      if ltb max_stem_len (length stem)
      then (take max_stem_len stem ++ (codes "__h" ++ stem_hash_suffix symbol))
      else stem

  unfoldable pub symbol_file_path : FilePath → SymbolId → FilePath
  unfolding symbol_file_stem
  symbol_file_path catalog_root symbol =
      join (join catalog_root (codes "symbols")) (symbol_file_stem symbol ++ codes ".toml")
