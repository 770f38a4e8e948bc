-- ===== src/Bindings/Contribution/Names.antt =====
-- The names of the catalogue's files are file names.
use pulse_sdk.Prelude.{
  ℕ, ◌*◌, ◌/◌, ◌%◌, ◌<◌, ◌≤◌, ◌≡◌, refl, true, List, [], ◌∷◌, ◌++◌, ltb, arith, All, All-append,
  All-take, Bool-cases, inl, inr, length, length-append, length-take, take,
}
use pulse_sdk.Prelude.Text.{codes, utf8}
use pulse_sdk.Prelude.Radix.{hex_upper, hex_upper-All}
use pulse_sdk.Bindings.{SymbolId}
use pulse_sdk.Bindings.Contribution.Stem.{
  max_stem_len, is_stem_safe, replace_scope, escape_char, escape_text, lower_hex, hex_pairs,
  stem_hash_suffix, symbol_file_stem,
}

abbrev pub IsSafe : ℕ → Type 0
IsSafe c = is_stem_safe c ≡ true

escape_char-IsSafe : (c : ℕ) → All IsSafe (escape_char c)
escape_char-IsSafe c = elim (Bool-cases (is_stem_safe c)) [
  | inl e ↦ rw e (e, tt)
  | inr e ↦ rw e (
    refl,
    (
      refl,
      All-append IsSafe (hex_upper c) (b'_' ∷ []) (hex_upper-All IsSafe c (λ d h. ground arith))
          (refl, tt),
    ),
  )
]

escape_text-IsSafe : (text : List ℕ) → All IsSafe (escape_text text)
unfolding escape_text
escape_text-IsSafe [] = tt
escape_text-IsSafe (c ∷ text) =
    All-append IsSafe (escape_char c) (escape_text text) (escape_char-IsSafe c)
      (escape_text-IsSafe text)

lower_hex-IsSafe : (d : ℕ) → d < 16 → IsSafe (lower_hex d)
lower_hex-IsSafe d h = ground arith

hex_pairs-IsSafe :
    (bytes : List ℕ)
    → All (λ b. b < 256) bytes
    → All IsSafe (hex_pairs bytes) × (length (hex_pairs bytes) ≡ 2 * length bytes)
unfolding hex_pairs
hex_pairs-IsSafe [] h = (tt, refl)
hex_pairs-IsSafe (byte ∷ bytes) (b, h) =
    let (safe, count) = hex_pairs-IsSafe bytes h in
    (
      (
        lower_hex-IsSafe (byte / 16) (omega arith),
        (lower_hex-IsSafe (byte % 16) (omega arith), safe),
      ),
      omega (arith, count),
    )

-- The stem of a symbol's file has ASCII letters, digits, underscores, dots and hyphens only, and at
-- most 219 of them, whatever the symbol, if the digest consists of bytes.
pub symbol_file_stem-IsSafe :
    (sha256 : List ℕ → List ℕ) (symbol : SymbolId)
    → All (λ b. b < 256) (sha256 (utf8 symbol))
    → All IsSafe (symbol_file_stem sha256 symbol) × (length (symbol_file_stem sha256 symbol) ≤ 219)
unfolding symbol_file_stem
symbol_file_stem-IsSafe sha256 symbol h =
    let stem = escape_text (replace_scope symbol) in
    let digest = sha256 (utf8 symbol) in
    let safe = escape_text-IsSafe (replace_scope symbol) in
    let (suffix_safe, count) =
      hex_pairs-IsSafe (take 8 digest) (All-take (λ b. b < 256) 8 digest h) in
    elim (Bool-cases (ltb max_stem_len (length stem))) [
      | inl e ↦ rw e (
        All-append IsSafe (take max_stem_len stem) (codes "__h" ++ stem_hash_suffix sha256 symbol)
            (All-take IsSafe max_stem_len stem safe) (refl, (refl, (refl, suffix_safe))),
        omega (
          arith,
          length-append (take max_stem_len stem) (codes "__h" ++ stem_hash_suffix sha256 symbol),
          length-take max_stem_len stem,
          length-take 8 digest,
          count,
        ),
      )
      | inr e ↦ rw e (safe, ground arith)
    ]
