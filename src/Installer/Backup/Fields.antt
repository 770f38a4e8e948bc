-- ===== src/Installer/Backup/Fields.antt =====
-- The fields of the restore record: `encode_field` and `decode_field` of cli/src/installer.rs.
use pulse_sdk.Prelude.{ℕ, ◌≡◌, ◌≢◌, refl, ap, false, List, [], ◌∷◌, ◌++◌, ◌==◌, All, arith}
use pulse_sdk.Prelude.Utf8.{IsScalar, IsScalarText}
use pulse_sdk.Installer.Backup.{encode_char, encode_field, decode_escape, decode_field}

-- A character that neither separates fields nor ends a line.
abbrev pub IsFieldChar : ℕ → Type 0
IsFieldChar c = (c ≢ 9) × (c ≢ 10) × (c ≢ 13)

-- A character that is no backslash stands for itself.
decode_field_plain :
    (c : ℕ) (rest : List ℕ) → (c == 0x5c) ≡ false → decode_field (c ∷ rest) ≡ c ∷ decode_field rest
unfolding decode_field
decode_field_plain c [] e = refl
decode_field_plain c (c' ∷ rest) e = ground arith

decode_field-encode_char-append :
    (c : ℕ) (rest : List ℕ) → decode_field (encode_char c ++ rest) ≡ c ∷ decode_field rest
unfolding encode_char decode_field decode_escape
decode_field-encode_char-append c rest = ground (arith, decode_field_plain c rest)

-- Decoding an encoded field gives the field back, whatever characters it has.
pub decode_field-encode_field : (value : List ℕ) → decode_field (encode_field value) ≡ value
unfolding encode_field decode_field
decode_field-encode_field [] = refl
decode_field-encode_field (c ∷ value) =
    rw decode_field-encode_char-append (ap (λ v. c ∷ v) (decode_field-encode_field value))

encode_char-IsFieldChar :
    (c : ℕ) (rest : List ℕ) → All IsFieldChar rest → All IsFieldChar (encode_char c ++ rest)
unfolding encode_char
encode_char-IsFieldChar c rest h = ground arith

-- An encoded field has no tab and no end of a line, so a record of fields splits where it was
-- joined.
pub encode_field-IsFieldChar : (value : List ℕ) → All IsFieldChar (encode_field value)
unfolding encode_field
encode_field-IsFieldChar [] = tt
encode_field-IsFieldChar (c ∷ value) =
    encode_char-IsFieldChar c (encode_field value) (encode_field-IsFieldChar value)

encode_char-IsScalarText :
    (c : ℕ) (rest : List ℕ) → IsScalar c → IsScalarText rest → IsScalarText (encode_char c ++ rest)
unfolding encode_char
encode_char-IsScalarText c rest s h = ground arith

pub encode_field-IsScalarText :
    (value : List ℕ) → IsScalarText value → IsScalarText (encode_field value)
unfolding encode_field
encode_field-IsScalarText [] h = tt
encode_field-IsScalarText (c ∷ value) (s, h) =
    encode_char-IsScalarText c (encode_field value) s (encode_field-IsScalarText value h)
