-- ===== src/Installer/Load/Plain.antt =====
-- The texts that a restore record may hold: fields without separators, of Unicode scalar values.
use pulse_sdk.Prelude.{
  ℕ, ◌≡◌, refl, ◌/◌, ◌%◌, zero, suc, none, get_elem?, Bool, true, ◌&&◌, ◌||◌, not, ◌==◌, ltb, List,
  [], ◌∷◌, some, All, All-append, arith, inl,
}
use pulse_sdk.Prelude.Text.{codes, all_chars, decimal}
use pulse_sdk.Prelude.Digits.{decimal-All}
use pulse_sdk.Prelude.Utf8.{IsScalar, IsScalarText}
use pulse_sdk.Installer.Fs.{Bytes}
use pulse_sdk.Installer.Backup.Fields.{IsFieldChar}
use pulse_sdk.Installer.Load.{sha256_hex, hex_text, hex_char}
use pulse_sdk.Installer.Load.Fields.{IsField}
use pulse_sdk.Installer.Load.Stored.{orig_name}

abbrev is_plain : ℕ → Bool
is_plain c = not (c == 9 || c == 10 || c == 13)

abbrev pub IsRecordText : List ℕ → Type 0
IsRecordText text = IsField text × IsScalarText text

-- A text of characters below 128 that are no control characters.
pub plain_text :
    (text : List ℕ) → all_chars (λ c. is_plain c && ltb c 128) text ≡ true → IsRecordText text
unfolding all_chars
plain_text [] h = (tt, tt)
plain_text (c ∷ text) h =
    let (f, s) = plain_text text (ground arith) in
    (((λ e. ground arith, λ e. ground arith, λ e. ground arith), f), (inl (ground arith), s))

-- The text of a digest has hexadecimal digits only.
hex_char-IsRecordChar : (n : ℕ) → IsFieldChar (hex_char n) × IsScalar (hex_char n)
hex_char-IsRecordChar n =
    let (f, t) = plain_text (codes "0123456789abcdef") (unfold all_chars in refl) in
    (
      pick IsFieldChar (codes "0123456789abcdef") f n
          (λ e. omega arith, λ e. omega arith, λ e. omega arith),
      pick IsScalar (codes "0123456789abcdef") t n (inl (omega arith)),
    )
  where
    pick :
        (P : ℕ → Type 0) (text : List ℕ)
        → All P text
        → (n : ℕ) → P 0
        → P (elim (get_elem? text n) [ none ↦ 0 | some c ↦ c ])
    pick P [] h n z = z
    pick P (c ∷ text) (h, k) zero z = h
    pick P (c ∷ text) (h, k) (suc n) z = pick P text k n z

pub sha256_hex-IsRecordText :
    (digest : Bytes → Bytes) (bytes : Bytes) → IsRecordText (sha256_hex digest bytes)
unfolding sha256_hex
sha256_hex-IsRecordText digest bytes = text_of (digest bytes)
  where
    text_of : (b : Bytes) → IsRecordText (hex_text b)
    text_of [] = (tt, tt)
    text_of (x ∷ b) =
        let (f, t) = hex_char-IsRecordChar (x / 16) in
        let (f', t') = hex_char-IsRecordChar (x % 16) in
        let (fs, ts) = text_of b in ((f, (f', fs)), (t, (t', ts)))

pub orig_name-IsRecordText : (idx : ℕ) → IsRecordText (orig_name idx)
orig_name-IsRecordText idx =
    let (f, t) = plain_text (codes ".orig") (unfold all_chars in refl) in
    (
      All-append IsFieldChar (decimal idx) (codes ".orig")
          (decimal-All IsFieldChar idx
            (λ d h. (λ e. omega arith, λ e. omega arith, λ e. omega arith)))
          f,
      All-append IsScalar (decimal idx) (codes ".orig")
          (decimal-All IsScalar idx (λ d h. inl (omega arith))) t,
    )
