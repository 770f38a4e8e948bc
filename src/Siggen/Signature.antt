-- ===== src/Siggen/Signature.antt =====
-- The signature model of cli/src/siggen/signature.rs: byte patterns with wildcards, and their text.
pub mod RoundTrip
use pulse_sdk.Prelude.{
  ℕ, ◌+◌, ◌-◌, ◌/◌, ◌%◌, Bool, ◌&&◌, Option, none, some, List, [], ◌∷◌, ◌++◌, is_empty, list_eq,
  ltb, ◌==◌, if◌then◌else◌, Result, ok, err, ◌>>=◌,
}
use pulse_sdk.Prelude.Text.{
  words, is_whitespace, byte_len, all_chars, is_ascii_hexdigit, from_str_radix,
}

-- `SigByte`
pub data SigByte : Type 0 where
  fixed : ℕ → SigByte
  wildcard : SigByte

-- `ByteSignature`
pub record ByteSignature : Type 0 where
  pub bytes : List SigByte

-- `AobParseError`
pub record AobParseError : Type 0 where
  pub token : List ℕ

abbrev pub is_empty_signature : ByteSignature → Bool
is_empty_signature sig = is_empty sig.bytes

-- An upper-case hexadecimal digit.
hex_digit : ℕ → ℕ
hex_digit d = if ltb d 10 then b'0' + d else b'A' + (d - 10)

-- `{byte:02X}`, or `?`
render_byte : SigByte → List ℕ
unfolding hex_digit
render_byte (fixed byte) = hex_digit (byte / 16) ∷ hex_digit (byte % 16) ∷ []
render_byte wildcard = b'?' ∷ []

-- `for (i, b) in self.bytes.iter().enumerate()`
render_loop : ℕ → List SigByte → List ℕ
render_loop i [] = []
render_loop i (b ∷ bytes) =
    (if ltb 0 i then b' ' ∷ [] else []) ++ (render_byte b ++ render_loop (i + 1) bytes)

unfoldable pub render : ByteSignature → List ℕ
unfolding render_loop render_byte
render sig = render_loop 0 sig.bytes

-- The body of the loop of `parse`.
parse_token : List ℕ → Result AobParseError SigByte
unfolding all_chars byte_len from_str_radix
parse_token token =
    if list_eq token (b'?' ∷ [])
    then ok wildcard
    else if byte_len token == 2 && all_chars is_ascii_hexdigit token
    then elim (from_str_radix 16 256 token) [
      | none ↦ err (record { token = token })
      | some value ↦ ok (fixed value)
    ]
    else err (record { token = token })

-- `for token in text.split_whitespace()`
parse_tokens : List (List ℕ) → Result AobParseError (List SigByte)
parse_tokens [] = ok []
parse_tokens (token ∷ tokens) = do
  b ← parse_token token
  bytes ← parse_tokens tokens
  ok (b ∷ bytes)

unfoldable pub parse : List ℕ → Result AobParseError ByteSignature
unfolding parse_tokens parse_token words is_whitespace
parse text = do bytes ← parse_tokens (words is_whitespace text); ok (record { bytes = bytes })
