-- ===== src/CheckOffsets.antt =====
-- `check-offsets`, cli/src/checkoffsets.rs, with `parse_offset` of cli/src/cli.rs and
-- `OffsetDeclaration` of cli/src/manifest.rs.
pub mod Meaning
pub mod Delta
pub mod Generated
use pulse_sdk.Prelude.{
  ℕ, ◌+◌, ◌-◌, ◌%◌, ◌^◌, Option, none, some, List, [], ◌∷◌, map, length, is_empty, contains, ltb,
  ◌==◌, ◌&&◌, ◌||◌, if◌then◌else◌, Result, ok, err,
}
use pulse_sdk.Prelude.Int.{ℤ, pos, negsuc}
use pulse_sdk.Prelude.Text.{from_str_radix}
use pulse_sdk.Siggen.Signature
use pulse_sdk.Siggen.Signature.{ByteSignature, AobParseError, is_empty_signature}
use pulse_sdk.Siggen.Scan.{scan_all}

-- `parse_offset`: `0x` or `0X` and hexadecimal digits, or decimal digits, into a `u64`.
unfoldable pub parse_offset : List ℕ → Option ℕ
unfolding from_str_radix
parse_offset (c ∷ x ∷ hex) =
    if c == b'0' && (x == b'x' || x == b'X')
    then from_str_radix 16 (2 ^ 64) hex
    else from_str_radix 10 (2 ^ 64) (c ∷ x ∷ hex)
parse_offset value = from_str_radix 10 (2 ^ 64) value

pub record OffsetDeclaration : Type 0 where
  pub name : List ℕ
  pub offset : List ℕ
  pub signature : Option (List ℕ)

-- The reasons that the messages give.
pub data Reason : Type 0 where
  bad_offset no_signature empty_signature : Reason
  bad_signature : AobParseError → Reason
  ambiguous : ℕ → Reason

pub data Verdict : Type 0 where
  valid invalid : Verdict
  shifted : (detected : ℕ) (delta : ℤ) → Verdict
  undeterminable : Reason → Verdict

pub record OffsetVerdict : Type 0 where
  pub name : List ℕ
  pub declared : ℕ
  pub verdict : Verdict

-- The number that a 64-bit pattern stands for as an `i64`.
abbrev signed64 : ℕ → ℤ
signed64 w = if ltb w (2 ^ 63) then pos w else negsuc (2 ^ 64 - w - 1)

-- `detected as i64 - declared as i64`, which wraps in a release build.
unfoldable pub delta_of : ℕ → ℕ → ℤ
delta_of detected declared = signed64 ((detected + 2 ^ 64 - declared) % 2 ^ 64)

-- The verdict on the matches of the scan.
verdict_of : List ℕ → ℕ → Verdict
unfolding delta_of
verdict_of [] declared = invalid
verdict_of (first ∷ rest) declared =
    if contains (first ∷ rest) declared
    then valid
    else if length (first ∷ rest) == 1
    then shifted first (delta_of first declared)
    else undeterminable (ambiguous (length (first ∷ rest)))

-- From the text of the signature on.
classify_signature : List ℕ → ℕ → List ℕ → Verdict
unfolding verdict_of
classify_signature binary declared text = elim (Signature.parse text) [
  | err e ↦ undeterminable (bad_signature e)
  | ok sig ↦
      if is_empty_signature sig
      then undeterminable empty_signature
      else verdict_of (scan_all binary sig) declared
]

unfoldable pub classify : List ℕ → OffsetDeclaration → OffsetVerdict
unfolding classify_signature
classify binary decl = elim (parse_offset decl.offset) [
  | none ↦ record { name = decl.name; declared = 0; verdict = undeterminable bad_offset }
  | some declared ↦ record {
    name = decl.name;
    declared = declared;
    verdict = elim decl.signature [
      | none ↦ undeterminable no_signature
      | some text ↦ classify_signature binary declared text
    ];
  }
]

unfoldable pub check_all : List ℕ → List OffsetDeclaration → List OffsetVerdict
unfolding classify
check_all binary decls = map (classify binary) decls
