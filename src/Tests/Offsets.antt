-- ===== src/Tests/Offsets.antt =====
-- Runs of `check-offsets`, and its theorems at concrete declarations.
use pulse_sdk.Prelude.{ℕ, ◌+◌, ◌<◌, ◌^◌, ◌≡◌, ◌↔◌, refl, some, List, [], ◌∷◌, ok, All, arith}
use pulse_sdk.Prelude.Int.{pos, negsuc, sub_ℕ}
use pulse_sdk.Prelude.Text.{codes, is_whitespace, byte_len}
use pulse_sdk.Siggen.Signature
use pulse_sdk.Siggen.Signature.{ByteSignature, parse}
use pulse_sdk.Siggen.Scan.{scan_all}
use pulse_sdk.CheckOffsets.{
  parse_offset, OffsetDeclaration, valid, shifted, undeterminable, bad_offset, delta_of, classify,
  check_all,
}
use pulse_sdk.CheckOffsets.Meaning.{Holds, IsConfirmed, classify-Holds, classify_valid_iff}
use pulse_sdk.CheckOffsets.Delta.{delta_of-eq-sub_ℕ, delta_of-sign}
use pulse_sdk.CheckOffsets.Generated.{classify-generate}
use pulse_sdk.Tests.Signatures.{decoders, program, call_signature, call_text, generate_call}

program_bytes : All (λ b. b < 256) program
program_bytes = (
  omega arith,
  (
    omega arith,
    (omega arith, (omega arith, (omega arith, (omega arith, (omega arith, (omega arith, tt)))))),
  ),
)

abbrev declared_at : List ℕ → OffsetDeclaration
declared_at offset = record { name = codes "a"; offset = offset; signature = some call_text }

parse_call : parse call_text ≡ ok call_signature
unfolding parse is_whitespace byte_len
parse_call = refl

offset_1 : parse_offset (codes "0x1") ≡ some 1
unfolding parse_offset
offset_1 = refl

offset_plus : parse_offset (codes "0x+1") ≡ some 1
unfolding parse_offset
offset_plus = refl

check_two :
    check_all program
      (declared_at (codes "0x1") ∷ declared_at (codes "3") ∷ declared_at (codes "x") ∷ [])
    ≡ record { name = codes "a"; declared = 1; verdict = valid }
      ∷ record { name = codes "a"; declared = 3; verdict = shifted 1 (negsuc 1) }
      ∷ record { name = codes "a"; declared = 0; verdict = undeterminable bad_offset }
      ∷ []
unfolding check_all parse_offset parse is_whitespace byte_len scan_all
check_two = refl

-- The witnesses.
classify_valid_iff_example :
    ((classify program (declared_at (codes "0x1"))).verdict ≡ valid)
    ↔ IsConfirmed program (declared_at (codes "0x1"))
classify_valid_iff_example = classify_valid_iff program (declared_at (codes "0x1"))

classify-Holds_example :
    Holds program 1 call_signature (classify program (declared_at (codes "0x1"))).verdict
classify-Holds_example =
    classify-Holds program (declared_at (codes "0x1")) 1 call_text call_signature offset_1 refl
      parse_call (omega arith)

classify-generate_example :
    (classify program (record {
      name = codes "a";
      offset = codes "0x1";
      signature = some (Signature.render call_signature);
    })).verdict
    ≡ valid
classify-generate_example =
    classify-generate decoders program 1 call_signature (codes "a") (codes "0x1") program_bytes
      generate_call offset_1

delta_of-eq-sub_ℕ_example : delta_of 1 3 ≡ sub_ℕ 1 3
delta_of-eq-sub_ℕ_example = delta_of-eq-sub_ℕ 1 3 (omega arith) (omega arith)

delta_of-sign_example : (n : ℕ) × (delta_of 1 (2 ^ 63 + 2) ≡ pos n)
delta_of-sign_example = delta_of-sign 1 (2 ^ 63 + 2) (omega arith) (omega arith)
