-- ===== src/Tests/Signatures.antt =====
-- Runs of `siggen` on a small binary, and its theorems there.
use pulse_sdk.Prelude.{
  ℕ, ◌+◌, ◌*◌, ◌%◌, ◌<◌, ◌≤◌, ◌≡◌, ◌≢◌, ◌↔◌, refl, true, false, Option, none, some, List, [], ◌∷◌,
  ◌++◌, length, take, drop, get_elem?, contains, All, IsIncreasing, ok, err, ◌==◌, if◌then◌else◌,
  arith,
}
use pulse_sdk.Prelude.Text.{codes, is_whitespace}
use pulse_sdk.Extract.{arm64, x86_64}
use pulse_sdk.Siggen.Signature.{SigByte, fixed, wildcard, ByteSignature, render, parse}
use pulse_sdk.Siggen.Signature.RoundTrip.{IsByte, join, parse-render, parse_at_space}
use pulse_sdk.Siggen.Scan.{scan_all}
use pulse_sdk.Siggen.Scan.Exact.{Occurs, scan_all_iff, scan_all-IsIncreasing, scan_all_unique_iff}
use pulse_sdk.Siggen.Mask.{
  x86_64_object, pc_offset, X86Instruction, call, other_opcode, immediate_i32, Decoders, MaskError,
  architecture_of, mask_window,
}
use pulse_sdk.Siggen.Mask.Agreement.{Masks, mask_window-Masks}
use pulse_sdk.Siggen.Mask.Opcodes.{mask_window-ne-out_of_fuel, mask_window-top-IsFixed, IsFixed}
use pulse_sdk.Siggen.Generate.{GenerateError, max_window_bytes, step_of, generate}
use pulse_sdk.Siggen.Generate.Verified.{
  IsVerified, generate-IsVerified, generate_finds, generate-ne-out_of_fuel,
}

-- A decoder of calls: `e8` and four bytes; any other byte is an instruction of its own.
abbrev decode_calls : List ℕ → Option X86Instruction
decode_calls [] = none
decode_calls (b ∷ bytes) =
    if b == 0xe8
    then some (record { opcode = call; len = 5; operands = immediate_i32 ∷ [] })
    else some (record { opcode = other_opcode; len = 1; operands = [] })

abbrev pub decoders : Decoders
decoders = record {
  object_architecture = λ _. some x86_64_object;
  decode_arm64 = λ _. some (record { invalid = false; operands = pc_offset ∷ [] });
  decode_x86 = decode_calls;
}

abbrev pub program : List ℕ
program = 0x90 ∷ 0xe8 ∷ 1 ∷ 2 ∷ 3 ∷ 4 ∷ 0xc3 ∷ 0x90 ∷ []

abbrev pub call_signature : ByteSignature
call_signature = record { bytes = fixed 0xe8 ∷ wildcard ∷ wildcard ∷ wildcard ∷ wildcard ∷ [] }

pub generate_call : generate decoders program 1 ≡ ok call_signature
unfolding generate architecture_of mask_window scan_all
generate_call = refl

scan_call : scan_all program call_signature ≡ 1 ∷ []
unfolding scan_all
scan_call = refl

mask_call : mask_window decoders (take 5 (drop 1 program)) x86_64 ≡ ok call_signature.bytes
unfolding mask_window
mask_call = refl

abbrev arm64_signature : List SigByte
arm64_signature = wildcard ∷ wildcard ∷ wildcard ∷ fixed 0x94 ∷ []

mask_arm64 : mask_window decoders (1 ∷ 2 ∷ 3 ∷ 0x94 ∷ []) arm64 ≡ ok arm64_signature
unfolding mask_window
mask_arm64 = refl

found_call : architecture_of decoders program ≡ ok x86_64
unfolding architecture_of
found_call = refl

-- The first byte occurs twice.
generate_ambiguous :
    generate decoders (0x90 ∷ 0x90 ∷ []) 0 ≡ ok (record { bytes = fixed 0x90 ∷ fixed 0x90 ∷ [] })
unfolding generate architecture_of mask_window scan_all
generate_ambiguous = refl

generate_none : generate decoders (0x90 ∷ 0x90 ∷ []) 1 ≡ err GenerateError.no_unique_window
unfolding generate architecture_of mask_window scan_all
generate_none = refl

abbrev pub call_text : List ℕ
call_text = codes "E8 ? ? ? ?"

render_call : render call_signature ≡ call_text
unfolding render
render_call = refl

-- The witnesses.
generate-IsVerified_example :
    IsVerified program 1 call_signature × (length call_signature.bytes ≤ max_window_bytes)
generate-IsVerified_example = generate-IsVerified decoders program 1 generate_call

generate_finds_example :
    (sig : ByteSignature) × (generate decoders program 1 ≡ ok sig)
    × (length sig.bytes ≤ step_of x86_64 + 4 * step_of x86_64)
generate_finds_example =
    generate_finds decoders program 1 4 call_signature.bytes found_call (omega arith) (omega arith)
      mask_call ((scan_all_unique_iff program call_signature 1).0 scan_call).1

generate-ne-out_of_fuel_example : generate decoders program 1 ≢ err GenerateError.out_of_fuel
generate-ne-out_of_fuel_example = generate-ne-out_of_fuel decoders program 1

scan_all_iff_example :
    (contains (scan_all program call_signature) 1 ≡ true) ↔ Occurs program call_signature 1
scan_all_iff_example = scan_all_iff program call_signature 1

scan_all_unique_iff_example :
    (scan_all program call_signature ≡ 1 ∷ [])
    ↔ (Occurs program call_signature 1 × ((p : ℕ) → Occurs program call_signature p → p ≡ 1))
scan_all_unique_iff_example = scan_all_unique_iff program call_signature 1

scan_all-IsIncreasing_example : IsIncreasing 0 (scan_all program call_signature)
scan_all-IsIncreasing_example = scan_all-IsIncreasing program call_signature

mask_window-Masks_example : Masks (take 5 (drop 1 program)) call_signature.bytes
mask_window-Masks_example = mask_window-Masks decoders (take 5 (drop 1 program)) x86_64 mask_call

mask_window-ne-out_of_fuel_example : mask_window decoders program x86_64 ≢ err MaskError.out_of_fuel
mask_window-ne-out_of_fuel_example = mask_window-ne-out_of_fuel decoders program x86_64

mask_window-top-IsFixed_example :
    (4 % 4 ≡ 0) × ((k : ℕ) → k * 4 + 3 < 4 → IsFixed (get_elem? arm64_signature (k * 4 + 3)))
mask_window-top-IsFixed_example =
    mask_window-top-IsFixed decoders (1 ∷ 2 ∷ 3 ∷ 0x94 ∷ []) mask_arm64

call_bytes : All IsByte call_signature.bytes
call_bytes = (omega arith, (tt, (tt, (tt, (tt, tt)))))

parse-render_example : parse (render call_signature) ≡ ok call_signature
parse-render_example = parse-render call_signature call_bytes

space_is_whitespace : is_whitespace 32 ≡ true
unfolding is_whitespace
space_is_whitespace = refl

parse_at_space_example :
    parse (codes "E8 ? ?" ++ (32 ∷ codes "? xy"))
    ≡ join (parse (codes "E8 ? ?")) (parse (codes "? xy"))
parse_at_space_example = parse_at_space (codes "E8 ? ?") (codes "? xy") 32 space_is_whitespace
