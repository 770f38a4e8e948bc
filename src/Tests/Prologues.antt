-- ===== src/Tests/Prologues.antt =====
-- The check of a prologue in a small binary, and the gate behind it.
use pulse_sdk.Prelude.{
  ℕ, ◌≡◌, ◌≢◌, ◌↔◌, refl, Bool, true, false, Option, none, some, List, [], ◌∷◌, replicate, ◌==◌,
  if◌then◌else◌,
}
use pulse_sdk.Bindings.{sentinel_value, TargetPair, macos_arm64}
use pulse_sdk.Extract.{arm64, x86_64}
use pulse_sdk.Extract.Prologue.{
  Section, Arm64Opcode, X86Opcode, X86Instruction, Disassembler, plausible_entry, not_plausible,
  return_or_trap, returns, skipped, unreadable_prologue, read_prologue_window, arm64_loop, x86_loop,
  check_prologue, max_len_of, verified_flag,
}
use pulse_sdk.Extract.Prologue.Window.{IsWindowOf, Any}
use pulse_sdk.Extract.Prologue.Plausible.{IsEntry, check_prologue-plausible_iff}
use pulse_sdk.Extract.Provenance.{symbol_table, from_symbol_table}
use pulse_sdk.Extract.Provenance.Emission.{new_provenance, emit_offset}
use pulse_sdk.Extract.Provenance.Emission.Gate.{emit_offset-verified_iff}

-- A byte 2 begins a return, every other an instruction of three bytes on x86-64.
abbrev arm64_opcode : List ℕ → Option Arm64Opcode
arm64_opcode [] = none
arm64_opcode (b ∷ bytes) = some (if b == 2 then Arm64Opcode.ret else Arm64Opcode.other)

abbrev x86_instruction : List ℕ → Option X86Instruction
x86_instruction [] = none
x86_instruction (b ∷ bytes) =
    some (record { opcode = if b == 2 then X86Opcode.return else X86Opcode.other; len = 3 })

-- One section, from address 64 on.
abbrev disassembler : Disassembler
disassembler = record {
  sections = λ bytes. some (record { address = 64; size = 40; bytes = some bytes } ∷ []);
  decode_arm64 = arm64_opcode;
  decode_x86 = x86_instruction;
}

abbrev program : List ℕ
program = 2 ∷ replicate 39 7

plausible_arm64 : check_prologue disassembler program 68 arm64 ≡ some plausible_entry
unfolding check_prologue arm64_loop
plausible_arm64 = refl

plausible_x86 : check_prologue disassembler program 66 x86_64 ≡ some plausible_entry
unfolding check_prologue x86_loop
plausible_x86 = refl

begins_with_return :
    check_prologue disassembler program 64 x86_64 ≡ some (not_plausible (return_or_trap returns))
unfolding check_prologue x86_loop
begins_with_return = refl

ends_early : check_prologue disassembler program 96 arm64 ≡ some (skipped unreadable_prologue)
unfolding check_prologue
ends_early = refl

abbrev at : ℕ
at = 68

abbrev pair : TargetPair
pair = record { gd = record { major = 2; minor = 2081 }; platform = macos_arm64 }

-- The witnesses.
check_prologue-plausible_iff_example :
    (check_prologue disassembler program 68 arm64 ≢ none)
    × ((check_prologue disassembler program 68 arm64 ≡ some plausible_entry) ↔ (
        (at ≢ 0)
        × (at ≢ sentinel_value)
        × (window : List ℕ) × (read_prologue_window disassembler program 68 16
              (max_len_of disassembler arm64)
            ≡ some window)
        × IsEntry disassembler arm64 window))
    × ((window : List ℕ)
        → read_prologue_window disassembler program 68 16 (max_len_of disassembler arm64)
          ≡ some window
        → (sections : List Section) × (disassembler.sections program ≡ some sections)
          × Any (IsWindowOf 68 16 window) sections)
check_prologue-plausible_iff_example = check_prologue-plausible_iff disassembler program 68 arm64

emit_offset-verified_iff_example :
    let provenance =
      new_provenance symbol_table (from_symbol_table 68) [] (some plausible_entry) none in
    let emitted = emit_offset (7 ∷ []) pair 68 (verified_flag 68 plausible_entry) provenance in
    (emitted.1 ≡ none)
    × (emitted.0.offset ≡ 68)
    × ((emitted.0.verified ≡ true) ↔ (
        (at ≢ 0)
        × (at ≢ sentinel_value)
        × (window : List ℕ) × (read_prologue_window disassembler program 68 16
              (max_len_of disassembler arm64)
            ≡ some window)
        × IsEntry disassembler arm64 window))
    × ((requested : Bool)
        → (emit_offset
            (7 ∷ [])
            pair
            68
            requested
            (new_provenance symbol_table (from_symbol_table 68) [] none none)).0.verified
          ≡ false)
emit_offset-verified_iff_example =
    emit_offset-verified_iff disassembler program 68 arm64 plausible_entry (7 ∷ []) pair
      symbol_table (from_symbol_table 68) [] none plausible_arm64
