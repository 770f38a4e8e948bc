-- ===== src/Siggen/Mask.antt =====
-- Instruction-aware masking, cli/src/siggen/mask.rs. The instruction decoders (yaxpeax-arm and
-- yaxpeax-x86) and the `object` crate's format detection are not part of the repository: they are
-- the fields of `Decoders`. A decoder reads at the front of the bytes that it is given, which are
-- the window from the reader's position on; the reader has advanced by the lengths of the
-- instructions before.
pub mod Agreement
pub mod Opcodes
use pulse_sdk.Prelude.{
  ℕ, zero, suc, ◌+◌, ◌-◌, ◌*◌, ◌/◌, ◌%◌, Bool, true, false, ◌&&◌, ◌||◌, not, Option, none, some,
  List, [], ◌∷◌, ◌++◌, length, is_empty, take, drop, ltb, leb, ◌==◌, if◌then◌else◌, Result, ok, err,
  ◌>>=◌,
}
use pulse_sdk.Extract.{Architecture, arm64, x86_64}
use pulse_sdk.Siggen.Signature.{SigByte, fixed, wildcard}

-- `object::Architecture`, as far as `architecture_of` tells its values apart.
pub data ObjectArchitecture : Type 0 where
  aarch64 x86_64_object other_architecture : ObjectArchitecture

-- The operands and opcodes that mask.rs tells apart.
pub data Arm64Operand : Type 0 where
  pc_offset other_operand : Arm64Operand

pub record Arm64Instruction : Type 0 where
  pub invalid : Bool
  pub operands : List Arm64Operand

pub data X86Opcode : Type 0 where
  invalid jmp call jo jno jb jnb jz jnz ja jna js jns jp jnp jl jge jle jg : X86Opcode
  loop loopz loopnz jrcxz other_opcode : X86Opcode

pub data X86Operand : Type 0 where
  immediate_i8 immediate_u8 immediate_i32 immediate_u32 other_operand : X86Operand

pub record X86Instruction : Type 0 where
  pub opcode : X86Opcode
  pub len : ℕ
  pub operands : List X86Operand

pub record Decoders : Type 0 where
  pub object_architecture : List ℕ → Option ObjectArchitecture
  pub decode_arm64 : List ℕ → Option Arm64Instruction
  pub decode_x86 : List ℕ → Option X86Instruction

-- The errors, one for each message; `underflow` is the panic of `len - tail`, and `out_of_fuel` is
-- no error of the code.
pub data MaskError : Type 0 where
  unreadable unsupported bad_window decode_failed undefined zero_length past_window : MaskError
  underflow out_of_fuel : MaskError

abbrev arm64_insn_len : ℕ
arm64_insn_len = 4

arm64_is_pc_relative : List Arm64Operand → Bool
arm64_is_pc_relative [] = false
arm64_is_pc_relative (pc_offset ∷ operands) = true
arm64_is_pc_relative (Arm64Operand.other_operand ∷ operands) = arm64_is_pc_relative operands

-- `for byte_index in 0..ARM64_INSN_LEN`, over the bytes of the instruction.
arm64_bytes : Bool → ℕ → List ℕ → List SigByte
arm64_bytes volatile byte_index [] = []
arm64_bytes volatile byte_index (byte ∷ bytes) =
    (if volatile && ltb byte_index (arm64_insn_len - 1) then wildcard else fixed byte)
    ∷ arm64_bytes volatile (byte_index + 1) bytes

x86_is_relative_branch : X86Opcode → Bool
x86_is_relative_branch X86Opcode.invalid = false
x86_is_relative_branch other_opcode = false
x86_is_relative_branch _ = true

-- `for i in 0..inst.operand_count()`
immediate_len : List X86Operand → ℕ
immediate_len [] = 0
immediate_len (immediate_i8 ∷ operands) = 1
immediate_len (immediate_u8 ∷ operands) = 1
immediate_len (immediate_i32 ∷ operands) = 4
immediate_len (immediate_u32 ∷ operands) = 4
immediate_len (X86Operand.other_operand ∷ operands) = immediate_len operands

x86_relative_tail_len : X86Instruction → ℕ
unfolding x86_is_relative_branch immediate_len
x86_relative_tail_len inst =
    if not (x86_is_relative_branch inst.opcode) then 0 else immediate_len inst.operands

-- `for byte_index in 0..len`, over the bytes of the instruction.
x86_bytes : ℕ → ℕ → ℕ → List ℕ → List SigByte
x86_bytes tail first_wildcard byte_index [] = []
x86_bytes tail first_wildcard byte_index (byte ∷ bytes) =
    (if ltb 0 tail && leb first_wildcard byte_index then wildcard else fixed byte)
    ∷ x86_bytes tail first_wildcard (byte_index + 1) bytes

module _ (d : Decoders) where
  unfoldable pub architecture_of : List ℕ → Result MaskError Architecture
  architecture_of binary = elim (d.object_architecture binary) [
    | none ↦ err unreadable
    | some aarch64 ↦ ok arm64
    | some x86_64_object ↦ ok x86_64
    | some other_architecture ↦ err unsupported
  ]

  decode_defined_arm64 : List ℕ → Result MaskError Arm64Instruction
  decode_defined_arm64 bytes = elim (d.decode_arm64 bytes) [
    | none ↦ err decode_failed
    | some inst ↦ if inst.invalid then err undefined else ok inst
  ]

  -- `for index in 0..count`
  arm64_loop : List ℕ → ℕ → ℕ → Result MaskError (List SigByte)
  arm64_loop window index zero = ok []
  arm64_loop window index (suc rounds) = do
    inst ← decode_defined_arm64 (drop (index * arm64_insn_len) window)
    rest ← arm64_loop window (index + 1) rounds
    ok (
        arm64_bytes (arm64_is_pc_relative inst.operands) 0
          (take arm64_insn_len (drop (index * arm64_insn_len) window))
        ++ rest)

  mask_window_arm64 : List ℕ → Result MaskError (List SigByte)
  unfolding arm64_loop decode_defined_arm64 arm64_bytes arm64_is_pc_relative
  mask_window_arm64 window =
      if is_empty window || not (length window % arm64_insn_len == 0)
      then err bad_window
      else arm64_loop window 0 (length window / arm64_insn_len)

  -- The checks on the instruction at `consumed`.
  decode_within_x86 : List ℕ → ℕ → Result MaskError X86Instruction
  decode_within_x86 window consumed = elim (d.decode_x86 (drop consumed window)) [
    | none ↦ err decode_failed
    | some inst ↦ elim inst.opcode [
      | X86Opcode.invalid ↦ err undefined
      | _ ↦
          if inst.len == 0
          then err zero_length
          else if ltb (length window) (consumed + inst.len)
          then err past_window
          else ok inst
    ]
  ]

  -- `len - tail` panics if the tail is longer than the instruction.
  mask_inst_x86 : List ℕ → ℕ → X86Instruction → Result MaskError (List SigByte)
  unfolding x86_relative_tail_len x86_bytes
  mask_inst_x86 window consumed inst =
      let tail = x86_relative_tail_len inst in
      if ltb inst.len tail
      then err underflow
      else ok (x86_bytes tail (inst.len - tail) 0 (take inst.len (drop consumed window)))

  -- `while consumed < window.len()`: each round consumes a byte at least.
  x86_loop : ℕ → List ℕ → ℕ → Result MaskError (List SigByte)
  x86_loop zero window consumed = err out_of_fuel
  x86_loop (suc fuel) window consumed = elim (ltb consumed (length window)) [
    | false ↦ ok []
    | true ↦ do
      inst ← decode_within_x86 window consumed
      bytes ← mask_inst_x86 window consumed inst
      rest ← x86_loop fuel window (consumed + inst.len)
      ok (bytes ++ rest)
  ]

  mask_window_x86_64 : List ℕ → Result MaskError (List SigByte)
  unfolding x86_loop decode_within_x86 mask_inst_x86
  mask_window_x86_64 window =
      if is_empty window then err bad_window else x86_loop (length window + 1) window 0

  unfoldable pub mask_window : List ℕ → Architecture → Result MaskError (List SigByte)
  unfolding mask_window_arm64 mask_window_x86_64
  mask_window window arm64 = mask_window_arm64 window
  mask_window window x86_64 = mask_window_x86_64 window
