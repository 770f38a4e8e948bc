-- ===== src/Extract/Prologue.antt =====
-- The check of the prologue of a function, cli/src/extract/prologue.rs. The parser of object files
-- (the crate `object`) and the instruction decoders (yaxpeax-arm and yaxpeax-x86) are not part of
-- the repository: they are the fields of `Disassembler`. A decoder reads at the front of the bytes
-- that it is given, which are the window from the reader's position on; the reader has advanced by
-- the lengths of the instructions before, four bytes each on arm64.
pub mod Plausible
pub mod Window
use pulse_sdk.Prelude.{
  ℕ, zero, suc, ◌+◌, ◌-◌, ◌^◌, min, Bool, true, false, ◌&&◌, ◌||◌, not, Option, none, some, List,
  [], ◌∷◌, length, take, drop, ltb, leb, ◌==◌, if◌then◌else◌,
}
use pulse_sdk.Prelude.Text.{codes}
use pulse_sdk.Bindings.{sentinel_value, SymbolId, TargetPair}
use pulse_sdk.Extract.{Architecture, arm64, x86_64}

-- A section of an object file: `address()`, `size()` and `data().ok()`.
pub record Section : Type 0 where
  pub address : ℕ
  pub size : ℕ
  pub bytes : Option (List ℕ)

-- The opcodes that prologue.rs tells apart.
pub data Arm64Opcode : Type 0 where
  invalid ret retaa retab eret eretaa eretab brk hlt udf dcps1 dcps2 dcps3 other : Arm64Opcode

pub data X86Opcode : Type 0 where
  invalid return retf iret iretd iretq sysret int into ud0 ud1 ud2 hlt other : X86Opcode

pub record X86Instruction : Type 0 where
  pub opcode : X86Opcode
  pub len : ℕ

pub record Disassembler : Type 0 where
  pub sections : List ℕ → Option (List Section)
  pub decode_arm64 : List ℕ → Option Arm64Opcode
  pub decode_x86 : List ℕ → Option X86Instruction

abbrev prologue_window_len : ℕ
prologue_window_len = 16

abbrev x86_max_insn_len : ℕ
x86_max_insn_len = 15

pub data SkipReason : Type 0 where
  zero_offset sentinel_offset unreadable_prologue : SkipReason

-- What an instruction does that no function begins with.
pub data EntryKind : Type 0 where
  returns traps : EntryKind

-- The reasons why a prologue is not plausible, one for each message.
pub data Implausible : Type 0 where
  undefined decode_failed zero_length : (index : ℕ) → Implausible
  return_or_trap : EntryKind → Implausible

pub data PrologueOutcome : Type 0 where
  plausible_entry : PrologueOutcome
  not_plausible : (reason : Implausible) → PrologueOutcome
  skipped : (reason : SkipReason) → PrologueOutcome

abbrev pub arm64_ret_or_trap : Arm64Opcode → Option EntryKind
arm64_ret_or_trap Arm64Opcode.invalid = none
arm64_ret_or_trap Arm64Opcode.other = none
arm64_ret_or_trap ret = some returns
arm64_ret_or_trap retaa = some returns
arm64_ret_or_trap retab = some returns
arm64_ret_or_trap eret = some returns
arm64_ret_or_trap eretaa = some returns
arm64_ret_or_trap eretab = some returns
arm64_ret_or_trap brk = some traps
arm64_ret_or_trap Arm64Opcode.hlt = some traps
arm64_ret_or_trap udf = some traps
arm64_ret_or_trap dcps1 = some traps
arm64_ret_or_trap dcps2 = some traps
arm64_ret_or_trap dcps3 = some traps

abbrev pub x86_ret_or_trap : X86Opcode → Option EntryKind
x86_ret_or_trap X86Opcode.invalid = none
x86_ret_or_trap X86Opcode.other = none
x86_ret_or_trap return = some returns
x86_ret_or_trap retf = some returns
x86_ret_or_trap iret = some returns
x86_ret_or_trap iretd = some returns
x86_ret_or_trap iretq = some returns
x86_ret_or_trap sysret = some returns
x86_ret_or_trap int = some traps
x86_ret_or_trap into = some traps
x86_ret_or_trap ud0 = some traps
x86_ret_or_trap ud1 = some traps
x86_ret_or_trap ud2 = some traps
x86_ret_or_trap X86Opcode.hlt = some traps

abbrev pub is_arm64_invalid : Arm64Opcode → Bool
is_arm64_invalid Arm64Opcode.invalid = true
is_arm64_invalid _ = false

abbrev pub is_x86_invalid : X86Opcode → Bool
is_x86_invalid X86Opcode.invalid = true
is_x86_invalid _ = false

-- `u64::saturating_add`
abbrev pub saturating_add : ℕ → ℕ → ℕ
saturating_add a b = min (a + b) (2 ^ 64 - 1)

abbrev pub section_end : Section → ℕ
section_end s = saturating_add s.address s.size

-- The bytes of the section that holds the address: the rest of the body of the loop.
unfoldable pub window_in : Section → ℕ → ℕ → ℕ → Option (List ℕ)
window_in s va min_len max_len =
    let available = section_end s - va in
    let start = va - s.address in
    if ltb available min_len then none else elim s.bytes [
      | none ↦ none
      | some content ↦
          if leb (length content) start || ltb (length content) (start + min_len)
          then none
          else some (
              take (min (start + min available max_len) (length content) - start)
                (drop start content))
    ]

-- `for section in file.sections()`
unfoldable pub window_of : List Section → ℕ → ℕ → ℕ → Option (List ℕ)
unfolding window_in
window_of [] va min_len max_len = none
window_of (s ∷ sections) va min_len max_len =
    let rest = window_of sections va min_len max_len in
    if ltb va s.address || leb (section_end s) va then rest else window_in s va min_len max_len

-- The test of the first instruction.
abbrev pub entry_test : ℕ → Option EntryKind → Option EntryKind
entry_test index kind = if index == 0 then kind else none

module _ (d : Disassembler) where
  unfoldable pub read_prologue_window : List ℕ → ℕ → ℕ → ℕ → Option (List ℕ)
  unfolding window_of
  read_prologue_window bytes va min_len max_len = elim (d.sections bytes) [
    | none ↦ none
    | some sections ↦ window_of sections va min_len max_len
  ]

  -- `for index in 0..total`
  unfoldable pub arm64_loop : List ℕ → ℕ → ℕ → PrologueOutcome
  arm64_loop bytes index zero = plausible_entry
  arm64_loop bytes index (suc rounds) = elim (d.decode_arm64 bytes) [
    | none ↦ not_plausible (decode_failed index)
    | some opcode ↦ elim (is_arm64_invalid opcode) [
      | true ↦ not_plausible (undefined index)
      | false ↦ elim (entry_test index (arm64_ret_or_trap opcode)) [
        | some kind ↦ not_plausible (return_or_trap kind)
        | none ↦ arm64_loop (drop 4 bytes) (index + 1) rounds
      ]
    ]
  ]

  unfoldable check_prologue_arm64 : List ℕ → PrologueOutcome
  unfolding arm64_loop
  check_prologue_arm64 window = arm64_loop window 0 4

  -- `while consumed < PROLOGUE_WINDOW_LEN`; `none` is no outcome of the code, but the end of the
  -- fuel.
  unfoldable pub x86_loop : ℕ → List ℕ → ℕ → ℕ → Option PrologueOutcome
  x86_loop zero bytes consumed index = none
  x86_loop (suc rounds) bytes consumed index = elim (ltb consumed prologue_window_len) [
    | false ↦ some plausible_entry
    | true ↦ elim (d.decode_x86 bytes) [
      | none ↦ some (not_plausible (decode_failed index))
      | some inst ↦ elim (is_x86_invalid inst.opcode) [
        | true ↦ some (not_plausible (undefined index))
        | false ↦ elim (entry_test index (x86_ret_or_trap inst.opcode)) [
          | some kind ↦ some (not_plausible (return_or_trap kind))
          | none ↦ elim (inst.len == 0) [
            | true ↦ some (not_plausible (zero_length index))
            | false ↦
                x86_loop rounds (drop inst.len bytes) (saturating_add consumed inst.len) (index + 1)
          ]
        ]
      ]
    ]
  ]

  -- A round for every byte of the window, and one more.
  unfoldable check_prologue_x86_64 : List ℕ → Option PrologueOutcome
  unfolding x86_loop
  check_prologue_x86_64 window = x86_loop 17 window 0 0

  abbrev pub max_len_of : Architecture → ℕ
  max_len_of arm64 = prologue_window_len
  max_len_of x86_64 = prologue_window_len + x86_max_insn_len

  unfoldable pub check_window : Architecture → List ℕ → Option PrologueOutcome
  unfolding check_prologue_arm64 check_prologue_x86_64
  check_window arm64 window = some (check_prologue_arm64 window)
  check_window x86_64 window = check_prologue_x86_64 window

  unfoldable pub check_prologue : List ℕ → ℕ → Architecture → Option PrologueOutcome
  unfolding read_prologue_window check_window
  check_prologue bytes offset arch =
      if offset == 0
      then some (skipped zero_offset)
      else if offset == sentinel_value
      then some (skipped sentinel_offset)
      else elim (read_prologue_window bytes offset prologue_window_len (max_len_of arch)) [
        | none ↦ some (skipped unreadable_prologue)
        | some window ↦ check_window arch window
      ]

abbrev is_plausible : PrologueOutcome → Bool
is_plausible plausible_entry = true
is_plausible (not_plausible reason) = false
is_plausible (skipped reason) = false

unfoldable pub verified_flag : ℕ → PrologueOutcome → Bool
verified_flag offset outcome =
    is_plausible outcome && ltb 0 offset && not (offset == sentinel_value)

pub record PrologueDecision : Type 0 where
  pub symbol : SymbolId
  pub pair : TargetPair
  pub offset : ℕ
  pub outcome : PrologueOutcome
  pub verified : Bool

-- `PrologueDecision::evaluate`
abbrev evaluate : SymbolId → TargetPair → ℕ → PrologueOutcome → PrologueDecision
evaluate symbol pair offset outcome = record {
  symbol = symbol;
  pair = pair;
  offset = offset;
  outcome = outcome;
  verified = verified_flag offset outcome;
}

-- `PrologueDecision::cause`: the reasons of its message.
pub data Cause : Type 0 where
  plausible_zero plausible_sentinel not_eligible : Cause
  implausible : Implausible → Cause
  check_skipped : SkipReason → Cause

abbrev reason_of : ℕ → PrologueOutcome → Cause
reason_of offset plausible_entry =
    if offset == 0
    then plausible_zero
    else if offset == sentinel_value
    then plausible_sentinel
    else not_eligible
reason_of offset (not_plausible reason) = implausible reason
reason_of offset (skipped reason) = check_skipped reason

abbrev cause : PrologueDecision → Option Cause
cause decision =
    if decision.verified then none else some (reason_of decision.offset decision.outcome)
