-- ===== src/Installer/Macho.antt =====
-- The patcher of Mach-O executables, the module `macho` of cli/src/installer.rs. The buffer that the
-- code changes in place is returned; an error leaves it alone, since the writes come last.
-- `panicked` is an index out of bounds. An offset is a `usize` of 64 bits.
pub mod Insertion
pub mod Commands
pub mod Layout
pub mod Sections
pub mod Tables
pub mod Slices
use pulse_sdk.Prelude.{
  ℕ, zero, suc, ◌+◌, ◌-◌, ◌*◌, ◌/◌, ◌%◌, ◌^◌, min, Bool, true, false, ◌&&◌, ◌||◌, Option, none,
  some, List, [], ◌∷◌, ◌++◌, length, replicate, ltb, leb, ◌==◌, if◌then◌else◌, Result, ok, err,
  ◌>>=◌,
}
use pulse_sdk.Prelude.Buffer.{slice, copy_at, from_le, from_be, u32_le_bytes}

-- The errors of one slice, one for each message.
pub data ThinError : Type 0 where
  truncated_header commands_past_end bad_layout padding_not_zero : ThinError
  truncated_command truncated_section panicked : ThinError
  insufficient_padding : (needed available : ℕ) → ThinError
  bad_cmdsize : (cmdsize off : ℕ) → ThinError
  out_of_bounds : (off : ℕ) → ThinError

-- The messages that the patch of a universal binary collects.
pub data SliceError : Type 0 where
  slice_outside : (base : ℕ) → SliceError
  slice_failed : (base : ℕ) → ThinError → SliceError
  slice_skipped : (base magic : ℕ) → SliceError

pub data PatchError : Type 0 where
  too_small fat_panicked : PatchError
  unsupported unrecognized fat_out_of_bounds : ℕ → PatchError
  thin_failed : ThinError → PatchError
  no_patchable_slice : List SliceError → PatchError

abbrev read_outcome : ℕ → (List ℕ → ℕ) → Option (List ℕ) → Result ThinError ℕ
read_outcome off value none = err (out_of_bounds off)
read_outcome off value (some bytes) = ok (value bytes)

abbrev pub read_u32_le : List ℕ → ℕ → Result ThinError ℕ
read_u32_le buf off = read_outcome off from_le (slice off 4 buf)

abbrev pub read_u64_le : List ℕ → ℕ → Result ThinError ℕ
read_u64_le buf off = read_outcome off from_le (slice off 8 buf)

abbrev fat_outcome : ℕ → Option (List ℕ) → Result PatchError ℕ
fat_outcome off none = err (fat_out_of_bounds off)
fat_outcome off (some bytes) = ok (from_be 0 bytes)

abbrev read_u32_be : List ℕ → ℕ → Result PatchError ℕ
read_u32_be buf off = fat_outcome off (slice off 4 buf)

abbrev read_u64_be : List ℕ → ℕ → Result PatchError ℕ
read_u64_be buf off = fat_outcome off (slice off 8 buf)

abbrev write_u32_le : List ℕ → ℕ → ℕ → List ℕ
write_u32_le buf off value = copy_at off (u32_le_bytes value) buf

-- `(HEADER + path_bytes.len() + 1 + 7) & !7`
abbrev pub dylib_cmdsize : List ℕ → ℕ
dylib_cmdsize path = (24 + length path + 1 + 7) / 8 * 8

unfoldable pub build_dylib_command : List ℕ → List ℕ
unfolding copy_at
build_dylib_command path =
    let cmd = replicate (dylib_cmdsize path) 0 in
    let cmd = write_u32_le cmd 0 0x0c in
    let cmd = write_u32_le cmd 4 (dylib_cmdsize path) in
    let cmd = write_u32_le cmd 8 24 in
    let cmd = write_u32_le cmd 12 2 in
    let cmd = write_u32_le cmd 16 0 in let cmd = write_u32_le cmd 20 0 in copy_at 24 path cmd

abbrev pub smaller : Option ℕ → ℕ → ℕ
smaller none rel = rel
smaller (some m) rel = min m rel

-- `for _ in 0..nsects`
sections_loop : List ℕ → ℕ → ℕ → Option ℕ → Result ThinError (Option ℕ)
sections_loop buf sec zero min_off = ok min_off
sections_loop buf sec (suc rounds) min_off =
    if ltb (length buf) (sec + 80) then err truncated_section else do
      sec_off ← read_u32_le buf (sec + 48)
      sec_size ← read_u64_le buf (sec + 40)
      sections_loop buf (sec + 80) rounds
          (if ltb 0 sec_size && ltb 0 sec_off then some (smaller min_off sec_off) else min_off)

-- The body of `if cmd == LC_SEGMENT_64`.
segment_min : List ℕ → ℕ → ℕ → Option ℕ → Result ThinError (Option ℕ)
unfolding sections_loop
segment_min buf off cmd min_off =
    if cmd == 0x19
    then (do nsects ← read_u32_le buf (off + 64); sections_loop buf (off + 72) nsects min_off)
    else ok min_off

check_cmdsize : List ℕ → ℕ → ℕ → Result ThinError (Unit {0})
check_cmdsize buf off cmdsize =
    if ltb cmdsize 8 || ltb (length buf) (off + cmdsize)
    then err (bad_cmdsize cmdsize off)
    else ok tt

-- `for _ in 0..ncmds` of `min_section_file_offset`
commands_loop : List ℕ → ℕ → ℕ → Option ℕ → Result ThinError (Option ℕ)
unfolding segment_min check_cmdsize
commands_loop buf off zero min_off = ok min_off
commands_loop buf off (suc rounds) min_off =
    if ltb (length buf) (off + 8) then err truncated_command else do
      cmd ← read_u32_le buf off
      cmdsize ← read_u32_le buf (off + 4)
      checked ← check_cmdsize buf off cmdsize
      found ← segment_min buf off cmd min_off
      commands_loop buf (off + cmdsize) rounds found

unfoldable pub min_section_file_offset : List ℕ → ℕ → ℕ → Result ThinError (Option ℕ)
unfolding commands_loop
min_section_file_offset buf cmds_start ncmds = commands_loop buf cmds_start ncmds none

abbrev pub all_zero : List ℕ → Bool
all_zero [] = true
all_zero (b ∷ bytes) = b == 0 && all_zero bytes

-- The new command, `ncmds` and `sizeofcmds`, which were read inside the buffer.
pub write_command : List ℕ → ℕ → ℕ → ℕ → List ℕ → List ℕ
write_command buf base ncmds sizeofcmds new_cmd =
    let buf' = copy_at (base + 32 + sizeofcmds) new_cmd buf in
    let buf'' = write_u32_le buf' (base + 16) (ncmds + 1) in
    write_u32_le buf'' (base + 20) (sizeofcmds + length new_cmd)

-- `patch_thin_64` from the computation of the free space on.
insert_command : List ℕ → ℕ → ℕ → ℕ → ℕ → List ℕ → Result ThinError (List ℕ)
unfolding write_command
insert_command buf base ncmds sizeofcmds min_section_offset new_cmd =
    let free_start = base + 32 + sizeofcmds in
    let free_end = base + min_section_offset in
    if ltb free_end free_start
    then err bad_layout
    else if ltb (free_end - free_start) (length new_cmd)
    then err (insufficient_padding (length new_cmd) (free_end - free_start))
    else elim (slice free_start (length new_cmd) buf) [
      | none ↦ err panicked
      | some free ↦
          if all_zero free
          then ok (write_command buf base ncmds sizeofcmds new_cmd)
          else err padding_not_zero
    ]

check_commands_end : List ℕ → ℕ → Result ThinError (Unit {0})
check_commands_end buf cmds_end = if ltb (length buf) cmds_end then err commands_past_end else ok tt

abbrev unwrap_or : Option ℕ → ℕ → ℕ
unwrap_or none d = d
unwrap_or (some n) d = n

unfoldable pub patch_thin_64 : List ℕ → ℕ → List ℕ → Result ThinError (List ℕ)
unfolding check_commands_end min_section_file_offset insert_command build_dylib_command
patch_thin_64 buf base load_path = if ltb (length buf) (base + 32) then err truncated_header else do
  ncmds ← read_u32_le buf (base + 16)
  sizeofcmds ← read_u32_le buf (base + 20)
  inside ← check_commands_end buf (base + 32 + sizeofcmds)
  found ← min_section_file_offset buf (base + 32) ncmds
  insert_command buf base ncmds sizeofcmds (unwrap_or found sizeofcmds)
      (build_dylib_command load_path)

-- The first loop of `patch_fat`: the offsets of the slices.
pub fat_offsets : Bool → List ℕ → ℕ → ℕ → Result PatchError (List ℕ)
fat_offsets fat64 buf cursor zero = ok []
fat_offsets true buf cursor (suc rounds) = do
  offset ← read_u64_be buf (cursor + 8)
  rest ← fat_offsets true buf (cursor + 32) rounds
  ok (offset ∷ rest)
fat_offsets false buf cursor (suc rounds) = do
  offset ← read_u32_be buf (cursor + 8)
  rest ← fat_offsets false buf (cursor + 20) rounds
  ok (offset ∷ rest)

-- The variables of the second loop.
pub record FatState : Type 0 where
  pub buf : List ℕ
  pub patched_any : Bool
  pub errors : List SliceError

abbrev add_error : FatState → SliceError → FatState
add_error s e = record s { errors = s.errors ++ e ∷ [] }

patch_outcome : FatState → ℕ → Result ThinError (List ℕ) → Result PatchError FatState
patch_outcome s base (ok buf) = ok (record s { buf = buf; patched_any = true })
patch_outcome s base (err panicked) = err fat_panicked
patch_outcome s base (err e) = ok (add_error s (slice_failed base e))

-- The body of the second loop. `base + 4` wraps in a release build, and then the index panics.
patch_slice : List ℕ → FatState → ℕ → Result PatchError FatState
unfolding patch_outcome
patch_slice load_path s base =
    if ltb (length s.buf) ((base + 4) % 2 ^ 64)
    then ok (add_error s (slice_outside base))
    else elim (slice base 4 s.buf) [
      | none ↦ err fat_panicked
      | some magic ↦
          if from_le magic == 0xfeedfacf
          then patch_outcome s base (patch_thin_64 s.buf base load_path)
          else ok (add_error s (slice_skipped base (from_le magic)))
    ]

slices_loop : List ℕ → FatState → List ℕ → Result PatchError FatState
unfolding patch_slice
slices_loop load_path s [] = ok s
slices_loop load_path s (base ∷ bases) = do
  s' ← patch_slice load_path s base
  slices_loop load_path s' bases

conclude_fat : FatState → Result PatchError (List ℕ)
conclude_fat s = if s.patched_any then ok s.buf else err (no_patchable_slice s.errors)

unfoldable pub patch_fat : List ℕ → List ℕ → Bool → Result PatchError (List ℕ)
unfolding fat_offsets slices_loop conclude_fat
patch_fat buf load_path fat64 = do
  nfat ← read_u32_be buf 4
  bases ← fat_offsets fat64 buf 8 nfat
  s ← slices_loop load_path (record { buf = buf; patched_any = false; errors = [] }) bases
  conclude_fat s

thin_outcome : Result ThinError (List ℕ) → Result PatchError (List ℕ)
thin_outcome (ok buf) = ok buf
thin_outcome (err e) = err (thin_failed e)

-- `match magic_le` and `match magic_be`
patch_magic : ℕ → ℕ → List ℕ → List ℕ → Result PatchError (List ℕ)
unfolding thin_outcome
patch_magic magic_le magic_be buf load_path =
    if magic_le == 0xfeedfacf
    then thin_outcome (patch_thin_64 buf 0 load_path)
    else if magic_le == 0xcffaedfe || magic_le == 0xfeedface || magic_le == 0xcefaedfe
    then err (unsupported magic_le)
    else if magic_be == 0xcafebabe || magic_be == 0xbebafeca
    then patch_fat buf load_path false
    else if magic_be == 0xcafebabf || magic_be == 0xbfbafeca
    then patch_fat buf load_path true
    else err (unrecognized magic_le)

unfoldable pub add_load_dylib_command : List ℕ → List ℕ → Result PatchError (List ℕ)
unfolding patch_magic
add_load_dylib_command buf load_path = elim (slice 0 4 buf) [
  | none ↦ err too_small
  | some magic ↦ patch_magic (from_le magic) (from_be 0 magic) buf load_path
]
