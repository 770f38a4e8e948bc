-- ===== src/Installer/Macho/Insertion.antt =====
-- What a successful patch of one Mach-O file or slice does to its bytes.
use pulse_sdk.Prelude.{
  ℕ, ◌+◌, ◌%◌, ◌^◌, ◌≤◌, ◌≡◌, ap, ◌∙◌, true, Option, some, List, length, take, drop, leb, inl, inr,
  arith, Result, ok, Result-cases, Option-cases,
}
use pulse_sdk.Prelude.Buffer.{
  slice, copy_at, u32_le_bytes, from_le-u32_le_bytes, length-copy_at, IsApart, slice-copy_at_apart,
  slice-copy_at_self,
}
use pulse_sdk.Installer.Macho.{
  read_u32_le, build_dylib_command, all_zero, min_section_file_offset, check_commands_end,
  write_command, insert_command, unwrap_or, patch_thin_64,
}

insert_command-eq-ok :
    (buf : List ℕ) (base ncmds sizeofcmds m : ℕ) (cmd buf' : List ℕ)
    → insert_command buf base ncmds sizeofcmds m cmd ≡ ok buf'
    → (free : List ℕ) × (base + 32 + sizeofcmds + length cmd ≤ base + m)
      × (slice (base + 32 + sizeofcmds) (length cmd) buf ≡ some free)
      × (all_zero free ≡ true)
      × (buf' ≡ write_command buf base ncmds sizeofcmds cmd)
unfolding insert_command
insert_command-eq-ok buf base ncmds sizeofcmds m cmd buf' h =
    elim (Option-cases (slice (base + 32 + sizeofcmds) (length cmd) buf)) [
      | inl e ↦ absurd (ground arith)
      | inr (free, e) ↦ (free, ground arith, e, ground arith, ground arith)
    ]

pub ok_injective : {E A : Type 0} {a b : A} → ◌≡◌ {A = Result E A} (ok a) (ok b) → a ≡ b
ok_injective h = cc

read_slice :
    (buf : List ℕ) (off w : ℕ)
    → off + 4 ≤ length buf
    → take 4 (drop off buf) ≡ u32_le_bytes w
    → read_u32_le buf off ≡ ok (w % 2 ^ 32)
read_slice buf off w h e =
    let inside : leb (off + 4) (length buf) ≡ true = ground arith in
    rw (inside, e) (ap ok (from_le-u32_le_bytes w))

-- The parts of a successful patch: what was read, and what was written.
pub record IsPatch (buf : List ℕ) (base : ℕ) (cmd buf' : List ℕ) : Type 0 where
  pub ncmds : ℕ
  pub sizeofcmds : ℕ
  pub reads_ncmds : read_u32_le buf (base + 16) ≡ ok ncmds
  pub reads_sizeofcmds : read_u32_le buf (base + 20) ≡ ok sizeofcmds
  pub section_start : Option ℕ
  pub finds_section : min_section_file_offset buf (base + 32) ncmds ≡ ok section_start
  pub room : base + 32 + sizeofcmds + length cmd ≤ base + unwrap_or section_start sizeofcmds
  pub free : List ℕ
  pub reads_free : slice (base + 32 + sizeofcmds) (length cmd) buf ≡ some free
  pub free_zero : all_zero free ≡ true
  pub written : buf' ≡ write_command buf base ncmds sizeofcmds cmd

check_commands_end-eq-ok :
    (buf : List ℕ) (e : ℕ) (u : Unit {0}) → check_commands_end buf e ≡ ok u → e ≤ length buf
unfolding check_commands_end
check_commands_end-eq-ok buf e u h = ground arith

pub patch_thin_64-IsPatch :
    (buf : List ℕ) (base : ℕ) (path buf' : List ℕ)
    → patch_thin_64 buf base path ≡ ok buf'
    → IsPatch buf base (build_dylib_command path) buf'
unfolding patch_thin_64
patch_thin_64-IsPatch buf base path buf' h = elim (Result-cases (read_u32_le buf (base + 16))) [
  | inr (e, f) ↦ absurd (ground arith)
  | inl (ncmds, r) ↦ elim (Result-cases (read_u32_le buf (base + 20))) [
    | inr (e, f) ↦ absurd (ground arith)
    | inl (sizeofcmds, q) ↦ elim (Result-cases (min_section_file_offset buf (base + 32) ncmds)) [
      | inr (e, f) ↦ absurd (ground arith)
      | inl (found, m) ↦
          let inserted : insert_command buf base ncmds sizeofcmds (unwrap_or found sizeofcmds)
                (build_dylib_command path)
              ≡ ok buf' =
            ground arith in
          let (free, room, reads, zeros, e) =
            insert_command-eq-ok buf base ncmds sizeofcmds (unwrap_or found sizeofcmds)
              (build_dylib_command path) buf' inserted in
          record {
            ncmds = ncmds;
            sizeofcmds = sizeofcmds;
            reads_ncmds = r;
            reads_sizeofcmds = q;
            section_start = found;
            finds_section = m;
            room = room;
            free = free;
            reads_free = reads;
            free_zero = zeros;
            written = e;
          }
    ]
  ]
]

module _ {buf : List ℕ} {base : ℕ} {cmd buf' : List ℕ} (p : IsPatch buf base cmd buf') where
  abbrev end_of_commands : ℕ
  end_of_commands = base + 32 + p.sizeofcmds

  pub patch-within : end_of_commands + length cmd ≤ length buf
  patch-within = let h = p.reads_free in ground arith

  pub length-patch : length buf' ≡ length buf
  unfolding write_command
  length-patch =
      ap length p.written
      ∙ (length-copy_at (base + 20) (u32_le_bytes (p.sizeofcmds + length cmd)) _
          ∙ (length-copy_at (base + 16) (u32_le_bytes (p.ncmds + 1)) _
              ∙ length-copy_at end_of_commands cmd buf))

  -- Bytes that lie apart from the two counters and from the new command are left alone.
  pub slice-patch :
      (at n : ℕ)
      → IsApart at n (base + 16) 4
      → IsApart at n (base + 20) 4
      → IsApart at n end_of_commands (length cmd)
      → take n (drop at buf') ≡ take n (drop at buf)
  unfolding write_command
  slice-patch at n h k l =
      ap (λ b. take n (drop at b)) p.written
      ∙ (slice-copy_at_apart at n (base + 20) (u32_le_bytes (p.sizeofcmds + length cmd)) _ k
          ∙ (slice-copy_at_apart at n (base + 16) (u32_le_bytes (p.ncmds + 1)) _ h
              ∙ slice-copy_at_apart at n end_of_commands cmd buf l))

  -- The new command stands behind the others.
  pub slice-patch_command : take (length cmd) (drop end_of_commands buf') ≡ cmd
  unfolding write_command
  slice-patch_command =
      ap (λ b. take (length cmd) (drop end_of_commands b)) p.written
      ∙ (slice-copy_at_apart end_of_commands (length cmd) (base + 20)
            (u32_le_bytes (p.sizeofcmds + length cmd)) _ (inr (omega arith))
          ∙ (slice-copy_at_apart end_of_commands (length cmd) (base + 16)
                (u32_le_bytes (p.ncmds + 1)) _ (inr (omega arith))
              ∙ slice-copy_at_self end_of_commands cmd buf patch-within))

  slice-patch_ncmds : take 4 (drop (base + 16) buf') ≡ u32_le_bytes (p.ncmds + 1)
  unfolding write_command
  slice-patch_ncmds =
      let w = p.written in
      ap (λ b. take 4 (drop (base + 16) b)) p.written
      ∙ (slice-copy_at_apart (base + 16) 4 (base + 20) (u32_le_bytes (p.sizeofcmds + length cmd)) _
            (inl (omega arith))
          ∙ slice-copy_at_self (base + 16) (u32_le_bytes (p.ncmds + 1))
              (copy_at end_of_commands cmd buf)
              (omega (arith, patch-within, length-copy_at end_of_commands cmd buf)))

  slice-patch_sizeofcmds : take 4 (drop (base + 20) buf') ≡ u32_le_bytes (p.sizeofcmds + length cmd)
  unfolding write_command
  slice-patch_sizeofcmds =
      ap (λ b. take 4 (drop (base + 20) b)) p.written
      ∙ slice-copy_at_self (base + 20) (u32_le_bytes (p.sizeofcmds + length cmd)) _ (
          omega (
            arith,
            patch-within,
            length-copy_at end_of_commands cmd buf,
            length-copy_at (base + 16) (u32_le_bytes (p.ncmds + 1))
                (copy_at end_of_commands cmd buf),
          ))

  -- Both counters are updated, as 32-bit words.
  pub read_u32_le-patch :
      (read_u32_le buf' (base + 16) ≡ ok ((p.ncmds + 1) % 2 ^ 32))
      × (read_u32_le buf' (base + 20) ≡ ok ((p.sizeofcmds + length cmd) % 2 ^ 32))
  read_u32_le-patch = (
    read_slice buf' (base + 16) (p.ncmds + 1) (omega (arith, length-patch, patch-within))
        slice-patch_ncmds,
    read_slice buf' (base + 20) (p.sizeofcmds + length cmd)
        (omega (arith, length-patch, patch-within)) slice-patch_sizeofcmds,
  )
