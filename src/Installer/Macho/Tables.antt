-- ===== src/Installer/Macho/Tables.antt =====
-- The offsets that the header of a universal file gives its slices.
use pulse_sdk.Prelude.{
  ℕ, zero, suc, ◌+◌, ◌≡◌, ap, ◌∙◌, Bool, true, false, ◌||◌, List, [], ◌∷◌, take, drop, ◌==◌, arith,
  if◌then◌else◌, Result, ok, ◌>>=◌, >>=-eq-ok,
}
use pulse_sdk.Prelude.Buffer.{from_be}
use pulse_sdk.Installer.Macho.{PatchError, read_u32_be, read_u64_be, fat_offsets}
use pulse_sdk.Installer.Macho.Sections.{word}

-- A big-endian word.
abbrev pub be_word : ℕ → ℕ → List ℕ → ℕ
be_word at n buf = from_be 0 (take n (drop at buf))

-- The offsets in a table of `n` entries of `stride` bytes, each with an offset of `width` bytes
-- behind two words.
abbrev pub offset_table : ℕ → ℕ → List ℕ → ℕ → ℕ → List ℕ
offset_table stride width buf entry zero = []
offset_table stride width buf entry (suc n) =
    be_word (entry + 8) width buf ∷ offset_table stride width buf (entry + stride) n

-- A universal file has its number of entries at 4 and its table at 8: `fat_arch` takes 20 bytes,
-- `fat_arch_64` 32.
abbrev pub fat_slices : Bool → List ℕ → List ℕ
fat_slices false buf = offset_table 20 4 buf 8 (be_word 4 4 buf)
fat_slices true buf = offset_table 32 8 buf 8 (be_word 4 4 buf)

-- The offsets at which a file holds Mach-O files: itself, or the slices of its table.
abbrev pub slices_of : List ℕ → List ℕ
slices_of buf =
    if word 0 4 buf == 0xfeedfacf
    then 0 ∷ []
    else fat_slices (be_word 0 4 buf == 0xcafebabf || be_word 0 4 buf == 0xbfbafeca) buf

pub read_u32_be-be_word :
    (buf : List ℕ) (off v : ℕ) → read_u32_be buf off ≡ ok v → v ≡ be_word off 4 buf
read_u32_be-be_word buf off v h = ground arith

read_u64_be-be_word :
    (buf : List ℕ) (off v : ℕ) → read_u64_be buf off ≡ ok v → v ≡ be_word off 8 buf
read_u64_be-be_word buf off v h = ground arith

-- The first loop of `patch_fat` reads the table.
fat_offsets_32 :
    (buf : List ℕ) (cursor n : ℕ) (bases : List ℕ)
    → fat_offsets false buf cursor n ≡ ok bases
    → bases ≡ offset_table 20 4 buf cursor n
unfolding fat_offsets
fat_offsets_32 buf cursor zero bases h = cc
fat_offsets_32 buf cursor (suc n) bases h =
    let later : ℕ → Result PatchError (List ℕ) =
      λ o. fat_offsets false buf (cursor + 20) n >>= λ r. ok (o ∷ r) in
    let (o, first, h') = >>=-eq-ok (read_u32_be buf (cursor + 8)) later h in
    let (r, rest, e) = >>=-eq-ok (fat_offsets false buf (cursor + 20) n) (λ r. ok (o ∷ r)) h' in
    let eo = read_u32_be-be_word buf (cursor + 8) o first in
    let er = fat_offsets_32 buf (cursor + 20) n r rest in cc

fat_offsets_64 :
    (buf : List ℕ) (cursor n : ℕ) (bases : List ℕ)
    → fat_offsets true buf cursor n ≡ ok bases
    → bases ≡ offset_table 32 8 buf cursor n
unfolding fat_offsets
fat_offsets_64 buf cursor zero bases h = cc
fat_offsets_64 buf cursor (suc n) bases h =
    let later : ℕ → Result PatchError (List ℕ) =
      λ o. fat_offsets true buf (cursor + 32) n >>= λ r. ok (o ∷ r) in
    let (o, first, h') = >>=-eq-ok (read_u64_be buf (cursor + 8)) later h in
    let (r, rest, e) = >>=-eq-ok (fat_offsets true buf (cursor + 32) n) (λ r. ok (o ∷ r)) h' in
    let eo = read_u64_be-be_word buf (cursor + 8) o first in
    let er = fat_offsets_64 buf (cursor + 32) n r rest in cc

pub fat_offsets-eq-fat_slices :
    (fat64 : Bool) (buf bases : List ℕ) (n : ℕ)
    → n ≡ be_word 4 4 buf
    → fat_offsets fat64 buf 8 n ≡ ok bases
    → bases ≡ fat_slices fat64 buf
fat_offsets-eq-fat_slices false buf bases n e h =
    fat_offsets_32 buf 8 n bases h ∙ ap (offset_table 20 4 buf 8) e
fat_offsets-eq-fat_slices true buf bases n e h =
    fat_offsets_64 buf 8 n bases h ∙ ap (offset_table 32 8 buf 8) e
