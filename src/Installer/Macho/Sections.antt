-- ===== src/Installer/Macho/Sections.antt =====
-- The contents of the sections, which a patch does not reach.
use mathlib.Core.Path.{subst}
use pulse_sdk.Prelude.{
  ℕ, zero, suc, ◌+◌, ◌≤◌, ◌≡◌, refl, sym, ap, ◌∙◌, min, true, ◌&&◌, Option, none, some, List, [],
  ◌∷◌, ◌++◌, length, take, drop, ltb, ◌==◌, inl, inr, arith, if◌then◌else◌, ok, All, Bool-cases,
  Result-cases,
}
use pulse_sdk.Prelude.Buffer.{from_le}
use pulse_sdk.Installer.Macho.{
  read_u32_le, read_u64_le, sections_loop, segment_min, commands_loop, min_section_file_offset,
  build_dylib_command, unwrap_or, smaller, all_zero, write_command, patch_thin_64,
}
use pulse_sdk.Installer.Macho.Insertion.{
  ok_injective, patch_thin_64-IsPatch, length-patch, patch-within,
}
use pulse_sdk.Installer.Macho.Layout.{patched_file, write_command-eq-patched_file}

abbrev pub word : ℕ → ℕ → List ℕ → ℕ
word at n buf = from_le (take n (drop at buf))

-- The offsets of the contents of `n` sections; a section with no bytes in the file has none.
abbrev section_starts : List ℕ → ℕ → ℕ → List ℕ
section_starts buf sec zero = []
section_starts buf sec (suc n) =
    let rest = section_starts buf (sec + 80) n in
    if ltb 0 (word (sec + 40) 8 buf) && ltb 0 (word (sec + 48) 4 buf)
    then word (sec + 48) 4 buf ∷ rest
    else rest

-- Those of the segments among `n` load commands.
abbrev pub content_starts : List ℕ → ℕ → ℕ → List ℕ
content_starts buf off zero = []
content_starts buf off (suc n) =
    (if word off 4 buf == 0x19 then section_starts buf (off + 72) (word (off + 64) 4 buf) else [])
    ++ content_starts buf (off + word (off + 4) 4 buf) n

read_u32_le-word : (buf : List ℕ) (off v : ℕ) → read_u32_le buf off ≡ ok v → v ≡ word off 4 buf
read_u32_le-word buf off v h = ground arith

read_u64_le-word : (buf : List ℕ) (off v : ℕ) → read_u64_le buf off ≡ ok v → v ≡ word off 8 buf
read_u64_le-word buf off v h = ground arith

-- The least of the offsets found before and those of a list.
abbrev pub least : Option ℕ → List ℕ → Option ℕ
least found [] = found
least found (o ∷ offsets) = least (some (smaller found o)) offsets

least-append : (found : Option ℕ) (u v : List ℕ) → least found (u ++ v) ≡ least (least found u) v
least-append found [] v = refl
least-append found (o ∷ u) v = least-append (some (smaller found o)) u v

module _ (buf : List ℕ) where
  sections_loop-least :
      (sec n : ℕ) (before later : Option ℕ)
      → sections_loop buf sec n before ≡ ok later
      → later ≡ least before (section_starts buf sec n)
  unfolding sections_loop
  sections_loop-least sec zero before later h = cc
  sections_loop-least sec (suc n) before later h =
      elim (Result-cases (read_u32_le buf (sec + 48))) [
        | inr (e, f) ↦ absurd (ground arith)
        | inl (o, ro) ↦ elim (Result-cases (read_u64_le buf (sec + 40))) [
          | inr (e, f) ↦ absurd (ground arith)
          | inl (size, rs) ↦
              let eo = read_u32_le-word buf (sec + 48) o ro in
              let es = read_u64_le-word buf (sec + 40) size rs in
              elim (Bool-cases (ltb 0 size && ltb 0 o)) [
                | inl has ↦
                    let ih =
                      sections_loop-least (sec + 80) n (some (smaller before o)) later
                        (ground arith) in
                    ground arith
                | inr not_has ↦
                    let ih = sections_loop-least (sec + 80) n before later (ground arith) in
                    ground arith
              ]
        ]
      ]

  segment_min-least :
      (off cmd : ℕ) (before later : Option ℕ)
      → segment_min buf off cmd before ≡ ok later
      → later
        ≡ least before
            (if cmd == 0x19 then section_starts buf (off + 72) (word (off + 64) 4 buf) else [])
  unfolding segment_min
  segment_min-least off cmd before later h = elim (Bool-cases (cmd == 0x19)) [
    | inr e ↦ rw e (ground arith)
    | inl e ↦ elim (Result-cases (read_u32_le buf (off + 64))) [
      | inr (x, f) ↦ absurd (ground arith)
      | inl (nsects, r) ↦
          let en = read_u32_le-word buf (off + 64) nsects r in
          rw e (
            sections_loop-least (off + 72) nsects before later (ground arith)
            ∙ ap (λ n. least before (section_starts buf (off + 72) n)) en)
    ]
  ]

  commands_loop-least :
      (off n : ℕ) (before later : Option ℕ)
      → commands_loop buf off n before ≡ ok later
      → later ≡ least before (content_starts buf off n)
  unfolding commands_loop
  commands_loop-least off zero before later h = cc
  commands_loop-least off (suc n) before later h = elim (Result-cases (read_u32_le buf off)) [
    | inr (x, f) ↦ absurd (ground arith)
    | inl (cmd, rc) ↦ elim (Result-cases (read_u32_le buf (off + 4))) [
      | inr (x, f) ↦ absurd (ground arith)
      | inl (cmdsize, rs) ↦ elim (Result-cases (segment_min buf off cmd before)) [
        | inr (x, f) ↦ absurd (ground arith)
        | inl (found, m) ↦
            let ec = read_u32_le-word buf off cmd rc in
            let es = read_u32_le-word buf (off + 4) cmdsize rs in
            let ih = commands_loop-least (off + cmdsize) n found later (ground arith) in
            ih
            ∙ (ap (λ k. least found (content_starts buf (off + k) n)) es
                ∙ (ap (λ f. least f (content_starts buf (off + word (off + 4) 4 buf) n))
                      (segment_min-least off cmd before found m
                        ∙ ap
                            (λ c. least before (
                              if c == 0x19
                              then section_starts buf (off + 72) (word (off + 64) 4 buf)
                              else []))
                            ec)
                    ∙ sym (
                        least-append before
                          (if word off 4 buf == 0x19
                            then section_starts buf (off + 72) (word (off + 64) 4 buf)
                            else [])
                          (content_starts buf (off + word (off + 4) 4 buf) n))))
      ]
    ]
  ]

least-some : (a : ℕ) (l : List ℕ) (m : ℕ) → least (some a) l ≡ some m → (m ≤ a) × All (λ o. m ≤ o) l
least-some a [] m h = (ground arith, tt)
least-some a (o ∷ l) m h =
    let (le, all) = least-some (min a o) l m h in (omega arith, (omega arith, all))

least-none : (l : List ℕ) (m : ℕ) → least none l ≡ some m → All (λ o. m ≤ o) l
least-none [] m h = tt
least-none (o ∷ l) m h = least-some o l m h

All-imp : {P Q : ℕ → Type 0} (l : List ℕ) → ((o : ℕ) → P o → Q o) → All P l → All Q l
All-imp [] f h = tt
All-imp (o ∷ l) f (x, h) = (f o x, All-imp l f h)

-- Without a section there is no room.
section_found :
    (found : Option ℕ) (base size k : ℕ)
    → base + 32 + size + k ≤ base + unwrap_or found size
    → (m : ℕ) × (found ≡ some m) × (base + 32 + size + k ≤ base + m)
section_found none base size k h = absurd (omega arith)
section_found (some m) base size k h = (m, refl, h)

-- A successful patch writes the two counters of the header, and the new command behind the load
-- commands, over zeros and in front of the contents of every section that the load commands name;
-- all other bytes of the file stay as they are, and so does its length.
pub patch_thin_64-safe :
    (buf : List ℕ) (base : ℕ) (path buf' : List ℕ) (n size : ℕ)
    → patch_thin_64 buf base path ≡ ok buf'
    → read_u32_le buf (base + 16) ≡ ok n
    → read_u32_le buf (base + 20) ≡ ok size
    → (buf' ≡ patched_file buf base n size (build_dylib_command path))
      × (length buf' ≡ length buf)
      × (all_zero (take (length (build_dylib_command path)) (drop (base + 32 + size) buf)) ≡ true)
      × All
          (λ o. 32 + size + length (build_dylib_command path) ≤ o)
          (content_starts buf (base + 32) n)
patch_thin_64-safe buf base path buf' n size h rn rs =
    let p = patch_thin_64-IsPatch buf base path buf' h in
    let cmd = build_dylib_command path in
    let en : p.ncmds ≡ n = ok_injective (sym p.reads_ncmds ∙ rn) in
    let es : p.sizeofcmds ≡ size = ok_injective (sym p.reads_sizeofcmds ∙ rs) in
    let (m, found, room) = section_found p.section_start base p.sizeofcmds (length cmd) p.room in
    let smallest : least none (content_starts buf (base + 32) p.ncmds) ≡ some m =
      sym (
        commands_loop-least buf (base + 32) p.ncmds none p.section_start
          (unfold min_section_file_offset in p.finds_section))
      ∙ found in
    let free : p.free ≡ take (length cmd) (drop (base + 32 + p.sizeofcmds) buf) =
      let r = p.reads_free in ground arith in
    (
      p.written
          ∙ (ap (λ k. write_command buf base k p.sizeofcmds cmd) en
              ∙ (ap (λ k. write_command buf base n k cmd) es
                  ∙ write_command-eq-patched_file buf base size cmd
                      (omega (arith, es, patch-within p)) n)),
      length-patch p,
      ap (λ k. all_zero (take (length cmd) (drop (base + 32 + k) buf))) (sym es)
          ∙ (ap all_zero (sym free) ∙ p.free_zero),
      subst (λ k. All (λ o. 32 + size + length cmd ≤ o) (content_starts buf (base + 32) k)) en
          (All-imp (content_starts buf (base + 32) p.ncmds) (λ o le. omega arith)
            (least-none (content_starts buf (base + 32) p.ncmds) m smallest)),
    )
