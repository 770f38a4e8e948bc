-- ===== src/Installer/Macho/Slices.antt =====
-- A patch of a whole file, thin or universal, is a patch of the slices that its header names.
use mathlib.Core.Path.{subst}
use pulse_sdk.Prelude.{
  ℕ, ◌+◌, ◌%◌, ◌^◌, ◌<◌, ◌≡◌, ◌≢◌, refl, sym, ap, ◌∙◌, Bool, true, false, ◌||◌, List, [], ◌∷◌,
  length, take, drop, ltb, ◌==◌, ◌⊎◌, inl, inr, arith, Result, ok, err, ◌>>=◌, >>=-eq-ok,
  Bool-cases, Option-cases,
}
use pulse_sdk.Prelude.Buffer.{slice, from_le, from_be}
use pulse_sdk.Installer.Macho.{
  ThinError, panicked, PatchError, FatState, read_u32_be, fat_offsets, patch_thin_64, patch_outcome,
  patch_slice, slices_loop, conclude_fat, patch_fat, thin_outcome, patch_magic,
  add_load_dylib_command,
}
use pulse_sdk.Installer.Macho.Insertion.{ok_injective, patch_thin_64-IsPatch, length-patch}
use pulse_sdk.Installer.Macho.Sections.{word}
use pulse_sdk.Installer.Macho.Tables.{
  be_word, fat_slices, slices_of, read_u32_be-be_word, fat_offsets-eq-fat_slices,
}

-- Why a slice is passed over.
pub data Passed (path buf : List ℕ) (base : ℕ) : Type 0 where
  outside : length buf < (base + 4) % 2 ^ 64 → Passed path buf base
  other_magic : word base 4 buf ≢ 0xfeedfacf → Passed path buf base
  failed : (e : ThinError) → patch_thin_64 buf base path ≡ err e → Passed path buf base

-- A walk over slices, with the list of those that are patched.
pub data Patches (path : List ℕ) : List ℕ → List ℕ → List ℕ → List ℕ → Type 0 where
  finished : {buf buf' : List ℕ} → buf ≡ buf' → Patches path [] [] buf buf'
  patched :
      {base : ℕ} {bases done buf buf' buf'' : List ℕ}
      → word base 4 buf ≡ 0xfeedfacf
      → patch_thin_64 buf base path ≡ ok buf'
      → Patches path bases done buf' buf''
      → Patches path (base ∷ bases) (base ∷ done) buf buf''
  passed :
      {base : ℕ} {bases done buf buf' : List ℕ}
      → Passed path buf base
      → Patches path bases done buf buf'
      → Patches path (base ∷ bases) done buf buf'

length-Patches :
    {path bases done buf buf' : List ℕ}
    → Patches path bases done buf buf'
    → length buf' ≡ length buf
length-Patches (finished e) = ap length (sym e)
length-Patches (patched m h rest) =
    length-Patches rest ∙ length-patch (patch_thin_64-IsPatch _ _ _ _ h)
length-Patches (passed p rest) = length-Patches rest

abbrev any_done : List ℕ → Bool
any_done [] = false
any_done (base ∷ bases) = true

-- An error of a slice changes nothing, and a panic is no state.
patch_outcome_err :
    (s s' : FatState) (base : ℕ) (e : ThinError)
    → patch_outcome s base (err e) ≡ ok s'
    → (s'.buf ≡ s.buf) × (s'.patched_any ≡ s.patched_any)
unfolding patch_outcome
patch_outcome_err s s' base panicked h = cc
patch_outcome_err s s' base _ h =
    let e = ok_injective h in (ap (λ t. t.buf) (sym e), ap (λ t. t.patched_any) (sym e))

-- A round of the loop: the slice is patched, or passed over.
abbrev Round : List ℕ → FatState → ℕ → FatState → Type 0
Round path s base s' =
    ((word base 4 s.buf ≡ 0xfeedfacf)
      × (patch_thin_64 s.buf base path ≡ ok s'.buf)
      × (s'.patched_any ≡ true))
    ⊎ (Passed path s.buf base × (s'.buf ≡ s.buf) × (s'.patched_any ≡ s.patched_any))

patch_outcome-Round :
    (path : List ℕ) (s s' : FatState) (base : ℕ) (r : Result ThinError (List ℕ))
    → word base 4 s.buf ≡ 0xfeedfacf
    → patch_thin_64 s.buf base path ≡ r
    → patch_outcome s base r ≡ ok s'
    → Round path s base s'
unfolding patch_outcome
patch_outcome-Round path s s' base (ok buf) m e h =
    let t = ok_injective h in inl (m, e ∙ ap (λ t. ok t.buf) t, sym (ap (λ t. t.patched_any) t))
patch_outcome-Round path s s' base (err x) m e h =
    let (b, any) = patch_outcome_err s s' base x h in inr (failed x e, b, any)

patch_slice-Round :
    (path : List ℕ) (s s' : FatState) (base : ℕ)
    → patch_slice path s base ≡ ok s'
    → Round path s base s'
unfolding patch_slice
patch_slice-Round path s s' base h = elim (Bool-cases (ltb (length s.buf) ((base + 4) % 2 ^ 64))) [
  | inl e ↦ inr (outside (ground arith), ground arith, ground arith)
  | inr e ↦ elim (Option-cases (slice base 4 s.buf)) [
    | inl f ↦ absurd (ground arith)
    | inr (magic, f) ↦
        let m : magic ≡ take 4 (drop base s.buf) = ground arith in
        elim (Bool-cases (from_le magic == 0xfeedfacf)) [
          | inl g ↦
              patch_outcome-Round path s s' base (patch_thin_64 s.buf base path)
                (ap from_le (sym m) ∙ ground arith) refl (ground arith)
          | inr g ↦ inr (
            other_magic (λ w. let v = ap from_le m ∙ w in ground arith),
            ground arith,
            ground arith,
          )
        ]
  ]
]

slices_loop-Patches :
    (path : List ℕ) (s s' : FatState) (bases : List ℕ)
    → slices_loop path s bases ≡ ok s'
    → (done : List ℕ) × Patches path bases done s.buf s'.buf
      × (s'.patched_any ≡ (s.patched_any || any_done done))
unfolding slices_loop
slices_loop-Patches path s s' [] h =
    let e = ok_injective h in
    ([], finished (ap (λ t. t.buf) e), let any = ap (λ t. t.patched_any) e in ground arith)
slices_loop-Patches path s s' (base ∷ bases) h =
    let (t, first, rest) = >>=-eq-ok (patch_slice path s base) (λ t. slices_loop path t bases) h in
    let (done, walk, any) = slices_loop-Patches path t s' bases rest in
    elim (patch_slice-Round path s t base first) [
      | inl (m, e, is) ↦ (base ∷ done, patched m e walk, ground arith)
      | inr (p, same, any') ↦
          (done, passed p (subst (λ b. Patches path bases done b s'.buf) same walk), ground arith)
    ]

conclude_fat-eq-ok :
    (s : FatState) (buf' : List ℕ)
    → conclude_fat s ≡ ok buf'
    → (s.patched_any ≡ true) × (s.buf ≡ buf')
unfolding conclude_fat
conclude_fat-eq-ok s buf' h = (ground arith, ground arith)

-- What a patch of these slices comes to.
abbrev Patched : List ℕ → List ℕ → List ℕ → List ℕ → Type 0
Patched path bases buf buf' = (done : List ℕ) × (done ≢ []) × Patches path bases done buf buf'

patch_fat-Patched :
    (path buf buf' : List ℕ) (fat64 : Bool)
    → patch_fat buf path fat64 ≡ ok buf'
    → Patched path (fat_slices fat64 buf) buf buf'
unfolding patch_fat
patch_fat-Patched path buf buf' fat64 h =
    let start : FatState = record { buf = buf; patched_any = false; errors = [] } in
    let loops : List ℕ → Result PatchError (List ℕ) =
      λ bases. slices_loop path start bases >>= conclude_fat in
    let (nfat, count, h1) =
      >>=-eq-ok (read_u32_be buf 4) (λ nfat. fat_offsets fat64 buf 8 nfat >>= loops) h in
    let (bases, offsets, h2) = >>=-eq-ok (fat_offsets fat64 buf 8 nfat) loops h1 in
    let (s, looped, h3) = >>=-eq-ok (slices_loop path start bases) conclude_fat h2 in
    let (is, e) = conclude_fat-eq-ok s buf' h3 in
    let (done, walk, any) = slices_loop-Patches path start s bases looped in
    let table =
      fat_offsets-eq-fat_slices fat64 buf bases nfat (read_u32_be-be_word buf 4 nfat count)
        offsets in
    (
      done,
      λ nothing. let w = ap any_done nothing in cc,
      subst (λ l. Patches path l done buf buf') table
          (subst (λ b. Patches path bases done buf b) e walk),
    )

thin_outcome-eq-ok :
    (r : Result ThinError (List ℕ)) (buf' : List ℕ) → thin_outcome r ≡ ok buf' → r ≡ ok buf'
unfolding thin_outcome
thin_outcome-eq-ok (ok buf) buf' h = cc
thin_outcome-eq-ok (err e) buf' h = cc

patch_magic-Patched :
    (buf path buf' : List ℕ)
    → patch_magic (word 0 4 buf) (be_word 0 4 buf) buf path ≡ ok buf'
    → Patched path (slices_of buf) buf buf'
unfolding patch_magic
patch_magic-Patched buf path buf' h = elim (Bool-cases (word 0 4 buf == 0xfeedfacf)) [
  | inl e ↦ rw e (
    0 ∷ [],
    λ nothing. cc,
    patched (ground arith) (thin_outcome-eq-ok (patch_thin_64 buf 0 path) buf' (ground arith))
        (finished refl),
  )
  | inr e ↦ elim (Bool-cases (be_word 0 4 buf == 0xcafebabf || be_word 0 4 buf == 0xbfbafeca)) [
    | inl f ↦ rw (e, f) (patch_fat-Patched path buf buf' true (ground arith))
    | inr f ↦ rw (e, f) (patch_fat-Patched path buf buf' false (ground arith))
  ]
]

-- A file that is patched, thin or universal, has its slices visited in the order of the table of
-- its header: a slice is patched if it begins with the magic number of a 64-bit Mach-O file and its
-- patch succeeds, and passed over if it lies outside the file, begins otherwise, or its patch fails.
-- One slice at least is patched, and the length of the file stays.
pub add_load_dylib_command-Patches :
    (buf path buf' : List ℕ)
    → add_load_dylib_command buf path ≡ ok buf'
    → (done : List ℕ) × (done ≢ [])
      × Patches path (slices_of buf) done buf buf'
      × (length buf' ≡ length buf)
unfolding add_load_dylib_command
add_load_dylib_command-Patches buf path buf' h = elim (Option-cases (slice 0 4 buf)) [
  | inl e ↦ absurd (ground arith)
  | inr (magic, e) ↦
      let m : magic ≡ take 4 (drop 0 buf) = ground arith in
      let run : patch_magic (from_le magic) (from_be 0 magic) buf path ≡ ok buf' = ground arith in
      let (done, some_done, walk) =
        patch_magic-Patched buf path buf'
          (subst (λ b. patch_magic (from_le b) (from_be 0 b) buf path ≡ ok buf') m run) in
      (done, some_done, walk, length-Patches walk)
]
