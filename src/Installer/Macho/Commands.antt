-- ===== src/Installer/Macho/Commands.antt =====
-- The load commands of a file, read one after the other, before and after a patch.
use pulse_sdk.Prelude.{
  ℕ, zero, suc, ◌+◌, ◌%◌, ◌^◌, ◌≤◌, ◌<◌, ◌≡◌, refl, sym, ap, ◌∙◌, Option, none, some, List, [], ◌∷◌,
  ◌++◌, length, take, drop, replicate, length-take, length-drop, drop-drop, ltb, ◌||◌, inl, inr,
  arith, if◌then◌else◌, ok, Option-cases,
}
use pulse_sdk.Prelude.Buffer.{
  from_le, u32_le_bytes, from_le-u32_le_bytes, length-copy_at, slice-copy_at_apart,
  slice-copy_at_self,
}
use pulse_sdk.Installer.Macho.{read_u32_le, build_dylib_command, dylib_cmdsize, patch_thin_64}
use pulse_sdk.Installer.Macho.Insertion.{
  ok_injective, patch_thin_64-IsPatch, length-patch, slice-patch, slice-patch_command, patch-within,
  read_u32_le-patch,
}

-- The size that a load command declares.
abbrev declared_size : List ℕ → ℕ → ℕ
declared_size buf off = from_le (take 4 (drop (off + 4) buf))

-- `n` load commands from an offset on, as a loader reads them: each has the size that it declares,
-- 8 bytes at least, and lies in the file.
unfoldable pub load_commands : List ℕ → ℕ → ℕ → Option (List (List ℕ))
load_commands buf off zero = some []
load_commands buf off (suc n) =
    let size = declared_size buf off in
    if ltb size 8 || ltb (length buf) (off + size)
    then none
    else elim (load_commands buf (off + size) n) [
      | none ↦ none
      | some rest ↦ some (take size (drop off buf) ∷ rest)
    ]

abbrev pub total_length : List (List ℕ) → ℕ
total_length [] = 0
total_length (c ∷ commands) = length c + total_length commands

-- Where a walk that succeeds begins, the first command has its declared size.
load_commands-eq-some :
    (buf : List ℕ) (off n : ℕ) (commands : List (List ℕ))
    → load_commands buf off (suc n) ≡ some commands
    → (rest : List (List ℕ)) × (8 ≤ declared_size buf off)
      × (off + declared_size buf off ≤ length buf)
      × (load_commands buf (off + declared_size buf off) n ≡ some rest)
      × (commands ≡ take (declared_size buf off) (drop off buf) ∷ rest)
unfolding load_commands
load_commands-eq-some buf off n commands h =
    elim (Option-cases (load_commands buf (off + declared_size buf off) n)) [
      | inl e ↦ absurd (ground arith)
      | inr (rest, e) ↦ (rest, ground arith, ground arith, e, ground arith)
    ]

load_commands_step :
    (buf : List ℕ) (off n size : ℕ) (rest : List (List ℕ))
    → declared_size buf off ≡ size
    → 8 ≤ size
    → off + size ≤ length buf
    → load_commands buf (off + size) n ≡ some rest
    → load_commands buf off (suc n) ≡ some (take size (drop off buf) ∷ rest)
unfolding load_commands
load_commands_step buf off n size rest e h k r = ground arith

length-slice : (at n : ℕ) (buf : List ℕ) → at + n ≤ length buf → length (take n (drop at buf)) ≡ n
length-slice at n buf h = omega (arith, length-take n (drop at buf), length-drop at buf)

-- Two files that agree on the commands up to `fin`, and a further command there.
load_commands_extended :
    (buf buf' : List ℕ) (off n fin : ℕ) (commands : List (List ℕ)) (cmd : List ℕ)
    → length buf' ≡ length buf
    → ((at k : ℕ) → off ≤ at → at + k ≤ fin → take k (drop at buf') ≡ take k (drop at buf))
    → load_commands buf off n ≡ some commands
    → off + total_length commands ≡ fin
    → 8 ≤ length cmd
    → fin + length cmd ≤ length buf
    → take (length cmd) (drop fin buf') ≡ cmd
    → declared_size buf' fin ≡ length cmd
    → load_commands buf' off (suc n) ≡ some (commands ++ cmd ∷ [])
load_commands_extended buf buf' off zero fin commands cmd len same h total long inside here size =
    let nothing : commands ≡ [] = unfold load_commands in cc in
    let at : off ≡ fin = let t = ap total_length nothing in omega arith in
    let stop : load_commands buf' (off + length cmd) 0 ≡ some [] = unfold load_commands in refl in
    load_commands_step buf' off 0 (length cmd) [] (ap (declared_size buf') at ∙ size) long
      (omega arith) stop
    ∙ (ap (λ o. some (take (length cmd) (drop o buf') ∷ [])) at
        ∙ (ap (λ c. some (c ∷ [])) here ∙ ap (λ l. some (l ++ cmd ∷ [])) (sym nothing)))
load_commands_extended buf buf' off (suc n) fin commands cmd len same h total long inside here
      size =
    let (rest, at_least, within, r, e) = load_commands-eq-some buf off n commands h in
    let first = declared_size buf off in
    let sizes : total_length commands ≡ first + total_length rest =
      omega (arith, ap total_length e, length-slice off first buf within) in
    let declared : declared_size buf' off ≡ first =
      ap from_le (same (off + 4) 4 (omega arith) (omega arith)) in
    let later =
      load_commands_extended buf buf' (off + first) n fin rest cmd len
        (λ at k h l. same at k (omega arith) l) r (omega arith) long inside here size in
    load_commands_step buf' off (suc n) first (rest ++ cmd ∷ []) declared at_least (omega arith)
      later
    ∙ (ap (λ c. some (c ∷ (rest ++ cmd ∷ []))) (same off first (omega arith) (omega arith))
        ∙ ap (λ l. some (l ++ cmd ∷ [])) (sym e))

length-replicate : (n a : ℕ) → length (replicate n a) ≡ n
length-replicate zero a = refl
length-replicate (suc n) a = ap suc (length-replicate n a)

length-build_dylib_command :
    (path : List ℕ) → length (build_dylib_command path) ≡ dylib_cmdsize path
unfolding build_dylib_command
length-build_dylib_command path = simp (length-copy_at, length-replicate)

-- The size field of the new command.
slice-build_dylib_command :
    (path : List ℕ) → take 4 (drop 4 (build_dylib_command path)) ≡ u32_le_bytes (dylib_cmdsize path)
unfolding build_dylib_command
slice-build_dylib_command path =
    slice-copy_at_apart 4 4 24 path _ (inl (omega arith))
    ∙ (slice-copy_at_apart 4 4 20 (u32_le_bytes 0) _ (inl (omega arith))
        ∙ (slice-copy_at_apart 4 4 16 (u32_le_bytes 0) _ (inl (omega arith))
            ∙ (slice-copy_at_apart 4 4 12 (u32_le_bytes 2) _ (inl (omega arith))
                ∙ (slice-copy_at_apart 4 4 8 (u32_le_bytes 24) _ (inl (omega arith))
                    ∙ slice-copy_at_self 4 (u32_le_bytes (dylib_cmdsize path)) _ (
                        omega (
                          arith,
                          length-copy_at 0 (u32_le_bytes 0x0c) (replicate (dylib_cmdsize path) 0),
                          length-replicate (dylib_cmdsize path) 0,
                        ))))))

take-drop-take :
    (n m k : ℕ) (xs : List ℕ) → m + n ≤ k → take n (drop m (take k xs)) ≡ take n (drop m xs)
take-drop-take zero m k xs h = refl
take-drop-take (suc n) zero zero xs h = absurd (omega arith)
take-drop-take (suc n) zero (suc k) [] h = refl
take-drop-take (suc n) zero (suc k) (x ∷ xs) h =
    ap (λ r. x ∷ r) (take-drop-take n zero k xs (omega arith))
take-drop-take (suc n) (suc m) zero xs h = absurd (omega arith)
take-drop-take (suc n) (suc m) (suc k) [] h = refl
take-drop-take (suc n) (suc m) (suc k) (x ∷ xs) h = take-drop-take (suc n) m k xs (omega arith)

-- A file that holds the new command at an offset declares its size there.
declared_size_command :
    (path buf : List ℕ) (at : ℕ)
    → length path < 2 ^ 31
    → take (length (build_dylib_command path)) (drop at buf) ≡ build_dylib_command path
    → declared_size buf at ≡ length (build_dylib_command path)
declared_size_command path buf at h e =
    let cmd = build_dylib_command path in
    let size = length-build_dylib_command path in
    ap (λ l. from_le (take 4 l)) (sym (drop-drop 4 at buf))
    ∙ (ap from_le (sym (take-drop-take 4 4 (length cmd) (drop at buf) (omega arith)))
        ∙ (ap (λ c. from_le (take 4 (drop 4 c))) e
            ∙ (ap from_le (slice-build_dylib_command path)
                ∙ (from_le-u32_le_bytes (dylib_cmdsize path) ∙ omega arith))))

total_length-append :
    (a b : List (List ℕ)) → total_length (a ++ b) ≡ total_length a + total_length b
total_length-append [] b = omega arith
total_length-append (c ∷ a) b = omega (arith, total_length-append a b)

-- A patched file has the load commands that it had, and the new one behind them, and its two
-- counters say so, if the commands fill the size that the header gives and the path is shorter than
-- 2^31 bytes.
pub patch_thin_64-load_commands :
    (buf : List ℕ) (base : ℕ) (path buf' : List ℕ) (n size : ℕ) (commands : List (List ℕ))
    → patch_thin_64 buf base path ≡ ok buf'
    → length path < 2 ^ 31
    → read_u32_le buf (base + 16) ≡ ok n
    → read_u32_le buf (base + 20) ≡ ok size
    → load_commands buf (base + 32) n ≡ some commands
    → total_length commands ≡ size
    → (load_commands buf' (base + 32) (n + 1) ≡ some (commands ++ build_dylib_command path ∷ []))
      × (read_u32_le buf' (base + 16) ≡ ok ((n + 1) % 2 ^ 32))
      × (read_u32_le buf' (base + 20)
          ≡ ok (total_length (commands ++ build_dylib_command path ∷ []) % 2 ^ 32))
patch_thin_64-load_commands buf base path buf' n size commands h short rn rs walk total =
    let cmd = build_dylib_command path in
    let p = patch_thin_64-IsPatch buf base path buf' h in
    let en : p.ncmds ≡ n = ok_injective (sym p.reads_ncmds ∙ rn) in
    let es : p.sizeofcmds ≡ size = ok_injective (sym p.reads_sizeofcmds ∙ rs) in
    let fin = base + 32 + p.sizeofcmds in
    let (rn', rs') = read_u32_le-patch p in
    let again : n + 1 ≡ suc n = omega arith in
    let full : p.sizeofcmds + length cmd ≡ total_length (commands ++ cmd ∷ []) =
      omega (arith, total_length-append commands (cmd ∷ [])) in
    (
      ap (load_commands buf' (base + 32)) again
          ∙ load_commands_extended buf buf' (base + 32) n fin commands cmd (length-patch p)
              (λ at k a b.
                slice-patch p at k (inr (omega arith)) (inr (omega arith)) (inl (omega arith)))
              walk (omega arith) (omega (arith, length-build_dylib_command path)) (patch-within p)
              (slice-patch_command p)
              (declared_size_command path buf' fin short (slice-patch_command p)),
      rn' ∙ ap (λ (k : ℕ). ok ((k + 1) % 2 ^ 32)) en,
      rs' ∙ ap (λ (k : ℕ). ok (k % 2 ^ 32)) full,
    )
