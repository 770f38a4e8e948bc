-- ===== src/Tests/Executables.antt =====
-- Runs of the Mach-O patcher on a small executable, and its theorems there.
use pulse_sdk.Prelude.{
  ℕ, ◌+◌, ◌%◌, ◌^◌, ◌≤◌, ◌≡◌, ◌≢◌, refl, true, some, List, [], ◌∷◌, ◌++◌, length, take, drop,
  replicate, ok, err, Result, All, arith,
}
use pulse_sdk.Prelude.Buffer.{u32_le_bytes}
use pulse_sdk.Installer.Macho.{
  ThinError, panicked, read_u32_le, build_dylib_command, all_zero, patch_thin_64, patch_fat,
  add_load_dylib_command,
}
use pulse_sdk.Installer.Macho.Commands.{load_commands, total_length, patch_thin_64-load_commands}
use pulse_sdk.Installer.Macho.Sections.{content_starts, patch_thin_64-safe}
use pulse_sdk.Installer.Macho.Layout.{patched_file}
use pulse_sdk.Installer.Macho.Tables.{slices_of}
use pulse_sdk.Installer.Macho.Slices.{Patches, add_load_dylib_command-Patches}
use pulse_sdk.Installer.Transaction.{loader_dylib_load_path}

abbrev header : List ℕ
header =
    u32_le_bytes 0xfeedfacf
    ++ (replicate 12 0 ++ (u32_le_bytes 1 ++ (u32_le_bytes 152 ++ replicate 8 0)))

-- A segment of one section, whose 4 bytes begin at `start`.
abbrev segment : ℕ → List ℕ
segment start =
    u32_le_bytes 0x19
    ++ (u32_le_bytes 152
        ++ (replicate 56 0
            ++ (u32_le_bytes 1
                ++ (replicate 44 0
                    ++ (u32_le_bytes 4
                        ++ (replicate 4 0 ++ (u32_le_bytes start ++ replicate 28 0)))))))

abbrev thin_file : List ℕ
thin_file = header ++ (segment 248 ++ (replicate 64 0 ++ (1 ∷ 2 ∷ 3 ∷ 4 ∷ [])))

-- The file ends behind its load commands.
abbrev cut_file : List ℕ
cut_file = header ++ segment 248

abbrev fat_file : List ℕ
fat_file =
    (0xca ∷ 0xfe ∷ 0xba ∷ 0xbe ∷ 0 ∷ 0 ∷ 0 ∷ 1 ∷ [])
    ++ (replicate 11 0 ++ (28 ∷ (replicate 8 0 ++ thin_file)))

abbrev after : Result ThinError (List ℕ) → List ℕ
after (ok buf) = buf
after (err e) = []

patched : List ℕ
unfolding patch_thin_64 build_dylib_command
patched = after (patch_thin_64 thin_file 0 loader_dylib_load_path)

patched_lem : patch_thin_64 thin_file 0 loader_dylib_load_path ≡ ok patched
unfolding patched
patched_lem = refl

thin_patched : add_load_dylib_command thin_file loader_dylib_load_path ≡ ok patched
unfolding add_load_dylib_command patched
thin_patched = refl

fat_patched :
    add_load_dylib_command fat_file loader_dylib_load_path ≡ ok (take 28 fat_file ++ patched)
unfolding add_load_dylib_command patch_fat patch_thin_64 patched build_dylib_command
fat_patched = refl

one_command : load_commands thin_file 32 1 ≡ some (segment 248 ∷ [])
unfolding load_commands
one_command = refl

-- The file ends where the new command would stand.
cut_panics : patch_thin_64 cut_file 0 loader_dylib_load_path ≡ err panicked
unfolding patch_thin_64 build_dylib_command
cut_panics = refl

slices_of_fat : slices_of fat_file ≡ 28 ∷ []
slices_of_fat = refl

-- A universal file of 64-bit offsets: its entries take 32 bytes each.
abbrev fat64_file : List ℕ
fat64_file =
    (0xca ∷ 0xfe ∷ 0xba ∷ 0xbf ∷ 0 ∷ 0 ∷ 0 ∷ 2 ∷ [])
    ++ (replicate 15 0
        ++ (72 ∷ (replicate 31 0 ++ ((28 + 60) ∷ (replicate 16 0 ++ replicate 16 0)))))

slices_of_fat64 : slices_of fat64_file ≡ 72 ∷ 88 ∷ []
slices_of_fat64 = refl

-- The witnesses.
patch_thin_64-load_commands_example :
    (load_commands patched (0 + 32) (1 + 1)
      ≡ some ((segment 248 ∷ []) ++ build_dylib_command loader_dylib_load_path ∷ []))
    × (read_u32_le patched (0 + 16) ≡ ok ((1 + 1) % 2 ^ 32))
    × (read_u32_le patched (0 + 20)
        ≡ ok (
            total_length ((segment 248 ∷ []) ++ build_dylib_command loader_dylib_load_path ∷ [])
            % 2 ^ 32))
patch_thin_64-load_commands_example =
    patch_thin_64-load_commands thin_file 0 loader_dylib_load_path patched 1 152 (segment 248 ∷ [])
      patched_lem (omega arith) refl refl one_command refl

patch_thin_64-safe_example :
    (patched ≡ patched_file thin_file 0 1 152 (build_dylib_command loader_dylib_load_path))
    × (length patched ≡ length thin_file)
    × (all_zero (
          take
            (length (build_dylib_command loader_dylib_load_path))
            (drop (0 + 32 + 152) thin_file))
        ≡ true)
    × All
        (λ o. 32 + 152 + length (build_dylib_command loader_dylib_load_path) ≤ o)
        (content_starts thin_file (0 + 32) 1)
patch_thin_64-safe_example =
    patch_thin_64-safe thin_file 0 loader_dylib_load_path patched 1 152 patched_lem refl refl

add_load_dylib_command-Patches_example :
    (done : List ℕ) × (done ≢ [])
    × Patches loader_dylib_load_path
        (slices_of fat_file)
        done
        fat_file
        (take 28 fat_file ++ patched)
    × (length (take 28 fat_file ++ patched) ≡ length fat_file)
add_load_dylib_command-Patches_example =
    add_load_dylib_command-Patches fat_file loader_dylib_load_path (take 28 fat_file ++ patched)
      fat_patched
