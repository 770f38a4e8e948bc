-- ===== src/Tests/Replaced.antt =====
-- A file that is replaced.
use pulse_sdk.Prelude.{false, some, [], ◌∷◌, ◌≡◌, refl}
use pulse_sdk.Prelude.Text.{codes, words, decimal, decimal_loop}
use pulse_sdk.Installer.Paths.{
  FilePath, key, key_eq, join, parent_path, without_dots, ends_with_slash,
}
use pulse_sdk.Installer.Fs.{Bytes, Fs, pass, fail, write, rename, file_at}
use pulse_sdk.Installer.Native.{
  temporary, write_fresh_replace, IsReplacement, write_fresh_replace-IsReplacement,
}
use pulse_sdk.Tests.Installed.{full_disk}

abbrev target : FilePath
target = codes "/G.app/Contents/MacOS/Geometry Dash"

abbrev new_bytes : Bytes
new_bytes = 9 ∷ 9 ∷ []

-- The temporary file is written, and moving it fails: it stays where it is.
abbrev failing_disk : Fs
failing_disk = record full_disk { faults = pass ∷ fail ∷ [] }

leaves_temporary :
    file_at (write_fresh_replace 7 target new_bytes failing_disk).1 (key (temporary 7 target))
    ≡ some new_bytes
unfolding write_fresh_replace write rename key words without_dots join ends_with_slash parent_path
    decimal decimal_loop
leaves_temporary = refl

apart : key_eq (key (temporary 7 target)) (key target) ≡ false
unfolding key words without_dots join ends_with_slash parent_path decimal decimal_loop
apart = refl

-- The witness.
write_fresh_replace-IsReplacement_example :
    IsReplacement
      (key (temporary 7 target))
      (key target)
      new_bytes
      failing_disk
      (write_fresh_replace 7 target new_bytes failing_disk)
write_fresh_replace-IsReplacement_example =
    write_fresh_replace-IsReplacement 7 target new_bytes failing_disk apart
