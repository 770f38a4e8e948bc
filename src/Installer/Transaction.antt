-- ===== src/Installer/Transaction.antt =====
-- The transaction of cli/src/installer.rs: `install_with`, its rollback, and the injector that the
-- host uses.
pub mod Bundle
pub mod Steps
pub mod Confined
pub mod Changes
pub mod Entries
pub mod Recorded
pub mod Restored
pub mod Rollback
pub mod Outcomes
use pulse_sdk.Prelude.{
  ℕ, Bool, true, false, ◌||◌, List, [], ◌∷◌, ◌++◌, Result, ok, err, if◌then◌else◌,
}
use pulse_sdk.Prelude.Text.{codes}
use pulse_sdk.Installer.Paths.{
  FilePath, Key, key, join, parent, parent_path, key_eq, is_prefix, backup_root_for,
}
use pulse_sdk.Installer.Fs.{
  Fs, Bytes, exists, read, write, copy, remove_file, create_dir_all, remove_dir_all,
}
use pulse_sdk.Installer.Action.{InstallError, Action, pure, raise, ◌>>=◌, attempt, attempt_read, io}
use pulse_sdk.Installer.Recognize.{
  GdInstallation, executable, code_signature, dylib_dest, recognize_gd,
  ensure_not_already_installed,
}
use pulse_sdk.Installer.Backup.{
  BackupKind, modified, created_absent, BackupEntry, BackupManifest, empty_manifest,
  record_before_modify, record_created_absent, persist,
}

-- `trait Injector`
pub record Injector : Type 0 where
  pub patch_lc_load_dylib : FilePath → List ℕ → Action (Unit {0})
  pub adhoc_resign_with_disable_lv : GdInstallation → Action (Unit {0})

abbrev pub loader_dylib_load_path : List ℕ
loader_dylib_load_path = codes "@loader_path/libpulse_loader.dylib"

-- `copy_file`; every destination of the installer has a parent.
unfoldable pub copy_file : FilePath → FilePath → Action (Unit {0})
copy_file src dest = attempt (io (parent_path dest)) (create_dir_all (parent (key dest))) >>= λ _.
    attempt (io src) (copy (key src) (key dest))

-- One entry of `restore_from_backup`: errors are passed over.
unfoldable pub restore_entry : FilePath → BackupEntry → Fs → List FilePath × Fs
restore_entry gd_root e fs =
    let abs = join gd_root e.rel_path in
    elim e.kind [
      | modified bytes hash ↦
          let (written, fs') = write (key abs) bytes fs in (if written then abs ∷ [] else [], fs')
      | created_absent ↦
          if exists fs (key abs)
          then (let (_, fs') = remove_file (key abs) fs in (abs ∷ [], fs'))
          else (abs ∷ [], fs)
    ]

restore_entries : FilePath → List BackupEntry → Fs → List FilePath × Fs
restore_entries gd_root [] fs = ([], fs)
restore_entries gd_root (e ∷ entries) fs =
    let (touched, fs') = restore_entry gd_root e fs in
    let (touched', fs'') = restore_entries gd_root entries fs' in (touched ++ touched', fs'')

unfoldable pub restore_from_backup : BackupManifest → Fs → List FilePath × Fs
unfolding restore_entries restore_entry
restore_from_backup backup fs =
    let (touched, fs') = restore_entries backup.gd_root backup.entries fs in
    let (_, fs'') = remove_dir_all (key (backup_root_for backup.gd_root)) fs' in (touched, fs'')

-- `HostSeamInjector`
abbrev patch_marker : List ℕ
patch_marker = 10 ∷ (codes "__PULSE_LC_LOAD_DYLIB__" ++ 9 ∷ [])

abbrev resign_marker : List ℕ
resign_marker = codes "<pulse ad-hoc resign: com.apple.security.cs.disable-library-validation>"

unfoldable pub host_patch : FilePath → List ℕ → Action (Unit {0})
host_patch exe load_path = attempt_read (io exe) (read (key exe)) >>= λ bytes.
    attempt (io exe) (write (key exe) (bytes ++ (patch_marker ++ (load_path ++ 10 ∷ []))))

unfoldable pub host_resign : GdInstallation → Action (Unit {0})
host_resign gd =
    let signature = code_signature gd in
    attempt (io (parent_path signature)) (create_dir_all (parent (key signature))) >>= λ _.
    attempt (io signature) (write (key signature) resign_marker)

abbrev pub host_seam_injector : Injector
host_seam_injector = record {
  patch_lc_load_dylib = host_patch;
  adhoc_resign_with_disable_lv = host_resign;
}

module _ (sha256_hex : Bytes → List ℕ) where
  -- The steps before the first change to the bundle.
  unfoldable pub prepare : FilePath → Action BackupManifest
  prepare gd_root = recognize_gd gd_root >>= λ gd. ensure_not_already_installed gd >>= λ _.
      record_before_modify sha256_hex (empty_manifest gd) (executable gd) >>= λ backup.
      record_before_modify sha256_hex backup (code_signature gd) >>= λ backup.
      record_created_absent sha256_hex backup (dylib_dest gd) >>= λ backup.
      persist backup >>= λ _. pure backup

-- The closure `outcome` of `install_with`: the changes to the bundle.
unfoldable pub apply_changes : Injector → GdInstallation → FilePath → Action (Unit {0})
apply_changes injector gd artifact = copy_file artifact (dylib_dest gd) >>= λ _.
    injector.patch_lc_load_dylib (executable gd) loader_dylib_load_path >>= λ _.
    injector.adhoc_resign_with_disable_lv gd

-- What follows the closure: the list of files, or the rollback.
unfoldable pub conclude :
    GdInstallation
    → BackupManifest
    → Result InstallError (Unit {0}) × Fs
    → Result InstallError (List FilePath) × Fs
conclude gd backup (ok _, fs) = (ok (dylib_dest gd ∷ executable gd ∷ code_signature gd ∷ []), fs)
conclude gd backup (err e, fs) = let (_, fs') = restore_from_backup backup fs in (err e, fs')

unfoldable pub install_with :
    (Bytes → List ℕ) → FilePath → FilePath → Injector → Action (List FilePath)
unfolding prepare apply_changes conclude restore_from_backup
install_with sha256_hex gd_root artifact injector =
    let gd : GdInstallation = record { root = gd_root } in
    prepare sha256_hex gd_root >>= λ backup.
    λ fs. conclude gd backup (apply_changes injector gd artifact fs)

-- `install`
unfoldable pub install : (Bytes → List ℕ) → FilePath → FilePath → Action (List FilePath)
unfolding install_with
install sha256_hex gd_root artifact = install_with sha256_hex gd_root artifact host_seam_injector
