-- ===== src/Tests/Installed.antt =====
-- Installations that are refused and that succeed, and the theorems about them there.
use pulse_sdk.Prelude.{false, none, some, [], ◌∷◌, Result, ok, err, ◌≡◌, refl, ap, if◌then◌else◌}
use pulse_sdk.Prelude.Text.{codes, words, utf8, decimal_loop, decimal}
use pulse_sdk.Installer.Paths.{
  Key, key, without_dots, ends_with_slash, join, key_eq, parent_path, strip_prefix, backup_root_for,
}
use pulse_sdk.Installer.Fs.{file, Fs, file_at, read, write, copy, create_dir_all}
use pulse_sdk.Installer.Action.{InstallError}
use pulse_sdk.Installer.Recognize.{
  any_window, contains_subsequence, plist_declares_bundle_id, is_macho_bytes, recognize_gd,
  ensure_not_already_installed,
}
use pulse_sdk.Installer.Backup.{
  BackupManifest, encode_field, path_text, rel_of, record_before_modify, record_created_absent,
  persist_entry, persist_entries, persist,
}
use pulse_sdk.Installer.Transaction.{
  host_seam_injector, copy_file, host_patch, host_resign, prepare, apply_changes, install_with,
}
use pulse_sdk.Installer.Transaction.Changes.{host_seam_injector-IsConfined}
use pulse_sdk.Installer.Action.{not_a_directory}
use pulse_sdk.Installer.Recognize.{dylib_dest, executable, code_signature}
use pulse_sdk.Installer.Transaction.Bundle.{is_touched}
use pulse_sdk.Installer.Transaction.Outcomes.{install_with_installed}
use pulse_sdk.Tests.Installation.{bundle, artifact, no_hash, nodes_at, backup, bundle_named}

abbrev pub empty_disk : Fs
empty_disk = record { nodes = λ _. none; faults = [] }

prepare_refused : prepare no_hash bundle empty_disk ≡ (err (not_a_directory bundle), empty_disk)
unfolding prepare recognize_gd key words without_dots
prepare_refused = refl

-- The bundle, and the artifact of the loader beside it.
abbrev pub full_disk : Fs
full_disk = record {
  nodes = λ k. if key_eq ([] ∷ codes "l" ∷ []) k then some (file (1 ∷ 2 ∷ [])) else nodes_at k;
  faults = [];
}

run_prepare : Result InstallError BackupManifest × Fs
unfolding prepare recognize_gd plist_declares_bundle_id contains_subsequence any_window
    is_macho_bytes ensure_not_already_installed record_before_modify record_created_absent rel_of
    strip_prefix persist persist_entries persist_entry encode_field path_text key join words
    without_dots ends_with_slash backup_root_for decimal decimal_loop utf8 read write create_dir_all
run_prepare = prepare no_hash bundle full_disk

run_prepare_ok : run_prepare.0 ≡ ok backup
unfolding run_prepare
run_prepare_ok = refl

run_changes : Result InstallError (Unit {0}) × Fs
unfolding run_prepare apply_changes copy_file host_patch host_resign parent_path copy
run_changes = apply_changes host_seam_injector (record { root = bundle }) artifact run_prepare.1

run_changes_ok : run_changes.0 ≡ ok tt
unfolding run_changes
run_changes_ok = refl

run_prepare_lem : prepare no_hash bundle full_disk ≡ (ok backup, run_prepare.1)
unfolding run_prepare
run_prepare_lem = ap (λ r. (r, run_prepare.1)) run_prepare_ok

run_changes_lem :
    apply_changes host_seam_injector (record { root = bundle }) artifact run_prepare.1
    ≡ (ok tt, run_changes.1)
unfolding run_changes
run_changes_lem = ap (λ r. (r, run_changes.1)) run_changes_ok

-- The witness.
install_with_installed_example :
    (install_with no_hash bundle artifact host_seam_injector full_disk ≡ (
      ok (
          dylib_dest (record { root = bundle })
          ∷ executable (record { root = bundle })
          ∷ code_signature (record { root = bundle })
          ∷ []),
      run_changes.1,
    ))
    × ((j : Key) → is_touched bundle j ≡ false → file_at run_changes.1 j ≡ file_at full_disk j)
install_with_installed_example =
    install_with_installed bundle no_hash bundle_named host_seam_injector artifact full_disk
      run_prepare.1 run_changes.1 backup (host_seam_injector-IsConfined bundle bundle_named)
      run_prepare_lem run_changes_lem
