-- ===== src/Tests/Removed.antt =====
-- An installation that is undone, and an uninstallation that is refused.
use pulse_sdk.Prelude.{
  true, false, List, [], ◌∷◌, ◌++◌, Result, ok, err, ◌≡◌, refl, sym, ap, ◌∙◌, Bool-cases, inl, inr,
}
use pulse_sdk.Prelude.Text.{codes, words, utf8, decimal_loop, decimal, all_chars}
use pulse_sdk.Installer.Paths.{
  FilePath, Key, key, without_dots, ends_with_slash, join, key_eq, parent_path, strip_prefix,
  backup_root_for,
}
use pulse_sdk.Installer.Paths.Separate.{eq_of_key_eq}
use pulse_sdk.Installer.Fs.{Bytes, Fs, file_at, is_dir, read, write, copy, create_dir_all}
use pulse_sdk.Installer.Action.{InstallError, missing_restore_record}
use pulse_sdk.Installer.Recognize.{
  any_window, contains_subsequence, plist_declares_bundle_id, is_macho_bytes, recognize_gd,
  ensure_not_already_installed, dylib_dest, executable, code_signature,
}
use pulse_sdk.Installer.Backup.{
  encode_field, path_text, rel_of, record_before_modify, record_created_absent, persist_entry,
  persist_entries, persist,
}
use pulse_sdk.Installer.Load.{sha256_hex, load}
use pulse_sdk.Installer.Load.Plain.{plain_text}
use pulse_sdk.Installer.Transaction.{
  host_seam_injector, copy_file, host_patch, host_resign, prepare, apply_changes, conclude,
  install_with,
}
use pulse_sdk.Installer.Transaction.Bundle.{executable_key, is_changed, under_backup}
use pulse_sdk.Installer.Transaction.Confined.{changed_cases}
use pulse_sdk.Installer.Transaction.Changes.{host_seam_injector-IsConfined}
use pulse_sdk.Installer.Transaction.Restored.{IsHeld}
use pulse_sdk.Installer.Uninstall.{uninstall}
use pulse_sdk.Installer.Uninstall.Refused.{uninstall_refused}
use pulse_sdk.Installer.Uninstall.Undone.{install_with-uninstall}
use pulse_sdk.Tests.Installation.{
  bundle, bundle_key, bundle_key_lem, plist_key, disk, disk_files, artifact, bundle_named,
}
use pulse_sdk.Tests.Installed.{empty_disk, full_disk}

-- A digest of one byte.
abbrev digest : Bytes → Bytes
digest _ = 0xa5 ∷ []

abbrev gd_files : List FilePath
gd_files =
    dylib_dest (record { root = bundle })
    ∷ executable (record { root = bundle })
    ∷ code_signature (record { root = bundle })
    ∷ []

run_install : Result InstallError (List FilePath) × Fs
unfolding install_with prepare recognize_gd plist_declares_bundle_id contains_subsequence any_window
    is_macho_bytes ensure_not_already_installed record_before_modify record_created_absent rel_of
    strip_prefix persist persist_entries persist_entry encode_field path_text key join words
    without_dots ends_with_slash backup_root_for decimal decimal_loop utf8 read write create_dir_all
    apply_changes copy_file host_patch host_resign parent_path copy conclude sha256_hex
run_install = install_with (sha256_hex digest) bundle artifact host_seam_injector full_disk

run_install_ok : run_install.0 ≡ ok gd_files
unfolding run_install
run_install_ok = refl

run_install_lem :
    install_with (sha256_hex digest) bundle artifact host_seam_injector full_disk
    ≡ (ok gd_files, run_install.1)
unfolding run_install
run_install_lem = ap (λ r. (r, run_install.1)) run_install_ok

no_dir_changed : (k : Key) → is_changed bundle k ≡ true → is_dir full_disk k ≡ false
no_dir_changed k h = elim (changed_cases bundle k h) [
  | inl e ↦ rw (e, bundle_key_lem) refl
  | inr (inl e) ↦ rw (e, bundle_key_lem) refl
  | inr (inr e) ↦ rw (e, bundle_key_lem) refl
]

without_artifact :
    (k : Key) → key_eq ([] ∷ codes "l" ∷ []) k ≡ false → file_at full_disk k ≡ file_at disk k
without_artifact k n = rw (n, file_at) refl

full_disk-IsHeld : IsHeld full_disk
full_disk-IsHeld k h = elim (Bool-cases (key_eq ([] ∷ codes "l" ∷ []) k)) [
  | inl e ↦ rw (sym (eq_of_key_eq ([] ∷ codes "l" ∷ []) k e)) refl
  | inr n ↦ elim (Bool-cases (key_eq (bundle_key ++ executable_key) k)) [
    | inl e ↦ rw (sym (eq_of_key_eq (bundle_key ++ executable_key) k e)) refl
    | inr e ↦ elim (Bool-cases (key_eq plist_key k)) [
      | inl p ↦ rw (sym (eq_of_key_eq plist_key k p)) refl
      | inr p ↦ absurd (h (without_artifact k n ∙ disk_files k e p))
    ]
  ]
]

uninstall_refused_run :
    uninstall (sha256_hex digest) bundle empty_disk
    ≡ (err (missing_restore_record bundle), empty_disk)
unfolding uninstall load
uninstall_refused_run = refl

-- The witnesses.
install_with-uninstall_example :
    ((uninstall (sha256_hex digest) bundle run_install.1).0
      ≡ ok (
          executable (record { root = bundle })
          ∷ code_signature (record { root = bundle })
          ∷ dylib_dest (record { root = bundle })
          ∷ []))
    × ((j : Key)
        → under_backup bundle j ≡ false
        → file_at (uninstall (sha256_hex digest) bundle run_install.1).1 j ≡ file_at full_disk j)
install_with-uninstall_example =
    install_with-uninstall bundle digest bundle_named host_seam_injector artifact full_disk
      run_install.1 gd_files (host_seam_injector-IsConfined bundle bundle_named)
      (plain_text bundle (unfold all_chars in refl)).1 full_disk-IsHeld no_dir_changed refl
      run_install_lem

uninstall_refused_example :
    ((j : Key) → file_at empty_disk j ≡ file_at empty_disk j)
    × ((j : Key) → is_dir empty_disk j ≡ true → is_dir empty_disk j ≡ true)
uninstall_refused_example =
    uninstall_refused (sha256_hex digest) bundle empty_disk empty_disk
      (missing_restore_record bundle) uninstall_refused_run
