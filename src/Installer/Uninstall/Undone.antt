-- ===== src/Installer/Uninstall/Undone.antt =====
-- Uninstalling undoes an installation.
use pulse_sdk.Prelude.{
  ℕ, ◌≡◌, refl, sym, ap, ◌∙◌, true, false, none, some, Option, List, [], ◌∷◌, ◌++◌, list_eq, All,
  Bool-cases, inl, inr, ok,
}
use pulse_sdk.Prelude.Text.{all_chars}
use pulse_sdk.Prelude.Utf8.{IsScalarText}
use pulse_sdk.Installer.Paths.{FilePath, Key, key, backup_root_for, backup_manifest_name}
use pulse_sdk.Installer.Paths.Separate.{contents, backup_root_for-outside}
use pulse_sdk.Installer.Fs.{Fs, Bytes, file_at, is_dir}
use pulse_sdk.Installer.Action.{then_do}
use pulse_sdk.Installer.Recognize.{GdInstallation, executable, code_signature, dylib_dest}
use pulse_sdk.Installer.Backup.{BackupManifest, path_text, persist}
use pulse_sdk.Installer.Load.{path_for, sha256_hex, load}
use pulse_sdk.Installer.Load.Stored.{IsPersisted, IsStored-Keeps, orig_name, persist-IsPersisted}
use pulse_sdk.Installer.Load.Exact.{IsSaveable, load-IsPersisted}
use pulse_sdk.Installer.Load.Plain.{plain_text, sha256_hex-IsRecordText}
use pulse_sdk.Installer.Transaction.{
  Injector, prepare, apply_changes, install_with, restore_from_backup,
}
use pulse_sdk.Installer.Transaction.Bundle.{
  executable_key, code_signature_key, dylib_key, under_backup, is_changed,
}
use pulse_sdk.Installer.Transaction.Confined.{
  changed_cases, in_backup, backup_named, decimal_relative,
}
use pulse_sdk.Installer.Transaction.Changes.{IsConfined, apply_changes-IsKeeping}
use pulse_sdk.Installer.Transaction.Entries.{entry_for, kept_by}
use pulse_sdk.Installer.Transaction.Recorded.{record_of, prepare-eq-ok}
use pulse_sdk.Installer.Transaction.Restored.{IsHeld, restore_from_backup_undoes, installing-Keeps}
use pulse_sdk.Installer.Transaction.Rollback.{install_with-eq-ok}
use pulse_sdk.Installer.Uninstall.{uninstall}

module _ (root : FilePath) (sha256 : Bytes → List ℕ) (named : list_eq root [] ≡ false) where
  abbrev gd : GdInstallation
  gd = record { root = root }

  -- No changed file lies in the backup directory.
  backup_unchanged : (k : Key) → under_backup root k ≡ true → is_changed root k ≡ false
  backup_unchanged k h = elim (Bool-cases (is_changed root k)) [
    | inl e ↦ elim (changed_cases root k e) [
      | inl e' ↦ outside _ e'
      | inr (inl e') ↦ outside _ e'
      | inr (inr e') ↦ outside _ e'
    ]
    | inr e ↦ e
  ]
    where
      outside : (more : Key) → k ≡ key root ++ (contents ∷ more) → is_changed root k ≡ false
      outside more e =
          let o : under_backup root k ≡ false =
            ap (under_backup root) e ∙ backup_root_for-outside root more named in
          cc

  entry_for-IsSaveable :
      (rel : Key) (o : Option Bytes)
      → IsScalarText (path_text rel)
      → IsSaveable sha256 (entry_for sha256 rel o)
  entry_for-IsSaveable rel none t = (t, tt)
  entry_for-IsSaveable rel (some b) t = (t, refl)

  record_of-IsSaveable : (fs : Fs) → All (IsSaveable sha256) (record_of root sha256 fs).entries
  record_of-IsSaveable fs = (
    entry_for-IsSaveable executable_key _ executable_text,
    (
      entry_for-IsSaveable code_signature_key _ code_signature_text,
      (entry_for-IsSaveable dylib_key none dylib_text, tt),
    ),
  )
    where
      executable_text : IsScalarText (path_text executable_key)
      executable_text =
          (plain_text (path_text executable_key) (unfold path_text all_chars in refl)).1

      code_signature_text : IsScalarText (path_text code_signature_key)
      code_signature_text =
          (plain_text (path_text code_signature_key) (unfold path_text all_chars in refl)).1

      dylib_text : IsScalarText (path_text dylib_key)
      dylib_text = (plain_text (path_text dylib_key) (unfold path_text all_chars in refl)).1

  -- The record that the preparation wrote is there after the changes.
  apply_changes-IsPersisted :
      (injector : Injector) (artifact : FilePath) (fs s1 s : Fs) (backup : BackupManifest)
      → IsConfined injector root
      → prepare sha256 root fs ≡ (ok backup, s1)
      → apply_changes injector gd artifact s1 ≡ (ok tt, s)
      → IsPersisted (record_of root sha256 fs) s
  apply_changes-IsPersisted injector artifact fs s1 s backup confined prepared applied =
      let (record_eq, absent, f, persisted) =
        prepare-eq-ok root sha256 named fs s1 backup prepared in
      let persisted' = ap (λ b. persist b f) (sym record_eq) ∙ persisted in
      let (at, stored) =
        persist-IsPersisted (record_of root sha256 fs) f s1 (backup_named root named) persisted' in
      let t = is_changed root in
      let kept =
        kept_by _ (apply_changes-IsKeeping root named injector artifact confined) s1 _ s applied in
      (
        kept.files (key (path_for root))
              (backup_unchanged _ (in_backup root named backup_manifest_name refl))
            ∙ at,
        IsStored-Keeps (backup_root_for root) t t s1 s 0 (record_of root sha256 fs).entries kept
            (λ i. backup_unchanged _ (in_backup root named (orig_name i) (decimal_relative i)))
            stored,
      )

  uninstall-load :
      (fs s : Fs) (backup : BackupManifest)
      → load sha256 root fs ≡ (ok backup, s)
      → uninstall sha256 root fs
        ≡ (ok (restore_from_backup backup s).0, (restore_from_backup backup s).1)
  unfolding uninstall
  uninstall-load fs s backup h =
      ap
        (λ r.
          then_do r.0 (λ b m. (ok (restore_from_backup b m).0, (restore_from_backup b m).1)) r.1)
        h

-- An installation that succeeds with no fault ahead is undone by uninstalling: the record is read
-- back, the three files are listed, and every file outside the backup directory is what it was
-- before the installation. The injector is confined to the three files, the root is a text of
-- Unicode scalar values and not empty, every file lies in a directory, and no directory stands at a
-- changed path.
pub install_with-uninstall :
    (root : FilePath) (digest : Bytes → Bytes) (named : list_eq root [] ≡ false)
    (injector : Injector) (artifact : FilePath) (fs s : Fs) (files : List FilePath)
    → IsConfined injector root
    → IsScalarText root
    → IsHeld fs
    → ((k : Key) → is_changed root k ≡ true → is_dir fs k ≡ false)
    → fs.faults ≡ []
    → install_with (sha256_hex digest) root artifact injector fs ≡ (ok files, s)
    → ((uninstall (sha256_hex digest) root s).0
        ≡ ok (
            executable (record { root = root })
            ∷ code_signature (record { root = root })
            ∷ dylib_dest (record { root = root })
            ∷ []))
      × ((j : Key)
          → under_backup root j ≡ false
          → file_at (uninstall (sha256_hex digest) root s).1 j ≡ file_at fs j)
install_with-uninstall root digest named injector artifact fs s files confined root_text held no_dir
      clear installed =
    let sha256 = sha256_hex digest in
    let (backup, s1, prepared, applied) =
      install_with-eq-ok root sha256 named injector artifact fs s files installed in
    let k =
      installing-Keeps root sha256 named injector artifact fs s1 s backup _ confined prepared
        applied in
    let (_, absent, _, _) = prepare-eq-ok root sha256 named fs s1 backup prepared in
    let loaded =
      load-IsPersisted sha256 (sha256_hex-IsRecordText digest) (record_of root sha256 fs) root_text
        (record_of-IsSaveable root sha256 named fs) s (k.faultless clear)
        (apply_changes-IsPersisted root sha256 named injector artifact fs s1 s backup confined
          prepared applied) in
    let run = uninstall-load root sha256 named s s (record_of root sha256 fs) loaded in
    let (listed, undone) =
      restore_from_backup_undoes root sha256 named fs s k held no_dir absent (k.faultless clear) in
    (ap (λ r. r.0) run ∙ ap ok listed, λ j outside. ap (λ r. file_at r.1 j) run ∙ undone j outside)
