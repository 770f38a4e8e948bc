-- ===== src/Installer/Transaction/Rollback.antt =====
-- A failed installation leaves the files as they were.
use pulse_sdk.Prelude.{true, false, List, [], list_eq, ◌≡◌, refl, sym, ap, ◌∙◌, ℕ, Result, ok, err}
use pulse_sdk.Installer.Paths.{FilePath, Key}
use pulse_sdk.Installer.Fs.{Fs, Bytes, file_at, is_dir}
use pulse_sdk.Installer.Action.{InstallError, then_do}
use pulse_sdk.Installer.Recognize.{GdInstallation}
use pulse_sdk.Installer.Backup.{BackupManifest}
use pulse_sdk.Installer.Transaction.{
  Injector, prepare, apply_changes, restore_from_backup, conclude, install_with,
}
use pulse_sdk.Installer.Transaction.Bundle.{under_backup, is_changed}
use pulse_sdk.Installer.Transaction.Changes.{IsConfined}
use pulse_sdk.Installer.Transaction.Recorded.{prepare-eq-ok}
use pulse_sdk.Installer.Transaction.Restored.{IsHeld, restore_from_backup_undoes, installing-Keeps}

module _ (root : FilePath) (hash : Bytes → List ℕ) (named : list_eq root [] ≡ false) where
  abbrev gd : GdInstallation
  gd = record { root = root }

  pub install_with_lem :
      (injector : Injector) (artifact : FilePath) (fs : Fs)
      → install_with hash root artifact injector fs
        ≡ then_do
            (prepare hash root fs).0
            (λ b m. conclude gd b (apply_changes injector gd artifact m))
            (prepare hash root fs).1
  unfolding install_with
  install_with_lem injector artifact fs = refl

  conclude_err :
      (backup : BackupManifest) (e : InstallError) (s : Fs)
      → conclude gd backup (err e, s) ≡ (err e, (restore_from_backup backup s).1)
  unfolding conclude
  conclude_err backup e s = refl

  install_with_failed :
      (injector : Injector) (artifact : FilePath) (fs s1 s2 : Fs) (backup : BackupManifest)
      (e : InstallError)
      → prepare hash root fs ≡ (ok backup, s1)
      → apply_changes injector gd artifact s1 ≡ (err e, s2)
      → install_with hash root artifact injector fs ≡ (err e, (restore_from_backup backup s2).1)
  install_with_failed injector artifact fs s1 s2 backup e prepared failed =
      install_with_lem injector artifact fs
      ∙ (ap (λ r. then_do r.0 (λ b m. conclude gd b (apply_changes injector gd artifact m)) r.1)
            prepared
          ∙ (ap (conclude gd backup) failed ∙ conclude_err backup e s2))

  -- An installation that fails once its changes have begun returns the error of the change, and
  -- when no fault is ahead of the rollback, every file outside the backup directory is what it was
  -- before the installation.
  pub install_with_rollback :
      (injector : Injector) (artifact : FilePath) (fs s1 s2 : Fs) (backup : BackupManifest)
      (e : InstallError)
      → IsConfined injector root
      → IsHeld fs
      → ((k : Key) → is_changed root k ≡ true → is_dir fs k ≡ false)
      → prepare hash root fs ≡ (ok backup, s1)
      → apply_changes injector gd artifact s1 ≡ (err e, s2)
      → s2.faults ≡ []
      → ((install_with hash root artifact injector fs).0 ≡ err e)
        × ((j : Key)
            → under_backup root j ≡ false
            → file_at (install_with hash root artifact injector fs).1 j ≡ file_at fs j)
  install_with_rollback injector artifact fs s1 s2 backup e confined held no_dir prepared failed
        clear =
      let k =
        installing-Keeps root hash named injector artifact fs s1 s2 backup _ confined prepared
          failed in
      let (record_eq, absent, f, _) = prepare-eq-ok root hash named fs s1 backup prepared in
      let ended = install_with_failed injector artifact fs s1 s2 backup e prepared failed in
      (
        ap (λ r. r.0) ended,
        λ j outside.
            ap (λ r. file_at r.1 j) ended
            ∙ (ap (λ b. file_at (restore_from_backup b s2).1 j) record_eq
                ∙ (restore_from_backup_undoes root hash named fs s2 k held no_dir absent clear).1 j
                    outside),
      )

  -- An installation that succeeds has gone through its preparation and its changes.
  pub install_with-eq-ok :
      (injector : Injector) (artifact : FilePath) (fs s : Fs) (files : List FilePath)
      → install_with hash root artifact injector fs ≡ (ok files, s)
      → (backup : BackupManifest) × (s1 : Fs) × (prepare hash root fs ≡ (ok backup, s1))
        × (apply_changes injector gd artifact s1 ≡ (ok tt, s))
  unfolding conclude
  install_with-eq-ok injector artifact fs s files h =
      of_prepare (prepare hash root fs).0 (prepare hash root fs).1 refl
        (sym (install_with_lem injector artifact fs) ∙ h)
    where
      of_changes :
          (backup : BackupManifest) (s1 : Fs) (r : Result InstallError (Unit {0})) (s2 : Fs)
          → prepare hash root fs ≡ (ok backup, s1)
          → apply_changes injector gd artifact s1 ≡ (r, s2)
          → conclude gd backup (r, s2) ≡ (ok files, s)
          → (backup : BackupManifest) × (s1 : Fs) × (prepare hash root fs ≡ (ok backup, s1))
            × (apply_changes injector gd artifact s1 ≡ (ok tt, s))
      of_changes backup s1 (ok u) s2 p a e =
          (backup, s1, p, a ∙ ap (λ f. (ok tt, f)) (ap (λ o. o.1) e))
      of_changes backup s1 (err x) s2 p a e = cc

      of_prepare :
          (r : Result InstallError BackupManifest) (s1 : Fs)
          → prepare hash root fs ≡ (r, s1)
          → then_do r (λ b m. conclude gd b (apply_changes injector gd artifact m)) s1
            ≡ (ok files, s)
          → (backup : BackupManifest) × (s1 : Fs) × (prepare hash root fs ≡ (ok backup, s1))
            × (apply_changes injector gd artifact s1 ≡ (ok tt, s))
      of_prepare (ok b) s1 p e =
          of_changes b s1 (apply_changes injector gd artifact s1).0
            (apply_changes injector gd artifact s1).1 p refl e
      of_prepare (err x) s1 p e = cc
