-- ===== src/Installer/Transaction/Outcomes.antt =====
-- What an installation that succeeds returns and changes.
use pulse_sdk.Prelude.{false, List, [], ◌∷◌, list_eq, ◌≡◌, ap, ◌∙◌, ℕ, ok}
use pulse_sdk.Installer.Paths.{FilePath, Key}
use pulse_sdk.Installer.Fs.{Fs, Bytes, file_at}
use pulse_sdk.Installer.Action.{then_do}
use pulse_sdk.Installer.Recognize.{GdInstallation, executable, code_signature, dylib_dest}
use pulse_sdk.Installer.Backup.{BackupManifest}
use pulse_sdk.Installer.Transaction.{Injector, prepare, apply_changes, conclude, install_with}
use pulse_sdk.Installer.Transaction.Bundle.{is_touched}
use pulse_sdk.Installer.Transaction.Changes.{IsConfined}
use pulse_sdk.Installer.Transaction.Restored.{installing-Keeps}
use pulse_sdk.Installer.Transaction.Rollback.{install_with_lem}

module _ (root : FilePath) (hash : Bytes → List ℕ) (named : list_eq root [] ≡ false) where
  abbrev gd : GdInstallation
  gd = record { root = root }

  -- An installation whose preparation and changes succeed lists the three files that it changed, and
  -- changes no other file outside the backup directory, if the injector is confined.
  pub install_with_installed :
      (injector : Injector) (artifact : FilePath) (fs s1 s2 : Fs) (backup : BackupManifest)
      → IsConfined injector root
      → prepare hash root fs ≡ (ok backup, s1)
      → apply_changes injector gd artifact s1 ≡ (ok tt, s2)
      → (install_with hash root artifact injector fs
          ≡ (ok (dylib_dest gd ∷ executable gd ∷ code_signature gd ∷ []), s2))
        × ((j : Key) → is_touched root j ≡ false → file_at s2 j ≡ file_at fs j)
  unfolding conclude
  install_with_installed injector artifact fs s1 s2 backup confined prepared applied = (
    install_with_lem root hash named injector artifact fs
        ∙ (ap (λ r. then_do r.0 (λ b m. conclude gd b (apply_changes injector gd artifact m)) r.1)
              prepared
            ∙ ap (conclude gd backup) applied),
    (installing-Keeps root hash named injector artifact fs s1 s2 backup _ confined prepared
        applied).files,
  )
