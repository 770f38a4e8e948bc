-- ===== src/Installer/Uninstall.antt =====
-- `uninstall` of cli/src/installer.rs.
pub mod Refused
pub mod Undone
use pulse_sdk.Prelude.{ℕ, List, ok}
use pulse_sdk.Installer.Paths.{FilePath}
use pulse_sdk.Installer.Fs.{Bytes}
use pulse_sdk.Installer.Action.{Action, ◌>>=◌}
use pulse_sdk.Installer.Load.{require_restore_record}
use pulse_sdk.Installer.Transaction.{restore_from_backup}

unfoldable pub uninstall : (Bytes → List ℕ) → FilePath → Action (List FilePath)
uninstall sha256 gd_root = require_restore_record sha256 gd_root >>= λ backup.
    λ fs. let (touched, fs') = restore_from_backup backup fs in (ok touched, fs')
