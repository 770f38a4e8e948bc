-- ===== src/Installer/Action.antt =====
-- The errors of the installer, and its operations as actions on the file system. What was changed
-- before an error stays changed, so the tree comes back beside the error too.
pub mod Keeping
use pulse_sdk.Prelude.{Bool, true, false, Option, none, some, List, Result, ok, err}
use pulse_sdk.Installer.Paths.{FilePath}
use pulse_sdk.Installer.Fs.{Fs, Bytes}

-- The reasons that the messages of `UnrecognizedInstallation` and `AlreadyInstalled` give.
pub data Reason : Type 0 where
  no_executable no_info_plist other_bundle_id not_macho : Reason
  has_manifest has_dylib : Reason

-- `InstallError`
pub data InstallError : Type 0 where
  not_a_directory : FilePath → InstallError
  unrecognized_installation already_installed : FilePath → Reason → InstallError
  missing_restore_record corrupt_restore_record macho_patch codesign io : FilePath → InstallError

abbrev pub Action : Type 0 → Type 0
Action A = Fs → Result InstallError A × Fs

module _ {A B : Type 0} where
  abbrev pub then_do : Result InstallError A → (A → Action B) → Fs → Result InstallError B × Fs
  then_do (ok a) f fs = f a fs
  then_do (err e) f fs = (err e, fs)

  infixl 5 ◌>>=◌
  abbrev pub ◌>>=◌ : Action A → (A → Action B) → Action B
  ◌>>=◌ m f fs = let (r, fs') = m fs in then_do r f fs'

module _ {A : Type 0} where
  abbrev pub pure : A → Action A
  pure a fs = (ok a, fs)

  abbrev pub raise : InstallError → Action A
  raise e fs = (err e, fs)

abbrev pub outcome : InstallError → Bool × Fs → Result InstallError (Unit {0}) × Fs
outcome e (true, fs) = (ok tt, fs)
outcome e (false, fs) = (err e, fs)

-- `.map_err(|source| InstallError::Io { path, source })?`
abbrev pub attempt : InstallError → (Fs → Bool × Fs) → Action (Unit {0})
attempt e op fs = outcome e (op fs)

abbrev pub read_outcome : InstallError → Option Bytes × Fs → Result InstallError Bytes × Fs
read_outcome e (some b, fs) = (ok b, fs)
read_outcome e (none, fs) = (err e, fs)

abbrev pub attempt_read : InstallError → (Fs → Option Bytes × Fs) → Action Bytes
attempt_read e op fs = read_outcome e (op fs)
