-- ===== src/Installer/Uninstall/Refused.antt =====
-- An uninstallation that fails changes nothing.
use mathlib.Core.Path.{subst}
use pulse_sdk.Prelude.{
  true, ℕ, ◌≡◌, refl, Option, none, some, List, [], ◌∷◌, is_empty, list_eq, Result, ok, err, ap,
}
use pulse_sdk.Prelude.Lines.{lines, split_on}
use pulse_sdk.Installer.Paths.{FilePath, Key, key}
use pulse_sdk.Installer.Fs.{Fs, Bytes, file_at, is_dir, exists, read, read_to_string, text_outcome}
use pulse_sdk.Installer.Fs.Frame.{Keeps, Keeps-read}
use pulse_sdk.Installer.Action.{InstallError, Action, then_do}
use pulse_sdk.Installer.Action.Keeping.{
  IsKeeping, pure-IsKeeping, raise-IsKeeping, bind-IsKeeping, attempt_read-IsKeeping,
}
use pulse_sdk.Installer.Backup.{BackupManifest}
use pulse_sdk.Installer.Load.{
  path_for, RecordLine, gd_root_line, modified_line, created_absent_line, unknown_line, LoadState,
  start, parse_fields, load_line, load_lines, load_text, manifest_of, record_header, load,
}
use pulse_sdk.Installer.Transaction.{restore_from_backup}
use pulse_sdk.Installer.Transaction.Entries.{never}
use pulse_sdk.Installer.Transaction.Steps.{branch-IsKeeping, choose-IsKeeping, read-IsKeeping}
use pulse_sdk.Installer.Uninstall.{uninstall}

module _ (sha256 : Bytes → List ℕ) (root : FilePath) where
  abbrev KeepsAll : {A : Type 0} → Action A → Type 0
  KeepsAll m = IsKeeping never never m

  load_line-KeepsAll : (l : RecordLine) (s : LoadState) → KeepsAll (load_line sha256 root l s)
  unfolding load_line
  load_line-KeepsAll (gd_root_line value) s = pure-IsKeeping never never _
  load_line-KeepsAll (modified_line rel hash backup_name) s =
      bind-IsKeeping never never _ _ (read-IsKeeping never never _ _) λ bytes.
        branch-IsKeeping never never _ _ _ (pure-IsKeeping never never _)
          (raise-IsKeeping never never _)
  load_line-KeepsAll (created_absent_line rel) s = pure-IsKeeping never never _
  load_line-KeepsAll unknown_line s = raise-IsKeeping never never _

  load_lines-KeepsAll :
      (rest : List (List ℕ)) (s : LoadState) → KeepsAll (load_lines sha256 root rest s)
  unfolding load_lines
  load_lines-KeepsAll [] s = pure-IsKeeping never never s
  load_lines-KeepsAll (line ∷ rest) s =
      branch-IsKeeping never never (is_empty line) _ _ (load_lines-KeepsAll rest s) (
        bind-IsKeeping never never _ _ (load_line-KeepsAll (parse_fields (split_on 9 line)) s)
          (load_lines-KeepsAll rest))

  manifest_of-KeepsAll : (s : LoadState) → KeepsAll (manifest_of sha256 root s)
  manifest_of-KeepsAll s = of_field s.gd_root_field
    where
      of_field :
          (field : Option FilePath)
          → KeepsAll (manifest_of sha256 root (record s { gd_root_field = field }))
      of_field none = raise-IsKeeping never never _
      of_field (some r) = pure-IsKeeping never never _

  load_text-KeepsAll : (text : List (List ℕ)) → KeepsAll (load_text sha256 root text)
  unfolding load_text
  load_text-KeepsAll [] = raise-IsKeeping never never _
  load_text-KeepsAll (header ∷ rest) =
      branch-IsKeeping never never (list_eq header record_header) _ _
        (bind-IsKeeping never never _ _ (load_lines-KeepsAll rest start) manifest_of-KeepsAll)
        (raise-IsKeeping never never _)

  Keeps-read_to_string : (k : Key) (fs : Fs) → Keeps never never fs (read_to_string k fs).1
  unfolding read_to_string
  Keeps-read_to_string k fs = after (read k fs).0 (read k fs).1 (Keeps-read never never k fs)
    where
      after :
          (o : Option Bytes) (fs' : Fs)
          → Keeps never never fs fs'
          → Keeps never never fs (text_outcome (o, fs')).1
      after none fs' kept = kept
      after (some b) fs' kept = kept

  -- Loading a record changes no file, whatever it holds.
  load-KeepsAll : KeepsAll (load sha256 root)
  unfolding load
  load-KeepsAll =
      choose-IsKeeping never never (λ fs. exists fs (key (path_for root))) _ _
        (bind-IsKeeping never never _ _
          (attempt_read-IsKeeping never never _ _ (Keeps-read_to_string (key (path_for root))))
          λ text. load_text-KeepsAll (lines text))
        (raise-IsKeeping never never _)

  -- An uninstallation fails only before it has changed anything: every file is as it was, in the
  -- backup directory too, and no directory is gone.
  pub uninstall_refused :
      (fs s : Fs) (e : InstallError)
      → uninstall sha256 root fs ≡ (err e, s)
      → ((j : Key) → file_at s j ≡ file_at fs j)
        × ((j : Key) → is_dir fs j ≡ true → is_dir s j ≡ true)
  unfolding uninstall
  uninstall_refused fs s e h =
      let kept = after (load sha256 root fs).0 (load sha256 root fs).1 (load-KeepsAll.from fs) h in
      (λ j. kept.files j refl, λ j. kept.dirs j refl)
    where
      after :
          (r : Result InstallError BackupManifest) (fs' : Fs)
          → Keeps never never fs fs'
          → then_do r
              (λ backup m. (ok (restore_from_backup backup m).0, (restore_from_backup backup m).1))
              fs'
            ≡ (err e, s)
          → Keeps never never fs s
      after (ok backup) fs' kept h' = cc
      after (err x) fs' kept h' = subst (Keeps never never fs) (ap (λ r. r.1) h') kept
