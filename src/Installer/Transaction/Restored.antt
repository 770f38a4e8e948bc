-- ===== src/Installer/Transaction/Restored.antt =====
-- Restoring puts the three files back.
use pulse_sdk.Prelude.{
  true, false, none, List, [], ◌∷◌, ◌++◌, list_eq, ◌≡◌, ◌≢◌, refl, sym, ap, ◌∙◌, ℕ, length,
  length-append, arith, Bool-cases, inl, inr, Result, ok, if◌then◌else◌,
}
use pulse_sdk.Installer.Paths.{FilePath, Key, key, join, parent, key_eq, backup_root_for}
use pulse_sdk.Installer.Paths.Separate.{eq_of_key_eq, contents, backup_root_for-outside}
use pulse_sdk.Installer.Fs.{Fs, Bytes, file_at, is_dir, is_holder}
use pulse_sdk.Installer.Fs.Frame.{Keeps, Keeps-trans, Keeps-weaken, remove_dir_all_outside}
use pulse_sdk.Installer.Action.{InstallError}
use pulse_sdk.Installer.Recognize.{GdInstallation, executable, code_signature, dylib_dest}
use pulse_sdk.Installer.Backup.{BackupManifest, path_text}
use pulse_sdk.Installer.Transaction.{
  Injector, prepare, apply_changes, restore_entry, restore_entries, restore_from_backup,
}
use pulse_sdk.Installer.Transaction.Bundle.{
  executable_key, code_signature_key, dylib_key, under_backup, is_changed, is_touched,
  key-executable, key-code_signature, key-dylib_dest, parent-append,
}
use pulse_sdk.Installer.Transaction.Confined.{prepare-IsKeeping, long_of_changed, changed_cases}
use pulse_sdk.Installer.Transaction.Changes.{
  IsConfined, apply_changes-IsKeeping, executable_changed, code_signature_changed, dylib_changed,
}
use pulse_sdk.Installer.Transaction.Entries.{
  entry_for, holder_kept, kept_by, length-parent, three_writes, restore_entry_exact,
  restore_entry_listed, restore_entry-Keeps,
}
use pulse_sdk.Installer.Transaction.Recorded.{record_of}

-- The tree in which each file has a directory that holds it.
abbrev pub IsHeld : Fs → Type 0
IsHeld fs = (k : Key) → file_at fs k ≢ none → is_holder fs (parent k) ≡ true

module _ (root : FilePath) (hash : Bytes → List ℕ) (named : list_eq root [] ≡ false) where
  abbrev gd : GdInstallation
  gd = record { root = root }

  -- The directories that hold the three files are none of them.
  parent_unchanged :
      (rel : Key) → length rel ≡ 3 → is_changed root (parent (key root ++ rel)) ≡ false
  parent_unchanged rel three = elim (Bool-cases (is_changed root (parent (key root ++ rel)))) [
    | inl e ↦ absurd (
        omega (
          arith,
          long_of_changed root named _ e,
          length-append (key root) rel,
          length-parent (key root ++ rel),
        ))
    | inr e ↦ e
  ]

  join_executable : key (join root (path_text executable_key)) ≡ key root ++ executable_key
  unfolding path_text
  join_executable = key-executable root named

  join_code_signature :
      key (join root (path_text code_signature_key)) ≡ key root ++ code_signature_key
  unfolding path_text
  join_code_signature = key-code_signature root named

  join_dylib : key (join root (path_text dylib_key)) ≡ key root ++ dylib_key
  unfolding path_text
  join_dylib = key-dylib_dest root named

  -- With no fault ahead, the restore record puts the three files back as they were when it was
  -- made, leaves all files outside the backup directory alone, and lists the three.
  restore_from_backup_exact :
      (fs s : Fs)
      → s.faults ≡ []
      → file_at fs (key root ++ dylib_key) ≡ none
      → ((k : Key) → is_changed root k ≡ true → is_dir s k ≡ false)
      → ((k : Key) → is_changed root k ≡ true → file_at fs k ≢ none → is_holder s (parent k) ≡ true)
      → ((restore_from_backup (record_of root hash fs) s).0
          ≡ executable gd ∷ code_signature gd ∷ dylib_dest gd ∷ [])
        × ((j : Key)
            → under_backup root j ≡ false
            → file_at (restore_from_backup (record_of root hash fs) s).1 j
              ≡ (if is_changed root j then file_at fs j else file_at s j))
  unfolding restore_from_backup restore_entries path_text
  restore_from_backup_exact fs s clear absent no_dir holder =
      let t = is_changed root in
      let E = key root ++ executable_key in
      let S = key root ++ code_signature_key in
      let D = key root ++ dylib_key in
      let e1 = entry_for hash executable_key (file_at fs E) in
      let e2 = entry_for hash code_signature_key (file_at fs S) in
      let e3 = entry_for hash dylib_key none in
      let s1 = (restore_entry root e1 s).1 in
      let s2 = (restore_entry root e2 s1).1 in
      let s3 = (restore_entry root e3 s2).1 in
      let tE = executable_changed root named in
      let tS = code_signature_changed root named in
      let tD = dylib_changed root named in
      let k1 =
        restore_entry-Keeps root hash t t executable_key (file_at fs E) s join_executable tE in
      let k2 =
        restore_entry-Keeps root hash t t code_signature_key (file_at fs S) s1 join_code_signature
          tS in
      let k12 = Keeps-trans t t s s1 s2 k1 k2 in
      let clear1 = k1.faultless clear in
      let clear2 = k12.faultless clear in
      let free1 = k1.leaves S tS (no_dir S tS) in
      let free2 = k12.leaves D tD (no_dir D tD) in
      let held1 : file_at fs S ≢ none → is_holder s1 (parent S) ≡ true = λ ne.
        holder_kept t t s s1 (parent S) k1 (parent_unchanged code_signature_key refl)
          (holder S tS ne) in
      let y1 =
        restore_entry_listed root hash executable_key (file_at fs E) s join_executable clear
          (no_dir E tE) (holder E tE) in
      let y2 =
        restore_entry_listed root hash code_signature_key (file_at fs S) s1 join_code_signature
          clear1 free1 held1 in
      let y3 =
        restore_entry_listed root hash dylib_key none s2 join_dylib clear2 free2
          (λ ne. absurd (ne refl)) in
      (
        rw (y1, y2, y3) refl,
        λ j outside.
            remove_dir_all_outside (key (backup_root_for root)) j s3 outside
            ∙ three_writes (key_eq E j) (key_eq S j) (key_eq D j) (file_at fs j) (file_at s j)
                (file_at s1 j) (file_at s2 j) (file_at s3 j) (file_at fs E) (file_at fs S)
                (restore_entry_exact root hash executable_key (file_at fs E) s j join_executable
                  clear (no_dir E tE) (holder E tE))
                (restore_entry_exact root hash code_signature_key (file_at fs S) s1 j
                  join_code_signature clear1 free1 held1)
                (restore_entry_exact root hash dylib_key none s2 j join_dylib clear2 free2
                  (λ ne. absurd (ne refl)))
                (λ e. ap (file_at fs) (eq_of_key_eq E j e))
                (λ e. ap (file_at fs) (eq_of_key_eq S j e))
                (λ e. sym absent ∙ ap (file_at fs) (eq_of_key_eq D j e)),
      )

  -- The directory of a changed file is neither changed nor in the backup directory.
  parent_untouched :
      (x y : List ℕ) → is_touched root (parent (key root ++ (contents ∷ x ∷ y ∷ []))) ≡ false
  parent_untouched x y =
      let a = parent_unchanged (contents ∷ x ∷ y ∷ []) refl in
      let b : under_backup root (parent (key root ++ (contents ∷ x ∷ y ∷ []))) ≡ false =
        rw (parent-append (key root) contents (x ∷ y ∷ []))
          (backup_root_for-outside root (x ∷ []) named) in
      ground arith

  held_after :
      (fs s : Fs)
      → Keeps (is_touched root) (is_changed root) fs s
      → (k : Key) → is_changed root k ≡ true
      → is_holder fs (parent k) ≡ true
      → is_holder s (parent k) ≡ true
  held_after fs s kept k h held =
      holder_kept (is_touched root) (is_changed root) fs s (parent k) kept (untouched k h) held
    where
      untouched : (k : Key) → is_changed root k ≡ true → is_touched root (parent k) ≡ false
      untouched k h = elim (changed_cases root k h) [
        | inl e ↦ rw e (parent_untouched _ _)
        | inr (inl e) ↦ rw e (parent_untouched _ _)
        | inr (inr e) ↦ rw e (parent_untouched _ _)
      ]

  unchanged_or_restored :
      (fs s : Fs)
      → Keeps (is_touched root) (is_changed root) fs s
      → (j : Key) → under_backup root j ≡ false
      → (if is_changed root j then file_at fs j else file_at s j) ≡ file_at fs j
  unchanged_or_restored fs s kept j outside = elim (Bool-cases (is_changed root j)) [
    | inl e ↦ rw e
    | inr e ↦ rw e (kept.files j (ground arith))
  ]

  -- Whatever was done since to the three files and in the backup directory is undone.
  pub restore_from_backup_undoes :
      (fs s : Fs)
      → Keeps (is_touched root) (is_changed root) fs s
      → IsHeld fs
      → ((k : Key) → is_changed root k ≡ true → is_dir fs k ≡ false)
      → file_at fs (key root ++ dylib_key) ≡ none
      → s.faults ≡ []
      → ((restore_from_backup (record_of root hash fs) s).0
          ≡ executable gd ∷ code_signature gd ∷ dylib_dest gd ∷ [])
        × ((j : Key)
            → under_backup root j ≡ false
            → file_at (restore_from_backup (record_of root hash fs) s).1 j ≡ file_at fs j)
  restore_from_backup_undoes fs s k held no_dir absent clear =
      let (listed, exact) =
        restore_from_backup_exact fs s clear absent (λ c h. k.leaves c h (no_dir c h))
          (λ c h there. held_after fs s k c h (held c there)) in
      (listed, λ j outside. exact j outside ∙ unchanged_or_restored fs s k j outside)

  -- What a preparation and the changes keep together.
  pub installing-Keeps :
      (injector : Injector) (artifact : FilePath) (fs s1 s2 : Fs) (backup : BackupManifest)
      (r : Result InstallError (Unit {0}))
      → IsConfined injector root
      → prepare hash root fs ≡ (ok backup, s1)
      → apply_changes injector (record { root = root }) artifact s1 ≡ (r, s2)
      → Keeps (is_touched root) (is_changed root) fs s2
  installing-Keeps injector artifact fs s1 s2 backup r confined prepared applied =
      let t = is_changed root in
      let u = is_touched root in
      let k1 = kept_by _ (prepare-IsKeeping root named hash) fs _ s1 prepared in
      let k2 =
        kept_by _ (apply_changes-IsKeeping root named injector artifact confined) s1 _ s2 applied in
      Keeps-trans u t fs s1 s2 (Keeps-weaken (under_backup root) t u fs s1 (λ j n. ground arith) k1)
        (Keeps-weaken t t u s1 s2 (λ j n. ground arith) k2)
