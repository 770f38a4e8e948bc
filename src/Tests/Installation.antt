-- ===== src/Tests/Installation.antt =====
-- Runs of the installer on a small bundle, and its theorems there.
use pulse_sdk.Prelude.{
  ℕ, Bool, true, false, ◌||◌, Option, none, some, List, [], ◌∷◌, ◌++◌, list_eq, Result, ok, err,
  ◌≡◌, ◌≢◌, refl, sym, ap, Bool-cases, inl, inr, arith, if◌then◌else◌,
}
use pulse_sdk.Prelude.Text.{codes, words, utf8, decimal_loop, decimal}
use pulse_sdk.Installer.Paths.{
  FilePath, Key, key, without_dots, ends_with_slash, join, key_eq, is_prefix, parent, parent_path,
  strip_prefix, backup_root_for,
}
use pulse_sdk.Installer.Paths.Separate.{contents, eq_of_key_eq, backup_root_for-outside}
use pulse_sdk.Installer.Fs.{
  Bytes, Node, file, dir, Fs, file_at, is_dir, is_holder, read, write, copy, create_dir_all,
}
use pulse_sdk.Installer.Action.{InstallError, io}
use pulse_sdk.Installer.Action.Keeping.{IsKeeping}
use pulse_sdk.Installer.Recognize.{
  any_window, contains_subsequence, plist_declares_bundle_id, is_macho_bytes, recognize_gd,
  ensure_not_already_installed,
}
use pulse_sdk.Installer.Backup.{
  BackupManifest, modified, created_absent, encode_field, path_text, rel_of, record_before_modify,
  record_created_absent, persist_entry, persist_entries, persist,
}
use pulse_sdk.Installer.Backup.{decode_field}
use pulse_sdk.Installer.Backup.Fields.{decode_field-encode_field}
use pulse_sdk.Installer.Transaction.{
  host_seam_injector, copy_file, host_patch, host_resign, prepare, apply_changes, install_with,
}
use pulse_sdk.Installer.Transaction.Bundle.{
  executable_key, code_signature_key, dylib_key, is_changed, under_backup,
}
use pulse_sdk.Installer.Transaction.Confined.{changed_cases, prepare-IsKeeping}
use pulse_sdk.Installer.Transaction.Changes.{
  IsConfined, apply_changes-IsKeeping, host_seam_injector-IsConfined,
}
use pulse_sdk.Installer.Transaction.Rollback.{install_with_rollback}

abbrev pub bundle : FilePath
bundle = codes "/G.app"

abbrev pub artifact : FilePath
artifact = codes "/l"

-- No digest is needed here.
abbrev pub no_hash : Bytes → List ℕ
no_hash _ = codes "0"

abbrev plist_bytes : Bytes
plist_bytes = codes "CFBundleIdentifier com.robtop.geometrydashmac"

abbrev program_bytes : Bytes
program_bytes = 0xcf ∷ 0xfa ∷ 0xed ∷ 0xfe ∷ []

abbrev pub bundle_key : Key
bundle_key = [] ∷ codes "G.app" ∷ []

abbrev pub plist_key : Key
plist_key = bundle_key ++ (contents ∷ codes "Info.plist" ∷ [])

abbrev dirs : List Key
dirs =
    ([] ∷ [])
    ∷ bundle_key
    ∷ (bundle_key ++ (contents ∷ []))
    ∷ (bundle_key ++ (contents ∷ codes "MacOS" ∷ []))
    ∷ []

abbrev any_key : List Key → Key → Bool
any_key [] k = false
any_key (j ∷ js) k = key_eq j k || any_key js k

abbrev pub nodes_at : Key → Option Node
nodes_at k =
    if key_eq (bundle_key ++ executable_key) k
    then some (file program_bytes)
    else if key_eq plist_key k
    then some (file plist_bytes)
    else if any_key dirs k
    then some dir
    else none

-- The artifact of the loader is missing, so that the installation fails after its preparation.
abbrev pub disk : Fs
disk = record { nodes = nodes_at; faults = [] }

abbrev pub backup : BackupManifest
backup = record {
  gd_root = bundle;
  entries =
      record { rel_path = path_text executable_key; kind = modified program_bytes (codes "0") }
      ∷ record { rel_path = path_text code_signature_key; kind = created_absent }
      ∷ record { rel_path = path_text dylib_key; kind = created_absent }
      ∷ [];
}

run_prepare : Result InstallError BackupManifest × Fs
unfolding prepare recognize_gd plist_declares_bundle_id contains_subsequence any_window
    is_macho_bytes ensure_not_already_installed record_before_modify record_created_absent rel_of
    strip_prefix persist persist_entries persist_entry encode_field path_text key join words
    without_dots ends_with_slash backup_root_for decimal decimal_loop utf8 read write create_dir_all
run_prepare = prepare no_hash bundle disk

run_prepare_ok : run_prepare.0 ≡ ok backup
unfolding run_prepare
run_prepare_ok = refl

run_changes : Result InstallError (Unit {0}) × Fs
unfolding run_prepare apply_changes copy_file host_patch host_resign parent_path copy
run_changes = apply_changes host_seam_injector (record { root = bundle }) artifact run_prepare.1

run_changes_err : run_changes.0 ≡ err (io artifact)
unfolding run_changes
run_changes_err = refl

run_changes_clear : run_changes.1.faults ≡ []
unfolding run_changes
run_changes_clear = refl

run_prepare_lem : prepare no_hash bundle disk ≡ (ok backup, run_prepare.1)
unfolding run_prepare
run_prepare_lem = ap (λ r. (r, run_prepare.1)) run_prepare_ok

run_changes_lem :
    apply_changes host_seam_injector (record { root = bundle }) artifact run_prepare.1
    ≡ (err (io artifact), run_changes.1)
unfolding run_changes
run_changes_lem = ap (λ r. (r, run_changes.1)) run_changes_err

pub bundle_named : list_eq bundle [] ≡ false
bundle_named = refl

pub bundle_key_lem : key bundle ≡ bundle_key
unfolding key words without_dots
bundle_key_lem = refl

no_dir_changed : (k : Key) → is_changed bundle k ≡ true → is_dir disk k ≡ false
no_dir_changed k h = elim (changed_cases bundle k h) [
  | inl e ↦ rw (e, bundle_key_lem) refl
  | inr (inl e) ↦ rw (e, bundle_key_lem) refl
  | inr (inr e) ↦ rw (e, bundle_key_lem) refl
]

-- The bundle has two files.
pub disk_files :
    (k : Key)
    → key_eq (bundle_key ++ executable_key) k ≡ false
    → key_eq plist_key k ≡ false
    → file_at disk k ≡ none
disk_files k e p = ground arith

disk_IsHeld : (k : Key) → file_at disk k ≢ none → is_holder disk (parent k) ≡ true
disk_IsHeld k h = elim (Bool-cases (key_eq (bundle_key ++ executable_key) k)) [
  | inl e ↦ rw (sym (eq_of_key_eq (bundle_key ++ executable_key) k e)) refl
  | inr e ↦ elim (Bool-cases (key_eq plist_key k)) [
    | inl p ↦ rw (sym (eq_of_key_eq plist_key k p)) refl
    | inr p ↦ absurd (h (disk_files k e p))
  ]
]

-- The witnesses.
install_with_rollback_example :
    ((install_with no_hash bundle artifact host_seam_injector disk).0 ≡ err (io artifact))
    × ((j : Key)
        → under_backup bundle j ≡ false
        → file_at (install_with no_hash bundle artifact host_seam_injector disk).1 j
          ≡ file_at disk j)
install_with_rollback_example =
    install_with_rollback bundle no_hash bundle_named host_seam_injector artifact disk run_prepare.1
      run_changes.1 backup (io artifact) (host_seam_injector-IsConfined bundle bundle_named)
      disk_IsHeld no_dir_changed run_prepare_lem run_changes_lem run_changes_clear

prepare-IsKeeping_example :
    IsKeeping (under_backup bundle) (is_changed bundle) (prepare no_hash bundle)
prepare-IsKeeping_example = prepare-IsKeeping bundle bundle_named no_hash

apply_changes-IsKeeping_example :
    IsKeeping
      (is_changed bundle)
      (is_changed bundle)
      (apply_changes host_seam_injector (record { root = bundle }) artifact)
apply_changes-IsKeeping_example =
    apply_changes-IsKeeping bundle bundle_named host_seam_injector artifact
      (host_seam_injector-IsConfined bundle bundle_named)

host_seam_injector-IsConfined_example : IsConfined host_seam_injector bundle
host_seam_injector-IsConfined_example = host_seam_injector-IsConfined bundle bundle_named

backup_root_for-outside_example :
    is_prefix (key (backup_root_for bundle)) (key bundle ++ (contents ∷ executable_key)) ≡ false
backup_root_for-outside_example = backup_root_for-outside bundle executable_key bundle_named

decode_field-encode_field_example :
    decode_field (encode_field (9 ∷ 0x5c ∷ b't' ∷ 10 ∷ [])) ≡ 9 ∷ 0x5c ∷ b't' ∷ 10 ∷ []
decode_field-encode_field_example = decode_field-encode_field (9 ∷ 0x5c ∷ b't' ∷ 10 ∷ [])
