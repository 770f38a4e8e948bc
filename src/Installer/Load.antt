-- ===== src/Installer/Load.antt =====
-- Reading the restore record back: `BackupManifest::load` of cli/src/installer.rs, and the text of
-- a SHA-256 digest. The digest itself is the crate `sha2`, a parameter.
pub mod Fields
pub mod Stored
pub mod Plain
pub mod Exact
use pulse_sdk.Prelude.{
  ℕ, ◌/◌, ◌%◌, Bool, true, false, ◌&&◌, Option, none, some, List, [], ◌∷◌, ◌++◌, list_eq, is_empty,
  get_elem?, if◌then◌else◌,
}
use pulse_sdk.Prelude.Text.{codes}
use pulse_sdk.Prelude.Lines.{lines, split_on}
use pulse_sdk.Installer.Paths.{FilePath, key, join, backup_root_for, backup_manifest_name}
use pulse_sdk.Installer.Fs.{Bytes, exists, read, read_to_string}
use pulse_sdk.Installer.Action.{
  InstallError, missing_restore_record, corrupt_restore_record, Action, pure, raise, ◌>>=◌,
  attempt_read, io,
}
use pulse_sdk.Installer.Backup.{modified, created_absent, BackupEntry, BackupManifest, decode_field}

abbrev hex_char : ℕ → ℕ
hex_char n = elim (get_elem? (codes "0123456789abcdef") n) [ none ↦ 0 | some c ↦ c ]

hex_text : Bytes → List ℕ
hex_text [] = []
hex_text (b ∷ bytes) = hex_char (b / 16) ∷ hex_char (b % 16) ∷ hex_text bytes

-- `sha256_hex`, with the digest of the crate.
unfoldable pub sha256_hex : (Bytes → Bytes) → Bytes → List ℕ
unfolding hex_text
sha256_hex digest bytes = hex_text (digest bytes)

-- `BackupManifest::path_for`
abbrev pub path_for : FilePath → FilePath
path_for gd_root = join (backup_root_for gd_root) backup_manifest_name

-- The shapes of a line that the `match` of `load` tells apart.
pub data RecordLine : Type 0 where
  gd_root_line : (value : List ℕ) → RecordLine
  modified_line : (rel hash backup_name : List ℕ) → RecordLine
  created_absent_line : (rel : List ℕ) → RecordLine
  unknown_line : RecordLine

unfoldable pub parse_fields : List (List ℕ) → RecordLine
parse_fields (tag ∷ value ∷ []) =
    if list_eq tag (codes "gd_root") then gd_root_line value else unknown_line
parse_fields (tag ∷ kind ∷ rel ∷ []) =
    if list_eq tag (codes "entry") && list_eq kind (codes "created_absent")
    then created_absent_line rel
    else unknown_line
parse_fields (tag ∷ kind ∷ rel ∷ hash ∷ backup_name ∷ []) =
    if list_eq tag (codes "entry") && list_eq kind (codes "modified")
    then modified_line rel hash backup_name
    else unknown_line
parse_fields _ = unknown_line

-- The variables of the loop of `load`.
pub record LoadState : Type 0 where
  pub gd_root_field : Option FilePath
  pub entries : List BackupEntry

abbrev pub start : LoadState
start = record { gd_root_field = none; entries = [] }

abbrev pub push_entry : LoadState → BackupEntry → LoadState
push_entry s e = record s { entries = s.entries ++ e ∷ [] }

abbrev pub record_header : List ℕ
record_header = codes "pulse-backup" ++ 9 ∷ codes "1"

module _ (sha256 : Bytes → List ℕ) (gd_root : FilePath) where
  abbrev corrupt : {A : Type 0} → Action A
  corrupt = raise (corrupt_restore_record (path_for gd_root))

  -- The body of the loop of `load`.
  unfoldable pub load_line : RecordLine → LoadState → Action LoadState
  load_line (gd_root_line value) s = pure (record s { gd_root_field = some (decode_field value) })
  load_line (modified_line rel hash backup_name) s =
      let backup_path = join (backup_root_for gd_root) (decode_field backup_name) in
      attempt_read (io backup_path) (read (key backup_path)) >>= λ bytes.
      if list_eq (sha256 bytes) hash
      then pure (push_entry s (record { rel_path = decode_field rel; kind = modified bytes hash }))
      else corrupt
  load_line (created_absent_line rel) s =
      pure (push_entry s (record { rel_path = decode_field rel; kind = created_absent }))
  load_line unknown_line s = corrupt

  unfoldable pub load_lines : List (List ℕ) → LoadState → Action LoadState
  unfolding parse_fields load_line
  load_lines [] s = pure s
  load_lines (line ∷ rest) s =
      let loop = load_lines rest in
      if is_empty line then loop s else load_line (parse_fields (split_on 9 line)) s >>= loop

  -- What follows the loop.
  abbrev pub manifest_of : LoadState → Action BackupManifest
  manifest_of s = elim s.gd_root_field [
    | none ↦ corrupt
    | some root ↦ pure (record { gd_root = root; entries = s.entries })
  ]

  unfoldable pub load_text : List (List ℕ) → Action BackupManifest
  unfolding load_lines
  load_text [] = corrupt
  load_text (header ∷ rest) =
      if list_eq header record_header then load_lines rest start >>= manifest_of else corrupt

  -- `BackupManifest::load`
  unfoldable pub load : Action BackupManifest
  unfolding load_text
  load fs =
      if exists fs (key (path_for gd_root))
      then (attempt_read (io (path_for gd_root)) (read_to_string (key (path_for gd_root)))
            >>= λ text. load_text (lines text))
          fs
      else raise (missing_restore_record gd_root) fs

-- `require_restore_record`
abbrev pub require_restore_record : (Bytes → List ℕ) → FilePath → Action BackupManifest
require_restore_record = load
