-- ===== src/Installer/Backup.antt =====
-- The restore record of cli/src/installer.rs: what was there before the installation. SHA-256 is the
-- crate `sha2`, a parameter.
pub mod Fields
use pulse_sdk.Prelude.{
  ℕ, ◌+◌, true, false, Option, none, some, List, [], ◌∷◌, ◌++◌, ◌==◌, if◌then◌else◌,
}
use pulse_sdk.Prelude.Text.{codes, utf8, decimal}
use pulse_sdk.Installer.Paths.{
  FilePath, Key, key, join, strip_prefix, backup_root_for, backup_manifest_name,
}
use pulse_sdk.Installer.Fs.{Bytes, exists, read, write, create_dir_all}
use pulse_sdk.Installer.Action.{Action, pure, raise, ◌>>=◌, attempt, attempt_read, io}
use pulse_sdk.Installer.Recognize.{GdInstallation}

-- `BackupKind`
pub data BackupKind : Type 0 where
  modified : (bytes : Bytes) (hash : List ℕ) → BackupKind
  created_absent : BackupKind

-- `BackupEntry`
pub record BackupEntry : Type 0 where
  pub rel_path : FilePath
  pub kind : BackupKind

-- `BackupManifest`
pub record BackupManifest : Type 0 where
  pub gd_root : FilePath
  pub entries : List BackupEntry

abbrev pub empty_manifest : GdInstallation → BackupManifest
empty_manifest gd = record { gd_root = gd.root; entries = [] }

-- The body of the loop of `encode_field`.
encode_char : ℕ → List ℕ
encode_char c =
    if c == 0x5c
    then 0x5c ∷ 0x5c ∷ []
    else if c == 9
    then 0x5c ∷ b't' ∷ []
    else if c == 10
    then 0x5c ∷ b'n' ∷ []
    else if c == 13
    then 0x5c ∷ b'r' ∷ []
    else c ∷ []

unfoldable pub encode_field : List ℕ → List ℕ
unfolding encode_char
encode_field [] = []
encode_field (c ∷ value) = encode_char c ++ encode_field value

-- What a backslash and the character behind it stand for.
decode_escape : ℕ → List ℕ
decode_escape c =
    if c == 0x5c
    then 0x5c ∷ []
    else if c == b't'
    then 9 ∷ []
    else if c == b'n'
    then 10 ∷ []
    else if c == b'r'
    then 13 ∷ []
    else 0x5c ∷ c ∷ []

unfoldable pub decode_field : List ℕ → List ℕ
unfolding decode_escape
decode_field [] = []
decode_field (c ∷ []) = c ∷ []
decode_field (c ∷ c' ∷ value) = elim (c == 0x5c) [
  | true ↦ decode_escape c' ++ decode_field value
  | false ↦ c ∷ decode_field (c' ∷ value)
]

-- A relative path as text.
unfoldable pub path_text : Key → List ℕ
path_text [] = []
path_text (c ∷ []) = c
path_text (c ∷ c' ∷ k) = c ++ (b'/' ∷ path_text (c' ∷ k))

abbrev pub tab : List ℕ
tab = 9 ∷ []

abbrev pub newline : List ℕ
newline = 10 ∷ []

abbrev pub rel_outcome : FilePath → Option Key → Action FilePath
rel_outcome abs_path none = raise (io abs_path)
rel_outcome abs_path (some rel) = pure (path_text rel)

-- `rel_of`: the components behind the root. `strip_prefix` gives the rest of the text, which is the
-- same where it has no `.` and no repeated slash.
unfoldable pub rel_of : BackupManifest → FilePath → Action FilePath
rel_of backup abs_path = rel_outcome abs_path (strip_prefix (key backup.gd_root) (key abs_path))

module _ (sha256_hex : Bytes → List ℕ) where
  abbrev pub modified_entry : FilePath → Bytes → BackupEntry
  modified_entry rel bytes = record { rel_path = rel; kind = modified bytes (sha256_hex bytes) }

  abbrev pub add_entry : BackupManifest → BackupEntry → BackupManifest
  add_entry backup e = record backup { entries = backup.entries ++ e ∷ [] }

  unfoldable pub record_before_modify : BackupManifest → FilePath → Action BackupManifest
  record_before_modify backup abs_path = rel_of backup abs_path >>= λ rel. λ fs.
      if exists fs (key abs_path)
      then (attempt_read (io abs_path) (read (key abs_path)) >>= λ bytes.
            pure (add_entry backup (modified_entry rel bytes)))
          fs
      else pure (add_entry backup (record { rel_path = rel; kind = created_absent })) fs

  unfoldable pub record_created_absent : BackupManifest → FilePath → Action BackupManifest
  record_created_absent backup abs_path = rel_of backup abs_path >>= λ rel.
      pure (add_entry backup (record { rel_path = rel; kind = created_absent }))

-- The body of the loop of `persist`: the line of an entry, and its `.orig` file.
unfoldable pub persist_entry : FilePath → ℕ → List ℕ → BackupKind → Action (List ℕ)
persist_entry backup_dir idx rel (modified bytes hash) =
    let backup_name = decimal idx ++ codes ".orig" in
    let backup_path = join backup_dir backup_name in
    attempt (io backup_path) (write (key backup_path) bytes) >>= λ _. pure (
      codes "entry"
      ++ (tab
          ++ (codes "modified"
              ++ (tab
                  ++ (rel ++ (tab ++ (hash ++ (tab ++ (encode_field backup_name ++ newline)))))))))
persist_entry backup_dir idx rel created_absent =
    pure (codes "entry" ++ (tab ++ (codes "created_absent" ++ (tab ++ (rel ++ newline)))))

-- `for (idx, entry) in self.entries.iter().enumerate()`
unfoldable pub persist_entries : FilePath → ℕ → List BackupEntry → List ℕ → Action (List ℕ)
persist_entries backup_dir idx [] manifest = pure manifest
persist_entries backup_dir idx (e ∷ entries) manifest =
    persist_entry backup_dir idx (encode_field e.rel_path) e.kind >>= λ line.
    persist_entries backup_dir (idx + 1) entries (manifest ++ line)

unfoldable pub persist : BackupManifest → Action (Unit {0})
unfolding persist_entries persist_entry encode_field
persist backup =
    let backup_dir = backup_root_for backup.gd_root in
    let manifest_path = join backup_dir backup_manifest_name in
    let header =
      codes "pulse-backup"
      ++ (tab
          ++ (codes "1"
              ++ (newline
                  ++ (codes "gd_root" ++ (tab ++ (encode_field backup.gd_root ++ newline)))))) in
    attempt (io backup_dir) (create_dir_all (key backup_dir)) >>= λ _.
    persist_entries backup_dir 0 backup.entries header >>= λ manifest.
    attempt (io manifest_path) (write (key manifest_path) (utf8 manifest))
