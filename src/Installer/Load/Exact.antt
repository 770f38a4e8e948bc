-- ===== src/Installer/Load/Exact.antt =====
-- A restore record that lies on the disk is loaded as it was.
use pulse_sdk.Prelude.{
  ℕ, ◌≡◌, refl, sym, ap, ◌∙◌, ◌+◌, true, false, List, [], ◌∷◌, ◌++◌, is_empty, map, some,
  append_assoc, append-nil, All, All-map, arith, ok,
}
use pulse_sdk.Prelude.Text.{codes, all_chars, utf8}
use pulse_sdk.Prelude.Lines.{lines, split_on}
use pulse_sdk.Prelude.Utf8.{IsScalarText, from_utf8-utf8}
use pulse_sdk.Installer.Paths.{FilePath, Key, key, join, backup_root_for}
use pulse_sdk.Installer.Paths.Separate.{list_eq_self}
use pulse_sdk.Installer.Fs.{Fs, Bytes, file_at, exists, read, read_to_string}
use pulse_sdk.Installer.Action.{InstallError, Action, ◌>>=◌, then_do, attempt_read, io}
use pulse_sdk.Installer.Backup.{
  BackupKind, modified, created_absent, BackupEntry, BackupManifest, encode_field,
}
use pulse_sdk.Installer.Backup.Fields.{
  decode_field-encode_field, encode_field-IsFieldChar, encode_field-IsScalarText,
}
use pulse_sdk.Installer.Load.{
  path_for, LoadState, start, push_entry, modified_line, created_absent_line, gd_root_line,
  parse_fields, load_line, load_lines, load_text, manifest_of, load,
}
use pulse_sdk.Installer.Load.Fields.{
  IsField, fields_line, record_text, split_on-fields_line, lines-record_text,
  record_text-IsScalarText,
}
use pulse_sdk.Installer.Load.Stored.{
  orig_name, entry_fields, entry_lines, record_lines, IsStoredKind, IsStored, IsPersisted,
}
use pulse_sdk.Installer.Load.Plain.{IsRecordText, plain_text, orig_name-IsRecordText}

read_faultless : (k : Key) (fs : Fs) → fs.faults ≡ [] → read k fs ≡ (file_at fs k, fs)
unfolding read
read_faultless k fs h = rw h refl

>>=-ok :
    {A B : Type 0} (m : Action A) (f : A → Action B) (fs fs' : Fs) (a : A)
    → m fs ≡ (ok a, fs')
    → (m >>= f) fs ≡ f a fs'
>>=-ok m f fs fs' a h = ap (λ r. then_do r.0 f r.1) h

attempt_read-ok :
    (e : InstallError) (k : Key) (b : Bytes) (fs : Fs)
    → fs.faults ≡ []
    → file_at fs k ≡ some b
    → attempt_read e (read k) fs ≡ (ok b, fs)
attempt_read-ok e k b fs clear h = rw (read_faultless k fs clear, h) refl

read_to_string-ok :
    (e : InstallError) (k : Key) (text : List ℕ) (fs : Fs)
    → fs.faults ≡ []
    → IsScalarText text
    → file_at fs k ≡ some (utf8 text)
    → attempt_read e (read_to_string k) fs ≡ (ok text, fs)
unfolding read_to_string
read_to_string-ok e k text fs clear scalar h =
    rw (read_faultless k fs clear, h) (rw (from_utf8-utf8 text scalar) refl)

exists_file : (fs : Fs) (k : Key) (b : Bytes) → file_at fs k ≡ some b → exists fs k ≡ true
exists_file fs k b h = ground arith

module _ (sha256 : Bytes → List ℕ) where
  -- The hash of an entry is that of its bytes.
  abbrev IsHashed : BackupKind → Type 0
  IsHashed (modified bytes hash) = hash ≡ sha256 bytes
  IsHashed created_absent = Unit

  abbrev pub IsSaveable : BackupEntry → Type 0
  IsSaveable e = IsScalarText e.rel_path × IsHashed e.kind

  module _ (root : FilePath) where
    load_lines_cons :
        (line : List ℕ) (rest : List (List ℕ)) (fields : List (List ℕ)) (s : LoadState) (fs : Fs)
        → is_empty line ≡ false
        → split_on 9 line ≡ fields
        → load_lines sha256 root (line ∷ rest) s fs
          ≡ (load_line sha256 root (parse_fields fields) s >>= load_lines sha256 root rest) fs
    unfolding load_lines
    load_lines_cons line rest fields s fs h k = rw (h, k) refl

    load_modified :
        (rel : FilePath) (bytes : Bytes) (idx : ℕ) (s : LoadState) (fs : Fs)
        → fs.faults ≡ []
        → file_at fs (key (join (backup_root_for root) (orig_name idx))) ≡ some bytes
        → load_line sha256 root
            (modified_line (encode_field rel) (sha256 bytes) (encode_field (orig_name idx)))
            s
            fs
          ≡ (
            ok (push_entry s (record { rel_path = rel; kind = modified bytes (sha256 bytes) })),
            fs,
          )
    unfolding load_line
    load_modified rel bytes idx s fs clear h =
        let k = key (join (backup_root_for root) (orig_name idx)) in
        rw (decode_field-encode_field (orig_name idx), decode_field-encode_field rel)
          (rw (read_faultless k fs clear, h) (rw (list_eq_self (sha256 bytes)) refl))

    load_created_absent :
        (rel : FilePath) (s : LoadState) (fs : Fs)
        → load_line sha256 root (created_absent_line (encode_field rel)) s fs
          ≡ (ok (push_entry s (record { rel_path = rel; kind = created_absent })), fs)
    unfolding load_line
    load_created_absent rel s fs = rw (decode_field-encode_field rel) refl

  module _ (sha256_text : (bytes : Bytes) → IsRecordText (sha256 bytes)) where
    encoded : (text : List ℕ) → IsScalarText text → IsRecordText (encode_field text)
    encoded text s = (encode_field-IsFieldChar text, encode_field-IsScalarText text s)

    fields_IsRecordText :
        (rel : FilePath) (kind : BackupKind) (idx : ℕ)
        → IsScalarText rel
        → IsHashed kind
        → All IsRecordText (entry_fields idx (record { rel_path = rel; kind = kind }))
    fields_IsRecordText rel (modified bytes hash) idx s h =
        let (f, t) = orig_name-IsRecordText idx in
        let name : IsRecordText (encode_field (orig_name idx)) =
          (encode_field-IsFieldChar (orig_name idx), encode_field-IsScalarText (orig_name idx) t) in
        let digest : IsRecordText hash = rw h (sha256_text bytes) in
        (
          plain_text (codes "entry") (unfold all_chars in refl),
          (
            plain_text (codes "modified") (unfold all_chars in refl),
            (encoded rel s, (digest, (name, tt))),
          ),
        )
    fields_IsRecordText rel created_absent idx s h = (
      plain_text (codes "entry") (unfold all_chars in refl),
      (plain_text (codes "created_absent") (unfold all_chars in refl), (encoded rel s, tt)),
    )

    IsField-fields : (fields : List (List ℕ)) → All IsRecordText fields → All IsField fields
    IsField-fields fields h = All-map IsRecordText IsField fields (λ text p. p.0) h

    module _ (root : FilePath) where
      load_kind :
          (rel : FilePath) (kind : BackupKind) (idx : ℕ) (s : LoadState) (fs : Fs)
          → fs.faults ≡ []
          → IsHashed kind
          → IsStoredKind (backup_root_for root) fs idx kind
          → load_line sha256 root
              (parse_fields (entry_fields idx (record { rel_path = rel; kind = kind })))
              s
              fs
            ≡ (ok (push_entry s (record { rel_path = rel; kind = kind })), fs)
      unfolding parse_fields
      load_kind rel (modified bytes hash) idx s fs clear h stored =
          rw h (load_modified root rel bytes idx s fs clear stored)
      load_kind rel created_absent idx s fs clear h stored = load_created_absent root rel s fs

      nonempty_line :
          (rel : FilePath) (kind : BackupKind) (idx : ℕ)
          → is_empty (fields_line (entry_fields idx (record { rel_path = rel; kind = kind })))
            ≡ false
      nonempty_line rel (modified bytes hash) idx = refl
      nonempty_line rel created_absent idx = refl

      split_entry :
          (rel : FilePath) (kind : BackupKind) (idx : ℕ)
          → IsScalarText rel
          → IsHashed kind
          → split_on 9 (fields_line (entry_fields idx (record { rel_path = rel; kind = kind })))
            ≡ entry_fields idx (record { rel_path = rel; kind = kind })
      split_entry rel (modified bytes hash) idx t h = split_on-fields_line _ _ (
          IsField-fields (entry_fields idx (record { rel_path = rel; kind = modified bytes hash }))
            (fields_IsRecordText rel (modified bytes hash) idx t h))
      split_entry rel created_absent idx t h = split_on-fields_line _ _ (
          IsField-fields (entry_fields idx (record { rel_path = rel; kind = created_absent }))
            (fields_IsRecordText rel created_absent idx t h))

      load_entries :
          (idx : ℕ) (entries : List BackupEntry) (s : LoadState) (fs : Fs)
          → fs.faults ≡ []
          → All IsSaveable entries
          → IsStored (backup_root_for root) fs idx entries
          → load_lines sha256 root (map fields_line (entry_lines idx entries)) s fs
            ≡ (ok (record s { entries = s.entries ++ entries }), fs)
      load_entries idx [] s fs clear h stored =
          unfold load_lines in
          ap (λ l. (ok (record s { entries = l }), fs)) (sym (append-nil s.entries))
      load_entries idx (e ∷ entries) s fs clear ((t, hashed), h) (at, stored) =
          load_lines_cons root _ _ (entry_fields idx e) s fs (nonempty_line e.rel_path e.kind idx)
            (split_entry e.rel_path e.kind idx t hashed)
          ∙ (>>=-ok (load_line sha256 root (parse_fields (entry_fields idx e)) s)
                (load_lines sha256 root (map fields_line (entry_lines (idx + 1) entries))) fs fs
                (push_entry s e) (load_kind e.rel_path e.kind idx s fs clear hashed at)
              ∙ (load_entries (idx + 1) entries (push_entry s e) fs clear h stored
                  ∙ ap (λ l. (ok (record s { entries = l }), fs))
                      (append_assoc s.entries (e ∷ []) entries)))

    entry_lines-IsRecordText :
        (idx : ℕ) (entries : List BackupEntry)
        → All IsSaveable entries
        → All (All IsRecordText) (entry_lines idx entries)
    entry_lines-IsRecordText idx [] h = tt
    entry_lines-IsRecordText idx (e ∷ entries) ((t, hashed), h) = (
      fields_IsRecordText e.rel_path e.kind idx t hashed,
      entry_lines-IsRecordText (idx + 1) entries h,
    )

    record_lines-IsRecordText :
        (backup : BackupManifest)
        → IsScalarText backup.gd_root
        → All IsSaveable backup.entries
        → All (All IsRecordText) (record_lines backup)
    record_lines-IsRecordText backup t h = (
      (
        plain_text (codes "pulse-backup") (unfold all_chars in refl),
        (plain_text (codes "1") (unfold all_chars in refl), tt),
      ),
      (
        (plain_text (codes "gd_root") (unfold all_chars in refl), (encoded backup.gd_root t, tt)),
        entry_lines-IsRecordText 0 backup.entries h,
      ),
    )

    module _ (backup : BackupManifest) (root_text : IsScalarText backup.gd_root)
        (saveable : All IsSaveable backup.entries) where
      all_lines : All (All IsRecordText) (record_lines backup)
      all_lines = record_lines-IsRecordText backup root_text saveable

      lines_read : lines (record_text (record_lines backup)) ≡ map fields_line (record_lines backup)
      lines_read = lines-record_text (record_lines backup) (
          All-map (All IsRecordText) (All IsField) (record_lines backup)
            (λ fields. IsField-fields fields) all_lines)

      text_IsScalarText : IsScalarText (record_text (record_lines backup))
      text_IsScalarText = record_text-IsScalarText (record_lines backup) (
          All-map (All IsRecordText) (All IsScalarText) (record_lines backup)
            (λ fields. All-map IsRecordText IsScalarText fields (λ text p. p.1)) all_lines)

      abbrev root_fields : List (List ℕ)
      root_fields = codes "gd_root" ∷ encode_field backup.gd_root ∷ []

      load_text_lem :
          (fs : Fs)
          → fs.faults ≡ []
          → IsStored (backup_root_for backup.gd_root) fs 0 backup.entries
          → load_text sha256 backup.gd_root (map fields_line (record_lines backup)) fs
            ≡ (ok backup, fs)
      unfolding load_text parse_fields load_line
      load_text_lem fs clear stored =
          let root = backup.gd_root in
          let rest = map fields_line (entry_lines 0 backup.entries) in
          let loop = load_lines sha256 root rest in
          let rooted : LoadState = record { gd_root_field = some root; entries = [] } in
          let split =
            split_on-fields_line (codes "gd_root") (encode_field root ∷ [])
              (IsField-fields root_fields (all_lines.1.0)) in
          let looped : load_lines sha256 root (fields_line root_fields ∷ rest) start fs
              ≡ (ok (record { gd_root_field = some root; entries = backup.entries }), fs) =
            load_lines_cons root (fields_line root_fields) rest root_fields start fs refl split
            ∙ (>>=-ok (load_line sha256 root (gd_root_line (encode_field root)) start) loop fs fs
                  rooted (rw (decode_field-encode_field root) refl)
                ∙ load_entries root 0 backup.entries rooted fs clear saveable stored) in
          >>=-ok (load_lines sha256 root (fields_line root_fields ∷ rest) start)
            (manifest_of sha256 root) fs fs
            (record { gd_root_field = some root; entries = backup.entries }) looped

      -- A record that lies on the disk is loaded as it was, with no file changed.
      pub load-IsPersisted :
          (fs : Fs)
          → fs.faults ≡ []
          → IsPersisted backup fs
          → load sha256 backup.gd_root fs ≡ (ok backup, fs)
      unfolding load
      load-IsPersisted fs clear (at, stored) =
          let k = key (path_for backup.gd_root) in
          let text = record_text (record_lines backup) in
          rw (exists_file fs k (utf8 text) at) (
            >>=-ok (attempt_read (io (path_for backup.gd_root)) (read_to_string k))
              (λ t. load_text sha256 backup.gd_root (lines t)) fs fs text
              (read_to_string-ok (io (path_for backup.gd_root)) k text fs clear text_IsScalarText
                at)
            ∙ (ap (λ l. load_text sha256 backup.gd_root l fs) lines_read
                ∙ load_text_lem fs clear stored))
