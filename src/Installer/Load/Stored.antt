-- ===== src/Installer/Load/Stored.antt =====
-- What `persist` of cli/src/installer.rs leaves on the disk: the file of the record, and a file for
-- each entry that has bytes.
use pulse_sdk.Prelude.{
  ℕ, ◌≡◌, ◌≢◌, refl, sym, ap, ◌∙◌, ◌+◌, ◌<◌, Bool, false, not, List, [], ◌∷◌, ◌++◌, list_eq, some,
  append_assoc, append-nil, All, All-append, arith, Bool-cases, inl, inr, ok,
}
use pulse_sdk.Prelude.Text.{codes, decimal, words, word_loop, word_loop-word, flush, utf8}
use pulse_sdk.Prelude.Digits.{decimal-append-injective, decimal-All}
use pulse_sdk.Installer.Paths.{
  FilePath, Key, is_slash, key, join, key_eq, without_dots, backup_root_for, backup_manifest_name,
}
use pulse_sdk.Installer.Paths.Separate.{key-join, key_eq-append, eq_of_list_eq, key_eq_self}
use pulse_sdk.Installer.Fs.{Fs, Bytes, file_at, write, create_dir_all}
use pulse_sdk.Installer.Fs.Frame.{Keeps}
use pulse_sdk.Installer.Action.{InstallError, attempt, io}
use pulse_sdk.Installer.Action.Keeping.{>>=-eq-ok}
use pulse_sdk.Installer.Backup.{
  BackupKind, modified, created_absent, BackupEntry, BackupManifest, encode_field, persist_entry,
  persist_entries, persist,
}
use pulse_sdk.Installer.Load.{path_for}
use pulse_sdk.Installer.Load.Fields.{record_text, fields_newline}
use pulse_sdk.Installer.Transaction.Confined.{decimal_relative}
use pulse_sdk.Installer.Transaction.Steps.{persist_entries-IsKeeping, write-IsKeeping}
use pulse_sdk.Installer.Transaction.Entries.{kept_by, pure-eq-ok}

abbrev pub orig_name : ℕ → FilePath
orig_name idx = decimal idx ++ codes ".orig"

abbrev orig_key : FilePath → ℕ → Key
orig_key backup_dir idx = key (join backup_dir (orig_name idx))

abbrev pub entry_fields : ℕ → BackupEntry → List (List ℕ)
entry_fields idx e = elim e.kind [
  | modified bytes hash ↦
      codes "entry"
      ∷ codes "modified"
      ∷ encode_field e.rel_path
      ∷ hash
      ∷ encode_field (orig_name idx)
      ∷ []
  | created_absent ↦ codes "entry" ∷ codes "created_absent" ∷ encode_field e.rel_path ∷ []
]

abbrev pub entry_lines : ℕ → List BackupEntry → List (List (List ℕ))
entry_lines idx [] = []
entry_lines idx (e ∷ entries) = entry_fields idx e ∷ entry_lines (idx + 1) entries

-- The lines of a record by their fields.
abbrev pub record_lines : BackupManifest → List (List (List ℕ))
record_lines backup =
    (codes "pulse-backup" ∷ codes "1" ∷ [])
    ∷ (codes "gd_root" ∷ encode_field backup.gd_root ∷ [])
    ∷ entry_lines 0 backup.entries

abbrev pub IsStoredKind : FilePath → Fs → ℕ → BackupKind → Type 0
IsStoredKind backup_dir fs idx (modified bytes hash) =
    file_at fs (orig_key backup_dir idx) ≡ some bytes
IsStoredKind backup_dir fs idx created_absent = Unit

abbrev pub IsStored : FilePath → Fs → ℕ → List BackupEntry → Type 0
IsStored backup_dir fs idx [] = Unit
IsStored backup_dir fs idx (e ∷ entries) =
    IsStoredKind backup_dir fs idx e.kind × IsStored backup_dir fs (idx + 1) entries

-- The record lies on the disk.
abbrev pub IsPersisted : BackupManifest → Fs → Type 0
IsPersisted backup fs =
    (file_at fs (key (path_for backup.gd_root)) ≡ some (utf8 (record_text (record_lines backup))))
    × IsStored (backup_root_for backup.gd_root) fs 0 backup.entries

-- The name of a stored file is one component.
orig-nonempty : (stem : List ℕ) → flush (stem ++ codes ".orig") [] ≡ (stem ++ codes ".orig") ∷ []
orig-nonempty [] = refl
orig-nonempty (c ∷ stem) = refl

orig-ne_nil : (stem : List ℕ) → list_eq (stem ++ codes ".orig") [] ≡ false
orig-ne_nil [] = refl
orig-ne_nil (c ∷ stem) = refl

orig-ne_dot : (stem : List ℕ) → list_eq (stem ++ codes ".orig") (b'.' ∷ []) ≡ false
orig-ne_dot [] = refl
orig-ne_dot (c ∷ stem) = ground (arith, orig-ne_nil stem)

orig-no_slash : (idx : ℕ) → All (λ c. is_slash c ≡ false) (orig_name idx)
orig-no_slash idx =
    All-append (λ c. is_slash c ≡ false) (decimal idx) (codes ".orig")
      (decimal-All (λ c. is_slash c ≡ false) idx (λ d h. ground arith))
      (refl, (refl, (refl, (refl, (refl, tt)))))

orig_words : (idx : ℕ) → words is_slash (orig_name idx) ≡ orig_name idx ∷ []
unfolding words
orig_words idx =
    word_loop-word is_slash [] (orig_name idx) (orig-no_slash idx) ∙ orig-nonempty (decimal idx)

lone_name :
    (name : List ℕ) → list_eq name (b'.' ∷ []) ≡ false → without_dots (name ∷ []) ≡ name ∷ []
unfolding without_dots
lone_name name h = rw h refl

orig-ne_manifest :
    (stem : List ℕ)
    → All (λ c. c ≢ b'm') stem
    → list_eq backup_manifest_name (stem ++ codes ".orig") ≡ false
orig-ne_manifest [] h = refl
orig-ne_manifest (c ∷ stem) (ne, h) = ground arith

module _ (dir : FilePath) (named : list_eq dir [] ≡ false) where
  orig_key_lem : (idx : ℕ) → orig_key dir idx ≡ key dir ++ orig_name idx ∷ []
  orig_key_lem idx =
      key-join dir (orig_name idx) (decimal_relative idx) named
      ∙ ap (λ k. key dir ++ k)
          (ap without_dots (orig_words idx) ∙ lone_name (orig_name idx) (orig-ne_dot (decimal idx)))

  manifest_key_lem : key (join dir backup_manifest_name) ≡ key dir ++ backup_manifest_name ∷ []
  manifest_key_lem =
      key-join dir backup_manifest_name refl named ∙ unfold words word_loop without_dots in refl

  orig_key-ne : (i j : ℕ) → i < j → key_eq (orig_key dir i) (orig_key dir j) ≡ false
  orig_key-ne i j lt =
      rw (orig_key_lem i, orig_key_lem j)
        (key_eq-append (key dir) (orig_name i ∷ []) (orig_name j ∷ []) ∙ different)
    where
      different : key_eq (orig_name i ∷ []) (orig_name j ∷ []) ≡ false
      different = elim (Bool-cases (list_eq (orig_name i) (orig_name j))) [
        | inl e ↦
            let same =
              decimal-append-injective i j b'.' (codes "orig") refl (eq_of_list_eq _ _ e) in
            absurd (omega arith)
        | inr e ↦ rw e refl
      ]

  manifest_key-ne : (i : ℕ) → key_eq (key (join dir backup_manifest_name)) (orig_key dir i) ≡ false
  manifest_key-ne i =
      rw (manifest_key_lem, orig_key_lem i)
        (key_eq-append (key dir) (backup_manifest_name ∷ []) (orig_name i ∷ [])
          ∙ rw (orig-ne_manifest (decimal i) (decimal-All (λ c. c ≢ b'm') i (λ d h. omega arith)))
              refl)

write-eq-ok :
    (e : InstallError) (k : Key) (b : Bytes) (fs fs' : Fs)
    → attempt e (write k b) fs ≡ (ok tt, fs')
    → file_at fs' k ≡ some b
unfolding write
write-eq-ok e k b fs fs' h = ground (arith, key_eq_self k)

IsStoredKind-kept :
    (dir : FilePath) (idx : ℕ) (fs fs' : Fs) (kind : BackupKind)
    → file_at fs' (orig_key dir idx) ≡ file_at fs (orig_key dir idx)
    → IsStoredKind dir fs idx kind
    → IsStoredKind dir fs' idx kind
IsStoredKind-kept dir idx fs fs' (modified bytes hash) kept h = kept ∙ h
IsStoredKind-kept dir idx fs fs' created_absent kept h = tt

pub IsStored-Keeps :
    (dir : FilePath) (touched leaf : Key → Bool) (fs fs' : Fs) (idx : ℕ)
    (entries : List BackupEntry)
    → Keeps touched leaf fs fs'
    → ((i : ℕ) → touched (orig_key dir i) ≡ false)
    → IsStored dir fs idx entries
    → IsStored dir fs' idx entries
IsStored-Keeps dir touched leaf fs fs' idx [] kept t h = tt
IsStored-Keeps dir touched leaf fs fs' idx (e ∷ entries) kept t (h, k) = (
  IsStoredKind-kept dir idx fs fs' e.kind (kept.files (orig_key dir idx) (t idx)) h,
  IsStored-Keeps dir touched leaf fs fs' (idx + 1) entries kept t k,
)

module _ (dir : FilePath) (named : list_eq dir [] ≡ false) where
  -- The text of an entry, and its file.
  persist_kind-eq-ok :
      (idx : ℕ) (rel : FilePath) (kind : BackupKind) (fs fs' : Fs) (line : List ℕ)
      → persist_entry dir idx (encode_field rel) kind fs ≡ (ok line, fs')
      → (line ≡ fields_newline (entry_fields idx (record { rel_path = rel; kind = kind })))
        × IsStoredKind dir fs' idx kind
  unfolding persist_entry
  persist_kind-eq-ok idx rel (modified bytes hash) fs fs' line h =
      let e = io (join dir (orig_name idx)) in
      let (u, f1, h1, h2) =
        >>=-eq-ok (attempt e (write (orig_key dir idx) bytes)) _ fs fs' line h in
      (
        pure-eq-ok _ line f1 fs' h2,
        ap (λ s. file_at s (orig_key dir idx)) (sym (ap (λ r. r.1) h2))
            ∙ write-eq-ok e (orig_key dir idx) bytes fs f1 h1,
      )
  persist_kind-eq-ok idx rel created_absent fs fs' line h = (pure-eq-ok _ line fs fs' h, tt)

  -- The other files of the record are written elsewhere.
  not_at : ℕ → Key → Bool
  not_at idx k = not (key_eq (orig_key dir idx) k)

  later_entries-Keeps :
      (idx : ℕ) (entries : List BackupEntry) (manifest text : List ℕ) (fs fs' : Fs)
      → persist_entries dir (idx + 1) entries manifest fs ≡ (ok text, fs')
      → file_at fs' (orig_key dir idx) ≡ file_at fs (orig_key dir idx)
  unfolding not_at
  later_entries-Keeps idx entries manifest text fs fs' h =
      (kept_by _
          (persist_entries-IsKeeping (not_at idx) (not_at idx) dir (idx + 1) entries manifest
            (λ i le. rw (orig_key-ne dir named idx i (omega arith)) refl))
          fs _ fs' h).files
        (orig_key dir idx) (rw (key_eq_self (orig_key dir idx)) refl)

  persist_entries-eq-ok :
      (idx : ℕ) (entries : List BackupEntry) (manifest text : List ℕ) (fs fs' : Fs)
      → persist_entries dir idx entries manifest fs ≡ (ok text, fs')
      → (text ≡ manifest ++ record_text (entry_lines idx entries)) × IsStored dir fs' idx entries
  unfolding persist_entries
  persist_entries-eq-ok idx [] manifest text fs fs' h =
      (pure-eq-ok manifest text fs fs' h ∙ sym (append-nil manifest), tt)
  persist_entries-eq-ok idx (e ∷ entries) manifest text fs fs' h =
      let (line, f1, h1, h2) =
        >>=-eq-ok (persist_entry dir idx (encode_field e.rel_path) e.kind) _ fs fs' text h in
      let (line_eq, stored) = persist_kind-eq-ok idx e.rel_path e.kind fs f1 line h1 in
      let (text_eq, rest) =
        persist_entries-eq-ok (idx + 1) entries (manifest ++ line) text f1 fs' h2 in
      (
        text_eq
            ∙ (append_assoc manifest line (record_text (entry_lines (idx + 1) entries))
                ∙ ap (λ l. manifest ++ (l ++ record_text (entry_lines (idx + 1) entries))) line_eq),
        (
          IsStoredKind-kept dir idx f1 fs' e.kind
              (later_entries-Keeps idx entries (manifest ++ line) text f1 fs' h2) stored,
          rest,
        ),
      )

-- A record that was written lies on the disk.
pub persist-IsPersisted :
    (backup : BackupManifest) (fs fs' : Fs)
    → list_eq (backup_root_for backup.gd_root) [] ≡ false
    → persist backup fs ≡ (ok tt, fs')
    → IsPersisted backup fs'
unfolding persist
persist-IsPersisted backup fs fs' named h =
    let dir = backup_root_for backup.gd_root in
    let manifest_key = key (path_for backup.gd_root) in
    let (u, f1, h1, h2) = >>=-eq-ok (attempt (io dir) (create_dir_all (key dir))) _ fs fs' tt h in
    let (text, f2, h3, h4) = >>=-eq-ok (persist_entries dir 0 backup.entries _) _ f1 fs' tt h2 in
    let (text_eq, stored) = persist_entries-eq-ok dir named 0 backup.entries _ text f1 f2 h3 in
    let at_manifest : Key → Bool = λ k. key_eq manifest_key k in
    let kept =
      kept_by _
        (write-IsKeeping at_manifest at_manifest (io (path_for backup.gd_root)) manifest_key
          (utf8 text) (key_eq_self manifest_key))
        f2 _ fs' h4 in
    (
      write-eq-ok _ manifest_key (utf8 text) f2 fs' h4 ∙ ap (λ t. some (utf8 t)) text_eq,
      IsStored-Keeps dir at_manifest at_manifest f2 fs' 0 backup.entries kept
          (manifest_key-ne dir named) stored,
    )
