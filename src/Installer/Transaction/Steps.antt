-- ===== src/Installer/Transaction/Steps.antt =====
-- The steps of an installation, one by one: each keeps the files but for those that it writes.
use pulse_sdk.Prelude.{
  Bool, true, false, not, List, [], ◌∷◌, ◌++◌, Option, none, some, ◌≡◌, ◌+◌, ◌≤◌, ℕ, arith,
  Bool-cases, inl, inr, if◌then◌else◌,
}
use pulse_sdk.Prelude.Text.{decimal, codes}
use pulse_sdk.Installer.Paths.{
  FilePath, Key, key, join, is_prefix, backup_root_for, backup_manifest_name,
}
use pulse_sdk.Installer.Fs.{Fs, Bytes, is_file, is_dir, exists, read, write, create_dir_all}
use pulse_sdk.Installer.Fs.Frame.{Keeps-read, Keeps-write, Keeps-create_dir_all}
use pulse_sdk.Installer.Action.{InstallError, Action, attempt, attempt_read}
use pulse_sdk.Installer.Action.Keeping.{
  IsKeeping, pure-IsKeeping, raise-IsKeeping, bind-IsKeeping, attempt-IsKeeping,
  attempt_read-IsKeeping,
}
use pulse_sdk.Installer.Recognize.{
  GdInstallation, executable, info_plist, dylib_dest, backup_manifest_path, recognize_gd,
  ensure_not_already_installed,
}
use pulse_sdk.Installer.Backup.{
  BackupManifest, BackupEntry, BackupKind, modified, created_absent, record_before_modify,
  record_created_absent, persist, persist_entry, persist_entries, rel_outcome, rel_of,
}

module _ (touched leaf : Key → Bool) where
  pub branch-IsKeeping :
      {A : Type 0} (b : Bool) (m n : Action A)
      → IsKeeping touched leaf m
      → IsKeeping touched leaf n
      → IsKeeping touched leaf (if b then m else n)
  branch-IsKeeping true m n h k = h
  branch-IsKeeping false m n h k = k

  -- A test of the state chooses the action.
  pub choose-IsKeeping :
      {A : Type 0} (test : Fs → Bool) (m n : Action A)
      → IsKeeping touched leaf m
      → IsKeeping touched leaf n
      → IsKeeping touched leaf (λ fs. if test fs then m fs else n fs)
  choose-IsKeeping test m n h k = record {
    from =
        λ fs. elim (Bool-cases (test fs)) [ inl e ↦ rw e (h.from fs) | inr e ↦ rw e (k.from fs) ];
  }

  pub read-IsKeeping :
      (e : InstallError) (k : Key) → IsKeeping touched leaf (attempt_read e (read k))
  read-IsKeeping e k = attempt_read-IsKeeping touched leaf e (read k) (Keeps-read touched leaf k)

  pub write-IsKeeping :
      (e : InstallError) (k : Key) (b : Bytes)
      → touched k ≡ true
      → IsKeeping touched leaf (attempt e (write k b))
  write-IsKeeping e k b t =
      attempt-IsKeeping touched leaf e (write k b) (λ fs. Keeps-write touched leaf k b fs t)

  pub recognize_gd-IsKeeping : (root : FilePath) → IsKeeping touched leaf (recognize_gd root)
  unfolding recognize_gd
  recognize_gd-IsKeeping root =
      choose-IsKeeping (λ fs. not (is_dir fs (key root))) _ _ (raise-IsKeeping touched leaf _)
        (choose-IsKeeping (λ fs. not (is_file fs (key (executable (record { root = root }))))) _ _
          (raise-IsKeeping touched leaf _)
          (choose-IsKeeping (λ fs. not (is_file fs (key (info_plist (record { root = root }))))) _ _
            (raise-IsKeeping touched leaf _)
            (bind-IsKeeping touched leaf _ _ (read-IsKeeping _ _) λ plist.
              branch-IsKeeping _ _ _ (raise-IsKeeping touched leaf _) (
                bind-IsKeeping touched leaf _ _ (read-IsKeeping _ _) λ bytes.
                  branch-IsKeeping _ _ _ (raise-IsKeeping touched leaf _)
                    (pure-IsKeeping touched leaf _)))))

  pub ensure_not_already_installed-IsKeeping :
      (gd : GdInstallation) → IsKeeping touched leaf (ensure_not_already_installed gd)
  unfolding ensure_not_already_installed
  ensure_not_already_installed-IsKeeping gd =
      choose-IsKeeping (λ fs. exists fs (key (backup_manifest_path gd))) _ _
        (raise-IsKeeping touched leaf _)
        (choose-IsKeeping (λ fs. exists fs (key (dylib_dest gd))) _ _
          (raise-IsKeeping touched leaf _) (pure-IsKeeping touched leaf _))

  rel_outcome-IsKeeping : (p : FilePath) (o : Option Key) → IsKeeping touched leaf (rel_outcome p o)
  rel_outcome-IsKeeping p none = raise-IsKeeping touched leaf _
  rel_outcome-IsKeeping p (some rel) = pure-IsKeeping touched leaf _

  rel_of-IsKeeping :
      (backup : BackupManifest) (p : FilePath) → IsKeeping touched leaf (rel_of backup p)
  unfolding rel_of
  rel_of-IsKeeping backup p = rel_outcome-IsKeeping p _

  pub record_before_modify-IsKeeping :
      (hash : Bytes → List ℕ) (backup : BackupManifest) (p : FilePath)
      → IsKeeping touched leaf (record_before_modify hash backup p)
  unfolding record_before_modify
  record_before_modify-IsKeeping hash backup p =
      bind-IsKeeping touched leaf _ _ (rel_of-IsKeeping backup p) λ rel.
        choose-IsKeeping (λ fs. exists fs (key p)) _ _
          (bind-IsKeeping touched leaf _ _ (read-IsKeeping _ _)
            λ bytes. pure-IsKeeping touched leaf _)
          (pure-IsKeeping touched leaf _)

  pub record_created_absent-IsKeeping :
      (hash : Bytes → List ℕ) (backup : BackupManifest) (p : FilePath)
      → IsKeeping touched leaf (record_created_absent hash backup p)
  unfolding record_created_absent
  record_created_absent-IsKeeping hash backup p =
      bind-IsKeeping touched leaf _ _ (rel_of-IsKeeping backup p)
        λ rel. pure-IsKeeping touched leaf _

  persist_entry-IsKeeping :
      (backup_dir : FilePath) (idx : ℕ) (rel : List ℕ) (kind : BackupKind)
      → touched (key (join backup_dir (decimal idx ++ codes ".orig"))) ≡ true
      → IsKeeping touched leaf (persist_entry backup_dir idx rel kind)
  unfolding persist_entry
  persist_entry-IsKeeping backup_dir idx rel (modified bytes hash) t =
      bind-IsKeeping touched leaf _ _ (write-IsKeeping _ _ bytes t)
        λ _. pure-IsKeeping touched leaf _
  persist_entry-IsKeeping backup_dir idx rel created_absent t = pure-IsKeeping touched leaf _

  pub persist_entries-IsKeeping :
      (backup_dir : FilePath) (idx : ℕ) (entries : List BackupEntry) (manifest : List ℕ)
      → ((i : ℕ) → idx ≤ i → touched (key (join backup_dir (decimal i ++ codes ".orig"))) ≡ true)
      → IsKeeping touched leaf (persist_entries backup_dir idx entries manifest)
  unfolding persist_entries
  persist_entries-IsKeeping backup_dir idx [] manifest t = pure-IsKeeping touched leaf manifest
  persist_entries-IsKeeping backup_dir idx (e ∷ entries) manifest t =
      bind-IsKeeping touched leaf _ _
        (persist_entry-IsKeeping backup_dir idx _ e.kind (t idx (omega arith)))
        λ line.
          persist_entries-IsKeeping backup_dir (idx + 1) entries (manifest ++ line)
            (λ i le. t i (omega arith))

  pub create_dir_all-IsKeeping :
      (e : InstallError) (k : Key)
      → ((j : Key) → leaf j ≡ true → is_prefix j k ≡ false)
      → IsKeeping touched leaf (attempt e (create_dir_all k))
  create_dir_all-IsKeeping e k h =
      attempt-IsKeeping touched leaf e (create_dir_all k)
        (λ fs. Keeps-create_dir_all touched leaf k fs h)

  pub persist-IsKeeping :
      (backup : BackupManifest)
      → let backup_dir = backup_root_for backup.gd_root in
        ((j : Key) → leaf j ≡ true → is_prefix j (key backup_dir) ≡ false)
        → ((i : ℕ) → touched (key (join backup_dir (decimal i ++ codes ".orig"))) ≡ true)
        → touched (key (join backup_dir backup_manifest_name)) ≡ true
        → IsKeeping touched leaf (persist backup)
  unfolding persist
  persist-IsKeeping backup h t m =
      bind-IsKeeping touched leaf _ _ (create_dir_all-IsKeeping _ _ h) λ _.
        bind-IsKeeping touched leaf _ _
          (persist_entries-IsKeeping _ 0 backup.entries _ (λ i le. t i))
          λ manifest. write-IsKeeping _ _ _ m
