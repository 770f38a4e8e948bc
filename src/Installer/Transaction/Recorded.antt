-- ===== src/Installer/Transaction/Recorded.antt =====
-- The restore record that an installation has made when its changes begin.
use pulse_sdk.Prelude.{
  false, none, some, List, [], ◌∷◌, ◌++◌, list_eq, ◌≡◌, refl, sym, ap, ◌∙◌, ℕ, ok,
}
use pulse_sdk.Installer.Paths.{FilePath, Key, key, strip_prefix}
use pulse_sdk.Installer.Fs.{Fs, Bytes, file_at}
use pulse_sdk.Installer.Fs.Frame.{Keeps, Keeps-trans}
use pulse_sdk.Installer.Action.Keeping.{>>=-eq-ok}
use pulse_sdk.Installer.Recognize.{
  GdInstallation, executable, code_signature, dylib_dest, recognize_gd,
  ensure_not_already_installed,
}
use pulse_sdk.Installer.Backup.{
  BackupManifest, empty_manifest, add_entry, record_before_modify, record_created_absent, persist,
}
use pulse_sdk.Installer.Transaction.{prepare}
use pulse_sdk.Installer.Transaction.Bundle.{
  executable_key, code_signature_key, dylib_key, key-executable, key-code_signature, key-dylib_dest,
}
use pulse_sdk.Installer.Transaction.Confined.{recognize_gd-Returns}
use pulse_sdk.Installer.Transaction.Steps.{
  recognize_gd-IsKeeping, ensure_not_already_installed-IsKeeping, record_before_modify-IsKeeping,
}
use pulse_sdk.Installer.Transaction.Entries.{
  strip_prefix-append, entry_for, record_before_modify-eq-ok, record_created_absent-eq-ok,
  ensure_not_already_installed-absent, pure-eq-ok, never, kept_by,
}

module _ (root : FilePath) (hash : Bytes → List ℕ) where
  -- The restore record that is complete when the changes begin.
  abbrev pub record_of : Fs → BackupManifest
  record_of fs = record {
    gd_root = root;
    entries =
        entry_for hash executable_key (file_at fs (key root ++ executable_key))
        ∷ entry_for hash code_signature_key (file_at fs (key root ++ code_signature_key))
        ∷ entry_for hash dylib_key none
        ∷ [];
  }

module _ (root : FilePath) (hash : Bytes → List ℕ) (named : list_eq root [] ≡ false) where
  abbrev gd : GdInstallation
  gd = record { root = root }

  strip_changed :
      (p : FilePath) (rel : Key)
      → key p ≡ key root ++ rel
      → strip_prefix (key root) (key p) ≡ some rel
  strip_changed p rel e = rw e (strip_prefix-append (key root) rel)

  -- The entries that the three steps record, from the state that they all read.
  entries_of_steps :
      (f2 f3 f4 f5 : Fs) (b1 b2 b3 : BackupManifest)
      → record_before_modify hash (empty_manifest gd) (executable gd) f2 ≡ (ok b1, f3)
      → record_before_modify hash b1 (code_signature gd) f3 ≡ (ok b2, f4)
      → record_created_absent hash b2 (dylib_dest gd) f4 ≡ (ok b3, f5)
      → b3 ≡ record_of root hash f2
  entries_of_steps f2 f3 f4 f5 b1 b2 b3 h3 h4 h5 =
      let ke = key-executable root named in
      let ks = key-code_signature root named in
      let kd = key-dylib_dest root named in
      let kept =
        kept_by _
          (record_before_modify-IsKeeping never never hash (empty_manifest gd) (executable gd)) f2 _
          f3 h3 in
      let q1 =
        record_before_modify-eq-ok hash (empty_manifest gd) (executable gd) executable_key f2 f3 b1
          (strip_changed _ executable_key ke) h3 in
      let r1 : b1.gd_root ≡ root = ap (λ b. b.gd_root) q1 in
      let q2 =
        record_before_modify-eq-ok hash b1 (code_signature gd) code_signature_key f3 f4 b2
          (rw r1 (strip_changed _ code_signature_key ks)) h4 in
      let r2 : b2.gd_root ≡ root = ap (λ b. b.gd_root) q2 ∙ r1 in
      let q3 =
        record_created_absent-eq-ok hash b2 (dylib_dest gd) dylib_key f4 f5 b3
          (rw r2 (strip_changed _ dylib_key kd)) h5 in
      let same : file_at f3 (key (code_signature gd))
          ≡ file_at f2 (key root ++ code_signature_key) =
        kept.files _ refl ∙ ap (file_at f2) ks in
      q3
      ∙ ap (λ b. add_entry hash b (entry_for hash dylib_key none))
          (q2
            ∙ (ap (λ o. add_entry hash b1 (entry_for hash code_signature_key o)) same
                ∙ ap
                    (λ b. add_entry hash b (
                      entry_for hash code_signature_key
                        (file_at f2 (key root ++ code_signature_key))))
                    (q1
                      ∙ ap
                          (λ k.
                            add_entry hash (empty_manifest gd)
                              (entry_for hash executable_key (file_at f2 k)))
                          ke)))

  record_of_same :
      (fs f2 : Fs) → Keeps never never fs f2 → record_of root hash f2 ≡ record_of root hash fs
  record_of_same fs f2 kept =
      ap
        (λ o. record {
          gd_root = root;
          entries =
              entry_for hash executable_key o
              ∷ entry_for hash code_signature_key (file_at f2 (key root ++ code_signature_key))
              ∷ entry_for hash dylib_key none
              ∷ [];
        })
        (kept.files (key root ++ executable_key) refl)
      ∙ ap
          (λ o. record {
            gd_root = root;
            entries =
                entry_for hash executable_key (file_at fs (key root ++ executable_key))
                ∷ entry_for hash code_signature_key o
                ∷ entry_for hash dylib_key none
                ∷ [];
          })
          (kept.files (key root ++ code_signature_key) refl)

  record_of_steps :
      (g : GdInstallation) (fs f1 f2 f3 f4 f5 : Fs) (b1 b2 b3 : BackupManifest)
      → recognize_gd root fs ≡ (ok g, f1)
      → ensure_not_already_installed g f1 ≡ (ok tt, f2)
      → record_before_modify hash (empty_manifest g) (executable g) f2 ≡ (ok b1, f3)
      → record_before_modify hash b1 (code_signature g) f3 ≡ (ok b2, f4)
      → record_created_absent hash b2 (dylib_dest g) f4 ≡ (ok b3, f5)
      → (b3 ≡ record_of root hash fs) × (file_at fs (key root ++ dylib_key) ≡ none)
  record_of_steps g fs f1 f2 f3 f4 f5 b1 b2 b3 h1 h2 h3 h4 h5 =
      let e : g ≡ gd = (recognize_gd-Returns root named).at fs g (ap (λ r. r.0) h1) in
      let h2' : ensure_not_already_installed gd f1 ≡ (ok tt, f2) = rw e at h2 in
      let k1 = kept_by _ (recognize_gd-IsKeeping never never root) fs _ f1 h1 in
      let k2 = kept_by _ (ensure_not_already_installed-IsKeeping never never gd) f1 _ f2 h2' in
      let absent = ensure_not_already_installed-absent gd f1 f2 h2' in
      (
        entries_of_steps f2 f3 f4 f5 b1 b2 b3 (rw e at h3) (rw e at h4) (rw e at h5)
            ∙ record_of_same fs f2 (Keeps-trans never never fs f1 f2 k1 k2),
        sym (k1.files _ refl) ∙ (ap (file_at f1) (sym (key-dylib_dest root named)) ∙ absent),
      )

  -- A preparation that succeeds has recorded the three files and written the record at the end.
  pub prepare-eq-ok :
      (fs s1 : Fs) (backup : BackupManifest)
      → prepare hash root fs ≡ (ok backup, s1)
      → (backup ≡ record_of root hash fs)
        × (file_at fs (key root ++ dylib_key) ≡ none)
        × (f : Fs) × (persist backup f ≡ (ok tt, s1))
  unfolding prepare
  prepare-eq-ok fs s1 backup h =
      let (g, f1, e1, h1) = >>=-eq-ok (recognize_gd root) _ fs s1 backup h in
      let (u, f2, e2, h2) = >>=-eq-ok (ensure_not_already_installed g) _ f1 s1 backup h1 in
      let (b1, f3, e3, h3) =
        >>=-eq-ok (record_before_modify hash (empty_manifest g) (executable g)) _ f2 s1 backup h2 in
      let (b2, f4, e4, h4) =
        >>=-eq-ok (record_before_modify hash b1 (code_signature g)) _ f3 s1 backup h3 in
      let (b3, f5, e5, h5) =
        >>=-eq-ok (record_created_absent hash b2 (dylib_dest g)) _ f4 s1 backup h4 in
      let (u', f6, e6, h6) = >>=-eq-ok (persist b3) _ f5 s1 backup h5 in
      let same = pure-eq-ok b3 backup f6 s1 h6 in
      let (r, absent) = record_of_steps g fs f1 f2 f3 f4 f5 b1 b2 b3 e1 e2 e3 e4 e5 in
      (
        same ∙ r,
        absent,
        f5,
        ap (λ b. persist b f5) same ∙ (e6 ∙ ap (λ f. (ok tt, f)) (ap (λ o. o.1) h6)),
      )
