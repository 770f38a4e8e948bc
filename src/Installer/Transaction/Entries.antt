-- ===== src/Installer/Transaction/Entries.antt =====
-- The entries of the restore record: what they hold, and what restoring one does.
use mathlib.Core.Path.{subst}
use pulse_sdk.Prelude.{
  Bool, true, false, ◌||◌, Option, none, some, List, [], ◌∷◌, ◌++◌, ◌≡◌, ◌≢◌, refl, sym, ap, ◌∙◌,
  ◌<◌, ◌+◌, ℕ, length, arith, Bool-cases, inl, inr, Result, ok, if◌then◌else◌,
}
use pulse_sdk.Installer.Paths.{FilePath, Key, key, join, parent, key_eq, strip_prefix}
use pulse_sdk.Installer.Paths.Separate.{eq_of_key_eq, list_eq_self}
use pulse_sdk.Installer.Fs.{Fs, Bytes, file_at, is_dir, is_holder, exists, read}
use pulse_sdk.Installer.Fs.Frame.{
  Keeps, Keeps-refl, Keeps-write, Keeps-remove_file, write_faultless, write_succeeds,
  remove_file_faultless,
}
use pulse_sdk.Installer.Action.{InstallError, Action, pure}
use pulse_sdk.Installer.Action.Keeping.{IsKeeping}
use pulse_sdk.Installer.Recognize.{GdInstallation, dylib_dest, ensure_not_already_installed}
use pulse_sdk.Installer.Backup.{
  modified, created_absent, BackupEntry, BackupManifest, add_entry, path_text, rel_of,
  record_before_modify, record_created_absent,
}
use pulse_sdk.Installer.Transaction.{restore_entry}

pub strip_prefix-append : (front k : Key) → strip_prefix front (front ++ k) ≡ some k
unfolding strip_prefix
strip_prefix-append [] k = refl
strip_prefix-append (x ∷ front) k = rw (list_eq_self x) (strip_prefix-append front k)

-- The entry for what stood at a path: the bytes of its file, or nothing.
abbrev pub entry_for : (Bytes → List ℕ) → Key → Option Bytes → BackupEntry
entry_for hash rel none = record { rel_path = path_text rel; kind = created_absent }
entry_for hash rel (some b) = record { rel_path = path_text rel; kind = modified b (hash b) }

pub record_before_modify-eq-ok :
    (hash : Bytes → List ℕ) (backup : BackupManifest) (p : FilePath) (rel : Key) (fs fs' : Fs)
    (b : BackupManifest)
    → strip_prefix (key backup.gd_root) (key p) ≡ some rel
    → record_before_modify hash backup p fs ≡ (ok b, fs')
    → b ≡ add_entry hash backup (entry_for hash rel (file_at fs (key p)))
unfolding record_before_modify rel_of read
record_before_modify-eq-ok hash backup p rel fs fs' b s h = ground arith

pub record_created_absent-eq-ok :
    (hash : Bytes → List ℕ) (backup : BackupManifest) (p : FilePath) (rel : Key) (fs fs' : Fs)
    (b : BackupManifest)
    → strip_prefix (key backup.gd_root) (key p) ≡ some rel
    → record_created_absent hash backup p fs ≡ (ok b, fs')
    → b ≡ add_entry hash backup (entry_for hash rel none)
unfolding record_created_absent rel_of
record_created_absent-eq-ok hash backup p rel fs fs' b s h = ground arith

pub ensure_not_already_installed-absent :
    (gd : GdInstallation) (fs fs' : Fs)
    → ensure_not_already_installed gd fs ≡ (ok tt, fs')
    → file_at fs (key (dylib_dest gd)) ≡ none
unfolding ensure_not_already_installed
ensure_not_already_installed-absent gd fs fs' h = ground arith

absent_stays :
    (k j : Key) (s : Fs)
    → file_at s k ≡ none
    → file_at s j ≡ (if key_eq k j then none else file_at s j)
absent_stays k j s h = elim (Bool-cases (key_eq k j)) [
  | inl e ↦ rw e (ap (file_at s) (sym (eq_of_key_eq k j e)) ∙ h)
  | inr e ↦ rw e
]

-- A directory that is kept still holds its files.
pub holder_kept :
    (t l : Key → Bool) (fs s : Fs) (p : Key)
    → Keeps t l fs s
    → t p ≡ false
    → is_holder fs p ≡ true
    → is_holder s p ≡ true
holder_kept t l fs s [] h n d = refl
holder_kept t l fs s ([] ∷ []) h n d = refl
holder_kept t l fs s ((c ∷ x) ∷ []) h n d = h.dirs ((c ∷ x) ∷ []) n d
holder_kept t l fs s ([] ∷ y ∷ p) h n d = h.dirs ([] ∷ y ∷ p) n d
holder_kept t l fs s ((c ∷ x) ∷ y ∷ p) h n d = h.dirs ((c ∷ x) ∷ y ∷ p) n d

pub pure-eq-ok : {A : Type 0} (a b : A) (fs fs' : Fs) → pure a fs ≡ (ok b, fs') → b ≡ a
pure-eq-ok a b fs fs' h = cc

abbrev pub never : Key → Bool
never j = false

pub kept_by :
    {A : Type 0} {t l : Key → Bool} (m : Action A)
    → IsKeeping t l m
    → (fs : Fs) (r : Result InstallError A) (fs' : Fs) → m fs ≡ (r, fs')
    → Keeps t l fs fs'
kept_by {t = t} {l = l} m h fs r fs' e = subst (Keeps t l fs) (ap (λ x. x.1) e) (h.from fs)

pub length-parent : (k : Key) → 0 < length k → length (parent k) + 1 ≡ length k
length-parent [] h = absurd (omega arith)
length-parent (x ∷ []) h = omega arith
length-parent (x ∷ y ∷ k) h = omega (arith, length-parent (y ∷ k) (omega arith))

-- Three writes in a row, at keys that may or may not be the one that is looked at.
pub three_writes :
    (e s d : Bool) (o a a1 a2 a3 at_e at_s : Option Bytes)
    → a1 ≡ (if e then at_e else a)
    → a2 ≡ (if s then at_s else a1)
    → a3 ≡ (if d then none else a2)
    → (e ≡ true → at_e ≡ o)
    → (s ≡ true → at_s ≡ o)
    → (d ≡ true → none ≡ o)
    → a3 ≡ (if e || s || d then o else a)
three_writes e s true o a a1 a2 a3 at_e at_s x y z p q r = let w = r refl in ground arith
three_writes e true false o a a1 a2 a3 at_e at_s x y z p q r = let w = q refl in ground arith
three_writes true false false o a a1 a2 a3 at_e at_s x y z p q r = let w = p refl in ground arith
three_writes false false false o a a1 a2 a3 at_e at_s x y z p q r = ground arith

module _ (root : FilePath) (hash : Bytes → List ℕ) where
  -- Restoring an entry with no fault ahead puts back what stood there, and changes nothing else.
  pub restore_entry_exact :
      (rel : Key) (o : Option Bytes) (s : Fs) (j : Key)
      → key (join root (path_text rel)) ≡ key root ++ rel
      → s.faults ≡ []
      → is_dir s (key root ++ rel) ≡ false
      → (o ≢ none → is_holder s (parent (key root ++ rel)) ≡ true)
      → file_at (restore_entry root (entry_for hash rel o) s).1 j
        ≡ (if key_eq (key root ++ rel) j then o else file_at s j)
  unfolding restore_entry
  restore_entry_exact rel none s j at clear no_dir holder =
      let k = key root ++ rel in
      elim (Bool-cases (exists s k)) [
        | inl e ↦ rw (at, e) (remove_file_faultless k s clear (ground arith) j)
        | inr e ↦ rw (at, e) (absent_stays k j s (ground arith))
      ]
  restore_entry_exact rel (some b) s j at clear no_dir holder =
      rw at (write_faultless (key root ++ rel) b s clear (holder (λ e. cc)) no_dir j)

  -- Its path is listed.
  pub restore_entry_listed :
      (rel : Key) (o : Option Bytes) (s : Fs)
      → key (join root (path_text rel)) ≡ key root ++ rel
      → s.faults ≡ []
      → is_dir s (key root ++ rel) ≡ false
      → (o ≢ none → is_holder s (parent (key root ++ rel)) ≡ true)
      → (restore_entry root (entry_for hash rel o) s).0 ≡ join root (path_text rel) ∷ []
  unfolding restore_entry
  restore_entry_listed rel none s at clear no_dir holder =
      elim (Bool-cases (exists s (key (join root (path_text rel))))) [
        | inl e ↦ rw e refl
        | inr e ↦ rw e refl
      ]
  restore_entry_listed rel (some b) s at clear no_dir holder =
      rw at (rw (write_succeeds (key root ++ rel) b s clear (holder (λ e. cc)) no_dir) refl)

  pub restore_entry-Keeps :
      (t l : Key → Bool) (rel : Key) (o : Option Bytes) (s : Fs)
      → key (join root (path_text rel)) ≡ key root ++ rel
      → t (key root ++ rel) ≡ true
      → Keeps t l s (restore_entry root (entry_for hash rel o) s).1
  unfolding restore_entry
  restore_entry-Keeps t l rel none s at h =
      let k = key root ++ rel in
      elim (Bool-cases (exists s k)) [
        | inl e ↦ rw (at, e) (Keeps-remove_file t l k s h)
        | inr e ↦ rw (at, e) (Keeps-refl t l s)
      ]
  restore_entry-Keeps t l rel (some b) s at h = rw at (Keeps-write t l (key root ++ rel) b s h)
