-- ===== src/Bindings/Generator/Write/Written.antt =====
-- What a generation leaves in the files.
use pulse_sdk.Prelude.{
  ℕ, ◌≡◌, ◌≢◌, refl, ◌∙◌, Bool, true, false, some, Result, ok, ◌⊎◌, inl, inr, arith,
}
use pulse_sdk.Prelude.Text.{utf8}
use pulse_sdk.Bindings.{TargetPair}
use pulse_sdk.Bindings.Catalog.{BindingCatalog}
use pulse_sdk.Bindings.Generator.{functions_of, serialize_set, pbind_path}
use pulse_sdk.Bindings.Generator.Write.{
  GenError, io, tmp_path, give_up, finish_rename, finish_write, atomic_write, after_dirs, write_set,
}
use pulse_sdk.Installer.Fs.{Fs, Bytes, file_at, write, rename, remove_file, create_dir_all}
use pulse_sdk.Installer.Native.{write-outcomes, rename-outcomes, key_eq_symmetric}
use pulse_sdk.Installer.Paths.{FilePath, Key, key, key_eq, parent_path}

abbrev WriteResult : Type 0
WriteResult = Result GenError (Unit {0}) × Fs

-- All or nothing at the target, and no change but at the target and the temporary file.
abbrev pub IsWritten : Key → Key → Bytes → Fs → WriteResult → Type 0
IsWritten temp target bytes fs (r, s) =
    (((r ≡ ok tt) × (file_at s target ≡ some bytes))
      ⊎ ((r ≢ ok tt) × (file_at s target ≡ file_at fs target)))
    × ((j : Key) → key_eq temp j ≡ false → key_eq target j ≡ false → file_at s j ≡ file_at fs j)

remove_file-keeps :
    (k j : Key) (fs : Fs) → key_eq k j ≡ false → file_at (remove_file k fs).1 j ≡ file_at fs j
unfolding remove_file
remove_file-keeps k j fs h = ground arith

create_dir_all-keeps : (k j : Key) (fs : Fs) → file_at (create_dir_all k fs).1 j ≡ file_at fs j
unfolding create_dir_all
create_dir_all-keeps k j fs = ground arith

module _ (e : GenError) (tmp path : FilePath) (bytes : Bytes) where
  -- A state in which nothing has happened but to the temporary file.
  abbrev IsUntouched : Fs → Fs → Type 0
  IsUntouched fs s = (j : Key) → key_eq (key tmp) j ≡ false → file_at s j ≡ file_at fs j

  give_up-IsWritten :
      (fs s : Fs)
      → key_eq (key tmp) (key path) ≡ false
      → file_at s (key path) ≡ file_at fs (key path)
      → ((j : Key)
          → key_eq (key tmp) j ≡ false
          → key_eq (key path) j ≡ false
          → file_at s j ≡ file_at fs j)
      → IsWritten (key tmp) (key path) bytes fs (give_up e tmp s)
  give_up-IsWritten fs s apart same kept = (
    inr (λ h. cc, remove_file-keeps (key tmp) (key path) s apart ∙ same),
    λ j h k. remove_file-keeps (key tmp) j s h ∙ kept j h k,
  )

  finish_rename-IsWritten :
      (fs : Fs) (r : Bool × Fs)
      → key_eq (key tmp) (key path) ≡ false
      → ((r.0 ≡ true) × (file_at r.1 (key path) ≡ some bytes))
        ⊎ ((r.0 ≡ false) × (file_at r.1 (key path) ≡ file_at fs (key path)))
      → ((j : Key)
          → key_eq (key tmp) j ≡ false
          → key_eq (key path) j ≡ false
          → file_at r.1 j ≡ file_at fs j)
      → IsWritten (key tmp) (key path) bytes fs (finish_rename e tmp r)
  finish_rename-IsWritten fs (true, s) apart (inl (t, there)) kept = (inl (refl, there), kept)
  finish_rename-IsWritten fs (true, s) apart (inr (t, same)) kept = cc
  finish_rename-IsWritten fs (false, s) apart (inl (t, there)) kept = cc
  finish_rename-IsWritten fs (false, s) apart (inr (t, same)) kept =
      give_up-IsWritten fs s apart same kept

  finish_write-IsWritten :
      (fs : Fs) (r : Bool × Fs)
      → key_eq (key tmp) (key path) ≡ false
      → ((r.0 ≡ true) × (file_at r.1 (key tmp) ≡ some bytes)) ⊎ (r.0 ≡ false)
      → IsUntouched fs r.1
      → IsWritten (key tmp) (key path) bytes fs (finish_write e tmp path r)
  finish_write-IsWritten fs (true, s) apart (inr t) kept = cc
  finish_write-IsWritten fs (false, s) apart o kept =
      give_up-IsWritten fs s apart (kept (key path) apart) (λ j h k. kept j h)
  finish_write-IsWritten fs (true, s) apart (inl (t, there)) kept =
      let (o, kept') =
        rename-outcomes (key tmp) (key path) s apart
          (key_eq_symmetric (key tmp) (key path) apart) in
      finish_rename-IsWritten fs (rename (key tmp) (key path) s) apart
        (elim o [
          | inl (t, at, gone) ↦ inl (t, at ∙ there)
          | inr (t, same) ↦ inr (t, same ∙ kept (key path) apart)
        ])
        (λ j h k. kept' j h k ∙ kept j h)

module _ (catalog : BindingCatalog) (root : FilePath) (pid : ℕ) where
  abbrev pub target : TargetPair → Key
  target pair = key (pbind_path root pair)

  abbrev pub temp : TargetPair → ℕ → Key
  temp pair unique = key (tmp_path (pbind_path root pair) pid unique)

  abbrev pub content : TargetPair → Bytes
  content pair = utf8 (serialize_set pair (functions_of catalog pair))

  -- Writing the set of a pair is all or nothing, whatever fails and however a write is torn: it
  -- succeeds and the file of the pair holds the whole new text, or it fails and that file is what it
  -- was; no other file changes but the temporary one, which is another file.
  pub write_set-IsWritten :
      (unique : ℕ) (pair : TargetPair) (fs : Fs)
      → key_eq (temp pair unique) (target pair) ≡ false
      → IsWritten
          (temp pair unique)
          (target pair)
          (content pair)
          fs
          (write_set catalog root pid unique pair fs)
  unfolding write_set
  write_set-IsWritten unique pair fs apart =
      let path = pbind_path root pair in
      after (create_dir_all (key (parent_path path)) fs)
        (λ j. create_dir_all-keeps (key (parent_path path)) j fs)
    where
      after :
          (r : Bool × Fs)
          → ((j : Key) → file_at r.1 j ≡ file_at fs j)
          → IsWritten
              (temp pair unique)
              (target pair)
              (content pair)
              fs
              (after_dirs (pbind_path root pair) (content pair) pair pid unique r)
      after (false, s) kept = (inr (λ h. cc, kept (target pair)), λ j h k. kept j)
      after (true, s) kept =
          let tmp = tmp_path (pbind_path root pair) pid unique in
          let (o, kept') = write-outcomes (key tmp) (content pair) s in
          unfold atomic_write in
          finish_write-IsWritten (io pair (pbind_path root pair)) tmp (pbind_path root pair)
            (content pair) fs (write (key tmp) (content pair) s) apart
            (elim o [ inl (t, at) ↦ inl (t, at) | inr t ↦ inr t ]) (λ j h. kept' j h ∙ kept j)
