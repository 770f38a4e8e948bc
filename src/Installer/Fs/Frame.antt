-- ===== src/Installer/Fs/Frame.antt =====
-- What the operations of the file system leave alone, and what they do when no fault is ahead.
use pulse_sdk.Prelude.{
  Bool, true, false, none, some, [], if◌then◌else◌, ◌≡◌, refl, ap, ◌∙◌, arith, Bool-cases,
  Option-cases, inl, inr,
}
use pulse_sdk.Installer.Paths.{Key, key_eq, is_prefix, parent}
use pulse_sdk.Installer.Fs.{
  Bytes, Fs, file_at, is_file, is_dir, is_holder, read, write, copy, remove_file, create_dir_all,
  remove_dir_all,
}
use pulse_sdk.Installer.Paths.Separate.{eq_of_key_eq}

-- `fs'` has the files of `fs` but for those that are `touched`, the directories that `fs` has, no
-- directory at a `leaf` where `fs` has none, and no fault where `fs` has none.
pub record Keeps (touched leaf : Key → Bool) (fs fs' : Fs) : Type 0 where
  pub files : (j : Key) → touched j ≡ false → file_at fs' j ≡ file_at fs j
  pub dirs : (j : Key) → touched j ≡ false → is_dir fs j ≡ true → is_dir fs' j ≡ true
  pub leaves : (j : Key) → leaf j ≡ true → is_dir fs j ≡ false → is_dir fs' j ≡ false
  pub faultless : fs.faults ≡ [] → fs'.faults ≡ []

untouched_ne :
    (touched : Key → Bool) (k j : Key) → touched k ≡ true → touched j ≡ false → key_eq k j ≡ false
untouched_ne touched k j h t = elim (Bool-cases (key_eq k j)) [
  | inl e ↦ let e' = ap touched (eq_of_key_eq k j e) in cc
  | inr e ↦ e
]

module _ (touched leaf : Key → Bool) where
  pub Keeps-refl : (fs : Fs) → Keeps touched leaf fs fs
  Keeps-refl fs = record {
    files = λ j t. refl;
    dirs = λ j t d. d;
    leaves = λ j l d. d;
    faultless = λ e. e;
  }

  pub Keeps-trans :
      (a b c : Fs) → Keeps touched leaf a b → Keeps touched leaf b c → Keeps touched leaf a c
  Keeps-trans a b c h k = record {
    files = λ j t. k.files j t ∙ h.files j t;
    dirs = λ j t d. k.dirs j t (h.dirs j t d);
    leaves = λ j l d. k.leaves j l (h.leaves j l d);
    faultless = λ e. k.faultless (h.faultless e);
  }

  pub Keeps-read : (k : Key) (fs : Fs) → Keeps touched leaf fs (read k fs).1
  unfolding read
  Keeps-read k fs = record {
    files = λ j t. refl;
    dirs = λ j t d. d;
    leaves = λ j l d. d;
    faultless = λ e. ground arith;
  }

  pub Keeps-write :
      (k : Key) (b : Bytes) (fs : Fs) → touched k ≡ true → Keeps touched leaf fs (write k b fs).1
  unfolding write
  Keeps-write k b fs h = record {
    files = λ j t. ground (arith, untouched_ne touched k j h t);
    dirs = λ j t d. ground (arith, untouched_ne touched k j h t);
    leaves = λ j l d. ground arith;
    faultless = λ e. ground arith;
  }

  pub Keeps-create_dir_all :
      (k : Key) (fs : Fs)
      → ((j : Key) → leaf j ≡ true → is_prefix j k ≡ false)
      → Keeps touched leaf fs (create_dir_all k fs).1
  unfolding create_dir_all
  Keeps-create_dir_all k fs h = record {
    files = λ j t. ground arith;
    dirs = λ j t d. ground arith;
    leaves = λ j l d. ground (arith, h j l);
    faultless = λ e. ground arith;
  }

  pub Keeps-remove_file :
      (k : Key) (fs : Fs) → touched k ≡ true → Keeps touched leaf fs (remove_file k fs).1
  unfolding remove_file
  Keeps-remove_file k fs h = record {
    files = λ j t. ground (arith, untouched_ne touched k j h t);
    dirs = λ j t d. ground (arith, untouched_ne touched k j h t);
    leaves = λ j l d. ground arith;
    faultless = λ e. ground arith;
  }

  pub Keeps-copy :
      (src dest : Key) (fs : Fs) → touched dest ≡ true → Keeps touched leaf fs (copy src dest fs).1
  unfolding copy read
  Keeps-copy src dest fs h = elim (Option-cases (file_at fs src)) [
    | inl e ↦ rw (e, copy) (Keeps-read src fs)
    | inr (b, e) ↦ rw (e, copy) (Keeps-write dest b fs h)
  ]

  -- A relation that leaves less alone follows.
  pub Keeps-weaken :
      (touched' : Key → Bool) (a b : Fs)
      → ((j : Key) → touched' j ≡ false → touched j ≡ false)
      → Keeps touched leaf a b
      → Keeps touched' leaf a b
  Keeps-weaken touched' a b w h = record {
    files = λ j t. h.files j (w j t);
    dirs = λ j t d. h.dirs j (w j t) d;
    leaves = h.leaves;
    faultless = h.faultless;
  }

-- With no fault ahead a writable file is written, and the others keep what they hold.
pub write_faultless :
    (k : Key) (b : Bytes) (fs : Fs)
    → fs.faults ≡ []
    → is_holder fs (parent k) ≡ true
    → is_dir fs k ≡ false
    → (j : Key) → file_at (write k b fs).1 j ≡ (if key_eq k j then some b else file_at fs j)
unfolding write
write_faultless k b fs e h d j = ground arith

pub write_succeeds :
    (k : Key) (b : Bytes) (fs : Fs)
    → fs.faults ≡ []
    → is_holder fs (parent k) ≡ true
    → is_dir fs k ≡ false
    → (write k b fs).0 ≡ true
unfolding write
write_succeeds k b fs e h d = ground arith

-- With no fault ahead a file is removed.
pub remove_file_faultless :
    (k : Key) (fs : Fs)
    → fs.faults ≡ []
    → is_file fs k ≡ true
    → (j : Key) → file_at (remove_file k fs).1 j ≡ (if key_eq k j then none else file_at fs j)
unfolding remove_file
remove_file_faultless k fs e f j = ground arith

-- A directory that is removed takes nothing outside with it.
pub remove_dir_all_outside :
    (k j : Key) (fs : Fs) → is_prefix k j ≡ false → file_at (remove_dir_all k fs).1 j ≡ file_at fs j
unfolding remove_dir_all
remove_dir_all_outside k j fs h = ground arith

-- With no fault ahead nothing is left of a directory that is removed.
remove_dir_all_inside :
    (k j : Key) (fs : Fs)
    → fs.faults ≡ []
    → is_dir fs k ≡ true
    → is_prefix k j ≡ true
    → (remove_dir_all k fs).1.nodes j ≡ none
unfolding remove_dir_all
remove_dir_all_inside k j fs e d h = ground arith
