-- ===== src/Installer/Transaction/Bundle.antt =====
-- The keys of the files that the installer changes, and that they are three, outside the backup.
use pulse_sdk.Prelude.{
  Bool, true, false, ◌||◌, List, [], ◌∷◌, ◌++◌, list_eq, ◌≡◌, refl, ap, ◌<◌, ℕ, length, arith,
}
use pulse_sdk.Prelude.Text.{codes, words}
use pulse_sdk.Installer.Paths.{
  FilePath, Key, key, without_dots, parent, key_eq, is_prefix, backup_root_for, gd_executable_rel,
  code_signature_rel, loader_dylib_rel,
}
use pulse_sdk.Installer.Paths.Separate.{key-join, list_eq_self}
use pulse_sdk.Installer.Recognize.{executable, code_signature, dylib_dest}

abbrev pub executable_key : Key
executable_key = codes "Contents" ∷ codes "MacOS" ∷ codes "Geometry Dash" ∷ []

abbrev pub code_signature_key : Key
code_signature_key = codes "Contents" ∷ codes "_CodeSignature" ∷ codes "CodeResources" ∷ []

abbrev pub dylib_key : Key
dylib_key = codes "Contents" ∷ codes "MacOS" ∷ codes "libpulse_loader.dylib" ∷ []

abbrev pub under_backup : FilePath → Key → Bool
under_backup root j = is_prefix (key (backup_root_for root)) j

abbrev pub is_changed : FilePath → Key → Bool
is_changed root j =
    key_eq (key root ++ executable_key) j
    || key_eq (key root ++ code_signature_key) j
    || key_eq (key root ++ dylib_key) j

-- What an installation may change at all.
abbrev pub is_touched : FilePath → Key → Bool
is_touched root j = is_changed root j || under_backup root j

module _ (root : FilePath) (named : list_eq root [] ≡ false) where
  pub key-executable : key (executable (record { root = root })) ≡ key root ++ executable_key
  unfolding words without_dots
  key-executable = key-join root gd_executable_rel refl named

  pub key-code_signature :
      key (code_signature (record { root = root })) ≡ key root ++ code_signature_key
  unfolding words without_dots
  key-code_signature = key-join root code_signature_rel refl named

  pub key-dylib_dest : key (dylib_dest (record { root = root })) ≡ key root ++ dylib_key
  unfolding words without_dots
  key-dylib_dest = key-join root loader_dylib_rel refl named

pub parent-append :
    (front : Key) (x : List ℕ) (xs : Key) → parent (front ++ (x ∷ xs)) ≡ front ++ parent (x ∷ xs)
parent-append [] x xs = refl
parent-append (y ∷ []) x xs = refl
parent-append (y ∷ z ∷ front) x xs = ap (λ k. y ∷ k) (parent-append (z ∷ front) x xs)

pub is_prefix-front : (front k : Key) → is_prefix front (front ++ k) ≡ true
is_prefix-front [] k = refl
is_prefix-front (x ∷ front) k = rw (list_eq_self x) (is_prefix-front front k)

-- A path is no prefix of a shorter one.
pub is_prefix_of_length : (j k : Key) → length k < length j → is_prefix j k ≡ false
is_prefix_of_length [] k h = absurd (omega arith)
is_prefix_of_length (x ∷ j) [] h = refl
is_prefix_of_length (x ∷ j) (y ∷ k) h = ground (arith, is_prefix_of_length j k)
