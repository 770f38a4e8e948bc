-- ===== src/Installer/Transaction/Changes.antt =====
-- The changes to the bundle touch three files only, if the injector does; the host's injector does.
use pulse_sdk.Prelude.{
  Bool, true, false, [], ◌++◌, list_eq, ◌≡◌, refl, length, length-append, arith,
}
use pulse_sdk.Installer.Paths.{FilePath, Key, key, parent, is_prefix}
use pulse_sdk.Installer.Paths.Separate.{key_eq_self}
use pulse_sdk.Installer.Fs.Frame.{Keeps-copy}
use pulse_sdk.Installer.Action.Keeping.{IsKeeping, bind-IsKeeping, attempt-IsKeeping}
use pulse_sdk.Installer.Recognize.{executable, dylib_dest}
use pulse_sdk.Installer.Transaction.{
  Injector, copy_file, host_patch, host_resign, host_seam_injector, apply_changes,
  loader_dylib_load_path,
}
use pulse_sdk.Installer.Transaction.Bundle.{
  executable_key, code_signature_key, dylib_key, is_changed, key-executable, key-code_signature,
  key-dylib_dest, parent-append, is_prefix_of_length,
}
use pulse_sdk.Installer.Transaction.Confined.{long_of_changed}
use pulse_sdk.Installer.Transaction.Steps.{
  read-IsKeeping, write-IsKeeping, create_dir_all-IsKeeping,
}

-- The injector changes no file but the three, removes no directory, makes none in place of one of
-- the three, and brings no fault.
pub record IsConfined (injector : Injector) (root : FilePath) : Type 0 where
  pub patch :
      IsKeeping
        (is_changed root)
        (is_changed root)
        (injector.patch_lc_load_dylib (executable (record { root = root })) loader_dylib_load_path)
  pub resign :
      IsKeeping
        (is_changed root)
        (is_changed root)
        (injector.adhoc_resign_with_disable_lv (record { root = root }))

module _ (root : FilePath) (named : list_eq root [] ≡ false) where
  abbrev t : Key → Bool
  t = is_changed root

  pub executable_changed : is_changed root (key root ++ executable_key) ≡ true
  executable_changed = rw key_eq_self

  pub code_signature_changed : is_changed root (key root ++ code_signature_key) ≡ true
  code_signature_changed = ground (arith, key_eq_self (key root ++ code_signature_key))

  pub dylib_changed : is_changed root (key root ++ dylib_key) ≡ true
  dylib_changed = ground (arith, key_eq_self (key root ++ dylib_key))

  -- The three files lie deeper than the directories that hold them.
  holder_under_no_changed :
      (rel j : Key)
      → length rel ≡ 2
      → is_changed root j ≡ true
      → is_prefix j (key root ++ rel) ≡ false
  holder_under_no_changed rel j two h =
      is_prefix_of_length j (key root ++ rel)
        (omega (arith, long_of_changed root named j h, length-append (key root) rel))

  copy_file-IsKeeping :
      (artifact : FilePath)
      → IsKeeping t t (copy_file artifact (dylib_dest (record { root = root })))
  unfolding copy_file
  copy_file-IsKeeping artifact =
      let k = key-dylib_dest root named in
      bind-IsKeeping t t _ _
        (create_dir_all-IsKeeping t t _ _ λ j h.
          rw (k, parent-append (key root)) (holder_under_no_changed (parent dylib_key) j refl h))
        λ _. attempt-IsKeeping t t _ _ λ fs. Keeps-copy t t (key artifact) _ fs (rw k dylib_changed)

  -- What an installation changes after its preparation: three files, and nothing else.
  pub apply_changes-IsKeeping :
      (injector : Injector) (artifact : FilePath)
      → IsConfined injector root
      → IsKeeping t t (apply_changes injector (record { root = root }) artifact)
  unfolding apply_changes
  apply_changes-IsKeeping injector artifact c =
      bind-IsKeeping t t _ _ (copy_file-IsKeeping artifact)
        λ _. bind-IsKeeping t t _ _ c.patch λ _. c.resign

  -- The host's injector appends to the executable and rewrites the signature.
  pub host_seam_injector-IsConfined : IsConfined host_seam_injector root
  unfolding host_patch host_resign
  host_seam_injector-IsConfined = record {
    patch =
        bind-IsKeeping t t _ _ (read-IsKeeping t t _ _)
          λ bytes. write-IsKeeping t t _ _ _ (rw (key-executable root named) executable_changed);
    resign =
        let k = key-code_signature root named in
        bind-IsKeeping t t _ _
          (create_dir_all-IsKeeping t t _ _ λ j h.
            rw (k, parent-append (key root))
              (holder_under_no_changed (parent code_signature_key) j refl h))
          λ _. write-IsKeeping t t _ _ _ (rw k code_signature_changed);
  }
