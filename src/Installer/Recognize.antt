-- ===== src/Installer/Recognize.antt =====
-- `GdInstallation`, `recognize_gd` and `ensure_not_already_installed` of cli/src/installer.rs.
use pulse_sdk.Prelude.{
  ℕ, ◌+◌, ◌*◌, ◌^◌, Bool, true, false, ◌&&◌, ◌||◌, not, List, [], ◌∷◌, length, take, contains,
  is_empty, list_eq, ltb, if◌then◌else◌,
}
use pulse_sdk.Prelude.Text.{codes}
use pulse_sdk.Installer.Paths.{
  FilePath, key, join, gd_executable_rel, info_plist_rel, code_signature_rel, loader_dylib_rel,
  backup_root_for, backup_manifest_name,
}
use pulse_sdk.Installer.Fs.{Bytes, is_file, is_dir, exists, read}
use pulse_sdk.Installer.Action.{
  Action, pure, raise, ◌>>=◌, attempt_read, not_a_directory, unrecognized_installation,
  already_installed, io, no_executable, no_info_plist, other_bundle_id, not_macho, has_manifest,
  has_dylib,
}

pub record GdInstallation : Type 0 where
  pub root : FilePath

abbrev pub executable : GdInstallation → FilePath
executable gd = join gd.root gd_executable_rel

abbrev pub info_plist : GdInstallation → FilePath
info_plist gd = join gd.root info_plist_rel

abbrev pub code_signature : GdInstallation → FilePath
code_signature gd = join gd.root code_signature_rel

abbrev pub dylib_dest : GdInstallation → FilePath
dylib_dest gd = join gd.root loader_dylib_rel

abbrev pub backup_manifest_path : GdInstallation → FilePath
backup_manifest_path gd = join (backup_root_for gd.root) backup_manifest_name

abbrev macho_magics : List ℕ
macho_magics = 0xfeedface ∷ 0xfeedfacf ∷ 0xcefaedfe ∷ 0xcffaedfe ∷ 0xcafebabe ∷ 0xbebafeca ∷ []

-- Whether a window of `haystack` is `needle`: `windows(needle.len()).any(..)`.
unfoldable pub any_window : List ℕ → List ℕ → Bool
any_window [] needle = list_eq [] needle
any_window (b ∷ haystack) needle =
    list_eq (take (length needle) (b ∷ haystack)) needle || any_window haystack needle

unfoldable pub contains_subsequence : List ℕ → List ℕ → Bool
unfolding any_window
contains_subsequence haystack needle =
    if is_empty needle
    then true
    else if ltb (length haystack) (length needle)
    then false
    else any_window haystack needle

unfoldable pub plist_declares_bundle_id : Bytes → List ℕ → Bool
unfolding contains_subsequence
plist_declares_bundle_id plist bundle_id =
    contains_subsequence plist (codes "CFBundleIdentifier") && contains_subsequence plist bundle_id

-- The first four bytes are a magic number, in big-endian order.
unfoldable pub is_macho_bytes : Bytes → Bool
is_macho_bytes (a ∷ b ∷ c ∷ d ∷ bytes) =
    contains macho_magics (a * 2 ^ 24 + b * 2 ^ 16 + c * 2 ^ 8 + d)
is_macho_bytes bytes = false

abbrev expected_bundle_id : List ℕ
expected_bundle_id = codes "com.robtop.geometrydashmac"

unfoldable pub recognize_gd : FilePath → Action GdInstallation
unfolding plist_declares_bundle_id is_macho_bytes
recognize_gd gd_root fs =
    let install : GdInstallation = record { root = gd_root } in
    if not (is_dir fs (key gd_root))
    then raise (not_a_directory gd_root) fs
    else if not (is_file fs (key (executable install)))
    then raise (unrecognized_installation gd_root no_executable) fs
    else if not (is_file fs (key (info_plist install)))
    then raise (unrecognized_installation gd_root no_info_plist) fs
    else (attempt_read (io (info_plist install)) (read (key (info_plist install))) >>= λ plist.
          if not (plist_declares_bundle_id plist expected_bundle_id)
          then raise (unrecognized_installation gd_root other_bundle_id)
          else (attempt_read (io (executable install)) (read (key (executable install)))
              >>= λ bytes.
                  if not (is_macho_bytes bytes)
                  then raise (unrecognized_installation gd_root not_macho)
                  else pure install))
        fs

unfoldable pub ensure_not_already_installed : GdInstallation → Action (Unit {0})
ensure_not_already_installed gd fs =
    if exists fs (key (backup_manifest_path gd))
    then raise (already_installed gd.root has_manifest) fs
    else if exists fs (key (dylib_dest gd))
    then raise (already_installed gd.root has_dylib) fs
    else pure tt fs
