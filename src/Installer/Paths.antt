-- ===== src/Installer/Paths.antt =====
-- Paths as text, and the key by which the file system knows them: `std::path` as far as
-- cli/src/installer.rs uses it, and the layout constants of that file.
pub mod Separate
pub mod Names
use pulse_sdk.Prelude.{
  ℕ, Bool, true, false, ◌&&◌, ◌||◌, not, Option, none, some, List, [], ◌∷◌, ◌++◌, list_eq, contains,
  ◌==◌, if◌then◌else◌,
}
use pulse_sdk.Prelude.Text.{codes, words}

abbrev pub FilePath : Type 0
FilePath = List ℕ

-- The components of a path; an absolute path has the empty component first, which no other has.
-- Symbolic links, `..` and the working directory are not resolved.
abbrev pub Key : Type 0
Key = List (List ℕ)

abbrev pub is_slash : ℕ → Bool
is_slash c = c == b'/'

-- `Path::components` drops the components `.`.
unfoldable pub without_dots : Key → Key
without_dots [] = []
without_dots (c ∷ cs) =
    let rest = without_dots cs in if list_eq c (b'.' ∷ []) then rest else c ∷ rest

abbrev pub is_absolute : FilePath → Bool
is_absolute [] = false
is_absolute (c ∷ path) = is_slash c

abbrev pub root_mark : FilePath → Key
root_mark path = if is_absolute path then [] ∷ [] else []

unfoldable pub key : FilePath → Key
unfolding words without_dots
key path = root_mark path ++ without_dots (words is_slash path)

unfoldable pub ends_with_slash : FilePath → Bool
ends_with_slash [] = false
ends_with_slash (c ∷ []) = is_slash c
ends_with_slash (c ∷ c' ∷ path) = ends_with_slash (c' ∷ path)

-- `Path::join`
unfoldable pub join : FilePath → FilePath → FilePath
unfolding ends_with_slash
join root rel =
    if is_absolute rel
    then rel
    else (root ++ ((if ends_with_slash root || list_eq root [] then [] else b'/' ∷ []) ++ rel))

abbrev pub key_eq : Key → Key → Bool
key_eq [] [] = true
key_eq [] (y ∷ ys) = false
key_eq (x ∷ xs) [] = false
key_eq (x ∷ xs) (y ∷ ys) = list_eq x y && key_eq xs ys

-- `Path::starts_with`, on keys.
abbrev pub is_prefix : Key → Key → Bool
is_prefix [] ys = true
is_prefix (x ∷ xs) [] = false
is_prefix (x ∷ xs) (y ∷ ys) = list_eq x y && is_prefix xs ys

-- The directory that holds a path: all but the last component.
abbrev pub parent : Key → Key
parent [] = []
parent (x ∷ []) = []
parent (x ∷ y ∷ ys) = x ∷ parent (y ∷ ys)

-- `Path::parent` on the text of a path with a slash before its last component.
unfoldable pub parent_path : FilePath → FilePath
parent_path [] = []
parent_path (c ∷ path) = elim (contains path b'/') [ true ↦ c ∷ parent_path path | false ↦ [] ]

-- `strip_prefix`, on keys.
unfoldable pub strip_prefix : Key → Key → Option Key
strip_prefix [] ys = some ys
strip_prefix (x ∷ xs) [] = none
strip_prefix (x ∷ xs) (y ∷ ys) = if list_eq x y then strip_prefix xs ys else none

abbrev pub gd_executable_rel : FilePath
gd_executable_rel = codes "Contents/MacOS/Geometry Dash"

abbrev pub info_plist_rel : FilePath
info_plist_rel = codes "Contents/Info.plist"

abbrev pub code_signature_rel : FilePath
code_signature_rel = codes "Contents/_CodeSignature/CodeResources"

abbrev pub loader_dylib_rel : FilePath
loader_dylib_rel = codes "Contents/MacOS/libpulse_loader.dylib"

abbrev pub backup_manifest_name : FilePath
backup_manifest_name = codes "manifest.txt"

-- `backup_root_for`: the suffix is pushed on the text of the root.
unfoldable pub backup_root_for : FilePath → FilePath
backup_root_for root = root ++ codes ".pulse-backup"
