-- ===== src/Installer/Fs.antt =====
-- `std::fs` as far as cli/src/installer.rs uses it: a tree of files and directories by key, and the
-- faults that the operations are going to meet. A fault takes no other effect than the one written
-- here: a failing operation leaves the tree alone, but a torn write leaves a part of the bytes.
pub mod Frame
use pulse_sdk.Prelude.{
  ℕ, Bool, true, false, ◌&&◌, ◌||◌, not, Option, none, some, List, [], ◌∷◌, ◌++◌, take,
  if◌then◌else◌,
}
use pulse_sdk.Prelude.Utf8.{from_utf8}
use pulse_sdk.Installer.Paths.{Key, key_eq, is_prefix, parent}

abbrev pub Bytes : Type 0
Bytes = List ℕ

pub data Node : Type 0 where
  file : Bytes → Node
  dir : Node

pub data Fault : Type 0 where
  pass fail : Fault
  torn : ℕ → Fault

pub record Fs : Type 0 where
  pub nodes : Key → Option Node
  pub faults : List Fault

abbrev pub file_at : Fs → Key → Option Bytes
file_at fs k = elim (fs.nodes k) [ none ↦ none | some (file b) ↦ some b | some dir ↦ none ]

abbrev is_dir_node : Option Node → Bool
is_dir_node none = false
is_dir_node (some (file b)) = false
is_dir_node (some dir) = true

-- `Path::is_file`, `Path::is_dir` and `Path::exists`, which change nothing.
abbrev is_file_node : Option Node → Bool
is_file_node none = false
is_file_node (some (file b)) = true
is_file_node (some dir) = false

abbrev pub is_file : Fs → Key → Bool
is_file fs k = is_file_node (fs.nodes k)

abbrev pub is_dir : Fs → Key → Bool
is_dir fs k = is_dir_node (fs.nodes k)

abbrev pub exists : Fs → Key → Bool
exists fs k = is_file fs k || is_dir fs k

-- The root of the tree and the working directory are directories.
abbrev pub is_holder : Fs → Key → Bool
is_holder fs [] = true
is_holder fs ([] ∷ []) = true
is_holder fs k = is_dir fs k

abbrev next_fault : List Fault → Fault
next_fault [] = pass
next_fault (f ∷ faults) = f

abbrev later_faults : List Fault → List Fault
later_faults [] = []
later_faults (f ∷ faults) = faults

abbrev put_node : (Key → Option Node) → Key → Option Node → Key → Option Node
put_node nodes k n j = if key_eq k j then n else nodes j

-- `fs::read`
unfoldable pub read : Key → Fs → Option Bytes × Fs
read k fs = (
  elim (next_fault fs.faults) [ pass ↦ file_at fs k | _ ↦ none ],
  record fs { faults = later_faults fs.faults },
)

abbrev pub text_outcome : Option Bytes × Fs → Option (List ℕ) × Fs
text_outcome (none, fs) = (none, fs)
text_outcome (some b, fs) = (from_utf8 b, fs)

-- `fs::read_to_string`
unfoldable pub read_to_string : Key → Fs → Option (List ℕ) × Fs
unfolding read
read_to_string k fs = text_outcome (read k fs)

-- Whether a file may be written at a key.
abbrev writable : Fs → Key → Bool
writable fs k = is_holder fs (parent k) && not (is_dir fs k)

-- `fs::write`, and whether it succeeded.
unfoldable pub write : Key → Bytes → Fs → Bool × Fs
write k b fs =
    let rest = later_faults fs.faults in
    if writable fs k
    then elim (next_fault fs.faults) [
      | pass ↦ (true, record { nodes = put_node fs.nodes k (some (file b)); faults = rest })
      | fail ↦ (false, record fs { faults = rest })
      | torn n ↦
          (false, record { nodes = put_node fs.nodes k (some (file (take n b))); faults = rest })
    ]
    else (false, record fs { faults = rest })

-- `fs::copy`: a missing source is an error, and nothing is written then.
unfoldable pub copy : Key → Key → Fs → Bool × Fs
unfolding write
copy src dest fs = elim (file_at fs src) [
  | none ↦ (false, record fs { faults = later_faults fs.faults })
  | some b ↦ write dest b fs
]

-- `fs::remove_file`
unfoldable pub remove_file : Key → Fs → Bool × Fs
remove_file k fs =
    let rest = later_faults fs.faults in
    if is_file fs k
    then elim (next_fault fs.faults) [
      | pass ↦ (true, record { nodes = put_node fs.nodes k none; faults = rest })
      | _ ↦ (false, record fs { faults = rest })
    ]
    else (false, record fs { faults = rest })

-- `fs::rename` of a file over a file or over nothing.
unfoldable pub rename : Key → Key → Fs → Bool × Fs
rename src dest fs =
    let rest = later_faults fs.faults in
    elim (file_at fs src) [
      | none ↦ (false, record fs { faults = rest })
      | some b ↦
          if writable fs dest
          then elim (next_fault fs.faults) [
            | pass ↦ (
              true,
              record {
                nodes = put_node (put_node fs.nodes src none) dest (some (file b));
                faults = rest;
              },
            )
            | _ ↦ (false, record fs { faults = rest })
          ]
          else (false, record fs { faults = rest })
    ]

-- Whether no file stands at a key or above it: `seen` is the way down to `k`.
no_file_above : Fs → Key → Key → Bool
no_file_above fs seen [] = not (is_file fs seen)
no_file_above fs seen (c ∷ k) = not (is_file fs seen) && no_file_above fs (seen ++ (c ∷ [])) k

-- The directories on the way to `k` that are missing are made.
abbrev with_dirs : Fs → Key → Key → Option Node
with_dirs fs k j = elim (fs.nodes j) [
  | some n ↦ some n
  | none ↦ if is_prefix j k then some dir else none
]

-- `fs::create_dir_all`
unfoldable pub create_dir_all : Key → Fs → Bool × Fs
unfolding no_file_above
create_dir_all k fs =
    let rest = later_faults fs.faults in
    if no_file_above fs [] k
    then elim (next_fault fs.faults) [
      | pass ↦ (true, record { nodes = with_dirs fs k; faults = rest })
      | _ ↦ (false, record fs { faults = rest })
    ]
    else (false, record fs { faults = rest })

-- `fs::remove_dir_all`
unfoldable pub remove_dir_all : Key → Fs → Bool × Fs
remove_dir_all k fs =
    let rest = later_faults fs.faults in
    if is_dir fs k
    then elim (next_fault fs.faults) [
      | pass ↦
          (true, record { nodes = λ j. if is_prefix k j then none else fs.nodes j; faults = rest })
      | _ ↦ (false, record fs { faults = rest })
    ]
    else (false, record fs { faults = rest })
