-- ===== src/Installer/Paths/Names.antt =====
-- The names in a path: `Path::file_name`, `file_stem` and `extension` as far as cli/src/bindings uses
-- them.
use pulse_sdk.Prelude.{
  ℕ, Bool, false, ◌||◌, Option, none, some, List, [], ◌∷◌, ◌++◌, list_eq, is_empty, ◌==◌,
  if◌then◌else◌,
}
use pulse_sdk.Prelude.Text.{codes}
use pulse_sdk.Installer.Paths.{FilePath, Key, key}

-- `Path::file_name`, on the components of a path: the last one, unless it is `..`.
unfoldable pub file_name : Key → Option (List ℕ)
file_name [] = none
file_name (name ∷ []) = if list_eq name (codes "..") || is_empty name then none else some name
file_name (name ∷ name' ∷ names) = file_name (name' ∷ names)

-- A name without its last dot and what follows it, or without any if it has no dot but a first one.
unfoldable pub before_last_dot : List ℕ → Option (List ℕ)
before_last_dot [] = none
before_last_dot (c ∷ name) = elim (before_last_dot name) [
  | some stem ↦ some (c ∷ stem)
  | none ↦ if c == b'.' then some [] else none
]

abbrev pub stem_of : List ℕ → List ℕ
stem_of name = elim (before_last_dot name) [
  | none ↦ name
  | some [] ↦ name
  | some (c ∷ stem) ↦ c ∷ stem
]

abbrev is_toml_name : Option (List ℕ) → Bool
is_toml_name none = false
is_toml_name (some name) = elim (before_last_dot name) [
  | none ↦ false
  | some [] ↦ false
  | some (c ∷ stem) ↦ list_eq name ((c ∷ stem) ++ codes ".toml")
]

-- `path.extension() == Some("toml")`
unfoldable pub is_toml : FilePath → Bool
unfolding before_last_dot file_name
is_toml path = is_toml_name (file_name (key path))
