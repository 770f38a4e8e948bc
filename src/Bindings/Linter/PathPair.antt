-- ===== src/Bindings/Linter/PathPair.antt =====
-- The pair that the path of a set names: cli/src/bindings/linter.rs.
use pulse_sdk.Prelude.{ℕ, Option, none, some, List}
use pulse_sdk.Installer.Paths.{FilePath, key, parent}
use pulse_sdk.Installer.Paths.Names.{file_name, before_last_dot, stem_of}

abbrev name_pair : Option (List ℕ) → Option (List ℕ) → Option (List ℕ × List ℕ)
name_pair (some version) (some file) = some (version, stem_of file)
name_pair none file = none
name_pair (some version) none = none

-- The version and the platform that a path names.
unfoldable pub derive_pair_from_path : FilePath → Option (List ℕ × List ℕ)
unfolding file_name before_last_dot
derive_pair_from_path path = name_pair (file_name (parent (key path))) (file_name (key path))
