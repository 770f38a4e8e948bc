-- ===== src/Tests/Contributions.antt =====
-- An offset set in the file of a symbol, and the theorem there.
use pulse_sdk.Prelude.{ℕ, Option, none, some, List, [], ◌∷◌, if◌then◌else◌}
use pulse_sdk.Prelude.Text.{codes, utf8, words, decimal, decimal_loop}
use pulse_sdk.Bindings.{version_text}
use pulse_sdk.Bindings.Contribution.{raw_entry, raws_of, from_record}
use pulse_sdk.Installer.Fs.{Fs, file, dir}
use pulse_sdk.Installer.Paths.{FilePath, Key, key, key_eq, without_dots}
use pulse_sdk.Tests.Catalogues.{init_entry}
use pulse_sdk.Tests.Codec.{entry_codec}

abbrev no_digest : List ℕ → List ℕ
no_digest bytes = []

abbrev init_file : FilePath
init_file = codes "/m/symbols/A__b.toml"

init_text : List ℕ
unfolding raws_of from_record version_text decimal decimal_loop
init_text = entry_codec.put (raw_entry init_entry)

symbols_key : Key
unfolding key words without_dots
symbols_key = key (codes "/m/symbols")

init_key : Key
unfolding key words without_dots
init_key = key init_file

abbrev disk : Fs
disk = record {
  nodes = λ k.
      if key_eq init_key k
      then some (file (utf8 init_text))
      else if key_eq symbols_key k
      then some dir
      else none;
  faults = [];
}

-- The directory of the catalogue: a file, and one that is no TOML file.
abbrev listing : Option (List (Option FilePath))
listing = some (some (codes "/m/symbols/README") ∷ some init_file ∷ [])
