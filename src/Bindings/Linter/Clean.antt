-- ===== src/Bindings/Linter/Clean.antt =====
-- What the generator writes passes the linter.
use pulse_sdk.Prelude.{
  ℕ, ◌^◌, ◌<◌, ◌≡◌, refl, ap, ◌∙◌, true, false, Option, none, some, List, [], ◌∷◌, ◌++◌, list_eq,
  All,
}
use pulse_sdk.Prelude.Text.{
  codes, decimal, decimal_loop, is_whitespace, all_chars, from_str_radix, digits_value, to_digit,
}
use pulse_sdk.Prelude.Lines.{lines}
use pulse_sdk.Prelude.Trim.{trim, trim_start, trim_end}
use pulse_sdk.Bindings.{TargetPair, version_text, platform_id}
use pulse_sdk.Bindings.Generator.{
  PivotFunction, serialize_set, write_functions, pbind_path, pbind_format_version, entry_line,
}
use pulse_sdk.Bindings.Linter.{
  lint_pbind, lint_lines, conclude_lint, check_version, check_path, finalize_function,
}
use pulse_sdk.Bindings.Linter.Findings.{initial_state}
use pulse_sdk.Bindings.Linter.Values.{is_valid_unsigned_decimal}
use pulse_sdk.Bindings.Linter.Entries.{IsValue, IsText-of_chars}
use pulse_sdk.Bindings.Linter.Written.{
  version-IsValue, trim-version_text, platform_nonempty, trim-platform_id,
  is_valid_gd_version-version_text, platform_id-IsValue,
}
use pulse_sdk.Bindings.Linter.Blocks.{
  IsWritable, clean, closed, entry, known_keys, lint_lines-write_functions,
}
use pulse_sdk.Bindings.Linter.PathPair.{derive_pair_from_path}
use pulse_sdk.Bindings.Linter.Located.{derive_pair_from_path-pbind_path}
use pulse_sdk.Installer.Paths.{FilePath}
use pulse_sdk.Installer.Paths.Separate.{list_eq_self}

one-IsValue : IsValue (decimal pbind_format_version)
unfolding all_chars is_whitespace decimal decimal_loop
one-IsValue = IsText-of_chars b'1' [] refl

one_valid : is_valid_unsigned_decimal (decimal pbind_format_version) ≡ true
unfolding is_valid_unsigned_decimal decimal decimal_loop trim_start trim_end is_whitespace all_chars
    from_str_radix digits_value to_digit
one_valid = refl

one_trimmed : trim (decimal pbind_format_version) ≡ codes "1"
unfolding decimal decimal_loop trim_start trim_end is_whitespace
one_trimmed = refl

check_version_one : check_version (some (1, codes "1")) [] ≡ []
unfolding check_version from_str_radix digits_value to_digit
check_version_one = refl

module _ (pair : TargetPair) where
  lint_lines-header :
      (rest : List ℕ)
      → pair.gd.major < 2 ^ 32
      → pair.gd.minor < 2 ^ 32
      → lint_lines 1
          (lines (
            entry_line (codes "pbind_version") (decimal pbind_format_version)
            ++ 10
              ∷ (entry_line (codes "gd_version") (version_text pair.gd)
                  ++ 10
                    ∷ (entry_line (codes "platform") (platform_id pair.platform) ++ 10 ∷ rest))))
          initial_state
        ≡ lint_lines 4 (lines rest) (clean pair none)
  lint_lines-header rest h k =
      let rest3 = entry_line (codes "platform") (platform_id pair.platform) ++ 10 ∷ rest in
      let rest2 = entry_line (codes "gd_version") (version_text pair.gd) ++ 10 ∷ rest3 in
      let start = record initial_state {
        seen_pbind_version = true;
        pbind_version_value = some (1, codes "1");
      } in
      let versioned = record start {
        seen_gd_version = true;
        gd_version_value = some (2, version_text pair.gd);
      } in
      entry 1 (codes "pbind_version") (decimal pbind_format_version) rest2 initial_state
        known_keys.5 one-IsValue (rw (one_valid, one_trimmed) refl)
      ∙ (entry 2 (codes "gd_version") (version_text pair.gd) rest3 start known_keys.6
            (version-IsValue pair.gd)
            (rw (is_valid_gd_version-version_text pair.gd h k, trim-version_text pair.gd) refl)
          ∙ entry 3 (codes "platform") (platform_id pair.platform) rest versioned known_keys.7
              (platform_id-IsValue pair.platform)
              (rw (platform_nonempty pair.platform, trim-platform_id pair.platform) refl))

  path_lem :
      (root : FilePath)
      → list_eq root [] ≡ false
      → check_path
          (derive_pair_from_path (pbind_path root pair))
          (clean pair none)
          (check_version (some (1, codes "1")) [])
        ≡ []
  unfolding check_path
  path_lem root h =
      rw (check_version_one, derive_pair_from_path-pbind_path root pair h)
        (rw (list_eq_self (version_text pair.gd), list_eq_self (platform_id pair.platform)) refl)

  conclude_lint-clean :
      (root : FilePath) (d : Option ℕ)
      → list_eq root [] ≡ false
      → conclude_lint (pbind_path root pair) (clean pair (closed d)) ≡ []
  unfolding conclude_lint
  conclude_lint-clean root none h = path_lem root h
  conclude_lint-clean root (some line) h = unfold finalize_function in path_lem root h

  -- The linter finds nothing in the text that the generator writes for a pair of 32-bit versions, at
  -- the path where it writes it under a root that is not empty, if each symbol, return type and
  -- parameter type is a text on one line, not empty and with no white space at its ends, the commas
  -- of a parameter type leave no piece of it blank, and the offsets are 64-bit numbers.
  pub lint_pbind-serialize_set :
      (root : FilePath) (functions : List PivotFunction)
      → list_eq root [] ≡ false
      → pair.gd.major < 2 ^ 32
      → pair.gd.minor < 2 ^ 32
      → All IsWritable functions
      → lint_pbind (pbind_path root pair) (serialize_set pair functions) ≡ []
  unfolding lint_pbind serialize_set
  lint_pbind-serialize_set root functions h major minor w =
      let (d, e) = lint_lines-write_functions pair 4 functions none w in
      ap (conclude_lint (pbind_path root pair))
        (lint_lines-header (write_functions functions) major minor ∙ e)
      ∙ conclude_lint-clean root d h
