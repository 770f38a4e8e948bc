-- ===== src/Bindings/Linter.antt =====
-- cli/src/bindings/linter.rs: the check of the text of a set.
pub mod Findings
pub mod Values
pub mod PathPair
pub mod Entries
pub mod Params
pub mod Written
pub mod Located
pub mod Blocks
pub mod Clean
pub mod Reports
use pulse_sdk.Prelude.{
  ℕ, suc, ◌^◌, Bool, true, false, not, ◌||◌, Option, none, some, List, [], ◌∷◌, ◌++◌, list_eq,
  is_empty, ◌==◌, if◌then◌else◌,
}
use pulse_sdk.Prelude.Text.{codes, from_str_radix}
use pulse_sdk.Prelude.Lines.{lines}
use pulse_sdk.Prelude.Trim.{trim, split_once}
use pulse_sdk.Installer.Paths.{FilePath}
use pulse_sdk.Bindings.Linter.Findings.{
  LintFinding, finding, PendingFunction, new_pending, LintState, initial_state,
  kpbind_format_version, missing_header_key, missing_function_field, malformed_value,
  malformed_line, unknown_key, path_header_mismatch, unsupported_format_version, Message,
  not_key_value, empty_key, bad_value, unknown_header_key, unknown_function_key, missing_header,
  missing_field, unsupported_version, version_mismatch, platform_mismatch,
}
use pulse_sdk.Bindings.Linter.Values.{
  is_valid_unsigned_decimal, is_valid_gd_version, is_valid_offset, is_valid_params, is_valid_bool,
}
use pulse_sdk.Bindings.Linter.PathPair.{derive_pair_from_path}

-- `findings.push`
abbrev pub report : LintFinding → LintState → LintState
report f s = record s { findings = s.findings ++ f ∷ [] }

abbrev pub report_unless : Bool → LintFinding → LintState → LintState
report_unless fine f s = if fine then s else report f s

-- `get_or_insert_with`: the first value stays.
abbrev keep_first : Option (ℕ × List ℕ) → ℕ → List ℕ → Option (ℕ × List ℕ)
keep_first none line value = some (line, trim value)
keep_first (some first) line value = some first

abbrev pub add_missing : Bool → LintFinding → List LintFinding → List LintFinding
add_missing seen f findings = if seen then findings else (findings ++ f ∷ [])

unfoldable pub finalize_function : PendingFunction → List LintFinding → List LintFinding
finalize_function p findings =
    let missing : List ℕ → LintFinding =
      λ field. finding p.header_line missing_function_field (missing_field field) in
    add_missing p.verified (missing (codes "verified")) (
      add_missing p.params (missing (codes "params")) (
        add_missing p.return_type (missing (codes "return")) (
          add_missing p.offset (missing (codes "offset"))
            (add_missing p.symbol (missing (codes "symbol")) findings))))

-- `pending.take()` and the report on the block that it was.
abbrev pub close_pending : LintState → LintState
close_pending s = elim s.pending [
  | none ↦ s
  | some p ↦ record s { findings = finalize_function p s.findings; pending = none }
]

abbrev pub lint_header : ℕ → List ℕ → List ℕ → LintState → LintState
lint_header line key value s =
    let bad = finding line malformed_value (bad_value key) in
    if list_eq key (codes "pbind_version")
    then report_unless (is_valid_unsigned_decimal value) bad (record s {
      seen_pbind_version = true;
      pbind_version_value = keep_first s.pbind_version_value line value;
    })
    else if list_eq key (codes "gd_version")
    then report_unless (is_valid_gd_version value) bad (record s {
      seen_gd_version = true;
      gd_version_value = keep_first s.gd_version_value line value;
    })
    else if list_eq key (codes "platform")
    then report_unless (not (is_empty value)) bad
        (record s { seen_platform = true; platform_value = keep_first s.platform_value line value })
    else report (finding line unknown_key (unknown_header_key key)) s

abbrev pub lint_field : ℕ → List ℕ → List ℕ → PendingFunction → LintState → LintState
lint_field line key value p s =
    let bad = finding line malformed_value (bad_value key) in
    if list_eq key (codes "symbol")
    then report_unless (not (is_empty value)) bad
        (record s { pending = some (record p { symbol = true }) })
    else if list_eq key (codes "offset")
    then report_unless (is_valid_offset value) bad
        (record s { pending = some (record p { offset = true }) })
    else if list_eq key (codes "return")
    then report_unless (not (is_empty value)) bad
        (record s { pending = some (record p { return_type = true }) })
    else if list_eq key (codes "params")
    then report_unless (is_valid_params value) bad
        (record s { pending = some (record p { params = true }) })
    else if list_eq key (codes "verified")
    then report_unless (is_valid_bool value) bad
        (record s { pending = some (record p { verified = true }) })
    else report (finding line unknown_key (unknown_function_key key)) s

abbrev pub lint_entry : ℕ → List ℕ → List ℕ → Option PendingFunction → LintState → LintState
lint_entry line key value none s = lint_header line key value s
lint_entry line key value (some p) s = lint_field line key value p s

unfoldable pub split_key_value : List ℕ → Option (List ℕ × List ℕ)
split_key_value line = elim (split_once b'=' line) [
  | none ↦ none
  | some (key, value) ↦ some (trim key, trim value)
]

abbrev pub lint_split : ℕ → Option (List ℕ × List ℕ) → LintState → LintState
lint_split line none s = report (finding line malformed_line not_key_value) s
lint_split line (some (key, value)) s =
    if is_empty key
    then report (finding line malformed_line empty_key) s
    else lint_entry line key value s.pending s

abbrev pub starts_with_hash : List ℕ → Bool
starts_with_hash [] = false
starts_with_hash (c ∷ text) = c == b'#'

unfoldable pub lint_line : ℕ → List ℕ → LintState → LintState
lint_line number raw s =
    let line = trim raw in
    if is_empty line || starts_with_hash line
    then s
    else if list_eq line (codes "[function]")
    then record (close_pending s) { pending = some (new_pending number) }
    else lint_split number (split_key_value line) s

unfoldable pub lint_lines : ℕ → List (List ℕ) → LintState → LintState
unfolding lint_line
lint_lines number [] s = s
lint_lines number (line ∷ rest) s = lint_lines (suc number) rest (lint_line number line s)

abbrev pub add_missing_headers : LintState → List LintFinding → List LintFinding
add_missing_headers s findings =
    let missing : List ℕ → LintFinding = λ key. finding 0 missing_header_key (missing_header key) in
    add_missing s.seen_platform (missing (codes "platform")) (
      add_missing s.seen_gd_version (missing (codes "gd_version"))
        (add_missing s.seen_pbind_version (missing (codes "pbind_version")) findings))

unfoldable pub check_version : Option (ℕ × List ℕ) → List LintFinding → List LintFinding
check_version none findings = findings
check_version (some (line, value)) findings = elim (from_str_radix 10 (2 ^ 32) value) [
  | none ↦ findings
  | some found ↦
      add_missing (found == kpbind_format_version)
        (finding line unsupported_format_version (unsupported_version found)) findings
]

abbrev pub check_value :
    (List ℕ → List ℕ → Message) → List ℕ → Option (ℕ × List ℕ) → List LintFinding → List LintFinding
check_value message expected none findings = findings
check_value message expected (some (line, found)) findings =
    add_missing (list_eq found expected)
      (finding line path_header_mismatch (message expected found)) findings

unfoldable pub check_path :
    Option (List ℕ × List ℕ) → LintState → List LintFinding → List LintFinding
check_path none s findings = findings
check_path (some (version, platform)) s findings =
    check_value platform_mismatch platform s.platform_value
      (check_value version_mismatch version s.gd_version_value findings)

-- What follows the loop.
unfoldable pub conclude_lint : FilePath → LintState → List LintFinding
unfolding check_version check_path derive_pair_from_path
conclude_lint path s =
    let s' = close_pending s in
    check_path (derive_pair_from_path path) s'
      (check_version s'.pbind_version_value (add_missing_headers s' s'.findings))

unfoldable pub lint_pbind : FilePath → List ℕ → List LintFinding
unfolding lint_lines conclude_lint
lint_pbind path content = conclude_lint path (lint_lines 1 (lines content) initial_state)

pub data LintReport : Type 0 where
  distributable : LintReport
  findings_report : List LintFinding → LintReport

unfoldable pub is_distributable : LintReport → Bool
is_distributable distributable = true
is_distributable (findings_report findings) = false

abbrev pub report_of : List LintFinding → LintReport
report_of [] = distributable
report_of (f ∷ findings) = findings_report (f ∷ findings)

unfoldable pub lint_result : FilePath → List ℕ → LintReport
unfolding lint_pbind
lint_result path content = report_of (lint_pbind path content)
