-- ===== src/Bindings/Linter/Findings.antt =====
-- What cli/src/bindings/linter.rs reports, and the state of its loop. A message is a constructor for
-- each of its forms.
use pulse_sdk.Prelude.{ℕ, Bool, false, Option, none, List, []}

abbrev pub kpbind_format_version : ℕ
kpbind_format_version = 1

pub data LintKind : Type 0 where
  missing_header_key missing_function_field malformed_value malformed_line unknown_key : LintKind
  path_header_mismatch unsupported_format_version : LintKind

pub data Message : Type 0 where
  not_key_value empty_key : Message
  bad_value : List ℕ → Message
  unknown_header_key unknown_function_key missing_header missing_field : List ℕ → Message
  unsupported_version : ℕ → Message
  version_mismatch platform_mismatch : List ℕ → List ℕ → Message

pub record LintFinding : Type 0 where
  pub line : ℕ
  pub kind : LintKind
  pub message : Message

-- `LintFinding::new`
abbrev pub finding : ℕ → LintKind → Message → LintFinding
finding line kind message = record { line = line; kind = kind; message = message }

pub record PendingFunction : Type 0 where
  pub header_line : ℕ
  pub symbol : Bool
  pub offset : Bool
  pub return_type : Bool
  pub params : Bool
  pub verified : Bool

-- `PendingFunction::new`
abbrev pub new_pending : ℕ → PendingFunction
new_pending line = record {
  header_line = line;
  symbol = false;
  offset = false;
  return_type = false;
  params = false;
  verified = false;
}

-- What the loop of `lint_pbind` carries.
pub record LintState : Type 0 where
  pub findings : List LintFinding
  pub seen_pbind_version : Bool
  pub seen_gd_version : Bool
  pub seen_platform : Bool
  pub pbind_version_value : Option (ℕ × List ℕ)
  pub gd_version_value : Option (ℕ × List ℕ)
  pub platform_value : Option (ℕ × List ℕ)
  pub pending : Option PendingFunction

abbrev pub initial_state : LintState
initial_state = record {
  findings = [];
  seen_pbind_version = false;
  seen_gd_version = false;
  seen_platform = false;
  pbind_version_value = none;
  gd_version_value = none;
  platform_value = none;
  pending = none;
}
