-- ===== src/Bindings/Linter/Reports.antt =====
-- The linter goes on to the end: what it has found stays found.
use mathlib.Core.Path.{subst}
use pulse_sdk.Prelude.{
  ℕ, suc, ◌+◌, ◌≡◌, refl, Bool, true, false, ◌||◌, Option, none, some, List, [], ◌∷◌, ◌++◌, length,
  list_eq, is_empty, ◌==◌, if◌then◌else◌, arith, ◌⊎◌, inl, inr, Option-cases,
}
use pulse_sdk.Prelude.Text.{codes, from_str_radix}
use pulse_sdk.Prelude.Lines.{lines}
use pulse_sdk.Prelude.Trim.{trim}
use pulse_sdk.Bindings.Linter.{
  report, report_unless, add_missing, finalize_function, close_pending, lint_header, lint_field,
  lint_entry, lint_split, split_key_value, lint_line, lint_lines, check_version, check_value,
  check_path, conclude_lint, lint_pbind, starts_with_hash,
}
use pulse_sdk.Bindings.Linter.Findings.{
  LintFinding, finding, LintState, initial_state, PendingFunction, malformed_line, not_key_value,
  Message, kpbind_format_version, platform_mismatch, version_mismatch,
}
use pulse_sdk.Bindings.Linter.PathPair.{derive_pair_from_path}
use pulse_sdk.Installer.Paths.{FilePath}

abbrev pub IsIn : LintFinding → List LintFinding → Type 0
IsIn f [] = true ≡ false
IsIn f (g ∷ findings) = (f ≡ g) ⊎ IsIn f findings

module _ (f : LintFinding) where
  IsIn-front : (xs ys : List LintFinding) → IsIn f xs → IsIn f (xs ++ ys)
  IsIn-front [] ys h = cc
  IsIn-front (x ∷ xs) ys (inl e) = inl e
  IsIn-front (x ∷ xs) ys (inr h) = inr (IsIn-front xs ys h)

  IsIn-last : (xs : List LintFinding) → IsIn f (xs ++ f ∷ [])
  IsIn-last [] = inl refl
  IsIn-last (x ∷ xs) = inr (IsIn-last xs)

  -- The finding is among those of a state.
  abbrev Keeps : LintState → Type 0
  Keeps s = IsIn f s.findings

  either : (b : Bool) (s t : LintState) → Keeps s → Keeps t → Keeps (if b then s else t)
  either true s t h k = h
  either false s t h k = k

  kept_missing :
      (seen : Bool) (g : LintFinding) (findings : List LintFinding)
      → IsIn f findings
      → IsIn f (add_missing seen g findings)
  kept_missing true g findings h = h
  kept_missing false g findings h = IsIn-front findings (g ∷ []) h

  kept_finalize :
      (p : PendingFunction) (findings : List LintFinding)
      → IsIn f findings
      → IsIn f (finalize_function p findings)
  unfolding finalize_function
  kept_finalize p findings h = kept_missing p.verified _ _ (
      kept_missing p.params _ _
        (kept_missing p.return_type _ _ (kept_missing p.offset _ _ (kept_missing p.symbol _ _ h))))

  kept_report : (g : LintFinding) (s : LintState) → Keeps s → Keeps (report g s)
  kept_report g s h = IsIn-front s.findings (g ∷ []) h

  kept_unless : (b : Bool) (g : LintFinding) (s : LintState) → Keeps s → Keeps (report_unless b g s)
  kept_unless b g s h = either b s (report g s) h (kept_report g s h)

  kept_close : (s : LintState) → Keeps s → Keeps (close_pending s)
  kept_close s h = elim (Option-cases s.pending) [
    | inl e ↦ rw e h
    | inr (p, e) ↦ rw e (kept_finalize p s.findings h)
  ]

  kept_header :
      (n : ℕ) (key value : List ℕ) (s : LintState) → Keeps s → Keeps (lint_header n key value s)
  kept_header n key value s h =
      either (list_eq key (codes "pbind_version")) _ _ (kept_unless _ _ _ h) (
        either (list_eq key (codes "gd_version")) _ _ (kept_unless _ _ _ h)
          (either (list_eq key (codes "platform")) _ _ (kept_unless _ _ _ h) (kept_report _ s h)))

  kept_field :
      (n : ℕ) (key value : List ℕ) (p : PendingFunction) (s : LintState)
      → Keeps s
      → Keeps (lint_field n key value p s)
  kept_field n key value p s h = either (list_eq key (codes "symbol")) _ _ (kept_unless _ _ _ h) (
      either (list_eq key (codes "offset")) _ _ (kept_unless _ _ _ h) (
        either (list_eq key (codes "return")) _ _ (kept_unless _ _ _ h) (
          either (list_eq key (codes "params")) _ _ (kept_unless _ _ _ h) (
            either (list_eq key (codes "verified")) _ _ (kept_unless _ _ _ h)
              (kept_report _ s h)))))

  kept_entry :
      (n : ℕ) (key value : List ℕ) (o : Option PendingFunction) (s : LintState)
      → Keeps s
      → Keeps (lint_entry n key value o s)
  kept_entry n key value none s h = kept_header n key value s h
  kept_entry n key value (some p) s h = kept_field n key value p s h

  kept_split :
      (n : ℕ) (o : Option (List ℕ × List ℕ)) (s : LintState) → Keeps s → Keeps (lint_split n o s)
  kept_split n none s h = kept_report _ s h
  kept_split n (some (key, value)) s h =
      either (is_empty key) _ _ (kept_report _ s h) (kept_entry n key value s.pending s h)

  kept_line : (n : ℕ) (line : List ℕ) (s : LintState) → Keeps s → Keeps (lint_line n line s)
  unfolding lint_line
  kept_line n line s h = either (is_empty (trim line) || starts_with_hash (trim line)) s _ h (
      either (list_eq (trim line) (codes "[function]")) _ _ (kept_close s h)
        (kept_split n (split_key_value (trim line)) s h))

  kept_lines : (n : ℕ) (ls : List (List ℕ)) (s : LintState) → Keeps s → Keeps (lint_lines n ls s)
  unfolding lint_lines
  kept_lines n [] s h = h
  kept_lines n (line ∷ ls) s h = kept_lines (suc n) ls (lint_line n line s) (kept_line n line s h)

  kept_version :
      (o : Option (ℕ × List ℕ)) (findings : List LintFinding)
      → IsIn f findings
      → IsIn f (check_version o findings)
  unfolding check_version
  kept_version none findings h = h
  kept_version (some (n, value)) findings h =
      elim (Option-cases (from_str_radix 10 4294967296 value)) [
        | inl e ↦ rw (e, check_version) h
        | inr (found, e) ↦
            rw (e, check_version) (kept_missing (found == kpbind_format_version) _ _ h)
      ]

  kept_value :
      (m : List ℕ → List ℕ → Message) (expected : List ℕ) (o : Option (ℕ × List ℕ))
      (findings : List LintFinding)
      → IsIn f findings
      → IsIn f (check_value m expected o findings)
  kept_value m expected none findings h = h
  kept_value m expected (some (n, found)) findings h = kept_missing (list_eq found expected) _ _ h

  kept_path :
      (o : Option (List ℕ × List ℕ)) (s : LintState) (findings : List LintFinding)
      → IsIn f findings
      → IsIn f (check_path o s findings)
  unfolding check_path
  kept_path none s findings h = h
  kept_path (some (version, platform)) s findings h =
      kept_value platform_mismatch platform s.platform_value _
        (kept_value version_mismatch version s.gd_version_value findings h)

  kept_conclude : (path : FilePath) (s : LintState) → Keeps s → IsIn f (conclude_lint path s)
  unfolding conclude_lint
  kept_conclude path s h =
      let t = close_pending s in
      kept_path (derive_pair_from_path path) t _ (
        kept_version t.pbind_version_value _ (
          kept_missing t.seen_platform _ _ (
            kept_missing t.seen_gd_version _ _
              (kept_missing t.seen_pbind_version _ _ (kept_close s h)))))

-- A line that is neither empty, nor a comment, nor `[function]`, nor of the form `key = value`.
abbrev pub IsJunk : List ℕ → Type 0
IsJunk line =
    ((is_empty (trim line) || starts_with_hash (trim line)) ≡ false)
    × (list_eq (trim line) (codes "[function]") ≡ false)
    × (split_key_value (trim line) ≡ none)

junk_line :
    (n : ℕ) (line : List ℕ) (s : LintState)
    → IsJunk line
    → IsIn (finding n malformed_line not_key_value) (lint_line n line s).findings
unfolding lint_line
junk_line n line s (a, b, c) =
    rw (a, b, c) (IsIn-last (finding n malformed_line not_key_value) s.findings)

junk-lines :
    (path : FilePath) (n : ℕ) (before after : List (List ℕ)) (line : List ℕ) (s : LintState)
    → IsJunk line
    → IsIn
        (finding (n + length before) malformed_line not_key_value)
        (conclude_lint path (lint_lines n (before ++ line ∷ after) s))
unfolding lint_lines
junk-lines path n [] after line s j =
    let e : n ≡ n + 0 = omega arith in
    subst
      (λ k.
        IsIn (finding k malformed_line not_key_value)
          (conclude_lint path (lint_lines n (line ∷ after) s)))
      e
      (kept_conclude (finding n malformed_line not_key_value) path
        (lint_lines (suc n) after (lint_line n line s))
        (kept_lines (finding n malformed_line not_key_value) (suc n) after (lint_line n line s)
          (junk_line n line s j)))
junk-lines path n (x ∷ before) after line s j =
    let e : suc n + length before ≡ n + suc (length before) = omega arith in
    subst
      (λ k.
        IsIn (finding k malformed_line not_key_value)
          (conclude_lint path (lint_lines n (x ∷ (before ++ line ∷ after)) s)))
      e (junk-lines path (suc n) before after line (lint_line n x s) j)

-- A line that is neither empty, nor a comment, nor `[function]`, nor of the form `key = value` is
-- reported with its number, whatever stands before and after it and wherever the file is.
pub lint_pbind_junk :
    (path : FilePath) (content : List ℕ) (before after : List (List ℕ)) (line : List ℕ)
    → lines content ≡ before ++ line ∷ after
    → IsJunk line
    → IsIn (finding (1 + length before) malformed_line not_key_value) (lint_pbind path content)
unfolding lint_pbind
lint_pbind_junk path content before after line e j =
    rw e (junk-lines path 1 before after line initial_state j)
