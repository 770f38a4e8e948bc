-- ===== src/Bindings/Linter/Blocks.antt =====
-- The blocks that the generator writes, as the linter reads them.
use pulse_sdk.Prelude.{
  ℕ, suc, ◌^◌, ◌<◌, ◌≡◌, refl, ap, ◌∙◌, Bool, true, false, Option, none, some, List, [], ◌∷◌, ◌++◌,
  is_empty, All,
}
use pulse_sdk.Prelude.Text.{codes, is_whitespace, all_chars}
use pulse_sdk.Prelude.Lines.{lines, lines-append}
use pulse_sdk.Prelude.Trim.{trim_start, trim_end}
use pulse_sdk.Bindings.{TargetPair, version_text, platform_id}
use pulse_sdk.Bindings.Catalog.{effective_rva}
use pulse_sdk.Bindings.Generator.{
  PivotFunction, write_function, write_functions, emit_verified, bool_text, offset_text, join_texts,
  entry_line,
}
use pulse_sdk.Bindings.Linter.{lint_lines, lint_line, lint_entry, finalize_function}
use pulse_sdk.Bindings.Linter.Findings.{LintState, PendingFunction, new_pending}
use pulse_sdk.Bindings.Linter.Values.{is_valid_bool}
use pulse_sdk.Bindings.Linter.Entries.{
  IsText, IsValue, IsValue-of_text, IsText-of_chars, is_key, lint_lines-entry,
}
use pulse_sdk.Bindings.Linter.Params.{IsParam, join_texts-valid}
use pulse_sdk.Bindings.Linter.Written.{offset_text-IsValue, is_valid_offset-offset_text}

-- A function whose symbol and types can stand on a line each.
pub record IsWritable (f : PivotFunction) : Type 0 where
  pub symbol : IsText f.symbol
  pub return_type : IsText f.signature.return_type
  pub params : All IsParam f.signature.param_types
  pub offset : effective_rva f.offset < 2 ^ 64

abbrev pub complete : ℕ → PendingFunction
complete line = record {
  header_line = line;
  symbol = true;
  offset = true;
  return_type = true;
  params = true;
  verified = true;
}

-- No block, or a complete one.
abbrev pub closed : Option ℕ → Option PendingFunction
closed none = none
closed (some line) = some (complete line)

-- The state behind a header without findings.
abbrev pub clean : TargetPair → Option PendingFunction → LintState
clean pair pending = record {
  findings = [];
  seen_pbind_version = true;
  seen_gd_version = true;
  seen_platform = true;
  pbind_version_value = some (1, codes "1");
  gd_version_value = some (2, version_text pair.gd);
  platform_value = some (3, platform_id pair.platform);
  pending = pending;
}

text_nonempty : (text : List ℕ) → IsText text → is_empty text ≡ false
text_nonempty [] h = cc
text_nonempty (c ∷ text) h = refl

bool_text-IsValue : (b : Bool) → IsValue (bool_text b)
unfolding all_chars is_whitespace
bool_text-IsValue true = IsText-of_chars b't' (codes "rue") refl
bool_text-IsValue false = IsText-of_chars b'f' (codes "alse") refl

is_valid_bool-bool_text : (b : Bool) → is_valid_bool (bool_text b) ≡ true
unfolding is_valid_bool trim_start trim_end is_whitespace
is_valid_bool-bool_text true = refl
is_valid_bool-bool_text false = refl

block-IsText : IsText (codes "[function]")
unfolding all_chars is_whitespace
block-IsText = IsText-of_chars b'[' (codes "function]") refl

pub known_keys :
    (is_key (codes "symbol") ≡ true)
    × (is_key (codes "offset") ≡ true)
    × (is_key (codes "return") ≡ true)
    × (is_key (codes "params") ≡ true)
    × (is_key (codes "verified") ≡ true)
    × (is_key (codes "pbind_version") ≡ true)
    × (is_key (codes "gd_version") ≡ true)
    × (is_key (codes "platform") ≡ true)
unfolding all_chars is_whitespace
known_keys = (refl, refl, refl, refl, refl, refl, refl, refl)

-- A line and what it makes of the state.
pub entry :
    (number : ℕ) (key value rest : List ℕ) (s : LintState) {s' : LintState}
    → is_key key ≡ true
    → IsValue value
    → lint_entry number key value s.pending s ≡ s'
    → lint_lines number (lines (entry_line key value ++ 10 ∷ rest)) s
      ≡ lint_lines (suc number) (lines rest) s'
entry number key value rest s h v e =
    lint_lines-entry number key value rest s h v ∙ ap (lint_lines (suc number) (lines rest)) e

-- A block of which four fields may have been seen.
abbrev seen_fields : ℕ → Bool → Bool → Bool → Bool → PendingFunction
seen_fields line symbol offset return_type params = record {
  header_line = line;
  symbol = symbol;
  offset = offset;
  return_type = return_type;
  params = params;
  verified = false;
}

module _ (pair : TargetPair) where
  blank_line :
      (number : ℕ) (rest : List ℕ) (s : LintState)
      → lint_lines number (lines (10 ∷ rest)) s ≡ lint_lines (suc number) (lines rest) s
  unfolding lint_lines lint_line trim_start trim_end
  blank_line number rest s = ap (λ l. lint_lines number l s) (lines-append [] rest tt tt)

  open_block :
      (number : ℕ) (d : Option ℕ)
      → lint_line number (codes "[function]") (clean pair (closed d))
        ≡ clean pair (some (new_pending number))
  unfolding lint_line trim_start trim_end is_whitespace
  open_block number none = refl
  open_block number (some line) = unfold finalize_function in refl

  block_line :
      (number : ℕ) (rest : List ℕ) (d : Option ℕ)
      → lint_lines number (lines (codes "[function]" ++ 10 ∷ rest)) (clean pair (closed d))
        ≡ lint_lines (suc number) (lines rest) (clean pair (some (new_pending number)))
  unfolding lint_lines
  block_line number rest d =
      let (w, e, (feed, return)) = block-IsText in
      ap (λ l. lint_lines number l (clean pair (closed d)))
        (lines-append (codes "[function]") rest feed return)
      ∙ ap (lint_lines (suc number) (lines rest)) (open_block number d)

  lint_lines-write_function :
      (number : ℕ) (f : PivotFunction) (rest : List ℕ) (d : Option ℕ)
      → IsWritable f
      → lint_lines number (lines (write_function f rest)) (clean pair (closed d))
        ≡ lint_lines
            (suc (suc (suc (suc (suc (suc (suc number)))))))
            (lines rest)
            (clean pair (closed (some (suc number))))
  unfolding write_function
  lint_lines-write_function number f rest d w =
      let n = suc (suc number) in
      let verified = bool_text (emit_verified f.offset) in
      let params = join_texts (codes ", ") f.signature.param_types in
      let rest5 = entry_line (codes "verified") verified ++ 10 ∷ rest in
      let rest4 = entry_line (codes "params") params ++ 10 ∷ rest5 in
      let rest3 = entry_line (codes "return") f.signature.return_type ++ 10 ∷ rest4 in
      let rest2 = entry_line (codes "offset") (offset_text f.offset) ++ 10 ∷ rest3 in
      let rest1 = entry_line (codes "symbol") f.symbol ++ 10 ∷ rest2 in
      let (params_value, params_valid) = join_texts-valid f.signature.param_types w.params in
      let seen = λ (a b c e : Bool). clean pair (some (seen_fields (suc number) a b c e)) in
      blank_line number (codes "[function]" ++ 10 ∷ rest1) (clean pair (closed d))
      ∙ (block_line (suc number) rest1 d
          ∙ (entry n (codes "symbol") f.symbol rest2 (seen false false false false) known_keys.0
                (IsValue-of_text f.symbol w.symbol) (rw (text_nonempty f.symbol w.symbol) refl)
              ∙ (entry (suc n) (codes "offset") (offset_text f.offset) rest3
                    (seen true false false false) known_keys.1 (offset_text-IsValue f.offset)
                    (rw (is_valid_offset-offset_text f.offset w.offset) refl)
                  ∙ (entry (suc (suc n)) (codes "return") f.signature.return_type rest4
                        (seen true true false false) known_keys.2
                        (IsValue-of_text f.signature.return_type w.return_type)
                        (rw (text_nonempty f.signature.return_type w.return_type) refl)
                      ∙ (entry (suc (suc (suc n))) (codes "params") params rest5
                            (seen true true true false) known_keys.3 params_value
                            (rw params_valid refl)
                          ∙ entry (suc (suc (suc (suc n)))) (codes "verified") verified rest
                              (seen true true true true) known_keys.4
                              (bool_text-IsValue (emit_verified f.offset))
                              (rw (is_valid_bool-bool_text (emit_verified f.offset)) refl))))))

  pub lint_lines-write_functions :
      (number : ℕ) (functions : List PivotFunction) (d : Option ℕ)
      → All IsWritable functions
      → (d' : Option ℕ) × (lint_lines number
            (lines (write_functions functions))
            (clean pair (closed d))
          ≡ clean pair (closed d'))
  unfolding write_functions
  lint_lines-write_functions number [] d h = (d, unfold lint_lines lines in refl)
  lint_lines-write_functions number (f ∷ functions) d (w, h) =
      let (d', e) =
        lint_lines-write_functions (suc (suc (suc (suc (suc (suc (suc number))))))) functions
          (some (suc number)) h in
      (d', lint_lines-write_function number f (write_functions functions) d w ∙ e)
