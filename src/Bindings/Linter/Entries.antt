-- ===== src/Bindings/Linter/Entries.antt =====
-- How the linter reads a line `key = value` that is well written.
use pulse_sdk.Prelude.{
  ℕ, suc, ◌≡◌, ◌≢◌, refl, sym, ap, ◌∙◌, Bool, true, false, not, ◌&&◌, some, List, [], ◌∷◌, ◌++◌,
  ◌==◌, arith, All, All-append, All-map, append_assoc, list_eq,
}
use pulse_sdk.Prelude.Text.{codes, is_whitespace, all_chars}
use pulse_sdk.Prelude.Lines.{lines, lines-append}
use pulse_sdk.Prelude.Trim.{
  trim, trim_start, trim_end, split_once, split_once-append, trim_end-append_space, trim_end-append,
  trim_end_solid,
}
use pulse_sdk.Bindings.Generator.{entry_line}
use pulse_sdk.Bindings.Linter.{split_key_value, lint_line, lint_lines, lint_entry}
use pulse_sdk.Bindings.Linter.Findings.{LintState}

abbrev pub IsOneLine : List ℕ → Type 0
IsOneLine text = All (λ c. c ≢ 10) text × All (λ c. c ≢ 13) text

-- A text on one line, not empty, with no white space at its ends.
abbrev pub IsText : List ℕ → Type 0
IsText [] = true ≡ false
IsText (c ∷ text) =
    (is_whitespace c ≡ false) × (trim_end (c ∷ text) ≡ c ∷ text) × IsOneLine (c ∷ text)

abbrev pub IsValue : List ℕ → Type 0
IsValue [] = Unit
IsValue (c ∷ text) = IsText (c ∷ text)

abbrev pub IsSolid : ℕ → Type 0
IsSolid c = is_whitespace c ≡ false

solid-ne : (c : ℕ) → IsSolid c → (c ≢ 10) × (c ≢ 13)
unfolding is_whitespace
solid-ne c h = (λ e. ground arith, λ e. ground arith)

solid_line : (text : List ℕ) → All IsSolid text → IsOneLine text
solid_line text h = (
  All-map IsSolid (λ d. d ≢ 10) text (λ d s. (solid-ne d s).0) h,
  All-map IsSolid (λ d. d ≢ 13) text (λ d s. (solid-ne d s).1) h,
)

pub IsText-of_solid : (c : ℕ) (text : List ℕ) → All IsSolid (c ∷ text) → IsText (c ∷ text)
IsText-of_solid c text h = (h.0, trim_end_solid (c ∷ text) h, solid_line (c ∷ text) h)

pub IsValue-of_text : (text : List ℕ) → IsText text → IsValue text
IsValue-of_text [] h = tt
IsValue-of_text (c ∷ text) h = h

abbrev solid_char : ℕ → Bool
solid_char c = not (is_whitespace c)

IsSolid-chars : (text : List ℕ) → all_chars solid_char text ≡ true → All IsSolid text
unfolding all_chars
IsSolid-chars [] h = tt
IsSolid-chars (c ∷ text) h = (ground arith, IsSolid-chars text (ground arith))

-- A text that has no white space, by its test.
pub IsText-of_chars :
    (c : ℕ) (text : List ℕ) → all_chars solid_char (c ∷ text) ≡ true → IsText (c ∷ text)
IsText-of_chars c text h = IsText-of_solid c text (IsSolid-chars (c ∷ text) h)

-- A key that the linter takes for neither a comment nor a block.
abbrev key_char : ℕ → Bool
key_char c = not (is_whitespace c) && not (c == b'=')

abbrev pub is_key : List ℕ → Bool
is_key [] = false
is_key (c ∷ key) = not (c == b'#') && (not (c == b'[') && all_chars key_char (c ∷ key))

all_chars-All :
    (key : List ℕ) → all_chars key_char key ≡ true → All IsSolid key × All (λ c. c ≢ b'=') key
unfolding all_chars
all_chars-All [] h = (tt, tt)
all_chars-All (c ∷ key) h =
    let (s, e) = all_chars-All key (ground arith) in ((ground arith, s), (λ q. ground arith, e))

-- A line with its key, without the white space around it.
trim-entry_line :
    (c : ℕ) (key value : List ℕ)
    → All IsSolid (c ∷ key)
    → IsValue value
    → (rest : List ℕ) × (trim (entry_line (c ∷ key) value) ≡ (c ∷ key) ++ 32 ∷ b'=' ∷ rest)
      × (trim rest ≡ value)
unfolding trim_start is_whitespace
trim-entry_line c key [] (s, h) v = (
  [],
  rw (s, trim_start)
      (ap trim_end (sym (append_assoc (c ∷ key) (32 ∷ b'=' ∷ []) (32 ∷ [])))
        ∙ (trim_end-append_space ((c ∷ key) ++ 32 ∷ b'=' ∷ []) (32 ∷ []) (refl, tt)
            ∙ (ap trim_end (sym (append_assoc (c ∷ key) (32 ∷ []) (b'=' ∷ [])))
                ∙ (trim_end-append ((c ∷ key) ++ 32 ∷ []) b'=' [] (unfold trim_end in refl)
                    ∙ append_assoc (c ∷ key) (32 ∷ []) (b'=' ∷ []))))),
  unfold trim_end in refl,
)
trim-entry_line c key (d ∷ value) (s, h) (w, e, o) = (
  32 ∷ d ∷ value,
  rw (s, trim_start)
      (ap trim_end (sym (append_assoc (c ∷ key) (codes " = ") (d ∷ value)))
        ∙ (trim_end-append ((c ∷ key) ++ codes " = ") d value e
            ∙ append_assoc (c ∷ key) (codes " = ") (d ∷ value))),
  (rw (w, trim_start) e),
)

-- A line that begins with a key is no comment, and no block.
front_lem :
    (c : ℕ) (text : List ℕ)
    → (c == b'#') ≡ false
    → (c == b'[') ≡ false
    → (list_eq (c ∷ text) (codes "[function]") ≡ false)
front_lem c text h k = rw k refl

-- A line with a key is read as the key and the value.
pub lint_line-entry :
    (number : ℕ) (key value : List ℕ) (s : LintState)
    → is_key key ≡ true
    → IsValue value
    → lint_line number (entry_line key value) s ≡ lint_entry number key value s.pending s
unfolding lint_line split_key_value trim_start
lint_line-entry number [] value s h v = cc
lint_line-entry number (c ∷ key) value s h v =
    let hash : (c == b'#') ≡ false = ground arith in
    let bracket : (c == b'[') ≡ false = ground arith in
    let (solid, apart) = all_chars-All (c ∷ key) (ground arith) in
    let (rest, line, back) = trim-entry_line c key value solid v in
    let split : split_once b'=' ((c ∷ key) ++ 32 ∷ b'=' ∷ rest)
        ≡ some ((c ∷ key) ++ 32 ∷ [], rest) =
      ap (split_once b'=') (sym (append_assoc (c ∷ key) (32 ∷ []) (b'=' ∷ rest)))
      ∙ split_once-append b'=' ((c ∷ key) ++ 32 ∷ []) rest
          (All-append (λ d. d ≢ b'=') (c ∷ key) (32 ∷ []) apart (λ e. ground arith, tt)) in
    let key_back : trim ((c ∷ key) ++ 32 ∷ []) ≡ c ∷ key =
      rw (solid.0, trim_start)
        (trim_end-append_space (c ∷ key) (32 ∷ []) (unfold is_whitespace in refl, tt)
          ∙ trim_end_solid (c ∷ key) solid) in
    rw (line, hash, bracket) (rw (split, split_key_value) (rw (key_back, back) refl))

entry_line_one :
    (key value : List ℕ) → All IsSolid key → IsValue value → IsOneLine (entry_line key value)
entry_line_one key value solid v =
    let (feed, return) = solid_line key solid in
    let (feed', return') = value_line value v in
    (
      All-append (λ c. c ≢ 10) key (codes " = " ++ value) feed
          (λ e. ground arith, (λ e. ground arith, (λ e. ground arith, feed'))),
      All-append (λ c. c ≢ 13) key (codes " = " ++ value) return
          (λ e. ground arith, (λ e. ground arith, (λ e. ground arith, return'))),
    )
  where
    value_line : (value : List ℕ) → IsValue value → IsOneLine value
    value_line [] v = (tt, tt)
    value_line (c ∷ value) (w, e, o) = o

-- The lines of a text that begins with one: the linter goes on behind it.
pub lint_lines-entry :
    (number : ℕ) (key value rest : List ℕ) (s : LintState)
    → is_key key ≡ true
    → IsValue value
    → lint_lines number (lines (entry_line key value ++ 10 ∷ rest)) s
      ≡ lint_lines (suc number) (lines rest) (lint_entry number key value s.pending s)
unfolding lint_lines
lint_lines-entry number [] value rest s h v = cc
lint_lines-entry number (c ∷ key) value rest s h v =
    let solid = (all_chars-All (c ∷ key) (ground arith)).0 in
    let (feed, return) = entry_line_one (c ∷ key) value solid v in
    ap (λ l. lint_lines number l s) (lines-append (entry_line (c ∷ key) value) rest feed return)
    ∙ ap (lint_lines (suc number) (lines rest)) (lint_line-entry number (c ∷ key) value s h v)
