-- ===== src/Installer/Load/Fields.antt =====
-- The lines of a restore record and their fields: what is joined by tabs and ended by line feeds is
-- read back.
use pulse_sdk.Prelude.{
  ℕ, ◌≡◌, ◌≢◌, refl, sym, ap, ◌∙◌, List, [], ◌∷◌, ◌++◌, map, append_assoc, All, All-map, inl,
  All-append, arith,
}
use pulse_sdk.Prelude.Lines.{lines, split_on, split_on-append, split_on_piece, lines-append}
use pulse_sdk.Prelude.Utf8.{IsScalar, IsScalarText}
use pulse_sdk.Installer.Backup.{tab, newline}
use pulse_sdk.Installer.Backup.Fields.{IsFieldChar}

-- A line of fields.
abbrev pub fields_line : List (List ℕ) → List ℕ
fields_line [] = []
fields_line (field ∷ []) = field
fields_line (field ∷ field' ∷ fields) = field ++ 9 ∷ fields_line (field' ∷ fields)

-- The same with its end, as it is written.
abbrev pub fields_newline : List (List ℕ) → List ℕ
fields_newline [] = newline
fields_newline (field ∷ []) = field ++ newline
fields_newline (field ∷ field' ∷ fields) = field ++ (tab ++ fields_newline (field' ∷ fields))

abbrev pub record_text : List (List (List ℕ)) → List ℕ
record_text [] = []
record_text (fields ∷ rest) = fields_newline fields ++ record_text rest

abbrev pub IsField : List ℕ → Type 0
IsField field = All IsFieldChar field

no_separator : (text : List ℕ) → IsField text → All (λ c. c ≢ 9) text
no_separator text h = All-map IsFieldChar (λ c. c ≢ 9) text (λ c k. k.0) h

-- A line of fields splits into them.
pub split_on-fields_line :
    (field : List ℕ) (fields : List (List ℕ))
    → All IsField (field ∷ fields)
    → split_on 9 (fields_line (field ∷ fields)) ≡ field ∷ fields
split_on-fields_line field [] (h, k) = split_on_piece 9 field (no_separator field h)
split_on-fields_line field (field' ∷ fields) (h, k) =
    split_on-append 9 field (fields_line (field' ∷ fields)) (no_separator field h)
    ∙ ap (λ rest. field ∷ rest) (split_on-fields_line field' fields k)

-- A property of all characters of the fields, and of the tab, is one of the line.
fields_line-All :
    (P : ℕ → Type 0) (fields : List (List ℕ))
    → P 9
    → All (All P) fields
    → All P (fields_line fields)
fields_line-All P [] t h = tt
fields_line-All P (field ∷ []) t (h, k) = h
fields_line-All P (field ∷ field' ∷ fields) t (h, k) =
    All-append P field (9 ∷ fields_line (field' ∷ fields)) h
      (t, fields_line-All P (field' ∷ fields) t k)

fields_newline_lem :
    (fields : List (List ℕ)) (rest : List ℕ)
    → fields_newline fields ++ rest ≡ fields_line fields ++ 10 ∷ rest
fields_newline_lem [] rest = refl
fields_newline_lem (field ∷ []) rest = append_assoc field newline rest
fields_newline_lem (field ∷ field' ∷ fields) rest =
    append_assoc field (tab ++ fields_newline (field' ∷ fields)) rest
    ∙ (ap (λ t. field ++ 9 ∷ t) (fields_newline_lem (field' ∷ fields) rest)
        ∙ sym (append_assoc field (9 ∷ fields_line (field' ∷ fields)) (10 ∷ rest)))

-- The lines of a record are read back.
pub lines-record_text :
    (record_lines : List (List (List ℕ)))
    → All (All IsField) record_lines
    → lines (record_text record_lines) ≡ map fields_line record_lines
lines-record_text [] h = unfold lines in refl
lines-record_text (fields ∷ rest) (h, k) =
    ap lines (fields_newline_lem fields (record_text rest))
    ∙ (lines-append (fields_line fields) (record_text rest)
          (fields_line-All (λ c. c ≢ 10) fields (omega arith) (each (λ c. c ≢ 10) (λ c f. f.1)))
          (fields_line-All (λ c. c ≢ 13) fields (omega arith) (each (λ c. c ≢ 13) (λ c f. f.2)))
        ∙ ap (λ t. fields_line fields ∷ t) (lines-record_text rest k))
  where
    each : (P : ℕ → Type 0) → ((c : ℕ) → IsFieldChar c → P c) → All (All P) fields
    each P f = All-map IsField (All P) fields (λ text. All-map IsFieldChar P text f) h

pub record_text-IsScalarText :
    (record_lines : List (List (List ℕ)))
    → All (All IsScalarText) record_lines
    → IsScalarText (record_text record_lines)
record_text-IsScalarText [] h = tt
record_text-IsScalarText (fields ∷ rest) (h, k) =
    rw (fields_newline_lem fields (record_text rest)) (
      All-append IsScalar (fields_line fields) (10 ∷ record_text rest)
        (fields_line-All IsScalar fields (inl (omega arith)) h)
        (inl (omega arith), record_text-IsScalarText rest k))
