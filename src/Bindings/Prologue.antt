-- ===== src/Bindings/Prologue.antt =====
-- cli/src/bindings/prologue.rs: the bytes at an offset compared with the signature of the entry.
pub mod Accepted
use pulse_sdk.Prelude.{
  ℕ, Bool, true, false, not, ◌&&◌, Option, none, some, List, [], ◌∷◌, ◌++◌, Result, ok, err, length,
  take, list_eq, ltb, leb, ◌==◌, if◌then◌else◌,
}
use pulse_sdk.Prelude.Text.{codes, utf8}
use pulse_sdk.Bindings.{Signature, SymbolId, TargetPair, sentinel_value}
use pulse_sdk.Bindings.Catalog.{OffsetRecord, CatalogEntry, effective_rva}
use pulse_sdk.Bindings.Generator.{find_offset, join_texts}

pub data PrologueMethod : Type 0 where
  otool_manual automatic_bytes : PrologueMethod

-- `PrologueMethod::as_str`
unfoldable pub method_text : PrologueMethod → List ℕ
method_text otool_manual = codes "otool-manual"
method_text automatic_bytes = codes "automatic-bytes"

pub data PrologueOutcome : Type 0 where
  matching mismatch unreadable : PrologueOutcome

-- `PrologueOutcome::as_str`
unfoldable pub outcome_text : PrologueOutcome → List ℕ
outcome_text matching = codes "match"
outcome_text mismatch = codes "mismatch"
outcome_text unreadable = codes "unreadable"

pub data PrologueCondition : Type 0 where
  offset_zero offset_sentinel unreadable_bytes : PrologueCondition

-- The cause of a mismatch names the canonical signature and its length.
pub data PrologueError : Type 0 where
  prologue_differs : SymbolId → TargetPair → List ℕ → ℕ → PrologueError
  condition : SymbolId → TargetPair → PrologueCondition → PrologueError

pub record PrologueVerification : Type 0 where
  pub outcome : PrologueOutcome
  pub method : PrologueMethod
  pub verified : Bool

unfoldable pub canonical_signature : Signature → List ℕ
unfolding join_texts
canonical_signature signature =
    signature.return_type ++ (b'(' ∷ (join_texts (codes ",") signature.param_types ++ b')' ∷ []))

abbrev pub expected_prologue_bytes : Signature → List ℕ
expected_prologue_bytes signature = utf8 (canonical_signature signature)

abbrev pub signature_byte_length : Signature → ℕ
signature_byte_length signature = length (expected_prologue_bytes signature)

abbrev pub begins_with : List ℕ → List ℕ → Bool
begins_with candidate expected =
    leb (length expected) (length candidate) && list_eq (take (length expected) candidate) expected

unfoldable pub verify_prologue :
    CatalogEntry → TargetPair → PrologueMethod → Option (List ℕ) → PrologueOutcome
unfolding canonical_signature
verify_prologue entry pair method none = unreadable
verify_prologue entry pair method (some candidate) =
    if begins_with candidate (expected_prologue_bytes entry.signature) then matching else mismatch

abbrev pub should_verify : PrologueOutcome → ℕ → Bool
should_verify matching rva = ltb 0 rva && not (rva == sentinel_value)
should_verify mismatch rva = false
should_verify unreadable rva = false

abbrev rva_of_found : Option OffsetRecord → ℕ
rva_of_found none = sentinel_value
rva_of_found (some offset) = effective_rva offset

-- The address of the entry for the pair, or the sentinel.
unfoldable pub rva_for : CatalogEntry → TargetPair → ℕ
unfolding find_offset
rva_for entry pair = rva_of_found (find_offset pair entry.offsets)

abbrev pub conclude_prologue :
    CatalogEntry
    → TargetPair
    → PrologueMethod
    → ℕ
    → PrologueOutcome
    → Result PrologueError PrologueVerification
conclude_prologue entry pair method rva unreadable =
    err (condition entry.symbol pair unreadable_bytes)
conclude_prologue entry pair method rva mismatch = err (
    prologue_differs entry.symbol pair (canonical_signature entry.signature)
      (signature_byte_length entry.signature))
conclude_prologue entry pair method rva matching =
    ok (record { outcome = matching; method = method; verified = should_verify matching rva })

unfoldable pub evaluate_prologue :
    CatalogEntry
    → TargetPair
    → PrologueMethod
    → Option (List ℕ)
    → Result PrologueError PrologueVerification
unfolding rva_for verify_prologue
evaluate_prologue entry pair method prologue_bytes =
    let rva = rva_for entry pair in
    if rva == 0
    then err (condition entry.symbol pair offset_zero)
    else if rva == sentinel_value
    then err (condition entry.symbol pair offset_sentinel)
    else conclude_prologue entry pair method rva (verify_prologue entry pair method prologue_bytes)
