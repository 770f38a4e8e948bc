-- ===== src/Bindings/Validation.antt =====
-- cli/src/bindings/validation.rs: the check of a set before it is distributed.
pub mod Emitted
pub mod Sound
use pulse_sdk.Prelude.{
  ℕ, Bool, true, false, not, ◌&&◌, ◌||◌, List, [], ◌∷◌, map, Result, ok, err, ◌>>=◌, ◌==◌,
  if◌then◌else◌,
}
use pulse_sdk.Bindings.{Signature, SymbolId, TargetPair, sentinel_value}

pub record PbindFunction : Type 0 where
  pub symbol : SymbolId
  pub offset : ℕ
  pub signature : Signature
  pub verified : Bool

pub record PbindSet : Type 0 where
  pub pair : TargetPair
  pub functions : List PbindFunction

pub data Resolvable : Type 0 where
  resolvable unresolvable : Resolvable

pub record ValidationReport : Type 0 where
  pub states : List (SymbolId × Resolvable)

pub data ValidationError : Type 0 where
  inconsistent_verified prologue_mismatch : SymbolId → TargetPair → ValidationError

abbrev pub is_unresolved : ℕ → Bool
is_unresolved offset = offset == 0 || offset == sentinel_value

abbrev pub is_resolvable : PbindFunction → Bool
is_resolvable f = f.verified && (not (f.offset == 0) && not (f.offset == sentinel_value))

-- The first loop of `validate_set`.
unfoldable pub check_consistency :
    TargetPair → List PbindFunction → Result ValidationError (Unit {0})
check_consistency pair [] = ok tt
check_consistency pair (f ∷ functions) =
    let rest = check_consistency pair functions in
    if f.verified && is_unresolved f.offset then err (inconsistent_verified f.symbol pair) else rest

abbrev state_of : PbindFunction → SymbolId × Resolvable
state_of f = (f.symbol, if is_resolvable f then resolvable else unresolvable)

unfoldable pub states_of : List PbindFunction → List (SymbolId × Resolvable)
states_of [] = []
states_of (f ∷ functions) = state_of f ∷ states_of functions

unfoldable pub validate_set : PbindSet → Result ValidationError ValidationReport
unfolding check_consistency states_of
validate_set parsed = check_consistency parsed.pair parsed.functions >>= λ _.
    ok (record { states = states_of parsed.functions })

-- The loop of `validate_set_with_prologue_check`.
unfoldable pub check_prologues :
    (PbindFunction → Bool) → TargetPair → List PbindFunction → Result ValidationError (Unit {0})
check_prologues prologue_ok pair [] = ok tt
check_prologues prologue_ok pair (f ∷ functions) =
    let rest = check_prologues prologue_ok pair functions in
    if f.verified && not (prologue_ok f) then err (prologue_mismatch f.symbol pair) else rest

unfoldable pub validate_set_with_prologue_check :
    PbindSet → (PbindFunction → Bool) → Result ValidationError ValidationReport
unfolding validate_set check_prologues
validate_set_with_prologue_check parsed prologue_ok = validate_set parsed >>= λ report.
    check_prologues prologue_ok parsed.pair parsed.functions >>= λ _. ok report
