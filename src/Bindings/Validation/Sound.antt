-- ===== src/Bindings/Validation/Sound.antt =====
-- What a set that passes the validation is, and what its report says.
use pulse_sdk.Prelude.{
  ◌≡◌, refl, sym, ap, ◌∙◌, Bool, true, false, List, [], ◌∷◌, Result, ok, err, ◌>>=◌, >>=-eq-ok,
  if◌then◌else◌, arith, Bool-cases, inl, inr, ◌↔◌, All,
}
use pulse_sdk.Bindings.{SymbolId, TargetPair}
use pulse_sdk.Bindings.Validation.{
  PbindFunction, PbindSet, Resolvable, resolvable, unresolvable, ValidationReport, ValidationError,
  check_consistency, states_of, validate_set, check_prologues, validate_set_with_prologue_check,
  is_unresolved,
}

-- A function that claims to be verified has an offset that can be resolved and the prologue of its
-- signature.
abbrev pub IsSound : (PbindFunction → Bool) → PbindFunction → Type 0
IsSound prologue_ok f =
    f.verified ≡ true → (is_unresolved f.offset ≡ false) × (prologue_ok f ≡ true)

abbrev claimed : PbindFunction → SymbolId × Resolvable
claimed f = (f.symbol, if f.verified then resolvable else unresolvable)

-- The states that the functions claim.
abbrev pub claimed_all : List PbindFunction → List (SymbolId × Resolvable)
claimed_all [] = []
claimed_all (f ∷ functions) = claimed f ∷ claimed_all functions

abbrev states_in : Result ValidationError ValidationReport → List (SymbolId × Resolvable)
states_in (err e) = []
states_in (ok report) = report.states

module _ (prologue_ok : PbindFunction → Bool) (pair : TargetPair) where
  sound-passes :
      (functions : List PbindFunction)
      → All (IsSound prologue_ok) functions
      → (check_consistency pair functions ≡ ok tt)
        × (check_prologues prologue_ok pair functions ≡ ok tt)
        × (states_of functions ≡ claimed_all functions)
  unfolding check_consistency check_prologues states_of
  sound-passes [] h = (refl, refl, refl)
  sound-passes (f ∷ functions) (s, h) =
      let (a, b, c) = sound-passes functions h in
      elim (Bool-cases f.verified) [
        | inl e ↦ let (r, p) = s e in (ground (arith, a), ground (arith, b), ground (arith, c))
        | inr e ↦ (ground (arith, a), ground (arith, b), ground (arith, c))
      ]

  passes-IsSound :
      (functions : List PbindFunction)
      → check_consistency pair functions ≡ ok tt
      → check_prologues prologue_ok pair functions ≡ ok tt
      → All (IsSound prologue_ok) functions
  unfolding check_consistency check_prologues
  passes-IsSound [] h k = tt
  passes-IsSound (f ∷ functions) h k =
      (λ e. (ground arith, ground arith), passes-IsSound functions (ground arith) (ground arith))

-- A set passes the validation with the check of prologues exactly if each of its functions that
-- claims to be verified has an offset that is neither zero nor the sentinel and a prologue that
-- passes, and the report then calls resolvable exactly the functions that claim to be verified.
pub validate_set_iff :
    (parsed : PbindSet) (prologue_ok : PbindFunction → Bool) (report : ValidationReport)
    → (validate_set_with_prologue_check parsed prologue_ok ≡ ok report) ↔ (
        All (IsSound prologue_ok) parsed.functions × (claimed_all parsed.functions ≡ report.states))
unfolding validate_set_with_prologue_check validate_set
validate_set_iff parsed prologue_ok report = (
  λ e.
      let (first, checked, e') =
        >>=-eq-ok (validate_set parsed)
          (λ r. check_prologues prologue_ok parsed.pair parsed.functions >>= λ _. ok r) e in
      let (u, consistent, e1) =
        >>=-eq-ok (check_consistency parsed.pair parsed.functions)
          (λ _. ok (record { states = states_of parsed.functions })) checked in
      let (v, passed, e2) =
        >>=-eq-ok (check_prologues prologue_ok parsed.pair parsed.functions) (λ _. ok first) e' in
      let sound = passes-IsSound prologue_ok parsed.pair parsed.functions consistent passed in
      let same = (sound-passes prologue_ok parsed.pair parsed.functions sound).2 in
      (sound, sym same ∙ ap states_in (e1 ∙ e2)),
  λ (sound, states).
      let (a, b, c) = sound-passes prologue_ok parsed.pair parsed.functions sound in
      rw (a, b) (ap (λ l. ok (record { states = l })) (c ∙ states)),
)
