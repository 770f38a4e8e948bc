-- ===== src/Extract/Provenance/Emission/Gate.antt =====
-- What the gate lets through.
use pulse_sdk.Prelude.{
  ℕ, ◌≡◌, ◌≢◌, ◌↔◌, refl, sym, ap, ◌∙◌, Bool, true, false, Option, none, some, List, arith,
}
use pulse_sdk.Bindings.{sentinel_value, SymbolId, TargetPair}
use pulse_sdk.Extract.{Architecture}
use pulse_sdk.Extract.Prologue.{
  Disassembler, PrologueOutcome, plausible_entry, verified_flag, check_prologue,
  read_prologue_window, max_len_of,
}
use pulse_sdk.Extract.Prologue.Plausible.{IsEntry, check_prologue-plausible_iff}
use pulse_sdk.Extract.Provenance.{ProvenanceTier, Derivation}
use pulse_sdk.Extract.Provenance.Emission.{
  BinaryIdentity, GeodeConcordance, new_provenance, emit_offset,
}

-- For an offset other than zero and the sentinel the flag is the outcome.
verified_flag_iff :
    (offset : ℕ) (outcome : PrologueOutcome)
    → (verified_flag offset outcome ≡ true)
      ↔ ((outcome ≡ plausible_entry) × (offset ≢ 0) × (offset ≢ sentinel_value))
unfolding verified_flag
verified_flag_iff offset plausible_entry = ground arith
verified_flag_iff offset (PrologueOutcome.not_plausible reason) = ground arith
verified_flag_iff offset (PrologueOutcome.skipped reason) = ground arith

-- With a documented outcome the flag is the one that is requested.
emit_offset-documented :
    (symbol : SymbolId) (pair : TargetPair) (offset : ℕ) (requested : Bool) (tier : ProvenanceTier)
    (derivation : Derivation) (identities : List BinaryIdentity) (outcome : PrologueOutcome)
    (concordance : Option GeodeConcordance)
    → (emit_offset symbol pair offset requested
        (new_provenance tier derivation identities (some outcome) concordance)).0.verified
      ≡ requested
unfolding emit_offset
emit_offset-documented symbol pair offset true tier derivation identities outcome concordance = refl
emit_offset-documented symbol pair offset false tier derivation identities outcome concordance =
    refl

some_injective : {A : Type 0} {a b : A} → some a ≡ some b → a ≡ b
some_injective h = cc

-- An offset whose prologue was checked is emitted as it is and without an error, and as verified
-- exactly if code that a function may begin with can be read there. Without a documented outcome no
-- offset is emitted as verified, whatever is requested.
pub emit_offset-verified_iff :
    (d : Disassembler) (bytes : List ℕ) (offset : ℕ) (arch : Architecture)
    (outcome : PrologueOutcome) (symbol : SymbolId) (pair : TargetPair) (tier : ProvenanceTier)
    (derivation : Derivation) (identities : List BinaryIdentity)
    (concordance : Option GeodeConcordance)
    → check_prologue d bytes offset arch ≡ some outcome
    → let provenance = new_provenance tier derivation identities (some outcome) concordance in
      let emitted = emit_offset symbol pair offset (verified_flag offset outcome) provenance in
      (emitted.1 ≡ none)
      × (emitted.0.offset ≡ offset)
      × ((emitted.0.verified ≡ true) ↔ (
          (offset ≢ 0)
          × (offset ≢ sentinel_value)
          × (window : List ℕ) × (read_prologue_window d bytes offset 16 (max_len_of d arch)
              ≡ some window)
          × IsEntry d arch window))
      × ((requested : Bool)
          → (emit_offset symbol pair offset requested
              (new_provenance tier derivation identities none concordance)).0.verified
            ≡ false)
unfolding emit_offset
emit_offset-verified_iff d bytes offset arch outcome symbol pair tier derivation identities
      concordance checked =
    let (_, (to, from), _) = check_prologue-plausible_iff d bytes offset arch in
    let flag =
      emit_offset-documented symbol pair offset (verified_flag offset outcome) tier derivation
        identities outcome concordance in
    let (flag_to, flag_from) = verified_flag_iff offset outcome in
    (
      ground (arith),
      ground arith,
      (
        λ h. to (checked ∙ ap some (flag_to (sym flag ∙ h)).0),
        λ h.
            let found : outcome ≡ plausible_entry = some_injective (sym checked ∙ from h) in
            flag ∙ flag_from (found, h.0, h.1),
      ),
      λ requested. ground arith,
    )
