-- ===== src/Bindings/Prologue/Accepted.antt =====
-- When the prologue of an entry is accepted.
use pulse_sdk.Prelude.{
  ℕ, ◌≤◌, ◌≡◌, refl, sym, ap, ◌∙◌, true, false, Option, none, some, List, ok, ok-injective, length,
  take, list_eq, ◌==◌, arith, Bool-cases, inl, inr, ◌↔◌,
}
use pulse_sdk.Bindings.{TargetPair, sentinel_value}
use pulse_sdk.Bindings.Catalog.{CatalogEntry}
use pulse_sdk.Bindings.Prologue.{
  PrologueMethod, PrologueVerification, PrologueOutcome, matching, mismatch, unreadable,
  expected_prologue_bytes, verify_prologue, rva_for, conclude_prologue, evaluate_prologue,
  begins_with, should_verify,
}

-- The bytes could be read and begin with the expected ones.
abbrev pub Begins : List ℕ → Option (List ℕ) → Type 0
Begins expected none = true ≡ false
Begins expected (some bytes) =
    (length expected ≤ length bytes) × (list_eq (take (length expected) bytes) expected ≡ true)

verify-matching :
    (entry : CatalogEntry) (pair : TargetPair) (method : PrologueMethod) (bytes : Option (List ℕ))
    → verify_prologue entry pair method bytes ≡ matching
    → Begins (expected_prologue_bytes entry.signature) bytes
unfolding verify_prologue
verify-matching entry pair method none e = cc
verify-matching entry pair method (some bytes) e =
    let expected = expected_prologue_bytes entry.signature in
    elim (Bool-cases (begins_with bytes expected)) [
      | inl b ↦ (ground (arith, b), ground (arith, b))
      | inr b ↦ absurd (ground (arith, b, e))
    ]

verify-Begins :
    (entry : CatalogEntry) (pair : TargetPair) (method : PrologueMethod) (bytes : Option (List ℕ))
    → Begins (expected_prologue_bytes entry.signature) bytes
    → verify_prologue entry pair method bytes ≡ matching
unfolding verify_prologue
verify-Begins entry pair method none h = cc
verify-Begins entry pair method (some bytes) (l, h) =
    let b : begins_with bytes (expected_prologue_bytes entry.signature) ≡ true = ground arith in
    rw b refl

abbrev pub accepted : PrologueMethod → PrologueVerification
accepted method = record { outcome = matching; method = method; verified = true }

conclude_lem :
    (entry : CatalogEntry) (pair : TargetPair) (method : PrologueMethod) (rva : ℕ)
    (outcome : PrologueOutcome) (v : PrologueVerification)
    → (rva == 0) ≡ false
    → (rva == sentinel_value) ≡ false
    → conclude_prologue entry pair method rva outcome ≡ ok v
    → (outcome ≡ matching) × (accepted method ≡ v)
conclude_lem entry pair method rva unreadable v h k e = cc
conclude_lem entry pair method rva mismatch v h k e = cc
conclude_lem entry pair method rva matching v h k e =
    let t : should_verify matching rva ≡ true = ground arith in
    (
      refl,
      ap (λ b. record { outcome = matching; method = method; verified = b }) (sym t)
          ∙ ok-injective e,
    )

evaluate-step :
    (entry : CatalogEntry) (pair : TargetPair) (method : PrologueMethod) (bytes : Option (List ℕ))
    → (rva_for entry pair == 0) ≡ false
    → (rva_for entry pair == sentinel_value) ≡ false
    → evaluate_prologue entry pair method bytes
      ≡ conclude_prologue entry pair method
          (rva_for entry pair)
          (verify_prologue entry pair method bytes)
unfolding evaluate_prologue
evaluate-step entry pair method bytes h k = rw h (rw k refl)

-- A prologue is accepted exactly if the address of the pair is neither zero nor the sentinel and the
-- bytes could be read and begin with those of the signature; what is accepted is marked as verified,
-- by the method that was asked for.
pub evaluate_prologue_iff :
    (entry : CatalogEntry) (pair : TargetPair) (method : PrologueMethod) (bytes : Option (List ℕ))
    (v : PrologueVerification)
    → (evaluate_prologue entry pair method bytes ≡ ok v) ↔ (
        ((rva_for entry pair == 0) ≡ false)
        × ((rva_for entry pair == sentinel_value) ≡ false)
        × Begins (expected_prologue_bytes entry.signature) bytes
        × (accepted method ≡ v))
evaluate_prologue_iff entry pair method bytes v = (
  λ e. elim (Bool-cases (rva_for entry pair == 0)) [
    | inl h ↦ absurd (unfold evaluate_prologue in ground (arith, h, e))
    | inr h ↦ elim (Bool-cases (rva_for entry pair == sentinel_value)) [
      | inl k ↦ absurd (unfold evaluate_prologue in ground (arith, h, k, e))
      | inr k ↦
          let (m, same) =
            conclude_lem entry pair method (rva_for entry pair)
              (verify_prologue entry pair method bytes) v h k
              (sym (evaluate-step entry pair method bytes h k) ∙ e) in
          (h, k, verify-matching entry pair method bytes m, same)
    ]
  ],
  λ (h, k, b, same).
      let t : should_verify matching (rva_for entry pair) ≡ true = ground arith in
      evaluate-step entry pair method bytes h k
      ∙ (ap (conclude_prologue entry pair method (rva_for entry pair))
            (verify-Begins entry pair method bytes b)
          ∙ rw t (ap ok same)),
)
