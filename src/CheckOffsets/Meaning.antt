-- ===== src/CheckOffsets/Meaning.antt =====
-- What each verdict says of the binary.
use pulse_sdk.Prelude.{
  ℕ, ◌<◌, ◌≡◌, ◌≢◌, ◌↔◌, Option-cases, Result-cases, refl, sym, ◌∙◌, inl, inr, true, false,
  Bool-cases, some, List, [], ◌∷◌, length, contains, ◌==◌, ok, arith, IsIncreasing,
}
use mathlib.Core.Path.{subst}
use pulse_sdk.Siggen.Signature
use pulse_sdk.Siggen.Signature.{ByteSignature}
use pulse_sdk.Siggen.Scan.{scan_all}
use pulse_sdk.Siggen.Scan.Exact.{Occurs, scan_all_iff, scan_all-IsIncreasing, scan_all_unique_iff}
use pulse_sdk.Siggen.Generate.Verified.{IsVerified}
use pulse_sdk.CheckOffsets.{
  parse_offset, OffsetDeclaration, ambiguous, Verdict, valid, invalid, shifted, undeterminable,
  delta_of, verdict_of, classify_signature, classify,
}

-- What a verdict on a declared offset and a signature states of the binary.
abbrev pub Holds : List ℕ → ℕ → ByteSignature → Verdict → Type 0
Holds binary declared sig valid = Occurs binary sig declared
Holds binary declared sig invalid = (p : ℕ) → ¬ Occurs binary sig p
Holds binary declared sig (shifted detected delta) =
    (detected ≢ declared) × IsVerified binary detected sig × (delta ≡ delta_of detected declared)
Holds binary declared sig (undeterminable r) =
    (p : ℕ) × (q : ℕ) × (p < q)
    × (p ≢ declared)
    × (q ≢ declared)
    × Occurs binary sig p
    × Occurs binary sig q
    × (¬ Occurs binary sig declared)

module _ (binary : List ℕ) (declared : ℕ) (sig : ByteSignature) where
  -- A position among the matches is one at which the signature occurs, and any other is not.
  Occurs-of_match :
      (matches : List ℕ) (p : ℕ)
      → scan_all binary sig ≡ matches
      → contains matches p ≡ true
      → Occurs binary sig p
  Occurs-of_match matches p e h = (scan_all_iff binary sig p).0 (rw e h)

  absent_of_no_match :
      (matches : List ℕ) (p : ℕ)
      → scan_all binary sig ≡ matches
      → contains matches p ≡ false
      → ¬ Occurs binary sig p
  absent_of_no_match matches p e h r =
      let found = (scan_all_iff binary sig p).1 r in
      let found' : contains matches p ≡ true = rw e at found in cc

  two_matches :
      (first second : ℕ) (rest : List ℕ)
      → scan_all binary sig ≡ first ∷ second ∷ rest
      → contains (first ∷ second ∷ rest) declared ≡ false
      → Holds binary declared sig (undeterminable (ambiguous (length (first ∷ second ∷ rest))))
  two_matches first second rest e not_here =
      let increasing = scan_all-IsIncreasing binary sig in
      let increasing' : IsIncreasing 0 (first ∷ second ∷ rest) = rw e at increasing in
      (
        first,
        second,
        increasing'.1.0,
        ground arith,
        ground arith,
        Occurs-of_match (first ∷ second ∷ rest) first e (ground arith),
        Occurs-of_match (first ∷ second ∷ rest) second e (ground arith),
        absent_of_no_match (first ∷ second ∷ rest) declared e not_here,
      )

  verdict_of-Holds :
      (matches : List ℕ)
      → scan_all binary sig ≡ matches
      → Holds binary declared sig (verdict_of matches declared)
  unfolding verdict_of
  verdict_of-Holds [] e = λ p. absent_of_no_match [] p e refl
  verdict_of-Holds (first ∷ []) e = elim (Bool-cases (contains (first ∷ []) declared)) [
    | inl here ↦ rw here (Occurs-of_match (first ∷ []) declared e here)
    | inr not_here ↦
        let (occurs, unique) = (scan_all_unique_iff binary sig first).0 e in
        rw not_here (ground arith, record { occurs = occurs; unique = unique }, refl)
  ]
  verdict_of-Holds (first ∷ second ∷ rest) e =
      elim (Bool-cases (contains (first ∷ second ∷ rest) declared)) [
        | inl here ↦ rw here (Occurs-of_match (first ∷ second ∷ rest) declared e here)
        | inr not_here ↦
            let many : (length (first ∷ second ∷ rest) == 1) ≡ false = ground arith in
            rw (not_here, many) (two_matches first second rest e not_here)
      ]

classify_readable :
    (binary : List ℕ) (decl : OffsetDeclaration) (declared : ℕ) (text : List ℕ)
    (sig : ByteSignature)
    → parse_offset decl.offset ≡ some declared
    → decl.signature ≡ some text
    → Signature.parse text ≡ ok sig
    → 0 < length sig.bytes
    → (classify binary decl).verdict ≡ verdict_of (scan_all binary sig) declared
unfolding classify
classify_readable binary decl declared text sig o t p ne = ground arith

-- A declaration whose offset is readable and whose signature is readable and not empty gets a
-- verdict that the binary bears out. Valid: the signature occurs at the declared offset. Shifted:
-- it occurs at the detected position only, which is not the declared one. Invalid: it occurs
-- nowhere. Undeterminable: it occurs at two places at least, and not at the declared one.
pub classify-Holds :
    (binary : List ℕ) (decl : OffsetDeclaration) (declared : ℕ) (text : List ℕ)
    (sig : ByteSignature)
    → parse_offset decl.offset ≡ some declared
    → decl.signature ≡ some text
    → Signature.parse text ≡ ok sig
    → 0 < length sig.bytes
    → Holds binary declared sig (classify binary decl).verdict
classify-Holds binary decl declared text sig o t p ne =
    let e = classify_readable binary decl declared text sig o t p ne in
    subst (Holds binary declared sig) (sym e)
      (verdict_of-Holds binary declared sig (scan_all binary sig) refl)

-- What a valid verdict needs: all that it rests on can be read, and the signature occurs there.
pub record IsConfirmed (binary : List ℕ) (decl : OffsetDeclaration) : Type 0 where
  pub declared : ℕ
  pub text : List ℕ
  pub sig : ByteSignature
  pub reads_offset : parse_offset decl.offset ≡ some declared
  pub has_signature : decl.signature ≡ some text
  pub reads_signature : Signature.parse text ≡ ok sig
  pub occurs : Occurs binary sig declared

verdict_of-valid :
    (matches : List ℕ) (declared : ℕ)
    → verdict_of matches declared ≡ valid
    → contains matches declared ≡ true
unfolding verdict_of
verdict_of-valid [] declared h = cc
verdict_of-valid (first ∷ rest) declared h = ground arith

verdict_of-of_contains :
    (matches : List ℕ) (declared : ℕ)
    → contains matches declared ≡ true
    → verdict_of matches declared ≡ valid
unfolding verdict_of
verdict_of-of_contains [] declared h = cc
verdict_of-of_contains (first ∷ rest) declared h = rw h

IsConfirmed-signature :
    (binary : List ℕ) (decl : OffsetDeclaration) (declared : ℕ) (text : List ℕ)
    → parse_offset decl.offset ≡ some declared
    → decl.signature ≡ some text
    → classify_signature binary declared text ≡ valid
    → IsConfirmed binary decl
unfolding classify_signature
IsConfirmed-signature binary decl declared text o t h = elim (Result-cases (Signature.parse text)) [
  | inl (sig, p) ↦
      let m : verdict_of (scan_all binary sig) declared ≡ valid = ground arith in
      record {
        declared = declared;
        text = text;
        sig = sig;
        reads_offset = o;
        has_signature = t;
        reads_signature = p;
        occurs =
            (scan_all_iff binary sig declared).0
              (verdict_of-valid (scan_all binary sig) declared m);
      }
  | inr (e, p) ↦ absurd (ground arith)
]

-- A declaration is called valid exactly if its offset and its signature can be read and the
-- signature occurs at the offset.
pub classify_valid_iff :
    (binary : List ℕ) (decl : OffsetDeclaration)
    → ((classify binary decl).verdict ≡ valid) ↔ IsConfirmed binary decl
unfolding classify
classify_valid_iff binary decl = (
  λ h. elim (Option-cases (parse_offset decl.offset)) [
    | inl o ↦ absurd (ground arith)
    | inr (declared, o) ↦ elim (Option-cases decl.signature) [
      | inl t ↦ absurd (ground arith)
      | inr (text, t) ↦ IsConfirmed-signature binary decl declared text o t (ground arith)
    ]
  ],
  λ c.
      classify_readable binary decl c.declared c.text c.sig c.reads_offset c.has_signature
        c.reads_signature c.occurs.nonempty
      ∙ verdict_of-of_contains (scan_all binary c.sig) c.declared
          ((scan_all_iff binary c.sig c.declared).1 c.occurs),
)
