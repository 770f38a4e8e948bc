-- ===== src/CheckOffsets/Generated.antt =====
-- What `siggen` generates, `check-offsets` confirms.
use pulse_sdk.Prelude.{
  ℕ, ◌<◌, ◌≡◌, refl, List, [], ◌∷◌, All, some, ok, take, drop, All-take, All-drop,
}
use pulse_sdk.Siggen.Signature
use pulse_sdk.Siggen.Signature.{SigByte, fixed, wildcard, ByteSignature}
use pulse_sdk.Siggen.Signature.RoundTrip.{IsByte, parse-render}
use pulse_sdk.Siggen.Mask.{Decoders}
use pulse_sdk.Siggen.Mask.Agreement.{Masks}
use pulse_sdk.Siggen.Generate.{generate}
use pulse_sdk.Siggen.Generate.Verified.{generate-IsVerified, generate-Masks}
use pulse_sdk.CheckOffsets.{parse_offset, OffsetDeclaration, valid, classify}
use pulse_sdk.CheckOffsets.Meaning.{classify_valid_iff}

Masks-IsByte : (w : List ℕ) (s : List SigByte) → Masks w s → All (λ b. b < 256) w → All IsByte s
Masks-IsByte [] [] h b = tt
Masks-IsByte [] (_ ∷ s) h b = absurd h
Masks-IsByte (y ∷ w) [] h b = absurd h
Masks-IsByte (y ∷ w) (fixed x ∷ s) (e, h) (lt, b) = (rw e lt, Masks-IsByte w s h b)
Masks-IsByte (y ∷ w) (wildcard ∷ s) h (lt, b) = (tt, Masks-IsByte w s h b)

-- A signature that was generated for an offset of a binary, written in a declaration of that offset,
-- is valid against the same binary, whatever the name and the spelling of the offset.
pub classify-generate :
    (d : Decoders) (binary : List ℕ) (offset : ℕ) (sig : ByteSignature) (name text : List ℕ)
    → All (λ b. b < 256) binary
    → generate d binary offset ≡ ok sig
    → parse_offset text ≡ some offset
    → (classify binary
        (record { name = name; offset = text; signature = some (Signature.render sig) })).verdict
      ≡ valid
classify-generate d binary offset sig name text bytes h o =
    let verified = (generate-IsVerified d binary offset h).0 in
    let (window_len, s) = generate-Masks d binary offset sig h in
    let decl : OffsetDeclaration = record {
      name = name;
      offset = text;
      signature = some (Signature.render sig);
    } in
    (classify_valid_iff binary decl).1 (record {
      declared = offset;
      text = Signature.render sig;
      sig = sig;
      reads_offset = o;
      has_signature = refl;
      reads_signature = parse-render sig (
          Masks-IsByte (take window_len (drop offset binary)) sig.bytes s
            (All-take _ window_len (drop offset binary) (All-drop _ offset binary bytes)));
      occurs = verified.occurs;
    })
