-- ===== src/Siggen/Generate/Verified.antt =====
-- A generated signature is verified, the shortest window that can be verified is found, and the
-- search ends.
use pulse_sdk.Prelude.{
  ℕ, zero, suc, ◌+◌, ◌-◌, ◌*◌, ◌≤◌, ◌<◌, ◌≡◌, ◌≢◌, ◌↔◌, sym, ◌∙◌, true, List, [], ◌∷◌, length, take,
  drop, min, ok, err, some, length-take, length-drop, arith, inl, inr, Option-cases, Result-cases,
  get_elem?-take, get_elem?-lt,
}
use pulse_sdk.Extract.{Architecture, arm64, x86_64}
use pulse_sdk.Siggen.Signature.{ByteSignature, SigByte}
use pulse_sdk.Siggen.Scan.{scan_all}
use pulse_sdk.Siggen.Scan.Exact.{Occurs, scan_all_unique_iff}
use pulse_sdk.Siggen.Mask.{Decoders, architecture_of, mask_window}
use pulse_sdk.Siggen.Mask.Agreement.{
  Masks, mask_window-Masks, mask_window-nonempty, Masks-length, Masks-get_elem?,
}
use pulse_sdk.Siggen.Generate.{
  out_of_fuel, max_window_bytes, step_of, only_match, window_at, try_window, widen_loop, generate,
}

only_match_iff : (l : List ℕ) (o : ℕ) → (only_match l o ≡ true) ↔ (l ≡ o ∷ [])
unfolding only_match
only_match_iff [] o = (λ h. cc, λ h. cc)
only_match_iff (x ∷ []) o = (λ h. ground arith, λ h. ground arith)
only_match_iff (x ∷ y ∷ l) o = (λ h. absurd (ground arith), λ h. cc)

-- What makes a signature of `offset` trustworthy: it occurs there and nowhere else.
pub record IsVerified (binary : List ℕ) (offset : ℕ) (sig : ByteSignature) : Type 0 where
  pub occurs : Occurs binary sig offset
  pub unique : (p : ℕ) → Occurs binary sig p → p ≡ offset

-- A masked window occurs where it was taken from.
masked_window-Occurs :
    (d : Decoders) (binary : List ℕ) (offset window_len : ℕ) (arch : Architecture)
    (s : List SigByte)
    → mask_window d (take window_len (drop offset binary)) arch ≡ ok s
    → Occurs binary (record { bytes = s }) offset
masked_window-Occurs d binary offset window_len arch s h =
    let window = take window_len (drop offset binary) in
    let masks = mask_window-Masks d window arch h in
    let len = Masks-length window s masks in
    let some_byte = mask_window-nonempty d window arch h in
    record {
      nonempty = omega arith;
      within =
          omega (arith, length-take window_len (drop offset binary), length-drop offset binary);
      agrees = λ i b e.
          let e' = Masks-get_elem? window s masks i b e in
          let lt = get_elem?-lt i window e' in
          sym (
            get_elem?-take window_len i (drop offset binary)
              (omega (arith, length-take window_len (drop offset binary))))
          ∙ e';
    }

step_of_pos : (arch : Architecture) → 0 < step_of arch
step_of_pos arm64 = omega arith
step_of_pos x86_64 = omega arith

le-mul-step_of : (k : ℕ) (arch : Architecture) → k ≤ k * step_of arch
le-mul-step_of k arm64 = omega arith
le-mul-step_of k x86_64 = omega arith

module _ (d : Decoders) (binary : List ℕ) (offset : ℕ) where
  try_window-eq-some :
      (arch : Architecture) (window_len : ℕ) (sig : ByteSignature)
      → try_window d binary offset arch window_len ≡ some sig
      → (mask_window d (window_at d binary offset window_len) arch ≡ ok sig.bytes)
        × (scan_all binary sig ≡ offset ∷ [])
  unfolding try_window
  try_window-eq-some arch window_len sig h =
      let masked : mask_window d (window_at d binary offset window_len) arch ≡ ok sig.bytes =
        ground arith in
      let only : only_match (scan_all binary sig) offset ≡ true = ground arith in
      (masked, (only_match_iff (scan_all binary sig) offset).0 only)

  try_window-of_unique :
      (arch : Architecture) (window_len : ℕ) (s : List SigByte)
      → mask_window d (window_at d binary offset window_len) arch ≡ ok s
      → scan_all binary (record { bytes = s }) ≡ offset ∷ []
      → try_window d binary offset arch window_len ≡ some (record { bytes = s })
  unfolding try_window
  try_window-of_unique arch window_len s h u =
      rw (h, try_window) (rw ((only_match_iff (scan_all binary (record { bytes = s })) offset).1 u))

  -- A signature that the loop returns is that of a window it tried.
  widen_loop-eq-ok :
      (fuel : ℕ) (arch : Architecture) (max_window window_len : ℕ) (sig : ByteSignature)
      → widen_loop d binary offset fuel arch max_window window_len ≡ ok sig
      → (tried : ℕ) × (tried ≤ max_window) × (try_window d binary offset arch tried ≡ some sig)
  unfolding widen_loop
  widen_loop-eq-ok zero arch max_window window_len sig h = cc
  widen_loop-eq-ok (suc fuel) arch max_window window_len sig h =
      elim (Option-cases (try_window d binary offset arch window_len)) [
        | inl none_here ↦
            widen_loop-eq-ok fuel arch max_window (window_len + step_of arch) sig (ground arith)
        | inr (found, here) ↦ (window_len, ground arith, ground arith)
      ]

  -- With enough fuel the loop finds a window that can be verified, no longer than any given one.
  widen_loop-finds :
      (k fuel : ℕ) (arch : Architecture) (max_window window_len : ℕ) (sig : ByteSignature)
      → k < fuel
      → window_len + k * step_of arch ≤ max_window
      → try_window d binary offset arch (window_len + k * step_of arch) ≡ some sig
      → (found : ByteSignature) × (tried : ℕ) × (tried ≤ window_len + k * step_of arch)
        × (try_window d binary offset arch tried ≡ some found)
        × (widen_loop d binary offset fuel arch max_window window_len ≡ ok found)
  unfolding widen_loop
  widen_loop-finds k zero arch max_window window_len sig lt fits h = absurd (omega arith)
  widen_loop-finds zero (suc fuel) arch max_window window_len sig lt fits h =
      let e : window_len + 0 * step_of arch ≡ window_len = omega arith in
      let h' = rw e at h in (sig, window_len, omega arith, h', ground arith)
  widen_loop-finds (suc k) (suc fuel) arch max_window window_len sig lt fits h =
      let e : window_len + suc k * step_of arch ≡ window_len + step_of arch + k * step_of arch =
        omega arith in
      elim (Option-cases (try_window d binary offset arch window_len)) [
        | inl none_here ↦
            let (found, tried, le, t, w) =
              widen_loop-finds k fuel arch max_window (window_len + step_of arch) sig (omega arith)
                (rw e at fits) (rw e at h) in
            (found, tried, rw e le, t, ground arith)
        | inr (found, here) ↦ (found, window_len, omega arith, here, ground arith)
      ]

  widen_loop-ne-out_of_fuel :
      (fuel : ℕ) (arch : Architecture) (max_window window_len : ℕ)
      → 0 < fuel
      → max_window + 1 < window_len + fuel
      → widen_loop d binary offset fuel arch max_window window_len ≢ err out_of_fuel
  unfolding widen_loop
  widen_loop-ne-out_of_fuel zero arch max_window window_len more lt h = absurd (omega arith)
  widen_loop-ne-out_of_fuel (suc fuel) arch max_window window_len more lt h = ground (
    arith,
    widen_loop-ne-out_of_fuel fuel arch max_window (window_len + step_of arch),
    step_of_pos arch,
  )

  generate_loop :
      {arch : Architecture}
      → architecture_of d binary ≡ ok arch
      → offset < length binary
      → let max_window = min (length binary - offset) 128 in
        generate d binary offset
        ≡ widen_loop d binary offset (max_window + 1) arch max_window (step_of arch)
  unfolding generate
  generate_loop e lt = ground arith

  try_window-IsVerified :
      (arch : Architecture) (tried : ℕ) (sig : ByteSignature)
      → try_window d binary offset arch tried ≡ some sig
      → IsVerified binary offset sig × (length sig.bytes ≤ tried)
  try_window-IsVerified arch tried sig h =
      let (masked, only) = try_window-eq-some arch tried sig h in
      let (occurs, unique) = (scan_all_unique_iff binary sig offset).0 only in
      let window = take tried (drop offset binary) in
      let size = Masks-length window sig.bytes (mask_window-Masks d window arch masked) in
      (
        record { occurs = occurs; unique = unique },
        omega (arith, length-take tried (drop offset binary)),
      )

  generate-eq-ok :
      (sig : ByteSignature)
      → generate d binary offset ≡ ok sig
      → (arch : Architecture) × (tried : ℕ) × (tried ≤ 128)
        × (try_window d binary offset arch tried ≡ some sig)
  unfolding generate
  generate-eq-ok sig h = elim (Result-cases (architecture_of d binary)) [
    | inl (arch, e) ↦
        let max_window = min (length binary - offset) 128 in
        let looped : widen_loop d binary offset (max_window + 1) arch max_window (step_of arch)
            ≡ ok sig =
          ground arith in
        let (tried, le, t) =
          widen_loop-eq-ok (max_window + 1) arch max_window (step_of arch) sig looped in
        (arch, tried, omega arith, t)
    | inr (e, failed) ↦ absurd (ground arith)
  ]

  -- A generated signature occurs at the offset and nowhere else in the binary, and covers at most
  -- 128 bytes.
  pub generate-IsVerified :
      {sig : ByteSignature}
      → generate d binary offset ≡ ok sig
      → IsVerified binary offset sig × (length sig.bytes ≤ max_window_bytes)
  generate-IsVerified {sig} h =
      let (arch, tried, le, t) = generate-eq-ok sig h in
      let (good, size) = try_window-IsVerified arch tried sig t in (good, omega arith)

  -- If some window of whole steps within 128 bytes and within the binary masks to a signature that
  -- occurs nowhere but at the offset, then a signature is generated, no longer than that window.
  pub generate_finds :
      {arch : Architecture} (k : ℕ) (s : List SigByte)
      → architecture_of d binary ≡ ok arch
      → offset < length binary
      → step_of arch + k * step_of arch ≤ min (length binary - offset) max_window_bytes
      → mask_window d (take (step_of arch + k * step_of arch) (drop offset binary)) arch ≡ ok s
      → ((p : ℕ) → Occurs binary (record { bytes = s }) p → p ≡ offset)
      → (sig : ByteSignature) × (generate d binary offset ≡ ok sig)
        × (length sig.bytes ≤ step_of arch + k * step_of arch)
  generate_finds {arch} k s found lt fits masked unique =
      let len = step_of arch + k * step_of arch in
      let occurs = masked_window-Occurs d binary offset len arch s masked in
      let alone = (scan_all_unique_iff binary (record { bytes = s }) offset).1 (occurs, unique) in
      let (sig, tried, le, t, w) =
        widen_loop-finds k (min (length binary - offset) 128 + 1) arch
          (min (length binary - offset) 128) (step_of arch) (record { bytes = s })
          (omega (arith, le-mul-step_of k arch)) fits
          (try_window-of_unique arch len s masked alone) in
      let (_, size) = try_window-IsVerified arch tried sig t in
      (sig, generate_loop found lt ∙ w, omega arith)

  -- The search always ends: the fuel that the model gives it is never used up.
  pub generate-ne-out_of_fuel : generate d binary offset ≢ err out_of_fuel
  unfolding generate
  generate-ne-out_of_fuel h = elim (Result-cases (architecture_of d binary)) [
    | inl (arch, e) ↦
        let max_window = min (length binary - offset) 128 in
        ground (
          arith,
          step_of_pos arch,
          widen_loop-ne-out_of_fuel (max_window + 1) arch max_window (step_of arch),
        )
    | inr (e, failed) ↦ ground arith
  ]

  -- A generated signature masks a window at the offset.
  pub generate-Masks :
      (sig : ByteSignature)
      → generate d binary offset ≡ ok sig
      → (window_len : ℕ) × Masks (take window_len (drop offset binary)) sig.bytes
  generate-Masks sig h =
      let (arch, tried, _, t) = generate-eq-ok sig h in
      let (masked, _) = try_window-eq-some arch tried sig t in
      (tried, mask_window-Masks d (take tried (drop offset binary)) arch masked)
