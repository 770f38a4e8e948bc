-- ===== src/Siggen/Mask/Agreement.antt =====
-- What `mask_window` returns agrees with the window that it masks, byte by byte.
use pulse_sdk.Prelude.{
  ℕ, zero, suc, ◌+◌, ◌-◌, ◌*◌, ◌/◌, ◌%◌, ◌≤◌, ◌<◌, ◌≡◌, refl, ap, Bool, ◌&&◌, ◌||◌, List, [], ◌∷◌,
  ◌++◌, some, inl, inr, length, is_empty, take, drop, get_elem?, arith, ltb, leb, not, ◌==◌,
  Bool-cases, Result, ok, err, ◌>>=◌, >>=-eq-ok, take-append-drop, drop-drop,
}
use pulse_sdk.Extract.{Architecture, arm64, x86_64}
use pulse_sdk.Siggen.Signature.{SigByte, fixed, wildcard}
use pulse_sdk.Siggen.Mask.{
  MaskError, Decoders, Arm64Instruction, X86Instruction, arm64_bytes, arm64_is_pc_relative,
  x86_bytes, x86_relative_tail_len, decode_defined_arm64, arm64_loop, decode_within_x86,
  mask_inst_x86, x86_loop, mask_window,
}

-- The signature has one element for each byte, and its fixed elements are the bytes.
abbrev pub Masks : List ℕ → List SigByte → Type 0
Masks [] [] = Unit
Masks [] (s ∷ sig) = ⊥
Masks (b ∷ window) [] = ⊥
Masks (b ∷ window) (fixed x ∷ sig) = (x ≡ b) × Masks window sig
Masks (b ∷ window) (wildcard ∷ sig) = Masks window sig

Masks-append : (u v : List ℕ) (s t : List SigByte) → Masks u s → Masks v t → Masks (u ++ v) (s ++ t)
Masks-append [] v [] t h k = k
Masks-append [] v (_ ∷ s) t h k = absurd h
Masks-append (b ∷ u) v [] t h k = absurd h
Masks-append (b ∷ u) v (fixed x ∷ s) t h k = (h.0, Masks-append u v s t h.1 k)
Masks-append (b ∷ u) v (wildcard ∷ s) t h k = Masks-append u v s t h k

pub Masks-length : (w : List ℕ) (s : List SigByte) → Masks w s → length s ≡ length w
Masks-length [] [] h = refl
Masks-length [] (_ ∷ s) h = absurd h
Masks-length (b ∷ w) [] h = absurd h
Masks-length (b ∷ w) (fixed x ∷ s) h = ap suc (Masks-length w s h.1)
Masks-length (b ∷ w) (wildcard ∷ s) h = ap suc (Masks-length w s h)

pub Masks-get_elem? :
    (w : List ℕ) (s : List SigByte)
    → Masks w s
    → (i b : ℕ) → get_elem? s i ≡ some (fixed b)
    → get_elem? w i ≡ some b
Masks-get_elem? [] [] h i b e = cc
Masks-get_elem? [] (_ ∷ s) h i b e = absurd h
Masks-get_elem? (y ∷ w) [] h i b e = absurd h
Masks-get_elem? (y ∷ w) (fixed x ∷ s) h zero b e = let e' = h.0 in cc
Masks-get_elem? (y ∷ w) (fixed x ∷ s) h (suc i) b e = Masks-get_elem? w s h.1 i b e
Masks-get_elem? (y ∷ w) (wildcard ∷ s) h zero b e = cc
Masks-get_elem? (y ∷ w) (wildcard ∷ s) h (suc i) b e = Masks-get_elem? w s h i b e

arm64_bytes-Masks : (v : Bool) (i : ℕ) (w : List ℕ) → Masks w (arm64_bytes v i w)
unfolding arm64_bytes
arm64_bytes-Masks v i [] = tt
arm64_bytes-Masks v i (b ∷ w) = elim (Bool-cases (v && ltb i 3)) [
  | inl e ↦ rw e (arm64_bytes-Masks v (i + 1) w)
  | inr e ↦ rw e (refl, arm64_bytes-Masks v (i + 1) w)
]

x86_bytes-Masks : (tail first i : ℕ) (w : List ℕ) → Masks w (x86_bytes tail first i w)
unfolding x86_bytes
x86_bytes-Masks tail first i [] = tt
x86_bytes-Masks tail first i (b ∷ w) = elim (Bool-cases (ltb 0 tail && leb first i)) [
  | inl e ↦ rw e (x86_bytes-Masks tail first (i + 1) w)
  | inr e ↦ rw e (refl, x86_bytes-Masks tail first (i + 1) w)
]

-- Masking the front of the bytes from `at` on, and then the rest.
Masks-step :
    (window : List ℕ) (at len : ℕ) (s t : List SigByte)
    → Masks (take len (drop at window)) s
    → Masks (drop (at + len) window) t
    → Masks (drop at window) (s ++ t)
Masks-step window at len s t h k =
    let joined =
      Masks-append (take len (drop at window)) (drop len (drop at window)) s t h
        (rw (drop-drop len at window) k) in
    rw take-append-drop at joined

drop-nil_of_le {ℓ} : {A : Type ℓ} (n : ℕ) (xs : List A) → length xs ≤ n → drop n xs ≡ []
drop-nil_of_le zero [] h = refl
drop-nil_of_le zero (x ∷ xs) h = absurd (omega arith)
drop-nil_of_le (suc n) [] h = refl
drop-nil_of_le (suc n) (x ∷ xs) h = drop-nil_of_le n xs (omega arith)

-- What a successful `rest ← r; ok (bytes ++ rest)` returns.
pub append-eq-ok :
    (bytes : List SigByte) (r : Result MaskError (List SigByte)) {s : List SigByte}
    → (r >>= λ rest. ok (bytes ++ rest)) ≡ ok s
    → (rest : List SigByte) × (r ≡ ok rest) × (s ≡ bytes ++ rest)
append-eq-ok bytes (ok rest) h = (rest, refl, cc)
append-eq-ok bytes (err e) h = cc

module _ (d : Decoders) where
  arm64_loop-Masks :
      (window : List ℕ) (index rounds : ℕ) {s : List SigByte}
      → length window ≡ (index + rounds) * 4
      → arm64_loop d window index rounds ≡ ok s
      → Masks (drop (index * 4) window) s
  unfolding arm64_loop
  arm64_loop-Masks window index zero {s} len h =
      let e : s ≡ [] = cc in
      let e' : drop (index * 4) window ≡ [] = drop-nil_of_le (index * 4) window (omega arith) in
      rw (e, e') tt
  arm64_loop-Masks window index (suc rounds) {s} len h =
      let at = drop (index * 4) window in
      let bytes = λ (inst : Arm64Instruction).
        arm64_bytes (arm64_is_pc_relative inst.operands) 0 (take 4 at) in
      let (inst, _, h1) =
        >>=-eq-ok (decode_defined_arm64 d at)
          (λ inst. arm64_loop d window (index + 1) rounds >>= λ rest. ok (bytes inst ++ rest)) h in
      let (rest, h2, h3) = append-eq-ok (bytes inst) _ h1 in
      let e : (index + 1) * 4 ≡ index * 4 + 4 = omega arith in
      rw h3 (
        Masks-step window (index * 4) 4 (bytes inst) rest (arm64_bytes-Masks _ 0 _)
          (rw e at (arm64_loop-Masks window (index + 1) rounds (omega arith) h2)))

  mask_inst_x86-Masks :
      (window : List ℕ) (consumed : ℕ) (inst : X86Instruction) {s : List SigByte}
      → mask_inst_x86 d window consumed inst ≡ ok s
      → Masks (take inst.len (drop consumed window)) s
  unfolding mask_inst_x86
  mask_inst_x86-Masks window consumed inst {s} h =
      let tail = x86_relative_tail_len inst in
      let bytes = x86_bytes tail (inst.len - tail) 0 (take inst.len (drop consumed window)) in
      let e : s ≡ bytes = ground arith in
      rw e (x86_bytes-Masks tail (inst.len - tail) 0 (take inst.len (drop consumed window)))

  -- One round of the loop, from what the rounds after it return.
  x86_round-Masks :
      (fuel : ℕ) (window : List ℕ) (consumed : ℕ) {s : List SigByte}
      → ((at : ℕ) (t : List SigByte) → x86_loop d fuel window at ≡ ok t → Masks (drop at window) t)
      → (decode_within_x86 d window consumed >>= λ inst.
          mask_inst_x86 d window consumed inst >>= λ bytes.
          x86_loop d fuel window (consumed + inst.len) >>= λ rest. ok (bytes ++ rest))
        ≡ ok s
      → Masks (drop consumed window) s
  x86_round-Masks fuel window consumed {s} ih h =
      let tail = λ (inst : X86Instruction) (bytes : List SigByte).
        x86_loop d fuel window (consumed + inst.len) >>= λ rest. ok (bytes ++ rest) in
      let (inst, _, h1) =
        >>=-eq-ok (decode_within_x86 d window consumed)
          (λ inst. mask_inst_x86 d window consumed inst >>= tail inst) h in
      let (bytes, h2, h3) = >>=-eq-ok (mask_inst_x86 d window consumed inst) (tail inst) h1 in
      let (rest, h4, e) = append-eq-ok bytes (x86_loop d fuel window (consumed + inst.len)) h3 in
      rw e (
        Masks-step window consumed inst.len bytes rest (mask_inst_x86-Masks window consumed inst h2)
          (ih (consumed + inst.len) rest h4))

  x86_loop-Masks :
      (fuel : ℕ) (window : List ℕ) (consumed : ℕ) (s : List SigByte)
      → x86_loop d fuel window consumed ≡ ok s
      → Masks (drop consumed window) s
  unfolding x86_loop
  x86_loop-Masks zero window consumed s h = cc
  x86_loop-Masks (suc fuel) window consumed s h = elim (Bool-cases (ltb consumed (length window))) [
    | inl e ↦
        x86_round-Masks fuel window consumed (x86_loop-Masks fuel window) (rw (e, x86_loop) at h)
    | inr e ↦
        let stop : s ≡ [] = ground arith in
        rw (stop, drop-nil_of_le consumed window (ground arith)) tt
  ]

  -- What `mask_window` returns masks the whole window.
  pub mask_window-Masks :
      (window : List ℕ) (arch : Architecture) {s : List SigByte}
      → mask_window d window arch ≡ ok s
      → Masks window s
  unfolding mask_window
  mask_window-Masks window arm64 {s} h =
      elim (Bool-cases (is_empty window || not (length window % 4 == 0))) [
        | inl e ↦ absurd (ground arith)
        | inr e ↦ arm64_loop-Masks window 0 (length window / 4) (ground arith) (ground arith)
      ]
  mask_window-Masks window x86_64 {s} h = elim (Bool-cases (is_empty window)) [
    | inl e ↦ absurd (ground arith)
    | inr e ↦ x86_loop-Masks (length window + 1) window 0 s (ground arith)
  ]

  pub mask_window-nonempty :
      (window : List ℕ) (arch : Architecture) {s : List SigByte}
      → mask_window d window arch ≡ ok s
      → 0 < length window
  unfolding mask_window
  mask_window-nonempty window arm64 h = ground arith
  mask_window-nonempty window x86_64 h = ground arith
