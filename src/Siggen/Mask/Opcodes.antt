-- ===== src/Siggen/Mask/Opcodes.antt =====
-- The bytes that stay fixed on arm64, and the termination of the x86-64 loop.
use pulse_sdk.Prelude.{
  ℕ, zero, suc, ◌+◌, ◌*◌, ◌/◌, ◌%◌, ◌≤◌, ◌<◌, ◌≡◌, ◌≢◌, Bool, true, false, ◌||◌, List, ◌∷◌, ◌++◌,
  some, inl, inr, length, is_empty, take, drop, get_elem?, length-drop, arith, ltb, Option, none,
  not, ◌==◌, Bool-cases, Result, ok, err, ◌>>=◌, >>=-eq-ok, >>=-eq-err,
}
use pulse_sdk.Extract.{Architecture, arm64, x86_64}
use pulse_sdk.Siggen.Signature.{SigByte, fixed, wildcard}
use pulse_sdk.Siggen.Mask.{
  MaskError, Decoders, Arm64Instruction, X86Instruction, arm64_bytes, arm64_is_pc_relative,
  decode_defined_arm64, arm64_loop, decode_within_x86, mask_inst_x86, x86_loop, mask_window,
  out_of_fuel,
}
use pulse_sdk.Siggen.Mask.Agreement.{append-eq-ok}

module _ (d : Decoders) where
  -- A decoded instruction has a byte at least and ends within the window.
  decode_within_x86_bounds :
      (window : List ℕ) (consumed : ℕ) (inst : X86Instruction)
      → decode_within_x86 d window consumed ≡ ok inst
      → (0 < inst.len) × (consumed + inst.len ≤ length window)
  unfolding decode_within_x86
  decode_within_x86_bounds window consumed inst h = ground arith

  decode_within_x86-ne-out_of_fuel :
      (window : List ℕ) (consumed : ℕ) → decode_within_x86 d window consumed ≢ err out_of_fuel
  unfolding decode_within_x86
  decode_within_x86-ne-out_of_fuel window consumed h = ground arith

  mask_inst_x86-ne-out_of_fuel :
      (window : List ℕ) (consumed : ℕ) (inst : X86Instruction)
      → mask_inst_x86 d window consumed inst ≢ err out_of_fuel
  unfolding mask_inst_x86
  mask_inst_x86-ne-out_of_fuel window consumed inst h = ground arith

  x86_round-ne-out_of_fuel :
      (fuel : ℕ) (window : List ℕ) (consumed : ℕ)
      → ((at : ℕ)
          → consumed < at
          → at ≤ length window
          → x86_loop d fuel window at ≢ err out_of_fuel)
      → (decode_within_x86 d window consumed >>= λ inst.
          mask_inst_x86 d window consumed inst >>= λ bytes.
          x86_loop d fuel window (consumed + inst.len) >>= λ rest. ok (bytes ++ rest))
        ≢ err out_of_fuel
  x86_round-ne-out_of_fuel fuel window consumed ih h =
      elim (>>=-eq-err (decode_within_x86 d window consumed)
        (λ inst. mask_inst_x86 d window consumed inst >>= tail inst) h) [
          | inl e ↦ decode_within_x86-ne-out_of_fuel window consumed e
          | inr (inst, e, h1) ↦
              elim (>>=-eq-err (mask_inst_x86 d window consumed inst) (tail inst) h1) [
                | inl e1 ↦ mask_inst_x86-ne-out_of_fuel window consumed inst e1
                | inr (bytes, e1, h2) ↦
                    let (some_byte, within) = decode_within_x86_bounds window consumed inst e in
                    elim (>>=-eq-err (x86_loop d fuel window (consumed + inst.len))
                      (λ rest. ok (bytes ++ rest)) h2) [
                        | inl e2 ↦ ih (consumed + inst.len) (omega arith) within e2
                        | inr (rest, e2, h3) ↦ cc
                      ]
              ]
        ]
    where
      tail : X86Instruction → List SigByte → Result MaskError (List SigByte)
      tail inst bytes = x86_loop d fuel window (consumed + inst.len) >>= λ rest. ok (bytes ++ rest)

  x86_loop-ne-out_of_fuel :
      (fuel : ℕ) (window : List ℕ) (consumed : ℕ)
      → consumed ≤ length window
      → length window < consumed + fuel
      → x86_loop d fuel window consumed ≢ err out_of_fuel
  unfolding x86_loop
  x86_loop-ne-out_of_fuel zero window consumed le lt h = absurd (omega arith)
  x86_loop-ne-out_of_fuel (suc fuel) window consumed le lt h =
      elim (Bool-cases (ltb consumed (length window))) [
        | inl e ↦
            x86_round-ne-out_of_fuel fuel window consumed
              (λ at past fits. x86_loop-ne-out_of_fuel fuel window at fits (omega arith))
              (rw (e, x86_loop) at h)
        | inr e ↦ ground arith
      ]

  arm64_loop-ne-out_of_fuel :
      (window : List ℕ) (index rounds : ℕ) → arm64_loop d window index rounds ≢ err out_of_fuel
  unfolding arm64_loop decode_defined_arm64
  arm64_loop-ne-out_of_fuel window index zero h = cc
  arm64_loop-ne-out_of_fuel window index (suc rounds) h =
      ground (arith, arm64_loop-ne-out_of_fuel window (index + 1) rounds)

  -- The masking loop always ends: the fuel that the model gives it is never used up.
  pub mask_window-ne-out_of_fuel :
      (window : List ℕ) (arch : Architecture) → mask_window d window arch ≢ err out_of_fuel
  unfolding mask_window
  mask_window-ne-out_of_fuel window arm64 h =
      ground (arith, arm64_loop-ne-out_of_fuel window 0 (length window / 4))
  mask_window-ne-out_of_fuel window x86_64 h =
      ground (arith, x86_loop-ne-out_of_fuel (length window + 1) window 0)

abbrev pub IsFixed : Option SigByte → Type 0
IsFixed none = ⊥
IsFixed (some wildcard) = ⊥
IsFixed (some (fixed b)) = Unit

arm64_bytes-top-IsFixed :
    (v : Bool) (at : List ℕ) (rest : List SigByte)
    → 4 ≤ length at
    → IsFixed (get_elem? (arm64_bytes v 0 (take 4 at) ++ rest) 3)
unfolding arm64_bytes
arm64_bytes-top-IsFixed true (a ∷ b ∷ c ∷ e ∷ at) rest h = tt
arm64_bytes-top-IsFixed false (a ∷ b ∷ c ∷ e ∷ at) rest h = tt
arm64_bytes-top-IsFixed v at rest h = absurd (omega arith)

get_elem?-arm64_bytes-append :
    (v : Bool) (at : List ℕ) (rest : List SigByte) (i : ℕ)
    → 4 ≤ length at
    → get_elem? (arm64_bytes v 0 (take 4 at) ++ rest) (4 + i) ≡ get_elem? rest i
unfolding arm64_bytes
get_elem?-arm64_bytes-append v (a ∷ b ∷ c ∷ e ∷ at) rest i h =
    let e : 4 + i ≡ suc (suc (suc (suc i))) = omega arith in rw e
get_elem?-arm64_bytes-append v at rest i h = absurd (omega arith)

module _ (d : Decoders) where
  arm64_loop-top-IsFixed :
      (window : List ℕ) (index rounds : ℕ) {s : List SigByte}
      → length window ≡ (index + rounds) * 4
      → arm64_loop d window index rounds ≡ ok s
      → (k : ℕ) → k < rounds
      → IsFixed (get_elem? s (k * 4 + 3))
  unfolding arm64_loop
  arm64_loop-top-IsFixed window index zero len h k lt = absurd (omega arith)
  arm64_loop-top-IsFixed window index (suc rounds) {s} len h k lt =
      let at = drop (index * 4) window in
      let long : 4 ≤ length at = omega (arith, length-drop (index * 4) window) in
      let bytes = λ (inst : Arm64Instruction).
        arm64_bytes (arm64_is_pc_relative inst.operands) 0 (take 4 at) in
      let (inst, _, h1) =
        >>=-eq-ok (decode_defined_arm64 d at)
          (λ inst. arm64_loop d window (index + 1) rounds >>= λ rest. ok (bytes inst ++ rest)) h in
      let (rest, h2, h3) = append-eq-ok (bytes inst) (arm64_loop d window (index + 1) rounds) h1 in
      let volatile = arm64_is_pc_relative inst.operands in
      rw h3 (
        go volatile rest long (arm64_loop-top-IsFixed window (index + 1) rounds (omega arith) h2) k
          lt)
    where
      go :
          (volatile : Bool) (rest : List SigByte)
          → 4 ≤ length (drop (index * 4) window)
          → ((k : ℕ) → k < rounds → IsFixed (get_elem? rest (k * 4 + 3)))
          → (k : ℕ) → k < suc rounds
          → IsFixed (
              get_elem?
                (arm64_bytes volatile 0 (take 4 (drop (index * 4) window)) ++ rest)
                (k * 4 + 3))
      go volatile rest long ih zero lt =
          arm64_bytes-top-IsFixed volatile (drop (index * 4) window) rest long
      go volatile rest long ih (suc k) lt =
          let e : suc k * 4 + 3 ≡ 4 + (k * 4 + 3) = omega arith in
          rw
            (
              e,
              get_elem?-arm64_bytes-append volatile (drop (index * 4) window) rest (k * 4 + 3) long,
            )
            (ih k (omega arith))

  -- On arm64 the top byte of every instruction, which holds the opcode, stays fixed, and a window
  -- is masked only if its length is a multiple of four.
  pub mask_window-top-IsFixed :
      (window : List ℕ) {s : List SigByte}
      → mask_window d window arm64 ≡ ok s
      → (length window % 4 ≡ 0)
        × ((k : ℕ) → k * 4 + 3 < length window → IsFixed (get_elem? s (k * 4 + 3)))
  unfolding mask_window
  mask_window-top-IsFixed window {s} h =
      elim (Bool-cases (is_empty window || not (length window % 4 == 0))) [
        | inl e ↦ absurd (ground arith)
        | inr e ↦ (
          ground arith,
          λ k lt.
              arm64_loop-top-IsFixed window 0 (length window / 4) (ground arith) (ground arith) k
                (omega arith),
        )
      ]
