-- ===== src/Extract/Prologue/Plausible.antt =====
-- What the check of a prologue finds: code that decodes for sixteen bytes at least and does not
-- begin with a return or a trap, on both architectures.
use mathlib.Core.Path.{subst}
use pulse_sdk.Prelude.{
  ℕ, zero, suc, ◌+◌, ◌-◌, ◌*◌, ◌<◌, ◌≤◌, ◌≡◌, ◌≢◌, ◌↔◌, refl, sym, ap, ◌∙◌, true, false, ◌||◌, ◌&&◌,
  not, Option, none, some, List, drop, ltb, ◌==◌, arith, Bool-cases, Option-cases, inl, inr,
}
use pulse_sdk.Bindings.{sentinel_value}
use pulse_sdk.Extract.{Architecture, arm64, x86_64}
use pulse_sdk.Extract.Prologue.Window.{IsWindowOf, Any, read_prologue_window-Any}
use pulse_sdk.Extract.Prologue.{
  Section, Disassembler, EntryKind, plausible_entry, arm64_ret_or_trap, x86_ret_or_trap,
  is_arm64_invalid, is_x86_invalid, entry_test, saturating_add, arm64_loop, x86_loop, check_window,
  check_prologue, read_prologue_window, max_len_of,
}

module _ (d : Disassembler) where
  -- The defined instruction at the front: its length, and whether it returns or traps.
  abbrev instruction_at : Architecture → List ℕ → Option (ℕ × Option EntryKind)
  instruction_at arm64 bytes = elim (d.decode_arm64 bytes) [
    | none ↦ none
    | some opcode ↦ elim (is_arm64_invalid opcode) [
      | true ↦ none
      | false ↦ some (4, arm64_ret_or_trap opcode)
    ]
  ]
  instruction_at x86_64 bytes = elim (d.decode_x86 bytes) [
    | none ↦ none
    | some inst ↦ elim (is_x86_invalid inst.opcode || inst.len == 0) [
      | true ↦ none
      | false ↦ some (inst.len, x86_ret_or_trap inst.opcode)
    ]
  ]

  -- Instructions one after the other that make up `n` bytes at least.
  pub data Code (arch : Architecture) : ℕ → List ℕ → Type 0 where
    done : {bytes : List ℕ} → Code arch 0 bytes
    next :
        {n len : ℕ} {kind : Option EntryKind} {bytes : List ℕ}
        → instruction_at arch bytes ≡ some (len, kind)
        → Code arch (n - len) (drop len bytes)
        → Code arch n bytes

  -- Code that a function may begin with.
  abbrev pub IsEntry : Architecture → List ℕ → Type 0
  IsEntry arch bytes =
      ((len : ℕ) × (instruction_at arch bytes ≡ some (len, none))) × Code arch 16 bytes

  arm64_loop-step :
      (bytes : List ℕ) (index rounds : ℕ)
      → arm64_loop d bytes index (suc rounds) ≡ plausible_entry
      → (kind : Option EntryKind) × (instruction_at arm64 bytes ≡ some (4, kind))
        × (entry_test index kind ≡ none)
        × (arm64_loop d (drop 4 bytes) (index + 1) rounds ≡ plausible_entry)
  unfolding arm64_loop
  arm64_loop-step bytes index rounds h = elim (Option-cases (d.decode_arm64 bytes)) [
    | inl e ↦ absurd (ground arith)
    | inr (opcode, e) ↦ (arm64_ret_or_trap opcode, ground arith, ground arith, ground arith)
  ]

  arm64_loop-continue :
      (bytes : List ℕ) (index rounds len : ℕ) (kind : Option EntryKind)
      → instruction_at arm64 bytes ≡ some (len, kind)
      → entry_test index kind ≡ none
      → (len ≡ 4)
        × (arm64_loop d bytes index (suc rounds) ≡ arm64_loop d (drop 4 bytes) (index + 1) rounds)
  unfolding arm64_loop
  arm64_loop-continue bytes index rounds len kind h k = elim (Option-cases (d.decode_arm64 bytes)) [
    | inl e ↦ absurd (ground arith)
    | inr (opcode, e) ↦ (ground arith, ground arith)
  ]

  x86_loop-step :
      (rounds consumed index : ℕ) (bytes : List ℕ)
      → consumed < 16
      → x86_loop d (suc rounds) bytes consumed index ≡ some plausible_entry
      → (len : ℕ) × (kind : Option EntryKind) × (instruction_at x86_64 bytes ≡ some (len, kind))
        × (entry_test index kind ≡ none)
        × (x86_loop d rounds (drop len bytes) (saturating_add consumed len) (index + 1)
            ≡ some plausible_entry)
  unfolding x86_loop
  x86_loop-step rounds consumed index bytes lt h = elim (Option-cases (d.decode_x86 bytes)) [
    | inl e ↦ absurd (ground arith)
    | inr (inst, e) ↦
        (inst.len, x86_ret_or_trap inst.opcode, ground arith, ground arith, ground arith)
  ]

  x86_loop-continue :
      (rounds consumed index len : ℕ) (kind : Option EntryKind) (bytes : List ℕ)
      → consumed < 16
      → instruction_at x86_64 bytes ≡ some (len, kind)
      → entry_test index kind ≡ none
      → (0 < len)
        × (x86_loop d (suc rounds) bytes consumed index
            ≡ x86_loop d rounds (drop len bytes) (saturating_add consumed len) (index + 1))
  unfolding x86_loop
  x86_loop-continue rounds consumed index len kind bytes lt h k =
      elim (Option-cases (d.decode_x86 bytes)) [
        | inl e ↦ absurd (ground arith)
        | inr (inst, e) ↦ (ground arith, ground arith)
      ]

  none_wanted : {arch : Architecture} (n : ℕ) (bytes : List ℕ) → n ≡ 0 → Code arch n bytes
  none_wanted {arch} n bytes e = subst (λ k. Code arch k bytes) (sym e) done

  Code-next :
      {arch : Architecture} (n : ℕ) (bytes : List ℕ)
      → Code arch n bytes
      → 0 < n
      → (len : ℕ) × (kind : Option EntryKind) × (instruction_at arch bytes ≡ some (len, kind))
        × Code arch (n - len) (drop len bytes)
  Code-next n bytes done pos = absurd (omega arith)
  Code-next n bytes (next {len = len} {kind = kind} e code) pos = (len, kind, e, code)

  arm64_loop-Code :
      (rounds n index : ℕ) (bytes : List ℕ)
      → n ≤ 4 * rounds
      → arm64_loop d bytes index rounds ≡ plausible_entry
      → Code arm64 n bytes
  arm64_loop-Code zero n index bytes le h = none_wanted n bytes (omega arith)
  arm64_loop-Code (suc rounds) n index bytes le h =
      let (kind, e, _, h') = arm64_loop-step bytes index rounds h in
      next e (arm64_loop-Code rounds (n - 4) (index + 1) (drop 4 bytes) (omega arith) h')

  Code-arm64_loop :
      (rounds n index : ℕ) (bytes : List ℕ)
      → 0 < index
      → 4 * rounds < n + 4
      → Code arm64 n bytes
      → arm64_loop d bytes index rounds ≡ plausible_entry
  unfolding arm64_loop
  Code-arm64_loop zero n index bytes pos lt code = refl
  Code-arm64_loop (suc rounds) n index bytes pos lt done = absurd (omega arith)
  Code-arm64_loop (suc rounds) n index bytes pos lt (next {len = len} {kind = kind} e code) =
      let (four, continue) = arm64_loop-continue bytes index rounds len kind e (ground arith) in
      continue
      ∙ Code-arm64_loop rounds (n - 4) (index + 1) (drop 4 bytes) (omega arith) (omega arith)
          (subst (λ l. Code arm64 (n - l) (drop l bytes)) four code)

  x86_loop-Code :
      (rounds consumed n index : ℕ) (bytes : List ℕ)
      → n ≤ 16 - consumed
      → x86_loop d rounds bytes consumed index ≡ some plausible_entry
      → Code x86_64 n bytes
  unfolding x86_loop
  x86_loop-Code zero consumed n index bytes le h = cc
  x86_loop-Code (suc rounds) consumed n index bytes le h = elim (Bool-cases (ltb consumed 16)) [
    | inl lt ↦
        let (len, kind, e, _, h') = x86_loop-step rounds consumed index bytes (ground arith) h in
        next e (
          x86_loop-Code rounds (saturating_add consumed len) (n - len) (index + 1) (drop len bytes)
            (omega arith) h')
    | inr ge ↦ none_wanted n bytes (ground arith)
  ]

  Code-x86_loop :
      (rounds consumed n index : ℕ) (bytes : List ℕ)
      → 0 < index
      → 16 ≤ n + consumed
      → 16 < rounds + consumed
      → 0 < rounds
      → Code x86_64 n bytes
      → x86_loop d rounds bytes consumed index ≡ some plausible_entry
  unfolding x86_loop
  Code-x86_loop zero consumed n index bytes pos le lt some_rounds code = absurd (omega arith)
  Code-x86_loop (suc rounds) consumed n index bytes pos le lt some_rounds code =
      elim (Bool-cases (ltb consumed 16)) [
        | inl few ↦
            let (len, kind, e, rest) = Code-next n bytes code (ground arith) in
            let (positive, continue) =
              x86_loop-continue rounds consumed index len kind bytes (ground arith) e
                (ground arith) in
            continue
            ∙ Code-x86_loop rounds (saturating_add consumed len) (n - len) (index + 1)
                (drop len bytes) (omega arith) (ground arith) (ground arith) (ground arith) rest
        | inr many ↦ rw (many, x86_loop) refl
      ]

  x86_loop-ne-none :
      (rounds consumed index : ℕ) (bytes : List ℕ)
      → 16 < rounds + consumed
      → 0 < rounds
      → x86_loop d rounds bytes consumed index ≢ none
  unfolding x86_loop
  x86_loop-ne-none zero consumed index bytes lt some_rounds h = absurd (omega arith)
  x86_loop-ne-none (suc rounds) consumed index bytes lt some_rounds h =
      elim (Option-cases (d.decode_x86 bytes)) [
        | inl e ↦ ground arith
        | inr (inst, e) ↦ elim (Bool-cases (ltb consumed 16 && not (inst.len == 0))) [
          | inl more ↦
              let ih =
                x86_loop-ne-none rounds (saturating_add consumed inst.len) (index + 1)
                  (drop inst.len bytes) (ground arith) (ground arith) in
              ground (arith, ih)
          | inr no_more ↦ ground arith
        ]
      ]

  check_window-plausible_iff :
      (arch : Architecture) (window : List ℕ)
      → (check_window d arch window ≡ some plausible_entry) ↔ IsEntry arch window
  unfolding check_window
  check_window-plausible_iff arm64 window = (
    λ h.
        let h' : arm64_loop d window 0 4 ≡ plausible_entry = cc in
        let (kind, e, first, _) = arm64_loop-step window 0 3 h' in
        ((4, e ∙ ap (λ k. some (4, k)) first), arm64_loop-Code 4 16 0 window (omega arith) h'),
    λ h.
        let ((len, e), code) = h in
        let (len', kind', e', rest) = Code-next 16 window code (omega arith) in
        let first : kind' ≡ none = ground arith in
        let (four, continue) = arm64_loop-continue window 0 3 len' kind' e' first in
        ap some (
          continue
          ∙ Code-arm64_loop 3 12 1 (drop 4 window) (omega arith) (omega arith)
              (subst (λ l. Code arm64 (16 - l) (drop l window)) four rest)),
  )
  check_window-plausible_iff x86_64 window = (
    λ h.
        let (len, kind, e, first, _) = x86_loop-step 16 0 0 window (omega arith) h in
        ((len, e ∙ ap (λ k. some (len, k)) first), x86_loop-Code 17 0 16 0 window (omega arith) h),
    λ h.
        let ((len, e), code) = h in
        let (len', kind', e', rest) = Code-next 16 window code (omega arith) in
        let first : kind' ≡ none = ground arith in
        let (positive, continue) =
          x86_loop-continue 16 0 0 len' kind' window (omega arith) e' first in
        continue
        ∙ Code-x86_loop 16 (saturating_add 0 len') (16 - len') 1 (drop len' window) (omega arith)
            (omega arith) (omega arith) (omega arith) rest,
  )

  check_window-ne-none : (arch : Architecture) (window : List ℕ) → check_window d arch window ≢ none
  unfolding check_window
  check_window-ne-none arm64 window h = cc
  check_window-ne-none x86_64 window h =
      x86_loop-ne-none 17 0 0 window (omega arith) (omega arith) h

  long_window : (arch : Architecture) → 16 ≤ max_len_of d arch
  long_window arm64 = omega arith
  long_window x86_64 = omega arith

  -- The check of a prologue always has an outcome. It finds a plausible entry exactly if the offset
  -- is neither zero nor the sentinel, sixteen bytes at least can be read there, and these decode,
  -- instruction after instruction, for sixteen bytes at least, the first of them neither a return
  -- nor a trap. What is read is what a section of the file holds at the offset.
  pub check_prologue-plausible_iff :
      (bytes : List ℕ) (offset : ℕ) (arch : Architecture)
      → (check_prologue d bytes offset arch ≢ none)
        × ((check_prologue d bytes offset arch ≡ some plausible_entry) ↔ (
            (offset ≢ 0)
            × (offset ≢ sentinel_value)
            × (window : List ℕ) × (read_prologue_window d bytes offset 16 (max_len_of d arch)
                ≡ some window)
            × IsEntry arch window))
        × ((window : List ℕ)
            → read_prologue_window d bytes offset 16 (max_len_of d arch) ≡ some window
            → (sections : List Section) × (d.sections bytes ≡ some sections)
              × Any (IsWindowOf offset 16 window) sections)
  unfolding check_prologue
  check_prologue-plausible_iff bytes offset arch =
      elim (Option-cases (read_prologue_window d bytes offset 16 (max_len_of d arch))) [
        | inl e ↦ (
          λ h. ground arith,
          (λ h. absurd (ground arith), λ h. absurd (ground arith)),
          λ window h. held window h,
        )
        | inr (window, e) ↦
            let (to, from) = check_window-plausible_iff arch window in
            let total = check_window-ne-none arch window in
            (
              λ h. ground (arith, total),
              (
                λ h.
                    let plausible : check_window d arch window ≡ some plausible_entry =
                      ground arith in
                    (ground arith, ground arith, window, e, to plausible),
                λ h.
                    let (zero_ne, sentinel_ne, window', e', entry) = h in
                    let plausible = (check_window-plausible_iff arch window').1 entry in
                    ground arith,
              ),
              λ window h. held window h,
            )
      ]
    where
      held :
          (window : List ℕ)
          → read_prologue_window d bytes offset 16 (max_len_of d arch) ≡ some window
          → (sections : List Section) × (d.sections bytes ≡ some sections)
            × Any (IsWindowOf offset 16 window) sections
      held window h =
          read_prologue_window-Any d bytes offset 16 (max_len_of d arch) window (long_window arch) h
