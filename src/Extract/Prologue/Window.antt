-- ===== src/Extract/Prologue/Window.antt =====
-- The window of a prologue is what its section holds from the offset on.
use pulse_sdk.Prelude.{
  ℕ, zero, suc, ◌+◌, ◌-◌, ◌≤◌, ◌<◌, ◌≡◌, refl, sym, ap, ◌∙◌, min, ◌||◌, ◌⊎◌, some, List, [], ◌∷◌,
  length, length-take, length-drop, take, drop, ltb, leb, arith, Bool-cases, Option-cases, inl, inr,
}
use pulse_sdk.Extract.Prologue.{
  Section, Disassembler, section_end, window_in, window_of, read_prologue_window,
}

-- The bytes of a section at an address, `min_len` of them at least.
abbrev pub IsWindowOf : ℕ → ℕ → List ℕ → Section → Type 0
IsWindowOf va min_len window s =
    (s.address ≤ va)
    × (va < section_end s)
    × (min_len ≤ length window)
    × (content : List ℕ) × (s.bytes ≡ some content)
    × (window ≡ take (length window) (drop (va - s.address) content))

abbrev pub Any {ℓ} : {A : Type ℓ} → (A → Type 0) → List A → Type 0
Any P [] = ⊥
Any P (x ∷ xs) = P x ⊎ Any P xs

take-length-take : (n : ℕ) (xs : List ℕ) → take n xs ≡ take (length (take n xs)) xs
take-length-take zero xs = refl
take-length-take (suc n) [] = refl
take-length-take (suc n) (x ∷ xs) = ap (λ t. x ∷ t) (take-length-take n xs)

window_in-IsWindowOf :
    (s : Section) (va min_len max_len : ℕ) (window : List ℕ)
    → s.address ≤ va
    → va < section_end s
    → min_len ≤ max_len
    → window_in s va min_len max_len ≡ some window
    → IsWindowOf va min_len window s
unfolding window_in
window_in-IsWindowOf s va min_len max_len window lo hi le h = elim (Option-cases s.bytes) [
  | inl e ↦ absurd (ground arith)
  | inr (content, e) ↦
      let start = va - s.address in
      let k = min (start + min (section_end s - va) max_len) (length content) - start in
      let w : take k (drop start content) ≡ window = ground arith in
      let room : min_len ≤ section_end s - va = ground arith in
      let held : start + min_len ≤ length content = ground arith in
      (
        lo,
        hi,
        omega (arith, ap length w, length-take k (drop start content), length-drop start content),
        content,
        e,
        sym w
            ∙ (take-length-take k (drop start content)
                ∙ ap (λ l. take l (drop start content)) (ap length w)),
      )
]

window_of-Any :
    (sections : List Section) (va min_len max_len : ℕ) (window : List ℕ)
    → min_len ≤ max_len
    → window_of sections va min_len max_len ≡ some window
    → Any (IsWindowOf va min_len window) sections
unfolding window_of
window_of-Any [] va min_len max_len window le h = cc
window_of-Any (s ∷ sections) va min_len max_len window le h =
    elim (Bool-cases (ltb va s.address || leb (section_end s) va)) [
      | inl out ↦ inr (window_of-Any sections va min_len max_len window le (ground arith))
      | inr inside ↦ inl (
          window_in-IsWindowOf s va min_len max_len window (ground arith) (ground arith) le
            (ground arith))
    ]

-- A window that is read is what a section of the file holds there.
pub read_prologue_window-Any :
    (d : Disassembler) (bytes : List ℕ) (va min_len max_len : ℕ) (window : List ℕ)
    → min_len ≤ max_len
    → read_prologue_window d bytes va min_len max_len ≡ some window
    → (sections : List Section) × (d.sections bytes ≡ some sections)
      × Any (IsWindowOf va min_len window) sections
unfolding read_prologue_window
read_prologue_window-Any d bytes va min_len max_len window le h =
    elim (Option-cases (d.sections bytes)) [
      | inl e ↦ absurd (ground arith)
      | inr (sections, e) ↦
          (sections, e, window_of-Any sections va min_len max_len window le (ground arith))
    ]
