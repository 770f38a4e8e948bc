-- ===== src/Siggen/Scan/Exact.antt =====
-- What `scan_all` finds, against positions read off byte by byte.
use pulse_sdk.Prelude.{
  ℕ, zero, suc, ◌+◌, ◌-◌, ◌≤◌, ◌<◌, ◌≡◌, refl, ap, ◌↔◌, true, ◌&&◌, ◌||◌, List, [], ◌∷◌, some, inl,
  inr, length, is_empty, take, drop, get_elem?, length-drop, contains, IsIncreasing, arith, ltb,
  leb, Bool-cases,
}
use pulse_sdk.Siggen.Signature.{SigByte, fixed, wildcard, ByteSignature}
use pulse_sdk.Siggen.Scan.{sig_byte_matches, window_matches, scan_loop, scan_all}

-- Each fixed byte of the pattern is the byte of the window at its place.
abbrev Agrees : List ℕ → List SigByte → Type 0
Agrees window pattern =
    (i b : ℕ) → get_elem? pattern i ≡ some (fixed b) → get_elem? window i ≡ some b

-- The signature has an element, lies within the binary at `start`, and agrees with it there.
pub record Occurs (binary : List ℕ) (sig : ByteSignature) (start : ℕ) : Type 0 where
  pub nonempty : 0 < length sig.bytes
  pub within : start + length sig.bytes ≤ length binary
  pub agrees : Agrees (drop start binary) sig.bytes

Agrees-of_window_matches :
    (window : List ℕ) (pattern : List SigByte)
    → length pattern ≤ length window
    → window_matches window pattern ≡ true
    → Agrees window pattern
unfolding window_matches
Agrees-of_window_matches [] [] le h i b e = cc
Agrees-of_window_matches [] (s ∷ pattern) le h i b e = absurd (omega arith)
Agrees-of_window_matches (x ∷ window) [] le h i b e = cc
Agrees-of_window_matches (x ∷ window) (fixed y ∷ pattern) le h zero b e = ground arith
Agrees-of_window_matches (x ∷ window) (wildcard ∷ pattern) le h zero b e = cc
Agrees-of_window_matches (x ∷ window) (s ∷ pattern) le h (suc i) b e =
    Agrees-of_window_matches window pattern (omega arith) (ground arith) i b e

window_matches-of_Agrees :
    (window : List ℕ) (pattern : List SigByte)
    → Agrees window pattern
    → window_matches window pattern ≡ true
unfolding window_matches
window_matches-of_Agrees [] pattern h = refl
window_matches-of_Agrees (x ∷ window) [] h = refl
window_matches-of_Agrees (x ∷ window) (fixed y ∷ pattern) h =
    let rest = window_matches-of_Agrees window pattern (λ i b e. h (suc i) b e) in
    ground (arith, h 0 y)
window_matches-of_Agrees (x ∷ window) (wildcard ∷ pattern) h =
    window_matches-of_Agrees window pattern (λ i b e. h (suc i) b e)

-- Cutting the window to the pattern's length changes nothing.
window_matches-take :
    (window : List ℕ) (pattern : List SigByte)
    → window_matches (take (length pattern) window) pattern ≡ window_matches window pattern
unfolding window_matches
window_matches-take [] [] = refl
window_matches-take [] (s ∷ pattern) = refl
window_matches-take (x ∷ window) [] = refl
window_matches-take (x ∷ window) (s ∷ pattern) =
    ap (λ b. sig_byte_matches x s && b) (window_matches-take window pattern)

contains-scan_loop :
    (binary : List ℕ) (pattern : List SigByte) (start rounds o : ℕ)
    → contains (scan_loop binary pattern start rounds) o
      ≡ (leb start o && ltb o (start + rounds) && window_matches (drop o binary) pattern)
unfolding scan_loop
contains-scan_loop binary pattern start zero o = ground arith
contains-scan_loop binary pattern start (suc rounds) o = rw window_matches-take (
    ground (
      arith,
      contains-scan_loop binary pattern (start + 1) rounds o,
      ap (λ k. window_matches (drop k binary) pattern) {x = start} {y = o},
    ))

scan_loop-IsIncreasing :
    (binary : List ℕ) (pattern : List SigByte) (lo start rounds : ℕ)
    → lo ≤ start
    → IsIncreasing lo (scan_loop binary pattern start rounds)
unfolding scan_loop
scan_loop-IsIncreasing binary pattern lo start zero h = tt
scan_loop-IsIncreasing binary pattern lo start (suc rounds) h =
    elim (Bool-cases (window_matches (take (length pattern) (drop start binary)) pattern)) [
      | inl e ↦
          rw e
            (h, scan_loop-IsIncreasing binary pattern (suc start) (start + 1) rounds (omega arith))
      | inr e ↦ rw e (scan_loop-IsIncreasing binary pattern lo (start + 1) rounds (omega arith))
    ]

contains-scan_all :
    (binary : List ℕ) (sig : ByteSignature) (o : ℕ)
    → contains (scan_all binary sig) o ≡ (
        ltb 0 (length sig.bytes)
        && leb (o + length sig.bytes) (length binary)
        && window_matches (drop o binary) sig.bytes)
unfolding scan_all
contains-scan_all binary sig o =
    ground (arith, contains-scan_loop binary sig.bytes 0 (length binary - length sig.bytes + 1) o)

-- The positions that `scan_all` returns are exactly those at which the signature occurs.
pub scan_all_iff :
    (binary : List ℕ) (sig : ByteSignature) (o : ℕ)
    → (contains (scan_all binary sig) o ≡ true) ↔ Occurs binary sig o
scan_all_iff binary sig o = (
  λ h.
      let nonempty : 0 < length sig.bytes = ground (arith, contains-scan_all binary sig o) in
      let within : o + length sig.bytes ≤ length binary =
        ground (arith, contains-scan_all binary sig o) in
      let agrees : window_matches (drop o binary) sig.bytes ≡ true =
        ground (arith, contains-scan_all binary sig o) in
      record {
        nonempty = nonempty;
        within = within;
        agrees =
            Agrees-of_window_matches (drop o binary) sig.bytes (omega (arith, length-drop o binary))
              agrees;
      },
  λ r. ground (
    arith,
    contains-scan_all binary sig o,
    r.nonempty,
    r.within,
    window_matches-of_Agrees (drop o binary) sig.bytes r.agrees,
  ),
)

-- The positions come in increasing order, so none comes twice.
pub scan_all-IsIncreasing :
    (binary : List ℕ) (sig : ByteSignature) → IsIncreasing 0 (scan_all binary sig)
unfolding scan_all
scan_all-IsIncreasing binary sig =
    elim (Bool-cases (is_empty sig.bytes || ltb (length binary) (length sig.bytes))) [
      | inl e ↦ rw e tt
      | inr e ↦ rw e (scan_loop-IsIncreasing binary sig.bytes 0 0 _ (omega arith))
    ]

-- A list in increasing order is `o` alone exactly when it holds `o` and nothing else.
Increasing-eq-singleton :
    (l : List ℕ) (lo o : ℕ)
    → IsIncreasing lo l
    → contains l o ≡ true
    → ((p : ℕ) → contains l p ≡ true → p ≡ o)
    → l ≡ o ∷ []
Increasing-eq-singleton [] lo o inc h u = cc
Increasing-eq-singleton (x ∷ []) lo o inc h u = ap (λ y. y ∷ []) (u x (ground arith))
Increasing-eq-singleton (x ∷ y ∷ l) lo o (_, (lt, _)) h u =
    absurd (omega (arith, u x (ground arith), u y (ground arith)))

-- The scan returns `o` alone exactly when `o` is the one position of the binary at which the
-- signature occurs.
pub scan_all_unique_iff :
    (binary : List ℕ) (sig : ByteSignature) (o : ℕ)
    → (scan_all binary sig ≡ o ∷ [])
      ↔ (Occurs binary sig o × ((p : ℕ) → Occurs binary sig p → p ≡ o))
scan_all_unique_iff binary sig o = (
  λ e. (
    (scan_all_iff binary sig o).0 (rw e (ground arith)),
    λ p r. let m = (scan_all_iff binary sig p).1 r in only p (rw e at m),
  ),
  λ h.
      Increasing-eq-singleton _ 0 o (scan_all-IsIncreasing binary sig)
        ((scan_all_iff binary sig o).1 h.0) (λ p m. h.1 p ((scan_all_iff binary sig p).0 m)),
)
  where
    only : (p : ℕ) → contains (o ∷ []) p ≡ true → p ≡ o
    only p m = ground arith
