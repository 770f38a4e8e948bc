-- ===== src/Prelude/Digits.antt =====
-- The digits of a number tell it apart from the others.
use Prim.Native.Nat.{ℕ, zero, suc, ◌+◌, ◌-◌, ◌*◌, ◌/◌, ◌%◌, ◌<◌}
use mathlib.Core.Path.{◌≡◌, sym, ap, ◌∙◌}
use mathlib.Core.Bool.{false, ◌&&◌}
use mathlib.Core.Logic.{inl, inr}
use mathlib.Core.List.{List, [], ◌∷◌, ◌++◌}
use native.Mathlib.Omega.{arith}
use pulse_sdk.Prelude.Tests.{leb, ◌==◌, if◌then◌else◌, Bool-cases}
use pulse_sdk.Prelude.Lists.{All}
use pulse_sdk.Prelude.Text.{decimal, decimal_loop}

-- The number that the leading digits of a text spell behind `n`.
number : ℕ → List ℕ → ℕ
number n [] = n
number n (c ∷ text) =
    let rest = number (n * 10 + (c - 48)) text in if leb 48 c && leb c 57 then rest else n

number-digit :
    (n d : ℕ) (text : List ℕ) → d < 10 → number n ((48 + d) ∷ text) ≡ number (n * 10 + d) text
unfolding number
number-digit n d text h = let e : 48 + d - 48 ≡ d = omega arith in ground arith

number-decimal_loop :
    (rounds n : ℕ) (acc rest : List ℕ)
    → n < rounds
    → number 0 (decimal_loop rounds n acc ++ rest) ≡ number n (acc ++ rest)
unfolding decimal_loop
number-decimal_loop zero n acc rest h = absurd (omega arith)
number-decimal_loop (suc rounds) n acc rest h = elim (Bool-cases (n / 10 == 0)) [
  | inl e ↦
      let small : 0 * 10 + n % 10 ≡ n = ground arith in
      rw (e, decimal_loop)
        (number-digit 0 (n % 10) (acc ++ rest) (omega arith)
          ∙ ap (λ k. number k (acc ++ rest)) small)
  | inr e ↦
      let whole : n / 10 * 10 + n % 10 ≡ n = omega arith in
      rw (e, decimal_loop)
        (number-decimal_loop rounds (n / 10) ((48 + n % 10) ∷ acc) rest (ground arith)
          ∙ (number-digit (n / 10) (n % 10) (acc ++ rest) (omega arith)
              ∙ ap (λ k. number k (acc ++ rest)) whole))
]

-- What follows the digits does not begin with one.
pub decimal-append-injective :
    (i j stop : ℕ) (rest : List ℕ)
    → (leb 48 stop && leb stop 57) ≡ false
    → decimal i ++ stop ∷ rest ≡ decimal j ++ stop ∷ rest
    → i ≡ j
unfolding decimal number
decimal-append-injective i j stop rest h e =
    let at : (n : ℕ) → number n (stop ∷ rest) ≡ n = λ n. rw h in
    sym (number-decimal_loop (suc i) i [] (stop ∷ rest) (omega arith) ∙ at i)
    ∙ (ap (number 0) e ∙ (number-decimal_loop (suc j) j [] (stop ∷ rest) (omega arith) ∙ at j))

decimal_loop-All :
    (P : ℕ → Type 0) (rounds n : ℕ) (acc : List ℕ)
    → ((d : ℕ) → d < 10 → P (48 + d))
    → All P acc
    → All P (decimal_loop rounds n acc)
unfolding decimal_loop
decimal_loop-All P zero n acc f h = h
decimal_loop-All P (suc rounds) n acc f h = elim (Bool-cases (n / 10 == 0)) [
  | inl e ↦ rw (e, decimal_loop) (f (n % 10) (omega arith), h)
  | inr e ↦
      rw (e, decimal_loop)
        (decimal_loop-All P rounds (n / 10) ((48 + n % 10) ∷ acc) f (f (n % 10) (omega arith), h))
]

-- A property of the digits is one of a number's text.
pub decimal-All : (P : ℕ → Type 0) (n : ℕ) → ((d : ℕ) → d < 10 → P (48 + d)) → All P (decimal n)
unfolding decimal
decimal-All P n f = decimal_loop-All P (suc n) n [] f tt
