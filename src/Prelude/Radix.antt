-- ===== src/Prelude/Radix.antt =====
-- `{:X}`, and that a number's text is read back by `from_str_radix`.
use Prim.Native.Nat.{ℕ, zero, suc, ◌+◌, ◌-◌, ◌*◌, ◌/◌, ◌%◌, ◌<◌}
use mathlib.Core.Path.{◌≡◌, refl, sym, ap, ◌∙◌}
use mathlib.Core.Bool.{true, false}
use mathlib.Core.Logic.{inl, inr}
use mathlib.Core.List.{List, [], ◌∷◌}
use mathlib.Core.Option.{some}
use native.Mathlib.Omega.{arith}
use pulse_sdk.Prelude.Tests.{ltb, ◌==◌, if◌then◌else◌, Bool-cases}
use pulse_sdk.Prelude.Lists.{All}
use pulse_sdk.Prelude.Text.{decimal, decimal_loop, to_digit, digits_value, from_str_radix}

abbrev pub upper_digit : ℕ → ℕ
upper_digit d = if ltb d 10 then b'0' + d else b'A' + (d - 10)

unfoldable pub hex_loop : ℕ → ℕ → List ℕ → List ℕ
hex_loop zero n acc = acc
hex_loop (suc rounds) n acc =
    let acc' = upper_digit (n % 16) ∷ acc in
    elim (n / 16 == 0) [ true ↦ acc' | false ↦ hex_loop rounds (n / 16) acc' ]

-- `{:X}`
unfoldable pub hex_upper : ℕ → List ℕ
unfolding hex_loop
hex_upper n = hex_loop (suc n) n []

-- One digit of the loop of `from_str_radix`.
digits_value-digit :
    (radix limit acc c d : ℕ) (text : List ℕ)
    → to_digit radix c ≡ some d
    → acc * radix + d < limit
    → digits_value radix limit acc (c ∷ text) ≡ digits_value radix limit (acc * radix + d) text
unfolding digits_value
digits_value-digit radix limit acc c d text e lt =
    let t : ltb (acc * radix + d) limit ≡ true = ground arith in rw (e, digits_value) (rw t refl)

to_digit-decimal : (d : ℕ) → d < 10 → to_digit 10 (48 + d) ≡ some d
unfolding to_digit
to_digit-decimal d h = let e : 48 + d - 48 ≡ d = omega arith in ground arith

to_digit-upper : (d : ℕ) → d < 16 → to_digit 16 (upper_digit d) ≡ some d
unfolding to_digit
to_digit-upper d h = elim (Bool-cases (ltb d 10)) [
  | inl e ↦ let e' : 48 + d - 48 ≡ d = omega arith in ground arith
  | inr e ↦ let e' : 65 + (d - 10) - 65 + 10 ≡ d = ground arith in ground arith
]

digits_value-decimal_loop :
    (limit rounds n : ℕ) (acc : List ℕ)
    → n < rounds
    → n < limit
    → digits_value 10 limit 0 (decimal_loop rounds n acc) ≡ digits_value 10 limit n acc
unfolding decimal_loop
digits_value-decimal_loop limit zero n acc h l = absurd (omega arith)
digits_value-decimal_loop limit (suc rounds) n acc h l =
    let whole : n / 10 * 10 + n % 10 ≡ n = omega arith in
    let below : n / 10 * 10 + n % 10 < limit = omega arith in
    let step =
      digits_value-digit 10 limit (n / 10) (48 + n % 10) (n % 10) acc
        (to_digit-decimal (n % 10) (omega arith)) below in
    let back = step ∙ ap (λ k. digits_value 10 limit k acc) whole in
    elim (Bool-cases (n / 10 == 0)) [
      | inl e ↦
          let first : n / 10 ≡ 0 = ground arith in
          rw (e, decimal_loop)
            (ap (λ k. digits_value 10 limit k ((48 + n % 10) ∷ acc)) (sym first) ∙ back)
      | inr e ↦
          rw (e, decimal_loop)
            (digits_value-decimal_loop limit rounds (n / 10) ((48 + n % 10) ∷ acc) (ground arith)
                (omega arith)
              ∙ back)
    ]

digits_value-hex_loop :
    (limit rounds n : ℕ) (acc : List ℕ)
    → n < rounds
    → n < limit
    → digits_value 16 limit 0 (hex_loop rounds n acc) ≡ digits_value 16 limit n acc
unfolding hex_loop
digits_value-hex_loop limit zero n acc h l = absurd (omega arith)
digits_value-hex_loop limit (suc rounds) n acc h l =
    let whole : n / 16 * 16 + n % 16 ≡ n = omega arith in
    let below : n / 16 * 16 + n % 16 < limit = omega arith in
    let step =
      digits_value-digit 16 limit (n / 16) (upper_digit (n % 16)) (n % 16) acc
        (to_digit-upper (n % 16) (omega arith)) below in
    let back = step ∙ ap (λ k. digits_value 16 limit k acc) whole in
    elim (Bool-cases (n / 16 == 0)) [
      | inl e ↦
          let first : n / 16 ≡ 0 = ground arith in
          rw (e, hex_loop)
            (ap (λ k. digits_value 16 limit k (upper_digit (n % 16) ∷ acc)) (sym first) ∙ back)
      | inr e ↦
          rw (e, hex_loop)
            (digits_value-hex_loop limit rounds (n / 16) (upper_digit (n % 16) ∷ acc) (ground arith)
                (omega arith)
              ∙ back)
    ]

-- Text that begins with something else than a sign is read digit by digit.
from_str_radix-digits :
    (radix limit c : ℕ) (text : List ℕ)
    → (c == b'+') ≡ false
    → from_str_radix radix limit (c ∷ text) ≡ digits_value radix limit 0 (c ∷ text)
unfolding from_str_radix
from_str_radix-digits radix limit c [] h = refl
from_str_radix-digits radix limit c (c' ∷ text) h = rw (h, from_str_radix) refl

-- A text of digits has a first one.
decimal_loop-first :
    (rounds n : ℕ) (acc : List ℕ)
    → n < rounds
    → (d : ℕ) × (text : List ℕ) × (decimal_loop rounds n acc ≡ (48 + d) ∷ text) × (d < 10)
unfolding decimal_loop
decimal_loop-first zero n acc h = absurd (omega arith)
decimal_loop-first (suc rounds) n acc h = elim (Bool-cases (n / 10 == 0)) [
  | inl e ↦ (n % 10, acc, rw (e, decimal_loop) refl, omega arith)
  | inr e ↦
      let (d, text, p, l) =
        decimal_loop-first rounds (n / 10) ((48 + n % 10) ∷ acc) (ground arith) in
      (d, text, rw (e, decimal_loop) p, l)
]

hex_loop-first :
    (rounds n : ℕ) (acc : List ℕ)
    → n < rounds
    → (d : ℕ) × (text : List ℕ) × (hex_loop rounds n acc ≡ upper_digit d ∷ text) × (d < 16)
unfolding hex_loop
hex_loop-first zero n acc h = absurd (omega arith)
hex_loop-first (suc rounds) n acc h = elim (Bool-cases (n / 16 == 0)) [
  | inl e ↦ (n % 16, acc, rw (e, hex_loop) refl, omega arith)
  | inr e ↦
      let (d, text, p, l) =
        hex_loop-first rounds (n / 16) (upper_digit (n % 16) ∷ acc) (ground arith) in
      (d, text, rw (e, hex_loop) p, l)
]

pub decimal-first : (n : ℕ) → (d : ℕ) × (text : List ℕ) × (decimal n ≡ (48 + d) ∷ text) × (d < 10)
unfolding decimal
decimal-first n = decimal_loop-first (suc n) n [] (omega arith)

pub hex_upper-first :
    (n : ℕ) → (d : ℕ) × (text : List ℕ) × (hex_upper n ≡ upper_digit d ∷ text) × (d < 16)
unfolding hex_upper
hex_upper-first n = hex_loop-first (suc n) n [] (omega arith)

digits_value-nil : (radix limit n : ℕ) → digits_value radix limit n [] ≡ some n
unfolding digits_value
digits_value-nil radix limit n = refl

-- A number below the limit is read back.
pub from_str_radix-decimal :
    (limit n : ℕ) → n < limit → from_str_radix 10 limit (decimal n) ≡ some n
from_str_radix-decimal limit n h =
    let (d, text, e, l) = decimal-first n in
    let sign : (48 + d == b'+') ≡ false = ground arith in
    ap (from_str_radix 10 limit) e
    ∙ (from_str_radix-digits 10 limit (48 + d) text sign
        ∙ (ap (digits_value 10 limit 0) (sym e)
            ∙ (unfold decimal in
                digits_value-decimal_loop limit (suc n) n [] (omega arith) h
                ∙ digits_value-nil 10 limit n)))

pub from_str_radix-hex_upper :
    (limit n : ℕ) → n < limit → from_str_radix 16 limit (hex_upper n) ≡ some n
from_str_radix-hex_upper limit n h =
    let (d, text, e, l) = hex_upper-first n in
    let sign : (upper_digit d == b'+') ≡ false = ground arith in
    ap (from_str_radix 16 limit) e
    ∙ (from_str_radix-digits 16 limit (upper_digit d) text sign
        ∙ (ap (digits_value 16 limit 0) (sym e)
            ∙ (unfold hex_upper in
                digits_value-hex_loop limit (suc n) n [] (omega arith) h
                ∙ digits_value-nil 16 limit n)))

hex_loop-All :
    (P : ℕ → Type 0) (rounds n : ℕ) (acc : List ℕ)
    → ((d : ℕ) → d < 16 → P (upper_digit d))
    → All P acc
    → All P (hex_loop rounds n acc)
unfolding hex_loop
hex_loop-All P zero n acc f h = h
hex_loop-All P (suc rounds) n acc f h = elim (Bool-cases (n / 16 == 0)) [
  | inl e ↦ rw (e, hex_loop) (f (n % 16) (omega arith), h)
  | inr e ↦
      rw (e, hex_loop)
        (hex_loop-All P rounds (n / 16) (upper_digit (n % 16) ∷ acc) f
          (f (n % 16) (omega arith), h))
]

pub hex_upper-All :
    (P : ℕ → Type 0) (n : ℕ) → ((d : ℕ) → d < 16 → P (upper_digit d)) → All P (hex_upper n)
unfolding hex_upper
hex_upper-All P n f = hex_loop-All P (suc n) n [] f tt
