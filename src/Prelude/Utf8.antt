-- ===== src/Prelude/Utf8.antt =====
-- `String::from_utf8`: the bytes of a text, one at a time. A state says how many bytes of a
-- character are still to come, in what range the next one lies, and the bits read so far.
use Prim.Native.Nat.{ℕ, suc, ◌+◌, ◌-◌, ◌*◌, ◌/◌, ◌%◌, ◌≤◌, ◌<◌}
use mathlib.Core.Path.{◌≡◌, refl, ap, ◌∙◌}
use mathlib.Core.Bool.{◌&&◌}
use mathlib.Core.Logic.{◌⊎◌, inl, inr}
use mathlib.Core.List.{List, [], ◌∷◌, ◌++◌}
use mathlib.Core.Option.{Option, none, some}
use native.Mathlib.Omega.{arith}
use pulse_sdk.Prelude.Tests.{ltb, leb, ◌==◌, if◌then◌else◌, Bool-cases}
use pulse_sdk.Prelude.Lists.{All}
use pulse_sdk.Prelude.Text.{encode_char, utf8}

pub record Utf8State : Type 0 where
  pub pending : ℕ
  pub low : ℕ
  pub high : ℕ
  pub bits : ℕ

abbrev utf8_start : Utf8State
utf8_start = record { pending = 0; low = 0; high = 0; bits = 0 }

abbrev waits : ℕ → ℕ → ℕ → ℕ → Option (List ℕ × Utf8State)
waits pending low high bits =
    some ([], record { pending = pending; low = low; high = high; bits = bits })

-- The first byte of a character.
first_byte : ℕ → Option (List ℕ × Utf8State)
first_byte b =
    if ltb b 0x80
    then some (b ∷ [], utf8_start)
    else if ltb b 0xc2
    then none
    else if ltb b 0xe0
    then waits 1 0x80 0xbf (b - 0xc0)
    else if ltb b 0xf0
    then waits 2 (if b == 0xe0 then 0xa0 else 0x80) (if b == 0xed then 0x9f else 0xbf) (b - 0xe0)
    else if ltb b 0xf5
    then waits 3 (if b == 0xf0 then 0x90 else 0x80) (if b == 0xf4 then 0x8f else 0xbf) (b - 0xf0)
    else none

-- A further byte of a character.
next_byte : Utf8State → ℕ → Option (List ℕ × Utf8State)
next_byte s b =
    if leb s.low b && leb b s.high
    then (if s.pending == 1
        then some ((s.bits * 64 + (b - 0x80)) ∷ [], utf8_start)
        else waits (s.pending - 1) 0x80 0xbf (s.bits * 64 + (b - 0x80)))
    else none

utf8_step : Utf8State → ℕ → Option (List ℕ × Utf8State)
unfolding first_byte next_byte
utf8_step s b = if s.pending == 0 then first_byte b else next_byte s b

unfoldable from_utf8_state : Utf8State → List ℕ → Option (List ℕ)
unfolding utf8_step
from_utf8_state s [] = if s.pending == 0 then some [] else none
from_utf8_state s (b ∷ bytes) = elim (utf8_step s b) [
  | none ↦ none
  | some (out, s') ↦ elim (from_utf8_state s' bytes) [
    | none ↦ none
    | some text ↦ some (out ++ text)
  ]
]

unfoldable pub from_utf8 : List ℕ → Option (List ℕ)
unfolding from_utf8_state
from_utf8 bytes = from_utf8_state utf8_start bytes

-- A Unicode scalar value.
abbrev pub IsScalar : ℕ → Type 0
IsScalar c = (c < 0xd800) ⊎ ((0xe000 ≤ c) × (c < 0x110000))

abbrev pub IsScalarText : List ℕ → Type 0
IsScalarText text = All IsScalar text

abbrev state : ℕ → ℕ → ℕ → ℕ → Utf8State
state pending low high bits = record { pending = pending; low = low; high = high; bits = bits }

module _ (rest text : List ℕ) where
  -- A byte that is accepted, and what follows it.
  from_utf8_state-step :
      (s s' : Utf8State) (b : ℕ) (out : List ℕ)
      → utf8_step s b ≡ some (out, s')
      → from_utf8_state s' rest ≡ some text
      → from_utf8_state s (b ∷ rest) ≡ some (out ++ text)
  unfolding from_utf8_state
  from_utf8_state-step s s' b out e h = ground (arith, e, h)

utf8_step-one : (b : ℕ) → b < 0x80 → utf8_step utf8_start b ≡ some (b ∷ [], utf8_start)
unfolding utf8_step first_byte
utf8_step-one b h = ground arith

utf8_step-two : (q : ℕ) → 2 ≤ q → q < 32 → utf8_step utf8_start (0xc0 + q) ≡ waits 1 0x80 0xbf q
unfolding utf8_step first_byte
utf8_step-two q h k = let e : 0xc0 + q - 0xc0 ≡ q = omega arith in ground arith

abbrev low_three : ℕ → ℕ
low_three q = if q == 0 then 0xa0 else 0x80

abbrev high_three : ℕ → ℕ
high_three q = if q == 13 then 0x9f else 0xbf

utf8_step-three :
    (q : ℕ) → q < 16 → utf8_step utf8_start (0xe0 + q) ≡ waits 2 (low_three q) (high_three q) q
unfolding utf8_step first_byte
utf8_step-three q h = let e : 0xe0 + q - 0xe0 ≡ q = omega arith in ground arith

abbrev low_four : ℕ → ℕ
low_four q = if q == 0 then 0x90 else 0x80

abbrev high_four : ℕ → ℕ
high_four q = if q == 4 then 0x8f else 0xbf

utf8_step-four :
    (q : ℕ) → q < 5 → utf8_step utf8_start (0xf0 + q) ≡ waits 3 (low_four q) (high_four q) q
unfolding utf8_step first_byte
utf8_step-four q h = let e : 0xf0 + q - 0xf0 ≡ q = omega arith in ground arith

utf8_step-last :
    (low high bits d : ℕ)
    → low ≤ 0x80 + d
    → 0x80 + d ≤ high
    → utf8_step (state 1 low high bits) (0x80 + d) ≡ some ((bits * 64 + d) ∷ [], utf8_start)
unfolding utf8_step next_byte
utf8_step-last low high bits d h k = let e : 0x80 + d - 0x80 ≡ d = omega arith in ground arith

utf8_step-further :
    (n low high bits d : ℕ)
    → low ≤ 0x80 + d
    → 0x80 + d ≤ high
    → utf8_step (state (suc (suc n)) low high bits) (0x80 + d)
      ≡ waits (suc n) 0x80 0xbf (bits * 64 + d)
unfolding utf8_step next_byte
utf8_step-further n low high bits d h k = let e : 0x80 + d - 0x80 ≡ d = omega arith in ground arith

module _ (c : ℕ) (rest text : List ℕ) (h : from_utf8_state utf8_start rest ≡ some text) where
  one_byte : c < 0x80 → from_utf8_state utf8_start (c ∷ rest) ≡ some (c ∷ text)
  one_byte lt = from_utf8_state-step rest text _ _ c _ (utf8_step-one c lt) h

  -- The last byte of a character of several bytes.
  last_byte :
      (low high bits d : ℕ)
      → low ≤ 0x80 + d
      → 0x80 + d ≤ high
      → bits * 64 + d ≡ c
      → from_utf8_state (state 1 low high bits) ((0x80 + d) ∷ rest) ≡ some (c ∷ text)
  last_byte low high bits d l u e =
      from_utf8_state-step rest text _ _ _ _ (utf8_step-last low high bits d l u) h
      ∙ ap (λ x. some (x ∷ text)) e

  two_bytes :
      0x80 ≤ c
      → c < 0x800
      → from_utf8_state utf8_start ((0xc0 + c / 64) ∷ (0x80 + c % 64) ∷ rest) ≡ some (c ∷ text)
  two_bytes l u =
      from_utf8_state-step _ _ _ _ _ [] (utf8_step-two (c / 64) (omega arith) (omega arith))
        (last_byte 0x80 0xbf (c / 64) (c % 64) (omega arith) (omega arith) (omega arith))

  further_byte :
      (n low high bits d : ℕ) (bytes : List ℕ)
      → low ≤ 0x80 + d
      → 0x80 + d ≤ high
      → from_utf8_state (state (suc n) 0x80 0xbf (bits * 64 + d)) bytes ≡ some (c ∷ text)
      → from_utf8_state (state (suc (suc n)) low high bits) ((0x80 + d) ∷ bytes) ≡ some (c ∷ text)
  further_byte n low high bits d bytes l u k =
      from_utf8_state-step _ _ _ _ _ [] (utf8_step-further n low high bits d l u) k

  three_bytes :
      0x800 ≤ c
      → c < 0x10000
      → IsScalar c
      → from_utf8_state utf8_start
          ((0xe0 + c / 4096) ∷ (0x80 + c / 64 % 64) ∷ (0x80 + c % 64) ∷ rest)
        ≡ some (c ∷ text)
  three_bytes l u scalar =
      let low : low_three (c / 4096) ≤ 0x80 + c / 64 % 64 = ground arith in
      let high : 0x80 + c / 64 % 64 ≤ high_three (c / 4096) = ground arith in
      from_utf8_state-step _ _ _ _ _ [] (utf8_step-three (c / 4096) (omega arith)) (
        further_byte 0 _ _ (c / 4096) (c / 64 % 64) _ low high
          (last_byte 0x80 0xbf _ (c % 64) (omega arith) (omega arith) (omega arith)))

  four_bytes :
      0x10000 ≤ c
      → c < 0x110000
      → from_utf8_state utf8_start (
          (0xf0 + c / 262144)
          ∷ (0x80 + c / 4096 % 64)
          ∷ (0x80 + c / 64 % 64)
          ∷ (0x80 + c % 64)
          ∷ rest)
        ≡ some (c ∷ text)
  four_bytes l u =
      let low : low_four (c / 262144) ≤ 0x80 + c / 4096 % 64 = ground arith in
      let high : 0x80 + c / 4096 % 64 ≤ high_four (c / 262144) = ground arith in
      from_utf8_state-step _ _ _ _ _ [] (utf8_step-four (c / 262144) (omega arith)) (
        further_byte 1 _ _ (c / 262144) (c / 4096 % 64) _ low high (
          further_byte 0 _ _ _ (c / 64 % 64) _ (omega arith) (omega arith)
            (last_byte 0x80 0xbf _ (c % 64) (omega arith) (omega arith) (omega arith))))

  from_utf8_char : IsScalar c → from_utf8_state utf8_start (encode_char c ++ rest) ≡ some (c ∷ text)
  from_utf8_char scalar = elim (Bool-cases (ltb c 0x80)) [
    | inl e ↦ rw e (one_byte (ground arith))
    | inr e ↦ elim (Bool-cases (ltb c 0x800)) [
      | inl e' ↦ rw (e, e') (two_bytes (ground arith) (ground arith))
      | inr e' ↦ elim (Bool-cases (ltb c 0x10000)) [
        | inl f ↦ rw (e, e', f) (three_bytes (ground arith) (ground arith) scalar)
        | inr f ↦ rw (e, e', f) (four_bytes (ground arith) (ground arith))
      ]
    ]
  ]

-- The bytes of a text of scalar values are read back.
pub from_utf8-utf8 : (text : List ℕ) → IsScalarText text → from_utf8 (utf8 text) ≡ some text
unfolding from_utf8 utf8
from_utf8-utf8 [] h = refl
from_utf8-utf8 (c ∷ text) (scalar, h) =
    from_utf8_char c (utf8 text) text (from_utf8-utf8 text h) scalar
