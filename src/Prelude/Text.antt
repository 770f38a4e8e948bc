-- ===== src/Prelude/Text.antt =====
-- Text as lists of code points, and what the source uses of the standard library on it:
-- `split_whitespace` (and the split of a path at `/`), ASCII classes, `from_str_radix`.
use Prim.Native.Char.{code}
use Prim.Native.Nat.{ℕ, zero, suc, ◌/◌, ◌%◌, ◌+◌, ◌-◌, ◌*◌}
use Prim.Native.String.{String}
use mathlib.Core.Bool.{Bool, true, false, ◌&&◌, ◌||◌}
use mathlib.Core.List.{List, [], ◌∷◌, ◌++◌, append_assoc, append-nil}
use mathlib.Core.Option.{Option, none, some}
use mathlib.Core.Path.{◌≡◌, refl, sym, ap, ◌∙◌}
use mathlib.Core.Logic.{inl, inr}
use pulse_sdk.Prelude.Lists.{All, contains}
use pulse_sdk.Prelude.Tests.{ltb, leb, ◌==◌, if◌then◌else◌, Bool-cases}

-- The code points of a literal.
abbrev pub codes : String → List ℕ
codes String.[] = []
codes (String.◌∷◌ c s) = code c ∷ codes s

abbrev pub in_range : ℕ → ℕ → ℕ → Bool
in_range lo hi c = leb lo c && leb c hi

-- `char::is_whitespace`: the code points with the property White_Space.
unfoldable pub is_whitespace : ℕ → Bool
is_whitespace c =
    in_range 9 13 c
    || contains (32 ∷ 0x85 ∷ 0xa0 ∷ 0x1680 ∷ 0x2028 ∷ 0x2029 ∷ 0x202f ∷ 0x205f ∷ 0x3000 ∷ []) c
    || in_range 0x2000 0x200a c

-- `len_utf8`
len_utf8 : ℕ → ℕ
len_utf8 c = if ltb c 0x80 then 1 else if ltb c 0x800 then 2 else if ltb c 0x10000 then 3 else 4

-- `str::len`, in bytes.
unfoldable pub byte_len : List ℕ → ℕ
unfolding len_utf8
byte_len [] = 0
byte_len (c ∷ text) = len_utf8 c + byte_len text

-- `char::encode_utf8`
abbrev pub encode_char : ℕ → List ℕ
encode_char c =
    if ltb c 0x80
    then c ∷ []
    else if ltb c 0x800
    then (0xc0 + c / 64) ∷ (0x80 + c % 64) ∷ []
    else if ltb c 0x10000
    then (0xe0 + c / 4096) ∷ (0x80 + c / 64 % 64) ∷ (0x80 + c % 64) ∷ []
    else (0xf0 + c / 262144) ∷ (0x80 + c / 4096 % 64) ∷ (0x80 + c / 64 % 64) ∷ (0x80 + c % 64) ∷ []

-- `str::as_bytes`
unfoldable pub utf8 : List ℕ → List ℕ
utf8 [] = []
utf8 (c ∷ text) = encode_char c ++ utf8 text

-- The digits of a number, least significant last, in front of `acc`: a round for each digit.
unfoldable pub decimal_loop : ℕ → ℕ → List ℕ → List ℕ
decimal_loop zero n acc = acc
decimal_loop (suc rounds) n acc =
    let acc' = (b'0' + n % 10) ∷ acc in
    elim (n / 10 == 0) [ true ↦ acc' | false ↦ decimal_loop rounds (n / 10) acc' ]

-- `{n}`
unfoldable pub decimal : ℕ → List ℕ
unfolding decimal_loop
decimal n = decimal_loop (suc n) n []

abbrev is_digit : ℕ → Bool
is_digit c = in_range b'0' b'9' c

abbrev pub is_ascii_hexdigit : ℕ → Bool
is_ascii_hexdigit c = is_digit c || in_range b'A' b'F' c || in_range b'a' b'f' c

-- Whether all the bytes of the text pass an ASCII test: a byte of a character outside ASCII passes
-- none, and such a character's code point passes none either.
unfoldable pub all_chars : (ℕ → Bool) → List ℕ → Bool
all_chars p [] = true
all_chars p (c ∷ text) = p c && all_chars p text

-- `char::to_digit(radix)` for a radix up to 36.
unfoldable pub to_digit : ℕ → ℕ → Option ℕ
to_digit radix c =
    let d =
      if in_range b'0' b'9' c
      then c - b'0'
      else if in_range b'A' b'Z' c
      then c - b'A' + 10
      else if in_range b'a' b'z' c
      then c - b'a' + 10
      else 36 in
    if ltb d radix then some d else none

-- The digit loop of `from_str_radix`, with its overflow check: `limit` is the first number that the
-- type cannot hold.
unfoldable pub digits_value : ℕ → ℕ → ℕ → List ℕ → Option ℕ
unfolding to_digit
digits_value radix limit acc [] = some acc
digits_value radix limit acc (c ∷ text) = elim (to_digit radix c) [
  | none ↦ none
  | some d ↦
      let acc' = acc * radix + d in
      elim (ltb acc' limit) [ true ↦ digits_value radix limit acc' text | false ↦ none ]
]

-- `from_str_radix` of an unsigned type: a `+` may lead, and a digit must follow.
unfoldable pub from_str_radix : ℕ → ℕ → List ℕ → Option ℕ
unfolding digits_value
from_str_radix radix limit [] = none
from_str_radix radix limit (c ∷ []) = digits_value radix limit 0 (c ∷ [])
from_str_radix radix limit (c ∷ c' ∷ text) = elim (c == b'+') [
  | true ↦ digits_value radix limit 0 (c' ∷ text)
  | false ↦ digits_value radix limit 0 (c ∷ c' ∷ text)
]

-- A word that is under way is ended, unless it is empty.
abbrev pub flush : List ℕ → List (List ℕ) → List (List ℕ)
flush [] words = words
flush (c ∷ word) words = (c ∷ word) ∷ words

unfoldable pub word_loop : (ℕ → Bool) → List ℕ → List ℕ → List (List ℕ)
word_loop is_separator word [] = flush word []
word_loop is_separator word (c ∷ text) = elim (is_separator c) [
  | true ↦ flush word (word_loop is_separator [] text)
  | false ↦ word_loop is_separator (word ++ c ∷ []) text
]

-- The words between separators, none of them empty.
unfoldable pub words : (ℕ → Bool) → List ℕ → List (List ℕ)
unfolding word_loop
words is_separator text = word_loop is_separator [] text

flush-append : (word : List ℕ) (us vs : List (List ℕ)) → flush word us ++ vs ≡ flush word (us ++ vs)
flush-append [] us vs = refl
flush-append (c ∷ word) us vs = refl

module _ (is_separator : ℕ → Bool) where
  word_loop-append :
      (word xs ys : List ℕ) (c : ℕ)
      → is_separator c ≡ true
      → word_loop is_separator word (xs ++ (c ∷ ys))
        ≡ word_loop is_separator word xs ++ word_loop is_separator [] ys
  unfolding word_loop
  word_loop-append word [] ys c h = rw (h, word_loop) (sym (flush-append word [] _))
  word_loop-append word (x ∷ xs) ys c h = elim (Bool-cases (is_separator x)) [
    | inl e ↦
        rw (e, word_loop) (rw (flush-append word) (ap (flush word) (word_loop-append [] xs ys c h)))
    | inr e ↦ rw (e, word_loop) (word_loop-append (word ++ x ∷ []) xs ys c h)
  ]

  pub word_loop-word :
      (word w : List ℕ)
      → All (λ c. is_separator c ≡ false) w
      → word_loop is_separator word w ≡ flush (word ++ w) []
  unfolding word_loop
  word_loop-word word [] h = rw append-nil
  word_loop-word word (x ∷ w) (e, h) =
      rw (e, word_loop) (word_loop-word (word ++ x ∷ []) w h ∙ rw (append_assoc word (x ∷ []) w))

  -- A separator splits a text into two that are split by themselves.
  pub words-append :
      (xs ys : List ℕ) (c : ℕ)
      → is_separator c ≡ true
      → words is_separator (xs ++ (c ∷ ys)) ≡ words is_separator xs ++ words is_separator ys
  unfolding words
  words-append xs ys c h = word_loop-append [] xs ys c h

  -- A text without separators is a word.
  pub words-word :
      (x : ℕ) (w : List ℕ)
      → All (λ c. is_separator c ≡ false) (x ∷ w)
      → words is_separator (x ∷ w) ≡ (x ∷ w) ∷ []
  unfolding words
  words-word x w h = word_loop-word [] (x ∷ w) h
