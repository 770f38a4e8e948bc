-- ===== src/Prelude/Trim.antt =====
-- `str::trim` and `str::split_once` at a character.
use Prim.Native.Nat.{ℕ}
use mathlib.Core.Path.{◌≡◌, refl, ap, ◌∙◌}
use mathlib.Core.Logic.{◌≢◌, inl, inr}
use mathlib.Core.Bool.{true, false, ◌&&◌}
use mathlib.Core.List.{List, [], ◌∷◌, ◌++◌}
use mathlib.Core.Option.{Option, none, some}
use native.Mathlib.Omega.{arith}
use pulse_sdk.Prelude.Tests.{◌==◌, if◌then◌else◌, Bool-cases}
use pulse_sdk.Prelude.Lists.{All, is_empty}
use pulse_sdk.Prelude.Text.{is_whitespace}

unfoldable pub trim_start : List ℕ → List ℕ
trim_start [] = []
trim_start (c ∷ text) = elim (is_whitespace c) [ true ↦ trim_start text | false ↦ c ∷ text ]

-- White space with nothing behind it goes.
abbrev keep_char : ℕ → List ℕ → List ℕ
keep_char c rest = if is_empty rest && is_whitespace c then [] else c ∷ rest

unfoldable pub trim_end : List ℕ → List ℕ
trim_end [] = []
trim_end (c ∷ text) = keep_char c (trim_end text)

abbrev pub trim : List ℕ → List ℕ
trim text = trim_end (trim_start text)

abbrev prepend_first : ℕ → Option (List ℕ × List ℕ) → Option (List ℕ × List ℕ)
prepend_first c none = none
prepend_first c (some (head, tail)) = some (c ∷ head, tail)

-- The text before the first separator, and the text behind it.
unfoldable pub split_once : ℕ → List ℕ → Option (List ℕ × List ℕ)
split_once separator [] = none
split_once separator (c ∷ text) =
    let rest = split_once separator text in
    if c == separator then some ([], text) else prepend_first c rest

-- A text that `trim` leaves alone.
abbrev pub IsTrimmed : List ℕ → Type 0
IsTrimmed text = (trim_start text ≡ text) × (trim_end text ≡ text)

pub trim_lem : (text : List ℕ) → IsTrimmed text → trim text ≡ text
trim_lem text (s, e) = ap trim_end s ∙ e

pub split_once-append :
    (separator : ℕ) (head tail : List ℕ)
    → All (λ c. c ≢ separator) head
    → split_once separator (head ++ separator ∷ tail) ≡ some (head, tail)
unfolding split_once
split_once-append separator [] tail h = ground arith
split_once-append separator (c ∷ head) tail (ne, h) =
    ground (arith, split_once-append separator head tail h)

-- White space at the end does not matter.
pub trim_end-append_space :
    (text space : List ℕ)
    → All (λ c. is_whitespace c ≡ true) space
    → trim_end (text ++ space) ≡ trim_end text
unfolding trim_end
trim_end-append_space [] [] h = refl
trim_end-append_space [] (c ∷ space) (w, h) = rw (trim_end-append_space [] space h) (rw w refl)
trim_end-append_space (c ∷ text) space h = ap (keep_char c) (trim_end-append_space text space h)

-- What stands before a text that ends in no white space stays.
pub trim_end-append :
    (front : List ℕ) (c : ℕ) (text : List ℕ)
    → trim_end (c ∷ text) ≡ c ∷ text
    → trim_end (front ++ (c ∷ text)) ≡ front ++ (c ∷ text)
unfolding trim_end
trim_end-append [] c text h = h
trim_end-append (d ∷ []) c text h = ap (keep_char d) h
trim_end-append (d ∷ d' ∷ front) c text h = ap (keep_char d) (trim_end-append (d' ∷ front) c text h)

-- A text without white space is trimmed.
pub trim_end_solid :
    (text : List ℕ) → All (λ c. is_whitespace c ≡ false) text → trim_end text ≡ text
unfolding trim_end
trim_end_solid [] h = refl
trim_end_solid (c ∷ text) (w, h) =
    rw (trim_end_solid text h)
      (elim (Bool-cases (is_empty text)) [ inl e ↦ rw (e, w) refl | inr e ↦ rw e refl ])

pub IsTrimmed-of_solid : (text : List ℕ) → All (λ c. is_whitespace c ≡ false) text → IsTrimmed text
IsTrimmed-of_solid [] h = (unfold trim_start in refl, unfold trim_end in refl)
IsTrimmed-of_solid (c ∷ text) (w, h) =
    (unfold trim_start in rw (w, trim_start) refl, trim_end_solid (c ∷ text) (w, h))
