-- ===== src/Prelude/Lines.antt =====
-- `str::split` at a character, and `str::lines`.
use Prim.Native.Nat.{ℕ}
use mathlib.Core.Path.{◌≡◌, refl, ap, ◌∙◌}
use mathlib.Core.Logic.{◌≢◌}
use mathlib.Core.Bool.{true, false}
use mathlib.Core.List.{List, [], ◌∷◌, ◌++◌}
use native.Mathlib.Omega.{arith}
use pulse_sdk.Prelude.Tests.{◌==◌, if◌then◌else◌}
use pulse_sdk.Prelude.Lists.{All, is_empty}

abbrev extend : ℕ → List (List ℕ) → List (List ℕ)
extend c [] = (c ∷ []) ∷ []
extend c (word ∷ words) = (c ∷ word) ∷ words

-- The pieces of a text between the separators: one more than there are separators.
unfoldable pub split_on : ℕ → List ℕ → List (List ℕ)
split_on separator [] = [] ∷ []
split_on separator (c ∷ text) =
    let rest = split_on separator text in if c == separator then [] ∷ rest else extend c rest

-- A carriage return before the line feed belongs to the end of the line.
unfoldable pub strip_cr : List ℕ → List ℕ
strip_cr [] = []
strip_cr (c ∷ []) = if c == 13 then [] else c ∷ []
strip_cr (c ∷ c' ∷ line) = c ∷ strip_cr (c' ∷ line)

-- What stands behind the last line feed is a line only if it is not empty.
unfoldable pub finish_lines : List (List ℕ) → List (List ℕ)
finish_lines [] = []
finish_lines (line ∷ []) = if is_empty line then [] else line ∷ []
finish_lines (line ∷ line' ∷ rest) = strip_cr line ∷ finish_lines (line' ∷ rest)

unfoldable pub lines : List ℕ → List (List ℕ)
unfolding split_on strip_cr finish_lines
lines text = finish_lines (split_on 10 text)

module _ (separator : ℕ) where
  split_on-separator :
      (rest : List ℕ) → split_on separator (separator ∷ rest) ≡ [] ∷ split_on separator rest
  unfolding split_on
  split_on-separator rest = ground arith

  -- A piece without the separator, and what follows it.
  pub split_on-append :
      (piece rest : List ℕ)
      → All (λ c. c ≢ separator) piece
      → split_on separator (piece ++ separator ∷ rest) ≡ piece ∷ split_on separator rest
  unfolding split_on
  split_on-append [] rest h = split_on-separator rest
  split_on-append (c ∷ piece) rest (ne, h) = ground (arith, split_on-append piece rest h)

  pub split_on_piece :
      (piece : List ℕ) → All (λ c. c ≢ separator) piece → split_on separator piece ≡ piece ∷ []
  unfolding split_on
  split_on_piece [] h = refl
  split_on_piece (c ∷ piece) (ne, h) = ground (arith, split_on_piece piece h)

pub split_on_nonempty :
    (separator : ℕ) (text : List ℕ)
    → (word : List ℕ) × (words : List (List ℕ)) × (split_on separator text ≡ word ∷ words)
unfolding split_on
split_on_nonempty separator [] = ([], [], refl)
split_on_nonempty separator (c ∷ text) =
    let (word, words, e) = split_on_nonempty separator text in
    first (split_on separator text) word words e
  where
    first :
        (r : List (List ℕ)) (word : List ℕ) (words : List (List ℕ))
        → r ≡ word ∷ words
        → (w : List ℕ) × (ws : List (List ℕ)) × ((if c == separator then [] ∷ r else extend c r)
            ≡ w ∷ ws)
    first r word words e =
        elim (c == separator)
          as (λ b.
            (w : List ℕ) × (ws : List (List ℕ)) × ((if b then [] ∷ r else extend c r) ≡ w ∷ ws)) [
              | true ↦ ([], r, refl)
              | false ↦ (c ∷ word, words, rw e refl)
            ]

-- A separator splits a text into two that are split by themselves.
pub split_on-joined :
    (separator : ℕ) (xs ys : List ℕ)
    → split_on separator (xs ++ separator ∷ ys) ≡ split_on separator xs ++ split_on separator ys
unfolding split_on
split_on-joined separator [] ys = ground arith
split_on-joined separator (c ∷ xs) ys =
    let (word, words, e) = split_on_nonempty separator xs in
    let ih = split_on-joined separator xs ys in ground (arith, ih, e)

strip_cr_lem : (line : List ℕ) → All (λ c. c ≢ 13) line → strip_cr line ≡ line
unfolding strip_cr
strip_cr_lem [] h = refl
strip_cr_lem (c ∷ []) (ne, h) = ground arith
strip_cr_lem (c ∷ c' ∷ line) (ne, h) = ap (λ l. c ∷ l) (strip_cr_lem (c' ∷ line) h)

-- A line without a line feed and a carriage return, and the lines behind it.
pub lines-append :
    (line rest : List ℕ)
    → All (λ c. c ≢ 10) line
    → All (λ c. c ≢ 13) line
    → lines (line ++ 10 ∷ rest) ≡ line ∷ lines rest
unfolding lines
lines-append line rest h k =
    let (word, words, e) = split_on_nonempty 10 rest in
    ap finish_lines (split_on-append 10 line rest h) ∙ go (split_on 10 rest) word words e
  where
    go :
        (r : List (List ℕ)) (word : List ℕ) (words : List (List ℕ))
        → r ≡ word ∷ words
        → finish_lines (line ∷ r) ≡ line ∷ finish_lines r
    go r word words e = rw e (ap (λ l. l ∷ finish_lines (word ∷ words)) (strip_cr_lem line k))
