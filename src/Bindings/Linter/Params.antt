-- ===== src/Bindings/Linter/Params.antt =====
-- The list of parameter types that the generator writes, as the linter reads it.
use pulse_sdk.Prelude.{
  ℕ, ◌≡◌, ◌≢◌, refl, sym, ap, ◌∙◌, true, List, [], ◌∷◌, ◌++◌, arith, All, All-append, append_assoc,
  is_empty, inl, inr, Bool-cases,
}
use pulse_sdk.Prelude.Text.{codes, is_whitespace}
use pulse_sdk.Prelude.Lines.{split_on, split_on-joined, split_on_nonempty}
use pulse_sdk.Prelude.Trim.{trim, trim_start, trim_end, trim_end-append}
use pulse_sdk.Bindings.Generator.{join_texts}
use pulse_sdk.Bindings.Linter.Values.{is_valid_params, no_empty_token}
use pulse_sdk.Bindings.Linter.Entries.{IsText, IsValue, IsValue-of_text}

-- A text that commas split into pieces none of which is blank.
abbrev pub IsParam : List ℕ → Type 0
IsParam text = IsText text × (no_empty_token (split_on b',' text) ≡ true)

glue-IsText : (p q : List ℕ) → IsText p → IsText q → IsText (p ++ (codes ", " ++ q))
glue-IsText [] q h k = cc
glue-IsText (c ∷ p) [] h k = cc
glue-IsText (c ∷ p) (d ∷ q) (w, e, (feed, return)) (w', e', (feed', return')) = (
  w,
  ap trim_end (sym (append_assoc (c ∷ p) (codes ", ") (d ∷ q)))
      ∙ (trim_end-append ((c ∷ p) ++ codes ", ") d q e'
          ∙ append_assoc (c ∷ p) (codes ", ") (d ∷ q)),
  (
    All-append (λ x. x ≢ 10) (c ∷ p) (codes ", " ++ (d ∷ q)) feed
        (λ z. ground arith, (λ z. ground arith, feed')),
    All-append (λ x. x ≢ 13) (c ∷ p) (codes ", " ++ (d ∷ q)) return
        (λ z. ground arith, (λ z. ground arith, return')),
  ),
)

no_empty_token-append :
    (xs ys : List (List ℕ))
    → no_empty_token xs ≡ true
    → no_empty_token ys ≡ true
    → no_empty_token (xs ++ ys) ≡ true
unfolding no_empty_token
no_empty_token-append [] ys h k = k
no_empty_token-append (x ∷ xs) ys h k = ground (arith, no_empty_token-append xs ys)

-- White space in front does not make a piece blank.
no_empty_token-space :
    (text : List ℕ)
    → no_empty_token (split_on b',' text) ≡ true
    → no_empty_token (split_on b',' (32 ∷ text)) ≡ true
unfolding no_empty_token split_on
no_empty_token-space text h =
    let (word, words, e) = split_on_nonempty b',' text in
    let same : trim (32 ∷ word) ≡ trim word = unfold trim_start is_whitespace in refl in
    ground (arith, e, same)

glue-tokens :
    (p q : List ℕ)
    → no_empty_token (split_on b',' p) ≡ true
    → no_empty_token (split_on b',' q) ≡ true
    → no_empty_token (split_on b',' (p ++ (codes ", " ++ q))) ≡ true
glue-tokens p q h k =
    ap no_empty_token (split_on-joined b',' p (32 ∷ q))
    ∙ no_empty_token-append (split_on b',' p) (split_on b',' (32 ∷ q)) h (no_empty_token-space q k)

join_texts-IsParam :
    (text : List ℕ) (texts : List (List ℕ))
    → All IsParam (text ∷ texts)
    → IsParam (join_texts (codes ", ") (text ∷ texts))
unfolding join_texts
join_texts-IsParam text [] (h, hs) = h
join_texts-IsParam text (text' ∷ texts) ((p, t), hs) =
    let (p', t') = join_texts-IsParam text' texts hs in
    let rest = join_texts (codes ", ") (text' ∷ texts) in
    (glue-IsText text rest p p', glue-tokens text rest t t')

trim_text : (text : List ℕ) → IsText text → trim text ≡ text
unfolding trim_start
trim_text [] h = cc
trim_text (c ∷ text) (w, e, o) = rw (w, trim_start) e

-- The joined list is a value that the linter takes.
pub join_texts-valid :
    (texts : List (List ℕ))
    → All IsParam texts
    → IsValue (join_texts (codes ", ") texts)
      × (is_valid_params (join_texts (codes ", ") texts) ≡ true)
unfolding is_valid_params
join_texts-valid [] h = (unfold join_texts in tt, unfold join_texts trim_start trim_end in refl)
join_texts-valid (text ∷ texts) h =
    let (p, t) = join_texts-IsParam text texts h in
    let j = join_texts (codes ", ") (text ∷ texts) in
    let e = trim_text j p in
    (
      IsValue-of_text j p,
      rw (e, is_valid_params)
          (elim (Bool-cases (is_empty j)) [ inl b ↦ rw b refl | inr b ↦ rw b t ]),
    )
