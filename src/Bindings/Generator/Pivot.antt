-- ===== src/Bindings/Generator/Pivot.antt =====
-- Which functions the set of a pair lists, and in which order.
use mathlib.Core.List.{Permᴰ}
use mathlib.Core.List.Permᴰ
use pulse_sdk.Prelude.{
  ℕ, ◌≡◌, refl, true, false, List, [], ◌∷◌, none, some, arith, Bool-cases, Option-cases, ◌⊎◌, inl,
  inr, All, All-map, list_eq,
}
use pulse_sdk.Bindings.{SymbolId, TargetPair, pair_eq}
use pulse_sdk.Bindings.Catalog.{OffsetRecord, CatalogEntry, BindingCatalog}
use pulse_sdk.Bindings.Generator.{
  PivotFunction, text_lt, insert_function, sort_functions, find_offset, pivot, functions_of,
}

-- An offset of the pair with none before it.
abbrev pub IsFirst : TargetPair → List OffsetRecord → OffsetRecord → Type 0
IsFirst pair [] o = true ≡ false
IsFirst pair (offset ∷ offsets) o =
    ((pair_eq offset.pair pair ≡ true) × (o ≡ offset))
    ⊎ ((pair_eq offset.pair pair ≡ false) × IsFirst pair offsets o)

-- The functions of a pair in the order of the catalogue: each entry that has an offset for the pair,
-- with the first one.
pub data Lists (pair : TargetPair) : List CatalogEntry → List PivotFunction → Type 0 where
  none_left : Lists pair [] []
  skipped :
      {entry : CatalogEntry} {entries : List CatalogEntry} {functions : List PivotFunction}
      → All (λ offset. pair_eq offset.pair pair ≡ false) entry.offsets
      → Lists pair entries functions
      → Lists pair (entry ∷ entries) functions
  with_first :
      {entry : CatalogEntry} {entries : List CatalogEntry} {functions : List PivotFunction}
      {f : PivotFunction}
      → f.symbol ≡ entry.symbol
      → f.signature ≡ entry.signature
      → IsFirst pair entry.offsets f.offset
      → Lists pair entries functions
      → Lists pair (entry ∷ entries) (f ∷ functions)

find_offset-none :
    (pair : TargetPair) (offsets : List OffsetRecord)
    → find_offset pair offsets ≡ none
    → All (λ offset. pair_eq offset.pair pair ≡ false) offsets
unfolding find_offset
find_offset-none pair [] h = tt
find_offset-none pair (offset ∷ offsets) h = elim (Bool-cases (pair_eq offset.pair pair)) [
  | inl e ↦ absurd (ground arith)
  | inr e ↦ (e, find_offset-none pair offsets (ground arith))
]

find_offset-some :
    (pair : TargetPair) (offsets : List OffsetRecord) {o : OffsetRecord}
    → find_offset pair offsets ≡ some o
    → IsFirst pair offsets o
unfolding find_offset
find_offset-some pair [] h = cc
find_offset-some pair (offset ∷ offsets) h = elim (Bool-cases (pair_eq offset.pair pair)) [
  | inl e ↦ inl (e, ground arith)
  | inr e ↦ inr (e, find_offset-some pair offsets (ground arith))
]

pivot-Lists :
    (pair : TargetPair) (entries : List CatalogEntry) → Lists pair entries (pivot pair entries)
unfolding pivot
pivot-Lists pair [] = none_left
pivot-Lists pair (entry ∷ entries) = elim (Option-cases (find_offset pair entry.offsets)) [
  | inl e ↦ rw e (skipped (find_offset-none pair entry.offsets e) (pivot-Lists pair entries))
  | inr (offset, e) ↦
      rw e (with_first refl refl (find_offset-some pair entry.offsets e) (pivot-Lists pair entries))
]

insert_function-Permᴰ :
    (f : PivotFunction) (functions : List PivotFunction)
    → Permᴰ (insert_function f functions) (f ∷ functions)
unfolding insert_function
insert_function-Permᴰ f [] = Permᴰ.refl (f ∷ [])
insert_function-Permᴰ f (g ∷ functions) = elim (Bool-cases (text_lt g.symbol f.symbol)) [
  | inl e ↦
      rw e
        (Permᴰ.trans (Permᴰ.cons refl (insert_function-Permᴰ f functions)) (Permᴰ.swap refl refl))
  | inr e ↦ rw e (Permᴰ.refl (f ∷ g ∷ functions))
]

sort_functions-Permᴰ : (functions : List PivotFunction) → Permᴰ (sort_functions functions) functions
unfolding sort_functions
sort_functions-Permᴰ [] = Permᴰ.refl []
sort_functions-Permᴰ (f ∷ functions) =
    Permᴰ.trans (insert_function-Permᴰ f (sort_functions functions))
      (Permᴰ.cons refl (sort_functions-Permᴰ functions))

text_lt-total :
    (xs ys : List ℕ) → text_lt xs ys ≡ false → list_eq ys xs ≡ false → text_lt ys xs ≡ true
unfolding text_lt
text_lt-total [] [] h k = cc
text_lt-total [] (y ∷ ys) h k = cc
text_lt-total (x ∷ xs) [] h k = refl
text_lt-total (x ∷ xs) (y ∷ ys) h k = ground (arith, text_lt-total xs ys)

text_lt_trans :
    (xs ys zs : List ℕ) → text_lt xs ys ≡ true → text_lt ys zs ≡ true → text_lt xs zs ≡ true
unfolding text_lt
text_lt_trans xs [] zs h k = cc
text_lt_trans xs (y ∷ ys) [] h k = cc
text_lt_trans [] (y ∷ ys) (z ∷ zs) h k = refl
text_lt_trans (x ∷ xs) (y ∷ ys) (z ∷ zs) h k = ground (arith, text_lt_trans xs ys zs)

-- Each symbol comes before those that follow it.
abbrev pub IsAscending : List PivotFunction → Type 0
IsAscending [] = Unit
IsAscending (f ∷ functions) =
    All (λ (g : PivotFunction). text_lt f.symbol g.symbol ≡ true) functions × IsAscending functions

-- No symbol occurs twice.
abbrev pub HasDistinctSymbols : List CatalogEntry → Type 0
HasDistinctSymbols [] = Unit
HasDistinctSymbols (entry ∷ entries) =
    All (λ (e : CatalogEntry). list_eq entry.symbol e.symbol ≡ false) entries
    × HasDistinctSymbols entries

abbrev AreDistinct : List PivotFunction → Type 0
AreDistinct [] = Unit
AreDistinct (f ∷ functions) =
    All (λ (g : PivotFunction). list_eq f.symbol g.symbol ≡ false) functions × AreDistinct functions

module _ (P : PivotFunction → Type 0) where
  All-insert :
      (f : PivotFunction) (functions : List PivotFunction)
      → P f
      → All P functions
      → All P (insert_function f functions)
  unfolding insert_function
  All-insert f [] p h = (p, h)
  All-insert f (g ∷ functions) p (q, h) = elim (Bool-cases (text_lt g.symbol f.symbol)) [
    | inl e ↦ rw e (q, All-insert f functions p h)
    | inr e ↦ rw e (p, (q, h))
  ]

  All-sort : (functions : List PivotFunction) → All P functions → All P (sort_functions functions)
  unfolding sort_functions
  All-sort [] h = h
  All-sort (f ∷ functions) (p, h) = All-insert f (sort_functions functions) p (All-sort functions h)

insert_function-IsAscending :
    (f : PivotFunction) (functions : List PivotFunction)
    → All (λ (g : PivotFunction). list_eq f.symbol g.symbol ≡ false) functions
    → IsAscending functions
    → IsAscending (insert_function f functions)
unfolding insert_function
insert_function-IsAscending f [] d h = (tt, tt)
insert_function-IsAscending f (g ∷ functions) (d, ds) (a, h) =
    elim (Bool-cases (text_lt g.symbol f.symbol)) [
      | inl e ↦ rw e (
        All-insert (λ (k : PivotFunction). text_lt g.symbol k.symbol ≡ true) f functions e a,
        insert_function-IsAscending f functions ds h,
      )
      | inr e ↦
          let below = text_lt-total g.symbol f.symbol e d in
          rw e (
            (
              below,
              All-map (λ (k : PivotFunction). text_lt g.symbol k.symbol ≡ true)
                  (λ (k : PivotFunction). text_lt f.symbol k.symbol ≡ true) functions
                  (λ k above. text_lt_trans f.symbol g.symbol k.symbol below above) a,
            ),
            (a, h),
          )
    ]

sort_functions-IsAscending :
    (functions : List PivotFunction)
    → AreDistinct functions
    → IsAscending (sort_functions functions)
unfolding sort_functions
sort_functions-IsAscending [] h = tt
sort_functions-IsAscending (f ∷ functions) (d, h) =
    insert_function-IsAscending f (sort_functions functions)
      (All-sort (λ (g : PivotFunction). list_eq f.symbol g.symbol ≡ false) functions d)
      (sort_functions-IsAscending functions h)

module _ (pair : TargetPair) where
  pivot-All :
      (P : SymbolId → Type 0) (entries : List CatalogEntry)
      → All (λ (e : CatalogEntry). P e.symbol) entries
      → All (λ (f : PivotFunction). P f.symbol) (pivot pair entries)
  unfolding pivot
  pivot-All P [] h = tt
  pivot-All P (entry ∷ entries) (p, h) = elim (Option-cases (find_offset pair entry.offsets)) [
    | inl e ↦ rw e (pivot-All P entries h)
    | inr (offset, e) ↦ rw e (p, pivot-All P entries h)
  ]

  pivot-AreDistinct :
      (entries : List CatalogEntry) → HasDistinctSymbols entries → AreDistinct (pivot pair entries)
  unfolding pivot
  pivot-AreDistinct [] h = tt
  pivot-AreDistinct (entry ∷ entries) (d, h) =
      elim (Option-cases (find_offset pair entry.offsets)) [
        | inl e ↦ rw e (pivot-AreDistinct entries h)
        | inr (offset, e) ↦
            rw e (
              pivot-All (λ s. list_eq entry.symbol s ≡ false) entries d,
              pivot-AreDistinct entries h,
            )
      ]

-- A list of functions is, in the strict order of their symbols, what a list of entries has for a pair.
abbrev pub IsPivot : TargetPair → List CatalogEntry → List PivotFunction → Type 0
IsPivot pair entries functions =
    (listed : List PivotFunction) × Lists pair entries listed
    × Permᴰ functions listed
    × IsAscending functions

-- If no symbol occurs twice in the catalogue, the set of a pair lists, in the strict order of the
-- symbols, each entry that has an offset for the pair, with its signature and its first offset for
-- this very pair, and nothing else.
pub functions_of-IsPivot :
    (catalog : BindingCatalog) (pair : TargetPair)
    → HasDistinctSymbols catalog.entries
    → IsPivot pair catalog.entries (functions_of catalog pair)
unfolding functions_of
functions_of-IsPivot catalog pair h = (
  pivot pair catalog.entries,
  pivot-Lists pair catalog.entries,
  sort_functions-Permᴰ (pivot pair catalog.entries),
  sort_functions-IsAscending (pivot pair catalog.entries)
      (pivot-AreDistinct pair catalog.entries h),
)
