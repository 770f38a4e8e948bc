-- ===== src/Bindings/Catalog/Merged.antt =====
-- What the merged catalogue is: each symbol once, each pair of a symbol once, and every offset of every
-- file in its place.
use mathlib.Core.Path.{subst}
use pulse_sdk.Prelude.{
  ℕ, ◌≡◌, refl, sym, ap, ◌∙◌, true, false, List, [], ◌∷◌, ◌++◌, ok, err, arith, Bool-cases, inl,
  inr, All, All-append, append-nil, append_assoc, list_eq, if◌then◌else◌,
}
use pulse_sdk.Bindings.{SymbolId, TargetPair, pair_eq}
use pulse_sdk.Bindings.Catalog.{OffsetRecord, CatalogEntry}
use pulse_sdk.Bindings.Catalog.Raw.{duplicate_symbol_pair}
use pulse_sdk.Bindings.Catalog.Load.{MergedEntry, MergedEntries, contains_pair, add_offsets}
use pulse_sdk.Bindings.Generator.Pivot.{HasDistinctSymbols}

abbrev pairs_in : List OffsetRecord → List TargetPair
pairs_in [] = []
pairs_in (offset ∷ offsets) = offset.pair ∷ pairs_in offsets

-- No pair occurs twice.
abbrev pub HasDistinctPairs : List OffsetRecord → Type 0
HasDistinctPairs [] = Unit
HasDistinctPairs (offset ∷ offsets) =
    All (λ (o : OffsetRecord). pair_eq offset.pair o.pair ≡ false) offsets
    × HasDistinctPairs offsets

pairs_in-append :
    (xs : List OffsetRecord) (offset : OffsetRecord)
    → pairs_in (xs ++ offset ∷ []) ≡ pairs_in xs ++ offset.pair ∷ []
pairs_in-append [] offset = refl
pairs_in-append (x ∷ xs) offset = ap (λ l. x.pair ∷ l) (pairs_in-append xs offset)

HasDistinctPairs-append :
    (xs : List OffsetRecord) (offset : OffsetRecord)
    → HasDistinctPairs xs
    → contains_pair (pairs_in xs) offset.pair ≡ false
    → HasDistinctPairs (xs ++ offset ∷ [])
unfolding contains_pair
HasDistinctPairs-append [] offset h k = (tt, tt)
HasDistinctPairs-append (x ∷ xs) offset (a, h) k = (
  All-append (λ (o : OffsetRecord). pair_eq x.pair o.pair ≡ false) xs (offset ∷ []) a
      (ground arith, tt),
  HasDistinctPairs-append xs offset h (ground arith),
)

-- What the loop keeps of an entry: the pairs that it has seen are those of its offsets.
abbrev pub IsMerged : MergedEntry → Type 0
IsMerged merged = (merged.seen_pairs ≡ pairs_in merged.offsets) × HasDistinctPairs merged.offsets

abbrev add_one : OffsetRecord → MergedEntry → MergedEntry
add_one offset merged = record merged {
  offsets = merged.offsets ++ offset ∷ [];
  seen_pairs = merged.seen_pairs ++ offset.pair ∷ [];
}

add_offsets-seen :
    (symbol : SymbolId) (offset : OffsetRecord) (offsets : List OffsetRecord) (merged : MergedEntry)
    → contains_pair merged.seen_pairs offset.pair ≡ true
    → add_offsets symbol (offset ∷ offsets) merged ≡ err (duplicate_symbol_pair symbol offset.pair)
unfolding add_offsets
add_offsets-seen symbol offset offsets merged b = rw (b, add_offsets) refl

add_offsets-new :
    (symbol : SymbolId) (offset : OffsetRecord) (offsets : List OffsetRecord) (merged : MergedEntry)
    → contains_pair merged.seen_pairs offset.pair ≡ false
    → add_offsets symbol (offset ∷ offsets) merged
      ≡ add_offsets symbol offsets (add_one offset merged)
unfolding add_offsets
add_offsets-new symbol offset offsets merged b = rw (b, add_offsets) refl

-- The offsets stand behind those before them, and the signature stays.
abbrev pub Grows : List OffsetRecord → MergedEntry → MergedEntry → Type 0
Grows offsets merged merged' =
    IsMerged merged'
    × (merged'.offsets ≡ merged.offsets ++ offsets)
    × (merged'.signature ≡ merged.signature)

pub add_offsets-Grows :
    (symbol : SymbolId) (offsets : List OffsetRecord) (merged : MergedEntry) {merged' : MergedEntry}
    → IsMerged merged
    → add_offsets symbol offsets merged ≡ ok merged'
    → Grows offsets merged merged'
add_offsets-Grows symbol [] merged {merged'} h e =
    let same : merged ≡ merged' = unfold add_offsets in cc in
    subst (Grows [] merged) same (h, sym (append-nil merged.offsets), refl)
add_offsets-Grows symbol (offset ∷ offsets) merged {merged'} (seen, distinct) e =
    elim (Bool-cases (contains_pair merged.seen_pairs offset.pair)) [
      | inl b ↦ let f = add_offsets-seen symbol offset offsets merged b in absurd (cc)
      | inr b ↦
          let grown : IsMerged (add_one offset merged) = (
            ap (λ l. l ++ offset.pair ∷ []) seen ∙ sym (pairs_in-append merged.offsets offset),
            HasDistinctPairs-append merged.offsets offset distinct
                (ap (λ l. contains_pair l offset.pair) (sym seen) ∙ b),
          ) in
          let (m, offsets', signature) =
            add_offsets-Grows symbol offsets (add_one offset merged) grown
              (sym (add_offsets-new symbol offset offsets merged b) ∙ e) in
          (m, offsets' ∙ append_assoc merged.offsets (offset ∷ []) offsets, signature)
    ]

pub list_eq_sym : (xs ys : List ℕ) → list_eq xs ys ≡ false → list_eq ys xs ≡ false
list_eq_sym [] [] h = cc
list_eq_sym [] (y ∷ ys) h = refl
list_eq_sym (x ∷ xs) [] h = refl
list_eq_sym (x ∷ xs) (y ∷ ys) h = ground (arith, list_eq_sym xs ys)

-- The offsets that a list of entries has for a symbol, in their order.
abbrev pub own_offsets : SymbolId → CatalogEntry → List OffsetRecord
own_offsets symbol entry = if list_eq entry.symbol symbol then entry.offsets else []

abbrev pub offsets_for : SymbolId → List CatalogEntry → List OffsetRecord
offsets_for symbol [] = []
offsets_for symbol (entry ∷ entries) = own_offsets symbol entry ++ offsets_for symbol entries

-- The state of the merge: no symbol twice, and each entry well merged.
abbrev pub AreMerged : MergedEntries → Type 0
AreMerged [] = Unit
AreMerged ((symbol, merged) ∷ rest) = IsMerged merged × AreMerged rest

abbrev pub IsCatalog : List CatalogEntry → Type 0
IsCatalog entries =
    HasDistinctSymbols entries × All (λ (e : CatalogEntry). HasDistinctPairs e.offsets) entries

pub offsets_for-fresh :
    (symbol : SymbolId) (entries : List CatalogEntry)
    → All (λ (e : CatalogEntry). list_eq symbol e.symbol ≡ false) entries
    → offsets_for symbol entries ≡ []
offsets_for-fresh symbol [] h = refl
offsets_for-fresh symbol (entry ∷ entries) (a, h) =
    rw (list_eq_sym symbol entry.symbol a) (offsets_for-fresh symbol entries h)
