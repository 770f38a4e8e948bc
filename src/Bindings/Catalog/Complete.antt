-- ===== src/Bindings/Catalog/Complete.antt =====
-- The merge of the files, step by step and as a whole.
use mathlib.Core.Path.{subst}
use pulse_sdk.Prelude.{
  ◌≡◌, refl, sym, ap, ◌∙◌, true, false, List, [], ◌∷◌, ◌++◌, ok, err, ok-injective, ◌>>=◌,
  >>=-eq-ok, Bool-cases, inl, inr, All, append-nil, append_assoc, list_eq, if◌then◌else◌,
}
use pulse_sdk.Bindings.{SymbolId}
use pulse_sdk.Bindings.Catalog.{CatalogEntry}
use pulse_sdk.Bindings.Catalog.Raw.{signature_conflict}
use pulse_sdk.Bindings.Catalog.Load.{
  MergedEntry, MergedEntries, new_merged, signature_eq, signature_to_string, add_offsets,
  merge_entry, entries_of,
}
use pulse_sdk.Bindings.Catalog.Merged.{
  IsMerged, Grows, add_offsets-Grows, own_offsets, offsets_for, AreMerged, offsets_for-fresh,
}
use pulse_sdk.Bindings.Generator.Pivot.{HasDistinctSymbols}
use pulse_sdk.Installer.Paths.Separate.{eq_of_list_eq}

abbrev pub IsFresh : SymbolId → List CatalogEntry → Type 0
IsFresh symbol entries = All (λ (e : CatalogEntry). list_eq symbol e.symbol ≡ false) entries

-- What one entry makes of the state: its offsets stand behind those of its symbol.
pub record Takes (entry : CatalogEntry) (merged merged' : MergedEntries) : Type 0 where
  pub invariant : AreMerged merged'
  pub distinct : HasDistinctSymbols (entries_of merged')
  pub offsets :
      (s : SymbolId)
      → offsets_for s (entries_of merged')
        ≡ offsets_for s (entries_of merged) ++ own_offsets s entry
  pub fresh :
      (s : SymbolId)
      → IsFresh s (entries_of merged)
      → list_eq s entry.symbol ≡ false
      → IsFresh s (entries_of merged')

module _ (entry : CatalogEntry) where
  first_taken :
      (m : MergedEntry)
      → Grows entry.offsets (new_merged entry.signature) m
      → Takes entry [] ((entry.symbol, m) ∷ [])
  unfolding entries_of
  first_taken m (h, offsets, signature) = record {
    invariant = (h, tt);
    distinct = (tt, tt);
    offsets = λ s. rw offsets (append-nil (own_offsets s entry));
    fresh = λ s f e. (e, tt);
  }

  same_taken :
      (symbol : SymbolId) (m m' : MergedEntry) (rest : MergedEntries)
      → AreMerged rest
      → HasDistinctSymbols (entries_of ((symbol, m) ∷ rest))
      → symbol ≡ entry.symbol
      → Grows entry.offsets m m'
      → Takes entry ((symbol, m) ∷ rest) ((symbol, m') ∷ rest)
  unfolding entries_of
  same_taken symbol m m' rest h (a, d) q (h', offsets, signature) = record {
    invariant = (h', h);
    distinct = (a, d);
    offsets = λ s.
        let own : own_offsets s entry ≡ (if list_eq symbol s then entry.offsets else []) =
          ap (λ k. if list_eq k s then entry.offsets else []) (sym q) in
        elim (Bool-cases (list_eq symbol s)) [
          | inl e ↦
              let none_left : offsets_for s (entries_of rest) ≡ [] =
                offsets_for-fresh s (entries_of rest)
                  (subst (λ k. IsFresh k (entries_of rest)) (eq_of_list_eq symbol s e) a) in
              rw own (
                rw e (
                  rw none_left (
                    rw offsets (
                      append-nil (m.offsets ++ entry.offsets)
                      ∙ ap (λ l. l ++ entry.offsets) (sym (append-nil m.offsets))))))
          | inr e ↦ rw own (rw e (sym (append-nil (offsets_for s (entries_of rest)))))
        ];
    fresh = λ s f e. f;
  }

  later_taken :
      (symbol : SymbolId) (m : MergedEntry) (rest rest' : MergedEntries)
      → IsMerged m
      → IsFresh symbol (entries_of rest)
      → list_eq symbol entry.symbol ≡ false
      → Takes entry rest rest'
      → Takes entry ((symbol, m) ∷ rest) ((symbol, m) ∷ rest')
  unfolding entries_of
  later_taken symbol m rest rest' h a e t = record {
    invariant = (h, t.invariant);
    distinct = (t.fresh symbol a e, t.distinct);
    offsets = λ s. rw (t.offsets s) (
        sym (
          append_assoc (if list_eq symbol s then m.offsets else [])
            (offsets_for s (entries_of rest)) (own_offsets s entry)));
    fresh = λ s (f, fs) g. (f, t.fresh s fs g);
  }

  merge-same :
      (symbol : SymbolId) (m : MergedEntry) (rest : MergedEntries)
      → list_eq symbol entry.symbol ≡ true
      → signature_eq m.signature entry.signature ≡ true
      → merge_entry entry ((symbol, m) ∷ rest)
        ≡ (add_offsets entry.symbol entry.offsets m >>= λ m'. ok ((symbol, m') ∷ rest))
  unfolding merge_entry
  merge-same symbol m rest h k = rw h (rw k refl)

  merge-conflict :
      (symbol : SymbolId) (m : MergedEntry) (rest : MergedEntries)
      → list_eq symbol entry.symbol ≡ true
      → signature_eq m.signature entry.signature ≡ false
      → merge_entry entry ((symbol, m) ∷ rest)
        ≡ err (
            signature_conflict entry.symbol
              (signature_to_string m.signature)
              (signature_to_string entry.signature))
  unfolding merge_entry
  merge-conflict symbol m rest h k = rw h (rw k refl)

  merge-later :
      (symbol : SymbolId) (m : MergedEntry) (rest : MergedEntries)
      → list_eq symbol entry.symbol ≡ false
      → merge_entry entry ((symbol, m) ∷ rest)
        ≡ (merge_entry entry rest >>= λ rest'. ok ((symbol, m) ∷ rest'))
  unfolding merge_entry
  merge-later symbol m rest h = rw h refl

  first_step :
      {merged' : MergedEntries} → merge_entry entry [] ≡ ok merged' → Takes entry [] merged'
  unfolding merge_entry
  first_step e =
      let (m, added, e') =
        >>=-eq-ok (add_offsets entry.symbol entry.offsets (new_merged entry.signature))
          (λ merged. ok ((entry.symbol, merged) ∷ [])) e in
      subst (Takes entry []) (ok-injective e') (
        first_taken m (
          add_offsets-Grows entry.symbol entry.offsets (new_merged entry.signature) (refl, tt)
            added))

  pub merge_entry-Takes :
      (merged : MergedEntries) {merged' : MergedEntries}
      → AreMerged merged
      → HasDistinctSymbols (entries_of merged)
      → merge_entry entry merged ≡ ok merged'
      → Takes entry merged merged'
  unfolding entries_of
  merge_entry-Takes [] h d e = first_step e
  merge_entry-Takes ((symbol, m) ∷ rest) (h, hs) (a, d) e =
      elim (Bool-cases (list_eq symbol entry.symbol)) [
        | inl b ↦ elim (Bool-cases (signature_eq m.signature entry.signature)) [
          | inl c ↦
              let (m', added, e') =
                >>=-eq-ok (add_offsets entry.symbol entry.offsets m)
                  (λ m'. ok ((symbol, m') ∷ rest)) (sym (merge-same symbol m rest b c) ∙ e) in
              subst (Takes entry ((symbol, m) ∷ rest)) (ok-injective e') (
                same_taken symbol m m' rest hs (a, d) (eq_of_list_eq symbol entry.symbol b)
                  (add_offsets-Grows entry.symbol entry.offsets m h added))
          | inr c ↦ let f = merge-conflict symbol m rest b c in absurd (cc)
        ]
        | inr b ↦
            let (rest', merged, e') =
              >>=-eq-ok (merge_entry entry rest) (λ rest'. ok ((symbol, m) ∷ rest'))
                (sym (merge-later symbol m rest b) ∙ e) in
            subst (Takes entry ((symbol, m) ∷ rest)) (ok-injective e')
              (later_taken symbol m rest rest' h a b (merge_entry-Takes rest hs d merged))
      ]
