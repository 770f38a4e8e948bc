-- ===== src/Extract/Matcher/Outcome.antt =====
-- The outcome of a match, by the list of its candidates.
use pulse_sdk.Prelude.{
  ℕ, zero, suc, ◌+◌, ◌≡◌, refl, sym, ap, ◌∙◌, some, List, [], ◌∷◌, ◌++◌, map, length, get_elem?,
  is_empty, list_eq, ◌==◌, if◌then◌else◌, Bool-cases, inl, inr, arith,
}
use pulse_sdk.Extract.Matcher.{
  VtableSlot, ClassVtable, DerivedSymbol, MatchOutcome, matched, no_match, ambiguous, MethodMatch,
  Tally, count_slot, tally_slots_at, tally_vtables_at, tally_slots, tally_vtables, no_tally,
  classify, match_method_at, match_symbol, match_from, match_class,
}

-- The slots of a list that have an index.
abbrev pub slots_at : ℕ → List VtableSlot → List VtableSlot
slots_at ordinal [] = []
slots_at ordinal (slot ∷ slots) =
    let rest = slots_at ordinal slots in if slot.index == ordinal then slot ∷ rest else rest

-- All slots of the vtables of a class, in order.
abbrev slots_of : List ℕ → List ClassVtable → List VtableSlot
slots_of class [] = []
slots_of class (vtable ∷ vtables) =
    let rest = slots_of class vtables in
    if list_eq vtable.class class then vtable.slots ++ rest else rest

-- One candidate is the match, none is no match, and more are ambiguous.
abbrev pub outcome_of : List VtableSlot → MatchOutcome
outcome_of [] = no_match
outcome_of (slot ∷ []) = matched slot
outcome_of (slot ∷ slot' ∷ slots) = ambiguous (suc (suc (length slots)))

-- The candidates of a symbol: a function that is free has none.
abbrev pub candidates_of : DerivedSymbol → List ClassVtable → List VtableSlot
candidates_of symbol vtables = if is_empty symbol.class then [] else slots_of symbol.class vtables

slots_at-append :
    (o : ℕ) (u v : List VtableSlot) → slots_at o (u ++ v) ≡ slots_at o u ++ slots_at o v
slots_at-append o [] v = refl
slots_at-append o (s ∷ u) v = elim (Bool-cases (s.index == o)) [
  | inl e ↦ rw e (ap (λ r. s ∷ r) (slots_at-append o u v))
  | inr e ↦ rw e (slots_at-append o u v)
]

tally_slots-append :
    (u v : List VtableSlot) (t : Tally) → tally_slots (u ++ v) t ≡ tally_slots v (tally_slots u t)
unfolding tally_slots
tally_slots-append [] v t = refl
tally_slots-append (s ∷ u) v t = tally_slots-append u v (count_slot s t)

-- Both pairs of loops count a list of slots.
tally_slots_at-eq-tally_slots :
    (o : ℕ) (slots : List VtableSlot) (t : Tally)
    → tally_slots_at o slots t ≡ tally_slots (slots_at o slots) t
unfolding tally_slots tally_slots_at
tally_slots_at-eq-tally_slots o [] t = refl
tally_slots_at-eq-tally_slots o (s ∷ slots) t = elim (Bool-cases (s.index == o)) [
  | inl e ↦ rw e (tally_slots_at-eq-tally_slots o slots (count_slot s t))
  | inr e ↦ rw e (tally_slots_at-eq-tally_slots o slots t)
]

tally_vtables-eq-tally_slots :
    (class : List ℕ) (vtables : List ClassVtable) (t : Tally)
    → tally_vtables class vtables t ≡ tally_slots (slots_of class vtables) t
unfolding tally_vtables tally_slots
tally_vtables-eq-tally_slots class [] t = refl
tally_vtables-eq-tally_slots class (v ∷ vtables) t = elim (Bool-cases (list_eq v.class class)) [
  | inl e ↦
      rw (e, tally_slots-append)
        (tally_vtables-eq-tally_slots class vtables (tally_slots v.slots t))
  | inr e ↦ rw e (tally_vtables-eq-tally_slots class vtables t)
]

tally_vtables_at-eq-tally_slots :
    (class : List ℕ) (o : ℕ) (vtables : List ClassVtable) (t : Tally)
    → tally_vtables_at class o vtables t ≡ tally_slots (slots_at o (slots_of class vtables)) t
unfolding tally_vtables_at tally_slots
tally_vtables_at-eq-tally_slots class o [] t = refl
tally_vtables_at-eq-tally_slots class o (v ∷ vtables) t =
    elim (Bool-cases (list_eq v.class class)) [
      | inl e ↦
          rw (e, slots_at-append, tally_slots-append, tally_slots_at-eq-tally_slots)
            (tally_vtables_at-eq-tally_slots class o vtables (tally_slots (slots_at o v.slots) t))
      | inr e ↦ rw e (tally_vtables_at-eq-tally_slots class o vtables t)
    ]

-- Counting keeps the first slot, and adds the number of slots.
tally_slots_lem :
    (slots : List VtableSlot) (s : VtableSlot) (n : ℕ)
    → tally_slots slots (record { first = some s; candidates = n })
      ≡ record { first = some s; candidates = n + length slots }
unfolding tally_slots count_slot
tally_slots_lem [] s n = ap (λ k. record { first = some s; candidates = k }) (omega arith)
tally_slots_lem (s' ∷ slots) s n =
    tally_slots_lem slots s (n + 1)
    ∙ ap (λ k. record { first = some s; candidates = k }) (omega arith)

classify-tally_slots :
    (slots : List VtableSlot) → classify (tally_slots slots no_tally) ≡ some (outcome_of slots)
unfolding classify tally_slots count_slot
classify-tally_slots [] = refl
classify-tally_slots (s ∷ []) = refl
classify-tally_slots (s ∷ s' ∷ slots) =
    let e : 2 + length slots ≡ suc (suc (length slots)) = omega arith in
    ap classify (tally_slots_lem slots s 2)
    ∙ ap (λ k. classify (record { first = some s; candidates = k })) e

-- A method that stands at an ordinal of its class is matched by the slots of that index in all
-- vtables of the class: the one if there is one, none if there is none, and ambiguous if there are
-- more. It never panics.
pub match_method_at-eq-outcome_of :
    (symbol : DerivedSymbol) (ordinal : ℕ) (vtables : List ClassVtable)
    → match_method_at symbol ordinal vtables
      ≡ some (outcome_of (slots_at ordinal (candidates_of symbol vtables)))
unfolding match_method_at
match_method_at-eq-outcome_of symbol ordinal vtables = elim (Bool-cases (is_empty symbol.class)) [
  | inl e ↦ rw e refl
  | inr e ↦
      rw (e, tally_vtables_at-eq-tally_slots)
        (classify-tally_slots (slots_at ordinal (slots_of symbol.class vtables)))
]

-- A symbol without its ordinal is matched by all slots of the vtables of its class.
pub match_symbol-eq-outcome_of :
    (symbol : DerivedSymbol) (vtables : List ClassVtable)
    → match_symbol symbol vtables ≡ some (outcome_of (candidates_of symbol vtables))
unfolding match_symbol
match_symbol-eq-outcome_of symbol vtables = elim (Bool-cases (is_empty symbol.class)) [
  | inl e ↦ rw e refl
  | inr e ↦
      rw (e, tally_vtables-eq-tally_slots) (classify-tally_slots (slots_of symbol.class vtables))
]

outcome_of-eq-matched :
    (l : List VtableSlot) (slot : VtableSlot) → outcome_of l ≡ matched slot → l ≡ slot ∷ []
outcome_of-eq-matched [] slot h = cc
outcome_of-eq-matched (s ∷ []) slot h = cc
outcome_of-eq-matched (s ∷ s' ∷ l) slot h = cc

-- A symbol that is matched without its ordinal is matched to the same slot at the ordinal of that
-- slot.
pub match_symbol-match_method_at :
    (symbol : DerivedSymbol) (vtables : List ClassVtable) (slot : VtableSlot)
    → match_symbol symbol vtables ≡ some (matched slot)
    → match_method_at symbol slot.index vtables ≡ some (matched slot)
match_symbol-match_method_at symbol vtables slot h =
    let o : some (outcome_of (candidates_of symbol vtables)) ≡ some (matched slot) =
      sym (match_symbol-eq-outcome_of symbol vtables) ∙ h in
    let e = outcome_of-eq-matched (candidates_of symbol vtables) slot (cc) in
    let one : slots_at slot.index (slot ∷ []) ≡ slot ∷ [] = ground arith in
    match_method_at-eq-outcome_of symbol slot.index vtables
    ∙ ap (λ l. some (outcome_of (slots_at slot.index l))) e
    ∙ ap (λ l. some (outcome_of l)) one

-- A symbol with its outcome at an ordinal.
abbrev pub match_of : DerivedSymbol → ℕ → List ClassVtable → MethodMatch
match_of symbol ordinal vtables = record {
  symbol = symbol;
  outcome = outcome_of (slots_at ordinal (candidates_of symbol vtables));
}

-- What the methods of a class are matched to, from an ordinal on.
abbrev matches_from : ℕ → List DerivedSymbol → List ClassVtable → List MethodMatch
matches_from ordinal [] vtables = []
matches_from ordinal (symbol ∷ symbols) vtables =
    match_of symbol ordinal vtables ∷ matches_from (ordinal + 1) symbols vtables

match_from_lem :
    (ordinal : ℕ) (symbols : List DerivedSymbol) (vtables : List ClassVtable)
    → match_from ordinal symbols vtables ≡ some (matches_from ordinal symbols vtables)
unfolding match_from
match_from_lem ordinal [] vtables = refl
match_from_lem ordinal (symbol ∷ symbols) vtables =
    rw
      (
        match_method_at-eq-outcome_of symbol ordinal vtables,
        match_from_lem (ordinal + 1) symbols vtables,
        match_from,
      )
      refl

map-matches_from :
    (ordinal : ℕ) (symbols : List DerivedSymbol) (vtables : List ClassVtable)
    → map (λ m. m.symbol) (matches_from ordinal symbols vtables) ≡ symbols
map-matches_from ordinal [] vtables = refl
map-matches_from ordinal (symbol ∷ symbols) vtables =
    ap (λ r. symbol ∷ r) (map-matches_from (ordinal + 1) symbols vtables)

get_elem?-matches_from :
    (ordinal i : ℕ) (symbols : List DerivedSymbol) (vtables : List ClassVtable)
    (symbol : DerivedSymbol)
    → get_elem? symbols i ≡ some symbol
    → get_elem? (matches_from ordinal symbols vtables) i
      ≡ some (match_of symbol (ordinal + i) vtables)
get_elem?-matches_from ordinal i [] vtables symbol h = cc
get_elem?-matches_from ordinal zero (s ∷ symbols) vtables symbol h =
    let e : s ≡ symbol = cc in
    let at : ordinal ≡ ordinal + 0 = omega arith in
    ap (λ t. some (match_of t ordinal vtables)) e ∙ ap (λ o. some (match_of symbol o vtables)) at
get_elem?-matches_from ordinal (suc i) (s ∷ symbols) vtables symbol h =
    let at : ordinal + 1 + i ≡ ordinal + suc i = omega arith in
    get_elem?-matches_from (ordinal + 1) i symbols vtables symbol h
    ∙ ap (λ o. some (match_of symbol o vtables)) at

-- The methods of a class come back in their order and unchanged, each with the outcome of its
-- position in the list. It never panics.
pub match_class_lem :
    (class_methods : List DerivedSymbol) (vtables : List ClassVtable)
    → (matches : List MethodMatch) × (match_class class_methods vtables ≡ some matches)
      × (map (λ m. m.symbol) matches ≡ class_methods)
      × ((i : ℕ) (symbol : DerivedSymbol)
          → get_elem? class_methods i ≡ some symbol
          → get_elem? matches i ≡ some (match_of symbol i vtables))
unfolding match_class
match_class_lem class_methods vtables = (
  matches_from 0 class_methods vtables,
  match_from_lem 0 class_methods vtables,
  map-matches_from 0 class_methods vtables,
  λ i symbol h.
      let at : 0 + i ≡ i = omega arith in
      get_elem?-matches_from 0 i class_methods vtables symbol h
      ∙ ap (λ o. some (match_of symbol o vtables)) at,
)
