-- ===== src/Bindings/Provenance/Transitions.antt =====
-- What the store holds after a transition, and when the gate lets an offset pass.
use pulse_sdk.Prelude.{
  ℕ, ◌≡◌, refl, ap, Bool, true, false, some, List, [], ◌∷◌, ok, list_eq, if◌then◌else◌, arith,
  Bool-cases, inl, inr,
}
use pulse_sdk.Bindings.{SymbolId, TargetPair, pair_eq}
use pulse_sdk.Bindings.Catalog.{ProvenanceRecord}
use pulse_sdk.Bindings.Prologue.{PrologueVerification}
use pulse_sdk.Bindings.Provenance.{
  CrossCheckOutcome, ProvenanceKey, same_key, ProvenanceStore, lookup_record, insert_record,
  get_record, update_record, verified_record, record_verified_transition, try_verified_transition,
  gate_verified, check_text, check_from_str, concordant, discordant, rejected, or_empty,
}
use pulse_sdk.Installer.Paths.Separate.{list_eq_self}

same_key_self : (k : ProvenanceKey) → same_key k k ≡ true
unfolding pair_eq
same_key_self (s, p) = ground (arith, list_eq_self s)

list_eq_trans :
    (xs ys zs : List ℕ) → list_eq xs ys ≡ true → list_eq ys zs ≡ false → list_eq xs zs ≡ false
list_eq_trans [] [] zs h k = k
list_eq_trans [] (y ∷ ys) zs h k = cc
list_eq_trans (x ∷ xs) [] zs h k = cc
list_eq_trans (x ∷ xs) (y ∷ ys) [] h k = refl
list_eq_trans (x ∷ xs) (y ∷ ys) (z ∷ zs) h k = ground (arith, list_eq_trans xs ys zs)

module _ (key : ProvenanceKey) (new : ProvenanceRecord) where
  lookup-insert :
      (records : List (ProvenanceKey × ProvenanceRecord))
      → lookup_record key (insert_record key new records) ≡ some new
  lookup-insert [] = rw (same_key_self key) refl
  lookup-insert ((k, r) ∷ records) = elim (Bool-cases (same_key k key)) [
    | inl e ↦ rw e (rw e refl)
    | inr e ↦ rw e (rw e (lookup-insert records))
  ]

  lookup-insert_other :
      (other : ProvenanceKey) (records : List (ProvenanceKey × ProvenanceRecord))
      → ((k : ProvenanceKey) → same_key k key ≡ true → same_key k other ≡ false)
      → same_key key other ≡ false
      → lookup_record other (insert_record key new records) ≡ lookup_record other records
  lookup-insert_other other [] far h = rw h refl
  lookup-insert_other other ((k, r) ∷ records) far h = elim (Bool-cases (same_key k key)) [
    | inl e ↦ rw e (rw (far k e) refl)
    | inr e ↦
        rw e (
          ap (λ l. if same_key k other then some r else l)
            (lookup-insert_other other records far h))
  ]

pair_eq_far : (p q r : TargetPair) → pair_eq p q ≡ true → pair_eq q r ≡ false → pair_eq p r ≡ false
unfolding pair_eq
pair_eq_far p q r h k = ground arith

same_key_far :
    (a b c : ProvenanceKey) → same_key a b ≡ true → same_key b c ≡ false → same_key a c ≡ false
same_key_far (s, p) (t, q) (u, r) h k = elim (Bool-cases (list_eq t u)) [
  | inl e ↦
      let f = pair_eq_far p q r (ground arith) (ground (arith, e)) in
      elim (Bool-cases (list_eq s u)) [ inl g ↦ rw g f | inr g ↦ rw g refl ]
  | inr e ↦ let f = list_eq_trans s t u (ground arith) e in ground (arith, f)
]

-- The outcome of a cross-check is read back from its text.
check_from_str-check_text : (c : CrossCheckOutcome) → check_from_str (check_text c) ≡ some c
unfolding check_from_str check_text
check_from_str-check_text concordant = refl
check_from_str-check_text discordant = refl
check_from_str-check_text rejected = refl

-- After a recorded transition the gate lets the offset pass, with the record as it was but for the
-- source and the outcomes that were recorded, and the records of all other offsets are what they
-- were.
pub record_verified_transition-passes :
    (symbol : SymbolId) (pair : TargetPair) (source : List ℕ) (check : CrossCheckOutcome)
    (no_reuse : Bool) (v : PrologueVerification) (store : ProvenanceStore)
    → (try_verified_transition symbol pair
          (record_verified_transition symbol pair source check no_reuse v store)
        ≡ ok (
            verified_record source check no_reuse v
              (or_empty symbol pair (get_record store symbol pair))))
      × ((s : SymbolId) (p : TargetPair)
          → same_key (symbol, pair) (s, p) ≡ false
          → get_record (record_verified_transition symbol pair source check no_reuse v store) s p
            ≡ get_record store s p)
unfolding record_verified_transition try_verified_transition update_record get_record gate_verified
record_verified_transition-passes symbol pair source check no_reuse v store =
    let key : ProvenanceKey = (symbol, pair) in
    let new =
      verified_record source check no_reuse v
        (or_empty symbol pair (lookup_record key store.records)) in
    (
      rw (lookup-insert key new store.records, try_verified_transition) refl,
      λ s p h.
          lookup-insert_other key new (s, p) store.records (λ k e. same_key_far k key (s, p) e h) h,
    )
