-- ===== src/Bindings/Provenance.antt =====
-- cli/src/bindings/provenance.rs: the outcomes of the checks of each offset, and the gate before an
-- offset counts as verified. The map is the list of its pairs.
pub mod Transitions
use pulse_sdk.Prelude.{
  ℕ, Bool, true, false, not, ◌&&◌, Option, none, some, List, [], ◌∷◌, Result, ok, err, ◌>>=◌,
  list_eq, if◌then◌else◌,
}
use pulse_sdk.Prelude.Text.{codes}
use pulse_sdk.Bindings.{SymbolId, TargetPair, pair_eq}
use pulse_sdk.Bindings.Catalog.{
  ProvenanceRecord, empty_record, OffsetRecord, CatalogEntry, BindingCatalog,
}
use pulse_sdk.Bindings.Prologue.{
  PrologueMethod, PrologueOutcome, PrologueVerification, method_text, outcome_text,
}

pub data CrossCheckOutcome : Type 0 where
  concordant discordant rejected : CrossCheckOutcome

-- `CrossCheckOutcome::as_str`
unfoldable pub check_text : CrossCheckOutcome → List ℕ
check_text concordant = codes "concordant"
check_text discordant = codes "discordant"
check_text rejected = codes "rejected"

-- `CrossCheckOutcome::from_str`
unfoldable pub check_from_str : List ℕ → Option CrossCheckOutcome
check_from_str value =
    if list_eq value (codes "concordant")
    then some concordant
    else if list_eq value (codes "discordant")
    then some discordant
    else if list_eq value (codes "rejected")
    then some rejected
    else none

abbrev is_some_text : Option (List ℕ) → Bool
is_some_text none = false
is_some_text (some text) = true

abbrev pub has_cross_check_outcome : ProvenanceRecord → Bool
has_cross_check_outcome r = is_some_text r.cross_check

abbrev pub has_prologue_outcome : ProvenanceRecord → Bool
has_prologue_outcome r = is_some_text r.prologue_outcome

pub data MissingProvenance : Type 0 where
  cross_check_missing prologue_missing both_missing : MissingProvenance

pub record AuditabilityError : Type 0 where
  pub symbol : SymbolId
  pub pair : TargetPair
  pub missing : MissingProvenance

abbrev auditability : ProvenanceRecord → MissingProvenance → AuditabilityError
auditability r missing = record { symbol = r.symbol; pair = r.pair; missing = missing }

abbrev pub missing_outcomes : Bool → Bool → Option MissingProvenance
missing_outcomes true true = none
missing_outcomes false true = some cross_check_missing
missing_outcomes true false = some prologue_missing
missing_outcomes false false = some both_missing

unfoldable pub gate_verified : ProvenanceRecord → Result AuditabilityError (Unit {0})
gate_verified r = elim (missing_outcomes (has_cross_check_outcome r) (has_prologue_outcome r)) [
  | none ↦ ok tt
  | some missing ↦ err (auditability r missing)
]

unfoldable pub gate_distributable : Bool → ProvenanceRecord → Result AuditabilityError (Unit {0})
gate_distributable verified r =
    if verified && not (has_prologue_outcome r)
    then err (auditability r prologue_missing)
    else ok tt

abbrev pub ProvenanceKey : Type 0
ProvenanceKey = SymbolId × TargetPair

abbrev pub same_key : ProvenanceKey → ProvenanceKey → Bool
same_key (s, p) (t, q) = list_eq s t && pair_eq p q

pub record ProvenanceStore : Type 0 where
  pub records : List (ProvenanceKey × ProvenanceRecord)

abbrev pub lookup_record :
    ProvenanceKey → List (ProvenanceKey × ProvenanceRecord) → Option ProvenanceRecord
lookup_record key [] = none
lookup_record key ((k, r) ∷ records) =
    let rest = lookup_record key records in if same_key k key then some r else rest

abbrev pub insert_record :
    ProvenanceKey
    → ProvenanceRecord
    → List (ProvenanceKey × ProvenanceRecord)
    → List (ProvenanceKey × ProvenanceRecord)
insert_record key record_new [] = (key, record_new) ∷ []
insert_record key record_new ((k, r) ∷ records) =
    let rest = insert_record key record_new records in
    if same_key k key then (k, record_new) ∷ records else (k, r) ∷ rest

unfoldable pub get_record : ProvenanceStore → SymbolId → TargetPair → Option ProvenanceRecord
get_record store symbol pair = lookup_record (symbol, pair) store.records

abbrev pub or_empty : SymbolId → TargetPair → Option ProvenanceRecord → ProvenanceRecord
or_empty symbol pair none = empty_record symbol pair
or_empty symbol pair (some r) = r

-- `entry_mut` and the assignments through it.
unfoldable pub update_record :
    SymbolId
    → TargetPair
    → (ProvenanceRecord → ProvenanceRecord)
    → ProvenanceStore
    → ProvenanceStore
unfolding get_record
update_record symbol pair change store = record {
  records =
      insert_record (symbol, pair) (change (or_empty symbol pair (get_record store symbol pair)))
        store.records;
}

-- The records of the offsets of an entry.
unfoldable pub add_provenances : SymbolId → List OffsetRecord → ProvenanceStore → ProvenanceStore
add_provenances symbol [] store = store
add_provenances symbol (o ∷ offsets) store =
    add_provenances symbol offsets
      (record { records = insert_record (symbol, o.pair) o.provenance store.records })

unfoldable pub add_entries : List CatalogEntry → ProvenanceStore → ProvenanceStore
unfolding add_provenances
add_entries [] store = store
add_entries (entry ∷ entries) store =
    add_entries entries (add_provenances entry.symbol entry.offsets store)

unfoldable pub from_catalog : BindingCatalog → ProvenanceStore
unfolding add_entries
from_catalog catalog = add_entries catalog.entries (record { records = [] })

unfoldable pub record_address_source :
    SymbolId → TargetPair → List ℕ → ProvenanceStore → ProvenanceStore
unfolding update_record
record_address_source symbol pair source store =
    update_record symbol pair (λ r. record r { address_source = some source }) store

unfoldable pub record_cross_check :
    SymbolId → TargetPair → CrossCheckOutcome → Bool → ProvenanceStore → ProvenanceStore
unfolding update_record check_text
record_cross_check symbol pair outcome no_reuse store =
    update_record symbol pair
      (λ r. record r { cross_check = some (check_text outcome); cross_check_no_reuse = no_reuse })
      store

unfoldable pub record_prologue :
    SymbolId → TargetPair → PrologueMethod → PrologueOutcome → ProvenanceStore → ProvenanceStore
unfolding update_record method_text outcome_text
record_prologue symbol pair method outcome store =
    update_record symbol pair
      (λ r. record r {
        prologue_method = some (method_text method);
        prologue_outcome = some (outcome_text outcome);
      })
      store

abbrev pub verified_record :
    List ℕ → CrossCheckOutcome → Bool → PrologueVerification → ProvenanceRecord → ProvenanceRecord
verified_record source check no_reuse v r = record r {
  address_source = some source;
  cross_check = some (check_text check);
  cross_check_no_reuse = no_reuse;
  prologue_method = some (method_text v.method);
  prologue_outcome = some (outcome_text v.outcome);
}

unfoldable pub record_verified_transition :
    SymbolId
    → TargetPair
    → List ℕ
    → CrossCheckOutcome
    → Bool
    → PrologueVerification
    → ProvenanceStore
    → ProvenanceStore
unfolding update_record check_text method_text outcome_text
record_verified_transition symbol pair source check no_reuse v store =
    update_record symbol pair (verified_record source check no_reuse v) store

unfoldable pub try_verified_transition :
    SymbolId → TargetPair → ProvenanceStore → Result AuditabilityError ProvenanceRecord
unfolding get_record gate_verified
try_verified_transition symbol pair store = elim (get_record store symbol pair) [
  | none ↦ err (record { symbol = symbol; pair = pair; missing = both_missing })
  | some r ↦ gate_verified r >>= λ _. ok r
]
