-- ===== src/Bindings/Generator.antt =====
-- cli/src/bindings/generator.rs: the catalogue turned into one set of functions for each pair, and
-- the text of a set.
pub mod Location
pub mod Pivot
pub mod Write
use pulse_sdk.Prelude.{
  ℕ, Bool, true, false, not, ◌&&◌, Option, none, some, List, [], ◌∷◌, ◌++◌, map, ltb, ◌==◌,
  if◌then◌else◌,
}
use pulse_sdk.Prelude.Text.{codes, decimal}
use pulse_sdk.Prelude.Radix.{hex_upper}
use pulse_sdk.Bindings.{
  Signature, SymbolId, TargetPair, sentinel_value, version_text, platform_id, platform_rank,
  pair_eq,
}
use pulse_sdk.Bindings.Catalog.{OffsetRecord, CatalogEntry, BindingCatalog, effective_rva}
use pulse_sdk.Installer.Paths.{FilePath, join}

abbrev pub pbind_format_version : ℕ
pbind_format_version = 1

pub record PivotFunction : Type 0 where
  pub symbol : SymbolId
  pub signature : Signature
  pub offset : OffsetRecord

-- The order of texts, `str::cmp`: that of their bytes is that of their code points.
unfoldable pub text_lt : List ℕ → List ℕ → Bool
text_lt xs [] = false
text_lt [] (y ∷ ys) = true
text_lt (x ∷ xs) (y ∷ ys) =
    let rest = text_lt xs ys in if ltb x y then true else if x == y then rest else false

-- The order of pairs: by version, then by platform.
unfoldable pub pair_lt : TargetPair → TargetPair → Bool
unfolding platform_rank
pair_lt p q =
    if ltb p.gd.major q.gd.major
    then true
    else if p.gd.major == q.gd.major
    then (if ltb p.gd.minor q.gd.minor
        then true
        else if p.gd.minor == q.gd.minor
        then ltb (platform_rank p.platform) (platform_rank q.platform)
        else false)
    else false

-- `BTreeSet::insert`: the set is an increasing list.
unfoldable pub insert_pair : TargetPair → List TargetPair → List TargetPair
unfolding pair_lt
insert_pair p [] = p ∷ []
insert_pair p (q ∷ pairs) =
    let rest = insert_pair p pairs in
    if pair_lt p q then p ∷ q ∷ pairs else if pair_lt q p then q ∷ rest else q ∷ pairs

unfoldable pub insert_offsets : List OffsetRecord → List TargetPair → List TargetPair
unfolding insert_pair
insert_offsets [] pairs = pairs
insert_offsets (offset ∷ offsets) pairs = insert_offsets offsets (insert_pair offset.pair pairs)

unfoldable pub insert_entries : List CatalogEntry → List TargetPair → List TargetPair
unfolding insert_offsets
insert_entries [] pairs = pairs
insert_entries (entry ∷ entries) pairs = insert_entries entries (insert_offsets entry.offsets pairs)

-- The pairs of a catalogue.
unfoldable pub pairs_of : BindingCatalog → List TargetPair
unfolding insert_entries
pairs_of catalog = insert_entries catalog.entries []

-- `entry.offsets.iter().find(|o| o.pair == pair)`
unfoldable pub find_offset : TargetPair → List OffsetRecord → Option OffsetRecord
find_offset pair [] = none
find_offset pair (offset ∷ offsets) =
    let rest = find_offset pair offsets in if pair_eq offset.pair pair then some offset else rest

abbrev pub pivot_entry :
    CatalogEntry → Option OffsetRecord → List PivotFunction → List PivotFunction
pivot_entry entry none functions = functions
pivot_entry entry (some offset) functions =
    record { symbol = entry.symbol; signature = entry.signature; offset = offset } ∷ functions

unfoldable pub pivot : TargetPair → List CatalogEntry → List PivotFunction
unfolding find_offset
pivot pair [] = []
pivot pair (entry ∷ entries) =
    pivot_entry entry (find_offset pair entry.offsets) (pivot pair entries)

-- `sort_by`, which is stable.
unfoldable pub insert_function : PivotFunction → List PivotFunction → List PivotFunction
unfolding text_lt
insert_function f [] = f ∷ []
insert_function f (g ∷ functions) =
    let rest = insert_function f functions in
    if text_lt g.symbol f.symbol then g ∷ rest else f ∷ g ∷ functions

unfoldable pub sort_functions : List PivotFunction → List PivotFunction
unfolding insert_function
sort_functions [] = []
sort_functions (f ∷ functions) = insert_function f (sort_functions functions)

-- The functions that the set of a pair lists.
unfoldable pub functions_of : BindingCatalog → TargetPair → List PivotFunction
unfolding pivot sort_functions
functions_of catalog pair = sort_functions (pivot pair catalog.entries)

abbrev pub emit_verified : OffsetRecord → Bool
emit_verified offset = elim offset.rva [
  | none ↦ false
  | some rva ↦ offset.verified && (not (rva == 0) && not (rva == sentinel_value))
]

-- What a set adds to `unresolved`.
unfoldable pub unresolved_of : TargetPair → List PivotFunction → List (TargetPair × SymbolId)
unresolved_of pair [] = []
unresolved_of pair (f ∷ functions) =
    let rest = unresolved_of pair functions in
    if emit_verified f.offset then rest else (pair, f.symbol) ∷ rest

-- `param_types.join(separator)`
unfoldable pub join_texts : List ℕ → List (List ℕ) → List ℕ
join_texts separator [] = []
join_texts separator (text ∷ []) = text
join_texts separator (text ∷ text' ∷ texts) =
    text ++ (separator ++ join_texts separator (text' ∷ texts))

-- `key = value`
abbrev pub entry_line : List ℕ → List ℕ → List ℕ
entry_line key value = key ++ (codes " = " ++ value)

abbrev pub bool_text : Bool → List ℕ
bool_text true = codes "true"
bool_text false = codes "false"

abbrev pub offset_text : OffsetRecord → List ℕ
offset_text offset = codes "0x" ++ hex_upper (effective_rva offset)

-- The lines of a block, the empty line before it too, and the text behind them.
unfoldable pub write_function : PivotFunction → List ℕ → List ℕ
unfolding join_texts
write_function f rest =
    10
    ∷ (codes "[function]"
        ++ 10
          ∷ (entry_line (codes "symbol") f.symbol
              ++ 10
                ∷ (entry_line (codes "offset") (offset_text f.offset)
                    ++ 10
                      ∷ (entry_line (codes "return") f.signature.return_type
                          ++ 10
                            ∷ (entry_line (codes "params")
                                  (join_texts (codes ", ") f.signature.param_types)
                                ++ 10
                                  ∷ (entry_line (codes "verified")
                                        (bool_text (emit_verified f.offset))
                                      ++ 10 ∷ rest))))))

unfoldable pub write_functions : List PivotFunction → List ℕ
unfolding write_function
write_functions [] = []
write_functions (f ∷ functions) = write_function f (write_functions functions)

unfoldable pub serialize_set : TargetPair → List PivotFunction → List ℕ
unfolding write_functions
serialize_set pair functions =
    entry_line (codes "pbind_version") (decimal pbind_format_version)
    ++ 10
      ∷ (entry_line (codes "gd_version") (version_text pair.gd)
          ++ 10
            ∷ (entry_line (codes "platform") (platform_id pair.platform)
                ++ 10 ∷ write_functions functions))

unfoldable pub pbind_path : FilePath → TargetPair → FilePath
pbind_path out_root pair =
    join (join (join out_root (codes "bindings")) (version_text pair.gd))
      (platform_id pair.platform ++ codes ".pbind")
