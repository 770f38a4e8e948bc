-- ===== src/Tests/Bindings.antt =====
-- The text that the generator writes for a small catalogue, and the linter on it.
use pulse_sdk.Prelude.{◌≡◌, refl, [], ◌∷◌, arith}
use pulse_sdk.Prelude.Text.{codes, is_whitespace, all_chars}
use pulse_sdk.Prelude.Trim.{trim_end, trim_start}
use pulse_sdk.Prelude.Lines.{split_on}
use pulse_sdk.Bindings.Generator.{PivotFunction, serialize_set, pbind_path}
use pulse_sdk.Bindings.Linter.{lint_pbind}
use pulse_sdk.Bindings.Linter.Entries.{IsText-of_chars}
use pulse_sdk.Bindings.Linter.Blocks.{IsWritable}
use pulse_sdk.Bindings.Linter.Clean.{lint_pbind-serialize_set}
use pulse_sdk.Bindings.Linter.Values.{no_empty_token}
use pulse_sdk.Tests.Catalogues.{
  mac, init, update, init_signature, update_signature, init_offset, update_offset, index,
}

abbrev init_function : PivotFunction
init_function = record { symbol = init; signature = init_signature; offset = init_offset }

abbrev update_function : PivotFunction
update_function = record { symbol = update; signature = update_signature; offset = update_offset }

init-IsWritable : IsWritable init_function
unfolding is_whitespace all_chars no_empty_token split_on trim_start trim_end
init-IsWritable = record {
  symbol = IsText-of_chars b'A' (codes "::b") refl;
  return_type = IsText-of_chars b'b' (codes "ool") refl;
  params = (
    (IsText-of_chars b'A' (codes "*") refl, refl),
    ((IsText-of_chars b'i' (codes "nt") refl, refl), tt),
  );
  offset = omega arith;
}

update-IsWritable : IsWritable update_function
unfolding is_whitespace all_chars
update-IsWritable = record {
  symbol = IsText-of_chars b'C' (codes "::d") refl;
  return_type = IsText-of_chars b'v' (codes "oid") refl;
  params = tt;
  offset = omega arith;
}

-- The witness.
lint_pbind-serialize_set_example :
    lint_pbind (pbind_path index mac) (serialize_set mac (init_function ∷ update_function ∷ []))
    ≡ []
lint_pbind-serialize_set_example =
    lint_pbind-serialize_set mac index (init_function ∷ update_function ∷ []) refl (omega arith)
      (omega arith) (init-IsWritable, (update-IsWritable, tt))
