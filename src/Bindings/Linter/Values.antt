-- ===== src/Bindings/Linter/Values.antt =====
-- The tests of the values in cli/src/bindings/linter.rs.
use pulse_sdk.Prelude.{
  ℕ, ◌^◌, Bool, true, false, not, ◌&&◌, ◌||◌, Option, none, some, List, [], ◌∷◌, list_eq, is_empty,
  ◌==◌, if◌then◌else◌,
}
use pulse_sdk.Prelude.Text.{codes, all_chars, is_ascii_hexdigit, from_str_radix, in_range}
use pulse_sdk.Prelude.Lines.{split_on}
use pulse_sdk.Prelude.Trim.{trim, split_once}

abbrev pub is_digit : ℕ → Bool
is_digit c = in_range b'0' b'9' c

abbrev pub is_some_number : Option ℕ → Bool
is_some_number none = false
is_some_number (some n) = true

unfoldable pub is_valid_unsigned_decimal : List ℕ → Bool
is_valid_unsigned_decimal text =
    let t = trim text in
    not (is_empty t) && (all_chars is_digit t && is_some_number (from_str_radix 10 (2 ^ 64) t))

unfoldable pub is_valid_gd_version : List ℕ → Bool
unfolding is_valid_unsigned_decimal
is_valid_gd_version text = elim (split_once b'.' (trim text)) [
  | none ↦ false
  | some (major, minor) ↦ is_valid_unsigned_decimal major && is_valid_unsigned_decimal minor
]

-- `strip_prefix("0x").or_else(|| strip_prefix("0X"))`
abbrev pub strip_hex_prefix : List ℕ → Option (List ℕ)
strip_hex_prefix [] = none
strip_hex_prefix (c ∷ []) = none
strip_hex_prefix (c ∷ x ∷ hex) = if c == b'0' && (x == b'x' || x == b'X') then some hex else none

unfoldable pub is_valid_offset : List ℕ → Bool
is_valid_offset text =
    let t = trim text in
    if is_empty t then false else elim (strip_hex_prefix t) [
      | some hex ↦
          not (is_empty hex)
          && (all_chars is_ascii_hexdigit hex && is_some_number (from_str_radix 16 (2 ^ 64) hex))
      | none ↦ all_chars is_digit t && is_some_number (from_str_radix 10 (2 ^ 64) t)
    ]

unfoldable pub no_empty_token : List (List ℕ) → Bool
no_empty_token [] = true
no_empty_token (token ∷ tokens) = not (is_empty (trim token)) && no_empty_token tokens

unfoldable pub is_valid_params : List ℕ → Bool
unfolding no_empty_token
is_valid_params text =
    let t = trim text in if is_empty t then true else no_empty_token (split_on b',' t)

unfoldable pub is_valid_bool : List ℕ → Bool
is_valid_bool text = let t = trim text in list_eq t (codes "true") || list_eq t (codes "false")
