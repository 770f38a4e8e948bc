-- ===== src/Siggen/Generate.antt =====
-- `generate` of cli/src/siggen/mod.rs: the shortest window whose signature is verified unique.
pub mod Verified
use pulse_sdk.Prelude.{
  ℕ, zero, suc, ◌+◌, ◌-◌, Option, none, some, Bool, true, false, ◌&&◌, List, [], ◌∷◌, length, take,
  drop, min, leb, ◌==◌, if◌then◌else◌, Result, ok, err,
}
use pulse_sdk.Extract.{Architecture, arm64, x86_64}
use pulse_sdk.Siggen.Signature.{ByteSignature}
use pulse_sdk.Siggen.Scan.{scan_all}
use pulse_sdk.Siggen.Mask.{Decoders, MaskError, architecture_of, mask_window}

-- The errors of `generate`; `out_of_fuel` is no error of the code.
pub data GenerateError : Type 0 where
  empty_binary out_of_bounds no_unique_window out_of_fuel : GenerateError
  architecture_error : MaskError → GenerateError

abbrev pub max_window_bytes : ℕ
max_window_bytes = 128

-- How much the window grows in a round.
abbrev pub step_of : Architecture → ℕ
step_of arm64 = 4
step_of x86_64 = 1

-- `matches.len() == 1 && matches[0] == offset`
only_match : List ℕ → ℕ → Bool
only_match [] offset = false
only_match (first ∷ rest) offset = length (first ∷ rest) == 1 && first == offset

module _ (d : Decoders) (binary : List ℕ) (offset : ℕ) where
  abbrev pub window_at : ℕ → List ℕ
  window_at window_len = take window_len (drop offset binary)

  -- The body of the loop: the verified signature of a window, which the code returns. A window that
  -- cannot be masked is passed over.
  try_window : Architecture → ℕ → Option ByteSignature
  unfolding only_match
  try_window arch window_len = elim (mask_window d (window_at window_len) arch) [
    | err e ↦ none
    | ok sig_bytes ↦
        let sig : ByteSignature = record { bytes = sig_bytes } in
        if only_match (scan_all binary sig) offset then some sig else none
  ]

  -- `while window_len <= max_window`
  widen_loop : ℕ → Architecture → ℕ → ℕ → Result GenerateError ByteSignature
  widen_loop zero arch max_window window_len = err out_of_fuel
  widen_loop (suc fuel) arch max_window window_len = elim (leb window_len max_window) [
    | false ↦ err no_unique_window
    | true ↦ elim (try_window arch window_len) [
      | some sig ↦ ok sig
      | none ↦ widen_loop fuel arch max_window (window_len + step_of arch)
    ]
  ]

  -- An offset is a `u64`, and `usize` has 64 bits on the hosts of the tool.
  unfoldable pub generate : Result GenerateError ByteSignature
  unfolding widen_loop try_window
  generate =
      if length binary == 0
      then err empty_binary
      else if leb (length binary) offset
      then err out_of_bounds
      else elim (architecture_of d binary) [
        | err e ↦ err (architecture_error e)
        | ok arch ↦
            let max_window = min (length binary - offset) max_window_bytes in
            widen_loop (max_window + 1) arch max_window (step_of arch)
      ]
