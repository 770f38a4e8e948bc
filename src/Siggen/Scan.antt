-- ===== src/Siggen/Scan.antt =====
-- The scan of cli/src/siggen/scan.rs: all the positions at which a signature matches.
pub mod Exact
use pulse_sdk.Prelude.{
  ℕ, zero, suc, ◌+◌, ◌-◌, Bool, true, ◌&&◌, ◌||◌, List, [], ◌∷◌, length, is_empty, take, drop, ltb,
  ◌==◌, if◌then◌else◌,
}
use pulse_sdk.Siggen.Signature.{SigByte, fixed, wildcard, ByteSignature}

-- The test of one byte in `window_matches`.
sig_byte_matches : ℕ → SigByte → Bool
sig_byte_matches byte (fixed expected) = byte == expected
sig_byte_matches byte wildcard = true

-- `zip` stops at the shorter list.
pub window_matches : List ℕ → List SigByte → Bool
unfolding sig_byte_matches
window_matches [] pattern = true
window_matches (byte ∷ window) [] = true
window_matches (byte ∷ window) (s ∷ pattern) =
    sig_byte_matches byte s && window_matches window pattern

-- `for start in start..start + rounds`, with what is pushed on `matches`.
scan_loop : List ℕ → List SigByte → ℕ → ℕ → List ℕ
scan_loop binary pattern start zero = []
scan_loop binary pattern start (suc rounds) =
    let rest = scan_loop binary pattern (start + 1) rounds in
    if window_matches (take (length pattern) (drop start binary)) pattern
    then start ∷ rest
    else rest

unfoldable pub scan_all : List ℕ → ByteSignature → List ℕ
unfolding scan_loop window_matches
scan_all binary sig =
    if is_empty sig.bytes || ltb (length binary) (length sig.bytes)
    then []
    else scan_loop binary sig.bytes 0 (length binary - length sig.bytes + 1)
