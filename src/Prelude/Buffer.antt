-- ===== src/Prelude/Buffer.antt =====
-- A byte buffer that is read and written at offsets: slices of `[u8]` and words in both orders.
use Prim.Native.Nat.{ℕ, zero, suc, ◌+◌, ◌*◌, ◌/◌, ◌%◌, ◌^◌, ◌≤◌}
use mathlib.Core.Path.{◌≡◌, refl, ap}
use mathlib.Core.List.{List, [], ◌∷◌, ◌++◌}
use mathlib.Core.Option.{Option, none, some}
use mathlib.Core.Logic.{◌⊎◌, inl, inr}
use native.Mathlib.Omega.{arith}
use pulse_sdk.Prelude.Tests.{leb, if◌then◌else◌}
use pulse_sdk.Prelude.Lists.{length, take, drop}

-- `buf.get(off..off + n)`
abbrev pub slice : ℕ → ℕ → List ℕ → Option (List ℕ)
slice off n buf = if leb (off + n) (length buf) then some (take n (drop off buf)) else none

-- `buf[off..off + bytes.len()].copy_from_slice(bytes)`; what lies behind the end is not written,
-- where the code panics.
unfoldable pub copy_at : ℕ → List ℕ → List ℕ → List ℕ
copy_at off [] buf = buf
copy_at off (b ∷ bytes) [] = []
copy_at zero (b ∷ bytes) (x ∷ buf) = b ∷ copy_at zero bytes buf
copy_at (suc off) (b ∷ bytes) (x ∷ buf) = x ∷ copy_at off (b ∷ bytes) buf

-- `from_le_bytes` and `to_le_bytes`
abbrev pub from_le : List ℕ → ℕ
from_le [] = 0
from_le (b ∷ bytes) = b + 256 * from_le bytes

abbrev pub u32_le_bytes : ℕ → List ℕ
u32_le_bytes w = (w % 256) ∷ (w / 256 % 256) ∷ (w / 65536 % 256) ∷ (w / 16777216 % 256) ∷ []

-- `from_be_bytes`
abbrev pub from_be : ℕ → List ℕ → ℕ
from_be acc [] = acc
from_be acc (b ∷ bytes) = from_be (acc * 256 + b) bytes

pub from_le-u32_le_bytes : (w : ℕ) → from_le (u32_le_bytes w) ≡ w % 2 ^ 32
from_le-u32_le_bytes w = omega arith

pub length-copy_at : (off : ℕ) (bytes buf : List ℕ) → length (copy_at off bytes buf) ≡ length buf
unfolding copy_at
length-copy_at off [] buf = refl
length-copy_at off (b ∷ bytes) [] = refl
length-copy_at zero (b ∷ bytes) (x ∷ buf) = ap suc (length-copy_at zero bytes buf)
length-copy_at (suc off) (b ∷ bytes) (x ∷ buf) = ap suc (length-copy_at off (b ∷ bytes) buf)

-- Writing behind a prefix leaves the prefix alone.
pub copy_at_skip :
    (front : List ℕ) (k off : ℕ) (bytes buf : List ℕ)
    → off ≡ length front + k
    → copy_at off bytes (front ++ buf) ≡ front ++ copy_at k bytes buf
unfolding copy_at
copy_at_skip front k off [] buf e = refl
copy_at_skip [] k off (b ∷ bytes) buf e =
    let same : off ≡ k = omega arith in ap (λ o. copy_at o (b ∷ bytes) buf) same
copy_at_skip (x ∷ front) k zero (b ∷ bytes) buf e = absurd (omega arith)
copy_at_skip (x ∷ front) k (suc off) (b ∷ bytes) buf e =
    ap (λ r. x ∷ r) (copy_at_skip front k off (b ∷ bytes) buf (omega arith))

-- Writing over a part of the same length.
pub copy_at_here :
    (bytes old buf : List ℕ)
    → length old ≡ length bytes
    → copy_at 0 bytes (old ++ buf) ≡ bytes ++ buf
unfolding copy_at
copy_at_here [] [] buf e = refl
copy_at_here [] (x ∷ old) buf e = absurd (omega arith)
copy_at_here (b ∷ bytes) [] buf e = absurd (omega arith)
copy_at_here (b ∷ bytes) (x ∷ old) buf e =
    ap (λ r. b ∷ r) (copy_at_here bytes old buf (omega arith))

-- What lies in front of the bytes written is left alone.
slice-copy_at_front :
    (at n off : ℕ) (bytes buf : List ℕ)
    → at + n ≤ off
    → take n (drop at (copy_at off bytes buf)) ≡ take n (drop at buf)
unfolding copy_at
slice-copy_at_front at n off [] buf h = refl
slice-copy_at_front at n off (b ∷ bytes) [] h = refl
slice-copy_at_front zero zero zero (b ∷ bytes) (x ∷ buf) h = refl
slice-copy_at_front zero (suc n) zero (b ∷ bytes) (x ∷ buf) h = absurd (omega arith)
slice-copy_at_front (suc at) n zero (b ∷ bytes) (x ∷ buf) h = absurd (omega arith)
slice-copy_at_front zero zero (suc off) (b ∷ bytes) (x ∷ buf) h = refl
slice-copy_at_front zero (suc n) (suc off) (b ∷ bytes) (x ∷ buf) h =
    ap (λ r. x ∷ r) (slice-copy_at_front zero n off (b ∷ bytes) buf (omega arith))
slice-copy_at_front (suc at) n (suc off) (b ∷ bytes) (x ∷ buf) h =
    slice-copy_at_front at n off (b ∷ bytes) buf (omega arith)

-- And so is what lies behind them.
drop-copy_at_behind :
    (at off : ℕ) (bytes buf : List ℕ)
    → off + length bytes ≤ at
    → drop at (copy_at off bytes buf) ≡ drop at buf
unfolding copy_at
drop-copy_at_behind at off [] buf h = refl
drop-copy_at_behind at off (b ∷ bytes) [] h = refl
drop-copy_at_behind zero zero (b ∷ bytes) (x ∷ buf) h = absurd (omega arith)
drop-copy_at_behind (suc at) zero (b ∷ bytes) (x ∷ buf) h =
    drop-copy_at_behind at zero bytes buf (omega arith)
drop-copy_at_behind zero (suc off) (b ∷ bytes) (x ∷ buf) h = absurd (omega arith)
drop-copy_at_behind (suc at) (suc off) (b ∷ bytes) (x ∷ buf) h =
    drop-copy_at_behind at off (b ∷ bytes) buf (omega arith)

-- The bytes written are read back.
pub slice-copy_at_self :
    (off : ℕ) (bytes buf : List ℕ)
    → off + length bytes ≤ length buf
    → take (length bytes) (drop off (copy_at off bytes buf)) ≡ bytes
unfolding copy_at
slice-copy_at_self off [] buf h = refl
slice-copy_at_self off (b ∷ bytes) [] h = absurd (omega arith)
slice-copy_at_self zero (b ∷ bytes) (x ∷ buf) h =
    ap (λ r. b ∷ r) (slice-copy_at_self zero bytes buf (omega arith))
slice-copy_at_self (suc off) (b ∷ bytes) (x ∷ buf) h =
    slice-copy_at_self off (b ∷ bytes) buf (omega arith)

-- A region and the bytes written lie apart.
abbrev pub IsApart : ℕ → ℕ → ℕ → ℕ → Type 0
IsApart at n off k = (at + n ≤ off) ⊎ (off + k ≤ at)

pub slice-copy_at_apart :
    (at n off : ℕ) (bytes buf : List ℕ)
    → IsApart at n off (length bytes)
    → take n (drop at (copy_at off bytes buf)) ≡ take n (drop at buf)
slice-copy_at_apart at n off bytes buf (inl h) = slice-copy_at_front at n off bytes buf h
slice-copy_at_apart at n off bytes buf (inr h) =
    ap (take n) (drop-copy_at_behind at off bytes buf h)
