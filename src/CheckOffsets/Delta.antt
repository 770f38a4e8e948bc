-- ===== src/CheckOffsets/Delta.antt =====
-- The distance that a shifted verdict reports.
use pulse_sdk.Prelude.{ℕ, ◌+◌, ◌-◌, ◌^◌, ◌<◌, ◌≡◌, arith}
use pulse_sdk.Prelude.Int.{pos, sub_ℕ}
use pulse_sdk.CheckOffsets.{delta_of}

-- Where both offsets are below 2^63, the distance is the difference of the offsets.
pub delta_of-eq-sub_ℕ :
    (detected declared : ℕ)
    → detected < 2 ^ 63
    → declared < 2 ^ 63
    → delta_of detected declared ≡ sub_ℕ detected declared
unfolding delta_of
delta_of-eq-sub_ℕ detected declared h k = ground arith

-- Where the declared offset is more than 2^63 above the detected one, the distance comes out
-- positive, though the content lies below the declared offset.
pub delta_of-sign :
    (detected declared : ℕ)
    → declared < 2 ^ 64
    → detected + 2 ^ 63 < declared
    → (n : ℕ) × (delta_of detected declared ≡ pos n)
unfolding delta_of
delta_of-sign detected declared h k = (detected + 2 ^ 64 - declared, ground arith)
