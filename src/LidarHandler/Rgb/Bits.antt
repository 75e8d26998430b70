-- ===== src/LidarHandler/Rgb/Bits.antt =====
-- The bit patterns of the half-precision conversion.
use ouster_ros.Prelude.{ℕ, ◌+◌, ◌*◌, ◌^◌, ◌<◌, ◌≤◌, ◌≡◌, arith}
use ouster_ros.LidarHandler.Rgb.{expanded}

-- A positive half-precision pattern with exponent field `e` from 1 to 30 and fraction `m` becomes
-- the single-precision pattern with sign 0, exponent field `e` + 112, which moves the bias from 15
-- to 127, and the fraction in its top ten bits.
pub expanded_normal :
    (e m : ℕ)
    → 1 ≤ e
    → e ≤ 30
    → m < 2 ^ 10
    → expanded (e * 2 ^ 10 + m) ≡ (e + 112) * 2 ^ 23 + m * 2 ^ 13
unfolding expanded
expanded_normal e m h k l = omega arith

-- On positive patterns the conversion keeps the order, zero and the subnormal ones included.
pub expanded_mono : (a b : ℕ) → a < b → b < 2 ^ 15 → expanded a < expanded b
unfolding expanded
expanded_mono a b h k = omega arith
