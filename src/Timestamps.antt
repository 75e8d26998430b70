-- ===== src/Timestamps.antt =====
-- include/ouster_ros/os_ros.h: the timestamp helpers of namespace `impl`.
pub mod Laws
use ouster_ros.Prelude.{ℕ, suc, ◌-◌, ◌^◌, true, false, ltb, if◌then◌else◌}
use ouster_ros.Prelude.Int.{ℤ, pos, negsuc}
use ouster_ros.Prelude.Words.{add_u64, sub_u64}
use ouster_ros.Float.{Float}

-- `ts` is a `uint64_t`, `offset` an `int64_t`; the sum wraps at 2 ^ 64.
unfoldable pub ts_safe_offset_add : ℕ → ℤ → ℕ
ts_safe_offset_add ts (pos n) = add_u64 ts n
ts_safe_offset_add ts (negsuc n) = if ltb ts (suc n) then 0 else sub_u64 ts (suc n)

abbrev pub ullong_max : ℕ
ullong_max = 2 ^ 64 - 1

-- The conversion of the rounded value is reached only where it is in range.
unfoldable pub ulround : (d : Float) → d.F → ℕ
ulround d value =
    let rounded_value = d.round value in
    if d.lt rounded_value (d.of_ℕ 0)
    then 0
    else if d.lt (d.of_ℕ ullong_max) rounded_value
    then ullong_max
    else d.to_ℕ rounded_value
