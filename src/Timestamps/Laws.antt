-- ===== src/Timestamps/Laws.antt =====
-- The offset of a PTP clock, added without running below 0.
use ouster_ros.Prelude.{ℕ, ◌+◌, ◌-◌, ◌^◌, ◌≤◌, ◌<◌, ◌≡◌, arith}
use ouster_ros.Prelude.Int.{ℤ, pos, negsuc, pos_part, neg_part}
use ouster_ros.Timestamps.{ts_safe_offset_add}

-- Where the sum fits in 64 bits, the result is the timestamp moved by the offset, stopped at 0.
pub ts_safe_offset_add_lem :
    (ts : ℕ) (offset : ℤ)
    → ts < 2 ^ 64
    → ts + pos_part offset < 2 ^ 64
    → ts_safe_offset_add ts offset ≡ ts + pos_part offset - neg_part offset
unfolding ts_safe_offset_add
ts_safe_offset_add_lem ts (pos n) h k = omega arith
ts_safe_offset_add_lem ts (negsuc n) h k = ground arith

-- A negative offset keeps the order of timestamps below 2 ^ 64.
pub ts_safe_offset_add_mono :
    (s t n : ℕ)
    → s ≤ t
    → t < 2 ^ 64
    → ts_safe_offset_add s (negsuc n) ≤ ts_safe_offset_add t (negsuc n)
unfolding ts_safe_offset_add
ts_safe_offset_add_mono s t n h k = ground arith
