-- ===== src/PointCloud/Compose/Destagger.antt =====
-- The column that destaggering reads.
use ouster_ros.Prelude.{ℕ, ◌+◌, ◌-◌, ◌≤◌, ◌<◌, ◌≡◌, ◌⊎◌, inl, inr, true, get_or, arith}
use ouster_ros.Prelude.Int.{pos}
use ouster_ros.Float.{Float}
use ouster_ros.RingBuffer.Invariant.{step_cases}
use ouster_ros.PointCloud.Compose.{Input, v_shift}

-- Where destaggering is on and the row's shift `s` is from 0 to the width, a column reads the one `s` to its left,
-- round the end of the row, so it stays in the row.
pub v_shift_lem :
    (k : Float) (i : Input k) (u v s : ℕ)
    → i.destagger ≡ true
    → get_or i.pixel_shift_by_row u (pos 0) ≡ pos s
    → s ≤ i.ls.w
    → v < i.ls.w
    → (v_shift k i u v < i.ls.w) × ((v_shift k i u v + s ≡ v) ⊎ (v_shift k i u v + s ≡ v + i.ls.w))
unfolding v_shift
v_shift_lem k i u v s on shift le lt =
    simp (on, shift)
      (elim (step_cases (v + i.ls.w + 0 - s) i.ls.w (omega arith)) [
        | inl (in_row, e) ↦ (omega arith, inr (omega arith))
        | inr (past, e) ↦ (omega arith, inl (omega arith))
      ])
