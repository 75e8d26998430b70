-- ===== src/Float/Whole.antt =====
-- Whole numbers in place of floating-point ones, for tests.
use ouster_ros.Prelude.{ℕ, ◌+◌, ◌-◌, ◌*◌, ◌/◌, ltb}
use ouster_ros.Prelude.Int.{pos, pos_part}
use ouster_ros.Float.{Float}

abbrev pub whole : Float
whole = record {
  F = ℕ;
  of_ℕ = λ n. n;
  of_ℤ = pos_part;
  add = ◌+◌;
  sub = ◌-◌;
  mul = ◌*◌;
  div = ◌/◌;
  round = λ n. n;
  lround = pos;
  to_ℕ = λ n. n;
  lt = ltb;
  of_bits = λ n. n;
}
