-- ===== src/Float.antt =====
-- The floating-point type of the C++ compiler, `float` or `double`: its operations are arguments of
-- the definitions that use them, and no law of them is assumed.
pub mod Whole
use ouster_ros.Prelude.{ℕ, Bool}
use ouster_ros.Prelude.Int.{ℤ}

pub record Float : Type 1 where
  pub F : Type 0
  pub of_ℕ : ℕ → F
  pub of_ℤ : ℤ → F
  pub add : F → F → F
  pub sub : F → F → F
  pub mul : F → F → F
  pub div : F → F → F
  -- `std::round` and `std::lround`; the conversion to an unsigned integer, and to `size_t`.
  pub round : F → F
  pub lround : F → ℤ
  pub to_ℕ : F → ℕ
  pub lt : F → F → Bool
  -- The `float` with a 32-bit pattern, by `memcpy`.
  pub of_bits : ℕ → F
