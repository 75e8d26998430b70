-- ===== src/Ros.antt =====
-- What the nodes use of ROS: the parameter server, as a parameter, and texts of parameters.
use Prim.Native.Char.{code}
use Prim.Native.String.{String, [], ◌∷◌}
use ouster_ros.Prelude.{Bool, false, not, ◌||◌, Option, none, some, ◌==◌}
use ouster_ros.Prelude.Int.{ℤ}

-- What `nh.param` finds for a name, by the type of its default value.
pub record Params (R : Type 0) : Type 0 where
  pub text : String → Option String
  pub int : String → Option ℤ
  pub bool : String → Option Bool
  pub real : String → Option R

-- `nh.param(name, d)`.
abbrev pub param {ℓ} : {A : Type ℓ} → (String → Option A) → String → A → A
param get name d = elim (get name) [ none ↦ d | some v ↦ v ]

unfoldable pub is_arg_set : String → Bool
is_arg_set [] = false
is_arg_set (c ∷ arg) = not (code c == b' ') || is_arg_set arg
