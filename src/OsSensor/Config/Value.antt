-- ===== src/OsSensor/Config/Value.antt =====
-- src/os_sensor_nodelet.cpp: what the parsing functions share: tests of numbers, and the parameters that hold the
-- name of an enumeration's value. `none` is a thrown exception, after which the node is not loaded.
use Prim.Native.String.{String}
use ouster_ros.Prelude.{
  ℕ, ◌+◌, Bool, false, ◌||◌, Option, none, some, List, [], ◌∷◌, ◌==◌, if◌then◌else◌,
}
use ouster_ros.Prelude.Int.{ℤ, pos, pos_part, neg_part, ltb_ℤ}
use ouster_ros.Ros.{Params, param, is_arg_set}
use ouster_ros.OsSensor.Config.{Sdk, Parsed}

abbrev pub min_azw : ℤ
min_azw = pos 0

abbrev pub max_azw : ℤ
max_azw = pos 360000

abbrev pub eq_ℤ : ℤ → ℤ → Bool
eq_ℤ a b = (pos_part a + neg_part b) == (pos_part b + neg_part a)

-- `std::find` over the valid values.
abbrev pub one_of : ℤ → List ℕ → Bool
one_of v [] = false
one_of v (x ∷ xs) = eq_ℤ v (pos x) || one_of v xs

-- A value outside the closed interval.
abbrev pub outside : ℤ → ℤ → ℤ → Bool
outside low high v = ltb_ℤ v low || ltb_ℤ high v

module _ {R : Type 0} (sdk : Sdk R) (p : Params R) where
  abbrev pub Step : Type 0
  Step = Parsed sdk → Option (Parsed sdk)

  -- An enumeration's parameter: not set, of no value, or set.
  abbrev pub parse_enum :
      {E : Type 0} → String → (String → Option E) → (E → Parsed sdk → Parsed sdk) → Step
  parse_enum name of_string assign t =
      let arg = param p.text name "" in
      if is_arg_set arg
      then elim (of_string arg) [ none ↦ none | some v ↦ some (assign v t) ]
      else some t
