-- ===== src/PointCloud/Transform/Pointwise.antt =====
-- `point::transform` member by member.
use ouster_ros.Prelude.{◌≡◌, refl, Bool, true, false, not, ◌&&◌, none, some, if◌then◌else◌, arith}
use ouster_ros.Float.{Float}
use ouster_ros.PointTypes.{
  Member, x, y, z, signal, near_ir, r, g, b, a, rgb, intensity, ambient, PointStruct,
}
use ouster_ros.PointTypes.Layout.{same, same_iff, type_of, has}
use ouster_ros.PointCloud.Point.{Value, whole, Point, convert, assign}
use ouster_ros.PointCloud.Transform.{has_rgb, run, carry, assign_rgb, transform}

-- The member of the source that a member of the target comes from.
unfoldable pub origin : Member → Member
origin intensity = signal
origin ambient = near_ir
origin m = m

-- A value with the type of the member where the target has it, else what was there.
unfoldable pub held : (k : Float) → PointStruct → Member → Value k → Value k → Value k
held k tgt m before v = elim (type_of tgt.declared m) [ none ↦ before | some s ↦ convert k s v ]

module _ (k : Float) (tgt src : PointStruct) (src_pt tgt_pt : Point k) where
  -- A color is transformed where both structures have all three.
  unfoldable pub color : Member → Value k
  color m =
      if has_rgb tgt
      then held k tgt m (tgt_pt m) (if has_rgb src then src_pt m else whole 0)
      else tgt_pt m

  unfoldable pub transformed : Member → Value k
  transformed x = held k tgt x (tgt_pt x) (src_pt x)
  transformed y = held k tgt y (tgt_pt y) (src_pt y)
  transformed z = held k tgt z (tgt_pt z) (src_pt z)
  transformed r = color r
  transformed g = color g
  transformed b = color b
  transformed a = held k tgt a (tgt_pt a) (whole 255)
  transformed rgb = tgt_pt rgb
  transformed m =
      held k tgt m (tgt_pt m) (if has src (origin m) then src_pt (origin m) else whole 0)

-- One member, whatever was carried before.
carry_lem :
    (k : Float) (tgt src : PointStruct) (m from : Member) (src_pt tgt_pt : Point k) (n : Member)
    → carry k tgt src m from src_pt tgt_pt n ≡ (
        if same m n
        then held k tgt n (tgt_pt n) (if has src from then src_pt from else whole 0)
        else tgt_pt n)
unfolding carry run assign held
carry_lem k tgt src m from src_pt tgt_pt n = ground (arith, same_iff m n)

run_lem :
    (k : Float) (enable : Bool) (op : Point k → Point k) (pt : Point k) (n : Member)
    → run k enable op pt n ≡ (if enable then op pt n else pt n)
unfolding run
run_lem k true op pt n = refl
run_lem k false op pt n = refl

if_same : {A : Type 0} (c : Bool) (v : A) → (if c then v else v) ≡ v
if_same true v = refl
if_same false v = refl

assign_lem :
    (k : Float) (tgt : PointStruct) (m : Member) (v : Value k) (pt : Point k) (n : Member)
    → assign k tgt m v pt n ≡ (if same m n then held k tgt n (pt n) v else pt n)
unfolding assign held
assign_lem k tgt m v pt n = ground (arith, same_iff m n)

-- The two statements for the colors, of which at most one runs.
color_lem :
    {A : Type 0} (u v : Bool) (f : A → A → A) (before there zero : A)
    → (if u && not v
        then f (if u && v then f before there else before) zero
        else (if u && v then f before there else before))
      ≡ (if u then f before (if v then there else zero) else before)
color_lem true true f before there zero = refl
color_lem true false f before there zero = refl
color_lem false v f before there zero = refl

alpha_lem :
    (k : Float) (tgt : PointStruct) (m : Member) (before v : Value k)
    → (if has tgt m then held k tgt m before v else before) ≡ held k tgt m before v
unfolding held
alpha_lem k tgt m before v = ground arith

module _ (k : Float) (tgt src : PointStruct) (src_pt tgt_pt : Point k) where
  pub transform_lem :
      (m : Member) → transform k tgt src src_pt tgt_pt m ≡ transformed k tgt src src_pt tgt_pt m
  unfolding transform transformed color origin assign_rgb
  transform_lem r =
      simp (carry_lem, run_lem, if_same, assign_lem)
        (color_lem (has_rgb tgt) (has_rgb src) (held k tgt r) _ _ _)
  transform_lem g =
      simp (carry_lem, run_lem, if_same, assign_lem)
        (color_lem (has_rgb tgt) (has_rgb src) (held k tgt g) _ _ _)
  transform_lem b =
      simp (carry_lem, run_lem, if_same, assign_lem)
        (color_lem (has_rgb tgt) (has_rgb src) (held k tgt b) _ _ _)
  transform_lem a = simp (carry_lem, run_lem, if_same, assign_lem) (alpha_lem k tgt a _ _)
  transform_lem m = simp (carry_lem, run_lem, if_same, assign_lem) refl
