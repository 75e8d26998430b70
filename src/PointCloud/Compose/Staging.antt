-- ===== src/PointCloud/Compose/Staging.antt =====
-- What is left in the staging point from one pixel does not reach the next.
use ouster_ros.Prelude.{
  ℕ, ◌≡◌, refl, sym, ap, ◌∙◌, inl, inr, Bool, true, false, ◌&&◌, some, List, [], ◌∷◌, drop, fun_ext,
  Bool-cases, Option-cases, arith, subst,
}
use ouster_ros.Float.{Float}
use ouster_ros.PointTypes.{
  Member, Scalar, x, y, z, t, ring, signal, near_ir, intensity, ambient, ChanFieldTable,
  PointStruct,
}
use ouster_ros.PointTypes.Layout.{
  same, same_iff, type_of, has, fits, is_filled, fills, is_filled_by,
}
use ouster_ros.PointCloud.Point.{Point, assign}
use ouster_ros.PointCloud.Point.Copy.{copied_member, copy_lidar_scan_fields_to_point_lem}
use ouster_ros.PointCloud.Transform.{transform, has_rgb}
use ouster_ros.PointCloud.Transform.Pointwise.{held, color, transformed, origin, transform_lem}
use ouster_ros.PointCloud.Compose.{Input, src_idx, header, fill}

and-true : (u v : Bool) → (u && v) ≡ true → (u ≡ true) × (v ≡ true)
and-true true v h = (refl, h)
and-true false v h = ground arith

-- Two points that agree on the members that a structure has.
pub Agree : (k : Float) → PointStruct → Point k → Point k → Type 0
Agree k p pt pt' = (m : Member) → has p m ≡ true → pt m ≡ pt' m

fills-has :
    (table : ChanFieldTable) (declared : List (Member × Scalar)) (m : Member) (s : Scalar)
    → fills table declared ≡ true
    → type_of declared m ≡ some s
    → is_filled table m ≡ true
fills-has table [] m s h e = ground arith
fills-has table ((n, s') ∷ rest) m s h e =
    let (here, there) = and-true (is_filled table n) (fills table rest) h in
    elim (Bool-cases (same n m)) [
      | inl eq ↦ subst (λ m'. is_filled table m' ≡ true) (same_iff n m eq) here
      | inr eq ↦ fills-has table rest m s there (ground arith)
    ]

module _ (k : Float) (i : Input k) (u v : ℕ) (pt pt' : Point k) where
  copied_agree :
      (m : Member)
      → has i.src m ≡ true
      → is_filled i.table m ≡ true
      → copied_member k i.src i.ls (src_idx k i u v) i.table (header k i u v pt) m
        ≡ copied_member k i.src i.ls (src_idx k i u v) i.table (header k i u v pt') m
  unfolding copied_member header assign
  copied_agree x here filled = ground arith
  copied_agree y here filled = ground arith
  copied_agree z here filled = ground arith
  copied_agree t here filled = ground arith
  copied_agree ring here filled = ground arith
  copied_agree m here filled = ground arith

  -- Where the table fills the structure, what `fill` makes does not depend on the point that it is given.
  pub fill-Agree :
      fits i.src.declared (drop 5 i.src.as_tuple) i.table ≡ true
      → is_filled_by i.table i.src ≡ true
      → Agree k i.src (fill k i u v pt) (fill k i u v pt')
  unfolding fill Agree
  fill-Agree h full m here =
      let (has_x, rest) = and-true (has i.src x) _ full in
      let (has_y, rest) = and-true (has i.src y) _ rest in
      let (has_z, all) = and-true (has i.src z) _ rest in
      elim (Option-cases (type_of i.src.declared m)) [
        | inl e ↦ ground arith
        | inr (s, e) ↦
            copy_lidar_scan_fields_to_point_lem k i.src i.table i.ls (src_idx k i u v)
              (header k i u v pt) m h
            ∙ copied_agree m here (fills-has i.table i.src.declared m s all e)
            ∙ sym (
                copy_lidar_scan_fields_to_point_lem k i.src i.table i.ls (src_idx k i u v)
                  (header k i u v pt') m h)
      ]

module _ (k : Float) (i : Input k) (pt pt' old : Point k) where
  transformed-Agree :
      has i.src x ≡ true
      → has i.src y ≡ true
      → has i.src z ≡ true
      → Agree k i.src pt pt'
      → (m : Member) → transformed k i.tgt i.src pt old m ≡ transformed k i.tgt i.src pt' old m
  unfolding transformed color origin has_rgb Agree
  transformed-Agree has_x has_y has_z agree x = ap (held k i.tgt x (old x)) (agree x has_x)
  transformed-Agree has_x has_y has_z agree y = ap (held k i.tgt y (old y)) (agree y has_y)
  transformed-Agree has_x has_y has_z agree z = ap (held k i.tgt z (old z)) (agree z has_z)
  transformed-Agree has_x has_y has_z agree intensity = ground (arith, agree signal)
  transformed-Agree has_x has_y has_z agree ambient = ground (arith, agree near_ir)
  transformed-Agree has_x has_y has_z agree m = ground (arith, agree m)

  pub transform-Agree :
      is_filled_by i.table i.src ≡ true
      → Agree k i.src pt pt'
      → transform k i.tgt i.src pt old ≡ transform k i.tgt i.src pt' old
  transform-Agree full agree =
      let (has_x, rest) = and-true (has i.src x) _ full in
      let (has_y, rest) = and-true (has i.src y) _ rest in
      let (has_z, all) = and-true (has i.src z) _ rest in
      fun_ext (λ m.
        transform_lem k i.tgt i.src pt old m
        ∙ transformed-Agree has_x has_y has_z agree m
        ∙ sym (transform_lem k i.tgt i.src pt' old m))
