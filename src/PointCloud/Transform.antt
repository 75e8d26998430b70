-- ===== src/PointCloud/Transform.antt =====
-- src/point_transform.h: `point::transform`, from the type that the scan is staged in to another point type.
-- In PCL's color types r, g, b and a share their storage with rgb, which nothing here reads.
pub mod Pointwise
use ouster_ros.Prelude.{Bool, true, false, not, ◌&&◌}
use ouster_ros.Float.{Float}
use ouster_ros.PointTypes.{
  Member, x, y, z, t, ring, range, signal, near_ir, reflectivity, flags, window, zone_mask, r, g, b,
  a, intensity, ambient, PointStruct,
}
use ouster_ros.PointTypes.Layout.{has}
use ouster_ros.PointCloud.Point.{Value, whole, Point, assign}

unfoldable pub has_rgb : PointStruct → Bool
has_rgb p = has p r && has p g && has p b

module _ (k : Float) where
  -- `CondBinaryOp<Enable>::run`
  unfoldable pub run : Bool → (Point k → Point k) → Point k → Point k
  run true op tgt_pt = op tgt_pt
  run false op tgt_pt = tgt_pt

  -- The two statements for one member of the target: from the source where it has `from`, else 0.
  unfoldable pub carry : PointStruct → PointStruct → Member → Member → Point k → Point k → Point k
  carry tgt src m from src_pt tgt_pt =
      let tgt_pt = run (has tgt m && has src from) (assign k tgt m (src_pt from)) tgt_pt in
      run (has tgt m && not (has src from)) (assign k tgt m (whole 0)) tgt_pt

  unfoldable pub assign_rgb : PointStruct → Value k → Value k → Value k → Point k → Point k
  assign_rgb tgt red green blue tgt_pt =
      assign k tgt b blue (assign k tgt g green (assign k tgt r red tgt_pt))

  unfoldable pub transform : PointStruct → PointStruct → Point k → Point k → Point k
  transform tgt src src_pt tgt_pt =
      let tgt_pt =
        assign k tgt z (src_pt z) (assign k tgt y (src_pt y) (assign k tgt x (src_pt x) tgt_pt)) in
      let tgt_pt = carry tgt src t t src_pt tgt_pt in
      let tgt_pt = carry tgt src ring ring src_pt tgt_pt in
      let tgt_pt = carry tgt src range range src_pt tgt_pt in
      let tgt_pt = carry tgt src signal signal src_pt tgt_pt in
      let tgt_pt = carry tgt src intensity signal src_pt tgt_pt in
      let tgt_pt = carry tgt src reflectivity reflectivity src_pt tgt_pt in
      let tgt_pt = carry tgt src near_ir near_ir src_pt tgt_pt in
      let tgt_pt = carry tgt src ambient near_ir src_pt tgt_pt in
      let tgt_pt = carry tgt src flags flags src_pt tgt_pt in
      let tgt_pt = carry tgt src window window src_pt tgt_pt in
      let tgt_pt = carry tgt src zone_mask zone_mask src_pt tgt_pt in
      let tgt_pt =
        run (has_rgb tgt && has_rgb src) (assign_rgb tgt (src_pt r) (src_pt g) (src_pt b)) tgt_pt in
      let tgt_pt =
        run (has_rgb tgt && not (has_rgb src)) (assign_rgb tgt (whole 0) (whole 0) (whole 0))
          tgt_pt in
      run (has tgt a) (assign k tgt a (whole 255)) tgt_pt
