-- ===== src/PointCloud/Compose.antt =====
-- src/point_cloud_compose.h, `scan_to_cloud_f`: the loops that compose a point cloud from a scan and its coordinates.
-- A pixel shift is at most the number of columns, so that the column `v + w - shift` is not negative.
pub mod Staging
pub mod Dense
pub mod Destagger
pub mod Organized
pub mod Targets
use ouster_ros.Prelude.{
  ℕ, suc, zero, ◌+◌, ◌-◌, ◌*◌, ◌/◌, ◌%◌, ◌^◌, Bool, true, false, not, ◌&&◌, Option, none, some,
  List, [], ◌∷◌, ◌++◌, length, get_or, set, ltb, if◌then◌else◌,
}
use ouster_ros.Prelude.Int.{ℤ, pos, pos_part, neg_part}
use ouster_ros.Float.{Float}
use ouster_ros.PointTypes.{x, y, z, t, ring, ChanFieldTable, PointStruct}
use ouster_ros.PointTypes.Layout.{type_of}
use ouster_ros.PointCloud.Point.{
  LidarScan, Value, whole, real, Point, convert, assign, make_lidar_scan_tuple,
  copy_lidar_scan_fields_to_point,
}
use ouster_ros.PointCloud.Transform.{transform}

-- The arguments of `scan_to_cloud_f` that it only reads. `row` is `points.row` and `has_nan` is Eigen's `hasNaN`;
-- `same_type` says that `PointT` is `PointS`.
pub record Input (k : Float) : Type 0 where
  pub tgt : PointStruct
  pub src : PointStruct
  pub same_type : Bool
  pub table : ChanFieldTable
  pub row : ℕ → k.F × k.F × k.F
  pub has_nan : k.F × k.F × k.F → Bool
  pub scan_ts : ℕ
  pub ls : LidarScan
  pub pixel_shift_by_row : List ℤ
  pub organized : Bool
  pub destagger : Bool
  pub rows_step : ℕ

pub record Cloud (k : Float) : Type 0 where
  pub points : List (Point k)
  pub is_dense : Bool

module _ (k : Float) where
  -- A value-initialised point.
  unfoldable pub default_point : PointStruct → Point k
  default_point p m = elim (type_of p.declared m) [
    | none ↦ whole 0
    | some s ↦ convert k s (whole 0)
  ]

module _ (k : Float) (i : Input k) where
  unfoldable pub v_shift : ℕ → ℕ → ℕ
  v_shift u v =
      let shift = get_or i.pixel_shift_by_row u (pos 0) in
      if i.destagger then (v + i.ls.w + neg_part shift - pos_part shift) % i.ls.w else v

  unfoldable pub src_idx : ℕ → ℕ → ℕ
  unfolding v_shift
  src_idx u v = u * i.ls.w + v_shift u v

  -- The statements from `pt.x` to `pt.ring`, on the point that `CondBinaryBind` binds.
  unfoldable pub header : ℕ → ℕ → Point k → Point k
  unfolding v_shift src_idx
  header u v pt =
      let (px, py, pz) = i.row (src_idx u v) in
      let stamp = get_or i.ls.timestamp (v_shift u v) 0 in
      let ts = if ltb i.scan_ts stamp then stamp - i.scan_ts else 0 in
      let pt =
        assign k i.src z (real pz) (assign k i.src y (real py) (assign k i.src x (real px) pt)) in
      assign k i.src ring (whole (u % 2 ^ 16)) (assign k i.src t (whole (ts % 2 ^ 32)) pt)

  unfoldable pub fill : ℕ → ℕ → Point k → Point k
  unfolding src_idx header
  fill u v pt =
      copy_lidar_scan_fields_to_point k i.src 0 (make_lidar_scan_tuple i.table i.ls) (src_idx u v)
        (header u v pt)

  -- The point at `tgt_idx` and the staging point, once the pixel is copied.
  unfoldable pub place : ℕ → ℕ → ℕ → Cloud k → Point k → Cloud k × Point k
  unfolding fill default_point
  place u v tgt_idx cloud staging =
      let old = get_or cloud.points tgt_idx (default_point k i.tgt) in
      if i.same_type
      then (record cloud { points = set cloud.points tgt_idx (fill u v old) }, staging)
      else (
        record cloud {
          points = set cloud.points tgt_idx (transform k i.tgt i.src (fill u v staging) old);
        },
        fill u v staging,
      )

  -- The body of the loops.
  unfoldable pub visit : ℕ → ℕ → Cloud k × Point k → Cloud k × Point k
  unfolding src_idx place default_point
  visit u v (cloud, staging) =
      let nan = i.has_nan (i.row (src_idx u v)) in
      if i.organized
      then place u v (u / i.rows_step * i.ls.w + v)
          (record cloud { is_dense = cloud.is_dense && not nan }) staging
      else (if nan
          then (cloud, staging)
          else place u v (length cloud.points)
              (record cloud { points = cloud.points ++ default_point k i.tgt ∷ [] }) staging)

  -- `for (v = ...; v < w; ++v)`, with what is left of the columns.
  unfoldable pub columns : ℕ → ℕ → ℕ → Cloud k × Point k → Cloud k × Point k
  unfolding visit
  columns zero u v s = s
  columns (suc left) u v s = columns left u (suc v) (visit u v s)

  -- `for (u = ...; u < h; u += rows_step)`, with fuel.
  unfoldable pub rows : ℕ → ℕ → Cloud k × Point k → Cloud k × Point k
  unfolding columns
  rows zero u s = s
  rows (suc fuel) u s =
      let next = rows fuel (u + i.rows_step) (columns i.ls.w u 0 s) in
      if ltb u i.ls.h then next else s

  unfoldable pub scan_to_cloud_f : Cloud k → Point k → Cloud k × Point k
  unfolding rows
  scan_to_cloud_f cloud staging =
      rows i.ls.h 0
        (record { points = if i.organized then cloud.points else []; is_dense = true }, staging)
