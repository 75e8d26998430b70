-- ===== src/PointCloud/Tests.antt =====
-- Runs of the point cloud path on a scan of two rows and two columns, and its theorems there.
use ouster_ros.Prelude.{
  ◌*◌, ◌+◌, ℕ, ◌≡◌, refl, true, false, List, [], ◌∷◌, length, get_or, map, ◌==◌, arith,
}
use ouster_ros.Prelude.Int.{pos}
use ouster_ros.Float.Whole.{whole}
use ouster_ros.PointTypes.{range, signal, intensity, ChanField, chan_range, chan_signal}
use ouster_ros.PointTypes.Native.{point_legacy}
use ouster_ros.PointTypes.Profiles.{profile_legacy}
use ouster_ros.PointTypes.Common
use ouster_ros.PointCloud.Factory.{
  legacy, struct, original, make_point_cloud_processor, rng19_rfl8_sig16_nir16_dual,
  make_scan_to_cloud_fn, native, create_point_cloud_processor,
}
use ouster_ros.PointCloud.Factory.Tables.{Chosen, create_native_lem}
use ouster_ros.PointCloud.Point.{
  LidarScan, Value, Point, convert, assign, put, make_lidar_scan_tuple,
  copy_lidar_scan_fields_to_point,
}
use ouster_ros.PointCloud.Point
use ouster_ros.PointCloud.Point.Copy.{copied_member, copy_lidar_scan_fields_to_point_lem}
use ouster_ros.PointCloud.Transform.{transform, run, carry, assign_rgb, has_rgb}
use ouster_ros.PointCloud.Transform.Pointwise.{transformed, color, origin, held}
use ouster_ros.PointCloud.Compose.{
  Input, Cloud, default_point, v_shift, src_idx, header, fill, place, visit, columns, rows,
  scan_to_cloud_f,
}
use ouster_ros.PointCloud.Compose.Dense.{
  produced, pixel, row_pixels, pixels, scan_to_cloud_f-unorganized,
}
use ouster_ros.PointCloud.Compose.Organized.{all_valid, scan_to_cloud_f-organized}
use ouster_ros.PointCloud.Compose.Staging.{Agree}
use ouster_ros.PointCloud.Compose.Targets.{scan_to_cloud_f-Agree}
use ouster_ros.PointCloud.Processor.{create_point_cloud_processor-scan_to_cloud_f}

create_native_lem_example :
    Chosen rng19_rfl8_sig16_nir16_dual
      (create_point_cloud_processor native rng19_rfl8_sig16_nir16_dual)
create_native_lem_example = create_native_lem rng19_rfl8_sig16_nir16_dual

cloud_code : Unit {0}
unfolding point_legacy profile_legacy Common.point make_lidar_scan_tuple
    copy_lidar_scan_fields_to_point put assign convert copied_member transform run carry assign_rgb
    has_rgb transformed color origin held default_point v_shift src_idx header fill place visit
    columns rows scan_to_cloud_f produced pixel row_pixels pixels
cloud_code = tt

abbrev fields : ChanField → List ℕ
fields chan_range = 10 ∷ 11 ∷ 12 ∷ 13 ∷ []
fields chan_signal = 20 ∷ 21 ∷ 22 ∷ 65536 ∷ []
fields c = 1 ∷ 2 ∷ 3 ∷ 4 ∷ []

abbrev scan : LidarScan
scan = record { h = 2; w = 2; timestamp = 100 ∷ 90 ∷ []; field = fields }

abbrev zeros : Point whole
zeros m = Point.whole 0

copy_lidar_scan_fields_to_point_lem_example :
    copy_lidar_scan_fields_to_point whole point_legacy 0
      (make_lidar_scan_tuple profile_legacy scan)
      3
      zeros
      signal
    ≡ copied_member whole point_legacy scan 3 profile_legacy zeros signal
unfolding cloud_code
copy_lidar_scan_fields_to_point_lem_example =
    copy_lidar_scan_fields_to_point_lem whole point_legacy profile_legacy scan 3 zeros signal refl

-- The signal that does not fit in 16 bits wraps around.
wraps :
    copy_lidar_scan_fields_to_point whole point_legacy 0
      (make_lidar_scan_tuple profile_legacy scan)
      3
      zeros
      signal
    ≡ Point.whole 0
unfolding cloud_code
wraps = refl

abbrev seven : Point whole
seven m = Point.whole 7

carried_intensity : transform whole Common.point point_legacy seven zeros intensity ≡ Point.real 7
unfolding cloud_code
carried_intensity = refl

-- The pixel (0, 1) has no coordinates.
abbrev input : Input whole
unfolding point_legacy profile_legacy Common.point
input = record {
  tgt = Common.point;
  src = point_legacy;
  same_type = false;
  table = profile_legacy;
  row = λ n. (n, n, n);
  has_nan = λ p. p.0 == 1;
  scan_ts = 90;
  ls = scan;
  pixel_shift_by_row = pos 0 ∷ pos 1 ∷ [];
  organized = false;
  destagger = true;
  rows_step = 1;
}

abbrev empty_cloud : Cloud whole
empty_cloud = record { points = []; is_dense = false }

scan_to_cloud_f-unorganized_example :
    ((scan_to_cloud_f whole input empty_cloud seven).0.points
      ≡ map (produced whole input) (pixels whole input 2 0))
    × ((scan_to_cloud_f whole input empty_cloud seven).0.is_dense ≡ true)
unfolding cloud_code
scan_to_cloud_f-unorganized_example =
    scan_to_cloud_f-unorganized whole input 2 empty_cloud seven refl refl refl (omega arith)
      (omega arith) (omega arith)

visited : pixels whole input 2 0 ≡ (0, 0) ∷ (1, 0) ∷ (1, 1) ∷ []
unfolding cloud_code
visited = refl

abbrev range_at : Point whole → Value whole
range_at p = p range

composed :
    map range_at (scan_to_cloud_f whole input empty_cloud seven).0.points
    ≡ Point.whole 10 ∷ Point.whole 13 ∷ Point.whole 12 ∷ []
unfolding cloud_code
composed = refl

create_point_cloud_processor-scan_to_cloud_f_example :
    ((scan_to_cloud_f whole input empty_cloud seven).0.points
      ≡ map (produced whole input) (pixels whole input 2 0))
    × ((scan_to_cloud_f whole input empty_cloud seven).0.is_dense ≡ true)
unfolding cloud_code make_scan_to_cloud_fn make_point_cloud_processor create_point_cloud_processor
create_point_cloud_processor-scan_to_cloud_f_example =
    create_point_cloud_processor-scan_to_cloud_f whole original legacy (struct Common.point)
      (λ r. (point_legacy, profile_legacy)) 0 input 2 empty_cloud seven refl refl refl refl
      (omega arith) (omega arith) (omega arith)

abbrev grid : Input whole
grid = record input { organized = true }

abbrev four : Cloud whole
four = record { points = zeros ∷ zeros ∷ zeros ∷ zeros ∷ []; is_dense = true }

scan_to_cloud_f-organized_example :
    (length (scan_to_cloud_f whole grid four seven).0.points ≡ 4)
    × ((scan_to_cloud_f whole grid four seven).0.is_dense ≡ all_valid whole grid 2 0)
unfolding cloud_code
scan_to_cloud_f-organized_example =
    scan_to_cloud_f-organized whole grid 2 four seven refl (omega arith) (omega arith) (omega arith)

not_dense : (scan_to_cloud_f whole grid four seven).0.is_dense ≡ false
unfolding cloud_code
not_dense = refl

abbrev native_grid : Input whole
unfolding point_legacy
native_grid = record grid { tgt = point_legacy; same_type = true }

scan_to_cloud_f-Agree_example :
    Agree whole point_legacy
      (get_or (scan_to_cloud_f whole native_grid four seven).0.points (1 * 2 + 1) zeros)
      (fill whole native_grid (1 * 1) 1 (default_point whole point_legacy))
unfolding cloud_code
scan_to_cloud_f-Agree_example =
    scan_to_cloud_f-Agree whole native_grid 2 1 1 four seven zeros refl refl refl refl (omega arith)
      (omega arith) (omega arith) (omega arith) (omega arith) (omega arith)
