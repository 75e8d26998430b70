-- ===== src/PointCloud/Point.antt =====
-- Points as values of their members, and src/point_cloud_compose.h: the copy of the fields of a scan into a point.
pub mod Copy
use ouster_ros.Prelude.{
  ℕ, ◌+◌, ◌%◌, ◌^◌, suc, Option, none, some, List, [], ◌∷◌, get_elem?, get_or, map, if◌then◌else◌,
}
use ouster_ros.Float.{Float}
use ouster_ros.PointTypes.{
  Member, Scalar, float32, uint64, uint32, uint16, uint8, ChanField, ChanFieldTable, PointStruct,
}
use ouster_ros.PointTypes.Layout.{same, type_of}

-- What the code reads of the SDK's scan; a field is listed row by row.
pub record LidarScan : Type 0 where
  pub h : ℕ
  pub w : ℕ
  pub timestamp : List ℕ
  pub field : ChanField → List ℕ

-- `map_lidar_scan_fields_to_tuple`
unfoldable pub make_lidar_scan_tuple : ChanFieldTable → LidarScan → List (List ℕ)
make_lidar_scan_tuple [] ls = []
make_lidar_scan_tuple ((c, s) ∷ table) ls = ls.field c ∷ make_lidar_scan_tuple table ls

module _ (k : Float) where
  pub data Value : Type 0 where
    whole : ℕ → Value
    real : k.F → Value

  -- A member that the structure does not have keeps whatever it has.
  abbrev pub Point : Type 0
  Point = Member → Value

  -- The implicit conversion on assignment to a member.
  unfoldable pub convert : Scalar → Value → Value
  convert float32 (whole n) = real (k.of_ℕ n)
  convert float32 (real x) = real x
  convert uint64 (whole n) = whole (n % 2 ^ 64)
  convert uint64 (real x) = whole (k.to_ℕ x % 2 ^ 64)
  convert uint32 (whole n) = whole (n % 2 ^ 32)
  convert uint32 (real x) = whole (k.to_ℕ x % 2 ^ 32)
  convert uint16 (whole n) = whole (n % 2 ^ 16)
  convert uint16 (real x) = whole (k.to_ℕ x % 2 ^ 16)
  convert uint8 (whole n) = whole (n % 2 ^ 8)
  convert uint8 (real x) = whole (k.to_ℕ x % 2 ^ 8)

  unfoldable pub assign : PointStruct → Member → Value → Point → Point
  assign p m v pt n =
      if same m n then elim (type_of p.declared m) [ none ↦ pt n | some s ↦ convert s v ] else pt n

  -- `point::get<I>(pt) = v`
  unfoldable pub put : PointStruct → Option Member → Value → Point → Point
  put p none v pt = pt
  put p (some m) v pt = assign p m v pt

  unfoldable pub copy_lidar_scan_fields_to_point :
      PointStruct → ℕ → List (List ℕ) → ℕ → Point → Point
  copy_lidar_scan_fields_to_point p index [] idx pt = pt
  copy_lidar_scan_fields_to_point p index (column ∷ tp) idx pt =
      copy_lidar_scan_fields_to_point p (suc index) tp idx
        (put p (get_elem? p.as_tuple (5 + index)) (whole (get_or column idx 0)) pt)
