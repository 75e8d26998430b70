-- ===== src/PointCloud/Factory.antt =====
-- src/point_cloud_processor_factory.h: the staging point type and the table of scan fields for each lidar profile, and
-- the target point type for each `point_type` text.
pub mod Tables
use ouster_ros.Prelude.{ℕ, Bool, true, false, ◌||◌, ◌==◌, if◌then◌else◌}
use ouster_ros.PointTypes.{ChanFieldTable, PointStruct}
use ouster_ros.PointTypes.Native.{
  point_legacy, point_rng19_rfl8_sig16_nir16_dual, point_rng19_rfl8_sig16_nir16,
  point_rng15_rfl8_nir8, point_rng15_rfl8_nir8_dual,
}
use ouster_ros.PointTypes.Extended.{
  point_rng15_rfl8_win8, point_rng15_rfl8_nir8_zone16, point_rng19_rfl8_sig16_nir16_zone16,
  point_rng19_rfl8_sig16_nir16_rgb16, point_rng19_rfl8_sig16_nir16_rgb16_dual,
}
use ouster_ros.PointTypes.Profiles.{
  profile_legacy, profile_rng19_rfl8_sig16_nir16_dual,
  profile_rng19_rfl8_sig16_nir16_dual_2nd_return, profile_rng19_rfl8_sig16_nir16,
  profile_rng15_rfl8_nir8, profile_rng15_rfl8_nir8_dual, profile_rng15_rfl8_nir8_dual_2nd_return,
  profile_rng15_rfl8_win8, profile_rng15_rfl8_nir8_zone16, profile_rng19_rfl8_sig16_nir16_zone16,
  profile_rng19_rfl8_sig16_nir16_rgb16, profile_rng19_rfl8_sig16_nir16_rgb16_dual,
  profile_rng19_rfl8_sig16_nir16_rgb16_dual_2nd_return,
}
use ouster_ros.PointTypes.Common

-- The SDK's enumeration: the profiles that the repository names, and any other.
pub data UdpProfileLidar : Type 0 where
  legacy : UdpProfileLidar
  rng19_rfl8_sig16_nir16_dual : UdpProfileLidar
  rng19_rfl8_sig16_nir16 : UdpProfileLidar
  rng15_rfl8_nir8 : UdpProfileLidar
  fusa_rng15_rfl8_nir8_dual : UdpProfileLidar
  rng15_rfl8_nir8_dual : UdpProfileLidar
  rng15_rfl8_win8 : UdpProfileLidar
  rng15_rfl8_nir8_zone16 : UdpProfileLidar
  rng19_rfl8_sig16_nir16_zone16 : UdpProfileLidar
  rng19_rfl8_sig16_nir16_rgb16 : UdpProfileLidar
  rng19_rfl8_sig16_nir16_rgb16_dual : UdpProfileLidar
  other_profile : ℕ → UdpProfileLidar

pub data Exception : Type 0 where
  unsupported_udp_profile_lidar unsupported_point_type : Exception

pub data Outcome {ℓ} (A : Type ℓ) : Type ℓ where
  ok : A → Outcome A
  throw : Exception → Outcome A

-- What a scan-to-cloud function stages points in and copies, by the index of the return.
abbrev pub Source : Type 0
Source = ℕ → PointStruct × ChanFieldTable

abbrev one_return : PointStruct → ChanFieldTable → Source
one_return p table i = (p, table)

abbrev two_returns : PointStruct → ChanFieldTable → ChanFieldTable → Source
two_returns p table table_2nd return_index = (p, if return_index == 0 then table else table_2nd)

unfoldable pub make_scan_to_cloud_fn : UdpProfileLidar → Outcome Source
make_scan_to_cloud_fn legacy = ok (one_return point_legacy profile_legacy)
make_scan_to_cloud_fn rng19_rfl8_sig16_nir16_dual = ok (
    two_returns point_rng19_rfl8_sig16_nir16_dual profile_rng19_rfl8_sig16_nir16_dual
      profile_rng19_rfl8_sig16_nir16_dual_2nd_return)
make_scan_to_cloud_fn rng19_rfl8_sig16_nir16 =
    ok (one_return point_rng19_rfl8_sig16_nir16 profile_rng19_rfl8_sig16_nir16)
make_scan_to_cloud_fn rng15_rfl8_nir8 =
    ok (one_return point_rng15_rfl8_nir8 profile_rng15_rfl8_nir8)
make_scan_to_cloud_fn fusa_rng15_rfl8_nir8_dual = ok (
    two_returns point_rng15_rfl8_nir8_dual profile_rng15_rfl8_nir8_dual
      profile_rng15_rfl8_nir8_dual_2nd_return)
make_scan_to_cloud_fn rng15_rfl8_nir8_dual = ok (
    two_returns point_rng15_rfl8_nir8_dual profile_rng15_rfl8_nir8_dual
      profile_rng15_rfl8_nir8_dual_2nd_return)
make_scan_to_cloud_fn rng15_rfl8_win8 =
    ok (one_return point_rng15_rfl8_win8 profile_rng15_rfl8_win8)
make_scan_to_cloud_fn rng15_rfl8_nir8_zone16 =
    ok (one_return point_rng15_rfl8_nir8_zone16 profile_rng15_rfl8_nir8_zone16)
make_scan_to_cloud_fn rng19_rfl8_sig16_nir16_zone16 =
    ok (one_return point_rng19_rfl8_sig16_nir16_zone16 profile_rng19_rfl8_sig16_nir16_zone16)
make_scan_to_cloud_fn rng19_rfl8_sig16_nir16_rgb16 =
    ok (one_return point_rng19_rfl8_sig16_nir16_rgb16 profile_rng19_rfl8_sig16_nir16_rgb16)
make_scan_to_cloud_fn rng19_rfl8_sig16_nir16_rgb16_dual = ok (
    two_returns point_rng19_rfl8_sig16_nir16_rgb16_dual profile_rng19_rfl8_sig16_nir16_rgb16_dual
      profile_rng19_rfl8_sig16_nir16_rgb16_dual_2nd_return)
make_scan_to_cloud_fn (other_profile n) = throw unsupported_udp_profile_lidar

-- The texts that `point_type` is compared with, and any other.
pub data PointType : Type 0 where
  native xyz xyzi o_xyzi xyzir xyzrgb xyzrgba original color_point : PointType
  other_text : ℕ → PointType

unfoldable pub point_type_requires_intensity : PointType → Bool
point_type_requires_intensity xyzi = true
point_type_requires_intensity xyzir = true
point_type_requires_intensity original = true
point_type_requires_intensity o_xyzi = true
point_type_requires_intensity color_point = true
point_type_requires_intensity _ = false

unfoldable pub profile_has_intensity : UdpProfileLidar → Bool
profile_has_intensity legacy = true
profile_has_intensity rng19_rfl8_sig16_nir16_dual = true
profile_has_intensity rng19_rfl8_sig16_nir16 = true
profile_has_intensity rng19_rfl8_sig16_nir16_zone16 = true
profile_has_intensity rng19_rfl8_sig16_nir16_rgb16 = true
profile_has_intensity rng19_rfl8_sig16_nir16_rgb16_dual = true
profile_has_intensity _ = false

-- The template argument `PointT`: a structure of the repository, or one of PCL's.
pub data Target : Type 0 where
  struct : PointStruct → Target
  pcl_point_xyz pcl_point_xyzi pcl_point_xyzrgb pcl_point_xyzrgba : Target

unfoldable pub make_point_cloud_processor : Target → UdpProfileLidar → Outcome (Target × Source)
make_point_cloud_processor tgt profile = elim (make_scan_to_cloud_fn profile) [
  | ok source ↦ ok (tgt, source)
  | throw e ↦ throw e
]

unfoldable pub create_native : UdpProfileLidar → Outcome (Target × Source)
create_native legacy = make_point_cloud_processor (struct point_legacy) legacy
create_native rng19_rfl8_sig16_nir16_dual =
    make_point_cloud_processor (struct point_rng19_rfl8_sig16_nir16_dual)
      rng19_rfl8_sig16_nir16_dual
create_native rng19_rfl8_sig16_nir16 =
    make_point_cloud_processor (struct point_rng19_rfl8_sig16_nir16) rng19_rfl8_sig16_nir16
create_native rng15_rfl8_nir8 =
    make_point_cloud_processor (struct point_rng15_rfl8_nir8) rng15_rfl8_nir8
create_native fusa_rng15_rfl8_nir8_dual =
    make_point_cloud_processor (struct point_rng15_rfl8_nir8_dual) fusa_rng15_rfl8_nir8_dual
create_native rng15_rfl8_nir8_dual =
    make_point_cloud_processor (struct point_rng15_rfl8_nir8_dual) rng15_rfl8_nir8_dual
create_native rng15_rfl8_win8 =
    make_point_cloud_processor (struct point_rng15_rfl8_win8) rng15_rfl8_win8
create_native rng15_rfl8_nir8_zone16 =
    make_point_cloud_processor (struct point_rng15_rfl8_nir8_zone16) rng15_rfl8_nir8_zone16
create_native rng19_rfl8_sig16_nir16_zone16 =
    make_point_cloud_processor (struct point_rng19_rfl8_sig16_nir16_zone16)
      rng19_rfl8_sig16_nir16_zone16
create_native rng19_rfl8_sig16_nir16_rgb16 =
    make_point_cloud_processor (struct point_rng19_rfl8_sig16_nir16_rgb16)
      rng19_rfl8_sig16_nir16_rgb16
create_native rng19_rfl8_sig16_nir16_rgb16_dual =
    make_point_cloud_processor (struct point_rng19_rfl8_sig16_nir16_rgb16_dual)
      rng19_rfl8_sig16_nir16_rgb16_dual
create_native (other_profile n) = throw unsupported_udp_profile_lidar

unfoldable pub create_point_cloud_processor :
    PointType → UdpProfileLidar → Outcome (Target × Source)
create_point_cloud_processor native profile = create_native profile
create_point_cloud_processor xyz profile = make_point_cloud_processor pcl_point_xyz profile
create_point_cloud_processor xyzi profile = make_point_cloud_processor pcl_point_xyzi profile
create_point_cloud_processor o_xyzi profile =
    make_point_cloud_processor (struct Common.point_xyzi) profile
create_point_cloud_processor xyzir profile =
    make_point_cloud_processor (struct Common.point_xyzir) profile
create_point_cloud_processor xyzrgb profile = make_point_cloud_processor pcl_point_xyzrgb profile
create_point_cloud_processor xyzrgba profile = make_point_cloud_processor pcl_point_xyzrgba profile
create_point_cloud_processor original profile =
    make_point_cloud_processor (struct Common.point) profile
create_point_cloud_processor color_point profile =
    make_point_cloud_processor (struct Common.color_point) profile
create_point_cloud_processor (other_text n) profile = throw unsupported_point_type
