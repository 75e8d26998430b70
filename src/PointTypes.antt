-- ===== src/PointTypes.antt =====
-- src/include/ouster_ros/sensor_point_types.h, common_point_types.h, os_point.h, color_point.h: the point types as
-- lists of members, and the tables of scan fields that fill them.
pub mod Native
pub mod Extended
pub mod Profiles
pub mod Common
pub mod Layout
use ouster_ros.Prelude.{ℕ, List}

pub data Member : Type 0 where
  x y z t ring range signal near_ir reflectivity flags window zone_mask r g b a rgb intensity
        ambient :
      Member

-- The C++ types of the members and, but for `float`, of the fields of a scan.
pub data Scalar : Type 0 where
  float32 uint64 uint32 uint16 uint8 : Scalar

-- Strings in the SDK, here the ones that the tables name.
pub data ChanField : Type 0 where
  chan_range chan_range2 chan_signal chan_signal2 chan_reflectivity chan_reflectivity2 chan_near_ir
        chan_flags chan_flags2 chan_window chan_zone_mask chan_r_u8 chan_g_u8 chan_b_u8 :
      ChanField

abbrev pub ChanFieldTable : Type 0
ChanFieldTable = List (ChanField × Scalar)

-- A point structure: its declared members, those that its copy constructor copies and its default
-- constructor zeroes, `as_tuple()`, and its registration with PCL.
pub record PointStruct : Type 0 where
  pub declared : List (Member × Scalar)
  pub copied : List Member
  pub zeroed : List Member
  pub as_tuple : List Member
  pub registered : List (Member × Scalar)
