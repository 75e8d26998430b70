-- ===== src/PointTypes/Common.antt =====
-- include/ouster_ros/common_point_types.h, include/ouster_ros/os_point.h and
-- include/ouster_ros/color_point.h: the target point types of the repository. What PCL_ADD_RGB declares is
-- listed with the members.
use ouster_ros.Prelude.{[], ◌∷◌}
use ouster_ros.PointTypes.{
  x, y, z, t, ring, range, reflectivity, r, g, b, a, rgb, intensity, ambient, float32, uint32,
  uint16, uint8, PointStruct,
}

unfoldable pub point_xyzi : PointStruct
point_xyzi = record {
  declared = (x, float32) ∷ (y, float32) ∷ (z, float32) ∷ (intensity, float32) ∷ [];
  copied = x ∷ y ∷ z ∷ intensity ∷ [];
  zeroed = x ∷ y ∷ z ∷ intensity ∷ [];
  as_tuple = x ∷ y ∷ z ∷ intensity ∷ [];
  registered = (x, float32) ∷ (y, float32) ∷ (z, float32) ∷ (intensity, float32) ∷ [];
}

unfoldable pub point_xyzir : PointStruct
point_xyzir = record {
  declared =
      (x, float32) ∷ (y, float32) ∷ (z, float32) ∷ (intensity, float32) ∷ (ring, uint16) ∷ [];
  copied = x ∷ y ∷ z ∷ intensity ∷ ring ∷ [];
  zeroed = x ∷ y ∷ z ∷ intensity ∷ ring ∷ [];
  as_tuple = x ∷ y ∷ z ∷ intensity ∷ ring ∷ [];
  registered =
      (x, float32) ∷ (y, float32) ∷ (z, float32) ∷ (intensity, float32) ∷ (ring, uint16) ∷ [];
}

unfoldable pub point : PointStruct
point = record {
  declared =
      (x, float32)
      ∷ (y, float32)
      ∷ (z, float32)
      ∷ (intensity, float32)
      ∷ (t, uint32)
      ∷ (reflectivity, uint16)
      ∷ (ring, uint16)
      ∷ (ambient, uint16)
      ∷ (range, uint32)
      ∷ [];
  copied = x ∷ y ∷ z ∷ intensity ∷ t ∷ reflectivity ∷ ring ∷ ambient ∷ range ∷ [];
  zeroed = x ∷ y ∷ z ∷ intensity ∷ t ∷ reflectivity ∷ ring ∷ ambient ∷ range ∷ [];
  as_tuple = x ∷ y ∷ z ∷ intensity ∷ t ∷ reflectivity ∷ ring ∷ ambient ∷ range ∷ [];
  registered =
      (x, float32)
      ∷ (y, float32)
      ∷ (z, float32)
      ∷ (intensity, float32)
      ∷ (t, uint32)
      ∷ (reflectivity, uint16)
      ∷ (ring, uint16)
      ∷ (ambient, uint16)
      ∷ (range, uint32)
      ∷ [];
}

unfoldable pub color_point : PointStruct
color_point = record {
  declared =
      (x, float32)
      ∷ (y, float32)
      ∷ (z, float32)
      ∷ (intensity, float32)
      ∷ (t, uint32)
      ∷ (reflectivity, uint8)
      ∷ (ring, uint16)
      ∷ (ambient, uint16)
      ∷ (range, uint32)
      ∷ (b, uint8)
      ∷ (g, uint8)
      ∷ (r, uint8)
      ∷ (a, uint8)
      ∷ (rgb, uint32)
      ∷ [];
  copied = x ∷ y ∷ z ∷ intensity ∷ t ∷ reflectivity ∷ ring ∷ ambient ∷ range ∷ r ∷ g ∷ b ∷ [];
  zeroed = x ∷ y ∷ z ∷ intensity ∷ t ∷ reflectivity ∷ ring ∷ ambient ∷ range ∷ rgb ∷ [];
  as_tuple = x ∷ y ∷ z ∷ intensity ∷ t ∷ reflectivity ∷ ring ∷ ambient ∷ range ∷ r ∷ g ∷ b ∷ [];
  registered =
      (x, float32)
      ∷ (y, float32)
      ∷ (z, float32)
      ∷ (intensity, float32)
      ∷ (t, uint32)
      ∷ (reflectivity, uint8)
      ∷ (ring, uint16)
      ∷ (ambient, uint16)
      ∷ (range, uint32)
      ∷ (rgb, uint32)
      ∷ [];
}
