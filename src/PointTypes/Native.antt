-- ===== src/PointTypes/Native.antt =====
-- include/ouster_ros/sensor_point_types.h: the point types that mirror what the sensor sends, each with
-- its registration with PCL.
use ouster_ros.Prelude.{[], ◌∷◌}
use ouster_ros.PointTypes.{
  x, y, z, t, ring, range, signal, near_ir, reflectivity, flags, window, float32, uint32, uint16,
  uint8, PointStruct,
}

unfoldable pub point_legacy : PointStruct
point_legacy = record {
  declared =
      (x, float32)
      ∷ (y, float32)
      ∷ (z, float32)
      ∷ (t, uint32)
      ∷ (ring, uint16)
      ∷ (range, uint32)
      ∷ (signal, uint16)
      ∷ (near_ir, uint16)
      ∷ (reflectivity, uint8)
      ∷ (flags, uint8)
      ∷ [];
  copied = x ∷ y ∷ z ∷ t ∷ ring ∷ range ∷ signal ∷ near_ir ∷ reflectivity ∷ flags ∷ [];
  zeroed = x ∷ y ∷ z ∷ t ∷ ring ∷ range ∷ signal ∷ near_ir ∷ reflectivity ∷ flags ∷ [];
  as_tuple = x ∷ y ∷ z ∷ t ∷ ring ∷ range ∷ signal ∷ near_ir ∷ reflectivity ∷ flags ∷ [];
  registered =
      (x, float32)
      ∷ (y, float32)
      ∷ (z, float32)
      ∷ (t, uint32)
      ∷ (ring, uint16)
      ∷ (range, uint32)
      ∷ (signal, uint16)
      ∷ (near_ir, uint16)
      ∷ (reflectivity, uint8)
      ∷ (flags, uint8)
      ∷ [];
}

unfoldable pub point_rng19_rfl8_sig16_nir16_dual : PointStruct
point_rng19_rfl8_sig16_nir16_dual = record {
  declared =
      (x, float32)
      ∷ (y, float32)
      ∷ (z, float32)
      ∷ (t, uint32)
      ∷ (ring, uint16)
      ∷ (range, uint32)
      ∷ (signal, uint16)
      ∷ (reflectivity, uint8)
      ∷ (near_ir, uint16)
      ∷ (flags, uint8)
      ∷ (window, uint8)
      ∷ [];
  copied = x ∷ y ∷ z ∷ t ∷ ring ∷ range ∷ signal ∷ reflectivity ∷ near_ir ∷ flags ∷ window ∷ [];
  zeroed = x ∷ y ∷ z ∷ t ∷ ring ∷ range ∷ signal ∷ reflectivity ∷ near_ir ∷ flags ∷ window ∷ [];
  as_tuple = x ∷ y ∷ z ∷ t ∷ ring ∷ range ∷ signal ∷ reflectivity ∷ near_ir ∷ flags ∷ window ∷ [];
  registered =
      (x, float32)
      ∷ (y, float32)
      ∷ (z, float32)
      ∷ (t, uint32)
      ∷ (ring, uint16)
      ∷ (range, uint32)
      ∷ (signal, uint16)
      ∷ (reflectivity, uint8)
      ∷ (near_ir, uint16)
      ∷ (flags, uint8)
      ∷ (window, uint8)
      ∷ [];
}

unfoldable pub point_rng19_rfl8_sig16_nir16 : PointStruct
point_rng19_rfl8_sig16_nir16 = record {
  declared =
      (x, float32)
      ∷ (y, float32)
      ∷ (z, float32)
      ∷ (t, uint32)
      ∷ (ring, uint16)
      ∷ (range, uint32)
      ∷ (signal, uint16)
      ∷ (reflectivity, uint8)
      ∷ (flags, uint8)
      ∷ (near_ir, uint16)
      ∷ (window, uint8)
      ∷ [];
  copied = x ∷ y ∷ z ∷ t ∷ ring ∷ range ∷ signal ∷ reflectivity ∷ near_ir ∷ flags ∷ window ∷ [];
  zeroed = x ∷ y ∷ z ∷ t ∷ ring ∷ range ∷ signal ∷ reflectivity ∷ near_ir ∷ flags ∷ window ∷ [];
  as_tuple = x ∷ y ∷ z ∷ t ∷ ring ∷ range ∷ signal ∷ reflectivity ∷ flags ∷ near_ir ∷ window ∷ [];
  registered =
      (x, float32)
      ∷ (y, float32)
      ∷ (z, float32)
      ∷ (t, uint32)
      ∷ (ring, uint16)
      ∷ (range, uint32)
      ∷ (signal, uint16)
      ∷ (reflectivity, uint8)
      ∷ (flags, uint8)
      ∷ (near_ir, uint16)
      ∷ (window, uint8)
      ∷ [];
}

unfoldable pub point_rng15_rfl8_nir8 : PointStruct
point_rng15_rfl8_nir8 = record {
  declared =
      (x, float32)
      ∷ (y, float32)
      ∷ (z, float32)
      ∷ (t, uint32)
      ∷ (ring, uint16)
      ∷ (range, uint32)
      ∷ (reflectivity, uint8)
      ∷ (near_ir, uint16)
      ∷ (flags, uint8)
      ∷ [];
  copied = x ∷ y ∷ z ∷ t ∷ ring ∷ range ∷ reflectivity ∷ near_ir ∷ flags ∷ [];
  zeroed = x ∷ y ∷ z ∷ t ∷ ring ∷ range ∷ reflectivity ∷ near_ir ∷ flags ∷ [];
  as_tuple = x ∷ y ∷ z ∷ t ∷ ring ∷ range ∷ reflectivity ∷ near_ir ∷ flags ∷ [];
  registered =
      (x, float32)
      ∷ (y, float32)
      ∷ (z, float32)
      ∷ (t, uint32)
      ∷ (ring, uint16)
      ∷ (range, uint32)
      ∷ (reflectivity, uint8)
      ∷ (near_ir, uint16)
      ∷ (flags, uint8)
      ∷ [];
}

unfoldable pub point_rng15_rfl8_nir8_dual : PointStruct
point_rng15_rfl8_nir8_dual = record {
  declared =
      (x, float32)
      ∷ (y, float32)
      ∷ (z, float32)
      ∷ (t, uint32)
      ∷ (ring, uint16)
      ∷ (range, uint32)
      ∷ (reflectivity, uint8)
      ∷ (near_ir, uint16)
      ∷ (flags, uint8)
      ∷ (window, uint8)
      ∷ [];
  copied = x ∷ y ∷ z ∷ t ∷ ring ∷ range ∷ reflectivity ∷ near_ir ∷ flags ∷ window ∷ [];
  zeroed = x ∷ y ∷ z ∷ t ∷ ring ∷ range ∷ reflectivity ∷ near_ir ∷ flags ∷ window ∷ [];
  as_tuple = x ∷ y ∷ z ∷ t ∷ ring ∷ range ∷ reflectivity ∷ near_ir ∷ flags ∷ window ∷ [];
  registered =
      (x, float32)
      ∷ (y, float32)
      ∷ (z, float32)
      ∷ (t, uint32)
      ∷ (ring, uint16)
      ∷ (range, uint32)
      ∷ (reflectivity, uint8)
      ∷ (near_ir, uint16)
      ∷ (flags, uint8)
      ∷ (window, uint8)
      ∷ [];
}
