-- ===== src/PointTypes/Extended.antt =====
-- include/ouster_ros/sensor_point_types.h: the later point types that mirror what the sensor sends, each with
-- its registration with PCL.
use ouster_ros.Prelude.{[], ◌∷◌}
use ouster_ros.PointTypes.{
  x, y, z, t, ring, range, signal, near_ir, reflectivity, flags, window, zone_mask, r, g, b,
  float32, uint32, uint16, uint8, PointStruct,
}

unfoldable pub point_rng15_rfl8_win8 : PointStruct
point_rng15_rfl8_win8 = record {
  declared =
      (x, float32)
      ∷ (y, float32)
      ∷ (z, float32)
      ∷ (t, uint32)
      ∷ (ring, uint16)
      ∷ (range, uint32)
      ∷ (reflectivity, uint8)
      ∷ (window, uint8)
      ∷ (flags, uint8)
      ∷ [];
  copied = x ∷ y ∷ z ∷ t ∷ ring ∷ range ∷ reflectivity ∷ window ∷ flags ∷ [];
  zeroed = x ∷ y ∷ z ∷ t ∷ ring ∷ range ∷ reflectivity ∷ window ∷ flags ∷ [];
  as_tuple = x ∷ y ∷ z ∷ t ∷ ring ∷ range ∷ reflectivity ∷ window ∷ flags ∷ [];
  registered =
      (x, float32)
      ∷ (y, float32)
      ∷ (z, float32)
      ∷ (t, uint32)
      ∷ (ring, uint16)
      ∷ (range, uint32)
      ∷ (reflectivity, uint8)
      ∷ (window, uint8)
      ∷ (flags, uint8)
      ∷ [];
}

unfoldable pub point_rng15_rfl8_nir8_zone16 : PointStruct
point_rng15_rfl8_nir8_zone16 = record {
  declared =
      (x, float32)
      ∷ (y, float32)
      ∷ (z, float32)
      ∷ (t, uint32)
      ∷ (ring, uint16)
      ∷ (range, uint32)
      ∷ (reflectivity, uint8)
      ∷ (near_ir, uint16)
      ∷ (zone_mask, uint16)
      ∷ [];
  copied = x ∷ y ∷ z ∷ t ∷ ring ∷ range ∷ reflectivity ∷ near_ir ∷ zone_mask ∷ [];
  zeroed = x ∷ y ∷ z ∷ t ∷ ring ∷ range ∷ reflectivity ∷ near_ir ∷ zone_mask ∷ [];
  as_tuple = x ∷ y ∷ z ∷ t ∷ ring ∷ range ∷ reflectivity ∷ near_ir ∷ zone_mask ∷ [];
  registered =
      (x, float32)
      ∷ (y, float32)
      ∷ (z, float32)
      ∷ (t, uint32)
      ∷ (ring, uint16)
      ∷ (range, uint32)
      ∷ (reflectivity, uint8)
      ∷ (near_ir, uint16)
      ∷ (zone_mask, uint16)
      ∷ [];
}

unfoldable pub point_rng19_rfl8_sig16_nir16_zone16 : PointStruct
point_rng19_rfl8_sig16_nir16_zone16 = record {
  declared =
      (x, float32)
      ∷ (y, float32)
      ∷ (z, float32)
      ∷ (t, uint32)
      ∷ (ring, uint16)
      ∷ (range, uint32)
      ∷ (signal, uint16)
      ∷ (reflectivity, uint8)
      ∷ (flags, uint8)
      ∷ (near_ir, uint16)
      ∷ (zone_mask, uint16)
      ∷ [];
  copied = x ∷ y ∷ z ∷ t ∷ ring ∷ range ∷ signal ∷ reflectivity ∷ flags ∷ near_ir ∷ zone_mask ∷ [];
  zeroed = x ∷ y ∷ z ∷ t ∷ ring ∷ range ∷ signal ∷ reflectivity ∷ flags ∷ near_ir ∷ zone_mask ∷ [];
  as_tuple =
      x ∷ y ∷ z ∷ t ∷ ring ∷ range ∷ signal ∷ reflectivity ∷ flags ∷ near_ir ∷ zone_mask ∷ [];
  registered =
      (x, float32)
      ∷ (y, float32)
      ∷ (z, float32)
      ∷ (t, uint32)
      ∷ (ring, uint16)
      ∷ (range, uint32)
      ∷ (signal, uint16)
      ∷ (reflectivity, uint8)
      ∷ (flags, uint8)
      ∷ (near_ir, uint16)
      ∷ (zone_mask, uint16)
      ∷ [];
}

unfoldable pub point_rng19_rfl8_sig16_nir16_rgb16 : PointStruct
point_rng19_rfl8_sig16_nir16_rgb16 = record {
  declared =
      (x, float32)
      ∷ (y, float32)
      ∷ (z, float32)
      ∷ (t, uint32)
      ∷ (ring, uint16)
      ∷ (range, uint32)
      ∷ (signal, uint16)
      ∷ (reflectivity, uint8)
      ∷ (near_ir, uint16)
      ∷ (flags, uint8)
      ∷ (r, uint8)
      ∷ (g, uint8)
      ∷ (b, uint8)
      ∷ [];
  copied = x ∷ y ∷ z ∷ t ∷ ring ∷ range ∷ signal ∷ reflectivity ∷ near_ir ∷ flags ∷ r ∷ g ∷ b ∷ [];
  zeroed = x ∷ y ∷ z ∷ t ∷ ring ∷ range ∷ signal ∷ reflectivity ∷ near_ir ∷ flags ∷ r ∷ g ∷ b ∷ [];
  as_tuple =
      x ∷ y ∷ z ∷ t ∷ ring ∷ range ∷ signal ∷ reflectivity ∷ near_ir ∷ flags ∷ r ∷ g ∷ b ∷ [];
  registered =
      (x, float32)
      ∷ (y, float32)
      ∷ (z, float32)
      ∷ (t, uint32)
      ∷ (ring, uint16)
      ∷ (range, uint32)
      ∷ (signal, uint16)
      ∷ (reflectivity, uint8)
      ∷ (near_ir, uint16)
      ∷ (flags, uint8)
      ∷ (r, uint8)
      ∷ (g, uint8)
      ∷ (b, uint8)
      ∷ [];
}

unfoldable pub point_rng19_rfl8_sig16_nir16_rgb16_dual : PointStruct
point_rng19_rfl8_sig16_nir16_rgb16_dual = record {
  declared =
      (x, float32)
      ∷ (y, float32)
      ∷ (z, float32)
      ∷ (t, uint32)
      ∷ (ring, uint16)
      ∷ (range, uint32)
      ∷ (signal, uint16)
      ∷ (reflectivity, uint8)
      ∷ (near_ir, uint16)
      ∷ (flags, uint8)
      ∷ (r, uint8)
      ∷ (g, uint8)
      ∷ (b, uint8)
      ∷ [];
  copied = x ∷ y ∷ z ∷ t ∷ ring ∷ range ∷ signal ∷ reflectivity ∷ near_ir ∷ flags ∷ r ∷ g ∷ b ∷ [];
  zeroed = x ∷ y ∷ z ∷ t ∷ ring ∷ range ∷ signal ∷ reflectivity ∷ near_ir ∷ flags ∷ r ∷ g ∷ b ∷ [];
  as_tuple =
      x ∷ y ∷ z ∷ t ∷ ring ∷ range ∷ signal ∷ reflectivity ∷ near_ir ∷ flags ∷ r ∷ g ∷ b ∷ [];
  registered =
      (x, float32)
      ∷ (y, float32)
      ∷ (z, float32)
      ∷ (t, uint32)
      ∷ (ring, uint16)
      ∷ (range, uint32)
      ∷ (signal, uint16)
      ∷ (reflectivity, uint8)
      ∷ (near_ir, uint16)
      ∷ (flags, uint8)
      ∷ (r, uint8)
      ∷ (g, uint8)
      ∷ (b, uint8)
      ∷ [];
}
