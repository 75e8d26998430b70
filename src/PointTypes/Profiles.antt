-- ===== src/PointTypes/Profiles.antt =====
-- include/ouster_ros/sensor_point_types.h: the fields of a scan that each lidar profile carries, in the
-- order in which they are copied, one table for each return.
use ouster_ros.Prelude.{[], ◌∷◌}
use ouster_ros.PointTypes.{
  uint32, uint16, uint8, chan_range, chan_range2, chan_signal, chan_signal2, chan_reflectivity,
  chan_reflectivity2, chan_near_ir, chan_flags, chan_flags2, chan_window, chan_zone_mask, chan_r_u8,
  chan_g_u8, chan_b_u8, ChanFieldTable,
}

unfoldable pub profile_legacy : ChanFieldTable
profile_legacy =
    (chan_range, uint32)
    ∷ (chan_signal, uint16)
    ∷ (chan_near_ir, uint16)
    ∷ (chan_reflectivity, uint8)
    ∷ (chan_flags, uint8)
    ∷ []

unfoldable pub profile_rng19_rfl8_sig16_nir16_dual : ChanFieldTable
profile_rng19_rfl8_sig16_nir16_dual =
    (chan_range, uint32)
    ∷ (chan_signal, uint16)
    ∷ (chan_reflectivity, uint8)
    ∷ (chan_near_ir, uint16)
    ∷ (chan_flags, uint8)
    ∷ (chan_window, uint8)
    ∷ []

unfoldable pub profile_rng19_rfl8_sig16_nir16_dual_2nd_return : ChanFieldTable
profile_rng19_rfl8_sig16_nir16_dual_2nd_return =
    (chan_range2, uint32)
    ∷ (chan_signal2, uint16)
    ∷ (chan_reflectivity2, uint8)
    ∷ (chan_near_ir, uint16)
    ∷ (chan_flags2, uint8)
    ∷ (chan_window, uint8)
    ∷ []

unfoldable pub profile_rng19_rfl8_sig16_nir16 : ChanFieldTable
profile_rng19_rfl8_sig16_nir16 =
    (chan_range, uint32)
    ∷ (chan_signal, uint16)
    ∷ (chan_reflectivity, uint8)
    ∷ (chan_flags, uint8)
    ∷ (chan_near_ir, uint16)
    ∷ (chan_window, uint8)
    ∷ []

unfoldable pub profile_rng15_rfl8_nir8 : ChanFieldTable
profile_rng15_rfl8_nir8 =
    (chan_range, uint32)
    ∷ (chan_reflectivity, uint8)
    ∷ (chan_near_ir, uint16)
    ∷ (chan_flags, uint8)
    ∷ []

unfoldable pub profile_rng15_rfl8_nir8_dual : ChanFieldTable
profile_rng15_rfl8_nir8_dual =
    (chan_range, uint32)
    ∷ (chan_reflectivity, uint8)
    ∷ (chan_near_ir, uint16)
    ∷ (chan_flags, uint8)
    ∷ (chan_window, uint8)
    ∷ []

unfoldable pub profile_rng15_rfl8_nir8_dual_2nd_return : ChanFieldTable
profile_rng15_rfl8_nir8_dual_2nd_return =
    (chan_range2, uint32)
    ∷ (chan_reflectivity2, uint8)
    ∷ (chan_near_ir, uint16)
    ∷ (chan_flags2, uint8)
    ∷ (chan_window, uint8)
    ∷ []

unfoldable pub profile_rng15_rfl8_win8 : ChanFieldTable
profile_rng15_rfl8_win8 =
    (chan_range, uint32)
    ∷ (chan_reflectivity, uint8)
    ∷ (chan_window, uint8)
    ∷ (chan_flags, uint8)
    ∷ []

unfoldable pub profile_rng15_rfl8_nir8_zone16 : ChanFieldTable
profile_rng15_rfl8_nir8_zone16 =
    (chan_range, uint32)
    ∷ (chan_reflectivity, uint8)
    ∷ (chan_near_ir, uint16)
    ∷ (chan_zone_mask, uint16)
    ∷ []

unfoldable pub profile_rng19_rfl8_sig16_nir16_zone16 : ChanFieldTable
profile_rng19_rfl8_sig16_nir16_zone16 =
    (chan_range, uint32)
    ∷ (chan_signal, uint16)
    ∷ (chan_reflectivity, uint8)
    ∷ (chan_flags, uint8)
    ∷ (chan_near_ir, uint16)
    ∷ (chan_zone_mask, uint16)
    ∷ []

unfoldable pub profile_rng19_rfl8_sig16_nir16_rgb16 : ChanFieldTable
profile_rng19_rfl8_sig16_nir16_rgb16 =
    (chan_range, uint32)
    ∷ (chan_signal, uint16)
    ∷ (chan_reflectivity, uint8)
    ∷ (chan_near_ir, uint16)
    ∷ (chan_flags, uint8)
    ∷ (chan_r_u8, uint8)
    ∷ (chan_g_u8, uint8)
    ∷ (chan_b_u8, uint8)
    ∷ []

unfoldable pub profile_rng19_rfl8_sig16_nir16_rgb16_dual : ChanFieldTable
profile_rng19_rfl8_sig16_nir16_rgb16_dual =
    (chan_range, uint32)
    ∷ (chan_signal, uint16)
    ∷ (chan_reflectivity, uint8)
    ∷ (chan_near_ir, uint16)
    ∷ (chan_flags, uint8)
    ∷ (chan_r_u8, uint8)
    ∷ (chan_g_u8, uint8)
    ∷ (chan_b_u8, uint8)
    ∷ []

unfoldable pub profile_rng19_rfl8_sig16_nir16_rgb16_dual_2nd_return : ChanFieldTable
profile_rng19_rfl8_sig16_nir16_rgb16_dual_2nd_return =
    (chan_range2, uint32)
    ∷ (chan_signal2, uint16)
    ∷ (chan_reflectivity2, uint8)
    ∷ (chan_near_ir, uint16)
    ∷ (chan_flags2, uint8)
    ∷ (chan_r_u8, uint8)
    ∷ (chan_g_u8, uint8)
    ∷ (chan_b_u8, uint8)
    ∷ []
