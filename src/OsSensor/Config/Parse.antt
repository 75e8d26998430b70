-- ===== src/OsSensor/Config/Parse.antt =====
-- src/os_sensor_nodelet.cpp: `parse_config_from_ros_parameters`.

use ouster_ros.Prelude.{false, some, List, [], ◌∷◌, ◌>>=◌}
use ouster_ros.Ros.{Params, param}
use ouster_ros.OsSensor.Config.{Sdk, unset}
use ouster_ros.OsSensor.Config.Value.{Step}
use ouster_ros.OsSensor.Config.Network.{
  parse_udp_dest_and_ports, parse_udp_profile_lidar, parse_columns_per_packet,
  parse_udp_profile_imu_and_settings,
}
use ouster_ros.OsSensor.Config.Timing.{
  parse_timestamp_mode, parse_nmea_in_polarity, parse_nmea_ignore_valid_char, parse_nmea_baud_rate,
  parse_nmea_leap_seconds, parse_sync_pulse_in_polarity, parse_sync_pulse_out_polarity,
  parse_sync_pulse_out_frequency, parse_sync_pulse_out_angle, parse_sync_pulse_out_pulse_width,
  parse_phase_lock_and_offset,
}
use ouster_ros.OsSensor.Config.Measuring.{
  parse_lidar_mode, parse_azimuth_window, parse_operating_mode, parse_signal_multiplier,
  parse_multipurpose_io_mode, parse_min_distance, parse_lidar_frame_azimuth_offset,
  parse_return_order, parse_bloom_reduction_optimization,
}

module _ {R : Type 0} (sdk : Sdk R) (p : Params R) where
  unfoldable pub parse_persist_config_flag : Step sdk p
  parse_persist_config_flag t =
      some (record t { persist_config = param p.bool "persist_config" false })

  -- The calls, in the order of the source.
  unfoldable pub parsers : List (Step sdk p)
  unfolding parse_udp_dest_and_ports parse_udp_profile_lidar parse_columns_per_packet
      parse_udp_profile_imu_and_settings parse_lidar_mode parse_timestamp_mode parse_azimuth_window
      parse_operating_mode parse_signal_multiplier parse_multipurpose_io_mode parse_nmea_in_polarity
      parse_nmea_ignore_valid_char parse_nmea_baud_rate parse_nmea_leap_seconds
      parse_sync_pulse_in_polarity parse_sync_pulse_out_polarity parse_sync_pulse_out_frequency
      parse_sync_pulse_out_angle parse_sync_pulse_out_pulse_width parse_phase_lock_and_offset
      parse_min_distance parse_lidar_frame_azimuth_offset parse_return_order
      parse_bloom_reduction_optimization parse_persist_config_flag
  parsers =
      parse_udp_dest_and_ports sdk p
      ∷ parse_udp_profile_lidar sdk p
      ∷ parse_columns_per_packet sdk p
      ∷ parse_udp_profile_imu_and_settings sdk p
      ∷ parse_lidar_mode sdk p
      ∷ parse_timestamp_mode sdk p
      ∷ parse_azimuth_window sdk p
      ∷ parse_operating_mode sdk p
      ∷ parse_signal_multiplier sdk p
      ∷ parse_multipurpose_io_mode sdk p
      ∷ parse_nmea_in_polarity sdk p
      ∷ parse_nmea_ignore_valid_char sdk p
      ∷ parse_nmea_baud_rate sdk p
      ∷ parse_nmea_leap_seconds sdk p
      ∷ parse_sync_pulse_in_polarity sdk p
      ∷ parse_sync_pulse_out_polarity sdk p
      ∷ parse_sync_pulse_out_frequency sdk p
      ∷ parse_sync_pulse_out_angle sdk p
      ∷ parse_sync_pulse_out_pulse_width sdk p
      ∷ parse_phase_lock_and_offset sdk p
      ∷ parse_min_distance sdk p
      ∷ parse_lidar_frame_azimuth_offset sdk p
      ∷ parse_return_order sdk p
      ∷ parse_bloom_reduction_optimization sdk p
      ∷ parse_persist_config_flag
      ∷ []

  unfoldable pub run_parsers : List (Step sdk p) → Step sdk p
  run_parsers [] t = some t
  run_parsers (s ∷ ss) t = s t >>= run_parsers ss

  unfoldable pub parse_config_from_ros_parameters : Step sdk p
  unfolding parsers run_parsers
  parse_config_from_ros_parameters t = run_parsers parsers (record t { config = unset sdk })
