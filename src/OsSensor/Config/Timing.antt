-- ===== src/OsSensor/Config/Timing.antt =====
-- src/os_sensor_nodelet.cpp: the parameters on time, synchronization pulses and the phase lock.
use ouster_ros.Prelude.{false, not, ◌||◌, none, some, if◌then◌else◌}
use ouster_ros.Prelude.Int.{pos, negsuc, ltb_ℤ}
use ouster_ros.Ros.{Params, param, is_arg_set}
use ouster_ros.OsSensor.Config.{Sdk}
use text.Mathlib.Text.{◌==◌}
use ouster_ros.OsSensor.Config.Value.{min_azw, max_azw, outside, Step, parse_enum}

module _ {R : Type 0} (sdk : Sdk R) (p : Params R) where
  unfoldable pub parse_timestamp_mode : Step sdk p
  parse_timestamp_mode t =
      let arg = param p.text "timestamp_mode" "" in
      if not (is_arg_set arg)
      then some t
      else if (arg == "TIME_FROM_ROS_TIME") || (arg == "TIME_FROM_ROS_RECEPTION")
      then some t
      else (let mode = sdk.timestamp_mode_of_string arg in
          if sdk.is_unspecified mode
          then none
          else some (record t { config = record t.config { timestamp_mode = some mode } }))

  unfoldable pub parse_nmea_in_polarity : Step sdk p
  parse_nmea_in_polarity =
      parse_enum sdk p "nmea_in_polarity" sdk.polarity_of_string
        (λ v t. record t { config = record t.config { nmea_in_polarity = some v } })

  unfoldable pub parse_nmea_ignore_valid_char : Step sdk p
  parse_nmea_ignore_valid_char t =
      let v = param p.bool "nmea_ignore_valid_char" false in
      some (record t { config = record t.config { nmea_ignore_valid_char = some v } })

  unfoldable pub parse_nmea_baud_rate : Step sdk p
  parse_nmea_baud_rate =
      parse_enum sdk p "nmea_baud_rate" sdk.nmea_baud_rate_of_string
        (λ v t. record t { config = record t.config { nmea_baud_rate = some v } })

  unfoldable pub parse_nmea_leap_seconds : Step sdk p
  parse_nmea_leap_seconds t =
      let v = param p.int "nmea_leap_seconds" (pos 0) in
      some (record t { config = record t.config { nmea_leap_seconds = some v } })

  unfoldable pub parse_sync_pulse_in_polarity : Step sdk p
  parse_sync_pulse_in_polarity =
      parse_enum sdk p "sync_pulse_in_polarity" sdk.polarity_of_string
        (λ v t. record t { config = record t.config { sync_pulse_in_polarity = some v } })

  unfoldable pub parse_sync_pulse_out_polarity : Step sdk p
  parse_sync_pulse_out_polarity =
      parse_enum sdk p "sync_pulse_out_polarity" sdk.polarity_of_string
        (λ v t. record t { config = record t.config { sync_pulse_out_polarity = some v } })

  unfoldable pub parse_sync_pulse_out_frequency : Step sdk p
  parse_sync_pulse_out_frequency t =
      let v = param p.int "sync_pulse_out_frequency" (negsuc 0) in
      if ltb_ℤ v (pos 0)
      then some t
      else some (record t { config = record t.config { sync_pulse_out_frequency = some v } })

  unfoldable pub parse_sync_pulse_out_angle : Step sdk p
  parse_sync_pulse_out_angle t =
      let v = param p.int "sync_pulse_out_angle" (negsuc 0) in
      if ltb_ℤ v (pos 0)
      then some t
      else some (record t { config = record t.config { sync_pulse_out_angle = some v } })

  unfoldable pub parse_sync_pulse_out_pulse_width : Step sdk p
  parse_sync_pulse_out_pulse_width t =
      let v = param p.int "sync_pulse_out_pulse_width" (negsuc 0) in
      if ltb_ℤ v (pos 0)
      then some t
      else some (record t { config = record t.config { sync_pulse_out_pulse_width = some v } })

  unfoldable pub parse_phase_lock_and_offset : Step sdk p
  parse_phase_lock_and_offset t =
      let enable = param p.bool "phase_lock_enable" false in
      let offset = param p.int "phase_lock_offset" (pos 0) in
      if outside min_azw max_azw offset
      then none
      else some (record t {
        config = record t.config {
          phase_lock_enable = some enable;
          phase_lock_offset = some offset;
        };
      })
