-- ===== src/OsSensor/Config/Accepts.antt =====
-- What `parse_config_from_ros_parameters` makes of the parameters: when it throws, and the configuration as a table of
-- its members and the parameters that they come from.
use Prim.Native.String.{String}
use ouster_ros.Prelude.{
  ◌≡◌, refl, sym, ◌∙◌, ap, Bool, true, false, not, ◌&&◌, ◌||◌, Option, none, some, List, [], ◌∷◌,
  if◌then◌else◌,
}
use ouster_ros.Prelude.Int.{ℤ, pos, negsuc, ltb_ℤ}
use ouster_ros.Ros.{Params, param, is_arg_set}
use ouster_ros.OsSensor.Config.{Sdk, SensorConfig, Parsed, unset}
use ouster_ros.OsSensor.Config.Value.{min_azw, max_azw, eq_ℤ, one_of, outside}
use ouster_ros.OsSensor.Config.Rule.{
  or_else, unless, named, is_named, all_ok, write_all, run_parsers-rules,
}
use ouster_ros.OsSensor.Config.PortRules.{
  destination, is_multicast, written_mtp_dest, keeps_timestamp_mode, timestamp_mode,
}
use ouster_ros.OsSensor.Config.Rules.{rules, rules-parsers}
use ouster_ros.OsSensor.Config.Parse.{run_parsers, parse_config_from_ros_parameters}

abbrev pub every : List Bool → Bool
every [] = true
every (b ∷ bs) = b && every bs

module _ {R : Type 0} (sdk : Sdk R) (p : Params R) where
  abbrev pub int_or_0 : String → ℤ
  int_or_0 name = param p.int name (pos 0)

  abbrev pub int_or_unset : String → ℤ
  int_or_unset name = param p.int name (negsuc 0)

  abbrev pub is_zero : String → Bool
  is_zero name = eq_ℤ (int_or_0 name) (pos 0)

  abbrev pub is_port : String → Bool
  is_port name = not (outside (pos 0) (pos 65535) (int_or_0 name))

  -- A test for each parameter that can be invalid, or each group of them.
  unfoldable pub checks : List Bool
  checks =
      ((true && is_port "lidar_port") && is_port "imu_port")
      ∷ is_named sdk p "udp_profile_lidar" sdk.udp_profile_lidar_of_string
      ∷ (is_zero "columns_per_packet"
          || one_of (int_or_0 "columns_per_packet") (1 ∷ 2 ∷ 4 ∷ 8 ∷ 16 ∷ 32 ∷ 64 ∷ []))
      ∷ (((is_named sdk p "udp_profile_imu" sdk.udp_profile_imu_of_string
              && (is_zero "imu_packets_per_frame"
                  || one_of (int_or_0 "imu_packets_per_frame") (1 ∷ 2 ∷ 4 ∷ 8 ∷ [])))
            && is_named sdk p "gyro_fsr" sdk.full_scale_range_of_string)
          && is_named sdk p "accel_fsr" sdk.full_scale_range_of_string)
      ∷ is_named sdk p "lidar_mode" sdk.lidar_mode_of_string
      ∷ (keeps_timestamp_mode sdk p || not (sdk.is_unspecified (timestamp_mode sdk p)))
      ∷ not (
          outside min_azw max_azw (param p.int "azimuth_window_start" min_azw)
          || outside min_azw max_azw (param p.int "azimuth_window_end" max_azw))
      ∷ is_named sdk p "operating_mode" sdk.operating_mode_of_string
      ∷ sdk.check_signal_multiplier (param p.real "signal_multiplier" sdk.one)
      ∷ is_named sdk p "multipurpose_io_mode" sdk.multipurpose_io_mode_of_string
      ∷ is_named sdk p "nmea_in_polarity" sdk.polarity_of_string
      ∷ is_named sdk p "nmea_baud_rate" sdk.nmea_baud_rate_of_string
      ∷ is_named sdk p "sync_pulse_in_polarity" sdk.polarity_of_string
      ∷ is_named sdk p "sync_pulse_out_polarity" sdk.polarity_of_string
      ∷ (ltb_ℤ (int_or_unset "sync_pulse_out_frequency") (pos 0) || true)
      ∷ (ltb_ℤ (int_or_unset "sync_pulse_out_angle") (pos 0) || true)
      ∷ (ltb_ℤ (int_or_unset "sync_pulse_out_pulse_width") (pos 0) || true)
      ∷ not (outside min_azw max_azw (int_or_0 "phase_lock_offset"))
      ∷ (ltb_ℤ (int_or_unset "min_distance") (pos 0)
          || one_of (int_or_unset "min_distance") (0 ∷ 30 ∷ 50 ∷ []))
      ∷ (ltb_ℤ (int_or_unset "lidar_frame_azimuth_offset") (pos 0) || true)
      ∷ is_named sdk p "return_order" sdk.return_order_of_string
      ∷ is_named sdk p "bloom_reduction_optimization" sdk.bloom_reduction_optimization_of_string
      ∷ []

  -- No parameter is of an invalid value.
  unfoldable pub accepts : Bool
  unfolding checks
  accepts = every checks

  -- Where the parameter gives no value the member is not set, whatever the sensor has.
  unfoldable pub expected_config : SensorConfig sdk
  expected_config = record {
    udp_dest = unless (not (is_arg_set (destination sdk p))) (destination sdk p);
    udp_port_lidar = unless (is_zero "lidar_port") (int_or_0 "lidar_port");
    udp_port_imu = unless (is_zero "imu_port") (int_or_0 "imu_port");
    udp_profile_lidar = named sdk p "udp_profile_lidar" sdk.udp_profile_lidar_of_string;
    columns_per_packet = unless (is_zero "columns_per_packet") (int_or_0 "columns_per_packet");
    udp_profile_imu = named sdk p "udp_profile_imu" sdk.udp_profile_imu_of_string;
    imu_packets_per_frame =
        unless (is_zero "imu_packets_per_frame") (int_or_0 "imu_packets_per_frame");
    gyro_fsr = named sdk p "gyro_fsr" sdk.full_scale_range_of_string;
    accel_fsr = named sdk p "accel_fsr" sdk.full_scale_range_of_string;
    lidar_mode = named sdk p "lidar_mode" sdk.lidar_mode_of_string;
    timestamp_mode = unless (keeps_timestamp_mode sdk p) (timestamp_mode sdk p);
    azimuth_window =
        some (param p.int "azimuth_window_start" min_azw, param p.int "azimuth_window_end" max_azw);
    operating_mode = named sdk p "operating_mode" sdk.operating_mode_of_string;
    signal_multiplier = some (param p.real "signal_multiplier" sdk.one);
    multipurpose_io_mode = named sdk p "multipurpose_io_mode" sdk.multipurpose_io_mode_of_string;
    nmea_in_polarity = named sdk p "nmea_in_polarity" sdk.polarity_of_string;
    nmea_ignore_valid_char = some (param p.bool "nmea_ignore_valid_char" false);
    nmea_baud_rate = named sdk p "nmea_baud_rate" sdk.nmea_baud_rate_of_string;
    nmea_leap_seconds = some (int_or_0 "nmea_leap_seconds");
    sync_pulse_in_polarity = named sdk p "sync_pulse_in_polarity" sdk.polarity_of_string;
    sync_pulse_out_polarity = named sdk p "sync_pulse_out_polarity" sdk.polarity_of_string;
    sync_pulse_out_frequency =
        unless (ltb_ℤ (int_or_unset "sync_pulse_out_frequency") (pos 0))
          (int_or_unset "sync_pulse_out_frequency");
    sync_pulse_out_angle =
        unless (ltb_ℤ (int_or_unset "sync_pulse_out_angle") (pos 0))
          (int_or_unset "sync_pulse_out_angle");
    sync_pulse_out_pulse_width =
        unless (ltb_ℤ (int_or_unset "sync_pulse_out_pulse_width") (pos 0))
          (int_or_unset "sync_pulse_out_pulse_width");
    phase_lock_enable = some (param p.bool "phase_lock_enable" false);
    phase_lock_offset = some (int_or_0 "phase_lock_offset");
    min_range_threshold_cm =
        unless (ltb_ℤ (int_or_unset "min_distance") (pos 0)) (int_or_unset "min_distance");
    lidar_frame_azimuth_offset =
        unless (ltb_ℤ (int_or_unset "lidar_frame_azimuth_offset") (pos 0))
          (int_or_unset "lidar_frame_azimuth_offset");
    return_order = named sdk p "return_order" sdk.return_order_of_string;
    bloom_reduction_optimization =
        named sdk p "bloom_reduction_optimization" sdk.bloom_reduction_optimization_of_string;
  }

  -- The configuration, and the members of the node that are set with it.
  unfoldable pub expected : Parsed sdk → Parsed sdk
  expected t = record {
    config = expected_config;
    mtp_dest = if is_multicast sdk p then written_mtp_dest sdk p else t.mtp_dest;
    mtp_main = if is_multicast sdk p then param p.bool "mtp_main" false else t.mtp_main;
    auto_udp_allowed = if is_arg_set (destination sdk p) then t.auto_udp_allowed else true;
    persist_config = param p.bool "persist_config" false;
  }

  or_else-none : {A : Type 0} (o : Option A) → or_else o none ≡ o
  or_else-none none = refl
  or_else-none (some v) = refl

  write_all_lem :
      (t : Parsed sdk)
      → write_all sdk p (rules sdk p) (record t { config = unset sdk }) ≡ expected t
  unfolding write_all rules expected expected_config
  write_all_lem t = simp (or_else-none) refl

  -- The parsing of the parameters throws exactly where one of them is out of its range or names no value. Otherwise
  -- every member of the configuration comes from its own parameter, and is not set where the parameter leaves it to
  -- the sensor; the multicast settings of the node change only with a multicast destination, and
  -- `auto_udp_allowed` is set where no destination is given.
  pub parse_config_from_ros_parameters_lem :
      (t : Parsed sdk)
      → parse_config_from_ros_parameters sdk p t ≡ (if accepts then some (expected t) else none)
  unfolding parse_config_from_ros_parameters accepts rules all_ok
  parse_config_from_ros_parameters_lem t =
      let start : Parsed sdk = record t { config = unset sdk } in
      ap (λ ps. run_parsers sdk p ps start) (sym (rules-parsers sdk p))
      ∙ run_parsers-rules sdk p (rules sdk p) start
      ∙ ap (λ t'. if accepts then some t' else none) (write_all_lem t)
