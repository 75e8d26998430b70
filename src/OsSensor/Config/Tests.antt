-- ===== src/OsSensor/Config/Tests.antt =====
-- The parsing of some parameters, and its theorems there.
use Prim.Native.String.{String}
use text.Mathlib.Text.{◌==◌}
use ouster_ros.Prelude.{
  [], ◌∷◌, ℕ, zero, suc, ◌≡◌, refl, true, false, Option, none, some, if◌then◌else◌,
}
use ouster_ros.Prelude.Int.{ℤ, pos, negsuc}
use ouster_ros.Ros.{Params, is_arg_set}
use ouster_ros.OsSensor.{Node, idle, reset_sensor, schedule_stop}
use ouster_ros.OsSensor.Lifecycle.{World, attempt_start, fire}
use ouster_ros.OsSensor.Life.{reset_service, Reach, here, next, reset, fired}
use ouster_ros.OsSensor.Life.Status.{HasStatus, on_init-HasStatus}
use ouster_ros.OsSensor.Config.Client.{get_sensor_hostname}
use ouster_ros.OsSensor.OnInit.{
  on_init, config_ops, with_parameters, configured, populate_metadata_defaults,
}
use ouster_ros.OsSensor.Config.{Sdk, SensorConfig, Parsed, unset}
use ouster_ros.OsSensor.Config.Parse.{parse_config_from_ros_parameters}
use ouster_ros.OsSensor.Config.Accepts.{
  accepts, expected, expected_config, parse_config_from_ros_parameters_lem,
}
use ouster_ros.OsSensor.Config.Valid.{AreValid}
use ouster_ros.OsSensor.Config.Unchecked.{
  with_numbers, numbered, parse_config_from_ros_parameters-AreValid,
}

-- Every enumeration has the one value 3, named "three".
abbrev three : String → Option ℕ
three s = if s == "three" then some 3 else none

abbrev sdk : Sdk ℕ
sdk = record {
  UdpProfileLidar = ℕ;
  udp_profile_lidar_of_string = three;
  UdpProfileImu = ℕ;
  udp_profile_imu_of_string = three;
  FullScaleRange = ℕ;
  full_scale_range_of_string = three;
  LidarMode = ℕ;
  lidar_mode_of_string = three;
  TimestampMode = ℕ;
  timestamp_mode_of_string = λ s. if s == "three" then 3 else 0;
  is_unspecified = λ n. elim n [ zero ↦ true | suc m ↦ false ];
  OperatingMode = ℕ;
  operating_mode_of_string = three;
  MultipurposeIoMode = ℕ;
  multipurpose_io_mode_of_string = three;
  Polarity = ℕ;
  polarity_of_string = three;
  BaudRate = ℕ;
  nmea_baud_rate_of_string = three;
  ReturnOrder = ℕ;
  return_order_of_string = three;
  BloomReduction = ℕ;
  bloom_reduction_optimization_of_string = three;
  one = 1;
  check_signal_multiplier = λ r. elim r [ zero ↦ false | suc m ↦ true ];
  in_multicast = λ s. s == "239.201.201.201";
}

abbrev params : String → ℤ → Params ℕ
params mode port = record {
  text = λ name.
      if name == "udp_dest"
      then some "239.201.201.201"
      else if name == "lidar_mode"
      then some mode
      else none;
  int = λ name.
      if name == "lidar_port"
      then some port
      else if name == "columns_per_packet"
      then some (pos 16)
      else if name == "sync_pulse_out_angle"
      then some (pos 90)
      else none;
  bool = λ name. if name == "mtp_main" then some true else none;
  real = λ name. none;
}

abbrev fresh : Parsed sdk
fresh = record {
  config = unset sdk;
  mtp_dest = "";
  mtp_main = false;
  auto_udp_allowed = false;
  persist_config = false;
}

parsed :
    parse_config_from_ros_parameters sdk (params "three" (pos 7502)) fresh
    ≡ some (expected sdk (params "three" (pos 7502)) fresh)
unfolding parse_config_from_ros_parameters expected expected_config is_arg_set
parsed = refl

bad_mode : parse_config_from_ros_parameters sdk (params "four" (pos 7502)) fresh ≡ none
unfolding parse_config_from_ros_parameters is_arg_set
bad_mode = refl

bad_port : parse_config_from_ros_parameters sdk (params "three" (negsuc 0)) fresh ≡ none
unfolding parse_config_from_ros_parameters is_arg_set
bad_port = refl

parse_config_from_ros_parameters_lem_example :
    parse_config_from_ros_parameters sdk (params "three" (pos 7502)) fresh
    ≡ some (expected sdk (params "three" (pos 7502)) fresh)
unfolding accepts is_arg_set
parse_config_from_ros_parameters_lem_example =
    parse_config_from_ros_parameters_lem sdk (params "three" (pos 7502)) fresh

parse_config_from_ros_parameters-AreValid_example :
    let p = params "three" (pos 7502) in
    AreValid sdk (expected sdk p fresh).config
    × ((frequency angle width offset leap : ℤ)
        → parse_config_from_ros_parameters sdk
            (with_numbers p frequency angle width offset leap)
            fresh
          ≡ some (record (expected sdk p fresh) {
            config = numbered sdk (expected sdk p fresh).config frequency angle width offset leap;
          }))
parse_config_from_ros_parameters-AreValid_example =
    parse_config_from_ros_parameters-AreValid sdk (params "three" (pos 7502)) fresh
      (expected sdk (params "three" (pos 7502)) fresh) parsed

-- A sensor is named, and nothing else is set.
abbrev bare : Params ℕ
bare = record {
  text = λ name. if name == "sensor_hostname" then some "os-1" else none;
  int = λ name. none;
  bool = λ name. none;
  real = λ name. none;
}

abbrev blank_node : Node (SensorConfig sdk)
blank_node = record {
  staged_config = none;
  sensor_client = false;
  sensor_connection_active = false;
  persist_config = false;
  force_sensor_reinit = false;
  auto_udp_allowed = false;
  mtp_main = false;
  reset_last_init_id = false;
  last_init_id = none;
  poll_client_error_count = 0;
  read_lidar_packet_errors = 0;
  read_imu_packet_errors = 0;
  attempt_reconnect = false;
  reconnect_attempts_available = 0;
  reconnect_timer = idle;
}

abbrev world : World (SensorConfig sdk)
world = record {
  has_hostname = false;
  active_config = none;
  active_config_throws = false;
  takes_config = true;
  has_client = true;
  has_metadata = true;
  max_failed_reconnect_attempts = 0;
}

bare_parsed : parse_config_from_ros_parameters sdk bare fresh ≡ some (expected sdk bare fresh)
unfolding parse_config_from_ros_parameters expected expected_config is_arg_set
bare_parsed = refl

abbrev loaded : Node (SensorConfig sdk)
loaded =
    attempt_start (config_ops sdk bare) (with_parameters sdk bare world)
      (configured sdk bare (expected sdk bare fresh) blank_node)

loaded_lem : on_init sdk bare world fresh blank_node ≡ some loaded
unfolding on_init parse_config_from_ros_parameters expected expected_config is_arg_set
loaded_lem = refl

abbrev named_world : World (SensorConfig sdk)
named_world = record world { has_hostname = true }

-- The reset service is called, and its timer fires.
reset_and_fired :
    Reach
      (config_ops sdk bare)
      loaded
      (fire (config_ops sdk bare) named_world (reset_service loaded).0)
unfolding reset_service reset_sensor schedule_stop
reset_and_fired = next (next here reset) (fired named_world (refl, refl, refl) (λ e. cc))

on_init-HasStatus_example :
    HasStatus (fire (config_ops sdk bare) named_world (reset_service loaded).0)
unfolding get_sensor_hostname is_arg_set
on_init-HasStatus_example =
    on_init-HasStatus sdk bare world fresh blank_node loaded
      (fire (config_ops sdk bare) named_world (reset_service loaded).0) (refl, refl, refl) refl refl
      loaded_lem reset_and_fired

old_metadata :
    populate_metadata_defaults {A = ℕ}
      (7 ∷ [])
      (8 ∷ [])
      (record { prod_line = ""; beam_azimuth_angles = 1 ∷ []; beam_altitude_angles = [] })
    ≡ record { prod_line = "UNKNOWN"; beam_azimuth_angles = 7 ∷ []; beam_altitude_angles = 8 ∷ [] }
unfolding populate_metadata_defaults
old_metadata = refl
