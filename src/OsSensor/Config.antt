-- ===== src/OsSensor/Config.antt =====
-- src/os_sensor_nodelet.cpp: the configuration that the node asks of the sensor.
pub mod Value
pub mod Network
pub mod Timing
pub mod Measuring
pub mod Parse
pub mod Valid
pub mod Unchecked
pub mod Rule
pub mod PortRules
pub mod Rules
pub mod Accepts
pub mod Client
mod Tests
use Prim.Native.String.{String}
use ouster_ros.Prelude.{Bool, Option, none}
use ouster_ros.Prelude.Int.{ℤ}

-- What the parsing uses of the SDK: its enumerations, each with the function that reads it from a text (`none` where
-- that has no value or throws), and its tests of destinations and of signal multipliers.
pub record Sdk (R : Type 0) : Type 1 where
  pub UdpProfileLidar : Type 0
  pub udp_profile_lidar_of_string : String → Option UdpProfileLidar
  pub UdpProfileImu : Type 0
  pub udp_profile_imu_of_string : String → Option UdpProfileImu
  pub FullScaleRange : Type 0
  pub full_scale_range_of_string : String → Option FullScaleRange
  pub LidarMode : Type 0
  pub lidar_mode_of_string : String → Option LidarMode
  pub TimestampMode : Type 0
  pub timestamp_mode_of_string : String → TimestampMode
  pub is_unspecified : TimestampMode → Bool
  pub OperatingMode : Type 0
  pub operating_mode_of_string : String → Option OperatingMode
  pub MultipurposeIoMode : Type 0
  pub multipurpose_io_mode_of_string : String → Option MultipurposeIoMode
  pub Polarity : Type 0
  pub polarity_of_string : String → Option Polarity
  pub BaudRate : Type 0
  pub nmea_baud_rate_of_string : String → Option BaudRate
  pub ReturnOrder : Type 0
  pub return_order_of_string : String → Option ReturnOrder
  pub BloomReduction : Type 0
  pub bloom_reduction_optimization_of_string : String → Option BloomReduction
  pub one : R
  pub check_signal_multiplier : R → Bool
  pub in_multicast : String → Bool

module _ {R : Type 0} (sdk : Sdk R) where
  -- The SDK's structure: what is not set is left to the sensor.
  pub record SensorConfig : Type 0 where
    pub udp_dest : Option String
    pub udp_port_lidar : Option ℤ
    pub udp_port_imu : Option ℤ
    pub udp_profile_lidar : Option sdk.UdpProfileLidar
    pub columns_per_packet : Option ℤ
    pub udp_profile_imu : Option sdk.UdpProfileImu
    pub imu_packets_per_frame : Option ℤ
    pub gyro_fsr : Option sdk.FullScaleRange
    pub accel_fsr : Option sdk.FullScaleRange
    pub lidar_mode : Option sdk.LidarMode
    pub timestamp_mode : Option sdk.TimestampMode
    pub azimuth_window : Option (ℤ × ℤ)
    pub operating_mode : Option sdk.OperatingMode
    pub signal_multiplier : Option R
    pub multipurpose_io_mode : Option sdk.MultipurposeIoMode
    pub nmea_in_polarity : Option sdk.Polarity
    pub nmea_ignore_valid_char : Option Bool
    pub nmea_baud_rate : Option sdk.BaudRate
    pub nmea_leap_seconds : Option ℤ
    pub sync_pulse_in_polarity : Option sdk.Polarity
    pub sync_pulse_out_polarity : Option sdk.Polarity
    pub sync_pulse_out_frequency : Option ℤ
    pub sync_pulse_out_angle : Option ℤ
    pub sync_pulse_out_pulse_width : Option ℤ
    pub phase_lock_enable : Option Bool
    pub phase_lock_offset : Option ℤ
    pub min_range_threshold_cm : Option ℤ
    pub lidar_frame_azimuth_offset : Option ℤ
    pub return_order : Option sdk.ReturnOrder
    pub bloom_reduction_optimization : Option sdk.BloomReduction

  -- The configuration with the members of the node that its parsing sets.
  pub record Parsed : Type 0 where
    pub config : SensorConfig
    pub mtp_dest : String
    pub mtp_main : Bool
    pub auto_udp_allowed : Bool
    pub persist_config : Bool

  -- `SensorConfig config;`
  abbrev pub unset : SensorConfig
  unset = record {
    udp_dest = none;
    udp_port_lidar = none;
    udp_port_imu = none;
    udp_profile_lidar = none;
    columns_per_packet = none;
    udp_profile_imu = none;
    imu_packets_per_frame = none;
    gyro_fsr = none;
    accel_fsr = none;
    lidar_mode = none;
    timestamp_mode = none;
    azimuth_window = none;
    operating_mode = none;
    signal_multiplier = none;
    multipurpose_io_mode = none;
    nmea_in_polarity = none;
    nmea_ignore_valid_char = none;
    nmea_baud_rate = none;
    nmea_leap_seconds = none;
    sync_pulse_in_polarity = none;
    sync_pulse_out_polarity = none;
    sync_pulse_out_frequency = none;
    sync_pulse_out_angle = none;
    sync_pulse_out_pulse_width = none;
    phase_lock_enable = none;
    phase_lock_offset = none;
    min_range_threshold_cm = none;
    lidar_frame_azimuth_offset = none;
    return_order = none;
    bloom_reduction_optimization = none;
  }
