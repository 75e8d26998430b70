-- ===== src/Messages/Telemetry.antt =====
-- src/telemetry_handler.h, src/imu_packet_handler.h: the time of a message, by the mode that the node is given; and
-- the telemetry message.
use Prim.Native.String.{String}
use text.Mathlib.Text.{◌==◌}
use ouster_ros.Prelude.{ℕ, Bool, List, [], ◌∷◌, if◌then◌else◌, ltb, not}
use ouster_ros.Prelude.Int.{ℤ}
use ouster_ros.Timestamps.{ts_safe_offset_add}

abbrev is_zero : ℕ → Bool
is_zero n = not (ltb 0 n)

-- The loop over the timestamps of the columns, with the last one read.
unfoldable pub scan_columns : ℕ → List ℕ → ℕ
scan_columns ts [] = ts
scan_columns ts (c ∷ columns) = let rest = scan_columns c columns in if is_zero c then rest else c

unfoldable pub first_valid_ts : List ℕ → ℕ
unfolding scan_columns
first_valid_ts columns = scan_columns 0 columns

-- The `Timestamper` of both handlers: what it makes of the time of arrival and of the sensor's time.
unfoldable pub timestamper : String → ℤ → ℕ → ℕ → ℕ
timestamper timestamp_mode ptp_utc_tai_offset host sensor =
    if timestamp_mode == "TIME_FROM_ROS_TIME"
    then host
    else if timestamp_mode == "TIME_FROM_PTP_1588"
    then ts_safe_offset_add sensor ptp_utc_tai_offset
    else sensor

-- What the packet format reads of the header of a lidar packet.
pub record Header : Type 0 where
  pub countdown_thermal_shutdown : ℕ
  pub countdown_shot_limiting : ℕ
  pub thermal_shutdown : ℕ
  pub shot_limiting : ℕ

pub record LidarPacket : Type 0 where
  pub host_timestamp : ℕ
  pub columns : List ℕ
  pub packet_header : Header

pub record TelemetryMsg : Type 0 where
  pub stamp : ℕ
  pub status : Header

unfoldable pub lidar_packet_to_telemetry_msg : LidarPacket → ℕ → TelemetryMsg
lidar_packet_to_telemetry_msg packet timestamp = record {
  stamp = timestamp;
  status = packet.packet_header;
}

unfoldable pub telemetry_handler : String → ℤ → LidarPacket → TelemetryMsg
unfolding timestamper first_valid_ts lidar_packet_to_telemetry_msg
telemetry_handler timestamp_mode ptp_utc_tai_offset packet = lidar_packet_to_telemetry_msg packet (
    timestamper timestamp_mode ptp_utc_tai_offset packet.host_timestamp
      (first_valid_ts packet.columns))
