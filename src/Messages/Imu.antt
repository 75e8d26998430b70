-- ===== src/Messages/Imu.antt =====
-- src/os_ros.cpp: `packet_to_imu_msgs`; src/imu_packet_handler.h. The `double` arithmetic and the sum of a time and a
-- duration are parameters; a measurement out of range of its arrays is 0.
pub mod Valid
use Prim.Native.String.{String}
use ouster_ros.Prelude.{
  ℕ, zero, suc, ◌+◌, ◌*◌, ◌%◌, ◌-◌, Bool, true, false, not, ◌&&◌, Option, List, [], ◌∷◌, ◌==◌,
  if◌then◌else◌, get_or, set, length,
}
use ouster_ros.Prelude.Words.{sub_u64}
use ouster_ros.Prelude.Int.{ℤ}
use ouster_ros.Float.{Float}
use ouster_ros.Messages.Telemetry.{timestamper}

-- `imu_gyro_ts` is the one timestamp of a packet of the legacy profile.
pub record ImuPacket (k : Float) : Type 0 where
  pub host_timestamp : ℕ
  pub measurements_per_packet : ℕ
  pub packets_per_frame : ℕ
  pub imu_gyro_ts : ℕ
  pub status : List ℕ
  pub timestamp : List ℕ
  pub accel : List (k.F × k.F × k.F)
  pub gyro : List (k.F × k.F × k.F)

pub record ImuMsg (k : Float) (Time : Type 0) : Type 0 where
  pub frame_id : String
  pub stamp : Time
  pub linear_acceleration : k.F × k.F × k.F
  pub angular_velocity : k.F × k.F × k.F

-- The lowest bit of a status.
abbrev pub is_valid : ℕ → Bool
is_valid status = status % 2 == 1

-- The count for which space is reserved.
unfoldable pub count_valid : List ℕ → ℕ
count_valid [] = 0
count_valid (status ∷ statuses) =
    let rest = count_valid statuses in if is_valid status then suc rest else rest

-- The frame time in nanoseconds, 1e9 / fps; one nanosecond in seconds, 1e-9; and `timestamp + ros::Duration(s)`.
pub record Clock (k : Float) : Type 1 where
  pub frame_ts_ns : k.F
  pub nano : k.F
  pub Time : Type 0
  pub ts_to_ros_time : ℕ → Time
  pub add_seconds : Time → k.F → Time

module _ (k : Float) (c : Clock k) where
  -- `static_cast<uint64_t>(i * imu_measurement_interval)` for the measurements from `i`.
  unfoldable pub spread : k.F → ℕ → List ℕ → List ℕ
  spread interval i [] = []
  spread interval i (t ∷ ts) = k.to_ℕ (k.mul (k.of_ℕ i) interval) ∷ spread interval (suc i) ts

  unfoldable pub imu_timestamps : ImuPacket k → List ℕ
  unfolding spread
  imu_timestamps p =
      if p.measurements_per_packet == 0
      then set p.timestamp 0 p.imu_gyro_ts
      else if not (is_valid (get_or p.status 0 0))
      then spread (k.div c.frame_ts_ns (k.of_ℕ (p.measurements_per_packet * p.packets_per_frame))) 0
          p.timestamp
      else p.timestamp

  -- The message of measurement `i`.
  unfoldable pub imu_msg : ImuPacket k → String → c.Time → ℕ → ImuMsg k c.Time
  unfolding imu_timestamps
  imu_msg p frame timestamp i =
      let ts = imu_timestamps p in
      let nothing = k.of_ℕ 0 in
      record {
        frame_id = frame;
        stamp =
            c.add_seconds timestamp
              (k.mul (k.of_ℕ (sub_u64 (get_or ts i 0) (get_or ts 0 0))) c.nano);
        linear_acceleration = get_or p.accel i (nothing, nothing, nothing);
        angular_velocity = get_or p.gyro i (nothing, nothing, nothing);
      }

  -- The loop over the statuses, from measurement `i`.
  unfoldable pub push_msgs : ImuPacket k → String → c.Time → ℕ → List ℕ → List (ImuMsg k c.Time)
  unfolding imu_msg
  push_msgs p frame timestamp i [] = []
  push_msgs p frame timestamp i (status ∷ statuses) =
      let rest = push_msgs p frame timestamp (suc i) statuses in
      if is_valid status then imu_msg p frame timestamp i ∷ rest else rest

  unfoldable pub packet_to_imu_msgs : ImuPacket k → String → c.Time → List (ImuMsg k c.Time)
  unfolding push_msgs count_valid
  packet_to_imu_msgs p frame timestamp =
      if count_valid p.status == 0 then [] else push_msgs p frame timestamp 0 p.status

  -- The timestamp that the handler gives a packet.
  unfoldable pub sensor_timestamp : ImuPacket k → ℕ
  sensor_timestamp p =
      if p.measurements_per_packet == 0 then p.imu_gyro_ts else get_or p.timestamp 0 0

  unfoldable pub imu_packet_handler : String → String → ℤ → ImuPacket k → List (ImuMsg k c.Time)
  unfolding timestamper sensor_timestamp packet_to_imu_msgs
  imu_packet_handler frame timestamp_mode ptp_utc_tai_offset p = packet_to_imu_msgs p frame (
      c.ts_to_ros_time
        (timestamper timestamp_mode ptp_utc_tai_offset p.host_timestamp (sensor_timestamp p)))
