-- ===== src/OsSensor.antt =====
-- src/os_sensor_nodelet.cpp: `OusterSensor`, the node that is connected to a sensor. The SDK's answers, which the
-- network decides, are arguments of the operations that ask.
pub mod Config
pub mod Connection
pub mod InitId
pub mod Lifecycle
pub mod OnInit
pub mod Buffers
pub mod SaveMetadata
pub mod Life
mod Tests
use ouster_ros.Prelude.{
  ℕ, suc, ◌+◌, ◌-◌, ◌%◌, ◌^◌, Bool, true, false, not, ◌&&◌, ◌||◌, Option, none, some, List, [], ◌∷◌,
  ◌++◌, ltb, ◌==◌, if◌then◌else◌,
}

-- What `reconnect_timer` calls when it fires: the callback of `schedule_stop` or of `attempt_start`.
pub data Timer : Type 0 where
  idle stopping starting : Timer

-- `reconnect_attempts_available` is an `int` that may fall below 0, where it only fails the test
-- for being positive; here it stops at 0.
pub record Node (C : Type 0) : Type 0 where
  pub staged_config : Option C
  pub sensor_client : Bool
  pub sensor_connection_active : Bool
  pub persist_config : Bool
  pub force_sensor_reinit : Bool
  pub auto_udp_allowed : Bool
  pub mtp_main : Bool
  pub reset_last_init_id : Bool
  pub last_init_id : Option ℕ
  pub poll_client_error_count : ℕ
  pub read_lidar_packet_errors : ℕ
  pub read_imu_packet_errors : ℕ
  pub attempt_reconnect : Bool
  pub reconnect_attempts_available : ℕ
  pub reconnect_timer : Timer

-- What `connection_loop` learns: the bits of `poll_client`, and what the reads return, the `init_id` of a lidar packet.
pub record Event : Type 0 where
  pub exit : Bool
  pub error_or_timeout : Bool
  pub lidar_data : Bool
  pub imu_data : Bool
  pub lidar_packet : Option ℕ
  pub imu_packet : Bool

pub data Action : Type 0 where
  publish_lidar publish_imu : Action

abbrev pub max_poll_client_error_count : ℕ
max_poll_client_error_count = 10

abbrev pub max_read_lidar_packet_errors : ℕ
max_read_lidar_packet_errors = 60

abbrev pub max_read_imu_packet_errors : ℕ
max_read_imu_packet_errors = 60

abbrev pub is_id : Option ℕ → ℕ → Bool
is_id none current = false
is_id (some last) current = last == current

-- `last_init_id` once it has a value.
abbrev remembered : Option ℕ → ℕ → ℕ
remembered none current = (current + 1) % 2 ^ 32
remembered (some last) current = last

module _ {C : Type 0} where
  unfoldable pub schedule_stop : Node C → Node C
  schedule_stop n = record n { sensor_connection_active = false; reconnect_timer = stopping }

  unfoldable pub reset_sensor : Bool → Node C → Node C
  unfolding schedule_stop
  reset_sensor force_reinit n = schedule_stop n

  unfoldable pub reactivate_sensor : Bool → Node C → Node C
  reactivate_sensor init_id_reset n = n

  unfoldable pub init_id_changed : ℕ → Node C → Node C × Bool
  init_id_changed current n =
      let last = remembered n.last_init_id current in
      if n.reset_last_init_id && not (last == current)
      then (record n { last_init_id = some current; reset_last_init_id = false }, false)
      else if last == current
      then (record n { last_init_id = some last }, false)
      else (record n { last_init_id = some current }, true)

  unfoldable pub handle_poll_client_error : Node C → Node C
  unfolding reset_sensor
  handle_poll_client_error n =
      let count = n.poll_client_error_count + 1 in
      if ltb max_poll_client_error_count count
      then reset_sensor true (record n { poll_client_error_count = 0 })
      else record n { poll_client_error_count = count }

  unfoldable pub check_init_id : Bool → ℕ → Node C → Node C
  unfolding init_id_changed reset_sensor
  check_init_id is_legacy init_id n =
      if is_legacy
      then n
      else (let (n', changed) = init_id_changed init_id n in
          if changed then reset_sensor false n' else n')

  unfoldable pub read_lidar_packet : Bool → Option ℕ → Node C → Node C × List Action
  unfolding check_init_id reset_sensor
  read_lidar_packet is_legacy (some init_id) n = (
    check_init_id is_legacy init_id (record n { read_lidar_packet_errors = 0 }),
    publish_lidar ∷ [],
  )
  read_lidar_packet is_legacy none n =
      let errors = n.read_lidar_packet_errors + 1 in
      if ltb max_read_lidar_packet_errors errors
      then (reset_sensor true (record n { read_lidar_packet_errors = 0 }), [])
      else (record n { read_lidar_packet_errors = errors }, [])

  unfoldable pub read_imu_packet : Bool → Node C → Node C × List Action
  unfolding reactivate_sensor
  read_imu_packet true n = (n, publish_imu ∷ [])
  read_imu_packet false n =
      let errors = n.read_imu_packet_errors + 1 in
      if ltb max_read_imu_packet_errors errors
      then (reactivate_sensor true (record n { read_imu_packet_errors = 0 }), [])
      else (record n { read_imu_packet_errors = errors }, [])

  unfoldable pub read_packets : Bool → Event → Node C → Node C × List Action
  unfolding read_lidar_packet read_imu_packet
  read_packets is_legacy e n =
      let (n', lidar) =
        if e.lidar_data then read_lidar_packet is_legacy e.lidar_packet n else (n, []) in
      let (n'', imu) = if e.imu_data then read_imu_packet e.imu_packet n' else (n', []) in
      (n'', lidar ++ imu)

  unfoldable pub connection_loop : Bool → Event → Node C → Node C × List Action
  unfolding handle_poll_client_error read_packets
  connection_loop is_legacy e n =
      if e.exit
      then (n, [])
      else if e.error_or_timeout
      then (handle_poll_client_error n, [])
      else read_packets is_legacy e (record n { poll_client_error_count = 0 })
