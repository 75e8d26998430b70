-- ===== src/OsSensor/Connection.antt =====
-- The connection loop: its error counts, and when it asks for a restart.
use ouster_ros.Prelude.{
  ℕ, suc, ◌+◌, ◌≤◌, ◌≡◌, refl, Bool, true, false, List, [], ◌∷◌, length, if◌then◌else◌, arith,
}
use ouster_ros.OsSensor.{
  Node, Event, stopping, schedule_stop, reset_sensor, reactivate_sensor, init_id_changed,
  handle_poll_client_error, check_init_id, read_lidar_packet, read_imu_packet, read_packets,
  connection_loop,
}

module _ {C : Type 0} where
  pub record IsBounded (n : Node C) : Type 0 where
    pub poll : n.poll_client_error_count ≤ 10
    pub lidar : n.read_lidar_packet_errors ≤ 60
    pub imu : n.read_imu_packet_errors ≤ 60

  -- A node of which the loop has asked that it stop.
  pub IsStopping : Node C → Type 0
  IsStopping n = (n.sensor_connection_active ≡ false) × (n.reconnect_timer ≡ stopping)

  pub run_events : Bool → List Event → Node C → Node C
  run_events is_legacy [] n = n
  run_events is_legacy (e ∷ es) n = run_events is_legacy es (connection_loop is_legacy e n).0

  -- Every turn of the connection loop, whatever the client answers, keeps the three error counts at or below their
  -- limits.
  pub connection_loop-IsBounded :
      (is_legacy : Bool) (e : Event) (n : Node C)
      → IsBounded n
      → IsBounded (connection_loop is_legacy e n).0
  unfolding connection_loop handle_poll_client_error read_packets read_lidar_packet read_imu_packet
      check_init_id init_id_changed reset_sensor reactivate_sensor schedule_stop
  connection_loop-IsBounded is_legacy e n h = record {
    poll = ground (arith, h.poll);
    lidar = ground (arith, h.lidar);
    imu = ground (arith, h.imu);
  }

-- Every event is an error or a timeout of `poll_client`.
unfoldable pub AllErrors : List Event → Type 0
AllErrors [] = Unit
AllErrors (e ∷ es) = (e.exit ≡ false) × (e.error_or_timeout ≡ true) × AllErrors es

-- Every event is a read of an IMU packet alone.
unfoldable pub AllImu : List Event → Type 0
AllImu [] = Unit
AllImu (e ∷ es) =
    (e.exit ≡ false)
    × (e.error_or_timeout ≡ false)
    × (e.lidar_data ≡ false)
    × (e.imu_data ≡ true)
    × AllImu es

-- The reads of IMU packets that fail, however many succeed between them.
unfoldable pub imu_failures : List Event → ℕ
imu_failures [] = 0
imu_failures (e ∷ es) = if e.imu_packet then imu_failures es else suc (imu_failures es)

module _ {C : Type 0} where
  -- Errors and timeouts in a row of `poll_client`, as long as they are at most ten from the last good answer, are
  -- counted and neither end the connection nor set a timer.
  pub errors_tolerated :
      (is_legacy : Bool) (es : List Event) (n : Node C)
      → AllErrors es
      → n.poll_client_error_count + length es ≤ 10
      → ((run_events is_legacy es n).poll_client_error_count
          ≡ n.poll_client_error_count + length es)
        × ((run_events is_legacy es n).sensor_connection_active ≡ n.sensor_connection_active)
        × ((run_events is_legacy es n).reconnect_timer ≡ n.reconnect_timer)
  unfolding run_events AllErrors connection_loop handle_poll_client_error reset_sensor schedule_stop
  errors_tolerated is_legacy [] n all h = (omega arith, refl, refl)
  errors_tolerated is_legacy (e ∷ es) n (no_exit, error, all) h =
      let (count, active, timer) =
        errors_tolerated is_legacy es (connection_loop is_legacy e n).0 all (ground arith) in
      (ground arith, ground arith, ground arith)

  -- The eleventh error or timeout in a row of `poll_client` ends the connection, sets the timer that restarts it, and
  -- clears the count.
  pub errors_restart :
      (is_legacy : Bool) (es : List Event) (n : Node C)
      → AllErrors es
      → n.poll_client_error_count + length es ≡ 11
      → n.poll_client_error_count ≤ 10
      → IsStopping (run_events is_legacy es n)
        × ((run_events is_legacy es n).poll_client_error_count ≡ 0)
  unfolding run_events AllErrors IsStopping connection_loop handle_poll_client_error reset_sensor
      schedule_stop
  errors_restart is_legacy [] n all h small = ground arith
  errors_restart is_legacy (e ∷ []) n (no_exit, error, all) h small = ground arith
  errors_restart is_legacy (e ∷ e' ∷ es) n (no_exit, error, all) h small =
      errors_restart is_legacy (e' ∷ es) (connection_loop is_legacy e n).0 all (ground arith)
        (ground arith)

  -- Failed reads of IMU packets are counted whether or not reads succeed between them, up to sixty: a good packet
  -- does not clear the count.
  pub imu_errors-accumulate :
      (is_legacy : Bool) (es : List Event) (n : Node C)
      → AllImu es
      → n.read_imu_packet_errors + imu_failures es ≤ 60
      → (run_events is_legacy es n).read_imu_packet_errors
        ≡ n.read_imu_packet_errors + imu_failures es
  unfolding run_events AllImu imu_failures connection_loop read_packets read_imu_packet
  imu_errors-accumulate is_legacy [] n all h = omega arith
  imu_errors-accumulate is_legacy (e ∷ es) n (no_exit, fine, no_lidar, imu, all) h =
      let n' : Node C = (connection_loop is_legacy e n).0 in
      let step : n'.read_imu_packet_errors + imu_failures es
          ≡ n.read_imu_packet_errors + imu_failures (e ∷ es) =
        ground arith in
      let rec = imu_errors-accumulate is_legacy es n' all (omega arith) in omega arith
