-- ===== src/OsSensor/Tests.antt =====
-- Runs of the node, and its theorems there.
use ouster_ros.Prelude.{◌⊎◌, inl, ℕ, ◌≡◌, refl, Bool, true, false, none, some, [], ◌∷◌, arith}
use ouster_ros.OsSensor.{
  idle, stopping, starting, Node, Event, schedule_stop, reset_sensor, reactivate_sensor,
  init_id_changed, handle_poll_client_error, check_init_id, read_lidar_packet, read_imu_packet,
  read_packets, connection_loop,
}
use ouster_ros.OsSensor.Connection.{run_events, AllImu, imu_failures, imu_errors-accumulate}
use ouster_ros.OsSensor.Life.{reset_service, Reach, here, next, reset, fired}
use ouster_ros.OsSensor.Life.Ends.{reset_sensor-ends}
use ouster_ros.OsSensor.Life.Status.{IsConnected}
use ouster_ros.OsSensor.Life.Answered.{AllAnswer, fire-IsConnected}
use ouster_ros.OsSensor.Lifecycle.{
  ConfigOps, World, compose_config_flags, configure_sensor, connect, start_with, start_from_active,
  start_from, start, stop, retry, attempt_start, after_stop, fire_from, fire,
}
use ouster_ros.OsSensor.Lifecycle.Reconnect.{fire_all, AllDown, fire_all-gives_up}

-- A configuration is the number of its destination, 0 for none.
abbrev node : Node ℕ
node = record {
  staged_config = some 5;
  sensor_client = true;
  sensor_connection_active = true;
  persist_config = true;
  force_sensor_reinit = false;
  auto_udp_allowed = false;
  mtp_main = false;
  reset_last_init_id = false;
  last_init_id = some 8;
  poll_client_error_count = 9;
  read_lidar_packet_errors = 60;
  read_imu_packet_errors = 0;
  attempt_reconnect = false;
  reconnect_attempts_available = 1;
  reconnect_timer = idle;
}

abbrev retrying : Node ℕ
retrying = record node { attempt_reconnect = true; reconnect_timer = starting }

abbrev timeout : Event
timeout = record {
  exit = false;
  error_or_timeout = true;
  lidar_data = false;
  imu_data = false;
  lidar_packet = none;
  imu_packet = false;
}

abbrev imu : Bool → Event
imu good = record {
  exit = false;
  error_or_timeout = false;
  lidar_data = false;
  imu_data = true;
  lidar_packet = none;
  imu_packet = good;
}

abbrev ops : ConfigOps ℕ
ops = record { has_udp_dest = λ c. true; in_multicast = λ c. false; reset_udp_dest = λ c. c }

abbrev world : Bool → World ℕ
world up = record {
  has_hostname = true;
  active_config = some 1;
  active_config_throws = false;
  takes_config = true;
  has_client = up;
  has_metadata = true;
  max_failed_reconnect_attempts = 3;
}

node_code : Unit {0}
unfolding schedule_stop reset_sensor reactivate_sensor init_id_changed handle_poll_client_error
    check_init_id read_lidar_packet read_imu_packet read_packets connection_loop
    compose_config_flags configure_sensor connect start_with start_from_active start_from start stop
    retry attempt_start after_stop fire_from fire imu_failures
node_code = tt

imu_errors-accumulate_example :
    (run_events false (imu false ∷ imu true ∷ imu false ∷ []) node).read_imu_packet_errors ≡ 2
unfolding node_code AllImu
imu_errors-accumulate_example =
    imu_errors-accumulate false (imu false ∷ imu true ∷ imu false ∷ []) node
      (refl, refl, refl, refl, (refl, refl, refl, refl, (refl, refl, refl, refl, tt))) (omega arith)

fire_all-gives_up_example :
    (fire_all ops (world false ∷ world false ∷ []) retrying).reconnect_timer ≡ idle
unfolding AllDown
fire_all-gives_up_example =
    fire_all-gives_up ops (world false ∷ world false ∷ []) retrying (refl, (refl, tt)) refl refl

abbrev stopped : Node ℕ
stopped = fire ops (world true) (reset_sensor true node)

-- The timer fires, and the service is called.
stopped_and_reset : Reach ops (reset_sensor true node) (reset_service stopped).0
unfolding reset_sensor schedule_stop
stopped_and_reset = next (next here (fired (world true) (refl, refl, refl) (λ e. cc))) reset

reset_sensor-ends_example :
    let n' = (reset_service stopped).0 in
    (n'.sensor_connection_active ≡ false)
    × ((n'.reconnect_timer ≡ stopping) ⊎ ((n'.reconnect_timer ≡ idle) × (n'.sensor_client ≡ false)))
reset_sensor-ends_example =
    reset_sensor-ends ops true node (reset_service stopped).0 refl stopped_and_reset

fire-IsConnected_example :
    let n' = fire ops (world true) retrying in
    IsConnected n' × (n'.staged_config ≡ none) × (n'.reconnect_attempts_available ≡ 3)
unfolding AllAnswer
fire-IsConnected_example =
    fire-IsConnected ops (world true) retrying ((refl, refl), refl, refl, 1, refl) (λ e. cc)
      (inl refl)
