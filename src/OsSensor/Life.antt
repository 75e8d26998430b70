-- ===== src/OsSensor/Life.antt =====
-- src/os_sensor_nodelet.cpp: the life of a node after `onInit`: the turns of its thread, its timer, and the services that
-- change it, in any order. A callback, and a turn of the loop, is one step; a start that throws is none, since nothing
-- catches the exception.
pub mod Status
pub mod Answered
pub mod Ends
use Prim.Native.String.{String}
use ouster_ros.Prelude.{
  ℕ, ◌≡◌, ◌≢◌, refl, ◌∙◌, ◌⊎◌, inl, inr, Bool, true, false, Option, some, none, List, if◌then◌else◌,
  arith,
}
use ouster_ros.OsSensor.{
  Timer, idle, stopping, starting, Node, Event, connection_loop, reset_sensor, schedule_stop,
  handle_poll_client_error, read_packets, read_lidar_packet, read_imu_packet, check_init_id,
  init_id_changed, reactivate_sensor,
}
use ouster_ros.OsSensor.Lifecycle.{
  ConfigOps, World, Start, started, failed, threw, compose_config_flags, configure_sensor, connect,
  start_with, start_from_active, start_from, start, stop, retry, attempt_start, after_stop,
  fire_from, fire,
}
use ouster_ros.OsSensor.Config.Client.{stage_config, set_config_service}

-- The response is empty, and the call always succeeds.
unfoldable pub reset_service : {C : Type 0} → Node C → Node C × Bool
unfolding reset_sensor
reset_service n = (reset_sensor true n, true)

-- There is a host, asking for the active configuration does not throw, and metadata come before the time limit.
abbrev pub Answers : {C : Type 0} → World C → Type 0
Answers w = (w.has_hostname ≡ true) × (w.has_metadata ≡ true) × (w.active_config_throws ≡ false)

module _ {C : Type 0} (ops : ConfigOps C) where
  -- The thread may finish a turn that it is in while the timer that is to stop it is set.
  pub data Step (n : Node C) : Node C → Type 0 where
    turn :
        (is_legacy : Bool) (e : Event)
        → n.sensor_connection_active ≡ true
        → Step n (connection_loop is_legacy e n).0
    last_turn :
        (is_legacy : Bool) (e : Event)
        → n.reconnect_timer ≡ stopping
        → n.sensor_client ≡ true
        → Step n (connection_loop is_legacy e n).0
    fired : (w : World C) → Answers w → n.reconnect_timer ≢ idle → Step n (fire ops w n)
    reset : Step n (reset_service n).0
    set_config :
        (config_str : Option String) (parse_and_validate_config : String → Option C)
        → Step n (set_config_service config_str parse_and_validate_config n).0

  pub data Reach (n : Node C) : Node C → Type 0 where
    here : Reach n n
    next : {n' n'' : Node C} → Reach n n' → Step n' n'' → Reach n n''
