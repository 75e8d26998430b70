-- ===== src/OsSensor/Lifecycle.antt =====
-- src/os_sensor_nodelet.cpp: how `OusterSensor` starts, stops, and starts again. A timer fires once.
-- The node's thread runs where `sensor_connection_active` is set, so that joining it is clearing the flag.
pub mod Reconnect
use ouster_ros.Prelude.{
  ℕ, ◌-◌, Bool, true, false, not, ◌&&◌, Option, none, some, ltb, if◌then◌else◌,
}
use ouster_ros.OsSensor.{Timer, idle, stopping, starting, Node}

-- The SDK's questions about a configuration, and `config.udp_dest.reset()`.
pub record ConfigOps (C : Type 0) : Type 0 where
  pub has_udp_dest : C → Bool
  pub in_multicast : C → Bool
  pub reset_udp_dest : C → C

-- What the parameters, the sensor and the network answer during one start: the sensor's active configuration, `none`
-- where it is not given, and whether asking for it throws then; whether the sensor took the new one, whether a client was
-- made, and whether metadata came before the time limit.
pub record World (C : Type 0) : Type 0 where
  pub has_hostname : Bool
  pub active_config : Option C
  pub active_config_throws : Bool
  pub takes_config : Bool
  pub has_client : Bool
  pub has_metadata : Bool
  pub max_failed_reconnect_attempts : ℕ

pub data Start : Type 0 where
  started failed threw : Start

pub record ConfigFlags : Type 0 where
  pub udp_dest_auto : Bool
  pub force_reinit : Bool
  pub persist : Bool

module _ {C : Type 0} (ops : ConfigOps C) where
  unfoldable pub compose_config_flags : C → Node C → Node C × ConfigFlags
  compose_config_flags config n = (
    record n { force_sensor_reinit = false; persist_config = false },
    record {
      udp_dest_auto = not (ops.has_udp_dest config);
      force_reinit = n.force_sensor_reinit;
      persist = n.persist_config;
    },
  )

  -- The result, `none` for an exception, and the configuration that is left in the argument.
  unfoldable pub configure_sensor : World C → C → Node C → Node C × Option Bool × C
  unfolding compose_config_flags
  configure_sensor w config n =
      if ops.has_udp_dest config && (ops.in_multicast config && not n.mtp_main)
      then elim w.active_config [
        | none ↦ (n, if w.active_config_throws then none else some false, config)
        | some active ↦ (n, some true, active)
      ]
      else ((compose_config_flags config n).0, some w.takes_config, config)

  -- From `reset_last_init_id = true` on.
  unfoldable pub connect : World C → Node C → Node C × Start
  connect w n =
      if not w.has_client
      then (record n { reset_last_init_id = true; sensor_client = false }, failed)
      else if not w.has_metadata
      then (record n { reset_last_init_id = true; sensor_client = true }, threw)
      else (
        record n {
          reset_last_init_id = true;
          sensor_client = true;
          sensor_connection_active = true;
        },
        started,
      )

  unfoldable pub start_with : World C → C → Node C → Node C × Start
  unfolding configure_sensor connect
  start_with w config n =
      let (n', result, config') = configure_sensor w config n in
      elim result [
        | none ↦ (n', threw)
        | some ok ↦ (if ok then connect w (record n' { staged_config = none }) else (n', failed))
      ]

  unfoldable pub start_from_active : World C → Option C → Node C → Node C × Start
  unfolding start_with
  start_from_active w none n = (n, failed)
  start_from_active w (some config) n =
      start_with w (if n.auto_udp_allowed then ops.reset_udp_dest config else config) n

  unfoldable pub start_from : World C → Option C → Node C → Node C × Start
  unfolding start_with start_from_active
  start_from w none n = start_from_active w w.active_config n
  start_from w (some config) n = start_with w config n

  unfoldable pub start : World C → Node C → Node C × Start
  unfolding start_from
  start w n = if w.has_hostname then start_from w n.staged_config n else (n, threw)

  unfoldable pub stop : Node C → Node C
  stop n = record n { sensor_connection_active = false; sensor_client = false }

  unfoldable pub retry : World C → Node C → Start → Node C
  retry w n started = record n { reconnect_attempts_available = w.max_failed_reconnect_attempts }
  retry w n threw = n
  retry w n failed =
      if n.attempt_reconnect && ltb 0 n.reconnect_attempts_available
      then record n {
        reconnect_attempts_available = n.reconnect_attempts_available - 1;
        reconnect_timer = starting;
      }
      else n

  unfoldable pub attempt_start : World C → Node C → Node C
  unfolding start retry
  attempt_start w n = let (n', result) = start w n in retry w n' result

  unfoldable pub after_stop : World C → Node C → Node C
  unfolding attempt_start
  after_stop w n =
      if n.attempt_reconnect && ltb 0 n.reconnect_attempts_available
      then attempt_start w
          (record n { reconnect_attempts_available = n.reconnect_attempts_available - 1 })
      else n

  -- The callback of `reconnect_timer`, if it is set.
  unfoldable pub fire_from : Timer → World C → Node C → Node C
  unfolding stop after_stop attempt_start
  fire_from idle w n = n
  fire_from stopping w n = after_stop w (stop n)
  fire_from starting w n = attempt_start w n

  unfoldable pub fire : World C → Node C → Node C
  unfolding fire_from
  fire w n = fire_from n.reconnect_timer w (record n { reconnect_timer = idle })
