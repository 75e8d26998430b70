-- ===== src/OsSensor/Life/Status.antt =====
-- The states of a node that is run: connected, waiting for its timer, or without either.
use ouster_ros.Prelude.{
  >>=-eq-some, some_inj, Option-cases, subst, Bool-cases, ◌&&◌, ltb, ◌-◌, ◌≡◌, ◌≢◌, refl, ◌⊎◌, inl,
  inr, Bool, true, false, Option, some, none, if◌then◌else◌, arith,
}
use ouster_ros.OsSensor.{
  Timer, idle, stopping, starting, Node, Event, connection_loop, reset_sensor, schedule_stop,
  handle_poll_client_error, read_packets, read_lidar_packet, read_imu_packet, check_init_id,
  init_id_changed, reactivate_sensor,
}
use ouster_ros.OsSensor.Lifecycle.{
  ConfigOps, World, Start, started, failed, threw, compose_config_flags, configure_sensor, connect,
  start_with, start_from_active, start_from, start, stop, retry, attempt_start, after_stop,
  fire_from, fire,
}
use Prim.Native.String.{String}
use text.Mathlib.Text.{◌==◌}
use ouster_ros.Ros.{Params}
use ouster_ros.OsSensor.Config.{Sdk, SensorConfig, Parsed}
use ouster_ros.OsSensor.Config.Parse.{parse_config_from_ros_parameters}
use ouster_ros.OsSensor.OnInit.{on_init, config_ops, with_parameters, configured, unparsed}
use ouster_ros.OsSensor.Config.Client.{stage_config, set_config_service}
use ouster_ros.OsSensor.Life.{
  Answers, reset_service, Step, turn, last_turn, fired, reset, set_config, Reach, here, next,
}

module _ {C : Type 0} where
  unfoldable pub IsConnected : Node C → Type 0
  IsConnected n =
      (n.sensor_connection_active ≡ true) × (n.sensor_client ≡ true) × (n.reconnect_timer ≡ idle)

  pub IsWaiting : Node C → Type 0
  IsWaiting n = (n.sensor_connection_active ≡ false) × (n.reconnect_timer ≢ idle)

  pub HasGivenUp : Node C → Type 0
  HasGivenUp n =
      (n.sensor_connection_active ≡ false)
      × (n.reconnect_timer ≡ idle)
      × ((n.attempt_reconnect ≡ false) ⊎ (n.reconnect_attempts_available ≡ 0))

  pub HasStatus : Node C → Type 0
  HasStatus n = IsConnected n ⊎ IsWaiting n ⊎ HasGivenUp n

module _ {C : Type 0} (ops : ConfigOps C) where
  -- How a start ends that does not throw.
  Ended : Node C → Node C × Start → Type 0
  Ended n (n', result) =
      (n'.reconnect_timer ≡ n.reconnect_timer)
      × (((result ≡ started) × (n'.sensor_connection_active ≡ true) × (n'.sensor_client ≡ true))
          ⊎ ((result ≡ failed) × (n'.sensor_connection_active ≡ n.sensor_connection_active)))

  start_with-Ended : (w : World C) (c : C) (n : Node C) → Answers w → Ended n (start_with ops w c n)
  unfolding Ended start_with configure_sensor compose_config_flags connect
  start_with-Ended w c n (host, metadata, given) =
      (ground (arith, metadata, given), ground (arith, metadata, given))

  start_from_active-Ended :
      (w : World C) (o : Option C) (n : Node C) → Answers w → Ended n (start_from_active ops w o n)
  unfolding Ended start_from_active
  start_from_active-Ended w none n h = (refl, inr (refl, refl))
  start_from_active-Ended w (some c) n h =
      start_with-Ended w (if n.auto_udp_allowed then ops.reset_udp_dest c else c) n h

  start_from-Ended :
      (w : World C) (o : Option C) (n : Node C) → Answers w → Ended n (start_from ops w o n)
  unfolding start_from
  start_from-Ended w none n h = start_from_active-Ended w w.active_config n h
  start_from-Ended w (some c) n h = start_with-Ended w c n h

  start-Ended : (w : World C) (n : Node C) → Answers w → Ended n (start ops w n)
  unfolding start
  start-Ended w n h = rw (h.0) (start_from-Ended w n.staged_config n h)

  retry-HasStatus :
      (w : World C) (result : Start) (n n' : Node C)
      → Ended n (n', result)
      → n.sensor_connection_active ≡ false
      → n.reconnect_timer ≡ idle
      → HasStatus (retry ops w n' result)
  unfolding Ended HasStatus IsConnected IsWaiting HasGivenUp retry
  retry-HasStatus w started n n' h inactive set = inl (ground (arith, h, set))
  retry-HasStatus w threw n n' (timer, h) inactive set = ground (arith, h)
  retry-HasStatus w failed n n' (timer, h) inactive set = ground (arith, h, set, timer, inactive)

  attempt_start-HasStatus :
      (w : World C) (n : Node C)
      → Answers w
      → n.sensor_connection_active ≡ false
      → n.reconnect_timer ≡ idle
      → HasStatus (attempt_start ops w n)
  unfolding attempt_start
  attempt_start-HasStatus w n h inactive set =
      retry-HasStatus w (start ops w n).1 n (start ops w n).0 (start-Ended w n h) inactive set

  after_stop-HasStatus :
      (w : World C) (n : Node C)
      → Answers w
      → n.sensor_connection_active ≡ false
      → n.reconnect_timer ≡ idle
      → HasStatus (after_stop ops w n)
  unfolding after_stop HasStatus HasGivenUp
  after_stop-HasStatus w n h inactive set =
      let again =
        attempt_start-HasStatus w
          (record n { reconnect_attempts_available = n.reconnect_attempts_available - 1 }) h
          inactive set in
      elim (Bool-cases (n.attempt_reconnect && ltb 0 n.reconnect_attempts_available)) [
        | inl e ↦ rw e again
        | inr e ↦ rw e (inr (inr (inactive, set, ground (arith, e))))
      ]

  fire_from-HasStatus :
      (t : Timer) (w : World C) (n : Node C)
      → Answers w
      → t ≢ idle
      → n.sensor_connection_active ≡ false
      → n.reconnect_timer ≡ idle
      → HasStatus (fire_from ops t w n)
  unfolding fire_from stop
  fire_from-HasStatus idle w n h running inactive set = absurd (running refl)
  fire_from-HasStatus stopping w n h running inactive set =
      after_stop-HasStatus w (stop ops n) h refl set
  fire_from-HasStatus starting w n h running inactive set =
      attempt_start-HasStatus w n h inactive set

  inactive_of :
      (n : Node C) → n.reconnect_timer ≢ idle → HasStatus n → n.sensor_connection_active ≡ false
  unfolding HasStatus IsConnected IsWaiting HasGivenUp
  inactive_of n running (inl connected) = absurd (running connected.2)
  inactive_of n running (inr (inl waiting)) = waiting.0
  inactive_of n running (inr (inr up)) = up.0

  scheduled-IsWaiting : (n : Node C) → IsWaiting (reset_sensor true n)
  unfolding IsWaiting reset_sensor schedule_stop
  scheduled-IsWaiting n = (refl, ground arith)

  -- A turn of the loop leaves what the status rests on alone, or schedules a stop.
  turn_lem :
      (is_legacy : Bool) (e : Event) (n : Node C)
      → let n' = (connection_loop is_legacy e n).0 in
        ((n'.sensor_connection_active ≡ n.sensor_connection_active)
          × (n'.sensor_client ≡ n.sensor_client)
          × (n'.reconnect_timer ≡ n.reconnect_timer))
        ⊎ ((n'.sensor_connection_active ≡ false) × (n'.reconnect_timer ≡ stopping))
  unfolding connection_loop handle_poll_client_error read_packets read_lidar_packet read_imu_packet
      check_init_id init_id_changed reset_sensor reactivate_sensor schedule_stop
  turn_lem is_legacy e n = ground arith

  set_config_service-HasStatus :
      (config_str : Option String) (parse : String → Option C) (n : Node C)
      → HasStatus n
      → HasStatus (set_config_service config_str parse n).0
  unfolding set_config_service stage_config HasStatus
  set_config_service-HasStatus none parse n h = h
  set_config_service-HasStatus (some text) parse n h = elim (Bool-cases (text == "")) [
    | inl e ↦ rw e h
    | inr e ↦ rw e (elim (Option-cases (parse text)) [
      | inl refused ↦ rw refused h
      | inr (config, accepted) ↦
          rw accepted (inr (inl (scheduled-IsWaiting (record n { staged_config = some config }))))
    ])
  ]

  Step-HasStatus : {n n' : Node C} → Step ops n n' → HasStatus n → HasStatus n'
  unfolding HasStatus IsConnected IsWaiting HasGivenUp reset_service fire
  Step-HasStatus {n} (turn is_legacy e active) h = elim (turn_lem is_legacy e n) [
    | inl same ↦ ground (arith, same, active, h)
    | inr (inactive, set) ↦ inr (inl (inactive, ground (arith, set)))
  ]
  Step-HasStatus {n} (last_turn is_legacy e set client) h = elim (turn_lem is_legacy e n) [
    | inl same ↦ ground (arith, same, set, h)
    | inr (inactive, again) ↦ inr (inl (inactive, ground (arith, again)))
  ]
  Step-HasStatus {n} (fired w answers set) h =
      fire_from-HasStatus n.reconnect_timer w (record n { reconnect_timer = idle }) answers set
        (inactive_of n set h) refl
  Step-HasStatus {n} reset h = inr (inl (scheduled-IsWaiting n))
  Step-HasStatus {n} (set_config config_str parse) h =
      set_config_service-HasStatus config_str parse n h

  Reach-HasStatus : {n n' : Node C} → HasStatus n → Reach ops n n' → HasStatus n'
  Reach-HasStatus h here = h
  Reach-HasStatus h (next r step) = Step-HasStatus step (Reach-HasStatus h r)

module _ {R : Type 0} (sdk : Sdk R) (p : Params R) where
  -- A node that is loaded with accepted parameters that name a host is, after any sequence of turns of its thread, of
  -- timers and of services in which no start throws, in one of three states: it is connected, its thread runs with
  -- a client and no timer is set; or its thread is stopped and a timer is set; or no timer is set, reconnecting is off
  -- or has no attempts left, and the thread is stopped. The node that is loaded has no thread and no timer.
  pub on_init-HasStatus :
      (w : World (SensorConfig sdk)) (t : Parsed sdk) (n n' n'' : Node (SensorConfig sdk))
      → Answers (with_parameters sdk p w)
      → n.sensor_connection_active ≡ false
      → n.reconnect_timer ≡ idle
      → on_init sdk p w t n ≡ some n'
      → Reach (config_ops sdk p) n' n''
      → HasStatus n''
  unfolding on_init
  on_init-HasStatus w t n n' n'' answers inactive set loaded r =
      let (t', parsed, made) =
        >>=-eq-some (parse_config_from_ros_parameters sdk p (unparsed sdk p n t)) _ loaded in
      let first : HasStatus
          (attempt_start (config_ops sdk p) (with_parameters sdk p w) (configured sdk p t' n)) =
        attempt_start-HasStatus (config_ops sdk p) (with_parameters sdk p w) (configured sdk p t' n)
          answers inactive set in
      Reach-HasStatus (config_ops sdk p) (subst HasStatus (some_inj made) first) r
