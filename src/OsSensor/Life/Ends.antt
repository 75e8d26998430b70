-- ===== src/OsSensor/Life/Ends.antt =====
-- A node that does not reconnect, after a stop is scheduled.
use ouster_ros.Prelude.{
  ◌≡◌, ◌≢◌, refl, sym, ◌∙◌, ◌⊎◌, inl, inr, Bool, true, false, Option, some, none, arith, Bool-cases,
  Option-cases,
}
use Prim.Native.String.{String}
use text.Mathlib.Text.{◌==◌}
use ouster_ros.OsSensor.{
  Timer, idle, stopping, starting, Node, Event, connection_loop, reset_sensor, schedule_stop,
  handle_poll_client_error, read_packets, read_lidar_packet, read_imu_packet, check_init_id,
  init_id_changed, reactivate_sensor,
}
use ouster_ros.OsSensor.Lifecycle.{ConfigOps, World, stop, after_stop, fire_from, fire}
use ouster_ros.OsSensor.Config.Client.{stage_config, set_config_service}
use ouster_ros.OsSensor.Life.{
  reset_service, Step, turn, last_turn, fired, reset, set_config, Reach, here, next,
}

-- Reconnecting is off, the thread is to stop or has stopped, and once the timer has fired there is no client.
unfoldable pub IsOff : {C : Type 0} → Node C → Type 0
IsOff n =
    (n.attempt_reconnect ≡ false)
    × (n.sensor_connection_active ≡ false)
    × ((n.reconnect_timer ≡ stopping) ⊎ ((n.reconnect_timer ≡ idle) × (n.sensor_client ≡ false)))

no_yes : false ≡ true → ⊥
no_yes e = cc

module _ {C : Type 0} (ops : ConfigOps C) where
  scheduled-IsOff :
      (force_reinit : Bool) (n : Node C)
      → n.attempt_reconnect ≡ false
      → IsOff (reset_sensor force_reinit n)
  unfolding IsOff reset_sensor schedule_stop
  scheduled-IsOff force_reinit n off = (off, refl, inl refl)

  loop-IsOff :
      (is_legacy : Bool) (e : Event) (n : Node C)
      → IsOff n
      → n.reconnect_timer ≡ stopping
      → IsOff (connection_loop is_legacy e n).0
  unfolding IsOff connection_loop handle_poll_client_error read_packets read_lidar_packet
      read_imu_packet check_init_id init_id_changed reset_sensor reactivate_sensor schedule_stop
  loop-IsOff is_legacy e n (off, inactive, timer) stops =
      (ground (arith, off), ground (arith, inactive), inl (ground (arith, stops)))

  fire_from-IsOff :
      (t : Timer) (w : World C) (n : Node C)
      → t ≡ stopping
      → n.reconnect_timer ≡ idle
      → n.attempt_reconnect ≡ false
      → IsOff (fire_from ops t w n)
  unfolding IsOff fire_from stop after_stop
  fire_from-IsOff idle w n e set off = cc
  fire_from-IsOff starting w n e set off = cc
  fire_from-IsOff stopping w n e set off = (
    ground (arith, off),
    ground (arith, off),
    inr (ground (arith, off, set), ground (arith, off)),
  )

  off_of : (n : Node C) → IsOff n → n.attempt_reconnect ≡ false
  unfolding IsOff
  off_of n h = h.0

  stopping_of : (n : Node C) → IsOff n → n.reconnect_timer ≢ idle → n.reconnect_timer ≡ stopping
  unfolding IsOff
  stopping_of n (off, inactive, inl stops) set = stops
  stopping_of n (off, inactive, inr (none_set, no_client)) set = absurd (set none_set)

  inactive_of : (n : Node C) → IsOff n → n.sensor_connection_active ≡ false
  unfolding IsOff
  inactive_of n h = h.1

  set_config-IsOff :
      (config_str : Option String) (parse : String → Option C) (n : Node C)
      → IsOff n
      → IsOff (set_config_service config_str parse n).0
  unfolding set_config_service stage_config
  set_config-IsOff none parse n h = h
  set_config-IsOff (some text) parse n h = elim (Bool-cases (text == "")) [
    | inl e ↦ rw e h
    | inr e ↦ rw e (elim (Option-cases (parse text)) [
      | inl refused ↦ rw refused h
      | inr (config, accepted) ↦
          rw accepted (scheduled-IsOff true (record n { staged_config = some config }) (off_of n h))
    ])
  ]

  Step-IsOff : {n n' : Node C} → Step ops n n' → IsOff n → IsOff n'
  unfolding reset_service fire
  Step-IsOff {n} (turn is_legacy e active) h = absurd (no_yes (sym (inactive_of n h) ∙ active))
  Step-IsOff {n} (last_turn is_legacy e stops client) h = loop-IsOff is_legacy e n h stops
  Step-IsOff {n} (fired w answers set) h =
      fire_from-IsOff n.reconnect_timer w (record n { reconnect_timer = idle })
        (stopping_of n h set) refl (off_of n h)
  Step-IsOff {n} reset h = scheduled-IsOff true n (off_of n h)
  Step-IsOff {n} (set_config config_str parse) h = set_config-IsOff config_str parse n h

  Reach-IsOff : {n n' : Node C} → IsOff n → Reach ops n n' → IsOff n'
  Reach-IsOff h here = h
  Reach-IsOff h (next r step) = Step-IsOff step (Reach-IsOff h r)

  -- Where reconnecting is off, as it is by default, a reset from the service or the loop ends the connection for good:
  -- whatever turns of the thread, timers and services follow, in any order and with any answers of the network, the
  -- thread is to stop and is never started again, and either the timer that stops the node is set, or no timer is set
  -- and there is no client.
  pub reset_sensor-ends :
      (force_reinit : Bool) (n n' : Node C)
      → n.attempt_reconnect ≡ false
      → Reach ops (reset_sensor force_reinit n) n'
      → (n'.sensor_connection_active ≡ false)
        × ((n'.reconnect_timer ≡ stopping)
            ⊎ ((n'.reconnect_timer ≡ idle) × (n'.sensor_client ≡ false)))
  unfolding IsOff
  reset_sensor-ends force_reinit n n' off r =
      let (_, inactive, timer) = Reach-IsOff (scheduled-IsOff force_reinit n off) r in
      (inactive, timer)
