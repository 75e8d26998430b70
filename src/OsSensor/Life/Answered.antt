-- ===== src/OsSensor/Life/Answered.antt =====
-- Timers that fire where the sensor and the network answer.
use ouster_ros.Prelude.{
  ◌&&◌, ltb, ◌-◌, ◌<◌, ◌≡◌, ◌≢◌, refl, ◌∙◌, ◌⊎◌, inl, inr, true, Option, some, none, if◌then◌else◌,
  arith,
}
use ouster_ros.OsSensor.{Timer, idle, stopping, starting, Node}
use ouster_ros.OsSensor.Lifecycle.{
  ConfigOps, World, Start, started, compose_config_flags, configure_sensor, connect, start_with,
  start_from_active, start_from, start, stop, retry, attempt_start, after_stop, fire_from, fire,
}
use ouster_ros.OsSensor.Life.Status.{IsConnected}

-- The sensor gives its configuration and takes one, and a client is made.
unfoldable pub AllAnswer : {C : Type 0} → World C → Type 0
AllAnswer {C} w =
    ((w.has_hostname ≡ true) × (w.has_metadata ≡ true))
    × (w.takes_config ≡ true)
    × (w.has_client ≡ true)
    × (c : C) × (w.active_config ≡ some c)

module _ {C : Type 0} (ops : ConfigOps C) where
  -- A start that succeeds, and what it leaves.
  Started : Node C → Node C × Start → Type 0
  Started n (n', result) =
      (result ≡ started)
      × (n'.sensor_connection_active ≡ true)
      × (n'.sensor_client ≡ true)
      × (n'.staged_config ≡ none)
      × (n'.reconnect_timer ≡ n.reconnect_timer)

  start_with-Started :
      (w : World C) (c : C) (n : Node C) → AllAnswer w → Started n (start_with ops w c n)
  unfolding AllAnswer Started start_with configure_sensor compose_config_flags connect
  start_with-Started w c n ((host, metadata), takes, client, active, e) = (
    ground (arith, metadata, takes, client, e),
    ground (arith, metadata, takes, client, e),
    ground (arith, metadata, takes, client, e),
    ground (arith, metadata, takes, client, e),
    ground (arith, metadata, takes, client, e),
  )

  start_from_active-Started :
      (w : World C) (o : Option C) (n : Node C) (active : C)
      → AllAnswer w
      → o ≡ some active
      → Started n (start_from_active ops w o n)
  unfolding start_from_active
  start_from_active-Started w none n active h e = cc
  start_from_active-Started w (some c) n active h e =
      start_with-Started w (if n.auto_udp_allowed then ops.reset_udp_dest c else c) n h

  start_from-Started :
      (w : World C) (o : Option C) (n : Node C) → AllAnswer w → Started n (start_from ops w o n)
  unfolding AllAnswer start_from
  start_from-Started w (some c) n h = start_with-Started w c n h
  start_from-Started w none n (answers, takes, client, c, e) =
      start_from_active-Started w w.active_config n c (answers, takes, client, c, e) e

  start-Started : (w : World C) (n : Node C) → AllAnswer w → Started n (start ops w n)
  unfolding AllAnswer start
  start-Started w n h = rw (h.0.0) (start_from-Started w n.staged_config n h)

  attempt_start-IsConnected :
      (w : World C) (n : Node C)
      → AllAnswer w
      → n.reconnect_timer ≡ idle
      → let n' = attempt_start ops w n in
        IsConnected n'
        × (n'.staged_config ≡ none)
        × (n'.reconnect_attempts_available ≡ w.max_failed_reconnect_attempts)
  unfolding Started attempt_start retry IsConnected
  attempt_start-IsConnected w n h set =
      let (e, active, client, staged, timer) = start-Started w n h in
      rw e ((active, client, timer ∙ set), staged, refl)

  after_stop-IsConnected :
      (w : World C) (n : Node C)
      → AllAnswer w
      → n.attempt_reconnect ≡ true
      → 0 < n.reconnect_attempts_available
      → n.reconnect_timer ≡ idle
      → let n' = after_stop ops w n in
        IsConnected n'
        × (n'.staged_config ≡ none)
        × (n'.reconnect_attempts_available ≡ w.max_failed_reconnect_attempts)
  unfolding after_stop
  after_stop-IsConnected w n h on left set =
      let again =
        attempt_start-IsConnected w
          (record n { reconnect_attempts_available = n.reconnect_attempts_available - 1 }) h set in
      let test : (n.attempt_reconnect && ltb 0 n.reconnect_attempts_available) ≡ true =
        ground (arith, on, left) in
      rw test again

  fire_from-IsConnected :
      (t : Timer) (w : World C) (n : Node C)
      → AllAnswer w
      → t ≢ idle
      → (t ≡ starting) ⊎ ((n.attempt_reconnect ≡ true) × (0 < n.reconnect_attempts_available))
      → n.reconnect_timer ≡ idle
      → let n' = fire_from ops t w n in
        IsConnected n'
        × (n'.staged_config ≡ none)
        × (n'.reconnect_attempts_available ≡ w.max_failed_reconnect_attempts)
  unfolding fire_from stop
  fire_from-IsConnected idle w n h running able set = absurd (running refl)
  fire_from-IsConnected starting w n h running able set = attempt_start-IsConnected w n h set
  fire_from-IsConnected stopping w n h running (inl e) set = absurd (cc e)
  fire_from-IsConnected stopping w n h running (inr (on, left)) set =
      after_stop-IsConnected w (stop ops n) h on left set

  -- A node that waits to start again, or to stop with reconnecting on and attempts left, is connected once its timer
  -- has fired, if there is a host, the sensor gives its configuration and takes one, a client is made and metadata
  -- come in time: no configuration stays staged, and it has all its attempts again.
  pub fire-IsConnected :
      (w : World C) (n : Node C)
      → AllAnswer w
      → n.reconnect_timer ≢ idle
      → (n.reconnect_timer ≡ starting)
        ⊎ ((n.attempt_reconnect ≡ true) × (0 < n.reconnect_attempts_available))
      → let n' = fire ops w n in
        IsConnected n'
        × (n'.staged_config ≡ none)
        × (n'.reconnect_attempts_available ≡ w.max_failed_reconnect_attempts)
  unfolding fire
  fire-IsConnected w n h running able =
      fire_from-IsConnected n.reconnect_timer w (record n { reconnect_timer = idle }) h running able
        refl
