-- ===== src/OsSensor/Lifecycle/Reconnect.antt =====
-- How often the node tries to reach its sensor, and what a successful start leaves.
use ouster_ros.Prelude.{
  suc, ◌≡◌, refl, ◌∙◌, ◌≢◌, ◌⊎◌, true, false, Option, none, some, List, [], ◌∷◌, length,
  if◌then◌else◌, inl, inr, arith,
}
use ouster_ros.OsSensor.{Timer, idle, stopping, starting, Node}
use ouster_ros.OsSensor.Lifecycle.{
  ConfigOps, World, Start, started, failed, threw, compose_config_flags, configure_sensor, connect,
  start_with, start_from_active, start_from, start, retry, attempt_start, fire_from, fire,
}

module _ {C : Type 0} (ops : ConfigOps C) where
  -- What a start leaves alone, and what a started node has.
  record IsStart (w : World C) (n n' : Node C) : Type 0 where
    attempts : n'.reconnect_attempts_available ≡ n.reconnect_attempts_available
    timer : n'.reconnect_timer ≡ n.reconnect_timer
    reconnects : n'.attempt_reconnect ≡ n.attempt_reconnect

  start_with-IsStart : (w : World C) (c : C) (n : Node C) → IsStart w n (start_with ops w c n).0
  unfolding start_with configure_sensor compose_config_flags connect
  start_with-IsStart w c n = record {
    attempts = ground arith;
    timer = ground arith;
    reconnects = ground arith;
  }

  start_from_active-IsStart :
      (w : World C) (o : Option C) (n : Node C) → IsStart w n (start_from_active ops w o n).0
  unfolding start_from_active
  start_from_active-IsStart w none n = record { attempts = refl; timer = refl; reconnects = refl }
  start_from_active-IsStart w (some c) n =
      start_with-IsStart w (if n.auto_udp_allowed then ops.reset_udp_dest c else c) n

  start_from-IsStart :
      (w : World C) (o : Option C) (n : Node C) → IsStart w n (start_from ops w o n).0
  unfolding start_from
  start_from-IsStart w none n = start_from_active-IsStart w w.active_config n
  start_from-IsStart w (some c) n = start_with-IsStart w c n

  start-IsStart : (w : World C) (n : Node C) → IsStart w n (start ops w n).0
  unfolding start
  start-IsStart w n =
      let h = start_from-IsStart w n.staged_config n in
      record {
        attempts = ground (arith, h.attempts);
        timer = ground (arith, h.timer);
        reconnects = ground (arith, h.reconnects);
      }

  -- A start that throws or succeeds does not set the timer; no client means no success.
  start_without_client :
      (w : World C) (n : Node C) → w.has_client ≡ false → (start ops w n).1 ≢ started
  unfolding start start_from start_from_active start_with configure_sensor connect
  start_without_client w n e = ground arith

  -- The node after the timer has fired once for each of the answers.
  pub fire_all : List (World C) → Node C → Node C
  fire_all [] n = n
  fire_all (w ∷ ws) n = fire_all ws (fire ops w n)

-- None of the answers makes a client.
unfoldable pub AllDown : {C : Type 0} → List (World C) → Type 0
AllDown [] = Unit
AllDown (w ∷ ws) = (w.has_client ≡ false) × AllDown ws

module _ {C : Type 0} (ops : ConfigOps C) where
  retry_down :
      (w : World C) (result : Start) (n : Node C)
      → result ≢ started
      → n.reconnect_timer ≡ idle
      → let n' = retry ops w n result in
        ((n'.reconnect_timer ≡ idle)
          ⊎ ((n'.reconnect_timer ≡ starting)
              × (suc n'.reconnect_attempts_available ≡ n.reconnect_attempts_available)))
  unfolding retry
  retry_down w started n fails set = absurd (fails refl)
  retry_down w threw n fails set = inl set
  retry_down w failed n fails set = ground arith

  attempt_down :
      (w : World C) (n : Node C)
      → w.has_client ≡ false
      → n.reconnect_timer ≡ idle
      → let n' = attempt_start ops w n in
        ((n'.reconnect_timer ≡ idle)
          ⊎ ((n'.reconnect_timer ≡ starting)
              × (suc n'.reconnect_attempts_available ≡ n.reconnect_attempts_available)))
  unfolding attempt_start
  attempt_down w n down set =
      let h = start-IsStart ops w n in
      elim (retry_down w (start ops w n).1 (start ops w n).0 (start_without_client ops w n down)
        (h.timer ∙ set)) [ inl e ↦ inl e | inr (e, e') ↦ inr (e, e' ∙ h.attempts) ]

  fire_down :
      (t : Timer) (w : World C) (n : Node C)
      → t ≡ starting
      → w.has_client ≡ false
      → n.reconnect_timer ≡ idle
      → let n' = fire_from ops t w n in
        ((n'.reconnect_timer ≡ idle)
          ⊎ ((n'.reconnect_timer ≡ starting)
              × (suc n'.reconnect_attempts_available ≡ n.reconnect_attempts_available)))
  unfolding fire_from
  fire_down idle w n e down set = ground arith
  fire_down stopping w n e down set = ground arith
  fire_down starting w n e down set = attempt_down w n down set

  fire_idle :
      (t' : Timer) (w : World C) (n : Node C)
      → t' ≡ idle
      → n.reconnect_timer ≡ idle
      → (fire_from ops t' w n).reconnect_timer ≡ idle
  unfolding fire_from
  fire_idle idle w n e set = set
  fire_idle stopping w n e set = ground arith
  fire_idle starting w n e set = ground arith

  idle_stays :
      (ws : List (World C)) (n : Node C)
      → n.reconnect_timer ≡ idle
      → (fire_all ops ws n).reconnect_timer ≡ idle
  unfolding fire_all fire
  idle_stays [] n e = e
  idle_stays (w ∷ ws) n e =
      idle_stays ws (fire ops w n)
        (fire_idle n.reconnect_timer w (record n { reconnect_timer = idle }) e refl)

  -- While no client can be made, a node whose timer is set to start again, with `a` attempts left, has given up
  -- once the timer has fired `a + 1` times: no timer is set any more.
  pub fire_all-gives_up :
      (ws : List (World C)) (n : Node C)
      → AllDown ws
      → n.reconnect_timer ≡ starting
      → length ws ≡ suc n.reconnect_attempts_available
      → (fire_all ops ws n).reconnect_timer ≡ idle
  unfolding fire_all fire AllDown
  fire_all-gives_up [] n down set e = ground arith
  fire_all-gives_up (w ∷ ws) n (w_down, down) set e =
      elim (fire_down n.reconnect_timer w (record n { reconnect_timer = idle }) set w_down refl) [
        | inl stopped ↦ idle_stays ws (fire ops w n) stopped
        | inr (again, fewer) ↦ fire_all-gives_up ws (fire ops w n) down again (omega arith)
      ]

  -- A start that succeeds leaves the node active with a client, no staged configuration, and waiting for the first
  -- packet's id.
  pub start_started :
      (w : World C) (n : Node C)
      → (start ops w n).1 ≡ started
      → let n' = (start ops w n).0 in
        (n'.sensor_connection_active ≡ true)
        × (n'.sensor_client ≡ true)
        × (n'.staged_config ≡ none)
        × (n'.reset_last_init_id ≡ true)
  unfolding start start_from start_from_active start_with configure_sensor connect
      compose_config_flags
  start_started w n e = ground arith
