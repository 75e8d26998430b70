-- ===== src/LidarHandler/Handler/Order/Calls.antt =====
-- The calls by which `process_scans` hands scans on, and what no packet changes of the handler.
use mathlib.Core.List.{append_assoc, append-nil}
use ouster_ros.Prelude.{
  ℕ, ◌≡◌, refl, sym, ap, subst, ◌∙◌, inl, inr, Bool, some, some_inj, >>=-eq-some, List, [], ◌∷◌,
  ◌++◌, map, ◌&&◌, Bool-cases, arith,
}
use ouster_ros.RingBuffer.{is_full}
use ouster_ros.LidarHandler.Sdk.{Sdk}
use ouster_ros.LidarHandler.Handler.{
  Config, Handler, Delivery, TimestampMode, ros_time, ptp_1588, sensor_time, estimate,
  lidar_handler, lidar_handler_ros_time, lidar_handler_sensor_time, lidar_handler_sensor_time_ptp,
  has_enough_columns, finish_packet, lidar_packet_accumlator, prepare, process_scans,
}
use ouster_ros.LidarHandler.Handler.Queue.{queued, IsReady}
use ouster_ros.LidarHandler.Handler.Process.{process_scans-queued}

-- The scan that `process_scans` hands on, if one waits.
abbrev pub first {ℓ} : {A : Type ℓ} → List A → List A
first [] = []
first (s ∷ rest) = s ∷ []

module _ (k : Sdk) where
  open k use {Packet, Scan}

  -- The calls by which a handler in the given state hands a scan on, after the color stage: one for each of the
  -- handlers, in order.
  pub calls_of : Handler k → Scan → List ℕ → List (Delivery k)
  calls_of h s handlers =
      map
        (λ n. record {
          handler = n;
          scan = (prepare k h s).1;
          ts = h.lidar_scan_estimated_ts;
          msg_ts = h.lidar_scan_estimated_msg_ts;
        })
        handlers

  -- The calls are those for each of the scans, in order, every one in a state in which its scan is the oldest that
  -- waits.
  unfoldable pub HandedOn : Config k → List Scan → List (Delivery k) → Type 0
  HandedOn c [] calls = calls ≡ []
  HandedOn c (s ∷ out) calls =
      (h : Handler k) × (rest : List (Delivery k)) × (h.config ≡ c)
      × (first (queued k h) ≡ s ∷ [])
      × (calls ≡ calls_of h s c.lidar_scan_handlers ++ rest)
      × HandedOn c out rest

  lidar_handler-config :
      (m : TimestampMode) (h : Handler k) (p : Packet) (s : Scan) (h' : Handler k) (s' : Scan)
      (c : Bool)
      → lidar_handler k m h p s ≡ some (h', s', c)
      → h'.config ≡ h.config
  unfolding lidar_handler estimate lidar_handler_ros_time lidar_handler_sensor_time
      lidar_handler_sensor_time_ptp
  lidar_handler-config ros_time h p s h' s' c e = ground arith
  lidar_handler-config ptp_1588 h p s h' s' c e = ground arith
  lidar_handler-config sensor_time h p s h' s' c e = ground arith

  finish_packet-config :
      (head : ℕ) (h : Handler k) (s : Scan) (c : Bool)
      → (finish_packet k head (h, s, c)).0.config ≡ h.config
  unfolding finish_packet
  finish_packet-config head h s c = elim (Bool-cases (c && has_enough_columns k h s)) [
    | inl e ↦ rw e refl
    | inr e ↦ rw e refl
  ]

  pub accumulator-config :
      (p : Packet) (h h' : Handler k) (r : Bool)
      → lidar_packet_accumlator k p h ≡ some (h', r)
      → h'.config ≡ h.config
  unfolding lidar_packet_accumlator
  accumulator-config p h h' r e = elim (Bool-cases (is_full h.ring_buffer)) [
    | inl full ↦ ap (λ (o : Handler k × Bool). o.0.config) (sym (some_inj (rw full at e)))
    | inr room ↦
        let head = h.ring_buffer.write_idx in
        let ((h1, s, c), handled, same) =
          >>=-eq-some (lidar_handler k h.config.mode h p (h.lidar_scans head))
            (λ out. some (finish_packet k head out)) (rw room at e) in
        ap (λ (o : Handler k × Bool). o.0.config) (sym (some_inj same))
        ∙ finish_packet-config head h1 s c
        ∙ lidar_handler-config h.config.mode h p (h.lidar_scans head) h1 s c handled
  ]

  pub HandedOn-append :
      (c : Config k) (out more : List Scan) (calls new : List (Delivery k))
      → HandedOn c out calls
      → HandedOn c more new
      → HandedOn c (out ++ more) (calls ++ new)
  unfolding HandedOn
  HandedOn-append c [] more calls new e h = subst (λ l. HandedOn c more (l ++ new)) (sym e) h
  HandedOn-append c (s ∷ out) more calls new (h1, rest, same, oldest, split, tail) h = (
    h1,
    rest ++ new,
    same,
    oldest,
    ap (λ l. l ++ new) split ∙ append_assoc (calls_of h1 s c.lidar_scan_handlers) rest new,
    HandedOn-append c out more rest new tail h,
  )

  one-HandedOn :
      (c : Config k) (h : Handler k) (s : Scan) (calls : List (Delivery k))
      → h.config ≡ c
      → first (queued k h) ≡ s ∷ []
      → calls ≡ calls_of h s h.config.lidar_scan_handlers
      → HandedOn c (s ∷ []) calls
  unfolding HandedOn
  one-HandedOn c h s calls same oldest called = (
    h,
    [],
    same,
    oldest,
    called ∙ ap (λ (d : Config k). calls_of h s d.lidar_scan_handlers) same ∙ sym (append-nil _),
    refl,
  )

  -- One call hands on the oldest scan, if one waits.
  pub process-HandedOn :
      (c : Config k) (h : Handler k)
      → IsReady k h
      → h.config ≡ c
      → HandedOn c (first (queued k h)) (process_scans k h).1
  unfolding HandedOn calls_of
  process-HandedOn c h i same =
      let (_, case) = process_scans-queued k h i in
      elim case [
        | inl (nothing, _, none_called) ↦ rw nothing none_called
        | inr (s, rest, q, _, called) ↦
            subst (λ l. HandedOn c l (process_scans k h).1) (sym (ap first q))
              (one-HandedOn c h s (process_scans k h).1 same (ap first q) called)
      ]
