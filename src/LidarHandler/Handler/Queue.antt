-- ===== src/LidarHandler/Handler/Queue.antt =====
-- The packet handler as a queue of scans: what the accumulator appends, and what `process_scans`
-- takes.
use ouster_ros.Prelude.{
  ℕ, ◌+◌, ◌<◌, ◌≡◌, refl, sym, ap, ap₂, subst, ◌∙◌, ◌⊎◌, inl, inr, Bool, true, false, some, List,
  [], ◌∷◌, ◌++◌, some_inj, >>=-eq-some, arith, Bool-cases, ◌&&◌,
}
use ouster_ros.RingBuffer.{Buffer, size, is_full}
use ouster_ros.RingBuffer.Invariant.{IsValid, write-IsValid, is_empty_full_iff, size-lt-capacity}
use ouster_ros.RingBuffer.Refine.{
  update_self, contents, capacity-write, contents-update, contents-write,
}
use ouster_ros.LidarHandler.Sdk.{Sdk}
use ouster_ros.LidarHandler.Handler.{
  TimestampMode, ros_time, ptp_1588, sensor_time, Handler, estimate, lidar_handler,
  lidar_handler_ros_time, lidar_handler_sensor_time, lidar_handler_sensor_time_ptp,
  has_enough_columns, lidar_packet_accumlator, lidar_scan_count, finish_packet,
}

module _ (k : Sdk) where
  open k use {Packet, Scan}

  -- The scans that wait for `process_scans`, oldest first.
  unfoldable pub queued : Handler k → List Scan
  queued h = contents h.lidar_scans h.ring_buffer

  -- The ring has its ten slots, and its heads lie inside.
  pub record IsReady (h : Handler k) : Type 0 where
    pub ring : IsValid h.ring_buffer
    pub slots : h.ring_buffer.capacity ≡ lidar_scan_count

  -- What no packet handler changes.
  record Keeps (h h' : Handler k) : Type 0 where
    ring_same : h'.ring_buffer ≡ h.ring_buffer
    scans_same : h'.lidar_scans ≡ h.lidar_scans

  estimate-Keeps :
      (h : Handler k) (ts_v : List ℕ) (h' : Handler k) → estimate k h ts_v ≡ some h' → Keeps h h'
  unfolding estimate
  estimate-Keeps h ts_v h' e = ground arith

  lidar_handler-Keeps :
      (m : TimestampMode) (h : Handler k) (p : Packet) (s : Scan) (h' : Handler k) (s' : Scan)
      (c : Bool)
      → lidar_handler k m h p s ≡ some (h', s', c)
      → Keeps h h'
  unfolding lidar_handler estimate lidar_handler_ros_time lidar_handler_sensor_time
      lidar_handler_sensor_time_ptp
  lidar_handler-Keeps ros_time h p s h' s' c e = ground arith
  lidar_handler-Keeps ptp_1588 h p s h' s' c e = ground arith
  lidar_handler-Keeps sensor_time h p s h' s' c e = ground arith

  -- The packet's scan was finished by the packet handler, with enough columns, while the ring had
  -- room.
  pub record Accepts (packet : Packet) (h : Handler k) (s : Scan) : Type 0 where
    pub after : Handler k
    pub room : is_full h.ring_buffer ≡ false
    pub complete :
        lidar_handler k h.config.mode h packet (h.lidar_scans h.ring_buffer.write_idx)
        ≡ some (after, s, true)
    pub columns : has_enough_columns k after s ≡ true

  room_of :
      (h : Handler k)
      → IsReady h
      → is_full h.ring_buffer ≡ false
      → size h.ring_buffer + 1 < h.ring_buffer.capacity
  room_of h i e =
      ground (arith, is_empty_full_iff h.ring_buffer i.ring, size-lt-capacity h.ring_buffer i.ring)

  -- The scan goes to its slot, and the ring moves on if it is accepted.
  finish_packet-queued :
      (h : Handler k) (s : Scan) (c : Bool)
      → IsReady h
      → is_full h.ring_buffer ≡ false
      → let (h', r) = finish_packet k h.ring_buffer.write_idx (h, s, c) in
        IsReady h'
        × (((r ≡ true)
              × (c ≡ true)
              × (has_enough_columns k h s ≡ true)
              × (queued h' ≡ queued h ++ s ∷ []))
            ⊎ ((r ≡ false) × (queued h' ≡ queued h)))
  unfolding finish_packet queued
  finish_packet-queued h s c i e = elim (Bool-cases (c && has_enough_columns k h s)) [
    | inl yea ↦ rw yea (
      record {
        ring = write-IsValid 1 h.ring_buffer i.ring;
        slots = capacity-write 1 h.ring_buffer ∙ i.slots;
      },
      inl (
        refl,
        ground arith,
        ground arith,
        contents-write _ h.ring_buffer i.ring (room_of h i e)
            ∙ ap₂ (λ q a. q ++ a ∷ []) (contents-update h.lidar_scans h.ring_buffer s i.ring)
                (update_self h.lidar_scans h.ring_buffer.write_idx s),
      ),
    )
    | inr nay ↦ rw nay (
      record { ring = i.ring; slots = i.slots },
      inr (refl, contents-update h.lidar_scans h.ring_buffer s i.ring),
    )
  ]

  abbrev Outcome : Packet → Handler k → Handler k × Bool → Type 0
  Outcome packet h (h', r) =
      IsReady h'
      × (((r ≡ true) × (s : Scan) × Accepts packet h s × (queued h' ≡ queued h ++ s ∷ []))
          ⊎ ((r ≡ false) × (queued h' ≡ queued h)))

  queued-Keeps : (h h' : Handler k) → Keeps h h' → queued h' ≡ queued h
  unfolding queued
  queued-Keeps h h' same = ap₂ contents same.scans_same same.ring_same

  finished :
      (packet : Packet) (h h' : Handler k) (s : Scan) (c : Bool)
      → IsReady h
      → is_full h.ring_buffer ≡ false
      → lidar_handler k h.config.mode h packet (h.lidar_scans h.ring_buffer.write_idx)
        ≡ some (h', s, c)
      → Outcome packet h (finish_packet k h.ring_buffer.write_idx (h', s, c))
  finished packet h h' s c i room handled =
      subst (λ head. Outcome packet h (finish_packet k head (h', s, c)))
        (ap (λ (b : Buffer). b.write_idx) same.ring_same)
        (let (ok, case) = finish_packet-queued h' s c ready (ap is_full same.ring_same ∙ room) in
          elim case [
            | inl (yea, done, enough, more) ↦ (
              ok,
              inl (
                yea,
                s,
                record {
                  after = h';
                  room = room;
                  complete = handled ∙ ap (λ b. some (h', s, b)) done;
                  columns = enough;
                },
                more ∙ ap (λ q. q ++ s ∷ []) (queued-Keeps h h' same),
              ),
            )
            | inr (nay, kept) ↦ (ok, inr (nay, kept ∙ queued-Keeps h h' same))
          ])
    where
      same : Keeps h h'
      same =
          lidar_handler-Keeps h.config.mode h packet (h.lidar_scans h.ring_buffer.write_idx) h' s c
            handled

      ready : IsReady h'
      ready = record {
        ring = subst IsValid (sym same.ring_same) i.ring;
        slots = ap (λ (b : Buffer). b.capacity) same.ring_same ∙ i.slots;
      }

  -- The accumulator keeps the ring in order, and appends to the queue the one scan that it accepts;
  -- where it accepts none, the queue is as it was.
  pub lidar_packet_accumlator-queued :
      (packet : Packet) (h : Handler k) {h' : Handler k} {r : Bool}
      → IsReady h
      → lidar_packet_accumlator k packet h ≡ some (h', r)
      → IsReady h'
        × (((r ≡ true) × (s : Scan) × Accepts packet h s × (queued h' ≡ queued h ++ s ∷ []))
            ⊎ ((r ≡ false) × (queued h' ≡ queued h)))
  unfolding lidar_packet_accumlator
  lidar_packet_accumlator-queued packet h i e = elim (Bool-cases (is_full h.ring_buffer)) [
    | inl full ↦ subst (Outcome packet h) (some_inj (rw full at e)) (i, inr (refl, refl))
    | inr room ↦
        let ((h1, s, c), handled, same) =
          >>=-eq-some
            (lidar_handler k h.config.mode h packet (h.lidar_scans h.ring_buffer.write_idx))
            (λ out. some (finish_packet k h.ring_buffer.write_idx out)) (rw room at e) in
        subst (Outcome packet h) (some_inj same) (finished packet h h1 s c i room handled)
  ]
