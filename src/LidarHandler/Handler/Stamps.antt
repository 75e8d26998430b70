-- ===== src/LidarHandler/Handler/Stamps.antt =====
-- The timestamp that a delivered scan carries. The handler keeps one estimate, not one for each
-- slot, so a scan that waits is handed on with the estimate of the newest finished scan.
use ouster_ros.Prelude.{
  ℕ, ◌≡◌, ap, ◌∙◌, inl, inr, Bool, true, false, some, List, [], ◌∷◌, ◌++◌, map, arith,
}
use ouster_ros.RingBuffer.{is_full}
use ouster_ros.LidarHandler.Sdk.{Sdk}
use ouster_ros.LidarHandler.Interpolation.{ScanTs, compute_scan_ts}
use ouster_ros.LidarHandler.Handler.{
  sensor_time, Config, Handler, prepare, estimate, lidar_handler, lidar_handler_sensor_time,
  finish_packet, lidar_packet_accumlator, process_scans,
}
use ouster_ros.LidarHandler.Handler.Queue.{queued, IsReady, lidar_packet_accumlator-queued}
use ouster_ros.LidarHandler.Handler.Process.{process_scans-queued}

module _ (k : Sdk) where
  open k use {Packet, Scan, Batcher}

  -- Whether it is queued or skipped, a finished scan sets the estimate.
  estimate_set :
      (packet : Packet) (h : Handler k) (b : Batcher) (s : Scan) (ts : ℕ) (m : ScanTs)
      {h' : Handler k} {r : Bool}
      → h.config.mode ≡ sensor_time
      → is_full h.ring_buffer ≡ false
      → k.batch h.scan_batcher packet (h.lidar_scans h.ring_buffer.write_idx) ≡ (b, s, true)
      → compute_scan_ts (k.float) h.config.scan_col_ts_spacing_ns h.scan_ts (k.timestamp s)
        ≡ some (ts, m)
      → lidar_packet_accumlator k packet h ≡ some (h', r)
      → (h'.lidar_scan_estimated_ts ≡ ts)
        × (h'.lidar_scan_estimated_msg_ts ≡ k.from_nsec ts)
        × (h'.config ≡ h.config)
  unfolding lidar_packet_accumlator finish_packet lidar_handler lidar_handler_sensor_time estimate
  estimate_set packet h b s ts m mode room batched computed e = ground arith

  -- The first of the scans that wait, once a packet has been accumulated.
  still_first :
      (packet : Packet) (h : Handler k) (oldest : Scan) (rest : List Scan) {h' : Handler k}
      {r : Bool}
      → IsReady k h
      → queued k h ≡ oldest ∷ rest
      → lidar_packet_accumlator k packet h ≡ some (h', r)
      → IsReady k h' × (behind : List Scan) × (queued k h' ≡ oldest ∷ behind)
  still_first packet h oldest rest i q e =
      let (ready, case) = lidar_packet_accumlator-queued k packet h i e in
      elim case [
        | inl (_, s, _, more) ↦ (ready, rest ++ s ∷ [], more ∙ ap (λ l. l ++ s ∷ []) q)
        | inr (_, same) ↦ (ready, rest, same ∙ q)
      ]

  -- While a scan waits, a packet that finishes another one, with the sensor's own time, moves the
  -- estimate: `process_scans` then hands the waiting scan on with the newer scan's timestamp.
  pub stale_stamp :
      (packet : Packet) (h : Handler k) (oldest s : Scan) (rest : List Scan) (b : Batcher) (ts : ℕ)
      (m : ScanTs) {h' : Handler k} {r : Bool}
      → IsReady k h
      → h.config.mode ≡ sensor_time
      → is_full h.ring_buffer ≡ false
      → queued k h ≡ oldest ∷ rest
      → k.batch h.scan_batcher packet (h.lidar_scans h.ring_buffer.write_idx) ≡ (b, s, true)
      → compute_scan_ts (k.float) h.config.scan_col_ts_spacing_ns h.scan_ts (k.timestamp s)
        ≡ some (ts, m)
      → lidar_packet_accumlator k packet h ≡ some (h', r)
      → (process_scans k h').1
        ≡ map
            (λ n. record {
              handler = n;
              scan = (prepare k h' oldest).1;
              ts = ts;
              msg_ts = k.from_nsec ts;
            })
            h.config.lidar_scan_handlers
  stale_stamp packet h oldest s rest b ts m {h'} i mode room q batched computed e =
      let (at, msg, conf) = estimate_set packet h b s ts m mode room batched computed e in
      let (ready, behind, q') = still_first packet h oldest rest i q e in
      let (_, case) = process_scans-queued k h' ready in
      elim case [
        | inl (nothing, _, _) ↦ cc
        | inr (first, _, q'', _, calls) ↦
            let same : first ≡ oldest = cc in
            calls ∙ rw (same, at, msg, ap (λ (c : Config k). c.lidar_scan_handlers) conf)
      ]
