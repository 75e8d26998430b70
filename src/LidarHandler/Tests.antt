-- ===== src/LidarHandler/Tests.antt =====
-- Runs of the packet handler over a small stand-in for the SDK, and its theorems there.
use mathlib.Core.List.{Sublist}
use ouster_ros.Prelude.{
  ℕ, ◌+◌, ◌-◌, ◌≡◌, refl, ◌⊎◌, Bool, true, false, not, Option, none, some, List, [], ◌∷◌, ◌++◌, map,
  drop, length, ◌≤◌, ltb, ◌==◌, if◌then◌else◌, arith,
}
use ouster_ros.Prelude.Int.{pos, negsuc, pos_part}
use ouster_ros.Float.Whole.{whole}
use ouster_ros.RingBuffer.{create, observe, size, available, is_empty, is_full, write, read}
use ouster_ros.RingBuffer.Refine.{update, contents}
use ouster_ros.Timestamps.{ts_safe_offset_add, ulround}
use ouster_ros.LidarHandler.Sdk.{Sdk}
use ouster_ros.LidarHandler.Interpolation.{
  find_if, find_down, find_if_reverse, linear_interpolate, impute_value, extrapolate_value,
  save_last, compute_scan_ts_0, compute_scan_ts_n, compute_scan_ts,
}
use ouster_ros.LidarHandler.Handler.{
  sensor_time, ptp_1588, Config, Handler, Delivery, estimate, lidar_handler,
  lidar_handler_sensor_time, valid_columns, has_enough_columns, finish_packet,
  lidar_packet_accumlator, read_step, prepare, process_scans, create_handler,
}
use ouster_ros.LidarHandler.Handler.Queue.{queued, IsReady, Accepts, lidar_packet_accumlator-queued}
use ouster_ros.LidarHandler.Handler.Process.{process_scans-queued}
use ouster_ros.LidarHandler.Handler.Stamps.{stale_stamp}
use ouster_ros.LidarHandler.Handler.Order.Calls
use ouster_ros.LidarHandler.Handler.Order.Calls.{HandedOn}
use ouster_ros.LidarHandler.Handler.Order.{start, process, Trace-sublist}
use ouster_ros.PointCloud.Factory.{rng19_rfl8_sig16_nir16_rgb16}
use ouster_ros.LidarHandler.Create.{configure, register_lidar_scan_handler, processing_thread}
use ouster_ros.LidarHandler.Drain.{IsDrained, processing_thread-IsDrained}

-- A scan has two columns; a packet other than 0 completes it with the packet's number as timestamp.
abbrev toy_scan : ℕ → List ℕ
toy_scan p = p ∷ (p + 1) ∷ []

abbrev toy : Sdk
toy = record {
  float = whole;
  Packet = ℕ;
  Scan = List ℕ;
  Batcher = ℕ;
  AutoExposure = ℕ;
  Time = ℕ;
  host_timestamp = λ p. p;
  packet_col_index = λ p. 0;
  batch = λ b p s. (b + 1, toy_scan p, not (p == 0));
  timestamp = λ s. s;
  set_timestamp = λ s ts. ts;
  status = λ s. 1 ∷ 1 ∷ [];
  field = λ c s. [];
  set_field_u8 = λ c xs s. s;
  expose = λ ae r g b. (ae, r, g, b);
  from_nsec = λ n. n;
  minus_nsec = λ t n. t - pos_part n;
}

abbrev toy_config : Config toy
toy_config = record {
  mode = sensor_time;
  ptp_utc_tai_offset = pos 0;
  min_scan_valid_columns_ratio = 0;
  scan_col_ts_spacing_ns = 1;
  has_rgb = false;
  lidar_scan_handlers = 0 ∷ 1 ∷ [];
}

handler : Unit {0}
unfolding create observe size available is_empty is_full write read ts_safe_offset_add ulround
    find_if find_down find_if_reverse linear_interpolate impute_value extrapolate_value save_last
    compute_scan_ts_0 compute_scan_ts_n compute_scan_ts estimate lidar_handler
    lidar_handler_sensor_time valid_columns has_enough_columns finish_packet lidar_packet_accumlator
    read_step prepare process_scans create_handler
handler = tt

abbrev fresh : Handler toy
unfolding handler
fresh = create_handler toy toy_config (λ i. []) 0 0 0 0

abbrev state_of : Option (Handler toy × Bool) → Handler toy
state_of none = fresh
state_of (some (h, r)) = h

abbrev one : Handler toy
one = state_of (lidar_packet_accumlator toy 5 fresh)

abbrev two : Handler toy
two = state_of (lidar_packet_accumlator toy 9 one)

runs :
    (lidar_packet_accumlator toy 5 fresh ≡ some (one, true))
    × (lidar_packet_accumlator toy 9 one ≡ some (two, true))
unfolding handler
runs = (refl, refl)

fresh-IsReady : IsReady toy fresh
unfolding handler
fresh-IsReady = record {
  ring = record { small = omega arith; write_in = omega arith; read_in = omega arith };
  slots = refl;
}

one-IsReady : IsReady toy one
one-IsReady = (lidar_packet_accumlator-queued toy 5 fresh fresh-IsReady runs.0).0

lidar_packet_accumlator-queued_example :
    IsReady toy one
    × (((true ≡ true)
          × (s : List ℕ) × Accepts toy 5 fresh s
          × (queued toy one ≡ queued toy fresh ++ s ∷ []))
        ⊎ ((true ≡ false) × (queued toy one ≡ queued toy fresh)))
lidar_packet_accumlator-queued_example =
    lidar_packet_accumlator-queued toy 5 fresh fresh-IsReady runs.0

process_scans-queued_example :
    let (h', calls) = process_scans toy one in
    IsReady toy h'
    × (((queued toy one ≡ []) × (h' ≡ one) × (calls ≡ []))
        ⊎ ((s : List ℕ) × (rest : List (List ℕ)) × (queued toy one ≡ s ∷ rest)
            × (queued toy h' ≡ (if ltb 7 (size one.ring_buffer) then drop 1 rest else rest))
            × (calls
                ≡ map
                    (λ n. record {
                      handler = n;
                      scan = (prepare toy one s).1;
                      ts = one.lidar_scan_estimated_ts;
                      msg_ts = one.lidar_scan_estimated_msg_ts;
                    })
                    (0 ∷ 1 ∷ []))))
unfolding handler
process_scans-queued_example = process_scans-queued toy one one-IsReady

one-queued : queued toy one ≡ toy_scan 5 ∷ []
unfolding handler queued contents update
one-queued = refl

-- The scan of packet 5 is handed on with the timestamp of packet 9.
stale_stamp_example :
    (process_scans toy two).1
    ≡ map
        (λ n. record { handler = n; scan = (prepare toy two (toy_scan 5)).1; ts = 9; msg_ts = 9 })
        (0 ∷ 1 ∷ [])
unfolding handler
stale_stamp_example =
    stale_stamp toy 9 one (toy_scan 5) (toy_scan 9) [] 2 9
      (record {
        first = false;
        last_scan_last_nonzero_idx = pos 1;
        last_scan_last_nonzero_value = 10;
      })
      one-IsReady refl refl one-queued refl refl runs.1

Trace-sublist_example :
    HandedOn toy one.config ([] ++ Calls.first (queued toy one)) ([] ++ (process_scans toy one).1)
    × Sublist
        (([] ++ Calls.first (queued toy one)) ++ queued toy (process_scans toy one).0)
        (queued toy one ++ [])
Trace-sublist_example = Trace-sublist toy one-IsReady (process start)

one_waits : length (queued toy one) ≤ 1
unfolding handler queued contents
one_waits = omega arith

processing_thread-IsDrained_example : IsDrained toy 1 one
processing_thread-IsDrained_example = processing_thread-IsDrained toy 1 one one-IsReady one_waits

-- A handler that is configured by texts and numbers.
configured :
    configure toy
      (record {
        udp_profile_lidar = rng19_rfl8_sig16_nir16_rgb16;
        scan_width = 1024;
        scan_frequency = 10;
      })
      (0 ∷ [])
      "TIME_FROM_PTP_1588"
      (negsuc 36)
      0
    ≡ record toy_config {
      mode = ptp_1588;
      ptp_utc_tai_offset = negsuc 36;
      scan_col_ts_spacing_ns = 97656;
      has_rgb = true;
      lidar_scan_handlers = 0 ∷ [];
    }
unfolding configure
configured = refl

drained :
    map
      (λ (d : Delivery toy). d.handler)
      (processing_thread toy 2 (register_lidar_scan_handler toy 7 one)).1
    ≡ 0 ∷ 1 ∷ 7 ∷ []
unfolding handler processing_thread register_lidar_scan_handler
drained = refl
