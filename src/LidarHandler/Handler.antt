-- ===== src/LidarHandler/Handler.antt =====
-- src/lidar_packet_handler.h: the state of `LidarPacketHandler`, its packet accumulator and
-- `process_scans`. The lock of a slot makes each of the two one step on that slot.
pub mod Queue
pub mod Process
pub mod Stamps
pub mod Order
use ouster_ros.Prelude.{
  ℕ, zero, suc, ◌+◌, ◌*◌, ◌%◌, Bool, true, false, Option, none, some, ◌&&◌, List, [], ◌∷◌, map,
  length, ltb, ◌==◌, ◌>>=◌, if◌then◌else◌,
}
use ouster_ros.Prelude.Int.{ℤ, negsuc}
use ouster_ros.RingBuffer.{Buffer, create, size, is_empty, is_full, write, read}
use ouster_ros.RingBuffer.Refine.{update}
use ouster_ros.Timestamps.{ts_safe_offset_add}
use ouster_ros.LidarHandler.Sdk.{Sdk}
use ouster_ros.LidarHandler.Interpolation.{ScanTs, compute_scan_ts}
use ouster_ros.LidarHandler.Rgb.{process_rgb}

abbrev pub lidar_scan_count : ℕ
lidar_scan_count = 10

-- `timestamp_mode`; every other text means the sensor's own time.
pub data TimestampMode : Type 0 where
  ros_time ptp_1588 sensor_time : TimestampMode

unfoldable pub valid_columns : List ℕ → ℕ
valid_columns [] = 0
valid_columns (s ∷ status) = (if s % 2 == 1 then 1 else 0) + valid_columns status

-- `THROTTLE_PERCENT * capacity()` is 0.7f * 10, which is 7.0f.
unfoldable pub read_step : Buffer → ℕ
read_step ring = if ltb (7 * ring.capacity) (10 * size ring) then 2 else 1

module _ (k : Sdk) where
  open k use {Packet, Scan, Batcher, Time, float}

  pub record Config : Type 0 where
    pub mode : TimestampMode
    pub ptp_utc_tai_offset : ℤ
    pub min_scan_valid_columns_ratio : float.F
    pub scan_col_ts_spacing_ns : float.F
    pub has_rgb : Bool
    -- The registered handlers, by number.
    pub lidar_scan_handlers : List ℕ

  pub record Handler : Type 0 where
    pub config : Config
    pub ring_buffer : Buffer
    pub lidar_scans : ℕ → Scan
    pub scan_batcher : Batcher
    pub auto_exposure : k.AutoExposure
    pub lidar_scan_estimated_ts : ℕ
    pub lidar_scan_estimated_msg_ts : Time
    pub frame_ts : Option Time
    pub scan_ts : ScanTs

  -- A call of a registered handler.
  pub record Delivery : Type 0 where
    pub handler : ℕ
    pub scan : Scan
    pub ts : ℕ
    pub msg_ts : Time

  unfoldable pub extrapolate_frame_ts : float.F → Packet → Time → Time
  extrapolate_frame_ts spacing packet current_time =
      k.minus_nsec current_time
        (float.lround (float.mul spacing (float.of_ℕ (k.packet_col_index packet))))

  -- A complete scan sets the members that `process_scans` hands on.
  unfoldable pub estimate : Handler → List ℕ → Option Handler
  estimate h ts_v = do
    (ts, m) ← compute_scan_ts float h.config.scan_col_ts_spacing_ns h.scan_ts ts_v
    some (record h {
      lidar_scan_estimated_ts = ts;
      lidar_scan_estimated_msg_ts = k.from_nsec ts;
      scan_ts = m;
    })

  -- The three packet handlers: the new state, the scan, and whether it is complete.
  unfoldable pub lidar_handler_sensor_time :
      Handler → Packet → Scan → Option (Handler × Scan × Bool)
  lidar_handler_sensor_time h packet scan =
      let (b, s, done) = k.batch h.scan_batcher packet scan in
      let h' : Handler = record h { scan_batcher = b } in
      if done
      then (estimate h' (k.timestamp s) >>= λ h''. some (h'', s, true))
      else some (h', s, false)

  unfoldable pub lidar_handler_sensor_time_ptp :
      Handler → Packet → Scan → Option (Handler × Scan × Bool)
  lidar_handler_sensor_time_ptp h packet scan =
      let (b, s, done) = k.batch h.scan_batcher packet scan in
      let h' : Handler = record h { scan_batcher = b } in
      let ts_v = map (λ ts. ts_safe_offset_add ts h.config.ptp_utc_tai_offset) (k.timestamp s) in
      if done
      then (estimate h' ts_v >>= λ h''. some (h'', k.set_timestamp s ts_v, true))
      else some (h', s, false)

  unfoldable pub lidar_handler_ros_time : Handler → Packet → Scan → Option (Handler × Scan × Bool)
  lidar_handler_ros_time h packet scan =
      let spacing = h.config.scan_col_ts_spacing_ns in
      let now = extrapolate_frame_ts spacing packet (k.from_nsec (k.host_timestamp packet)) in
      let first : Time = elim h.frame_ts [ none ↦ now | some t ↦ t ] in
      let (b, s, done) = k.batch h.scan_batcher packet scan in
      let h' : Handler = record h { scan_batcher = b; frame_ts = some first } in
      if done
      then (estimate h' (k.timestamp s) >>= λ h''.
          some (record h'' { lidar_scan_estimated_msg_ts = first; frame_ts = some now }, s, true))
      else some (h', s, false)

  unfoldable pub lidar_handler :
      TimestampMode → Handler → Packet → Scan → Option (Handler × Scan × Bool)
  lidar_handler ros_time = lidar_handler_ros_time
  lidar_handler ptp_1588 = lidar_handler_sensor_time_ptp
  lidar_handler sensor_time = lidar_handler_sensor_time

  unfoldable pub has_enough_columns : Handler → Scan → Bool
  has_enough_columns h scan =
      let status = k.status scan in
      let needed =
        float.to_ℕ (float.mul h.config.min_scan_valid_columns_ratio (float.of_ℕ (length status))) in
      if ltb (valid_columns status) needed then false else true

  -- The accumulator once the packet handler has returned, for the slot `head`.
  unfoldable pub finish_packet : ℕ → Handler × Scan × Bool → Handler × Bool
  finish_packet head (h, scan, complete) =
      let result = complete && has_enough_columns h scan in
      let h' : Handler = record h { lidar_scans = update h.lidar_scans head scan } in
      (if result then record h' { ring_buffer = (write 1 h'.ring_buffer).0 } else h', result)

  -- The accumulator: `none` is a failed assertion, and the result says whether a scan was queued.
  unfoldable pub lidar_packet_accumlator : Packet → Handler → Option (Handler × Bool)
  lidar_packet_accumlator packet h =
      let head = h.ring_buffer.write_idx in
      if is_full h.ring_buffer
      then some (h, false)
      else (lidar_handler h.config.mode h packet (h.lidar_scans head) >>= λ out.
          some (finish_packet head out))

  -- The color stage, for the profiles that have color.
  unfoldable pub prepare : Handler → Scan → k.AutoExposure × Scan
  prepare h ls =
      if h.config.has_rgb then process_rgb k h.auto_exposure ls else (h.auto_exposure, ls)

  unfoldable pub process_scans : Handler → Handler × List Delivery
  process_scans h =
      let (ae, ls) = prepare h (h.lidar_scans h.ring_buffer.read_idx) in
      if is_empty h.ring_buffer then (h, []) else (
        record h {
          auto_exposure = ae;
          lidar_scans = update h.lidar_scans h.ring_buffer.read_idx ls;
          ring_buffer = (read (read_step h.ring_buffer) h.ring_buffer).0;
        },
        map
            (λ n. record {
              handler = n;
              scan = ls;
              ts = h.lidar_scan_estimated_ts;
              msg_ts = h.lidar_scan_estimated_msg_ts;
            })
            h.config.lidar_scan_handlers,
      )

  -- A new handler. The two estimates are not set by the constructor.
  unfoldable pub create_handler :
      Config → (ℕ → Scan) → Batcher → k.AutoExposure → ℕ → Time → Handler
  create_handler config scans batcher ae ts msg_ts = record {
    config = config;
    ring_buffer = create lidar_scan_count;
    lidar_scans = scans;
    scan_batcher = batcher;
    auto_exposure = ae;
    lidar_scan_estimated_ts = ts;
    lidar_scan_estimated_msg_ts = msg_ts;
    frame_ts = none;
    scan_ts = record {
      first = true;
      last_scan_last_nonzero_idx = negsuc 0;
      last_scan_last_nonzero_value = 0;
    };
  }
