-- ===== src/LidarHandler/Create.antt =====
-- src/lidar_packet_handler.h: the constructor of `LidarPacketHandler`, its registered handlers, and the thread that
-- processes scans.
use Prim.Native.String.{String}
use text.Mathlib.Text.{◌==◌}
use ouster_ros.Prelude.{
  ℕ, zero, suc, ◌*◌, ◌^◌, Bool, true, false, List, [], ◌∷◌, ◌++◌, if◌then◌else◌,
}
use ouster_ros.Prelude.Int.{ℤ}
use ouster_ros.Float.{Float}
use ouster_ros.PointCloud.Factory.{
  UdpProfileLidar, rng19_rfl8_sig16_nir16_rgb16, rng19_rfl8_sig16_nir16_rgb16_dual,
}
use ouster_ros.LidarHandler.Sdk.{Sdk}
use ouster_ros.LidarHandler.Handler.{
  TimestampMode, ros_time, ptp_1588, sensor_time, Config, Handler, Delivery, process_scans,
}

unfoldable pub timestamp_mode_of : String → TimestampMode
timestamp_mode_of timestamp_mode =
    if timestamp_mode == "TIME_FROM_ROS_TIME"
    then ros_time
    else if timestamp_mode == "TIME_FROM_PTP_1588"
    then ptp_1588
    else sensor_time

unfoldable pub has_rgb_of : UdpProfileLidar → Bool
has_rgb_of rng19_rfl8_sig16_nir16_rgb16 = true
has_rgb_of rng19_rfl8_sig16_nir16_rgb16_dual = true
has_rgb_of _ = false

-- For a mode's columns and frequency.
unfoldable pub compute_scan_col_ts_spacing_ns : (k : Float) → ℕ → ℕ → k.F
compute_scan_col_ts_spacing_ns k scan_width scan_frequency =
    k.div (k.of_ℕ (10 ^ 9)) (k.of_ℕ (scan_width * scan_frequency))

-- What of the sensor's information the handler keeps.
pub record Info : Type 0 where
  pub udp_profile_lidar : UdpProfileLidar
  pub scan_width : ℕ
  pub scan_frequency : ℕ

module _ (k : Sdk) where
  open k use {float}

  unfoldable pub configure : Info → List ℕ → String → ℤ → float.F → Config k
  unfolding timestamp_mode_of has_rgb_of compute_scan_col_ts_spacing_ns
  configure info handlers timestamp_mode ptp_utc_tai_offset min_scan_valid_columns_ratio = record {
    mode = timestamp_mode_of timestamp_mode;
    ptp_utc_tai_offset = ptp_utc_tai_offset;
    min_scan_valid_columns_ratio = min_scan_valid_columns_ratio;
    scan_col_ts_spacing_ns =
        compute_scan_col_ts_spacing_ns float info.scan_width info.scan_frequency;
    has_rgb = has_rgb_of info.udp_profile_lidar;
    lidar_scan_handlers = handlers;
  }

  unfoldable pub register_lidar_scan_handler : ℕ → Handler k → Handler k
  register_lidar_scan_handler handler h = record h {
    config = record h.config { lidar_scan_handlers = h.config.lidar_scan_handlers ++ handler ∷ [] };
  }

  unfoldable pub clear_registered_lidar_scan_handlers : Handler k → Handler k
  clear_registered_lidar_scan_handlers h = record h {
    config = record h.config { lidar_scan_handlers = [] };
  }

  -- So many turns of `lidar_scans_processing_thread`, which is joined only between two of them.
  unfoldable pub processing_thread : ℕ → Handler k → Handler k × List (Delivery k)
  processing_thread zero h = (h, [])
  processing_thread (suc n) h =
      let (h', calls) = process_scans k h in
      let (h'', more) = processing_thread n h' in (h'', calls ++ more)
