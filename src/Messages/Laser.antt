-- ===== src/Messages/Laser.antt =====
-- src/os_ros.cpp: `lidar_scan_to_laser_scan_msg`, `get_or_fill_zero`; src/laser_scan_processor.h. Pixels are numbers row
-- by row, and one out of range of its image is 0; `size_t` arithmetic wraps at 2 ^ 64.
pub mod Filled
pub mod Processor
use Prim.Native.String.{String}
use ouster_ros.Prelude.{
  ℕ, zero, suc, ◌+◌, ◌-◌, ◌*◌, ◌/◌, ◌%◌, ◌^◌, Bool, true, false, ◌&&◌, Option, none, some, List, [],
  ◌∷◌, map, get_or, set, replicate, ltb, ◌==◌, if◌then◌else◌, ◌>>=◌,
}
use ouster_ros.Prelude.Int.{ℤ, pos, pos_part, neg_part, sub_ℕ}
use ouster_ros.Float.{Float}
use ouster_ros.PointTypes.{ChanField, chan_range, chan_range2, chan_signal, chan_signal2}
use ouster_ros.PointCloud.Point.{LidarScan}

-- The constants of the message, and what the SDK answers about the lidar mode.
pub record Geometry (k : Float) : Type 0 where
  pub pi : k.F
  pub range_min : k.F
  pub range_max : k.F
  pub range_unit : k.F
  pub n_cols_of_lidar_mode : ℕ
  pub frequency_of_lidar_mode : ℕ

pub record LaserScan (k : Float) : Type 0 where
  pub stamp : ℕ
  pub frame_id : String
  pub angle_min : k.F
  pub angle_max : k.F
  pub range_min : k.F
  pub range_max : k.F
  pub scan_time : k.F
  pub time_increment : k.F
  pub angle_increment : k.F
  pub ranges : List k.F
  pub intensities : List k.F

unfoldable pub get_or_fill_zero : (ChanField → Bool) → ChanField → LidarScan → List ℕ
get_or_fill_zero has_field field ls =
    if has_field field then ls.field field else replicate (ls.h * ls.w) 0

-- `(v + w - shift + w / 2) % w`, where the shift is an `int` that is converted.
unfoldable pub laser_column : ℕ → ℤ → ℕ → ℕ
laser_column w shift v = (v + w + w / 2 + neg_part shift + 2 ^ 64 - pos_part shift) % 2 ^ 64 % w

module _ (k : Float) where
  -- The loop, for the last `n` columns of the message.
  unfoldable pub fill_columns : ℕ → (ℕ → k.F) → (ℕ → k.F) → ℕ → LaserScan k → LaserScan k
  fill_columns w range intensity zero msg = msg
  fill_columns w range intensity (suc n) msg =
      let v = w - suc n in
      let tgt_idx = w - 1 - v in
      fill_columns w range intensity n (record msg {
        ranges = set msg.ranges tgt_idx (range v);
        intensities = set msg.intensities tgt_idx (intensity v);
      })

  abbrev laser_header : Geometry k → ℕ → String → ℕ → LaserScan k
  laser_header g timestamp frame w =
      let scan_width = k.of_ℕ g.n_cols_of_lidar_mode in
      let scan_frequency = k.of_ℕ g.frequency_of_lidar_mode in
      record {
        stamp = timestamp;
        frame_id = frame;
        angle_min = k.sub (k.of_ℕ 0) g.pi;
        angle_max = g.pi;
        range_min = g.range_min;
        range_max = g.range_max;
        scan_time = k.div (k.of_ℕ 1) scan_frequency;
        time_increment = k.div (k.of_ℕ 1) (k.mul scan_width scan_frequency);
        angle_increment = k.div (k.mul (k.of_ℕ 2) g.pi) scan_width;
        ranges = replicate w (k.of_ℕ 0);
        intensities = replicate w (k.of_ℕ 0);
      }

  -- The message, from the images of the range and of the signal.
  unfoldable pub laser_message :
      Geometry k → LidarScan → ℕ → String → ℕ → ℤ → List ℕ → List ℕ → LaserScan k
  unfolding fill_columns
  laser_message g ls timestamp frame ring shift rg sg =
      let src_idx : ℕ → ℕ = λ v. ring * ls.w + laser_column ls.w shift v in
      fill_columns ls.w (λ v. k.mul (k.of_ℕ (get_or rg (src_idx v) 0)) g.range_unit)
        (λ v. k.of_ℕ (get_or sg (src_idx v) 0)) ls.w (laser_header g timestamp frame ls.w)

  -- An exception is thrown where the scan has no range field of that return.
  unfoldable pub lidar_scan_to_laser_scan_msg :
      Geometry k
      → (ChanField → Bool)
      → LidarScan
      → ℕ
      → String
      → ℕ
      → List ℤ
      → ℕ
      → Option (LaserScan k)
  unfolding laser_message
  lidar_scan_to_laser_scan_msg g has_field ls timestamp frame ring pixel_shift_by_row return_index =
      let which_range = if return_index == 0 then chan_range else chan_range2 in
      let which_signal = if return_index == 0 then chan_signal else chan_signal2 in
      if has_field which_range
      then some (
          laser_message g ls timestamp frame ring (get_or pixel_shift_by_row ring (pos 0))
            (ls.field which_range) (get_or_fill_zero has_field which_signal ls))
      else none

-- The constructor's correction for firmware 2.0 to 2.3, whose version is given.
unfoldable pub correct_shifts : ℕ → ℕ → List ℤ → List ℤ
correct_shifts major minor shifts =
    if (major == 2) && ltb minor 4
    then map (λ c. sub_ℕ (pos_part c) (neg_part c + 31)) shifts
    else shifts

-- `process`: a message for each of the `n` returns from `i`, for the processors that follow.
unfoldable pub process_returns : {M : Type 0} → (ℕ → Option M) → ℕ → ℕ → Option (List M)
process_returns message i zero = some []
process_returns message i (suc n) =
    message i >>= λ msg. process_returns message (suc i) n >>= λ msgs. some (msg ∷ msgs)
