-- ===== src/Nodes/Handlers.antt =====
-- src/os_cloud_nodelet.cpp, src/os_driver_nodelet.cpp, src/os_image_nodelet.cpp: `create_handlers`. Parameters that are only passed on to a
-- handler are left out; floating-point arithmetic is a parameter, and 1000 and 10000 are converted to it. A range is a
-- number: `>=` is the negation of `<`.
use Prim.Native.Char.{code}
use Prim.Native.String.{String}
use ouster_ros.Prelude.{
  ℕ, ◌%◌, ◌^◌, Bool, true, false, not, ◌&&◌, ◌||◌, Option, none, some, List, [], ◌∷◌, ◌++◌,
  if◌then◌else◌, ◌>>=◌,
}
use ouster_ros.Prelude.Int.{ℤ, pos, ltb_ℤ, sub_ℕ}
use ouster_ros.Float.{Float}
use ouster_ros.Timestamps.{ulround}
use ouster_ros.Ros.{Params, param}
use ouster_ros.OsSensor.Config.Value.{one_of}
use ouster_ros.Messages.Tokens.{parse_tokens, check_token}

-- The bytes of an ASCII text.
abbrev pub codes : String → List ℕ
codes String.[] = []
codes (String.◌∷◌ c s) = code c ∷ codes s

pub record CloudOptions : Type 0 where
  pub point_type : String
  pub organized : Bool
  pub destagger : Bool
  pub min_range : ℕ
  pub max_range : ℕ
  pub v_reduction : ℤ
  pub mask_path : String

pub data Processor : Type 0 where
  point_cloud : CloudOptions → Processor
  laser_scan : ℤ → Processor
  image : String → Processor

-- The handlers of the node that are set: the lidar packet handler with its processors and its ratio of columns.
pub record Handlers (R : Type 0) : Type 0 where
  pub imu_packet_handler : Bool
  pub lidar_packet_handler : Option (List Processor × R)
  pub telemetry_handler : Bool

abbrev pub max_ℤ : ℤ → ℤ → ℤ
max_ℤ a b = if ltb_ℤ a b then b else a

abbrev pub min_ℤ : ℤ → ℤ → ℤ
min_ℤ a b = if ltb_ℤ b a then b else a

-- `std::min(std::max(scan_ring, 0), beams_count - 1)`
unfoldable pub clamp_ring : ℕ → ℤ → ℤ
clamp_ring beams_count scan_ring = min_ℤ (max_ℤ scan_ring (pos 0)) (sub_ℕ beams_count 1)

-- What the creation of handlers and processors finds: the clouds for which the factory, and the constructor behind it
-- with its mask, throw no exception; the paths of masks that are empty or read; and whether the metadata have a lidar
-- mode, without which `lidar_mode.value()` throws.
pub record Found : Type 0 where
  pub is_made : CloudOptions → Bool
  pub is_mask : String → Bool
  pub has_lidar_mode : Bool

module _ (k : Float) (p : Params (k.F)) where
  abbrev pub real : String → ℕ → k.F
  real name d = param p.real name (k.of_ℕ d)

  -- The conversion of a range to millimeters, in 32 bits.
  abbrev pub millimeters : k.F → ℕ
  millimeters range = ulround k (k.mul range (k.of_ℕ 1000)) % 2 ^ 32

  abbrev pub cloud_options : CloudOptions
  cloud_options = record {
    point_type = param p.text "point_type" "original";
    organized = param p.bool "organized" true;
    destagger = param p.bool "destagger" true;
    min_range = millimeters (real "min_range" 0);
    max_range = millimeters (real "max_range" 10000);
    v_reduction = param p.int "v_reduction" (pos 1);
    mask_path = param p.text "mask_path" "";
  }

  -- The processor of the point clouds; the factory throws on some types and profiles.
  unfoldable pub create_point_cloud : Found → Option (List Processor)
  create_point_cloud found =
      let min_range_m = real "min_range" 0 in
      let max_range_m = real "max_range" 10000 in
      if k.lt min_range_m (k.of_ℕ 0) || k.lt max_range_m (k.of_ℕ 0)
      then none
      else if not (k.lt min_range_m max_range_m)
      then none
      else if not (one_of (param p.int "v_reduction" (pos 1)) (1 ∷ 2 ∷ 4 ∷ 8 ∷ 16 ∷ []))
      then none
      else if found.is_made cloud_options
      then some (point_cloud cloud_options ∷ [])
      else none

  unfoldable pub create_laser_scan : Found → ℕ → Option (List Processor)
  unfolding clamp_ring
  create_laser_scan found beams_count =
      if found.has_lidar_mode
      then some (laser_scan (clamp_ring beams_count (param p.int "scan_ring" (pos 0))) ∷ [])
      else none

  unfoldable pub create_image : Found → Option (List Processor)
  create_image found =
      let mask_path = param p.text "mask_path" "" in
      if found.is_mask mask_path then some (image mask_path ∷ []) else none

  -- In the order of the source; an exception ends it.
  unfoldable pub create_processors : Found → ℕ → Bool → List (List ℕ) → Option (List Processor)
  unfolding create_point_cloud create_laser_scan create_image
  create_processors found beams_count images tokens =
      (if check_token tokens (codes "PCL") then create_point_cloud found else some []) >>= λ clouds.
      (if check_token tokens (codes "SCAN") then create_laser_scan found beams_count else some [])
      >>= λ scans.
          (if images && check_token tokens (codes "IMG") then create_image found else some [])
          >>= λ imgs. some (clouds ++ (scans ++ imgs))

  -- A processor of lidar scans is asked for.
  abbrev pub asks_lidar : Bool → List (List ℕ) → Bool
  asks_lidar images tokens =
      check_token tokens (codes "PCL")
      || (check_token tokens (codes "SCAN") || (images && check_token tokens (codes "IMG")))

  -- The last statements, with the processors. The lidar packet handler's constructor throws without a lidar mode.
  unfoldable pub set_handlers :
      Found → Bool → List (List ℕ) → k.F → List Processor → Handlers (k.F) → Handlers (k.F) × Bool
  set_handlers found images tokens ratio processors h =
      if asks_lidar images tokens && not found.has_lidar_mode then (h, true) else (
        let h' =
              if asks_lidar images tokens
              then record h { lidar_packet_handler = some (processors, ratio) }
              else h in
            if check_token tokens (codes "TLM") then record h' { telemetry_handler = true } else h',
        false,
      )

  -- The state that is left and whether an exception was thrown.
  unfoldable pub create_handlers :
      Found → ℕ → Bool → List (List ℕ) → Handlers (k.F) → Handlers (k.F) × Bool
  unfolding create_processors set_handlers
  create_handlers found beams_count images tokens h =
      let ratio = real "min_scan_valid_columns_ratio" 0 in
      let h' =
        if check_token tokens (codes "IMU") then record h { imu_packet_handler = true } else h in
      if k.lt ratio (k.of_ℕ 0) || k.lt (k.of_ℕ 1) ratio
      then (h', true)
      else elim (create_processors found beams_count images tokens) [
        | none ↦ (h', true)
        | some processors ↦ set_handlers found images tokens ratio processors h'
      ]

  unfoldable pub create_cloud_handlers : Found → ℕ → Handlers (k.F) → Handlers (k.F) × Bool
  unfolding create_handlers
  create_cloud_handlers found beams_count h =
      create_handlers found beams_count false
        (parse_tokens (codes (param p.text "proc_mask" "IMU|PCL|SCAN")) b'|') h

  unfoldable pub create_driver_handlers : Found → ℕ → Handlers (k.F) → Handlers (k.F) × Bool
  unfolding create_handlers
  create_driver_handlers found beams_count h =
      create_handlers found beams_count true
        (parse_tokens (codes (param p.text "proc_mask" "IMU|IMG|PCL|SCAN")) b'|') h

  -- The image node's, which makes images alone; its metadata handler calls it where the mask has IMG.
  unfoldable pub create_image_handlers : Found → Handlers (k.F) → Handlers (k.F) × Bool
  unfolding create_image
  create_image_handlers found h =
      let ratio = real "min_scan_valid_columns_ratio" 0 in
      if k.lt ratio (k.of_ℕ 0) || k.lt (k.of_ℕ 1) ratio
      then (h, true)
      else elim (create_image found) [
        | none ↦ (h, true)
        | some processors ↦
            (if found.has_lidar_mode
              then (record h { lidar_packet_handler = some (processors, ratio) }, false)
              else (h, true))
      ]
