-- ===== src/Nodes/Created.antt =====
-- What `create_handlers` leaves in the node.

use ouster_ros.Prelude.{
  ℕ, zero, suc, ◌<◌, ◌≡◌, ◌⊎◌, inl, inr, refl, Bool, true, false, not, ◌&&◌, ◌||◌, none, some, List,
  [], ◌∷◌, ◌++◌, ltb, if◌then◌else◌, arith, Bool-cases,
}
use ouster_ros.Prelude.Int.{ℤ, pos, negsuc, ltb_ℤ}
use ouster_ros.Float.{Float}
use ouster_ros.Ros.{Params, param}
use ouster_ros.OsSensor.Config.Value.{one_of}
use ouster_ros.Messages.Tokens.{check_token}
use ouster_ros.Nodes.Handlers.{
  codes, Found, Processor, point_cloud, laser_scan, image, Handlers, clamp_ring, real,
  cloud_options, create_point_cloud, create_laser_scan, create_image, create_processors,
  set_handlers, create_handlers,
}

pub clamp_ring_lem :
    (beams : ℕ) (ring : ℤ)
    → 0 < beams
    → (n : ℕ) × (clamp_ring beams ring ≡ pos n)
      × (n < beams)
      × (ring ≡ pos n ⊎ (ltb_ℤ ring (pos 0) ≡ true) ⊎ (ltb_ℤ ring (pos beams) ≡ false))
unfolding clamp_ring
clamp_ring_lem zero ring h = elim h [ ]
clamp_ring_lem (suc beams) (pos r) h = elim (Bool-cases (ltb beams r)) [
  | inl e ↦ (beams, ground (arith, e), omega arith, inr (inr (ground (arith, e))))
  | inr e ↦ (r, ground (arith, e), ground (arith, e), inl refl)
]
clamp_ring_lem (suc beams) (negsuc r) h = (0, ground arith, omega arith, inr (inl (ground arith)))

module _ (k : Float) (p : Params (k.F)) (found : Found) (beams : ℕ) where
  -- The processors that the tokens ask for, in the order in which they see a scan.
  unfoldable pub wanted : Bool → List (List ℕ) → List Processor
  wanted images tokens =
      (if check_token tokens (codes "PCL") then point_cloud (cloud_options k p) ∷ [] else [])
      ++ ((if check_token tokens (codes "SCAN")
            then laser_scan (clamp_ring beams (param p.int "scan_ring" (pos 0))) ∷ []
            else [])
          ++ (if images && check_token tokens (codes "IMG")
              then image (param p.text "mask_path" "") ∷ []
              else []))

  -- A point cloud's parameters: ranges in order, a row step among the valid ones, and a type that the factory makes.
  unfoldable pub are_valid_options : Bool
  are_valid_options =
      not (k.lt (real k p "min_range" 0) (k.of_ℕ 0))
      && (not (k.lt (real k p "max_range" 10000) (k.of_ℕ 0))
          && (k.lt (real k p "min_range" 0) (real k p "max_range" 10000)
              && (one_of (param p.int "v_reduction" (pos 1)) (1 ∷ 2 ∷ 4 ∷ 8 ∷ 16 ∷ [])
                  && found.is_made (cloud_options k p))))

  unfoldable pub is_ratio : Bool
  is_ratio =
      let ratio = real k p "min_scan_valid_columns_ratio" 0 in
      not (k.lt ratio (k.of_ℕ 0)) && not (k.lt (k.of_ℕ 1) ratio)

  create_point_cloud_lem :
      create_point_cloud k p found
      ≡ (if are_valid_options then some (point_cloud (cloud_options k p) ∷ []) else none)
  unfolding create_point_cloud are_valid_options
  create_point_cloud_lem = ground arith

  -- The tokens ask for a processor of lidar scans.
  unfoldable pub wants_lidar : Bool → List (List ℕ) → Bool
  wants_lidar images tokens =
      check_token tokens (codes "PCL")
      || (check_token tokens (codes "SCAN") || (images && check_token tokens (codes "IMG")))

  -- Nothing that the tokens ask for throws.
  unfoldable pub is_created : Bool → List (List ℕ) → Bool
  unfolding wants_lidar
  is_created images tokens =
      (not (check_token tokens (codes "PCL")) || are_valid_options)
      && ((not (images && check_token tokens (codes "IMG"))
            || found.is_mask (param p.text "mask_path" ""))
          && (not (wants_lidar images tokens) || found.has_lidar_mode))

  create_processors_lem :
      (images : Bool) (tokens : List (List ℕ))
      → create_processors k p found beams images tokens ≡ (
          if (not (check_token tokens (codes "PCL")) || are_valid_options)
            && ((not (images && check_token tokens (codes "IMG"))
                  || found.is_mask (param p.text "mask_path" ""))
                && (not (check_token tokens (codes "SCAN")) || found.has_lidar_mode))
          then some (wanted images tokens)
          else none)
  unfolding create_processors create_laser_scan create_image wanted
  create_processors_lem images tokens = ground (arith, create_point_cloud_lem)

  unfoldable pub wanted_handlers : Bool → List (List ℕ) → Handlers (k.F) → Handlers (k.F)
  unfolding wants_lidar
  wanted_handlers images tokens h = record {
    imu_packet_handler = check_token tokens (codes "IMU") || h.imu_packet_handler;
    lidar_packet_handler =
        if wants_lidar images tokens
        then some (wanted images tokens, real k p "min_scan_valid_columns_ratio" 0)
        else h.lidar_packet_handler;
    telemetry_handler = check_token tokens (codes "TLM") || h.telemetry_handler;
  }

  -- `create_handlers` throws exactly where the ratio of valid columns is not from 0 to 1, where point clouds are asked
  -- for with invalid options, where images are asked for and their mask cannot be read, or where any processor of lidar
  -- scans is asked for and the metadata have no lidar mode; then at most the IMU handler has been set. Otherwise each
  -- handler is set that a token of the mask asks for, the others stay, and the lidar packet handler runs the point
  -- clouds, the laser scans and, in the driver, the images that are asked for, in this order.
  pub create_handlers_lem :
      (images : Bool) (tokens : List (List ℕ)) (h : Handlers (k.F))
      → create_handlers k p found beams images tokens h ≡ (
          if is_ratio && is_created images tokens
          then (wanted_handlers images tokens h, false)
          else (
            record h {
              imu_packet_handler = check_token tokens (codes "IMU") || h.imu_packet_handler;
            },
            true,
          ))
  unfolding create_handlers set_handlers is_ratio is_created wants_lidar wanted_handlers
  create_handlers_lem images tokens h = ground (arith, create_processors_lem images tokens)
