-- ===== src/Nodes/Publishers/Fits.antt =====
-- The handlers of a node, against the tokens of its mask.

use ouster_ros.Prelude.{
  ℕ, ◌≡◌, subst, Bool, true, not, ◌&&◌, ◌||◌, List, arith, Bool-cases, inl, inr,
}
use ouster_ros.Float.{Float}
use ouster_ros.Ros.{Params}
use ouster_ros.Messages.Tokens.{check_token}
use ouster_ros.Nodes.Handlers.{codes, Handlers, Found, create_handlers}
use ouster_ros.Nodes.Created.{wanted, wanted_handlers, is_ratio, is_created, create_handlers_lem}
use ouster_ros.Nodes.Publishers.Node.{is_cloud, is_scan, is_image, any, runs}

abbrev pub implies : Bool → Bool → Bool
implies a b = not a || b

-- Each handler and each processor is one that the tokens ask for; images are for the nodes that make them.
pub record Fits {R : Type 0} (images : Bool) (tokens : List (List ℕ)) (h : Handlers R)
    : Type 0 where
  pub imu : implies h.imu_packet_handler (check_token tokens (codes "IMU")) ≡ true
  pub telemetry : implies h.telemetry_handler (check_token tokens (codes "TLM")) ≡ true
  pub cloud :
      implies (runs is_cloud h.lidar_packet_handler) (check_token tokens (codes "PCL")) ≡ true
  pub scan :
      implies (runs is_scan h.lidar_packet_handler) (check_token tokens (codes "SCAN")) ≡ true
  pub image :
      implies (runs is_image h.lidar_packet_handler) (images && check_token tokens (codes "IMG"))
      ≡ true

module _ (k : Float) (p : Params (k.F)) (found : Found) (beams : ℕ) where
  wanted-any :
      (images : Bool) (tokens : List (List ℕ))
      → (any is_cloud (wanted k p found beams images tokens) ≡ check_token tokens (codes "PCL"))
        × (any is_scan (wanted k p found beams images tokens) ≡ check_token tokens (codes "SCAN"))
        × (any is_image (wanted k p found beams images tokens)
            ≡ (images && check_token tokens (codes "IMG")))
  unfolding wanted
  wanted-any images tokens = (ground arith, ground arith, ground arith)

  wanted_handlers-Fits :
      (images : Bool) (tokens : List (List ℕ)) (h : Handlers (k.F))
      → Fits images tokens h
      → Fits images tokens (wanted_handlers k p found beams images tokens h)
  unfolding wanted_handlers
  wanted_handlers-Fits images tokens h f =
      let (clouds, scans, imgs) = wanted-any images tokens in
      record {
        imu = ground (arith, f.imu);
        telemetry = ground (arith, f.telemetry);
        cloud = ground (arith, f.cloud, clouds);
        scan = ground (arith, f.scan, scans);
        image = ground (arith, f.image, imgs);
      }

  pub create_handlers-Fits :
      (images : Bool) (tokens : List (List ℕ)) (h : Handlers (k.F))
      → Fits images tokens h
      → Fits images tokens (create_handlers k p found beams images tokens h).0
  create_handlers-Fits images tokens h f =
      let law = create_handlers_lem k p found beams images tokens h in
      let accepted = is_ratio k p found beams && is_created k p found beams images tokens in
      elim (Bool-cases accepted) [
        | inl e ↦
            subst (Fits images tokens) (ground (arith, law, e))
              (wanted_handlers-Fits images tokens h f)
        | inr e ↦
            let imu = check_token tokens (codes "IMU") || h.imu_packet_handler in
            subst (Fits images tokens) {x = record h { imu_packet_handler = imu }}
              (ground (arith, law, e))
              (record {
                imu = ground (arith, f.imu);
                telemetry = f.telemetry;
                cloud = f.cloud;
                scan = f.scan;
                image = f.image;
              })
      ]
