-- ===== src/Nodes/Publishers/Advertised/ImageNode.antt =====
-- src/os_image_nodelet.cpp: the image node, from its start on.

use ouster_ros.Prelude.{ℕ, ◌≡◌, refl, Bool, true, false, List, [], ◌∷◌, if◌then◌else◌, arith, ◌++◌}
use ouster_ros.Float.{Float}
use ouster_ros.Ros.{Params}
use ouster_ros.Messages.Tokens.{check_token}
use ouster_ros.Nodes.Handlers.{codes, Handlers, Found, create_image, create_image_handlers}
use ouster_ros.Nodes.Dispatch.{
  Action, handle_lidar_packet, Event, imu_packet, lidar_packet, clouds, scans,
}
use ouster_ros.Nodes.Dispatch
use ouster_ros.Nodes.Publishers.{
  Publisher, Effect, image_pub, AllAdvertised, mask_tokens, image_effects, create_lidar_packets_sub,
  create_image_pubs, create_metadata_subscriber, when,
}
use ouster_ros.Nodes.Publishers.Node.{NodeInput, publishers, running, run_node, AllCome}
use ouster_ros.Nodes.Publishers.Fits.{Fits}
use ouster_ros.Nodes.Publishers.Advertised.{Provides, handled-AllAdvertised}
use ouster_ros.Nodes.Publishers.Advertised.Run.{StepIsSafe, run_node-AllAdvertised}
use ouster_ros.Nodes.Publishers.Advertised.Provided.{in_first, in_right, image-IsAdvertised}
use ouster_ros.Nodes.Publishers.Advertised.Safe.{no_handlers, no_handlers-Fits}

-- The callback of `lidar_packet_sub`; nothing else is subscribed to but metadata.
unfoldable pub image_step :
    {M T L I : Type 0} → Dispatch.Handlers M T L I → Event M L I → ℕ → ℕ × List (Action M T L I)
image_step h (imu_packet packet) ts = (ts, [])
image_step h (lidar_packet packet) ts =
    (ts, if h.has_lidar_packet_handler then handle_lidar_packet packet ∷ [] else [])
image_step h (clouds msgs) ts = (ts, [])
image_step h (scans msgs) ts = (ts, [])

-- The tokens that the node asks for, of those of its mask.
only_images : Bool → List (List ℕ)
only_images images = if images then codes "IMG" ∷ [] else []

effects-Provides :
    (images : Bool)
    → Provides true
        (only_images images)
        false
        (when images (create_lidar_packets_sub ++ create_image_pubs) ++ create_metadata_subscriber)
unfolding only_images check_token
effects-Provides true = record {
  imu = λ e. cc;
  telemetry = λ e. cc;
  cloud = λ e i lt. cc;
  scan = λ e i lt. cc;
  image = λ e f.
      in_first (image_pub f) true (create_lidar_packets_sub ++ create_image_pubs)
        create_metadata_subscriber refl
        (in_right (image_pub f) create_lidar_packets_sub create_image_pubs (image-IsAdvertised f));
  raw_lidar = λ e. cc;
  raw_imu = λ e. cc;
}
effects-Provides false = record {
  imu = λ e. cc;
  telemetry = λ e. cc;
  cloud = λ e i lt. cc;
  scan = λ e i lt. cc;
  image = λ e f. cc;
  raw_lidar = λ e. cc;
  raw_imu = λ e. cc;
}

module _ (k : Float) (p : Params (k.F)) where
  -- `OusterImage::metadata_handler`, for the tokens of `proc_mask`.
  unfoldable pub image_metadata_handler :
      List (List ℕ) → Found → ℕ → Handlers k.F → Handlers k.F × Bool
  image_metadata_handler tokens found beams h =
      if check_token tokens (codes "IMG") then create_image_handlers k p found h else (h, false)

  created-Fits :
      (found : Found) (tokens : List (List ℕ)) (h : Handlers k.F)
      → Fits true tokens h
      → check_token tokens (codes "IMG") ≡ true
      → Fits true tokens (create_image_handlers k p found h).0
  unfolding create_image_handlers create_image
  created-Fits found tokens h f e = record {
    imu = ground (arith, f.imu);
    telemetry = ground (arith, f.telemetry);
    cloud = ground (arith, f.cloud);
    scan = ground (arith, f.scan);
    image = ground (arith, f.image, e);
  }

  handled-Fits :
      (found : Found) (images : Bool) (h : Handlers k.F)
      → Fits true (only_images images) h
      → Fits true
          (only_images images)
          (if images then create_image_handlers k p found h else (h, false)).0
  unfolding only_images check_token
  handled-Fits found true h f = created-Fits found (codes "IMG" ∷ []) h f refl
  handled-Fits found false h f = f

  image_metadata_handler-Fits :
      (tokens : List (List ℕ)) (found : Found) (beams : ℕ) (h : Handlers k.F)
      → Fits true (only_images (check_token tokens (codes "IMG"))) h
      → Fits true
          (only_images (check_token tokens (codes "IMG")))
          (image_metadata_handler tokens found beams h).0
  unfolding image_metadata_handler
  image_metadata_handler-Fits tokens found beams h f =
      handled-Fits found (check_token tokens (codes "IMG")) h f

  module _ {M T L I : Type 0} (imu_handler : I → List M) (telemetry : L → T) where
    -- The publishers of all messages of an image node, in order, from its start on.
    unfoldable pub image_node : List (NodeInput M L I) → List Publisher
    image_node inputs =
        run_node imu_handler telemetry (image_metadata_handler (mask_tokens p "IMG")) image_step
          inputs no_handlers 0

    unfoldable pub ImageAllCome : List (NodeInput M L I) → Type 0
    ImageAllCome inputs =
        AllCome imu_handler telemetry (image_metadata_handler (mask_tokens p "IMG")) image_step
          inputs no_handlers 0

    image_step-IsSafe :
        (tokens : List (List ℕ)) (effects : List Effect)
        (provided : Provides true tokens false effects)
        → StepIsSafe (k.F) imu_handler telemetry true tokens false effects provided image_step
    unfolding StepIsSafe image_step AllAdvertised publishers
    image_step-IsSafe tokens effects provided h (imu_packet packet) t f come = tt
    image_step-IsSafe tokens effects provided h (lidar_packet packet) t f come =
        handled-AllAdvertised M T L I effects
          (running imu_handler telemetry h).has_lidar_packet_handler packet
    image_step-IsSafe tokens effects provided h (clouds msgs) t f come = tt
    image_step-IsSafe tokens effects provided h (scans msgs) t f come = tt

    -- The image node publishes images, and only with publishers that its `onInit` has advertised, whatever metadata,
    -- packets and scans reach it, if images come from a processor that it runs, and `proc_mask` stays as it is: each
    -- field of the map of images, for one return or two, with color or not, has a publisher in the map of publishers.
    pub image_node-AllAdvertised :
        (inputs : List (NodeInput M L I))
        → ImageAllCome inputs
        → AllAdvertised (image_node inputs) (image_effects (mask_tokens p "IMG"))
    unfolding image_node ImageAllCome image_effects
    image_node-AllAdvertised inputs come =
        let tokens = mask_tokens p "IMG" in
        let images = check_token tokens (codes "IMG") in
        let effects = image_effects tokens in
        run_node-AllAdvertised (k.F) imu_handler telemetry true (only_images images) false effects
          (effects-Provides images) (image_metadata_handler tokens) image_step
          (image_metadata_handler-Fits tokens)
          (image_step-IsSafe (only_images images) effects (effects-Provides images)) inputs
          no_handlers 0 (no_handlers-Fits true (only_images images)) come
