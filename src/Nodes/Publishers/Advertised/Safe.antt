-- ===== src/Nodes/Publishers/Advertised/Safe.antt =====
-- The cloud node and the driver, from their start on.
use Prim.Native.String.{String}
use ouster_ros.Prelude.{ℕ, ◌≡◌, refl, Bool, true, false, Option, none, some, List}
use ouster_ros.Float.{Float}
use ouster_ros.Ros.{Params}
use ouster_ros.Messages.Tokens.{
  parse_tokens, check_token, insert_lines, getlines, insert_trimmed, insert, trim,
  find_first_not_of, find_last_not_of,
}
use ouster_ros.Nodes.Handlers.{
  codes, Handlers, Found, create_cloud_handlers, create_driver_handlers,
}
use ouster_ros.Nodes.Dispatch.{cloud_step}
use ouster_ros.Nodes.Publishers.{
  Publisher, Effect, AllAdvertised, mask_tokens, cloud_effects, driver_effects,
}
use ouster_ros.Nodes.Publishers.Node.{NodeInput, driver_step, run_node, AllCome}
use ouster_ros.Nodes.Publishers.Fits.{Fits, create_handlers-Fits}
use ouster_ros.Nodes.Publishers.Advertised.{Provides}
use ouster_ros.Nodes.Publishers.Advertised.Run.{
  cloud_step-IsSafe, driver_step-IsSafe, run_node-AllAdvertised,
}
use ouster_ros.Nodes.Publishers.Advertised.Provided.{
  cloud_effects-Provides, driver_effects-Provides,
}

-- The handlers of a node that has seen no metadata.
abbrev pub no_handlers : {R : Type 0} → Handlers R
no_handlers = record {
  imu_packet_handler = false;
  lidar_packet_handler = none;
  telemetry_handler = false;
}

pub no_handlers-Fits :
    {R : Type 0} (images : Bool) (tokens : List (List ℕ)) → Fits {R = R} images tokens no_handlers
no_handlers-Fits images tokens = record {
  imu = refl;
  telemetry = refl;
  cloud = refl;
  scan = refl;
  image = refl;
}

-- Each token of a processor or handler that the first mask has, the second has too.
Covers : List (List ℕ) → List (List ℕ) → Type 0
Covers ts us =
    (check_token ts (codes "IMU") ≡ true → check_token us (codes "IMU") ≡ true)
    × (check_token ts (codes "TLM") ≡ true → check_token us (codes "TLM") ≡ true)
    × (check_token ts (codes "PCL") ≡ true → check_token us (codes "PCL") ≡ true)
    × (check_token ts (codes "SCAN") ≡ true → check_token us (codes "SCAN") ≡ true)
    × (check_token ts (codes "IMG") ≡ true → check_token us (codes "IMG") ≡ true)

-- `create_handlers` and `onInit` of the driver take different texts where `proc_mask` is not set.
driver-Covers :
    (given : Option String)
    → Covers
        (parse_tokens (codes (elim given [ none ↦ "IMU|IMG|PCL|SCAN" | some v ↦ v ])) b'|')
        (parse_tokens (codes (elim given [ none ↦ "IMU|PCL|SCAN|IMG|RAW" | some v ↦ v ])) b'|')
unfolding Covers parse_tokens check_token insert_lines getlines insert_trimmed insert trim
    find_first_not_of find_last_not_of
driver-Covers none = (λ e. refl, λ e. cc e, λ e. refl, λ e. refl, λ e. refl)
driver-Covers (some v) = (λ e. e, λ e. e, λ e. e, λ e. e, λ e. e)

Provides-covered :
    (publish_raw : Bool) (ts us : List (List ℕ)) (effects : List Effect)
    → Covers ts us
    → Provides true us publish_raw effects
    → Provides true ts publish_raw effects
unfolding Covers
Provides-covered publish_raw ts us effects (imu, telemetry, cloud, scan, image) given = record {
  imu = λ e. given.imu (imu e);
  telemetry = λ e. given.telemetry (telemetry e);
  cloud = λ e. given.cloud (cloud e);
  scan = λ e. given.scan (scan e);
  image = λ e. given.image (image e);
  raw_lidar = given.raw_lidar;
  raw_imu = given.raw_imu;
}

module _ (k : Float) (p : Params (k.F)) {M T L I : Type 0} (imu_handler : I → List M)
    (telemetry : L → T) where
  -- The publishers of all messages of a cloud node, in order, from its start on.
  unfoldable pub cloud_node : (M → ℕ) → List (NodeInput M L I) → ℕ → List Publisher
  cloud_node stamp inputs t =
      run_node imu_handler telemetry (create_cloud_handlers k p) (cloud_step stamp) inputs
        no_handlers t

  unfoldable pub CloudAllCome : (M → ℕ) → List (NodeInput M L I) → ℕ → Type 0
  CloudAllCome stamp inputs t =
      AllCome imu_handler telemetry (create_cloud_handlers k p) (cloud_step stamp) inputs
        no_handlers t

  -- Whether the driver publishes the packets themselves.
  unfoldable pub publish_raw : Bool
  publish_raw = check_token (mask_tokens p "IMU|PCL|SCAN|IMG|RAW") (codes "RAW")

  unfoldable pub driver_node : List (NodeInput M L I) → ℕ → List Publisher
  driver_node inputs t =
      run_node imu_handler telemetry (create_driver_handlers k p) (driver_step publish_raw) inputs
        no_handlers t

  unfoldable pub DriverAllCome : List (NodeInput M L I) → ℕ → Type 0
  DriverAllCome inputs t =
      AllCome imu_handler telemetry (create_driver_handlers k p) (driver_step publish_raw) inputs
        no_handlers t

  create_cloud_handlers-Fits :
      (found : Found) (beams : ℕ) (h : Handlers (k.F))
      → Fits false (mask_tokens p "IMU|PCL|SCAN") h
      → Fits false (mask_tokens p "IMU|PCL|SCAN") (create_cloud_handlers k p found beams h).0
  unfolding create_cloud_handlers mask_tokens
  create_cloud_handlers-Fits found beams h f =
      create_handlers-Fits k p found beams false (mask_tokens p "IMU|PCL|SCAN") h f

  create_driver_handlers-Fits :
      (found : Found) (beams : ℕ) (h : Handlers (k.F))
      → Fits true (mask_tokens p "IMU|IMG|PCL|SCAN") h
      → Fits true (mask_tokens p "IMU|IMG|PCL|SCAN") (create_driver_handlers k p found beams h).0
  unfolding create_driver_handlers mask_tokens
  create_driver_handlers-Fits found beams h f =
      create_handlers-Fits k p found beams true (mask_tokens p "IMU|IMG|PCL|SCAN") h f

  module _ (append_number : String → ℕ → String) where
    -- Whatever metadata, packets and scans reach the cloud node, in any order, every message goes to a publisher that
    -- its `onInit` has advertised: no index of the vectors of publishers is out of range, and no publisher is empty,
    -- if only processors that are run make messages, for two returns at most, and `proc_mask` stays as it is.
    pub cloud_node-AllAdvertised :
        (stamp : M → ℕ) (inputs : List (NodeInput M L I)) (t : ℕ)
        → CloudAllCome stamp inputs t
        → AllAdvertised
            (cloud_node stamp inputs t)
            (cloud_effects append_number (mask_tokens p "IMU|PCL|SCAN"))
    unfolding cloud_node CloudAllCome
    cloud_node-AllAdvertised stamp inputs t come =
        let tokens = mask_tokens p "IMU|PCL|SCAN" in
        let effects = cloud_effects append_number tokens in
        let provided = cloud_effects-Provides append_number tokens in
        run_node-AllAdvertised (k.F) imu_handler telemetry false tokens false effects provided
          (create_cloud_handlers k p) (cloud_step stamp) create_cloud_handlers-Fits
          (cloud_step-IsSafe (k.F) imu_handler telemetry false tokens false effects provided stamp)
          inputs no_handlers t (no_handlers-Fits false tokens) come

    driver-Provides :
        Provides true
          (mask_tokens p "IMU|IMG|PCL|SCAN")
          publish_raw
          (driver_effects append_number (mask_tokens p "IMU|PCL|SCAN|IMG|RAW"))
    unfolding mask_tokens
    driver-Provides =
        Provides-covered publish_raw (mask_tokens p "IMU|IMG|PCL|SCAN")
          (mask_tokens p "IMU|PCL|SCAN|IMG|RAW")
          (driver_effects append_number (mask_tokens p "IMU|PCL|SCAN|IMG|RAW"))
          (driver-Covers (p.text "proc_mask"))
          (driver_effects-Provides append_number publish_raw (mask_tokens p "IMU|PCL|SCAN|IMG|RAW"))

    -- The driver, which publishes images and the packets themselves too, publishes on nothing that its `onInit` has not
    -- advertised, under the same conditions, although `onInit` and `create_handlers` take different texts where
    -- `proc_mask` is not set.
    pub driver_node-AllAdvertised :
        (inputs : List (NodeInput M L I)) (t : ℕ)
        → DriverAllCome inputs t
        → AllAdvertised
            (driver_node inputs t)
            (driver_effects append_number (mask_tokens p "IMU|PCL|SCAN|IMG|RAW"))
    unfolding driver_node DriverAllCome
    driver_node-AllAdvertised inputs t come =
        let tokens = mask_tokens p "IMU|IMG|PCL|SCAN" in
        let effects = driver_effects append_number (mask_tokens p "IMU|PCL|SCAN|IMG|RAW") in
        run_node-AllAdvertised (k.F) imu_handler telemetry true tokens publish_raw effects
          driver-Provides (create_driver_handlers k p) (driver_step publish_raw)
          create_driver_handlers-Fits
          (driver_step-IsSafe (k.F) imu_handler telemetry true tokens publish_raw effects
            driver-Provides)
          inputs no_handlers t (no_handlers-Fits true tokens) come
