-- ===== src/Nodes/Publishers/Advertised/Run.antt =====
-- The steps of the cloud node and of the driver, and a node's run.
use ouster_ros.Prelude.{
  ℕ, ◌≡◌, ◌≢◌, refl, Bool, true, false, Option, none, some, List, [], ◌∷◌, ◌++◌, map, if◌then◌else◌,
  arith,
}
use ouster_ros.Nodes.Handlers.{Handlers, Found}
use ouster_ros.Nodes.Dispatch.{
  Action, publish_imu, publish_points, publish_scan, publish_lidar_packet, publish_imu_packet,
  Event, imu_packet, lidar_packet, clouds, scans, cloud_step, publish_msgs, on_imu_packet,
  on_lidar_packet, on_lidar_packet_msg, on_imu_packet_msg,
}
use ouster_ros.Nodes.Dispatch
use ouster_ros.Nodes.Publishers.{
  Publisher, imu_pub, telemetry_pub, lidar_pub, scan_pub, image_pub, ImageField, image_msgs, Effect,
  IsAdvertised, AllAdvertised,
}
use ouster_ros.Nodes.Publishers.Node.{
  NodeInput, metadata, event, images, publishers, is_cloud, is_scan, is_image, runs, running,
  driver_step, Comes, node_step, run_node, AllCome,
}
use ouster_ros.Nodes.Publishers.Fits.{Fits}
use ouster_ros.Nodes.Publishers.Advertised.{
  Provides, implied, AllAdvertised-append, publish_msgs-AllAdvertised, append_actions,
  on_imu_packet-AllAdvertised, on_lidar_packet-AllAdvertised,
}

-- A handler that is called only where it is set.
set_handler :
    {A : Type 0} (b : Bool) (handler : A) → (if b then some handler else none) ≢ none → b ≡ true
set_handler true handler h = refl
set_handler false handler h = absurd (h refl)

-- What is published raw where it is asked for.
raw-AllAdvertised :
    {M T L I : Type 0} (effects : List Effect) (publish_raw : Bool) (action : Action M T L I)
    → (publish_raw ≡ true → AllAdvertised (publishers (action ∷ [])) effects)
    → AllAdvertised (publishers (if publish_raw then action ∷ [] else [])) effects
unfolding AllAdvertised publishers
raw-AllAdvertised effects true action h = h refl
raw-AllAdvertised effects false action h = tt

module _ (R : Type 0) {M T L I : Type 0} (imu_handler : I → List M) (telemetry : L → T)
    (has_images : Bool) (tokens : List (List ℕ)) (publish_raw : Bool) (effects : List Effect)
    (provided : Provides has_images tokens publish_raw effects) where
  -- A step publishes on what is advertised, whatever handlers the tokens ask for.
  unfoldable pub StepIsSafe :
      (Dispatch.Handlers M T L I → Event M L I → ℕ → ℕ × List (Action M T L I)) → Type 0
  StepIsSafe step =
      (h : Handlers R) (e : Event M L I) (t : ℕ)
      → Fits has_images tokens h
      → Comes h (event e)
      → AllAdvertised (publishers (step (running imu_handler telemetry h) e t).1) effects

  imu_asked :
      (h : Handlers R)
      → Fits has_images tokens h
      → (if h.imu_packet_handler then some imu_handler else none) ≢ none
      → IsAdvertised imu_pub effects
  imu_asked h f set =
      provided.imu (implied h.imu_packet_handler _ f.imu (set_handler _ imu_handler set))

  telemetry_asked :
      (h : Handlers R)
      → Fits has_images tokens h
      → (if h.telemetry_handler then some telemetry else none) ≢ none
      → IsAdvertised telemetry_pub effects
  telemetry_asked h f set =
      provided.telemetry (implied h.telemetry_handler _ f.telemetry (set_handler _ telemetry set))

  clouds_asked :
      (h : Handlers R) (stamp : M → ℕ) (msgs : List M) (t : ℕ)
      → Fits has_images tokens h
      → Comes {L = L} {I = I} h (event (clouds msgs))
      → AllAdvertised
          (publishers (publish_msgs {T = T} {L = L} {I = I} stamp publish_points 0 msgs t).1)
          effects
  unfolding Comes publishers
  clouds_asked h stamp msgs t f (made, two) =
      publish_msgs-AllAdvertised M T L I effects stamp publish_points lidar_pub
        (λ i msg actions. refl) 2 0 msgs t (omega arith)
        (provided.cloud (implied (runs is_cloud h.lidar_packet_handler) _ f.cloud made))

  scans_asked :
      (h : Handlers R) (stamp : M → ℕ) (msgs : List M) (t : ℕ)
      → Fits has_images tokens h
      → Comes {L = L} {I = I} h (event (scans msgs))
      → AllAdvertised
          (publishers (publish_msgs {T = T} {L = L} {I = I} stamp publish_scan 0 msgs t).1)
          effects
  unfolding Comes publishers
  scans_asked h stamp msgs t f (made, two) =
      publish_msgs-AllAdvertised M T L I effects stamp publish_scan scan_pub (λ i msg actions. refl)
        2 0 msgs t (omega arith)
        (provided.scan (implied (runs is_scan h.lidar_packet_handler) _ f.scan made))

  pub cloud_step-IsSafe : (stamp : M → ℕ) → StepIsSafe (cloud_step stamp)
  unfolding StepIsSafe cloud_step
  cloud_step-IsSafe stamp h (imu_packet packet) t f come =
      on_imu_packet-AllAdvertised M T L I effects stamp _ packet t (imu_asked h f)
  cloud_step-IsSafe stamp h (lidar_packet packet) t f come =
      on_lidar_packet-AllAdvertised M T L I effects (running imu_handler telemetry h) packet
        (telemetry_asked h f)
  cloud_step-IsSafe stamp h (clouds msgs) t f come = clouds_asked h stamp msgs t f come
  cloud_step-IsSafe stamp h (scans msgs) t f come = scans_asked h stamp msgs t f come

  pub driver_step-IsSafe : StepIsSafe (driver_step publish_raw)
  unfolding StepIsSafe driver_step on_imu_packet_msg on_lidar_packet_msg publishers AllAdvertised
  driver_step-IsSafe h (imu_packet packet) t f come =
      let handler : Option (I → List M) = if h.imu_packet_handler then some imu_handler else none in
      append_actions M T L I effects (on_imu_packet (λ msg. 0) handler packet 0).1
        (if publish_raw then publish_imu_packet packet ∷ [] else [])
        (on_imu_packet-AllAdvertised M T L I effects (λ msg. 0) handler packet 0 (imu_asked h f))
        (raw-AllAdvertised {M = M} {T = T} {L = L} effects publish_raw (publish_imu_packet packet)
          (λ e. (provided.raw_imu e, tt)))
  driver_step-IsSafe h (lidar_packet packet) t f come =
      append_actions M T L I effects (on_lidar_packet (running imu_handler telemetry h) packet)
        (if publish_raw then publish_lidar_packet packet ∷ [] else [])
        (on_lidar_packet-AllAdvertised M T L I effects (running imu_handler telemetry h) packet
          (telemetry_asked h f))
        (raw-AllAdvertised {M = M} {T = T} {I = I} effects publish_raw (publish_lidar_packet packet)
          (λ e. (provided.raw_lidar e, tt)))
  driver_step-IsSafe h (clouds msgs) t f come = clouds_asked h (λ msg. 0) msgs 0 f come
  driver_step-IsSafe h (scans msgs) t f come = scans_asked h (λ msg. 0) msgs 0 f come

  module _ (create : Found → ℕ → Handlers R → Handlers R × Bool)
      (step : Dispatch.Handlers M T L I → Event M L I → ℕ → ℕ × List (Action M T L I))
      (create_fits : (found : Found) (beams : ℕ) (h : Handlers R)
        → Fits has_images tokens h
        → Fits has_images tokens (create found beams h).0)
      (step_safe : StepIsSafe step) where
    images_asked :
        (h : Handlers R) (fields : List ImageField)
        → Fits has_images tokens h
        → runs is_image h.lidar_packet_handler ≡ true
        → AllAdvertised (map image_pub fields) effects
    unfolding AllAdvertised
    images_asked h [] f made = tt
    images_asked h (field ∷ fields) f made = (
      provided.image (implied (runs is_image h.lidar_packet_handler) _ f.image made) field,
      images_asked h fields f made,
    )

    node_step-Fits :
        (i : NodeInput M L I) (h : Handlers R) (t : ℕ)
        → Fits has_images tokens h
        → Fits has_images tokens (node_step imu_handler telemetry create step i h t).0
    unfolding node_step
    node_step-Fits (metadata found beams) h t f = create_fits found beams h f
    node_step-Fits (event e) h t f = f
    node_step-Fits (images two_returns has_rgb) h t f = f

    node_step-AllAdvertised :
        (i : NodeInput M L I) (h : Handlers R) (t : ℕ)
        → Fits has_images tokens h
        → Comes h i
        → AllAdvertised (node_step imu_handler telemetry create step i h t).2 effects
    unfolding node_step Comes AllAdvertised StepIsSafe
    node_step-AllAdvertised (metadata found beams) h t f come = tt
    node_step-AllAdvertised (event e) h t f come = step_safe h e t f come
    node_step-AllAdvertised (images two_returns has_rgb) h t f come =
        images_asked h (image_msgs two_returns has_rgb) f come

    ends :
        (threw : Bool) (used rest : List Publisher)
        → AllAdvertised used effects
        → AllAdvertised rest effects
        → AllAdvertised (if threw then used else used ++ rest) effects
    ends true used rest h k = h
    ends false used rest h k = AllAdvertised-append used rest effects h k

    pub run_node-AllAdvertised :
        (is : List (NodeInput M L I)) (h : Handlers R) (t : ℕ)
        → Fits has_images tokens h
        → AllCome imu_handler telemetry create step is h t
        → AllAdvertised (run_node imu_handler telemetry create step is h t) effects
    unfolding run_node AllCome AllAdvertised
    run_node-AllAdvertised [] h t f come = tt
    run_node-AllAdvertised (i ∷ is) h t f (come, more) =
        let (h', t', used, threw) = node_step imu_handler telemetry create step i h t in
        ends threw used (run_node imu_handler telemetry create step is h' t')
          (node_step-AllAdvertised i h t f come)
          (run_node-AllAdvertised is h' t' (node_step-Fits i h t f) more)
