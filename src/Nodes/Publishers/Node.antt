-- ===== src/Nodes/Publishers/Node.antt =====
-- A node from its start on: metadata that reach it, packets, and the scans that its processors handle.
use ouster_ros.Prelude.{
  ℕ, ◌≤◌, ◌≡◌, Bool, true, false, ◌||◌, Option, none, some, List, [], ◌∷◌, ◌++◌, map, length,
  if◌then◌else◌,
}
use ouster_ros.Nodes.Handlers.{Handlers, Found, Processor, point_cloud, laser_scan, image}
use ouster_ros.Nodes.Dispatch.{
  Action, publish_imu, publish_points, publish_scan, publish_telemetry, handle_lidar_packet,
  publish_lidar_packet, publish_imu_packet, Event, imu_packet, lidar_packet, clouds, scans,
  cloud_step, publish_msgs, on_lidar_packet_msg, on_imu_packet_msg,
}
use ouster_ros.Nodes.Dispatch
use ouster_ros.Nodes.Publishers.{
  Publisher, imu_pub, telemetry_pub, lidar_packet_pub, imu_packet_pub, lidar_pub, scan_pub,
  image_pub, image_msgs,
}

-- What happens to a node: new metadata, with the clouds that the factory makes and the beams; a packet or the messages
-- of a scan; the images of a scan, for two returns or one, with color or not.
pub data NodeInput (M L I : Type 0) : Type 0 where
  metadata : Found → ℕ → NodeInput M L I
  event : Event M L I → NodeInput M L I
  images : Bool → Bool → NodeInput M L I

-- The publishers that actions go to, in order.
unfoldable pub publishers : {M T L I : Type 0} → List (Action M T L I) → List Publisher
publishers [] = []
publishers (publish_imu msg ∷ actions) = imu_pub ∷ publishers actions
publishers (publish_points i msg ∷ actions) = lidar_pub i ∷ publishers actions
publishers (publish_scan i msg ∷ actions) = scan_pub i ∷ publishers actions
publishers (publish_telemetry msg ∷ actions) = telemetry_pub ∷ publishers actions
publishers (handle_lidar_packet packet ∷ actions) = publishers actions
publishers (publish_lidar_packet packet ∷ actions) = lidar_packet_pub ∷ publishers actions
publishers (publish_imu_packet packet ∷ actions) = imu_packet_pub ∷ publishers actions

abbrev pub is_cloud : Processor → Bool
is_cloud (point_cloud o) = true
is_cloud (laser_scan ring) = false
is_cloud (image mask) = false

abbrev pub is_scan : Processor → Bool
is_scan (point_cloud o) = false
is_scan (laser_scan ring) = true
is_scan (image mask) = false

abbrev pub is_image : Processor → Bool
is_image (point_cloud o) = false
is_image (laser_scan ring) = false
is_image (image mask) = true

abbrev pub any : (Processor → Bool) → List Processor → Bool
any test [] = false
any test (q ∷ qs) = test q || any test qs

-- A processor of some kind is run by the lidar packet handler.
abbrev pub runs : {R : Type 0} → (Processor → Bool) → Option (List Processor × R) → Bool
runs test none = false
runs test (some (qs, ratio)) = any test qs

module _ {M T L I : Type 0} (imu_handler : I → List M) (telemetry : L → T) where
  -- The handlers that are called, of those that are set.
  abbrev pub running : {R : Type 0} → Handlers R → Dispatch.Handlers M T L I
  running h = record {
    imu_packet_handler = if h.imu_packet_handler then some imu_handler else none;
    has_lidar_packet_handler = elim (h.lidar_packet_handler) [ none ↦ false | some l ↦ true ];
    telemetry_handler = if h.telemetry_handler then some telemetry else none;
  }

-- The callbacks of `OusterDriver`, which keeps no time of messages.
unfoldable pub driver_step :
    {M T L I : Type 0}
    → Bool
    → Dispatch.Handlers M T L I
    → Event M L I
    → ℕ
    → ℕ × List (Action M T L I)
driver_step publish_raw h (imu_packet packet) ts =
    (ts, on_imu_packet_msg (λ msg. 0) publish_raw h.imu_packet_handler packet)
driver_step publish_raw h (lidar_packet packet) ts = (ts, on_lidar_packet_msg publish_raw h packet)
driver_step publish_raw h (clouds msgs) ts =
    (ts, (publish_msgs (λ msg. 0) publish_points 0 msgs 0).1)
driver_step publish_raw h (scans msgs) ts = (ts, (publish_msgs (λ msg. 0) publish_scan 0 msgs 0).1)

-- Only processors that are run make messages, for two returns at most.
unfoldable pub Comes : {R M L I : Type 0} → Handlers R → NodeInput M L I → Type 0
Comes h (metadata found beams) = Unit
Comes h (event (imu_packet packet)) = Unit
Comes h (event (lidar_packet packet)) = Unit
Comes h (event (clouds msgs)) = (runs is_cloud h.lidar_packet_handler ≡ true) × (length msgs ≤ 2)
Comes h (event (scans msgs)) = (runs is_scan h.lidar_packet_handler ≡ true) × (length msgs ≤ 2)
Comes h (images two_returns has_rgb) = runs is_image h.lidar_packet_handler ≡ true

module _ {R M T L I : Type 0} (imu_handler : I → List M) (telemetry : L → T)
    (create : Found → ℕ → Handlers R → Handlers R × Bool)
    (step : Dispatch.Handlers M T L I → Event M L I → ℕ → ℕ × List (Action M T L I)) where
  -- What one input leaves: the handlers, the time of the newest message, what was published on, and whether an exception
  -- ends the node.
  unfoldable pub node_step :
      NodeInput M L I → Handlers R → ℕ → Handlers R × ℕ × List Publisher × Bool
  node_step (metadata found beams) h t =
      let (h', threw) = create found beams h in (h', t, [], threw)
  node_step (event e) h t =
      let (t', actions) = step (running imu_handler telemetry h) e t in
      (h, t', publishers actions, false)
  node_step (images two_returns has_rgb) h t =
      (h, t, map image_pub (image_msgs two_returns has_rgb), false)

  -- The publishers of all messages, in order, of a node that ends with its first exception.
  unfoldable pub run_node : List (NodeInput M L I) → Handlers R → ℕ → List Publisher
  unfolding node_step
  run_node [] h t = []
  run_node (i ∷ is) h t =
      let (h', t', used, threw) = node_step i h t in
      let rest = run_node is h' t' in if threw then used else used ++ rest

  unfoldable pub AllCome : List (NodeInput M L I) → Handlers R → ℕ → Type 0
  unfolding node_step Comes
  AllCome [] h t = Unit
  AllCome (i ∷ is) h t = let (h', t', used, threw) = node_step i h t in Comes h i × AllCome is h' t'
