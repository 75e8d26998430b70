-- ===== src/Nodes/Dispatch.antt =====
-- src/os_cloud_nodelet.cpp, src/os_driver_nodelet.cpp: what the nodes do with packets, and with what the processors make
-- of scans. A message is whatever has a stamp; handlers are arguments.
pub mod Newest
use ouster_ros.Prelude.{
  ℕ, zero, suc, ◌≤◌, ◌≡◌, refl, ap, ◌∙◌, Bool, true, false, ◌||◌, Option, none, some, List, [], ◌∷◌,
  ◌++◌, ltb, if◌then◌else◌, arith,
}

-- What is published, or handed to the lidar packet handler, in order.
pub data Action (M T L I : Type 0) : Type 0 where
  publish_imu : M → Action M T L I
  publish_points : ℕ → M → Action M T L I
  publish_scan : ℕ → M → Action M T L I
  publish_telemetry : T → Action M T L I
  handle_lidar_packet : L → Action M T L I
  publish_lidar_packet : L → Action M T L I
  publish_imu_packet : I → Action M T L I

-- What reaches the node: a packet, or the messages of the returns of a scan.
pub data Event (M L I : Type 0) : Type 0 where
  imu_packet : I → Event M L I
  lidar_packet : L → Event M L I
  clouds : List M → Event M L I
  scans : List M → Event M L I

pub record Handlers (M T L I : Type 0) : Type 0 where
  pub imu_packet_handler : Option (I → List M)
  pub has_lidar_packet_handler : Bool
  pub telemetry_handler : Option (L → T)

-- `if (msg.header.stamp > last_msg_ts) last_msg_ts = msg.header.stamp;`
abbrev pub later : {M : Type 0} → (M → ℕ) → ℕ → M → ℕ
later stamp last_msg_ts msg = if ltb last_msg_ts (stamp msg) then stamp msg else last_msg_ts

module _ {M T L I : Type 0} where
  unfoldable pub on_telemetry : Option (L → T) → L → List (Action M T L I)
  on_telemetry none packet = []
  on_telemetry (some handler) packet = publish_telemetry (handler packet) ∷ []

  unfoldable pub on_lidar_packet : Handlers M T L I → L → List (Action M T L I)
  unfolding on_telemetry
  on_lidar_packet h packet =
      on_telemetry h.telemetry_handler packet
      ++ (if h.has_lidar_packet_handler then handle_lidar_packet packet ∷ [] else [])

  unfoldable pub on_lidar_packet_msg : Bool → Handlers M T L I → L → List (Action M T L I)
  unfolding on_lidar_packet
  on_lidar_packet_msg publish_raw h packet =
      on_lidar_packet h packet ++ (if publish_raw then publish_lidar_packet packet ∷ [] else [])

module _ {M T L I : Type 0} (stamp : M → ℕ) where
  -- A loop over messages, the `i`-th of which goes to its publisher.
  unfoldable pub publish_msgs :
      (ℕ → M → Action M T L I) → ℕ → List M → ℕ → ℕ × List (Action M T L I)
  publish_msgs publish i [] last_msg_ts = (last_msg_ts, [])
  publish_msgs publish i (msg ∷ msgs) last_msg_ts =
      let (ts, actions) = publish_msgs publish (suc i) msgs (later stamp last_msg_ts msg) in
      (ts, publish i msg ∷ actions)

  unfoldable pub on_imu_packet : Option (I → List M) → I → ℕ → ℕ × List (Action M T L I)
  unfolding publish_msgs
  on_imu_packet none packet last_msg_ts = (last_msg_ts, [])
  on_imu_packet (some handler) packet last_msg_ts =
      publish_msgs (λ i msg. publish_imu msg) 0 (handler packet) last_msg_ts

  -- The callbacks of `OusterCloud`.
  unfoldable pub cloud_step : Handlers M T L I → Event M L I → ℕ → ℕ × List (Action M T L I)
  unfolding on_imu_packet on_lidar_packet publish_msgs
  cloud_step h (imu_packet packet) last_msg_ts =
      on_imu_packet h.imu_packet_handler packet last_msg_ts
  cloud_step h (lidar_packet packet) last_msg_ts = (last_msg_ts, on_lidar_packet h packet)
  cloud_step h (clouds msgs) last_msg_ts = publish_msgs publish_points 0 msgs last_msg_ts
  cloud_step h (scans msgs) last_msg_ts = publish_msgs publish_scan 0 msgs last_msg_ts

  unfoldable pub run_cloud : Handlers M T L I → List (Event M L I) → ℕ → ℕ × List (Action M T L I)
  unfolding cloud_step
  run_cloud h [] last_msg_ts = (last_msg_ts, [])
  run_cloud h (e ∷ es) last_msg_ts =
      let (ts, actions) = cloud_step h e last_msg_ts in
      let (ts', actions') = run_cloud h es ts in (ts', actions ++ actions')

  unfoldable pub on_imu_packet_msg : Bool → Option (I → List M) → I → List (Action M T L I)
  unfolding on_imu_packet
  on_imu_packet_msg publish_raw handler packet =
      (on_imu_packet handler packet 0).1
      ++ (if publish_raw then publish_imu_packet packet ∷ [] else [])
