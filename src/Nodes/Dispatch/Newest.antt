-- ===== src/Nodes/Dispatch/Newest.antt =====
-- The time of the newest message that `OusterCloud` has published.
use ouster_ros.Prelude.{
  ℕ, suc, ◌≤◌, ◌≡◌, refl, sym, subst, ap, ◌∙◌, Bool, true, false, Option, none, some, List, [], ◌∷◌,
  ◌++◌, if◌then◌else◌, arith,
}
use ouster_ros.Nodes.Dispatch.{
  Action, publish_imu, publish_points, publish_scan, publish_telemetry, handle_lidar_packet,
  publish_lidar_packet, publish_imu_packet, Event, imu_packet, lidar_packet, clouds, scans,
  Handlers, later, publish_msgs, on_imu_packet, on_telemetry, cloud_step, run_cloud,
}

module _ {M T L I : Type 0} (stamp : M → ℕ) where
  -- The later of a time and the newest stamp of the messages that are published.
  unfoldable pub newest : ℕ → List (Action M T L I) → ℕ
  newest t [] = t
  newest t (publish_imu msg ∷ actions) = newest (later stamp t msg) actions
  newest t (publish_points i msg ∷ actions) = newest (later stamp t msg) actions
  newest t (publish_scan i msg ∷ actions) = newest (later stamp t msg) actions
  newest t (publish_telemetry msg ∷ actions) = newest t actions
  newest t (handle_lidar_packet p ∷ actions) = newest t actions
  newest t (publish_lidar_packet p ∷ actions) = newest t actions
  newest t (publish_imu_packet p ∷ actions) = newest t actions

  newest-append :
      (xs ys : List (Action M T L I)) (t : ℕ) → newest t (xs ++ ys) ≡ newest (newest t xs) ys
  unfolding newest
  newest-append [] ys t = refl
  newest-append (publish_imu msg ∷ xs) ys t = newest-append xs ys (later stamp t msg)
  newest-append (publish_points i msg ∷ xs) ys t = newest-append xs ys (later stamp t msg)
  newest-append (publish_scan i msg ∷ xs) ys t = newest-append xs ys (later stamp t msg)
  newest-append (publish_telemetry msg ∷ xs) ys t = newest-append xs ys t
  newest-append (handle_lidar_packet p ∷ xs) ys t = newest-append xs ys t
  newest-append (publish_lidar_packet p ∷ xs) ys t = newest-append xs ys t
  newest-append (publish_imu_packet p ∷ xs) ys t = newest-append xs ys t

  publish_msgs-newest :
      (publish : ℕ → M → Action M T L I)
      → ((i : ℕ) (msg : M) (actions : List (Action M T L I)) (t : ℕ)
          → newest t (publish i msg ∷ actions) ≡ newest (later stamp t msg) actions)
      → (i : ℕ) (msgs : List M) (t : ℕ)
      → newest t (publish_msgs stamp publish i msgs t).1 ≡ (publish_msgs stamp publish i msgs t).0
  unfolding publish_msgs newest
  publish_msgs-newest publish h i [] t = refl
  publish_msgs-newest publish h i (msg ∷ msgs) t =
      h i msg (publish_msgs stamp publish (suc i) msgs (later stamp t msg)).1 t
      ∙ publish_msgs-newest publish h (suc i) msgs (later stamp t msg)

module _ (M T L I : Type 0) (stamp : M → ℕ) where
  quiet :
      (telemetry : Option (L → T)) (handled : Bool) (packet : L) (t : ℕ)
      → newest {M = M} {T = T} {L = L} {I = I} stamp t (
          on_telemetry telemetry packet
          ++ (if handled then handle_lidar_packet packet ∷ [] else []))
        ≡ t
  unfolding on_telemetry newest
  quiet none true packet t = refl
  quiet none false packet t = refl
  quiet (some f) true packet t = refl
  quiet (some f) false packet t = refl

  on_imu_packet-newest :
      (handler : Option (I → List M)) (packet : I) (t : ℕ)
      → newest {M = M} {T = T} {L = L} {I = I} stamp t
          (on_imu_packet {T = T} {L = L} stamp handler packet t).1
        ≡ (on_imu_packet {T = T} {L = L} stamp handler packet t).0
  unfolding on_imu_packet newest
  on_imu_packet-newest none packet t = refl
  on_imu_packet-newest (some handler) packet t =
      publish_msgs-newest stamp (λ i msg. publish_imu msg) (λ i msg actions s. refl) 0
        (handler packet) t

  newest-none : (t : ℕ) → newest {M = M} {T = T} {L = L} {I = I} stamp t [] ≡ t
  unfolding newest
  newest-none t = refl

module _ {M T L I : Type 0} (stamp : M → ℕ) where
  cloud_step-newest :
      (h : Handlers M T L I) (e : Event M L I) (t : ℕ)
      → newest stamp t (cloud_step stamp h e t).1 ≡ (cloud_step stamp h e t).0
  unfolding cloud_step newest
  cloud_step-newest h (imu_packet packet) t =
      on_imu_packet-newest M T L I stamp h.imu_packet_handler packet t
  cloud_step-newest h (lidar_packet packet) t =
      quiet M T L I stamp h.telemetry_handler h.has_lidar_packet_handler packet t
  cloud_step-newest h (clouds msgs) t =
      publish_msgs-newest stamp publish_points (λ i msg actions s. refl) 0 msgs t
  cloud_step-newest h (scans msgs) t =
      publish_msgs-newest stamp publish_scan (λ i msg actions s. refl) 0 msgs t

  -- No message with a stamp is newer than the time.
  unfoldable pub NoneNewer : ℕ → List (Action M T L I) → Type 0
  NoneNewer t [] = Unit
  NoneNewer t (publish_imu msg ∷ actions) = (stamp msg ≤ t) × NoneNewer t actions
  NoneNewer t (publish_points i msg ∷ actions) = (stamp msg ≤ t) × NoneNewer t actions
  NoneNewer t (publish_scan i msg ∷ actions) = (stamp msg ≤ t) × NoneNewer t actions
  NoneNewer t (publish_telemetry msg ∷ actions) = NoneNewer t actions
  NoneNewer t (handle_lidar_packet p ∷ actions) = NoneNewer t actions
  NoneNewer t (publish_lidar_packet p ∷ actions) = NoneNewer t actions
  NoneNewer t (publish_imu_packet p ∷ actions) = NoneNewer t actions

  le-newest : (t : ℕ) (actions : List (Action M T L I)) → t ≤ newest stamp t actions
  unfolding newest
  le-newest t [] = omega arith
  le-newest t (publish_imu msg ∷ actions) = ground (arith, le-newest (later stamp t msg) actions)
  le-newest t (publish_points i msg ∷ actions) =
      ground (arith, le-newest (later stamp t msg) actions)
  le-newest t (publish_scan i msg ∷ actions) = ground (arith, le-newest (later stamp t msg) actions)
  le-newest t (publish_telemetry msg ∷ actions) = le-newest t actions
  le-newest t (handle_lidar_packet p ∷ actions) = le-newest t actions
  le-newest t (publish_lidar_packet p ∷ actions) = le-newest t actions
  le-newest t (publish_imu_packet p ∷ actions) = le-newest t actions

  stamp-le-newest :
      (t : ℕ) (msg : M) (actions : List (Action M T L I))
      → stamp msg ≤ newest stamp (later stamp t msg) actions
  stamp-le-newest t msg actions = ground (arith, le-newest (later stamp t msg) actions)

  newest-NoneNewer :
      (t : ℕ) (actions : List (Action M T L I)) → NoneNewer (newest stamp t actions) actions
  unfolding newest NoneNewer
  newest-NoneNewer t [] = tt
  newest-NoneNewer t (publish_imu msg ∷ actions) =
      (stamp-le-newest t msg actions, newest-NoneNewer (later stamp t msg) actions)
  newest-NoneNewer t (publish_points i msg ∷ actions) =
      (stamp-le-newest t msg actions, newest-NoneNewer (later stamp t msg) actions)
  newest-NoneNewer t (publish_scan i msg ∷ actions) =
      (stamp-le-newest t msg actions, newest-NoneNewer (later stamp t msg) actions)
  newest-NoneNewer t (publish_telemetry msg ∷ actions) = newest-NoneNewer t actions
  newest-NoneNewer t (handle_lidar_packet p ∷ actions) = newest-NoneNewer t actions
  newest-NoneNewer t (publish_lidar_packet p ∷ actions) = newest-NoneNewer t actions
  newest-NoneNewer t (publish_imu_packet p ∷ actions) = newest-NoneNewer t actions

  run_cloud-newest :
      (h : Handlers M T L I) (es : List (Event M L I)) (t : ℕ)
      → newest stamp t (run_cloud stamp h es t).1 ≡ (run_cloud stamp h es t).0
  unfolding run_cloud
  run_cloud-newest h [] t = newest-none M T L I stamp t
  run_cloud-newest h (e ∷ es) t =
      newest-append stamp (cloud_step stamp h e t).1
        (run_cloud stamp h es (cloud_step stamp h e t).0).1 t
      ∙ ap (λ s. newest stamp s (run_cloud stamp h es (cloud_step stamp h e t).0).1)
          (cloud_step-newest h e t)
      ∙ run_cloud-newest h es (cloud_step stamp h e t).0

  -- Whatever packets and scans reach the cloud node, `last_msg_ts`, the time of the transforms that it broadcasts, is
  -- at the end the newest of the stamps of the IMU, point cloud and laser scan messages published, and of its value at
  -- the start: it never falls, and no such message is newer.
  pub run_cloud-NoneNewer :
      (h : Handlers M T L I) (es : List (Event M L I)) (t : ℕ)
      → let (last_msg_ts, actions) = run_cloud stamp h es t in
        (last_msg_ts ≡ newest stamp t actions) × (t ≤ last_msg_ts) × NoneNewer last_msg_ts actions
  run_cloud-NoneNewer h es t =
      let same = run_cloud-newest h es t in
      (
        sym same,
        subst (λ n. t ≤ n) same (le-newest t (run_cloud stamp h es t).1),
        subst (λ n. NoneNewer n (run_cloud stamp h es t).1) same
            (newest-NoneNewer t (run_cloud stamp h es t).1),
      )
