-- ===== src/Nodes/Publishers/Advertised.antt =====
-- What a node publishes on, against what its `onInit` advertises.
mod Run
mod Provided
pub mod ImageNode
pub mod Safe
use ouster_ros.Prelude.{
  ℕ, suc, ◌+◌, ◌≤◌, ◌<◌, ◌≡◌, ◌≢◌, refl, subst, sym, ap, Bool, true, false, not, ◌&&◌, ◌||◌, Option,
  none, some, List, [], ◌∷◌, ◌++◌, map, length, if◌then◌else◌, arith, Bool-cases, inl, inr,
}
use ouster_ros.Messages.Tokens.{check_token}
use ouster_ros.Nodes.Handlers.{codes, Handlers, CloudOptions}
use ouster_ros.Nodes.Dispatch.{
  Action, publish_imu, publish_points, publish_scan, handle_lidar_packet, publish_lidar_packet,
  publish_imu_packet, Event, imu_packet, lidar_packet, clouds, scans, later, cloud_step,
  publish_msgs, on_imu_packet, on_telemetry, on_lidar_packet, on_lidar_packet_msg,
  on_imu_packet_msg,
}
use ouster_ros.Nodes.Dispatch
use ouster_ros.Nodes.Publishers.{
  Publisher, imu_pub, telemetry_pub, lidar_packet_pub, imu_packet_pub, lidar_pub, scan_pub,
  image_pub, ImageField, image_msgs, Effect, IsAdvertised, AllAdvertised,
}
use ouster_ros.Nodes.Publishers.Node.{
  NodeInput, metadata, event, images, publishers, is_cloud, is_scan, is_image, runs, running,
  driver_step, Comes, node_step, run_node, AllCome,
}
use ouster_ros.Nodes.Publishers.Fits.{implies, Fits}

-- What the handlers that the tokens ask for publish on.
pub record Provides (images : Bool) (tokens : List (List ℕ)) (publish_raw : Bool)
    (effects : List Effect) : Type 0 where
  pub imu : check_token tokens (codes "IMU") ≡ true → IsAdvertised imu_pub effects
  pub telemetry : check_token tokens (codes "TLM") ≡ true → IsAdvertised telemetry_pub effects
  pub cloud :
      check_token tokens (codes "PCL") ≡ true → (i : ℕ) → i < 2 → IsAdvertised (lidar_pub i) effects
  pub scan :
      check_token tokens (codes "SCAN") ≡ true → (i : ℕ) → i < 2 → IsAdvertised (scan_pub i) effects
  pub image :
      (images && check_token tokens (codes "IMG")) ≡ true
      → (f : ImageField) → IsAdvertised (image_pub f) effects
  pub raw_lidar : publish_raw ≡ true → IsAdvertised lidar_packet_pub effects
  pub raw_imu : publish_raw ≡ true → IsAdvertised imu_packet_pub effects

pub implied : (a b : Bool) → implies a b ≡ true → a ≡ true → b ≡ true
implied true b h e = h
implied false b h e = cc

pub AllAdvertised-append :
    (xs ys : List Publisher) (effects : List Effect)
    → AllAdvertised xs effects
    → AllAdvertised ys effects
    → AllAdvertised (xs ++ ys) effects
unfolding AllAdvertised
AllAdvertised-append [] ys effects h k = k
AllAdvertised-append (x ∷ xs) ys effects (first, h) k =
    (first, AllAdvertised-append xs ys effects h k)

publishers-append :
    {M T L I : Type 0} (xs ys : List (Action M T L I))
    → publishers (xs ++ ys) ≡ publishers xs ++ publishers ys
unfolding publishers
publishers-append [] ys = refl
publishers-append (Action.publish_imu msg ∷ xs) ys =
    ap (λ qs. imu_pub ∷ qs) (publishers-append xs ys)
publishers-append (Action.publish_points i msg ∷ xs) ys =
    ap (λ qs. lidar_pub i ∷ qs) (publishers-append xs ys)
publishers-append (Action.publish_scan i msg ∷ xs) ys =
    ap (λ qs. scan_pub i ∷ qs) (publishers-append xs ys)
publishers-append (Action.publish_telemetry msg ∷ xs) ys =
    ap (λ qs. telemetry_pub ∷ qs) (publishers-append xs ys)
publishers-append (Action.handle_lidar_packet packet ∷ xs) ys = publishers-append xs ys
publishers-append (Action.publish_lidar_packet packet ∷ xs) ys =
    ap (λ qs. lidar_packet_pub ∷ qs) (publishers-append xs ys)
publishers-append (Action.publish_imu_packet packet ∷ xs) ys =
    ap (λ qs. imu_packet_pub ∷ qs) (publishers-append xs ys)

module _ (M T L I : Type 0) (effects : List Effect) where
  -- A loop over messages, the `i`-th of which goes to the publisher `to i`.
  pub publish_msgs-AllAdvertised :
      (stamp : M → ℕ) (publish : ℕ → M → Action M T L I) (to : ℕ → Publisher)
      → ((i : ℕ) (msg : M) (actions : List (Action M T L I))
          → publishers (publish i msg ∷ actions) ≡ to i ∷ publishers actions)
      → (n i : ℕ) (msgs : List M) (t : ℕ) → i + length msgs ≤ n
      → ((j : ℕ) → j < n → IsAdvertised (to j) effects)
      → AllAdvertised (publishers (publish_msgs stamp publish i msgs t).1) effects
  unfolding publish_msgs AllAdvertised publishers
  publish_msgs-AllAdvertised stamp publish to same n i [] t h all = tt
  publish_msgs-AllAdvertised stamp publish to same n i (msg ∷ msgs) t h all =
      let (ts, rest) = publish_msgs stamp publish (suc i) msgs (later stamp t msg) in
      subst (λ qs. AllAdvertised qs effects) (sym (same i msg rest))
        (
          all i (omega arith),
          publish_msgs-AllAdvertised stamp publish to same n (suc i) msgs (later stamp t msg)
              (omega arith) all,
        )

  pub append_actions :
      (xs ys : List (Action M T L I))
      → AllAdvertised (publishers xs) effects
      → AllAdvertised (publishers ys) effects
      → AllAdvertised (publishers (xs ++ ys)) effects
  append_actions xs ys h k =
      subst (λ qs. AllAdvertised qs effects) (sym (publishers-append xs ys))
        (AllAdvertised-append (publishers xs) (publishers ys) effects h k)

  pub on_imu_packet-AllAdvertised :
      (stamp : M → ℕ) (handler : Option (I → List M)) (packet : I) (t : ℕ)
      → (handler ≢ none → IsAdvertised imu_pub effects)
      → AllAdvertised (publishers (on_imu_packet {T = T} {L = L} stamp handler packet t).1) effects
  unfolding on_imu_packet AllAdvertised publishers
  on_imu_packet-AllAdvertised stamp none packet t h = tt
  on_imu_packet-AllAdvertised stamp (some handler) packet t h =
      publish_msgs-AllAdvertised stamp (λ i msg. publish_imu msg) (λ i. imu_pub)
        (λ i msg actions. refl) (length (handler packet)) 0 (handler packet) t (omega arith)
        (λ j lt. h (λ e. cc))

  on_telemetry-AllAdvertised :
      (handler : Option (L → T)) (packet : L)
      → (handler ≢ none → IsAdvertised telemetry_pub effects)
      → AllAdvertised (publishers (on_telemetry {M = M} {I = I} handler packet)) effects
  unfolding on_telemetry AllAdvertised publishers
  on_telemetry-AllAdvertised none packet told = tt
  on_telemetry-AllAdvertised (some handler) packet told = (told (λ e. cc), tt)

  pub handled-AllAdvertised :
      (handled : Bool) (packet : L)
      → AllAdvertised
          (publishers {M = M} {T = T} {I = I}
            (if handled then handle_lidar_packet packet ∷ [] else []))
          effects
  unfolding AllAdvertised publishers
  handled-AllAdvertised true packet = tt
  handled-AllAdvertised false packet = tt

  pub on_lidar_packet-AllAdvertised :
      (h : Dispatch.Handlers M T L I) (packet : L)
      → (h.telemetry_handler ≢ none → IsAdvertised telemetry_pub effects)
      → AllAdvertised (publishers (on_lidar_packet h packet)) effects
  unfolding on_lidar_packet
  on_lidar_packet-AllAdvertised h packet told =
      append_actions (on_telemetry h.telemetry_handler packet)
        (if h.has_lidar_packet_handler then handle_lidar_packet packet ∷ [] else [])
        (on_telemetry-AllAdvertised h.telemetry_handler packet told)
        (handled-AllAdvertised h.has_lidar_packet_handler packet)
