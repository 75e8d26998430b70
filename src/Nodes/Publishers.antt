-- ===== src/Nodes/Publishers.antt =====
-- src/os_cloud_nodelet.cpp, src/os_driver_nodelet.cpp, src/os_image_nodelet.cpp, src/os_sensor_nodelet.cpp: the
-- publishers and subscribers that `onInit` makes, with their topics and queue sizes, and src/image_processor.h: the
-- images that a processor makes. ROS numbers a topic's suffix by `std::to_string`, an argument.
mod Node
pub mod Fits
pub mod Advertised
mod Tests
use Prim.Native.String.{String}
use ouster_ros.Prelude.{ℕ, ◌≡◌, ◌⊎◌, Bool, true, ◌||◌, List, [], ◌∷◌, ◌++◌, map, if◌then◌else◌}
use ouster_ros.Ros.{Params, param}
use ouster_ros.Messages.Tokens.{parse_tokens, check_token}
use ouster_ros.Messages.Returns.{topic_for_return}
use ouster_ros.Nodes.Handlers.{codes}

-- The keys of `image_msgs` and of `channel_field_topic_map`.
pub data ImageField : Type 0 where
  range signal reflectivity near_ir range2 signal2 reflectivity2 rgb : ImageField

pub data Publisher : Type 0 where
  imu_pub telemetry_pub metadata_pub lidar_packet_pub imu_packet_pub : Publisher
  lidar_pub scan_pub : ℕ → Publisher
  image_pub : ImageField → Publisher

pub data Subscriber : Type 0 where
  imu_packet_sub lidar_packet_sub metadata_sub : Subscriber

pub data Effect : Type 0 where
  advertise : Publisher → String → ℕ → Effect
  subscribe : Subscriber → String → ℕ → Effect

unfoldable pub channel_field_topic_map : List (ImageField × String)
channel_field_topic_map =
    (range, "range_image")
    ∷ (signal, "signal_image")
    ∷ (reflectivity, "reflec_image")
    ∷ (near_ir, "nearir_image")
    ∷ (range2, "range_image2")
    ∷ (signal2, "signal_image2")
    ∷ (reflectivity2, "reflec_image2")
    ∷ (rgb, "rgb_image")
    ∷ []

unfoldable pub create_image_pubs : List Effect
unfolding channel_field_topic_map
create_image_pubs =
    map (λ (it : ImageField × String). advertise (image_pub it.0) it.1 100) channel_field_topic_map

-- The keys of `image_msgs`, for a sensor of two returns or of one, and for its profiles with color.
unfoldable pub image_msgs : Bool → Bool → List ImageField
image_msgs two_returns has_rgb =
    range
      ∷ signal
      ∷ reflectivity
      ∷ near_ir
      ∷ (if two_returns then range2 ∷ signal2 ∷ reflectivity2 ∷ [] else [])
    ++ (if has_rgb then rgb ∷ [] else [])

unfoldable pub create_imu_pub : List Effect
create_imu_pub = advertise imu_pub "imu" 100 ∷ []

unfoldable pub create_telemetry_pub : List Effect
create_telemetry_pub = advertise telemetry_pub "telemetry" 1280 ∷ []

unfoldable pub create_metadata_pub : List Effect
create_metadata_pub = advertise metadata_pub "metadata" 1 ∷ []

unfoldable pub create_metadata_subscriber : List Effect
create_metadata_subscriber = subscribe metadata_sub "metadata" 1 ∷ []

unfoldable pub create_lidar_packets_sub : List Effect
create_lidar_packets_sub = subscribe lidar_packet_sub "lidar_packets" 100 ∷ []

unfoldable pub create_imu_pub_sub : List Effect
unfolding create_imu_pub
create_imu_pub_sub = create_imu_pub ++ (subscribe imu_packet_sub "imu_packets" 100 ∷ [])

-- `OusterSensor::create_publishers`
unfoldable pub create_publishers : List Effect
create_publishers =
    advertise lidar_packet_pub "lidar_packets" 1280
    ∷ advertise imu_packet_pub "imu_packets" 100
    ∷ []

abbrev pub when : Bool → List Effect → List Effect
when b effects = if b then effects else []

module _ (append_number : String → ℕ → String) where
  -- Both topics, whatever the returns of the sensor.
  unfoldable pub create_point_cloud_pubs : List Effect
  unfolding topic_for_return
  create_point_cloud_pubs =
      advertise (lidar_pub 0) (topic_for_return "points" append_number 0) 10
      ∷ advertise (lidar_pub 1) (topic_for_return "points" append_number 1) 10
      ∷ []

  unfoldable pub create_laser_scan_pubs : List Effect
  unfolding topic_for_return
  create_laser_scan_pubs =
      advertise (scan_pub 0) (topic_for_return "scan" append_number 0) 10
      ∷ advertise (scan_pub 1) (topic_for_return "scan" append_number 1) 10
      ∷ []

  -- `OusterCloud::onInit`, for the tokens of `proc_mask`.
  unfoldable pub cloud_effects : List (List ℕ) → List Effect
  unfolding create_imu_pub_sub create_point_cloud_pubs create_laser_scan_pubs create_telemetry_pub
      create_lidar_packets_sub create_metadata_subscriber
  cloud_effects tokens =
      when (check_token tokens (codes "IMU")) create_imu_pub_sub
      ++ (when (check_token tokens (codes "PCL")) create_point_cloud_pubs
          ++ (when (check_token tokens (codes "SCAN")) create_laser_scan_pubs
              ++ (when (check_token tokens (codes "TLM")) create_telemetry_pub
                  ++ (when
                        (check_token tokens (codes "PCL")
                          || (check_token tokens (codes "SCAN")
                              || check_token tokens (codes "TLM")))
                        create_lidar_packets_sub
                      ++ create_metadata_subscriber))))

  -- `OusterDriver::onInit`, with those that `OusterSensor::onInit` makes at the end.
  unfoldable pub driver_effects : List (List ℕ) → List Effect
  unfolding create_imu_pub create_point_cloud_pubs create_laser_scan_pubs create_image_pubs
      create_telemetry_pub create_metadata_pub create_publishers
  driver_effects tokens =
      when (check_token tokens (codes "IMU")) create_imu_pub
      ++ (when (check_token tokens (codes "PCL")) create_point_cloud_pubs
          ++ (when (check_token tokens (codes "SCAN")) create_laser_scan_pubs
              ++ (when (check_token tokens (codes "IMG")) create_image_pubs
                  ++ (when (check_token tokens (codes "TLM")) create_telemetry_pub
                      ++ (create_metadata_pub ++ create_publishers)))))

-- `OusterImage::onInit`
unfoldable pub image_effects : List (List ℕ) → List Effect
unfolding create_lidar_packets_sub create_image_pubs create_metadata_subscriber
image_effects tokens =
    when (check_token tokens (codes "IMG")) (create_lidar_packets_sub ++ create_image_pubs)
    ++ create_metadata_subscriber

-- The tokens of the parameter `proc_mask`, with the text that a node takes where it is not set.
unfoldable pub mask_tokens : {R : Type 0} → Params R → String → List (List ℕ)
mask_tokens p default = parse_tokens (codes (param p.text "proc_mask" default)) b'|'

-- The publisher is among those that are advertised.
unfoldable pub IsAdvertised : Publisher → List Effect → Type 0
IsAdvertised q [] = ⊥
IsAdvertised q (advertise q' topic size ∷ effects) = (q ≡ q') ⊎ IsAdvertised q effects
IsAdvertised q (subscribe s topic size ∷ effects) = IsAdvertised q effects

unfoldable pub IsSubscribed : Subscriber → List Effect → Type 0
IsSubscribed s [] = ⊥
IsSubscribed s (advertise q topic size ∷ effects) = IsSubscribed s effects
IsSubscribed s (subscribe s' topic size ∷ effects) = (s ≡ s') ⊎ IsSubscribed s effects

unfoldable pub AllAdvertised : List Publisher → List Effect → Type 0
unfolding IsAdvertised
AllAdvertised [] effects = Unit
AllAdvertised (q ∷ qs) effects = IsAdvertised q effects × AllAdvertised qs effects
