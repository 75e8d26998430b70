-- ===== src/Nodes/Publishers/Advertised/Provided.antt =====
-- What the `onInit` of each node advertises.
use Prim.Native.String.{String}
use ouster_ros.Prelude.{
  ℕ, zero, suc, ◌<◌, ◌≡◌, refl, Bool, true, false, ◌||◌, List, [], ◌∷◌, ◌++◌, inl, inr, arith,
}
use ouster_ros.Messages.Tokens.{check_token}
use ouster_ros.Nodes.Handlers.{codes}
use ouster_ros.Nodes.Publishers.Advertised.{Provides}
use ouster_ros.Nodes.Publishers.{
  ImageField, range, signal, reflectivity, near_ir, range2, signal2, reflectivity2, rgb, Publisher,
  imu_pub, telemetry_pub, lidar_packet_pub, imu_packet_pub, lidar_pub, scan_pub, image_pub, Effect,
  advertise, subscribe, imu_packet_sub, create_image_pubs, create_imu_pub, create_imu_pub_sub,
  create_telemetry_pub, create_publishers, create_metadata_pub, create_point_cloud_pubs,
  create_laser_scan_pubs, create_lidar_packets_sub, create_metadata_subscriber, when, cloud_effects,
  driver_effects, IsAdvertised,
}

pub in_left : (q : Publisher) (xs ys : List Effect) → IsAdvertised q xs → IsAdvertised q (xs ++ ys)
unfolding IsAdvertised
in_left q [] ys h = absurd h
in_left q (advertise q' topic size ∷ xs) ys (inl e) = inl e
in_left q (advertise q' topic size ∷ xs) ys (inr h) = inr (in_left q xs ys h)
in_left q (subscribe s topic size ∷ xs) ys h = in_left q xs ys h

pub in_right : (q : Publisher) (xs ys : List Effect) → IsAdvertised q ys → IsAdvertised q (xs ++ ys)
unfolding IsAdvertised
in_right q [] ys h = h
in_right q (advertise q' topic size ∷ xs) ys h = inr (in_right q xs ys h)
in_right q (subscribe s topic size ∷ xs) ys h = in_right q xs ys h

first_one :
    (q : Publisher) (topic : String) (size : ℕ) (effects : List Effect)
    → IsAdvertised q (advertise q topic size ∷ effects)
unfolding IsAdvertised
first_one q topic size effects = inl refl

-- The first of two parts, where it is made.
pub in_first :
    (q : Publisher) (b : Bool) (xs ys : List Effect)
    → b ≡ true
    → IsAdvertised q xs
    → IsAdvertised q (when b xs ++ ys)
in_first q true xs ys e h = in_left q xs ys h
in_first q false xs ys e h = cc

skip :
    (q : Publisher) (b : Bool) (xs ys : List Effect)
    → IsAdvertised q ys
    → IsAdvertised q (when b xs ++ ys)
skip q b xs ys h = in_right q (when b xs) ys h

pub image-IsAdvertised : (f : ImageField) → IsAdvertised (image_pub f) create_image_pubs
unfolding IsAdvertised create_image_pubs
image-IsAdvertised range = inl refl
image-IsAdvertised signal = inr (inl refl)
image-IsAdvertised reflectivity = inr (inr (inl refl))
image-IsAdvertised near_ir = inr (inr (inr (inl refl)))
image-IsAdvertised range2 = inr (inr (inr (inr (inl refl))))
image-IsAdvertised signal2 = inr (inr (inr (inr (inr (inl refl)))))
image-IsAdvertised reflectivity2 = inr (inr (inr (inr (inr (inr (inl refl))))))
image-IsAdvertised rgb = inr (inr (inr (inr (inr (inr (inr (inl refl)))))))

raw_lidar-IsAdvertised : IsAdvertised lidar_packet_pub (create_metadata_pub ++ create_publishers)
unfolding IsAdvertised create_metadata_pub create_publishers
raw_lidar-IsAdvertised = inr (inl refl)

raw_imu-IsAdvertised : IsAdvertised imu_packet_pub (create_metadata_pub ++ create_publishers)
unfolding IsAdvertised create_metadata_pub create_publishers
raw_imu-IsAdvertised = inr (inr (inl refl))

module _ (append_number : String → ℕ → String) where
  pub cloud-IsAdvertised :
      (i : ℕ) → i < 2 → IsAdvertised (lidar_pub i) (create_point_cloud_pubs append_number)
  unfolding IsAdvertised create_point_cloud_pubs
  cloud-IsAdvertised zero h = inl refl
  cloud-IsAdvertised (suc zero) h = inr (inl refl)
  cloud-IsAdvertised (suc (suc i)) h = absurd (omega arith)

  pub scan-IsAdvertised :
      (i : ℕ) → i < 2 → IsAdvertised (scan_pub i) (create_laser_scan_pubs append_number)
  unfolding IsAdvertised create_laser_scan_pubs
  scan-IsAdvertised zero h = inl refl
  scan-IsAdvertised (suc zero) h = inr (inl refl)
  scan-IsAdvertised (suc (suc i)) h = absurd (omega arith)

  -- The cloud node, which makes no images and publishes no raw packets.
  pub cloud_effects-Provides :
      (tokens : List (List ℕ)) → Provides false tokens false (cloud_effects append_number tokens)
  unfolding cloud_effects create_imu_pub_sub create_imu_pub create_telemetry_pub
  cloud_effects-Provides tokens =
      let imu = check_token tokens (codes "IMU") in
      let pcl = check_token tokens (codes "PCL") in
      let scan = check_token tokens (codes "SCAN") in
      let tlm = check_token tokens (codes "TLM") in
      let any =
        check_token tokens (codes "PCL")
        || (check_token tokens (codes "SCAN") || check_token tokens (codes "TLM")) in
      let after_tlm : List Effect =
        when any create_lidar_packets_sub ++ create_metadata_subscriber in
      let after_scan : List Effect = when tlm create_telemetry_pub ++ after_tlm in
      let after_pcl : List Effect =
        when scan (create_laser_scan_pubs append_number) ++ after_scan in
      let after_imu : List Effect = when pcl (create_point_cloud_pubs append_number) ++ after_pcl in
      record {
        imu = λ e.
            in_first imu_pub imu create_imu_pub_sub after_imu e
              (first_one imu_pub "imu" 100 (subscribe imu_packet_sub "imu_packets" 100 ∷ []));
        cloud = λ e i lt. skip (lidar_pub i) imu create_imu_pub_sub after_imu (
            in_first (lidar_pub i) pcl (create_point_cloud_pubs append_number) after_pcl e
              (cloud-IsAdvertised i lt));
        scan = λ e i lt. skip (scan_pub i) imu create_imu_pub_sub after_imu (
            skip (scan_pub i) pcl (create_point_cloud_pubs append_number) after_pcl (
              in_first (scan_pub i) scan (create_laser_scan_pubs append_number) after_scan e
                (scan-IsAdvertised i lt)));
        telemetry = λ e. skip telemetry_pub imu create_imu_pub_sub after_imu (
            skip telemetry_pub pcl (create_point_cloud_pubs append_number) after_pcl (
              skip telemetry_pub scan (create_laser_scan_pubs append_number) after_scan (
                in_first telemetry_pub tlm create_telemetry_pub after_tlm e
                  (first_one telemetry_pub "telemetry" 1280 []))));
        image = λ e f. cc;
        raw_lidar = λ e. cc;
        raw_imu = λ e. cc;
      }

  pub driver_effects-Provides :
      (publish_raw : Bool) (tokens : List (List ℕ))
      → Provides true tokens publish_raw (driver_effects append_number tokens)
  unfolding driver_effects create_imu_pub create_telemetry_pub create_metadata_pub create_publishers
  driver_effects-Provides publish_raw tokens =
      let imu = check_token tokens (codes "IMU") in
      let pcl = check_token tokens (codes "PCL") in
      let scan = check_token tokens (codes "SCAN") in
      let img = check_token tokens (codes "IMG") in
      let tlm = check_token tokens (codes "TLM") in
      let after_img : List Effect =
        when tlm create_telemetry_pub ++ (create_metadata_pub ++ create_publishers) in
      let after_scan : List Effect = when img create_image_pubs ++ after_img in
      let after_pcl : List Effect =
        when scan (create_laser_scan_pubs append_number) ++ after_scan in
      let after_imu : List Effect = when pcl (create_point_cloud_pubs append_number) ++ after_pcl in
      record {
        imu = λ e. in_first imu_pub imu create_imu_pub after_imu e (first_one imu_pub "imu" 100 []);
        cloud = λ e i lt. skip (lidar_pub i) imu create_imu_pub after_imu (
            in_first (lidar_pub i) pcl (create_point_cloud_pubs append_number) after_pcl e
              (cloud-IsAdvertised i lt));
        scan = λ e i lt. skip (scan_pub i) imu create_imu_pub after_imu (
            skip (scan_pub i) pcl (create_point_cloud_pubs append_number) after_pcl (
              in_first (scan_pub i) scan (create_laser_scan_pubs append_number) after_scan e
                (scan-IsAdvertised i lt)));
        image = λ e f. skip (image_pub f) imu create_imu_pub after_imu (
            skip (image_pub f) pcl (create_point_cloud_pubs append_number) after_pcl (
              skip (image_pub f) scan (create_laser_scan_pubs append_number) after_scan
                (in_first (image_pub f) img create_image_pubs after_img e (image-IsAdvertised f))));
        telemetry = λ e. skip telemetry_pub imu create_imu_pub after_imu (
            skip telemetry_pub pcl (create_point_cloud_pubs append_number) after_pcl (
              skip telemetry_pub scan (create_laser_scan_pubs append_number) after_scan (
                skip telemetry_pub img create_image_pubs after_img (
                  in_first telemetry_pub tlm create_telemetry_pub
                    (create_metadata_pub ++ create_publishers) e
                    (first_one telemetry_pub "telemetry" 1280 [])))));
        raw_lidar = λ e. skip lidar_packet_pub imu create_imu_pub after_imu (
            skip lidar_packet_pub pcl (create_point_cloud_pubs append_number) after_pcl (
              skip lidar_packet_pub scan (create_laser_scan_pubs append_number) after_scan (
                skip lidar_packet_pub img create_image_pubs after_img (
                  skip lidar_packet_pub tlm create_telemetry_pub
                    (create_metadata_pub ++ create_publishers) raw_lidar-IsAdvertised))));
        raw_imu = λ e. skip imu_packet_pub imu create_imu_pub after_imu (
            skip imu_packet_pub pcl (create_point_cloud_pubs append_number) after_pcl (
              skip imu_packet_pub scan (create_laser_scan_pubs append_number) after_scan (
                skip imu_packet_pub img create_image_pubs after_img (
                  skip imu_packet_pub tlm create_telemetry_pub
                    (create_metadata_pub ++ create_publishers) raw_imu-IsAdvertised))));
      }
