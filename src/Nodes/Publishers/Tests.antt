-- ===== src/Nodes/Publishers/Tests.antt =====
-- The publishers of nodes whose mask is not set, and of one whose mask has IMU alone.
use Prim.Native.String.{String, ◌++◌}
use ouster_ros.Prelude.{ℕ, ◌≡◌, refl, true, false, none, List, [], ◌∷◌, arith}
use ouster_ros.Float.Whole.{whole}
use ouster_ros.Ros.{Params}
use ouster_ros.Messages.Tokens.{
  parse_tokens, check_token, insert_lines, getlines, trim, find_first_not_of, find_last_not_of,
}
use ouster_ros.Nodes.Handlers.{
  Found, create_cloud_handlers, create_driver_handlers, create_image_handlers,
}
use ouster_ros.Nodes.Dispatch.{
  imu_packet, lidar_packet, clouds, scans, cloud_step, on_imu_packet_msg, on_lidar_packet_msg,
}
use ouster_ros.Nodes.Publishers.{
  range, signal, reflectivity, near_ir, rgb, imu_pub, lidar_packet_pub, imu_packet_pub, lidar_pub,
  scan_pub, image_pub, image_msgs, AllAdvertised, mask_tokens, cloud_effects, driver_effects,
  image_effects,
}
use ouster_ros.Nodes.Publishers.Node.{
  NodeInput, metadata, event, images, publishers, Comes, driver_step, run_node, AllCome,
}
use ouster_ros.Nodes.Publishers.Advertised.ImageNode.{
  image_node, ImageAllCome, image_step, image_metadata_handler, image_node-AllAdvertised,
}
use ouster_ros.Nodes.Publishers.Advertised.Safe.{
  cloud_node, CloudAllCome, publish_raw, driver_node, DriverAllCome, cloud_node-AllAdvertised,
  driver_node-AllAdvertised,
}

-- Nothing throws.
abbrev all_found : Found
all_found = record { is_made = λ o. true; is_mask = λ path. true; has_lidar_mode = true }

abbrev params : Params ℕ
params = record {
  text = λ name. none;
  int = λ name. none;
  bool = λ name. none;
  real = λ name. none;
}

-- Messages are their stamps, and an IMU packet has one of its own.
abbrev one_message : ℕ → List ℕ
one_message packet = packet ∷ []

abbrev stamp : ℕ → ℕ
stamp n = n

abbrev cloud_inputs : List (NodeInput ℕ ℕ ℕ)
cloud_inputs =
    event (imu_packet 3)
    ∷ metadata all_found 64
    ∷ event (imu_packet 5)
    ∷ event (clouds (7 ∷ 7 ∷ []))
    ∷ event (scans (7 ∷ []))
    ∷ []

abbrev driver_inputs : List (NodeInput ℕ ℕ ℕ)
driver_inputs =
    metadata all_found 64 ∷ event (imu_packet 5) ∷ event (lidar_packet 6) ∷ images false true ∷ []

-- The first IMU packet comes before the metadata.
cloud_publications :
    cloud_node whole params one_message stamp stamp cloud_inputs 0
    ≡ imu_pub ∷ lidar_pub 0 ∷ lidar_pub 1 ∷ scan_pub 0 ∷ []
unfolding cloud_node run_node create_cloud_handlers cloud_step publishers check_token parse_tokens
    insert_lines getlines trim find_first_not_of find_last_not_of
cloud_publications = refl

driver_publications :
    driver_node whole params one_message stamp driver_inputs 0
    ≡ imu_pub
      ∷ imu_packet_pub
      ∷ lidar_packet_pub
      ∷ image_pub range
      ∷ image_pub signal
      ∷ image_pub reflectivity
      ∷ image_pub near_ir
      ∷ image_pub rgb
      ∷ []
unfolding driver_node run_node create_driver_handlers driver_step on_imu_packet_msg
    on_lidar_packet_msg publishers publish_raw image_msgs mask_tokens check_token parse_tokens
    insert_lines getlines trim find_first_not_of find_last_not_of
driver_publications = refl

cloud_come : CloudAllCome whole params one_message stamp stamp cloud_inputs 0
unfolding CloudAllCome AllCome Comes create_cloud_handlers cloud_step check_token parse_tokens
    insert_lines getlines trim find_first_not_of find_last_not_of
cloud_come = (tt, (tt, (tt, ((refl, omega arith), ((refl, omega arith), tt)))))

driver_come : DriverAllCome whole params one_message stamp driver_inputs 0
unfolding DriverAllCome AllCome Comes create_driver_handlers driver_step check_token parse_tokens
    insert_lines getlines trim find_first_not_of find_last_not_of
driver_come = (tt, (tt, (tt, (refl, tt))))

abbrev append_number : String → ℕ → String
append_number base n = base ++ "2"

cloud_node-AllAdvertised_example :
    AllAdvertised
      (cloud_node whole params one_message stamp stamp cloud_inputs 0)
      (cloud_effects append_number (mask_tokens params "IMU|PCL|SCAN"))
cloud_node-AllAdvertised_example =
    cloud_node-AllAdvertised whole params one_message stamp append_number stamp cloud_inputs 0
      cloud_come

driver_node-AllAdvertised_example :
    AllAdvertised
      (driver_node whole params one_message stamp driver_inputs 0)
      (driver_effects append_number (mask_tokens params "IMU|PCL|SCAN|IMG|RAW"))
driver_node-AllAdvertised_example =
    driver_node-AllAdvertised whole params one_message stamp append_number driver_inputs 0
      driver_come

abbrev image_inputs : List (NodeInput ℕ ℕ ℕ)
image_inputs =
    event (lidar_packet 6) ∷ metadata all_found 64 ∷ event (lidar_packet 7) ∷ images false true ∷ []

image_publications :
    image_node whole params one_message stamp image_inputs
    ≡ image_pub range
      ∷ image_pub signal
      ∷ image_pub reflectivity
      ∷ image_pub near_ir
      ∷ image_pub rgb
      ∷ []
unfolding image_node run_node image_metadata_handler create_image_handlers image_step publishers
    image_msgs mask_tokens check_token parse_tokens insert_lines getlines trim find_first_not_of
    find_last_not_of
image_publications = refl

image_come : ImageAllCome whole params one_message stamp image_inputs
unfolding ImageAllCome AllCome Comes image_metadata_handler create_image_handlers image_step
    mask_tokens check_token parse_tokens insert_lines getlines trim find_first_not_of
    find_last_not_of
image_come = (tt, (tt, (tt, (refl, tt))))

image_node-AllAdvertised_example :
    AllAdvertised
      (image_node whole params one_message stamp image_inputs)
      (image_effects (mask_tokens params "IMG"))
image_node-AllAdvertised_example =
    image_node-AllAdvertised whole params one_message stamp image_inputs image_come
