-- ===== src/Nodes/Tests.antt =====
-- Nodes with concrete parameters, and their theorems there.

use text.Mathlib.Text.{◌==◌}
use ouster_ros.Prelude.{
  Bool, ℕ, ◌+◌, ◌≤◌, ◌≡◌, ◌⊎◌, refl, true, false, none, some, List, [], ◌∷◌, if◌then◌else◌, arith,
}
use ouster_ros.Prelude.Int.{pos, negsuc}
use ouster_ros.Float.Whole.{whole}
use ouster_ros.Ros.{Params, is_arg_set}
use ouster_ros.Messages.Tokens.{
  parse_tokens, check_token, insert_lines, getlines, trim, find_first_not_of, find_last_not_of,
}
use ouster_ros.Nodes.Handlers.{
  Found, codes, point_cloud, laser_scan, image, Handlers, cloud_options, create_handlers,
  create_driver_handlers, create_image_handlers,
}
use ouster_ros.Nodes.Created.{
  is_created, are_valid_options, is_ratio, wanted_handlers, create_handlers_lem,
}
use ouster_ros.Nodes.Valid.{AllValid, create_handlers-AllValid}
use ouster_ros.Nodes.Transforms.{parse_parameters, ends_in_slash, apply_lidar_to_sensor_transform}
use ouster_ros.Nodes.Transforms.Broadcast.{
  TransformStamped, Poses, once, transform_to_tf_msg, plan_broadcast, plan_driver_broadcast, sent,
  broadcast_transforms-frames,
}
use ouster_ros.Nodes.Playback.{
  Packet, PacketFormat, bytes, read_packets, played, on_port, payload, on_imu, on_lidar, AllSized,
  read_packets_lem,
}
use ouster_ros.Nodes.Dispatch as Dispatch
use ouster_ros.Nodes.Dispatch.{
  Action, Event, imu_packet, lidar_packet, clouds, publish_imu, publish_points, on_telemetry,
  on_lidar_packet_msg, on_imu_packet_msg, run_cloud, publish_telemetry, handle_lidar_packet,
  publish_lidar_packet,
}
use ouster_ros.Nodes.Dispatch.Newest.{newest, NoneNewer, run_cloud-NoneNewer}

-- Nothing throws.
abbrev all_found : Found
all_found = record { is_made = λ o. true; is_mask = λ path. true; has_lidar_mode = true }

-- Images are named, laser scans of a ring below 0 asked for, and the row step is 4.
abbrev params : Params ℕ
params = record {
  text = λ name. if name == "proc_mask" then some "SCAN|IMG| PCL" else none;
  int = λ name.
      if name == "scan_ring"
      then some (negsuc 4)
      else if name == "v_reduction"
      then some (pos 4)
      else none;
  bool = λ name. none;
  real = λ name. none;
}

abbrev fresh : Handlers ℕ
fresh = record {
  imu_packet_handler = false;
  lidar_packet_handler = none;
  telemetry_handler = false;
}

driver_handlers : create_driver_handlers whole params all_found 64 fresh ≡ (
  record fresh {
    lidar_packet_handler =
        some (point_cloud (cloud_options whole params) ∷ laser_scan (pos 0) ∷ image "" ∷ [], 0);
  },
  false,
)
unfolding create_driver_handlers parse_tokens insert_lines getlines trim find_first_not_of
    find_last_not_of check_token
driver_handlers = refl

abbrev tokens : List (List ℕ)
tokens = codes "PCL" ∷ codes "SCAN" ∷ []

create_handlers_lem_example :
    create_handlers whole params all_found 64 true tokens fresh
    ≡ (wanted_handlers whole params all_found 64 true tokens fresh, false)
unfolding is_ratio are_valid_options is_created check_token
create_handlers_lem_example = create_handlers_lem whole params all_found 64 true tokens fresh

-- A mask that cannot be read, and metadata without a lidar mode.
no_mask :
    create_handlers whole params
      (record all_found { is_mask = λ path. false })
      64
      true
      ((73 ∷ 77 ∷ 71 ∷ []) ∷ [])
      fresh
    ≡ (fresh, true)
unfolding create_handlers check_token
no_mask = refl

no_lidar_mode :
    create_handlers whole params (record all_found { has_lidar_mode = false }) 64 true tokens fresh
    ≡ (fresh, true)
unfolding create_handlers check_token
no_lidar_mode = refl

create_handlers-AllValid_example :
    AllValid 64 (point_cloud (cloud_options whole params) ∷ laser_scan (pos 0) ∷ [])
unfolding create_handlers check_token
create_handlers-AllValid_example =
    create_handlers-AllValid whole params all_found 64 true tokens fresh
      (record fresh {
        lidar_packet_handler =
            some (point_cloud (cloud_options whole params) ∷ laser_scan (pos 0) ∷ [], 0);
      })
      (point_cloud (cloud_options whole params) ∷ laser_scan (pos 0) ∷ []) 0 (omega arith) refl refl
      refl

-- Messages are their stamps.
abbrev handlers : Dispatch.Handlers ℕ ℕ ℕ ℕ
handlers = record {
  imu_packet_handler = some (λ p. p ∷ []);
  has_lidar_packet_handler = true;
  telemetry_handler = some (λ p. p);
}

abbrev events : List (Event ℕ ℕ ℕ)
events = imu_packet 5 ∷ lidar_packet 9 ∷ clouds (4 ∷ 7 ∷ []) ∷ imu_packet 6 ∷ []

run_events : (run_cloud (λ n. n) handlers events 3).0 ≡ 7
unfolding run_cloud
run_events = refl

run_cloud-NoneNewer_example :
    let (last_msg_ts, actions) = run_cloud (λ n. n) handlers events 3 in
    (last_msg_ts ≡ newest (λ n. n) 3 actions)
    × (3 ≤ last_msg_ts)
    × NoneNewer (λ n. n) last_msg_ts actions
run_cloud-NoneNewer_example = run_cloud-NoneNewer (λ n. n) handlers events 3

raw_packet :
    on_lidar_packet_msg true handlers 9
    ≡ publish_telemetry 9 ∷ handle_lidar_packet 9 ∷ publish_lidar_packet 9 ∷ []
unfolding on_lidar_packet_msg
raw_packet = refl

-- A frame that is neither the sensor's nor the lidar's, and a prefix.
abbrev frame_params : Params ℕ
frame_params = record {
  text = λ name.
      if name == "point_cloud_frame"
      then some "map"
      else if name == "tf_prefix"
      then some "car"
      else none;
  int = λ name. none;
  bool = λ name. none;
  real = λ name. none;
}

prefixed_frame : (parse_parameters frame_params).point_cloud_frame ≡ "car/os_lidar"
unfolding parse_parameters is_arg_set ends_in_slash
prefixed_frame = refl

abbrev poses : Poses ℕ
poses = record {
  lidar_to_sensor_transform = λ i j. i + (i + j);
  imu_to_sensor_transform = λ i j. 0;
}

broadcast_transforms-frames_example :
    let f = parse_parameters frame_params in
    ((apply_lidar_to_sensor_transform f ≡ true) × (f.point_cloud_frame ≡ f.sensor_frame))
    ⊎ ((apply_lidar_to_sensor_transform f ≡ false)
        × (rest : List (TransformStamped ℕ (List ℕ))) × let transforms =
              if f.pub_static_tf
              then transform_to_tf_msg whole
                  (λ m. m)
                  1
                  poses.lidar_to_sensor_transform
                  f.sensor_frame
                  f.point_cloud_frame
                  5
                ∷ rest
              else [] in
            (sent whole (λ m. m) 1 (plan_broadcast whole frame_params f) f poses 5 ≡ transforms)
            × (sent whole (λ m. m) 1 (plan_driver_broadcast whole frame_params f) f poses 5
                ≡ transforms))
broadcast_transforms-frames_example =
    broadcast_transforms-frames whole (λ m. m) 1 frame_params poses 5

-- Once by default, and never without static transforms.
broadcast_once : plan_broadcast whole frame_params (parse_parameters frame_params) ≡ once
unfolding plan_broadcast parse_parameters is_arg_set ends_in_slash
broadcast_once = refl

abbrev packet : ℕ → ℕ → ℕ → Packet
packet port size first = record {
  dst_port = port;
  payload_size = size;
  current_data = λ i. first + i;
}

-- Packets of the IMU, of the lidar, of another port, and after the end.
abbrev recording : List (Bool × Packet)
recording =
    (true, packet 7503 3 10)
    ∷ (true, packet 7502 2 20)
    ∷ (true, packet 80 2 30)
    ∷ (true, packet 7502 0 40)
    ∷ (true, packet 7502 2 50)
    ∷ []

abbrev formats : PacketFormat
formats = record { imu_packet_size = 3; lidar_packet_size = 4 }

-- The lidar packet is shorter than its format, and published with two bytes that are not its own.
read_packets_lem_example :
    let out = read_packets formats (some 7503) (some 7502) recording in
    (on_imu out ≡ (10 ∷ 11 ∷ 12 ∷ []) ∷ [])
    × (on_lidar out ≡ (20 ∷ 21 ∷ 22 ∷ 23 ∷ []) ∷ [])
    × (AllSized 3 (packet 7503 3 10 ∷ []) → on_imu out ≡ (10 ∷ 11 ∷ 12 ∷ []) ∷ [])
    × (AllSized 4 (packet 7502 2 20 ∷ []) → on_lidar out ≡ (20 ∷ 21 ∷ []) ∷ [])
unfolding on_port played payload bytes
read_packets_lem_example = read_packets_lem formats (some 7503) (some 7502) recording

image_handlers :
    create_image_handlers whole params all_found fresh
    ≡ (record fresh { lidar_packet_handler = some (image "" ∷ [], 0) }, false)
unfolding create_image_handlers
image_handlers = refl
