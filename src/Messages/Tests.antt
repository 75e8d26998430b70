-- ===== src/Messages/Tests.antt =====
-- Messages of concrete packets and scans, and the theorems there.
use ouster_ros.Prelude.Words.{sub_u64}
use ouster_ros.Prelude.{
  get_or, get_elem?, ◌%◌, ◌*◌, ℕ, ◌+◌, ◌<◌, ◌≡◌, ◌⊎◌, refl, true, false, some, List, [], ◌∷◌,
  length, get_elem?, if◌then◌else◌, ◌==◌, none, arith,
}
use ouster_ros.Prelude.Int.{pos, negsuc}
use ouster_ros.Float.Whole.{whole}
use ouster_ros.PointCloud.Point.{LidarScan}
use ouster_ros.Messages.Tokens.{
  parse_tokens, check_token, insert_lines, getlines, trim, find_first_not_of, find_last_not_of,
}
use ouster_ros.Messages.Tokens.Padded.{Piece, join, AllClean, is_clean}
use ouster_ros.Messages.Tokens.Join.{is_among, check_token-parse_tokens}
use ouster_ros.Messages.Returns.{topic_for_return}
use ouster_ros.Messages.Telemetry.{first_valid_ts}
use ouster_ros.Messages.Imu.{ImuPacket, Clock, imu_timestamps, packet_to_imu_msgs}
use ouster_ros.Messages.Imu.Valid.{bits_before, measured_at, packet_to_imu_msgs_lem}
use ouster_ros.Messages.Laser.Processor.{parse_version}
use ouster_ros.Messages.Laser.{
  Geometry, LaserScan, get_or_fill_zero, laser_column, lidar_scan_to_laser_scan_msg, correct_shifts,
}
use ouster_ros.Messages.Laser.Filled.{lidar_scan_to_laser_scan_msg_lem}

-- "IMU" and "PCL", with blanks around the second.
abbrev pieces : List Piece
pieces =
    record { left = 0; first = 73; rest = 77 ∷ 85 ∷ []; right = 0 }
    ∷ record { left = 1; first = 80; rest = 67 ∷ 76 ∷ []; right = 2 }
    ∷ []

two_tokens :
    parse_tokens (73 ∷ 32 ∷ 124 ∷ 32 ∷ 124 ∷ 124 ∷ 80 ∷ 124 ∷ 73 ∷ []) 124
    ≡ (80 ∷ []) ∷ (73 ∷ []) ∷ []
unfolding parse_tokens insert_lines getlines trim find_first_not_of find_last_not_of
two_tokens = refl

check_token-parse_tokens_example :
    check_token (parse_tokens (join 124 pieces) 124) (80 ∷ 67 ∷ 76 ∷ []) ≡ true
unfolding AllClean is_clean is_among
check_token-parse_tokens_example =
    check_token-parse_tokens 124 pieces (80 ∷ 67 ∷ 76 ∷ []) refl (refl, (refl, tt))

second_topic :
    topic_for_return "points" (λ base n. if n == 2 then "points2" else base) 1 ≡ "points2"
unfolding topic_for_return
second_topic = refl

late_column : first_valid_ts (0 ∷ 0 ∷ 7 ∷ 8 ∷ []) ≡ 7
unfolding first_valid_ts
late_column = refl

abbrev clock : Clock whole
clock = record {
  frame_ts_ns = 100;
  nano = 1;
  Time = ℕ;
  ts_to_ros_time = λ ts. ts;
  add_seconds = λ t s. t + s;
}

abbrev packet : ImuPacket whole
packet = record {
  host_timestamp = 1000;
  measurements_per_packet = 2;
  packets_per_frame = 5;
  imu_gyro_ts = 0;
  status = 0 ∷ 1 ∷ [];
  timestamp = 0 ∷ 500 ∷ [];
  accel = (1, 2, 3) ∷ (4, 5, 6) ∷ [];
  gyro = (7, 8, 9) ∷ (7, 8, 9) ∷ [];
}

-- The first timestamp is unknown, so that the second measurement is a tenth of the frame later.
spread_stamps : imu_timestamps whole clock packet ≡ 0 ∷ 10 ∷ []
unfolding imu_timestamps
spread_stamps = refl

packet_to_imu_msgs_lem_example :
    let msgs = packet_to_imu_msgs whole clock packet "imu" 1000 in
    (length msgs ≡ 1)
    × ((i s : ℕ)
        → get_elem? (0 ∷ 1 ∷ []) i ≡ some s
        → s % 2 ≡ 1
        → get_elem? msgs (bits_before i (0 ∷ 1 ∷ []))
          ≡ some (record {
            frame_id = "imu";
            stamp = 1000 + sub_u64 (measured_at whole clock packet i) 0 * 1;
            linear_acceleration = get_or packet.accel i (0, 0, 0);
            angular_velocity = get_or packet.gyro i (0, 0, 0);
          }))
unfolding bits_before measured_at
packet_to_imu_msgs_lem_example = packet_to_imu_msgs_lem whole clock packet "imu" 1000 refl

abbrev scan : LidarScan
scan = record { h = 1; w = 4; timestamp = []; field = λ c. 10 ∷ 20 ∷ 30 ∷ 40 ∷ [] }

abbrev geometry : Geometry whole
geometry = record {
  pi = 3;
  range_min = 0;
  range_max = 120;
  range_unit = 2;
  n_cols_of_lidar_mode = 4;
  frequency_of_lidar_mode = 10;
}

lidar_scan_to_laser_scan_msg_lem_example :
    let c = laser_column 4 (pos 1) 3 in
    (msg : LaserScan whole) × (lidar_scan_to_laser_scan_msg whole geometry
        (λ f. true)
        scan
        5
        "lidar"
        0
        (pos 1 ∷ [])
        0
      ≡ some msg)
    × (get_elem? msg.ranges 0 ≡ some 20)
    × (get_elem? msg.intensities 0 ≡ some 10)
    × (c < 4)
    × ((c + 1 ≡ 5) ⊎ (c + 1 ≡ 9) ⊎ (c + 5 ≡ 5))
unfolding laser_column get_or_fill_zero
lidar_scan_to_laser_scan_msg_lem_example =
    lidar_scan_to_laser_scan_msg_lem whole geometry (λ f. true) scan 5 "lidar" 0 (pos 1 ∷ []) false
      1 0 refl refl (omega arith) (omega arith) (omega arith)

old_firmware : correct_shifts 2 3 (pos 40 ∷ pos 3 ∷ []) ≡ pos 9 ∷ negsuc 27 ∷ []
unfolding correct_shifts
old_firmware = refl

-- The whole of a match and its groups; a number above 16 bits wraps.
wrapped_version :
    parse_version
      (λ s. "v2.2.2" ∷ "2" ∷ "2" ∷ "2" ∷ [])
      (λ s. some 65538)
      (record { major = 0; minor = 0; patch = 0 })
      "image-rev1-v2.2.2"
    ≡ record { major = 2; minor = 2; patch = 2 }
unfolding parse_version
wrapped_version = refl

no_version :
    parse_version (λ s. []) (λ s. none) (record { major = 0; minor = 0; patch = 0 }) "rev"
    ≡ record { major = 0; minor = 0; patch = 0 }
unfolding parse_version
no_version = refl
