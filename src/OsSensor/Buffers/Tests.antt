-- ===== src/OsSensor/Buffers/Tests.antt =====
-- Packets of three bytes and of two, from buffers of any sizes.
use ouster_ros.Prelude.{◌≡◌, refl, List, [], ◌∷◌}
use ouster_ros.OsSensor.{publish_lidar, publish_imu}
use ouster_ros.OsSensor.Buffers.{
  Buffers, BufferStep, start, read_lidar, read_imu, fail_lidar, run_buffers,
}
use ouster_ros.OsSensor.Buffers.Delivered.{FillPackets, IsDelivered, run_buffers-start}

abbrev old : Buffers
old = record {
  lidar_packet = 9 ∷ 9 ∷ 9 ∷ 9 ∷ [];
  lidar_packet_msg = [];
  imu_packet = 8 ∷ [];
  imu_packet_msg = 8 ∷ 8 ∷ [];
}

abbrev steps : List BufferStep
steps =
    read_lidar (1 ∷ 2 ∷ 3 ∷ [])
    ∷ fail_lidar (7 ∷ [])
    ∷ read_imu (4 ∷ 5 ∷ [])
    ∷ read_lidar (6 ∷ 5 ∷ 4 ∷ [])
    ∷ []

published :
    (run_buffers (start 3 2 ∷ steps) old).1
    ≡ (publish_lidar, 1 ∷ 2 ∷ 3 ∷ [])
      ∷ (publish_imu, 4 ∷ 5 ∷ [])
      ∷ (publish_lidar, 6 ∷ 5 ∷ 4 ∷ [])
      ∷ []
unfolding run_buffers
published = refl

run_buffers-start_example : IsDelivered 3 2 (start 3 2 ∷ steps) old
unfolding FillPackets
run_buffers-start_example = run_buffers-start 3 2 steps old (refl, (refl, (refl, tt)))
