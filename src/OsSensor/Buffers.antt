-- ===== src/OsSensor/Buffers.antt =====
-- src/os_sensor_nodelet.cpp: the buffers of packets, which `on_lidar_packet_msg` and `on_imu_packet_msg` swap with those
-- of the messages. A packet is its bytes; what the SDK reads into a buffer, an argument, is written over its start.
pub mod Delivered
mod Tests
use ouster_ros.Prelude.{ℕ, ◌-◌, List, [], ◌∷◌, ◌++◌, length, take, drop, replicate}
use ouster_ros.OsSensor.{Action, publish_lidar, publish_imu}

pub record Buffers : Type 0 where
  pub lidar_packet : List ℕ
  pub lidar_packet_msg : List ℕ
  pub imu_packet : List ℕ
  pub imu_packet_msg : List ℕ

-- `std::vector::resize`
unfoldable pub resize : ℕ → List ℕ → List ℕ
resize size buf = take size buf ++ replicate (size - length buf) 0

unfoldable pub allocate_buffers : ℕ → ℕ → Buffers → Buffers
unfolding resize
allocate_buffers lidar_packet_size imu_packet_size b = record {
  lidar_packet = resize lidar_packet_size b.lidar_packet;
  lidar_packet_msg = resize lidar_packet_size b.lidar_packet_msg;
  imu_packet = resize imu_packet_size b.imu_packet;
  imu_packet_msg = resize imu_packet_size b.imu_packet_msg;
}

-- Bytes written over the start of a buffer, whose size stays.
unfoldable pub overwrite : List ℕ → List ℕ → List ℕ
overwrite bytes buf = take (length buf) bytes ++ drop (length bytes) buf

-- The message that is published, and the buffers after it.
unfoldable pub on_lidar_packet_msg : Buffers → Buffers × List ℕ
on_lidar_packet_msg b = (
  record b { lidar_packet = b.lidar_packet_msg; lidar_packet_msg = b.lidar_packet },
  b.lidar_packet,
)

unfoldable pub on_imu_packet_msg : Buffers → Buffers × List ℕ
on_imu_packet_msg b =
    (record b { imu_packet = b.imu_packet_msg; imu_packet_msg = b.imu_packet }, b.imu_packet)

-- What happens to the buffers: a start of the node, with the sizes of packets; a datagram that is read as a packet, or of
-- which the read fails.
pub data BufferStep : Type 0 where
  start : ℕ → ℕ → BufferStep
  read_lidar read_imu fail_lidar fail_imu : List ℕ → BufferStep

unfoldable pub buffer_step : BufferStep → Buffers → Buffers × List (Action × List ℕ)
unfolding allocate_buffers overwrite on_lidar_packet_msg on_imu_packet_msg
buffer_step (start lidar_size imu_size) b = (allocate_buffers lidar_size imu_size b, [])
buffer_step (read_lidar bytes) b =
    let (b', msg) =
      on_lidar_packet_msg (record b { lidar_packet = overwrite bytes b.lidar_packet }) in
    (b', (publish_lidar, msg) ∷ [])
buffer_step (read_imu bytes) b =
    let (b', msg) = on_imu_packet_msg (record b { imu_packet = overwrite bytes b.imu_packet }) in
    (b', (publish_imu, msg) ∷ [])
buffer_step (fail_lidar bytes) b = (record b { lidar_packet = overwrite bytes b.lidar_packet }, [])
buffer_step (fail_imu bytes) b = (record b { imu_packet = overwrite bytes b.imu_packet }, [])

unfoldable pub run_buffers : List BufferStep → Buffers → Buffers × List (Action × List ℕ)
unfolding buffer_step
run_buffers [] b = (b, [])
run_buffers (s ∷ steps) b =
    let (b', msgs) = buffer_step s b in
    let (b'', more) = run_buffers steps b' in (b'', msgs ++ more)
