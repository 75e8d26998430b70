-- ===== src/OsSensor/Buffers/Delivered.antt =====
-- What is read from the sensor, against what the node publishes.
use ouster_ros.Prelude.{
  ℕ, ◌-◌, ◌≡◌, refl, sym, ap, ap₂, ◌∙◌, List, [], ◌∷◌, ◌++◌, length, take, drop, replicate,
  length-append, length-take, length-drop, length-replicate, arith,
}
use ouster_ros.OsSensor.{Action, publish_lidar, publish_imu}
use ouster_ros.OsSensor.Buffers.{
  Buffers, resize, allocate_buffers, overwrite, on_lidar_packet_msg, on_imu_packet_msg, BufferStep,
  start, read_lidar, read_imu, fail_lidar, fail_imu, buffer_step, run_buffers,
}

-- Both buffers of each kind have the size of its packets.
pub record AreSized (lidar_size imu_size : ℕ) (b : Buffers) : Type 0 where
  pub lidar : length b.lidar_packet ≡ lidar_size
  pub lidar_msg : length b.lidar_packet_msg ≡ lidar_size
  pub imu : length b.imu_packet ≡ imu_size
  pub imu_msg : length b.imu_packet_msg ≡ imu_size

-- Each datagram that is read has the size of the packets since the last start.
unfoldable pub FillPackets : ℕ → ℕ → List BufferStep → Type 0
FillPackets lidar_size imu_size [] = Unit
FillPackets lidar_size imu_size (start lidar_size' imu_size' ∷ steps) =
    FillPackets lidar_size' imu_size' steps
FillPackets lidar_size imu_size (read_lidar bytes ∷ steps) =
    (length bytes ≡ lidar_size) × FillPackets lidar_size imu_size steps
FillPackets lidar_size imu_size (read_imu bytes ∷ steps) =
    (length bytes ≡ imu_size) × FillPackets lidar_size imu_size steps
FillPackets lidar_size imu_size (fail_lidar bytes ∷ steps) = FillPackets lidar_size imu_size steps
FillPackets lidar_size imu_size (fail_imu bytes ∷ steps) = FillPackets lidar_size imu_size steps

-- The datagrams that are read, in order.
unfoldable pub datagrams : List BufferStep → List (Action × List ℕ)
datagrams [] = []
datagrams (start lidar_size imu_size ∷ steps) = datagrams steps
datagrams (read_lidar bytes ∷ steps) = (publish_lidar, bytes) ∷ datagrams steps
datagrams (read_imu bytes ∷ steps) = (publish_imu, bytes) ∷ datagrams steps
datagrams (fail_lidar bytes ∷ steps) = datagrams steps
datagrams (fail_imu bytes ∷ steps) = datagrams steps

length-resize : (size : ℕ) (buf : List ℕ) → length (resize size buf) ≡ size
unfolding resize
length-resize size buf = omega (
  arith,
  length-append (take size buf) (replicate (size - length buf) 0),
  length-take size buf,
  length-replicate {A = ℕ} (size - length buf) 0,
)

length-overwrite : (bytes buf : List ℕ) → length (overwrite bytes buf) ≡ length buf
unfolding overwrite
length-overwrite bytes buf = omega (
  arith,
  length-append (take (length buf) bytes) (drop (length bytes) buf),
  length-take (length buf) bytes,
  length-drop (length bytes) buf,
)

take_all : (bytes : List ℕ) → take (length bytes) bytes ≡ bytes
take_all [] = refl
take_all (byte ∷ bytes) = ap (λ q. byte ∷ q) (take_all bytes)

drop_all : (buf : List ℕ) → drop (length buf) buf ≡ []
drop_all [] = refl
drop_all (byte ∷ buf) = drop_all buf

append_none : (bytes : List ℕ) → bytes ++ [] ≡ bytes
append_none [] = refl
append_none (byte ∷ bytes) = ap (λ q. byte ∷ q) (append_none bytes)

overwrite_whole : (bytes buf : List ℕ) → length bytes ≡ length buf → overwrite bytes buf ≡ bytes
unfolding overwrite
overwrite_whole bytes buf same =
    rw (← same) (ap (λ q. q ++ drop (length bytes) buf) (take_all bytes))
    ∙ ap (λ n. bytes ++ drop n buf) same
    ∙ ap (λ q. bytes ++ q) (drop_all buf)
    ∙ append_none bytes

-- The sizes of packets since the last start.
unfoldable pub last_sizes : ℕ → ℕ → List BufferStep → ℕ × ℕ
last_sizes lidar_size imu_size [] = (lidar_size, imu_size)
last_sizes lidar_size imu_size (start lidar_size' imu_size' ∷ steps) =
    last_sizes lidar_size' imu_size' steps
last_sizes lidar_size imu_size (read_lidar bytes ∷ steps) = last_sizes lidar_size imu_size steps
last_sizes lidar_size imu_size (read_imu bytes ∷ steps) = last_sizes lidar_size imu_size steps
last_sizes lidar_size imu_size (fail_lidar bytes ∷ steps) = last_sizes lidar_size imu_size steps
last_sizes lidar_size imu_size (fail_imu bytes ∷ steps) = last_sizes lidar_size imu_size steps

unfoldable pub IsDelivered : ℕ → ℕ → List BufferStep → Buffers → Type 0
IsDelivered lidar_size imu_size steps b =
    ((run_buffers steps b).1 ≡ datagrams steps)
    × AreSized (last_sizes lidar_size imu_size steps).0 (last_sizes lidar_size imu_size steps).1
        (run_buffers steps b).0

allocate_buffers-AreSized :
    (lidar_size imu_size : ℕ) (b : Buffers)
    → AreSized lidar_size imu_size (allocate_buffers lidar_size imu_size b)
unfolding allocate_buffers
allocate_buffers-AreSized lidar_size imu_size b = record {
  lidar = length-resize lidar_size b.lidar_packet;
  lidar_msg = length-resize lidar_size b.lidar_packet_msg;
  imu = length-resize imu_size b.imu_packet;
  imu_msg = length-resize imu_size b.imu_packet_msg;
}

run_buffers-IsDelivered :
    (lidar_size imu_size : ℕ) (steps : List BufferStep) (b : Buffers)
    → AreSized lidar_size imu_size b
    → FillPackets lidar_size imu_size steps
    → IsDelivered lidar_size imu_size steps b
unfolding IsDelivered run_buffers datagrams last_sizes FillPackets buffer_step on_lidar_packet_msg
    on_imu_packet_msg
run_buffers-IsDelivered ls is [] b h fill = (refl, h)
run_buffers-IsDelivered ls is (start ls' is' ∷ steps) b h fill =
    run_buffers-IsDelivered ls' is' steps (allocate_buffers ls' is' b)
      (allocate_buffers-AreSized ls' is' b) fill
run_buffers-IsDelivered ls is (read_lidar bytes ∷ steps) b h (size, fill) =
    let same : length bytes ≡ length b.lidar_packet = size ∙ sym h.lidar in
    let (published, sized) =
      run_buffers-IsDelivered ls is steps
        (record b {
          lidar_packet = b.lidar_packet_msg;
          lidar_packet_msg = overwrite bytes b.lidar_packet;
        })
        (record {
          lidar = h.lidar_msg;
          lidar_msg = length-overwrite bytes b.lidar_packet ∙ h.lidar;
          imu = h.imu;
          imu_msg = h.imu_msg;
        })
        fill in
    (
      ap₂ (λ msg more. (publish_lidar, msg) ∷ more) (overwrite_whole bytes b.lidar_packet same)
          published,
      sized,
    )
run_buffers-IsDelivered ls is (read_imu bytes ∷ steps) b h (size, fill) =
    let same : length bytes ≡ length b.imu_packet = size ∙ sym h.imu in
    let (published, sized) =
      run_buffers-IsDelivered ls is steps
        (record b { imu_packet = b.imu_packet_msg; imu_packet_msg = overwrite bytes b.imu_packet })
        (record {
          lidar = h.lidar;
          lidar_msg = h.lidar_msg;
          imu = h.imu_msg;
          imu_msg = length-overwrite bytes b.imu_packet ∙ h.imu;
        })
        fill in
    (
      ap₂ (λ msg more. (publish_imu, msg) ∷ more) (overwrite_whole bytes b.imu_packet same)
          published,
      sized,
    )
run_buffers-IsDelivered ls is (fail_lidar bytes ∷ steps) b h fill =
    run_buffers-IsDelivered ls is steps (record b { lidar_packet = overwrite bytes b.lidar_packet })
      (record {
        lidar = length-overwrite bytes b.lidar_packet ∙ h.lidar;
        lidar_msg = h.lidar_msg;
        imu = h.imu;
        imu_msg = h.imu_msg;
      })
      fill
run_buffers-IsDelivered ls is (fail_imu bytes ∷ steps) b h fill =
    run_buffers-IsDelivered ls is steps (record b { imu_packet = overwrite bytes b.imu_packet })
      (record {
        lidar = h.lidar;
        lidar_msg = h.lidar_msg;
        imu = length-overwrite bytes b.imu_packet ∙ h.imu;
        imu_msg = h.imu_msg;
      })
      fill

-- From a start of the node on, whatever its buffers held, the packets that are published are the datagrams that are
-- read, in order and byte for byte, across failed reads and further starts with other sizes, if each has the size of
-- the packets of its kind; and at the end both buffers of each kind still have that size.
pub run_buffers-start :
    (lidar_size imu_size : ℕ) (steps : List BufferStep) (b : Buffers)
    → FillPackets lidar_size imu_size steps
    → IsDelivered lidar_size imu_size (start lidar_size imu_size ∷ steps) b
unfolding FillPackets
run_buffers-start lidar_size imu_size steps b fill =
    unfold IsDelivered run_buffers datagrams last_sizes buffer_step in
    run_buffers-IsDelivered lidar_size imu_size steps (allocate_buffers lidar_size imu_size b)
      (allocate_buffers-AreSized lidar_size imu_size b) fill
