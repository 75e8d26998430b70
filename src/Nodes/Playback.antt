-- ===== src/Nodes/Playback.antt =====
-- src/os_pcap_nodelet.cpp: the packets of a recording and the topics that they go to. A packet is its port, the size of
-- its payload, and the bytes that stand from its start on in the reader's memory, also behind its end; the wait between
-- packets and the progress line are left out.
use ouster_ros.Prelude.{
  ℕ, zero, suc, ◌≡◌, refl, sym, ap, ap₂, ◌∙◌, Bool, false, not, ◌&&◌, Option, none, some, List, [],
  ◌∷◌, ◌++◌, map, ◌==◌, if◌then◌else◌, arith, Bool-cases, inl, inr,
}

pub record Packet : Type 0 where
  pub dst_port : ℕ
  pub payload_size : ℕ
  pub current_data : ℕ → ℕ

-- What the format of the sensor's packets says of their sizes.
pub record PacketFormat : Type 0 where
  pub imu_packet_size : ℕ
  pub lidar_packet_size : ℕ

-- A publication on the topic of the IMU packets or on that of the lidar packets.
pub data Topic : Type 0 where
  imu_packets lidar_packets : Topic

abbrev pub is_port : Option ℕ → ℕ → Bool
is_port none port = false
is_port (some p) port = port == p

-- `n` bytes from the `i`-th on.
unfoldable pub bytes : (ℕ → ℕ) → ℕ → ℕ → List ℕ
bytes memory i zero = []
bytes memory i (suc n) = memory i ∷ bytes memory (suc i) n

module _ (pf : PacketFormat) (udp_port_imu udp_port_lidar : Option ℕ) where
  -- The buffers have the sizes of the format, and so have the copies, whatever the size of the payload.
  unfoldable pub dispatch : Packet → List (Topic × List ℕ)
  unfolding bytes
  dispatch packet =
      if is_port udp_port_imu packet.dst_port
      then (imu_packets, bytes packet.current_data 0 pf.imu_packet_size) ∷ []
      else if is_port udp_port_lidar packet.dst_port
      then (lidar_packets, bytes packet.current_data 0 pf.lidar_packet_size) ∷ []
      else []

  -- The loop, with what `ros::ok() && packet_read_active` is before each packet. An empty payload is the end of the
  -- recording.
  unfoldable pub read_packets : List (Bool × Packet) → List (Topic × List ℕ)
  unfolding dispatch
  read_packets [] = []
  read_packets ((active, packet) ∷ packets) =
      let rest = read_packets packets in
      if active && not (packet.payload_size == 0) then dispatch packet ++ rest else []

  -- The passes of the outer loop, the first of which always runs: what each reads, and whether another follows.
  unfoldable pub run_passes :
      List (Bool × Packet) → List (Bool × List (Bool × Packet)) → List (Topic × List ℕ)
  unfolding read_packets
  run_passes packets [] = read_packets packets
  run_passes packets ((again, next) ∷ passes) =
      let rest = run_passes next passes in
      if again then read_packets packets ++ rest else read_packets packets

-- The packets up to the end of the recording or of the playback.
unfoldable pub played : List (Bool × Packet) → List Packet
played [] = []
played ((active, packet) ∷ packets) =
    let rest = played packets in
    if active && not (packet.payload_size == 0) then packet ∷ rest else []

-- The packets whose port passes a test.
unfoldable pub on_port : (ℕ → Bool) → List Packet → List Packet
on_port test [] = []
on_port test (packet ∷ packets) =
    let rest = on_port test packets in if test packet.dst_port then packet ∷ rest else rest

-- What is published on a topic: the IMU's, or the lidar's.
unfoldable pub on_imu : {D : Type 0} → List (Topic × D) → List D
on_imu [] = []
on_imu ((imu_packets, d) ∷ out) = d ∷ on_imu out
on_imu ((lidar_packets, d) ∷ out) = on_imu out

unfoldable pub on_lidar : {D : Type 0} → List (Topic × D) → List D
on_lidar [] = []
on_lidar ((imu_packets, d) ∷ out) = on_lidar out
on_lidar ((lidar_packets, d) ∷ out) = d ∷ on_lidar out

unfoldable pub payload : Packet → List ℕ
unfolding bytes
payload packet = bytes packet.current_data 0 packet.payload_size

-- The payload has the size.
unfoldable pub AllSized : ℕ → List Packet → Type 0
AllSized size [] = Unit
AllSized size (packet ∷ packets) = (packet.payload_size ≡ size) × AllSized size packets

sized-payload :
    (size : ℕ) (packets : List Packet)
    → AllSized size packets
    → map (λ packet. bytes packet.current_data 0 size) packets ≡ map payload packets
unfolding AllSized payload
sized-payload size [] h = refl
sized-payload size (packet ∷ packets) (e, h) =
    ap₂ (λ b bs. b ∷ bs) (ap (bytes packet.current_data 0) (sym e)) (sized-payload size packets h)

module _ (pf : PacketFormat) (udp_port_imu udp_port_lidar : Option ℕ) where
  copies :
      (packets : List (Bool × Packet))
      → let out = read_packets pf udp_port_imu udp_port_lidar packets in
        (on_imu out
          ≡ map
              (λ packet. bytes packet.current_data 0 pf.imu_packet_size)
              (on_port (is_port udp_port_imu) (played packets)))
        × (on_lidar out
            ≡ map
                (λ packet. bytes packet.current_data 0 pf.lidar_packet_size)
                (on_port
                  (λ port. not (is_port udp_port_imu port) && is_port udp_port_lidar port)
                  (played packets)))
  unfolding read_packets dispatch played on_port on_imu on_lidar
  copies [] = (refl, refl)
  copies ((active, packet) ∷ packets) =
      let (imu, lidar) = copies packets in
      elim (Bool-cases (active && not (packet.payload_size == 0))) [
        | inr e ↦ (ground (arith, e), ground (arith, e))
        | inl e ↦ elim (Bool-cases (is_port udp_port_imu packet.dst_port)) [
          | inl i ↦ (ground (arith, e, i, imu), ground (arith, e, i, lidar))
          | inr i ↦ elim (Bool-cases (is_port udp_port_lidar packet.dst_port)) [
            | inl l ↦ (ground (arith, e, i, l, imu), ground (arith, e, i, l, lidar))
            | inr l ↦ (ground (arith, e, i, l, imu), ground (arith, e, i, l, lidar))
          ]
        ]
      ]

  -- A pass over the recording publishes, on each topic and in the order of the recording, one message for each packet
  -- of its port among those up to the first empty one or the end of the playback; those of other ports are published
  -- nowhere. A message has as many bytes from the start of the payload as the format has for the topic, whatever the
  -- size of the payload. Where all packets of a topic have payloads of that size, the messages are the payloads. Where
  -- both topics have one port, all of its packets are taken for the IMU's.
  pub read_packets_lem :
      (packets : List (Bool × Packet))
      → let out = read_packets pf udp_port_imu udp_port_lidar packets in
        let imu = on_port (is_port udp_port_imu) (played packets) in
        let lidar =
          on_port
            (λ port. not (is_port udp_port_imu port) && is_port udp_port_lidar port)
            (played packets) in
        (on_imu out ≡ map (λ packet. bytes packet.current_data 0 pf.imu_packet_size) imu)
        × (on_lidar out ≡ map (λ packet. bytes packet.current_data 0 pf.lidar_packet_size) lidar)
        × (AllSized pf.imu_packet_size imu → on_imu out ≡ map payload imu)
        × (AllSized pf.lidar_packet_size lidar → on_lidar out ≡ map payload lidar)
  read_packets_lem packets =
      let (imu, lidar) = copies packets in
      (
        imu,
        lidar,
        λ sized. imu ∙ sized-payload pf.imu_packet_size _ sized,
        λ sized. lidar ∙ sized-payload pf.lidar_packet_size _ sized,
      )
