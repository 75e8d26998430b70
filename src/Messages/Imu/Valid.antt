-- ===== src/Messages/Imu/Valid.antt =====
-- The messages of a packet, measurement by measurement.
use Prim.Native.String.{String}
use ouster_ros.Prelude.{
  ℕ, zero, suc, ◌+◌, ◌*◌, ◌%◌, ◌<◌, ◌≡◌, refl, sym, ap, ap₂, ◌∙◌, true, false, some, List, [], ◌∷◌,
  get_or, set, get_elem?, ◌==◌, if◌then◌else◌, length, arith, Bool-cases, inl, inr,
}
use ouster_ros.Prelude.Words.{sub_u64}
use ouster_ros.Float.{Float}
use ouster_ros.Messages.Imu.{
  ImuPacket, Clock, is_valid, spread, imu_timestamps, imu_msg, push_msgs, count_valid,
  packet_to_imu_msgs,
}

-- The lowest bits of the first `n` statuses, added up.
unfoldable pub bits_before : ℕ → List ℕ → ℕ
bits_before zero statuses = 0
bits_before (suc n) [] = 0
bits_before (suc n) (s ∷ statuses) = s % 2 + bits_before n statuses

count-bits : (statuses : List ℕ) → count_valid statuses ≡ bits_before (length statuses) statuses
unfolding count_valid bits_before
count-bits [] = refl
count-bits (s ∷ statuses) = ground (arith, count-bits statuses)

nil_of_length {ℓ} : {A : Type ℓ} (xs : List A) → length xs ≡ 0 → xs ≡ []
nil_of_length [] e = refl
nil_of_length (x ∷ xs) e = absurd (omega arith)

elem-bound : (xs : List ℕ) (i x : ℕ) → get_elem? xs i ≡ some x → i < length xs
elem-bound [] i x e = cc
elem-bound (y ∷ xs) zero x e = omega arith
elem-bound (y ∷ xs) (suc i) x e = omega (arith, elem-bound xs i x e)

module _ (k : Float) (c : Clock k) where
  -- The timestamp of measurement `i` in nanoseconds: the packet's one for the profile without timestamps of its own,
  -- equal parts of a frame where the first measurement is not valid, and its own otherwise.
  unfoldable pub measured_at : ImuPacket k → ℕ → ℕ
  measured_at p i =
      if p.measurements_per_packet == 0
      then (if i == 0 then p.imu_gyro_ts else get_or p.timestamp i 0)
      else if get_or p.status 0 0 % 2 == 0
      then k.to_ℕ (
          k.mul (k.of_ℕ i)
            (k.div c.frame_ts_ns (k.of_ℕ (p.measurements_per_packet * p.packets_per_frame))))
      else get_or p.timestamp i 0

  get_or-spread :
      (interval : k.F) (j i : ℕ) (ts : List ℕ)
      → i < length ts
      → get_or (spread k c interval j ts) i 0 ≡ k.to_ℕ (k.mul (k.of_ℕ (j + i)) interval)
  unfolding spread
  get_or-spread interval j i [] lt = absurd (omega arith)
  get_or-spread interval j zero (t ∷ ts) lt =
      let same : j ≡ j + 0 = omega arith in ap (λ n. k.to_ℕ (k.mul (k.of_ℕ n) interval)) same
  get_or-spread interval j (suc i) (t ∷ ts) lt =
      let same : suc j + i ≡ j + suc i = omega arith in
      get_or-spread interval (suc j) i ts (omega arith)
      ∙ ap (λ n. k.to_ℕ (k.mul (k.of_ℕ n) interval)) same

  get_or-set :
      (ts : List ℕ) (v i : ℕ)
      → i < length ts
      → get_or (set ts 0 v) i 0 ≡ (if i == 0 then v else get_or ts i 0)
  get_or-set [] v i lt = absurd (omega arith)
  get_or-set (t ∷ ts) v zero lt = refl
  get_or-set (t ∷ ts) v (suc i) lt = ground arith

  imu_timestamps-get :
      (p : ImuPacket k) (i : ℕ)
      → i < length p.timestamp
      → get_or (imu_timestamps k c p) i 0 ≡ measured_at p i
  unfolding imu_timestamps measured_at
  imu_timestamps-get p i lt =
      let interval =
        k.div c.frame_ts_ns (k.of_ℕ (p.measurements_per_packet * p.packets_per_frame)) in
      elim (Bool-cases (p.measurements_per_packet == 0)) [
        | inl e ↦ rw e (get_or-set p.timestamp p.imu_gyro_ts i lt)
        | inr e ↦ elim (Bool-cases (get_or p.status 0 0 % 2 == 1)) [
          | inl one ↦
              let odd : (get_or p.status 0 0 % 2 == 0) ≡ false = ground (arith, one) in
              rw (e, one, odd) refl
          | inr even ↦
              let none : (get_or p.status 0 0 % 2 == 0) ≡ true = ground (arith, even) in
              let from_0 : 0 + i ≡ i = omega arith in
              rw (e, even, none)
                (get_or-spread interval 0 i p.timestamp lt
                  ∙ ap (λ n. k.to_ℕ (k.mul (k.of_ℕ n) interval)) from_0)
        ]
      ]

  -- Element `bits_before i` of the messages is that of measurement `j + i`.
  push_msgs-get :
      (p : ImuPacket k) (frame : String) (timestamp : c.Time) (j i s : ℕ) (statuses : List ℕ)
      → get_elem? statuses i ≡ some s
      → s % 2 ≡ 1
      → get_elem? (push_msgs k c p frame timestamp j statuses) (bits_before i statuses)
        ≡ some (imu_msg k c p frame timestamp (j + i))
  unfolding push_msgs bits_before
  push_msgs-get p frame timestamp j i s [] e bit = cc
  push_msgs-get p frame timestamp j zero s (s' ∷ statuses) e bit =
      let valid : is_valid s' ≡ true = ground (arith, e, bit) in
      let same : j ≡ j + 0 = omega arith in
      rw valid (ap (λ n. some (imu_msg k c p frame timestamp n)) same)
  push_msgs-get p frame timestamp j (suc i) s (s' ∷ statuses) e bit =
      let at : suc j + i ≡ j + suc i = omega arith in
      let rest =
        push_msgs-get p frame timestamp (suc j) i s statuses e bit
        ∙ ap (λ n. some (imu_msg k c p frame timestamp n)) at in
      elim (Bool-cases (is_valid s')) [
        | inl valid ↦
            let next : s' % 2 + bits_before i statuses ≡ suc (bits_before i statuses) =
              ground (arith, valid) in
            rw (next, valid) rest
        | inr invalid ↦
            let next : s' % 2 + bits_before i statuses ≡ bits_before i statuses =
              ground (arith, invalid) in
            rw (next, invalid) rest
      ]

  push_msgs-length :
      (p : ImuPacket k) (frame : String) (timestamp : c.Time) (j : ℕ) (statuses : List ℕ)
      → length (push_msgs k c p frame timestamp j statuses) ≡ count_valid statuses
  unfolding push_msgs count_valid
  push_msgs-length p frame timestamp j [] = refl
  push_msgs-length p frame timestamp j (s ∷ statuses) =
      ground (arith, push_msgs-length p frame timestamp (suc j) statuses)

  packet-push :
      (p : ImuPacket k) (frame : String) (timestamp : c.Time)
      → packet_to_imu_msgs k c p frame timestamp ≡ push_msgs k c p frame timestamp 0 p.status
  unfolding packet_to_imu_msgs
  packet-push p frame timestamp =
      let many = push_msgs-length p frame timestamp 0 p.status in
      elim (Bool-cases (count_valid p.status == 0)) [
        | inl e ↦ rw e (
            sym (
              nil_of_length (push_msgs k c p frame timestamp 0 p.status) (ground (arith, e, many))))
        | inr e ↦ rw e refl
      ]

  imu_msg-measured :
      (p : ImuPacket k) (frame : String) (timestamp : c.Time) (i : ℕ)
      → i < length p.timestamp
      → imu_msg k c p frame timestamp (0 + i) ≡ record {
        frame_id = frame;
        stamp =
            c.add_seconds timestamp
              (k.mul (k.of_ℕ (sub_u64 (measured_at p i) (measured_at p 0))) c.nano);
        linear_acceleration = get_or p.accel i (k.of_ℕ 0, k.of_ℕ 0, k.of_ℕ 0);
        angular_velocity = get_or p.gyro i (k.of_ℕ 0, k.of_ℕ 0, k.of_ℕ 0);
      }
  unfolding imu_msg
  imu_msg-measured p frame timestamp i lt =
      let from_0 : 0 + i ≡ i = omega arith in
      let at = imu_timestamps-get p i lt in
      let first = imu_timestamps-get p 0 (omega arith) in
      ap (imu_msg k c p frame timestamp) from_0
      ∙ ap₂
          (λ t t0. record {
            frame_id = frame;
            stamp = c.add_seconds timestamp (k.mul (k.of_ℕ (sub_u64 t t0)) c.nano);
            linear_acceleration = get_or p.accel i (k.of_ℕ 0, k.of_ℕ 0, k.of_ℕ 0);
            angular_velocity = get_or p.gyro i (k.of_ℕ 0, k.of_ℕ 0, k.of_ℕ 0);
          })
          at first

  -- A packet whose arrays have one length yields as many messages as there are statuses with the lowest bit set. For
  -- each such status, of measurement `i`, there is the message behind those of the earlier ones: with the acceleration
  -- and the angular velocity of the measurement, and stamped at the packet's time plus the measurement's distance in
  -- nanoseconds from the first one, scaled to seconds. The times are those of the measurements, or equal parts of a
  -- frame where the first measurement is not valid; in the legacy profile the first is the packet's own.
  pub packet_to_imu_msgs_lem :
      (p : ImuPacket k) (frame : String) (timestamp : c.Time)
      → length p.timestamp ≡ length p.status
      → let msgs = packet_to_imu_msgs k c p frame timestamp in
        (length msgs ≡ bits_before (length p.status) p.status)
        × ((i s : ℕ)
            → get_elem? p.status i ≡ some s
            → s % 2 ≡ 1
            → get_elem? msgs (bits_before i p.status)
              ≡ some (record {
                frame_id = frame;
                stamp =
                    c.add_seconds timestamp
                      (k.mul (k.of_ℕ (sub_u64 (measured_at p i) (measured_at p 0))) c.nano);
                linear_acceleration = get_or p.accel i (k.of_ℕ 0, k.of_ℕ 0, k.of_ℕ 0);
                angular_velocity = get_or p.gyro i (k.of_ℕ 0, k.of_ℕ 0, k.of_ℕ 0);
              }))
  packet_to_imu_msgs_lem p frame timestamp same = (
    ap length (packet-push p frame timestamp)
        ∙ push_msgs-length p frame timestamp 0 p.status
        ∙ count-bits p.status,
    λ i s e bit.
        ap (λ ms. get_elem? ms (bits_before i p.status)) (packet-push p frame timestamp)
        ∙ push_msgs-get p frame timestamp 0 i s p.status e bit
        ∙ ap some (
            imu_msg-measured p frame timestamp i (ground (arith, elem-bound p.status i s e, same))),
  )
