-- ===== src/OsSensor/Config/Valid.antt =====
-- The ranges of what the configuration asks of the sensor.
use ouster_ros.Prelude.{
  ◌+◌, get_or, zero, suc, Bool-cases, ap, ℕ, ◌≤◌, ◌^◌, ◌≡◌, refl, ◌⊎◌, inl, inr, Bool, true, false,
  Option, some, arith, some_inj, List, [], ◌∷◌, not, ◌&&◌, ◌||◌, subst,
}
use ouster_ros.Prelude.Int.{ℤ, pos, negsuc, ltb_ℤ}
use ouster_ros.Ros.{Params, param}
use ouster_ros.OsSensor.Config.{Sdk, SensorConfig, Parsed}
use ouster_ros.OsSensor.Config.Value.{min_azw, max_azw, eq_ℤ, one_of, outside}
use ouster_ros.OsSensor.Config.Rule.{is_named, unless}
use ouster_ros.OsSensor.Config.Accepts.{
  checks, int_or_0, int_or_unset, is_port, every, accepts, expected, expected_config,
  parse_config_from_ros_parameters_lem,
}
use ouster_ros.OsSensor.Config.Parse.{parse_config_from_ros_parameters}

-- The integer is one of the closed interval.
unfoldable pub Between : ℕ → ℕ → ℤ → Type 0
Between low high v = (n : ℕ) × (v ≡ pos n) × (low ≤ n) × (n ≤ high)

outside-Between :
    (low high : ℕ) (v : ℤ) → outside (pos low) (pos high) v ≡ false → Between low high v
unfolding Between
outside-Between low high (pos n) h = (n, refl, ground arith, ground arith)
outside-Between low high (negsuc n) h = ground arith

-- A power of two of an exponent up to the bound.
unfoldable pub IsPower : ℕ → ℤ → Type 0
IsPower bound v = (k : ℕ) × (k ≤ bound) × (v ≡ pos (2 ^ k))

-- 2 ^ k and the `n` powers after it.
abbrev pub powers : ℕ → ℕ → List ℕ
powers k zero = 2 ^ k ∷ []
powers k (suc n) = 2 ^ k ∷ powers (suc k) n

eq_ℤ-eq : (v : ℤ) (n : ℕ) → eq_ℤ v (pos n) ≡ true → v ≡ pos n
eq_ℤ-eq (pos m) n h = ground arith
eq_ℤ-eq (negsuc m) n h = ground arith

pub one_of-powers : (k n : ℕ) (v : ℤ) → one_of v (powers k n) ≡ true → IsPower (k + n) v
unfolding IsPower
one_of-powers k zero v h = (k, omega arith, eq_ℤ-eq v (2 ^ k) (ground arith))
one_of-powers k (suc n) v h = elim (Bool-cases (eq_ℤ v (pos (2 ^ k)))) [
  | inl e ↦ (k, omega arith, eq_ℤ-eq v (2 ^ k) e)
  | inr e ↦
      let (j, le, same) = one_of-powers (suc k) n v (ground (arith, h, e)) in (j, omega arith, same)
]

-- What the code checks of the numbers of a configuration that are set.
pub record AreValid {R : Type 0} (sdk : Sdk R) (c : SensorConfig sdk) : Type 0 where
  pub lidar_port : (v : ℤ) → c.udp_port_lidar ≡ some v → Between 1 65535 v
  pub imu_port : (v : ℤ) → c.udp_port_imu ≡ some v → Between 1 65535 v
  pub columns : (v : ℤ) → c.columns_per_packet ≡ some v → IsPower 6 v
  pub imu_packets : (v : ℤ) → c.imu_packets_per_frame ≡ some v → IsPower 3 v
  pub azimuth : (v w : ℤ) → c.azimuth_window ≡ some (v, w) → Between 0 360000 v × Between 0 360000 w
  pub frequency : (v : ℤ) → c.sync_pulse_out_frequency ≡ some v → (n : ℕ) × (v ≡ pos n)
  pub angle : (v : ℤ) → c.sync_pulse_out_angle ≡ some v → (n : ℕ) × (v ≡ pos n)
  pub width : (v : ℤ) → c.sync_pulse_out_pulse_width ≡ some v → (n : ℕ) × (v ≡ pos n)
  pub phase : (v : ℤ) → c.phase_lock_offset ≡ some v → Between 0 360000 v
  pub min_range :
      (v : ℤ) → c.min_range_threshold_cm ≡ some v → (v ≡ pos 0) ⊎ (v ≡ pos 30) ⊎ (v ≡ pos 50)
  pub offset : (v : ℤ) → c.lidar_frame_azimuth_offset ≡ some v → (n : ℕ) × (v ≡ pos n)
  pub multiplier : (v : R) → c.signal_multiplier ≡ some v → sdk.check_signal_multiplier v ≡ true

port-Between :
    (x v : ℤ)
    → not (outside (pos 0) (pos 65535) x) ≡ true
    → unless (eq_ℤ x (pos 0)) x ≡ some v
    → Between 1 65535 v
unfolding Between
port-Between (pos n) v h e = (n, ground arith, ground arith, ground arith)
port-Between (negsuc n) v h e = ground arith

unsigned-pos : (x v : ℤ) → unless (ltb_ℤ x (pos 0)) x ≡ some v → (n : ℕ) × (v ≡ pos n)
unsigned-pos (pos n) v e = (n, ground arith)
unsigned-pos (negsuc n) v e = ground arith

guarded-one_of :
    (x v : ℤ) (skip : Bool) (xs : List ℕ)
    → (skip || one_of x xs) ≡ true
    → unless skip x ≡ some v
    → one_of v xs ≡ true
guarded-one_of x v true xs h e = cc
guarded-one_of x v false xs h e = subst (λ y. one_of y xs ≡ true) (some_inj e) h

min_distance-cases :
    (v : ℤ) → one_of v (0 ∷ 30 ∷ 50 ∷ []) ≡ true → (v ≡ pos 0) ⊎ (v ≡ pos 30) ⊎ (v ≡ pos 50)
min_distance-cases (pos n) h =
    let cases : (n ≡ 0) ⊎ (n ≡ 30) ⊎ (n ≡ 50) = ground arith in
    elim cases [
      | inl e ↦ inl (ap pos e)
      | inr (inl e) ↦ inr (inl (ap pos e))
      | inr (inr e) ↦ inr (inr (ap pos e))
    ]
min_distance-cases (negsuc n) h = ground arith

every-get_or : (bs : List Bool) (i : ℕ) → every bs ≡ true → get_or bs i true ≡ true
every-get_or [] i h = refl
every-get_or (b ∷ bs) zero h = ground arith
every-get_or (b ∷ bs) (suc i) h = every-get_or bs i (ground arith)

middle : (a b c d : Bool) → (((a && b) && c) && d) ≡ true → b ≡ true
middle a b c d h = ground arith

both : (a b : Bool) → (a && b) ≡ true → (a ≡ true) × (b ≡ true)
both a b h = ground arith

within-Between : (v : ℤ) → not (outside (pos 0) (pos 360000) v) ≡ true → Between 0 360000 v
within-Between v h = outside-Between 0 360000 v (ground arith)

azimuth-Between :
    (x y v w : ℤ)
    → not (outside (pos 0) (pos 360000) x || outside (pos 0) (pos 360000) y) ≡ true
    → ◌≡◌ {A = Option (ℤ × ℤ)} (some (x, y)) (some (v, w))
    → Between 0 360000 v × Between 0 360000 w
azimuth-Between x y v w h e = (
  subst (λ z. Between 0 360000 z) (ap (λ q. q.0) (some_inj e)) (within-Between x (ground arith)),
  subst (λ z. Between 0 360000 z) (ap (λ q. q.1) (some_inj e)) (within-Between y (ground arith)),
)

module _ {R : Type 0} (sdk : Sdk R) (p : Params R) where
  accepts-AreValid : accepts sdk p ≡ true → AreValid sdk (expected_config sdk p)
  unfolding accepts expected_config
  accepts-AreValid h =
      let check : (i : ℕ) → get_or (checks sdk p) i true ≡ true =
        λ i. every-get_or (checks sdk p) i h in
      let columns = int_or_0 sdk p "columns_per_packet" in
      let packets = int_or_0 sdk p "imu_packets_per_frame" in
      let min_distance = int_or_unset sdk p "min_distance" in
      let ports = both (is_port sdk p "lidar_port") (is_port sdk p "imu_port") (check 0) in
      let are_packets : (eq_ℤ packets (pos 0) || one_of packets (1 ∷ 2 ∷ 4 ∷ 8 ∷ [])) ≡ true =
        middle (is_named sdk p "udp_profile_imu" sdk.udp_profile_imu_of_string)
          (eq_ℤ packets (pos 0) || one_of packets (1 ∷ 2 ∷ 4 ∷ 8 ∷ []))
          (is_named sdk p "gyro_fsr" sdk.full_scale_range_of_string)
          (is_named sdk p "accel_fsr" sdk.full_scale_range_of_string) (check 3) in
      record {
        lidar_port = λ v e. port-Between (int_or_0 sdk p "lidar_port") v ports.0 e;
        imu_port = λ v e. port-Between (int_or_0 sdk p "imu_port") v ports.1 e;
        columns = λ v e. one_of-powers 0 6 v (
            guarded-one_of columns v (eq_ℤ columns (pos 0)) (1 ∷ 2 ∷ 4 ∷ 8 ∷ 16 ∷ 32 ∷ 64 ∷ [])
              (check 2) e);
        imu_packets = λ v e.
            one_of-powers 0 3 v
              (guarded-one_of packets v (eq_ℤ packets (pos 0)) (1 ∷ 2 ∷ 4 ∷ 8 ∷ []) are_packets e);
        azimuth = λ v w e.
            azimuth-Between (param p.int "azimuth_window_start" min_azw)
              (param p.int "azimuth_window_end" max_azw) v w (check 6) e;
        frequency = λ v e. unsigned-pos (int_or_unset sdk p "sync_pulse_out_frequency") v e;
        angle = λ v e. unsigned-pos (int_or_unset sdk p "sync_pulse_out_angle") v e;
        width = λ v e. unsigned-pos (int_or_unset sdk p "sync_pulse_out_pulse_width") v e;
        phase = λ v e.
            subst (λ x. Between 0 360000 x) (some_inj e)
              (within-Between (int_or_0 sdk p "phase_lock_offset") (check 17));
        min_range = λ v e. min_distance-cases v (
            guarded-one_of min_distance v (ltb_ℤ min_distance (pos 0)) (0 ∷ 30 ∷ 50 ∷ []) (check 18)
              e);
        offset = λ v e. unsigned-pos (int_or_unset sdk p "lidar_frame_azimuth_offset") v e;
        multiplier =
            λ v e. subst (λ x. sdk.check_signal_multiplier x ≡ true) (some_inj e) (check 8);
      }

  -- A configuration that the parsing returns.
  pub parsed-AreValid :
      (t t' : Parsed sdk)
      → parse_config_from_ros_parameters sdk p t ≡ some t'
      → AreValid sdk t'.config
  unfolding expected
  parsed-AreValid t t' h =
      let law = parse_config_from_ros_parameters_lem sdk p t in
      elim (Bool-cases (accepts sdk p)) [
        | inl e ↦
            subst (λ x. AreValid sdk x.config) {x = expected sdk p t} {y = t'}
              (ground (arith, law, h, e)) (accepts-AreValid e)
        | inr e ↦ ground (arith, law, h, e)
      ]
