-- ===== src/OsSensor/Config/Unchecked.antt =====
-- The numbers of a configuration: those whose ranges are checked, and those that are passed on.

use text.Mathlib.Text.{◌==◌}
use ouster_ros.Prelude.{
  ◌||◌, ◌≡◌, refl, ap, ◌∙◌, Bool, true, false, some, if◌then◌else◌, Bool-cases, inl, inr, arith,
}
use ouster_ros.Prelude.Int.{ℤ, pos, ltb_ℤ}
use ouster_ros.Ros.{Params}
use ouster_ros.OsSensor.Config.{Sdk, SensorConfig, Parsed}
use ouster_ros.OsSensor.Config.Rule.{unless}
use ouster_ros.OsSensor.Config.Parse.{parse_config_from_ros_parameters}
use ouster_ros.OsSensor.Config.Accepts.{
  accepts, expected, expected_config, parse_config_from_ros_parameters_lem,
}
use ouster_ros.OsSensor.Config.Valid.{AreValid, parsed-AreValid}

-- The same parameters with other numbers for the output of synchronization pulses, the azimuth offset of the frame, and
-- the leap seconds.
unfoldable pub with_numbers : {R : Type 0} → Params R → ℤ → ℤ → ℤ → ℤ → ℤ → Params R
with_numbers p frequency angle width offset leap = record p {
  int = λ name.
      if name == "sync_pulse_out_frequency"
      then some frequency
      else if name == "sync_pulse_out_angle"
      then some angle
      else if name == "sync_pulse_out_pulse_width"
      then some width
      else if name == "lidar_frame_azimuth_offset"
      then some offset
      else if name == "nmea_leap_seconds"
      then some leap
      else p.int name;
}

-- The configuration with these numbers, of which all but the last are left to the sensor where they are negative.
unfoldable pub numbered :
    {R : Type 0} (sdk : Sdk R) → SensorConfig sdk → ℤ → ℤ → ℤ → ℤ → ℤ → SensorConfig sdk
numbered sdk c frequency angle width offset leap = record c {
  sync_pulse_out_frequency = unless (ltb_ℤ frequency (pos 0)) frequency;
  sync_pulse_out_angle = unless (ltb_ℤ angle (pos 0)) angle;
  sync_pulse_out_pulse_width = unless (ltb_ℤ width (pos 0)) width;
  lidar_frame_azimuth_offset = unless (ltb_ℤ offset (pos 0)) offset;
  nmea_leap_seconds = some leap;
}

or_true : (b : Bool) → (b || true) ≡ true
or_true true = refl
or_true false = refl

module _ {R : Type 0} (sdk : Sdk R) (p : Params R) where
  accepts-with_numbers :
      (frequency angle width offset leap : ℤ)
      → accepts sdk (with_numbers p frequency angle width offset leap) ≡ accepts sdk p
  unfolding accepts with_numbers
  accepts-with_numbers frequency angle width offset leap = simp or_true refl

  expected-with_numbers :
      (frequency angle width offset leap : ℤ) (t : Parsed sdk)
      → expected sdk (with_numbers p frequency angle width offset leap) t
        ≡ record (expected sdk p t) {
          config = numbered sdk (expected sdk p t).config frequency angle width offset leap;
        }
  unfolding expected expected_config with_numbers numbered
  expected-with_numbers frequency angle width offset leap t = refl

  renumbered :
      (t t' : Parsed sdk) (frequency angle width offset leap : ℤ)
      → parse_config_from_ros_parameters sdk p t ≡ some t'
      → parse_config_from_ros_parameters sdk (with_numbers p frequency angle width offset leap) t
        ≡ some (record t' { config = numbered sdk t'.config frequency angle width offset leap })
  renumbered t t' frequency angle width offset leap h =
      let q = with_numbers p frequency angle width offset leap in
      let law = parse_config_from_ros_parameters_lem sdk p t in
      let law' = parse_config_from_ros_parameters_lem sdk q t in
      let same = accepts-with_numbers frequency angle width offset leap in
      elim (Bool-cases (accepts sdk p)) [
        | inr e ↦ ground (arith, law, h, e)
        | inl e ↦
            let parsed : expected sdk p t ≡ t' = ground (arith, law, h, e) in
            let yes : accepts sdk q ≡ true = same ∙ e in
            let all : parse_config_from_ros_parameters sdk q t ≡ some (expected sdk q t) =
              ground (arith, law', yes) in
            all
            ∙ ap some (expected-with_numbers frequency angle width offset leap t)
            ∙ ap
                (λ (x : Parsed sdk).
                  some
                    (record x { config = numbered sdk x.config frequency angle width offset leap }))
                parsed
      ]

  -- In a configuration that the parsing returns, the ports that are set are from 1 to 65535, the columns a power of two
  -- up to 64, the IMU packets one up to 8, the azimuth window and the offset of the phase lock from 0 to 360000
  -- millidegrees, the minimum range 0, 30 or 50 cm, the signal multiplier one that the SDK accepts, and the frequency,
  -- the angle and the width of the synchronization pulses and the azimuth offset of the frame are not negative. These
  -- four and the leap seconds have no other limit: with any other numbers for them the same parameters are parsed too,
  -- and the numbers are set as they are, but for the negative ones of the four, which are not set.
  pub parse_config_from_ros_parameters-AreValid :
      (t t' : Parsed sdk)
      → parse_config_from_ros_parameters sdk p t ≡ some t'
      → AreValid sdk t'.config
        × ((frequency angle width offset leap : ℤ)
            → parse_config_from_ros_parameters sdk
                (with_numbers p frequency angle width offset leap)
                t
              ≡ some
                  (record t' { config = numbered sdk t'.config frequency angle width offset leap }))
  parse_config_from_ros_parameters-AreValid t t' h = (
    parsed-AreValid sdk p t t' h,
    λ frequency angle width offset leap. renumbered t t' frequency angle width offset leap h,
  )
