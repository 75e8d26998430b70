-- ===== src/OsSensor/Config/Rules.antt =====
-- `parse_config_from_ros_parameters` as a list of rules.

use ouster_ros.Prelude.{◌≡◌, refl, true, false, ◌||◌, some, List, [], ◌∷◌, map}
use ouster_ros.Prelude.Int.{pos, negsuc, ltb_ℤ}
use ouster_ros.Ros.{Params, param}
use ouster_ros.OsSensor.Config.{Sdk}
use ouster_ros.OsSensor.Config.Value.{min_azw, max_azw, eq_ℤ, one_of, outside}
use ouster_ros.OsSensor.Config.Rule.{Rule, seq, always, when, except, guarded, enum}
use ouster_ros.OsSensor.Config.Network.{
  parse_udp_dest_and_ports, parse_udp_profile_lidar, parse_columns_per_packet,
  parse_udp_profile_imu, parse_imu_packets_per_frame, parse_gyro_fsr, parse_accel_fsr,
  parse_udp_profile_imu_and_settings,
}
use ouster_ros.OsSensor.Config.Timing.{
  parse_nmea_in_polarity, parse_nmea_ignore_valid_char, parse_nmea_baud_rate,
  parse_nmea_leap_seconds, parse_sync_pulse_in_polarity, parse_sync_pulse_out_polarity,
  parse_sync_pulse_out_frequency, parse_sync_pulse_out_angle, parse_sync_pulse_out_pulse_width,
  parse_phase_lock_and_offset,
}
use ouster_ros.OsSensor.Config.Measuring.{
  parse_lidar_mode, parse_azimuth_window, parse_operating_mode, parse_signal_multiplier,
  parse_multipurpose_io_mode, parse_min_distance, parse_lidar_frame_azimuth_offset,
  parse_return_order, parse_bloom_reduction_optimization,
}
use ouster_ros.OsSensor.Config.Parse.{parse_persist_config_flag, parsers}
use ouster_ros.OsSensor.Config.PortRules.{destination_rule, int, port_rule, timestamp_rule}

module _ {R : Type 0} (sdk : Sdk R) (p : Params R) where
  unfoldable pub rules : List (Rule sdk p)
  rules =
      seq sdk p
        (seq sdk p (destination_rule sdk p) (
          port_rule sdk p "lidar_port"
            (λ f t. record t {
              config = record t.config { udp_port_lidar = f t.config.udp_port_lidar };
            })
            (λ t. refl)))
        (port_rule sdk p "imu_port"
          (λ f t. record t { config = record t.config { udp_port_imu = f t.config.udp_port_imu } })
          (λ t. refl))
      ∷ enum sdk p
          (λ f t. record t {
            config = record t.config { udp_profile_lidar = f t.config.udp_profile_lidar };
          })
          (λ t. refl) "udp_profile_lidar" sdk.udp_profile_lidar_of_string
      ∷ guarded sdk p
          (λ f t. record t {
            config = record t.config { columns_per_packet = f t.config.columns_per_packet };
          })
          (λ t. refl) (eq_ℤ (int sdk p "columns_per_packet" (pos 0)) (pos 0))
          (one_of (int sdk p "columns_per_packet" (pos 0)) (1 ∷ 2 ∷ 4 ∷ 8 ∷ 16 ∷ 32 ∷ 64 ∷ []))
          (int sdk p "columns_per_packet" (pos 0))
      ∷ seq sdk p
          (seq sdk p
            (seq sdk p
              (enum sdk p
                (λ f t. record t {
                  config = record t.config { udp_profile_imu = f t.config.udp_profile_imu };
                })
                (λ t. refl) "udp_profile_imu" sdk.udp_profile_imu_of_string)
              (guarded sdk p
                (λ f t. record t {
                  config = record t.config {
                    imu_packets_per_frame = f t.config.imu_packets_per_frame;
                  };
                })
                (λ t. refl) (eq_ℤ (int sdk p "imu_packets_per_frame" (pos 0)) (pos 0))
                (one_of (int sdk p "imu_packets_per_frame" (pos 0)) (1 ∷ 2 ∷ 4 ∷ 8 ∷ []))
                (int sdk p "imu_packets_per_frame" (pos 0))))
            (enum sdk p
              (λ f t. record t { config = record t.config { gyro_fsr = f t.config.gyro_fsr } })
              (λ t. refl) "gyro_fsr" sdk.full_scale_range_of_string))
          (enum sdk p
            (λ f t. record t { config = record t.config { accel_fsr = f t.config.accel_fsr } })
            (λ t. refl) "accel_fsr" sdk.full_scale_range_of_string)
      ∷ enum sdk p
          (λ f t. record t { config = record t.config { lidar_mode = f t.config.lidar_mode } })
          (λ t. refl) "lidar_mode" sdk.lidar_mode_of_string
      ∷ timestamp_rule sdk p
      ∷ except sdk p
          (outside min_azw max_azw (int sdk p "azimuth_window_start" min_azw)
            || outside min_azw max_azw (int sdk p "azimuth_window_end" max_azw))
          (λ t. record t {
            config = record t.config {
              azimuth_window = some (
                int sdk p "azimuth_window_start" min_azw,
                int sdk p "azimuth_window_end" max_azw,
              );
            };
          })
      ∷ enum sdk p
          (λ f t. record t {
            config = record t.config { operating_mode = f t.config.operating_mode };
          })
          (λ t. refl) "operating_mode" sdk.operating_mode_of_string
      ∷ when sdk p (sdk.check_signal_multiplier (param p.real "signal_multiplier" sdk.one)) (λ t.
        record t {
          config = record t.config {
            signal_multiplier = some (param p.real "signal_multiplier" sdk.one);
          };
        })
      ∷ enum sdk p
          (λ f t. record t {
            config = record t.config { multipurpose_io_mode = f t.config.multipurpose_io_mode };
          })
          (λ t. refl) "multipurpose_io_mode" sdk.multipurpose_io_mode_of_string
      ∷ enum sdk p
          (λ f t. record t {
            config = record t.config { nmea_in_polarity = f t.config.nmea_in_polarity };
          })
          (λ t. refl) "nmea_in_polarity" sdk.polarity_of_string
      ∷ always sdk p (λ t. record t {
        config = record t.config {
          nmea_ignore_valid_char = some (param p.bool "nmea_ignore_valid_char" false);
        };
      })
      ∷ enum sdk p
          (λ f t. record t {
            config = record t.config { nmea_baud_rate = f t.config.nmea_baud_rate };
          })
          (λ t. refl) "nmea_baud_rate" sdk.nmea_baud_rate_of_string
      ∷ always sdk p (λ t. record t {
        config = record t.config {
          nmea_leap_seconds = some (int sdk p "nmea_leap_seconds" (pos 0));
        };
      })
      ∷ enum sdk p
          (λ f t. record t {
            config = record t.config { sync_pulse_in_polarity = f t.config.sync_pulse_in_polarity };
          })
          (λ t. refl) "sync_pulse_in_polarity" sdk.polarity_of_string
      ∷ enum sdk p
          (λ f t. record t {
            config = record t.config {
              sync_pulse_out_polarity = f t.config.sync_pulse_out_polarity;
            };
          })
          (λ t. refl) "sync_pulse_out_polarity" sdk.polarity_of_string
      ∷ guarded sdk p
          (λ f t. record t {
            config = record t.config {
              sync_pulse_out_frequency = f t.config.sync_pulse_out_frequency;
            };
          })
          (λ t. refl) (ltb_ℤ (int sdk p "sync_pulse_out_frequency" (negsuc 0)) (pos 0)) true
          (int sdk p "sync_pulse_out_frequency" (negsuc 0))
      ∷ guarded sdk p
          (λ f t. record t {
            config = record t.config { sync_pulse_out_angle = f t.config.sync_pulse_out_angle };
          })
          (λ t. refl) (ltb_ℤ (int sdk p "sync_pulse_out_angle" (negsuc 0)) (pos 0)) true
          (int sdk p "sync_pulse_out_angle" (negsuc 0))
      ∷ guarded sdk p
          (λ f t. record t {
            config = record t.config {
              sync_pulse_out_pulse_width = f t.config.sync_pulse_out_pulse_width;
            };
          })
          (λ t. refl) (ltb_ℤ (int sdk p "sync_pulse_out_pulse_width" (negsuc 0)) (pos 0)) true
          (int sdk p "sync_pulse_out_pulse_width" (negsuc 0))
      ∷ except sdk p (outside min_azw max_azw (int sdk p "phase_lock_offset" (pos 0))) (λ t.
        record t {
          config = record t.config {
            phase_lock_enable = some (param p.bool "phase_lock_enable" false);
            phase_lock_offset = some (int sdk p "phase_lock_offset" (pos 0));
          };
        })
      ∷ guarded sdk p
          (λ f t. record t {
            config = record t.config { min_range_threshold_cm = f t.config.min_range_threshold_cm };
          })
          (λ t. refl) (ltb_ℤ (int sdk p "min_distance" (negsuc 0)) (pos 0))
          (one_of (int sdk p "min_distance" (negsuc 0)) (0 ∷ 30 ∷ 50 ∷ []))
          (int sdk p "min_distance" (negsuc 0))
      ∷ guarded sdk p
          (λ f t. record t {
            config = record t.config {
              lidar_frame_azimuth_offset = f t.config.lidar_frame_azimuth_offset;
            };
          })
          (λ t. refl) (ltb_ℤ (int sdk p "lidar_frame_azimuth_offset" (negsuc 0)) (pos 0)) true
          (int sdk p "lidar_frame_azimuth_offset" (negsuc 0))
      ∷ enum sdk p
          (λ f t. record t { config = record t.config { return_order = f t.config.return_order } })
          (λ t. refl) "return_order" sdk.return_order_of_string
      ∷ enum sdk p
          (λ f t. record t {
            config = record t.config {
              bloom_reduction_optimization = f t.config.bloom_reduction_optimization;
            };
          })
          (λ t. refl) "bloom_reduction_optimization" sdk.bloom_reduction_optimization_of_string
      ∷ always sdk p (λ t. record t { persist_config = param p.bool "persist_config" false })
      ∷ []

  pub rules-parsers : map (λ r. r.step) rules ≡ parsers sdk p
  unfolding rules parsers parse_udp_dest_and_ports parse_udp_profile_lidar parse_columns_per_packet
      parse_udp_profile_imu parse_imu_packets_per_frame parse_gyro_fsr parse_accel_fsr
      parse_udp_profile_imu_and_settings parse_nmea_in_polarity parse_nmea_ignore_valid_char
      parse_nmea_baud_rate parse_nmea_leap_seconds parse_sync_pulse_in_polarity
      parse_sync_pulse_out_polarity parse_sync_pulse_out_frequency parse_sync_pulse_out_angle
      parse_sync_pulse_out_pulse_width parse_phase_lock_and_offset parse_lidar_mode
      parse_azimuth_window parse_operating_mode parse_signal_multiplier parse_multipurpose_io_mode
      parse_min_distance parse_lidar_frame_azimuth_offset parse_return_order
      parse_bloom_reduction_optimization parse_persist_config_flag
  rules-parsers = refl
