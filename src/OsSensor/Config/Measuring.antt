-- ===== src/OsSensor/Config/Measuring.antt =====
-- src/os_sensor_nodelet.cpp: the parameters on how the sensor measures.
use ouster_ros.Prelude.{◌||◌, none, some, [], ◌∷◌, if◌then◌else◌}
use ouster_ros.Prelude.Int.{pos, negsuc, ltb_ℤ}
use ouster_ros.Ros.{Params, param}
use ouster_ros.OsSensor.Config.{Sdk}
use ouster_ros.OsSensor.Config.Value.{min_azw, max_azw, one_of, outside, Step, parse_enum}

module _ {R : Type 0} (sdk : Sdk R) (p : Params R) where
  unfoldable pub parse_lidar_mode : Step sdk p
  parse_lidar_mode =
      parse_enum sdk p "lidar_mode" sdk.lidar_mode_of_string
        (λ v t. record t { config = record t.config { lidar_mode = some v } })

  unfoldable pub parse_azimuth_window : Step sdk p
  parse_azimuth_window t =
      let start = param p.int "azimuth_window_start" min_azw in
      let end = param p.int "azimuth_window_end" max_azw in
      if outside min_azw max_azw start || outside min_azw max_azw end
      then none
      else some (record t { config = record t.config { azimuth_window = some (start, end) } })

  unfoldable pub parse_operating_mode : Step sdk p
  parse_operating_mode =
      parse_enum sdk p "operating_mode" sdk.operating_mode_of_string
        (λ v t. record t { config = record t.config { operating_mode = some v } })

  unfoldable pub parse_signal_multiplier : Step sdk p
  parse_signal_multiplier t =
      let v = param p.real "signal_multiplier" sdk.one in
      if sdk.check_signal_multiplier v
      then some (record t { config = record t.config { signal_multiplier = some v } })
      else none

  unfoldable pub parse_multipurpose_io_mode : Step sdk p
  parse_multipurpose_io_mode =
      parse_enum sdk p "multipurpose_io_mode" sdk.multipurpose_io_mode_of_string
        (λ v t. record t { config = record t.config { multipurpose_io_mode = some v } })

  unfoldable pub parse_min_distance : Step sdk p
  parse_min_distance t =
      let v = param p.int "min_distance" (negsuc 0) in
      if ltb_ℤ v (pos 0)
      then some t
      else if one_of v (0 ∷ 30 ∷ 50 ∷ [])
      then some (record t { config = record t.config { min_range_threshold_cm = some v } })
      else none

  unfoldable pub parse_lidar_frame_azimuth_offset : Step sdk p
  parse_lidar_frame_azimuth_offset t =
      let v = param p.int "lidar_frame_azimuth_offset" (negsuc 0) in
      if ltb_ℤ v (pos 0)
      then some t
      else some (record t { config = record t.config { lidar_frame_azimuth_offset = some v } })

  unfoldable pub parse_return_order : Step sdk p
  parse_return_order =
      parse_enum sdk p "return_order" sdk.return_order_of_string
        (λ v t. record t { config = record t.config { return_order = some v } })

  unfoldable pub parse_bloom_reduction_optimization : Step sdk p
  parse_bloom_reduction_optimization =
      parse_enum sdk p "bloom_reduction_optimization" sdk.bloom_reduction_optimization_of_string
        (λ v t. record t { config = record t.config { bloom_reduction_optimization = some v } })
