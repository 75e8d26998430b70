-- ===== src/OsSensor/Config/Network.antt =====
-- src/os_sensor_nodelet.cpp: the parameters on the destination and the layout of the packets.
use Prim.Native.String.{String}
use ouster_ros.Prelude.{true, false, none, some, [], ◌∷◌, if◌then◌else◌, ◌>>=◌}
use ouster_ros.Prelude.Int.{ℤ, pos}
use ouster_ros.Ros.{Params, param, is_arg_set}
use ouster_ros.OsSensor.Config.{Sdk, Parsed}
use ouster_ros.OsSensor.Config.Value.{eq_ℤ, one_of, outside, Step, parse_enum}

module _ {R : Type 0} (sdk : Sdk R) (p : Params R) where
  unfoldable pub parse_udp_dest : Parsed sdk → Parsed sdk
  parse_udp_dest t =
      let given = param p.text "udp_dest" "" in
      let udp_dest = if is_arg_set given then given else param p.text "computer_ip" "" in
      let mtp_dest_arg = param p.text "mtp_dest" "" in
      let mtp_main_arg = param p.bool "mtp_main" false in
      if is_arg_set udp_dest
      then (let t' = record t { config = record t.config { udp_dest = some udp_dest } } in
          if sdk.in_multicast udp_dest
          then record t' {
            mtp_dest = if is_arg_set mtp_dest_arg then mtp_dest_arg else "";
            mtp_main = mtp_main_arg;
          }
          else t')
      else record t { auto_udp_allowed = true }

  -- A port: out of range, left to the client, or set.
  unfoldable pub parse_port : String → (ℤ → Parsed sdk → Parsed sdk) → Step sdk p
  parse_port name assign t =
      let port = param p.int name (pos 0) in
      if outside (pos 0) (pos 65535) port
      then none
      else if eq_ℤ port (pos 0)
      then some t
      else some (assign port t)

  unfoldable pub parse_udp_dest_and_ports : Step sdk p
  unfolding parse_udp_dest parse_port
  parse_udp_dest_and_ports t =
      parse_port "lidar_port"
        (λ port t'. record t' { config = record t'.config { udp_port_lidar = some port } })
        (parse_udp_dest t)
      >>= parse_port "imu_port"
          (λ port t'. record t' { config = record t'.config { udp_port_imu = some port } })

  unfoldable pub parse_udp_profile_lidar : Step sdk p
  parse_udp_profile_lidar =
      parse_enum sdk p "udp_profile_lidar" sdk.udp_profile_lidar_of_string
        (λ v t. record t { config = record t.config { udp_profile_lidar = some v } })

  unfoldable pub parse_columns_per_packet : Step sdk p
  parse_columns_per_packet t =
      let v = param p.int "columns_per_packet" (pos 0) in
      if eq_ℤ v (pos 0)
      then some t
      else if one_of v (1 ∷ 2 ∷ 4 ∷ 8 ∷ 16 ∷ 32 ∷ 64 ∷ [])
      then some (record t { config = record t.config { columns_per_packet = some v } })
      else none

  unfoldable pub parse_udp_profile_imu : Step sdk p
  parse_udp_profile_imu =
      parse_enum sdk p "udp_profile_imu" sdk.udp_profile_imu_of_string
        (λ v t. record t { config = record t.config { udp_profile_imu = some v } })

  unfoldable pub parse_imu_packets_per_frame : Step sdk p
  parse_imu_packets_per_frame t =
      let v = param p.int "imu_packets_per_frame" (pos 0) in
      if eq_ℤ v (pos 0)
      then some t
      else if one_of v (1 ∷ 2 ∷ 4 ∷ 8 ∷ [])
      then some (record t { config = record t.config { imu_packets_per_frame = some v } })
      else none

  unfoldable pub parse_gyro_fsr : Step sdk p
  parse_gyro_fsr =
      parse_enum sdk p "gyro_fsr" sdk.full_scale_range_of_string
        (λ v t. record t { config = record t.config { gyro_fsr = some v } })

  unfoldable pub parse_accel_fsr : Step sdk p
  parse_accel_fsr =
      parse_enum sdk p "accel_fsr" sdk.full_scale_range_of_string
        (λ v t. record t { config = record t.config { accel_fsr = some v } })

  unfoldable pub parse_udp_profile_imu_and_settings : Step sdk p
  unfolding parse_udp_profile_imu parse_imu_packets_per_frame parse_gyro_fsr parse_accel_fsr
  parse_udp_profile_imu_and_settings t =
      parse_udp_profile_imu t >>= parse_imu_packets_per_frame >>= parse_gyro_fsr >>= parse_accel_fsr
