-- ===== src/OsSensor/Config/Client.antt =====
-- src/os_sensor_nodelet.cpp: the client that the node asks the SDK for, and its configuration services.
use Prim.Native.String.{String}
use text.Mathlib.Text.{◌==◌}
use ouster_ros.Prelude.{
  ◌∙◌, ◌≡◌, refl, subst, Bool, true, false, not, ◌&&◌, Option, none, some, if◌then◌else◌, arith,
  Bool-cases, inl, inr,
}
use ouster_ros.Prelude.Int.{ℤ, pos, negsuc}
use ouster_ros.Ros.{Params, param, is_arg_set}
use ouster_ros.OsSensor.{Node, reset_sensor}
use ouster_ros.OsSensor.Config.{Sdk, SensorConfig, Parsed}
use ouster_ros.OsSensor.Config.Value.{eq_ℤ}
use ouster_ros.OsSensor.Config.Rule.{unless}
use ouster_ros.OsSensor.Config.PortRules.{destination, is_multicast, written_mtp_dest}
use ouster_ros.OsSensor.Config.Parse.{parse_config_from_ros_parameters}
use ouster_ros.OsSensor.Config.Accepts.{
  accepts, expected, expected_config, int_or_0, parse_config_from_ros_parameters_lem,
}

abbrev pub value_or {ℓ} : {A : Type ℓ} → Option A → A → A
value_or none d = d
value_or (some v) d = v

module _ {R : Type 0} (sdk : Sdk R) where
  -- The call that is made of the SDK, with its arguments.
  pub data Client : Type 0 where
    mtp_init_client : String → SensorConfig sdk → String → Bool → Client
    init_client_on_ports : String → ℤ → ℤ → Client
    init_client : String → String → ℤ → ℤ → Client

  unfoldable pub create_sensor_client : String → Parsed sdk → Client
  create_sensor_client hostname t =
      let lidar_port = value_or t.config.udp_port_lidar (pos 0) in
      let imu_port = value_or t.config.udp_port_imu (pos 0) in
      let udp_dest = value_or t.config.udp_dest "" in
      if sdk.in_multicast udp_dest
      then mtp_init_client hostname t.config t.mtp_dest t.mtp_main
      else if not (eq_ℤ lidar_port (pos 0)) && not (eq_ℤ imu_port (pos 0))
      then init_client_on_ports hostname lidar_port imu_port
      else init_client hostname udp_dest lidar_port imu_port

unfoldable pub get_sensor_hostname : {R : Type 0} → Params R → Option String
get_sensor_hostname p =
    let hostname = param p.text "sensor_hostname" "" in
    if is_arg_set hostname then some hostname else none

module _ {C : Type 0} where
  -- The response and whether the call succeeds.
  unfoldable pub get_config_service : Option C → (C → String) → String × Bool
  get_config_service none to_string = ("", false)
  get_config_service (some active) to_string =
      let config = to_string active in (config, not (config == ""))

  unfoldable pub stage_config : Option C → String → Node C → Node C × String × Bool
  unfolding reset_sensor
  stage_config none config_str n = (n, "", false)
  stage_config (some config) config_str n =
      (reset_sensor true (record n { staged_config = some config }), config_str, true)

  -- The text is that of the file, `none` where reading it throws.
  unfoldable pub set_config_service :
      Option String → (String → Option C) → Node C → Node C × String × Bool
  unfolding stage_config
  set_config_service none parse_and_validate_config n = (n, "", false)
  set_config_service (some config_str) parse_and_validate_config n =
      if config_str == ""
      then (n, "", false)
      else stage_config (parse_and_validate_config config_str) config_str n

module _ {R : Type 0} (sdk : Sdk R) (p : Params R) where
  -- The ports of a parsed configuration are those of the parameters.
  port_or_0 : (v : ℤ) → value_or (unless (eq_ℤ v (pos 0)) v) (pos 0) ≡ v
  port_or_0 (pos n) = ground arith
  port_or_0 (negsuc n) = ground arith

  client-at :
      (hostname : String) (t : Parsed sdk) {lidar imu : ℤ} {dest : String} {multicast : Bool}
      → value_or t.config.udp_port_lidar (pos 0) ≡ lidar
      → value_or t.config.udp_port_imu (pos 0) ≡ imu
      → value_or t.config.udp_dest "" ≡ dest
      → sdk.in_multicast dest ≡ multicast
      → create_sensor_client sdk hostname t ≡ (
          if multicast
          then mtp_init_client hostname t.config t.mtp_dest t.mtp_main
          else if not (eq_ℤ lidar (pos 0)) && not (eq_ℤ imu (pos 0))
          then init_client_on_ports hostname lidar imu
          else init_client hostname dest lidar imu)
  unfolding create_sensor_client
  client-at hostname t lidar imu dest multicast = simp (lidar, imu, dest, multicast) refl

  -- Members that are set under the same test.
  settings :
      (multicast : Bool) (hostname : String) (config : SensorConfig sdk) (d d' : String)
      (m m' : Bool) (other : Client sdk)
      → (if multicast
          then mtp_init_client hostname config
              (if multicast then d else d')
              (if multicast then m else m')
          else other)
        ≡ (if multicast then mtp_init_client hostname config d m else other)
  settings true hostname config d d' m m' other = refl
  settings false hostname config d d' m m' other = refl

  destination_or_empty :
      value_or (unless (not (is_arg_set (destination sdk p))) (destination sdk p)) ""
      ≡ (if is_arg_set (destination sdk p) then destination sdk p else "")
  destination_or_empty = elim (Bool-cases (is_arg_set (destination sdk p))) [
    | inl e ↦ simp (e) refl
    | inr e ↦ simp (e) refl
  ]

  multicast_destination :
      sdk.in_multicast "" ≡ false
      → sdk.in_multicast (if is_arg_set (destination sdk p) then destination sdk p else "")
        ≡ is_multicast sdk p
  multicast_destination unset_dest = elim (Bool-cases (is_arg_set (destination sdk p))) [
    | inl e ↦ simp (e) refl
    | inr e ↦ simp (e) unset_dest
  ]

  -- The client that the parameters ask for, given the configuration.
  unfoldable pub wanted_client : String → SensorConfig sdk → Client sdk
  wanted_client hostname config =
      let lidar_port = int_or_0 sdk p "lidar_port" in
      let imu_port = int_or_0 sdk p "imu_port" in
      if is_multicast sdk p
      then mtp_init_client hostname config (written_mtp_dest sdk p) (param p.bool "mtp_main" false)
      else if not (eq_ℤ lidar_port (pos 0)) && not (eq_ℤ imu_port (pos 0))
      then init_client_on_ports hostname lidar_port imu_port
      else init_client hostname (if is_arg_set (destination sdk p) then destination sdk p else "")
          lidar_port imu_port

  expected-client :
      (hostname : String) (t : Parsed sdk)
      → sdk.in_multicast "" ≡ false
      → create_sensor_client sdk hostname (expected sdk p t)
        ≡ wanted_client hostname (expected sdk p t).config
  unfolding wanted_client expected expected_config
  expected-client hostname t unset_dest =
      let client =
        client-at hostname (expected sdk p t) (port_or_0 (int_or_0 sdk p "lidar_port"))
          (port_or_0 (int_or_0 sdk p "imu_port")) destination_or_empty
          (multicast_destination unset_dest) in
      client
      ∙ settings (is_multicast sdk p) hostname (expected sdk p t).config (written_mtp_dest sdk p)
          t.mtp_dest (param p.bool "mtp_main" false) t.mtp_main _

  -- With the configuration that the parameters give, the node asks for a multicast client where the destination is a
  -- multicast address, with the multicast parameters; otherwise for a client on the ports of the parameters where
  -- neither is 0; otherwise for one that is given the destination (or the empty text) and assigns the ports that are
  -- 0. The SDK takes the empty text for no multicast address.
  pub create_sensor_client-parsed :
      (hostname : String) (t t' : Parsed sdk)
      → sdk.in_multicast "" ≡ false
      → parse_config_from_ros_parameters sdk p t ≡ some t'
      → create_sensor_client sdk hostname t' ≡ wanted_client hostname t'.config
  create_sensor_client-parsed hostname t t' unset_dest h =
      let law = parse_config_from_ros_parameters_lem sdk p t in
      elim (Bool-cases (accepts sdk p)) [
        | inl e ↦
            subst (λ x. create_sensor_client sdk hostname x ≡ wanted_client hostname x.config)
              {x = expected sdk p t} {y = t'} (ground (arith, law, h, e))
              (expected-client hostname t unset_dest)
        | inr e ↦ ground (arith, law, h, e)
      ]
