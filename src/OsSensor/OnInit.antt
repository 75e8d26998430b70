-- ===== src/OsSensor/OnInit.antt =====
-- src/os_sensor_nodelet.cpp: `onInit`, the metadata, and the base of the nodes that have it
-- (src/os_sensor_nodelet_base.cpp, src/os_replay_nodelet.cpp). The texts are those that files and the sensor give.
use Prim.Native.String.{String}
use text.Mathlib.Text.{◌==◌}
use ouster_ros.Prelude.{
  ◌≡◌, ◌∙◌, refl, Bool, true, false, not, ◌||◌, Option, none, some, List, [], ◌∷◌, if◌then◌else◌,
  arith, ◌>>=◌,
}
use ouster_ros.Prelude.Int.{ℤ, pos, pos_part}
use ouster_ros.Ros.{Params, param}
use ouster_ros.OsSensor.{Node, idle}
use ouster_ros.OsSensor.Lifecycle.{
  ConfigOps, World, compose_config_flags, configure_sensor, connect, start_with, start_from, start,
  retry, attempt_start,
}
use ouster_ros.OsSensor.Config.{Sdk, SensorConfig, Parsed}
use ouster_ros.OsSensor.Config.Parse.{parse_config_from_ros_parameters}
use ouster_ros.OsSensor.Config.Client.{get_sensor_hostname}
use ouster_ros.OsSensor.Config.Rule.{is_some}

-- `get_metadata`: the response and whether the call succeeds.
unfoldable pub get_metadata_service : String → String × Bool
get_metadata_service cached_metadata = (cached_metadata, not (cached_metadata == ""))

-- What is cached of a metadata file that is read, and whose text is one of metadata; reading may throw.
unfoldable pub load_metadata_from_file : Option String → (String → Bool) → String
load_metadata_from_file none is_metadata = ""
load_metadata_from_file (some text) is_metadata = if is_metadata text then text else ""

-- What is cached of the metadata that the client collects, which may throw; `none` is the exception.
unfoldable pub update_metadata : Option String → Option String
update_metadata none = none
update_metadata (some text) = if text == "" then none else some text

pub record Info (A : Type 0) : Type 0 where
  pub prod_line : String
  pub beam_azimuth_angles : List A
  pub beam_altitude_angles : List A

abbrev is_empty_list : {A : Type 0} → List A → Bool
is_empty_list [] = true
is_empty_list (a ∷ angles) = false

-- With the design values of the first generation.
unfoldable pub populate_metadata_defaults : {A : Type 0} → List A → List A → Info A → Info A
populate_metadata_defaults azimuth altitude info =
    let named = if info.prod_line == "" then record info { prod_line = "UNKNOWN" } else info in
    if is_empty_list info.beam_azimuth_angles || is_empty_list info.beam_altitude_angles
    then record named { beam_azimuth_angles = azimuth; beam_altitude_angles = altitude }
    else named

attempt_start-connected :
    {C : Type 0} (ops : ConfigOps C) (w : World C) (n : Node C) (c : C)
    → n.staged_config ≡ some c
    → w.has_hostname ≡ true
    → ops.in_multicast c ≡ false
    → w.takes_config ≡ true
    → w.has_client ≡ true
    → w.has_metadata ≡ true
    → let n' = attempt_start ops w n in
      (n'.sensor_connection_active ≡ true)
      × (n'.sensor_client ≡ true)
      × (n'.staged_config ≡ none)
      × (n'.reconnect_timer ≡ n.reconnect_timer)
unfolding attempt_start start start_from start_with configure_sensor compose_config_flags connect
    retry
attempt_start-connected ops w n c staged host multicast takes client metadata = (
  ground (arith, staged, host, multicast, takes, client, metadata),
  ground (arith, staged, host, multicast, takes, client, metadata),
  ground (arith, staged, host, multicast, takes, client, metadata),
  ground (arith, staged, host, multicast, takes, client, metadata),
)

module _ {R : Type 0} (sdk : Sdk R) (p : Params R) where
  abbrev has_dest : Option String → Bool
  has_dest none = false
  has_dest (some dest) = true

  abbrev is_multicast_dest : Option String → Bool
  is_multicast_dest none = false
  is_multicast_dest (some dest) = sdk.in_multicast dest

  abbrev pub config_ops : ConfigOps (SensorConfig sdk)
  config_ops = record {
    has_udp_dest = λ c. has_dest c.udp_dest;
    in_multicast = λ c. is_multicast_dest c.udp_dest;
    reset_udp_dest = λ c. record c { udp_dest = none };
  }

  -- `INT_MAX`
  abbrev int_max : ℤ
  int_max = pos 2147483647

  -- The world with what the parameters say.
  abbrev pub with_parameters : World (SensorConfig sdk) → World (SensorConfig sdk)
  with_parameters w = record w {
    has_hostname = is_some (get_sensor_hostname p);
    max_failed_reconnect_attempts = pos_part (param p.int "max_failed_reconnect_attempts" int_max);
  }

  abbrev pub configured : Parsed sdk → Node (SensorConfig sdk) → Node (SensorConfig sdk)
  configured t n = record n {
    staged_config = some t.config;
    persist_config = t.persist_config;
    auto_udp_allowed = t.auto_udp_allowed;
    mtp_main = t.mtp_main;
    attempt_reconnect = param p.bool "attempt_reconnect" false;
    reconnect_attempts_available = pos_part (param p.int "max_failed_reconnect_attempts" int_max);
  }

  abbrev pub unparsed : Node (SensorConfig sdk) → Parsed sdk → Parsed sdk
  unparsed n t = record t {
    mtp_main = n.mtp_main;
    auto_udp_allowed = n.auto_udp_allowed;
    persist_config = n.persist_config;
  }

  -- `none` where the parameters are refused, so that the node is not loaded. The text is the node's `mtp_dest`.
  unfoldable pub on_init :
      World (SensorConfig sdk)
      → Parsed sdk
      → Node (SensorConfig sdk)
      → Option (Node (SensorConfig sdk))
  on_init w t n = parse_config_from_ros_parameters sdk p (unparsed n t) >>= λ t'.
      some (attempt_start config_ops (with_parameters w) (configured t' n))

  -- A node without a timer whose parameters are accepted and name a sensor, with no multicast destination, is
  -- connected at once where the sensor takes the configuration, a client is made and metadata come in time; nothing
  -- stays staged, and no timer is set.
  pub on_init-connected :
      (w : World (SensorConfig sdk)) (t t' : Parsed sdk) (n : Node (SensorConfig sdk))
      (hostname : String)
      → parse_config_from_ros_parameters sdk p (unparsed n t) ≡ some t'
      → get_sensor_hostname p ≡ some hostname
      → is_multicast_dest t'.config.udp_dest ≡ false
      → w.takes_config ≡ true
      → w.has_client ≡ true
      → w.has_metadata ≡ true
      → n.reconnect_timer ≡ idle
      → (n' : Node (SensorConfig sdk)) × (on_init w t n ≡ some n')
        × (n'.sensor_connection_active ≡ true)
        × (n'.sensor_client ≡ true)
        × (n'.staged_config ≡ none)
        × (n'.reconnect_timer ≡ idle)
  unfolding on_init
  on_init-connected w t t' n hostname parsed host multicast takes client metadata timer =
      let named : is_some (get_sensor_hostname p) ≡ true = ground (arith, host) in
      let (active, made, staged, idle_timer) =
        attempt_start-connected config_ops (with_parameters w) (configured t' n) t'.config refl
          named multicast takes client metadata in
      (
        attempt_start config_ops (with_parameters w) (configured t' n),
        ground (arith, parsed),
        active,
        made,
        staged,
        idle_timer ∙ timer,
      )
