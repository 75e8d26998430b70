-- ===== src/OsSensor/Config/PortRules.antt =====
-- The rules of the destination, the ports and the timestamp mode.
use Prim.Native.String.{String}
use text.Mathlib.Text.{◌==◌}
use ouster_ros.Prelude.{
  true, false, ◌&&◌, ap, Bool-cases, inl, inr, ◌≡◌, Bool, not, ◌||◌, Option, none, some,
  if◌then◌else◌, arith, Bool-cases, inl, inr,
}
use ouster_ros.Prelude.Int.{ℤ, pos}
use ouster_ros.Ros.{Params, param, is_arg_set}
use ouster_ros.OsSensor.Config.{Sdk, Parsed}
use ouster_ros.OsSensor.Config.Value.{eq_ℤ, outside}
use ouster_ros.OsSensor.Config.Rule.{or_else, unless, Rule}
use ouster_ros.OsSensor.Config.Network.{parse_udp_dest, parse_port}
use ouster_ros.OsSensor.Config.Timing.{parse_timestamp_mode}

module _ {R : Type 0} (sdk : Sdk R) (p : Params R) where
  abbrev pub int : String → ℤ → ℤ
  int name d = param p.int name d

  pub parse_port_lem :
      (name : String) (member : (Option ℤ → Option ℤ) → Parsed sdk → Parsed sdk)
      → ((t : Parsed sdk) → member (λ o. o) t ≡ t)
      → (t : Parsed sdk)
      → parse_port sdk p name (λ v. member (λ o. some v)) t ≡ (
          if not (outside (pos 0) (pos 65535) (int name (pos 0)))
          then some
              (member (or_else (unless (eq_ℤ (int name (pos 0)) (pos 0)) (int name (pos 0)))) t)
          else none)
  unfolding parse_port
  parse_port_lem name member kept t = ground (arith, kept t)

  abbrev pub port_rule :
      String
      → (member : (Option ℤ → Option ℤ) → Parsed sdk → Parsed sdk)
      → ((t : Parsed sdk) → member (λ o. o) t ≡ t)
      → Rule sdk p
  port_rule name member kept = record {
    step = parse_port sdk p name (λ v. member (λ o. some v));
    ok = not (outside (pos 0) (pos 65535) (int name (pos 0)));
    write = member (or_else (unless (eq_ℤ (int name (pos 0)) (pos 0)) (int name (pos 0))));
    law = parse_port_lem name member kept;
  }

  abbrev is_ros_time : String → Bool
  is_ros_time arg = arg == "TIME_FROM_ROS_TIME" || arg == "TIME_FROM_ROS_RECEPTION"

  -- A text that names a timestamp mode, or none of the sensor's: not set, or the mode of the node.
  abbrev pub keeps_timestamp_mode : Bool
  keeps_timestamp_mode =
      let arg = param p.text "timestamp_mode" "" in not (is_arg_set arg) || is_ros_time arg

  abbrev pub timestamp_mode : sdk.TimestampMode
  timestamp_mode = sdk.timestamp_mode_of_string (param p.text "timestamp_mode" "")

  pub parse_timestamp_mode_lem :
      (t : Parsed sdk)
      → parse_timestamp_mode sdk p t ≡ (
          if keeps_timestamp_mode || not (sdk.is_unspecified timestamp_mode)
          then some (record t {
            config = record t.config {
              timestamp_mode =
                  or_else (unless keeps_timestamp_mode timestamp_mode) t.config.timestamp_mode;
            };
          })
          else none)
  unfolding parse_timestamp_mode
  parse_timestamp_mode_lem t =
      let arg = param p.text "timestamp_mode" "" in
      elim (Bool-cases (is_arg_set arg)) [ inr e ↦ ground (arith, e) | inl e ↦ ground (arith, e) ]

  abbrev pub timestamp_rule : Rule sdk p
  timestamp_rule = record {
    step = parse_timestamp_mode sdk p;
    ok = keeps_timestamp_mode || not (sdk.is_unspecified timestamp_mode);
    write = λ t. record t {
      config = record t.config {
        timestamp_mode =
            or_else (unless keeps_timestamp_mode timestamp_mode) t.config.timestamp_mode;
      };
    };
    law = parse_timestamp_mode_lem;
  }

  abbrev pub destination : String
  destination =
      let given = param p.text "udp_dest" "" in
      if is_arg_set given then given else param p.text "computer_ip" ""

  abbrev pub is_multicast : Bool
  is_multicast = is_arg_set destination && sdk.in_multicast destination

  abbrev pub written_mtp_dest : String
  written_mtp_dest = let arg = param p.text "mtp_dest" "" in if is_arg_set arg then arg else ""

  abbrev pub write_destination : Parsed sdk → Parsed sdk
  write_destination t = record t {
    config = record t.config {
      udp_dest = or_else (unless (not (is_arg_set destination)) destination) t.config.udp_dest;
    };
    mtp_dest = if is_multicast then written_mtp_dest else t.mtp_dest;
    mtp_main = if is_multicast then param p.bool "mtp_main" false else t.mtp_main;
    auto_udp_allowed = if is_arg_set destination then t.auto_udp_allowed else true;
  }

  pub parse_udp_dest_lem : (t : Parsed sdk) → parse_udp_dest sdk p t ≡ write_destination t
  unfolding parse_udp_dest
  parse_udp_dest_lem t = elim (Bool-cases (is_arg_set destination)) [
    | inl set ↦ elim (Bool-cases (sdk.in_multicast destination)) [
      | inl m ↦ ground (arith, set, m)
      | inr m ↦ ground (arith, set, m)
    ]
    | inr e ↦ ground (arith, e)
  ]

  abbrev pub destination_rule : Rule sdk p
  destination_rule = record {
    step = λ t. some (parse_udp_dest sdk p t);
    ok = true;
    write = write_destination;
    law = λ t. ap some (parse_udp_dest_lem t);
  }
