-- ===== src/Nodes/Replay/Tests.antt =====
-- A sensor at an address, whose metadata a replay reads, and a recording.
use Prim.Native.String.{String, ◌++◌}
use text.Mathlib.Text.{◌==◌}
use ouster_ros.Prelude.{ℕ, ◌≡◌, refl, Bool, true, false, none, some, [], ◌∷◌, if◌then◌else◌}
use ouster_ros.Float.Whole.{whole}
use ouster_ros.Ros.{Params, is_arg_set}
use ouster_ros.Files.{FileSystem, read_text_file}
use ouster_ros.OsSensor.OnInit.{get_metadata_service, load_metadata_from_file}
use ouster_ros.OsSensor.SaveMetadata.{has_dot, metadata_file, save_metadata, metadata_file-stem}
use ouster_ros.Nodes.Replay.{
  advertise_metadata, advertise_packets, publish_metadata, advertise_get_metadata, start_reading,
  replay_on_init, pcap_on_init,
}
use ouster_ros.Nodes.Replay.Saved.{replay_on_init-save_metadata}

abbrev unset : Params ℕ
unset = record { text = λ name. none; int = λ name. none; bool = λ name. none; real = λ name. none }

abbrev replay : Params ℕ
replay = record unset {
  text = λ name.
      if name == "metadata"
      then some "10.5.5-metadata.json"
      else if name == "pcap_file"
      then some "drive.pcap"
      else none;
}

abbrev no_files : FileSystem
no_files path = none

abbrev is_metadata : String → Bool
is_metadata text = text == "{}\n"

host_file : metadata_file unset "10.5.5.87" ≡ "10.5.5-metadata.json"
unfolding metadata_file is_arg_set
host_file = refl

one_file_for_two :
    (metadata_file unset ("10.5.5" ++ ("." ++ "87")) ≡ "10.5.5" ++ "-metadata.json")
    × (metadata_file unset ("10.5.5" ++ ("." ++ "88")) ≡ "10.5.5" ++ "-metadata.json")
unfolding is_arg_set has_dot
one_file_for_two = metadata_file-stem unset "10.5.5" "87" "88" refl refl refl

replay_on_init-save_metadata_example :
    (replay_on_init replay (save_metadata unset true "10.5.5.87" "{}" no_files) is_metadata
      ≡ some (
        "{}" ++ "\n",
        advertise_metadata ∷ publish_metadata ("{}" ++ "\n") ∷ advertise_get_metadata ∷ [],
      ))
    × (get_metadata_service ("{}" ++ "\n") ≡ ("{}" ++ "\n", true))
unfolding metadata_file is_arg_set
replay_on_init-save_metadata_example =
    replay_on_init-save_metadata unset replay "10.5.5.87" "{}" no_files is_metadata refl refl refl

-- A file that is missing leaves empty metadata, which are published all the same.
missing_file :
    pcap_on_init whole replay 0 no_files is_metadata (λ file. true)
    ≡ some (record {
      cached_metadata = "";
      progress_update_freq = 1;
      done =
          advertise_metadata
          ∷ advertise_packets
          ∷ publish_metadata ""
          ∷ advertise_get_metadata
          ∷ start_reading false
          ∷ [];
    })
unfolding pcap_on_init is_arg_set load_metadata_from_file read_text_file
missing_file = refl

no_recording : pcap_on_init whole replay 0 no_files is_metadata (λ file. false) ≡ none
unfolding pcap_on_init is_arg_set
no_recording = refl
