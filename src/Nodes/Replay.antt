-- ===== src/Nodes/Replay.antt =====
-- src/os_replay_nodelet.cpp, src/os_pcap_nodelet.cpp: the nodes that stand for a sensor, from their start to the first
-- packet. The SDK reads texts of metadata and opens recordings, as arguments.
pub mod Saved
mod Tests
use Prim.Native.String.{String}
use ouster_ros.Prelude.{
  ℕ, Bool, true, false, Option, none, some, List, [], ◌∷◌, ◌>>=◌, if◌then◌else◌,
}
use ouster_ros.Float.{Float}
use ouster_ros.Ros.{Params, param, is_arg_set}
use ouster_ros.Files.{FileSystem, read_text_file}
use ouster_ros.OsSensor.OnInit.{load_metadata_from_file}

-- What `onInit` does that others see, in order: topics and services, the metadata as a message, the thread that reads a
-- recording, again and again or once.
pub data Started : Type 0 where
  advertise_metadata : Started
  advertise_packets : Started
  publish_metadata : String → Started
  advertise_get_metadata : Started
  start_reading : Bool → Started

-- A parameter that must be set; `none` is the exception, so that the node is not loaded.
unfoldable pub required : {R : Type 0} → Params R → String → Option String
required p name = let file = param p.text name "" in if is_arg_set file then some file else none

unfoldable pub get_meta_file : {R : Type 0} → Params R → Option String
unfolding required
get_meta_file p = required p "metadata"

unfoldable pub get_pcap_file : {R : Type 0} → Params R → Option String
unfolding required
get_pcap_file p = required p "pcap_file"

-- The metadata that are cached, and what was done.
unfoldable pub replay_on_init :
    {R : Type 0} → Params R → FileSystem → (String → Bool) → Option (String × List Started)
unfolding get_meta_file
replay_on_init p files is_metadata = do
  meta_file ← get_meta_file p
  let cached = load_metadata_from_file (some (read_text_file files meta_file)) is_metadata
  some (cached, advertise_metadata ∷ publish_metadata cached ∷ advertise_get_metadata ∷ [])

module _ (k : Float) where
  -- At least 0.001, which is an argument.
  unfoldable pub clamp_update_freq : k.F → k.F → k.F
  clamp_update_freq least freq = if k.lt freq least then least else freq

  pub record Playing : Type 0 where
    pub cached_metadata : String
    pub progress_update_freq : k.F
    pub done : List Started

  -- The SDK throws where it cannot open a recording.
  unfoldable pub pcap_on_init :
      Params (k.F) → k.F → FileSystem → (String → Bool) → (String → Bool) → Option Playing
  unfolding get_meta_file get_pcap_file clamp_update_freq
  pcap_on_init p least files is_metadata is_recording = do
    meta_file ← get_meta_file p
    pcap_file ← get_pcap_file p
    let loop = param p.bool "loop" false
    let cached = load_metadata_from_file (some (read_text_file files meta_file)) is_metadata
    (if is_recording pcap_file
        then some (record {
          cached_metadata = cached;
          progress_update_freq =
              clamp_update_freq least (param p.real "progress_update_freq" (k.of_ℕ 1));
          done =
              advertise_metadata
              ∷ advertise_packets
              ∷ publish_metadata cached
              ∷ advertise_get_metadata
              ∷ start_reading loop
              ∷ [];
        })
        else none)
