-- ===== src/Nodes/Replay/Saved.antt =====
-- The metadata that a node of a sensor saves, and a replay.
use Prim.Native.String.{String, ◌++◌}
use text.Mathlib.Text.{◌==◌}
use text.Mathlib.TextEquality.{eq_iff}
use text.Mathlib.TextLemmas.{append-ne-nil_of_right_ne-nil}
use text.Mathlib.TextPositions.{eq_refl}
use ouster_ros.Prelude.{
  ◌≡◌, ap, Bool, true, false, not, if◌then◌else◌, Bool-cases, inl, inr, none, some, [], ◌∷◌, arith,
}
use ouster_ros.Ros.{Params, is_arg_set}
use ouster_ros.Files.{FileSystem, read_text_file, write_text_to_file}
use ouster_ros.OsSensor.OnInit.{get_metadata_service, load_metadata_from_file}
use ouster_ros.OsSensor.SaveMetadata.{metadata_file, save_metadata}
use ouster_ros.Nodes.Replay.{
  advertise_metadata, publish_metadata, advertise_get_metadata, replay_on_init,
}

read-save :
    {R : Type 0} (p : Params R) (host text : String) (files : FileSystem)
    → read_text_file (save_metadata p true host text files) (metadata_file p host) ≡ text ++ "\n"
unfolding read_text_file save_metadata write_text_to_file
read-save p host text files =
    ap
      (λ b. elim (if b then some (text ++ "\n") else files (metadata_file p host)) [
        | none ↦ ""
        | some t ↦ t
      ])
      (eq_refl (metadata_file p host))

not_empty : (text : String) → ((text ++ "\n") == "") ≡ false
not_empty text = elim (Bool-cases ((text ++ "\n") == "")) [
  | inl e ↦ absurd (append-ne-nil_of_right_ne-nil text (λ q. cc) ((eq_iff (text ++ "\n") "").0 e))
  | inr e ↦ e
]

replay_from :
    {R : Type 0} (p : Params R) (files : FileSystem) (is_metadata : String → Bool)
    (file text : String)
    → p.text "metadata" ≡ some file
    → is_arg_set file ≡ true
    → read_text_file files file ≡ text
    → is_metadata text ≡ true
    → replay_on_init p files is_metadata
      ≡ some (text, advertise_metadata ∷ publish_metadata text ∷ advertise_get_metadata ∷ [])
unfolding replay_on_init load_metadata_from_file
replay_from p files is_metadata file text named set read valid =
    ground (arith, named, set, read, valid)

-- A replay whose `metadata` names the file that a sensor's node has written serves what that node had cached, with a line
-- end after it, if the SDK reads that text: it publishes it once, and its service succeeds with it.
pub replay_on_init-save_metadata :
    {R : Type 0} (p p' : Params R) (host text : String) (files : FileSystem)
    (is_metadata : String → Bool)
    → p'.text "metadata" ≡ some (metadata_file p host)
    → is_arg_set (metadata_file p host) ≡ true
    → is_metadata (text ++ "\n") ≡ true
    → (replay_on_init p' (save_metadata p true host text files) is_metadata
        ≡ some (
          text ++ "\n",
          advertise_metadata ∷ publish_metadata (text ++ "\n") ∷ advertise_get_metadata ∷ [],
        ))
      × (get_metadata_service (text ++ "\n") ≡ (text ++ "\n", true))
replay_on_init-save_metadata p p' host text files is_metadata named set valid = (
  replay_from p' (save_metadata p true host text files) is_metadata (metadata_file p host)
      (text ++ "\n") named set (read-save p host text files) valid,
  unfold get_metadata_service in ap (λ b. (text ++ "\n", not b)) (not_empty text),
)
