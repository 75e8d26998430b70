-- ===== src/OsSensor/SaveMetadata.antt =====
-- src/os_sensor_nodelet.cpp: the file of the metadata.
use Prim.Native.Char.{Char, code}
use text.Mathlib.TextLemmas.{nil-append, cons-append}
use Prim.Native.String.{String, [], ◌∷◌, ◌++◌}
use ouster_ros.Prelude.{
  ◌≡◌, refl, ap, ◌∙◌, Bool, true, false, Option, none, some, if◌then◌else◌, ◌==◌, arith,
}
use ouster_ros.Ros.{Params, param, is_arg_set}
use ouster_ros.Files.{FileSystem, write_text_to_file}

-- What stands before the last dot, if there is one.
unfoldable pub before_last_dot : String → Option String
before_last_dot [] = none
before_last_dot (c ∷ s) = elim (before_last_dot s) [
  | some stem ↦ some (c ∷ stem)
  | none ↦ if code c == b'.' then some [] else none
]

-- `sensor_hostname.substr(0, sensor_hostname.rfind('.'))`
unfoldable pub host_stem : String → String
unfolding before_last_dot
host_stem sensor_hostname = elim (before_last_dot sensor_hostname) [
  | some stem ↦ stem
  | none ↦ sensor_hostname
]

unfoldable pub metadata_file : {R : Type 0} → Params R → String → String
unfolding host_stem
metadata_file p sensor_hostname =
    let meta_file = param p.text "metadata" "" in
    if is_arg_set meta_file then meta_file else host_stem sensor_hostname ++ "-metadata.json"

-- The files after the call; a failure is only logged.
unfoldable pub save_metadata :
    {R : Type 0} → Params R → Bool → String → String → FileSystem → FileSystem
unfolding metadata_file write_text_to_file
save_metadata p is_open sensor_hostname cached_metadata files =
    (write_text_to_file is_open (metadata_file p sensor_hostname) cached_metadata files).0

unfoldable pub has_dot : String → Bool
has_dot [] = false
has_dot (c ∷ s) = if code c == b'.' then true else has_dot s

before_last_dot-none : (label : String) → has_dot label ≡ false → before_last_dot label ≡ none
unfolding before_last_dot has_dot
before_last_dot-none [] h = refl
before_last_dot-none (c ∷ s) h = ground (arith, before_last_dot-none s)

before_last_dot-dot :
    (label : String) → has_dot label ≡ false → before_last_dot ("." ++ label) ≡ some []
before_last_dot-dot label h =
    ap before_last_dot (cons-append "." [] label ∙ ap (λ s. "." ∷ s) (nil-append label))
    ∙ unfold before_last_dot in rw (before_last_dot-none label h)

before_last_dot-cons :
    (c : Char) (s stem : String)
    → before_last_dot s ≡ some stem
    → before_last_dot (c ∷ s) ≡ some (c ∷ stem)
unfolding before_last_dot
before_last_dot-cons c s stem h = rw h

before_last_dot-some :
    (stem label : String)
    → has_dot label ≡ false
    → before_last_dot (stem ++ ("." ++ label)) ≡ some stem
before_last_dot-some [] label h =
    ap before_last_dot (nil-append ("." ++ label)) ∙ before_last_dot-dot label h
before_last_dot-some (c ∷ stem) label h =
    ap before_last_dot (cons-append c stem ("." ++ label))
    ∙ before_last_dot-cons c (stem ++ ("." ++ label)) stem (before_last_dot-some stem label h)

host_stem-dot :
    (stem label : String) → has_dot label ≡ false → host_stem (stem ++ ("." ++ label)) ≡ stem
unfolding host_stem
host_stem-dot stem label h = rw (before_last_dot-some stem label h, host_stem)

metadata_file-default :
    {R : Type 0} (p : Params R) (host : String)
    → is_arg_set (param p.text "metadata" "") ≡ false
    → metadata_file p host ≡ host_stem host ++ "-metadata.json"
unfolding metadata_file
metadata_file-default p host unset = rw unset

-- Where no file is asked for, the metadata go to a file that is named by what stands before the last dot of the host's
-- name: two hosts that differ after it only, such as two addresses of a subnet, have one file.
pub metadata_file-stem :
    {R : Type 0} (p : Params R) (stem label label' : String)
    → is_arg_set (param p.text "metadata" "") ≡ false
    → has_dot label ≡ false
    → has_dot label' ≡ false
    → (metadata_file p (stem ++ ("." ++ label)) ≡ stem ++ "-metadata.json")
      × (metadata_file p (stem ++ ("." ++ label')) ≡ stem ++ "-metadata.json")
metadata_file-stem p stem label label' unset h h' = (
  metadata_file-default p (stem ++ ("." ++ label)) unset
      ∙ ap (λ s. s ++ "-metadata.json") (host_stem-dot stem label h),
  metadata_file-default p (stem ++ ("." ++ label')) unset
      ∙ ap (λ s. s ++ "-metadata.json") (host_stem-dot stem label' h'),
)
