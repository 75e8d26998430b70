-- ===== src/Nodes/Transforms/Broadcast.antt =====
-- src/os_transforms_broadcaster.h, src/os_ros.cpp, src/os_cloud_nodelet.cpp, src/os_driver_nodelet.cpp: the transforms
-- that are sent, and when. The rotation of a linear map is tf2's, an argument; so is 0.001.
use Prim.Native.String.{String}
use text.Mathlib.Text.{◌==◌}
use text.Mathlib.TextEquality.{eq_iff}
use ouster_ros.Prelude.{
  ℕ, ◌≡◌, ◌⊎◌, inl, inr, refl, sym, ap, ◌∙◌, true, false, not, ◌&&◌, List, [], ◌∷◌, if◌then◌else◌,
  Bool-cases,
}
use ouster_ros.Float.{Float}
use ouster_ros.Ros.{Params, param}
use ouster_ros.Nodes.Transforms.{
  Frames, parse_parameters, apply_lidar_to_sensor_transform, parse_parameters-frames,
}

pub record TransformStamped (F Rotation : Type 0) : Type 0 where
  pub stamp : ℕ
  pub frame_id : String
  pub child_frame_id : String
  pub rotation : Rotation
  pub translation : List F

-- By row and column.
abbrev pub Mat4d : Type 0 → Type 0
Mat4d F = ℕ → ℕ → F

-- What of the sensor's information is sent.
pub record Poses (F : Type 0) : Type 0 where
  pub lidar_to_sensor_transform : Mat4d F
  pub imu_to_sensor_transform : Mat4d F

module _ (k : Float) {Rotation : Type 0} (rotation_of : List k.F → Rotation) (milli : k.F) where
  unfoldable pub transform_to_tf_msg :
      Mat4d k.F → String → String → ℕ → TransformStamped k.F Rotation
  transform_to_tf_msg mat frame child_frame timestamp = record {
    stamp = timestamp;
    frame_id = frame;
    child_frame_id = child_frame;
    rotation = rotation_of (
        mat 0 0
        ∷ mat 0 1
        ∷ mat 0 2
        ∷ mat 1 0
        ∷ mat 1 1
        ∷ mat 1 2
        ∷ mat 2 0
        ∷ mat 2 1
        ∷ mat 2 2
        ∷ []);
    translation = k.mul (mat 0 3) milli ∷ k.mul (mat 1 3) milli ∷ k.mul (mat 2 3) milli ∷ [];
  }

  unfoldable pub broadcast_transforms :
      Frames → Poses k.F → ℕ → List (TransformStamped k.F Rotation)
  unfolding transform_to_tf_msg
  broadcast_transforms f info ts =
      transform_to_tf_msg info.lidar_to_sensor_transform f.sensor_frame f.lidar_frame ts
      ∷ transform_to_tf_msg info.imu_to_sensor_transform f.sensor_frame f.imu_frame ts
      ∷ []

-- When transforms are sent: never, once, or by a timer of a period.
pub data Broadcast (F : Type 0) : Type 0 where
  no_broadcast once : Broadcast F
  timer : F → Broadcast F

module _ (k : Float) (p : Params (k.F)) where
  -- `OusterCloud::metadata_handler`
  unfoldable pub plan_broadcast : Frames → Broadcast k.F
  plan_broadcast f =
      let dynamic_transforms = param p.bool "dynamic_transforms_broadcast" false in
      let asked = param p.real "dynamic_transforms_broadcast_rate" (k.of_ℕ 1) in
      let rate = if dynamic_transforms && k.lt asked (k.of_ℕ 1) then k.of_ℕ 1 else asked in
      if f.pub_static_tf
      then (if not dynamic_transforms then once else timer (k.div (k.of_ℕ 1) rate))
      else no_broadcast

  -- `OusterDriver::on_metadata_updated`
  unfoldable pub plan_driver_broadcast : Frames → Broadcast k.F
  plan_driver_broadcast f = if f.pub_static_tf then once else no_broadcast

no_yes : false ≡ true → ⊥
no_yes e = cc

module _ (k : Float) {Rotation : Type 0} (rotation_of : List k.F → Rotation) (milli : k.F) where
  -- What is sent when metadata come, for `once`, or whenever the timer fires.
  unfoldable pub sent :
      Broadcast k.F → Frames → Poses k.F → ℕ → List (TransformStamped k.F Rotation)
  unfolding broadcast_transforms
  sent no_broadcast f info ts = []
  sent once f info ts = broadcast_transforms k rotation_of milli f info ts
  sent (timer period) f info ts = broadcast_transforms k rotation_of milli f info ts

  -- Both nodes send the two transforms where static transforms are asked for, and nothing otherwise.
  sent-plan :
      (p : Params k.F) (f : Frames) (info : Poses k.F) (ts : ℕ)
      → let transforms =
          if f.pub_static_tf then broadcast_transforms k rotation_of milli f info ts else [] in
        (sent (plan_broadcast k p f) f info ts ≡ transforms)
        × (sent (plan_driver_broadcast k p f) f info ts ≡ transforms)
  unfolding sent plan_broadcast plan_driver_broadcast
  sent-plan p f info ts = elim (Bool-cases f.pub_static_tf) [
    | inr e ↦ rw e (refl, refl)
    | inl e ↦ elim (Bool-cases (param p.bool "dynamic_transforms_broadcast" false)) [
      | inl dynamic ↦ rw (e, dynamic) (refl, refl)
      | inr fixed ↦ rw (e, fixed) (refl, refl)
    ]
  ]

  -- The points of a cloud that are moved by the lidar's transform are in the frame of the sensor. Those that are not
  -- moved are in another frame: where static transforms are asked for, the cloud node and the driver send that
  -- transform from it to the frame of the sensor, as the first one; otherwise both send no transform at all.
  pub broadcast_transforms-frames :
      (p : Params k.F) (info : Poses k.F) (ts : ℕ)
      → let f = parse_parameters p in
        ((apply_lidar_to_sensor_transform f ≡ true) × (f.point_cloud_frame ≡ f.sensor_frame))
        ⊎ ((apply_lidar_to_sensor_transform f ≡ false)
            × (rest : List (TransformStamped k.F Rotation)) × let transforms =
                  if f.pub_static_tf
                  then transform_to_tf_msg k rotation_of milli info.lidar_to_sensor_transform
                      f.sensor_frame f.point_cloud_frame ts
                    ∷ rest
                  else [] in
                (sent (plan_broadcast k p f) f info ts ≡ transforms)
                × (sent (plan_driver_broadcast k p f) f info ts ≡ transforms))
  unfolding apply_lidar_to_sensor_transform broadcast_transforms
  broadcast_transforms-frames p info ts =
      let f = parse_parameters p in
      let msg = λ (child : String).
        transform_to_tf_msg k rotation_of milli info.lidar_to_sensor_transform f.sensor_frame child
          ts in
      let rest : List (TransformStamped k.F Rotation) =
        transform_to_tf_msg k rotation_of milli info.imu_to_sensor_transform f.sensor_frame
          f.imu_frame ts
        ∷ [] in
      let (cloud, driver) = sent-plan p f info ts in
      elim (Bool-cases (f.point_cloud_frame == f.sensor_frame)) [
        | inl e ↦ inl (e, (eq_iff f.point_cloud_frame f.sensor_frame).0 e)
        | inr e ↦ elim (parse_parameters-frames p) [
          | inl (same, applied) ↦ absurd (no_yes (sym e ∙ applied))
          | inr (lidar, applied) ↦
              let named =
                ap (λ child. if f.pub_static_tf then msg child ∷ rest else []) (sym lidar) in
              inr (e, rest, (cloud ∙ named, driver ∙ named))
        ]
      ]
