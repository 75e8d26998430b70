-- ===== src/Nodes/Transforms.antt =====
-- src/os_transforms_broadcaster.h: the names of the frames.
pub mod Broadcast
use Prim.Native.Char.{code}
use Prim.Native.String.{String, [], ◌∷◌, ◌++◌}
use text.Mathlib.Text.{◌==◌}
use text.Mathlib.TextEquality.{eq_iff}
use text.Mathlib.TextPositions.{eq_refl}
use ouster_ros.Prelude.{
  ◌≡◌, ◌⊎◌, inl, inr, ap, ◌∙◌, Bool, true, false, not, ◌&&◌, if◌then◌else◌, arith, Bool-cases, leb,
}
use ouster_ros.Ros.{Params, param, is_arg_set}

pub record Frames : Type 0 where
  pub sensor_frame : String
  pub lidar_frame : String
  pub imu_frame : String
  pub point_cloud_frame : String
  pub pub_static_tf : Bool

-- `tf_prefix.back() == '/'`
unfoldable pub ends_in_slash : String → Bool
ends_in_slash [] = false
ends_in_slash (c ∷ []) = leb (code c) b'/' && leb b'/' (code c)
ends_in_slash (c ∷ d ∷ s) = ends_in_slash (d ∷ s)

unfoldable pub choose_point_cloud_frame : String → String → String → String
choose_point_cloud_frame sensor_frame lidar_frame given =
    if not (is_arg_set given)
    then sensor_frame
    else if not (given == sensor_frame) && not (given == lidar_frame)
    then lidar_frame
    else given

unfoldable pub prepend : String → Frames → Frames
prepend tf_prefix f = record f {
  sensor_frame = tf_prefix ++ f.sensor_frame;
  lidar_frame = tf_prefix ++ f.lidar_frame;
  imu_frame = tf_prefix ++ f.imu_frame;
  point_cloud_frame = tf_prefix ++ f.point_cloud_frame;
}

unfoldable pub parse_parameters : {R : Type 0} → Params R → Frames
unfolding choose_point_cloud_frame prepend
parse_parameters p =
    let sensor_frame = param p.text "sensor_frame" "os_sensor" in
    let lidar_frame = param p.text "lidar_frame" "os_lidar" in
    let frames : Frames = record {
      sensor_frame = sensor_frame;
      lidar_frame = lidar_frame;
      imu_frame = param p.text "imu_frame" "os_imu";
      point_cloud_frame =
          choose_point_cloud_frame sensor_frame lidar_frame (param p.text "point_cloud_frame" "");
      pub_static_tf = param p.bool "pub_static_tf" true;
    } in
    let tf_prefix = param p.text "tf_prefix" "" in
    if is_arg_set tf_prefix
    then prepend (if ends_in_slash tf_prefix then tf_prefix else tf_prefix ++ "/") frames
    else frames

unfoldable pub apply_lidar_to_sensor_transform : Frames → Bool
apply_lidar_to_sensor_transform f = f.point_cloud_frame == f.sensor_frame

chosen :
    (sensor lidar given : String)
    → (choose_point_cloud_frame sensor lidar given ≡ sensor)
      ⊎ (choose_point_cloud_frame sensor lidar given ≡ lidar)
unfolding choose_point_cloud_frame
chosen sensor lidar given = elim (Bool-cases (is_arg_set given)) [
  | inr e ↦ inl (ground (arith, e))
  | inl e ↦ ground (arith, e, eq_iff given sensor, eq_iff given lidar)
]

-- The frame of the point clouds is one of the other two.
Named : Frames → Type 0
Named f = (f.point_cloud_frame ≡ f.sensor_frame) ⊎ (f.point_cloud_frame ≡ f.lidar_frame)

prefixed-Named :
    (b : Bool) (tf_prefix : String) (f : Frames)
    → Named f
    → Named (if b then prepend tf_prefix f else f)
unfolding Named prepend
prefixed-Named false tf_prefix f h = h
prefixed-Named true tf_prefix f (inl e) = inl (ap (λ s. tf_prefix ++ s) e)
prefixed-Named true tf_prefix f (inr e) = inr (ap (λ s. tf_prefix ++ s) e)

parse_parameters-Named : {R : Type 0} (p : Params R) → Named (parse_parameters p)
unfolding parse_parameters Named
parse_parameters-Named p =
    let sensor_frame = param p.text "sensor_frame" "os_sensor" in
    let lidar_frame = param p.text "lidar_frame" "os_lidar" in
    let tf_prefix = param p.text "tf_prefix" "" in
    let given = param p.text "point_cloud_frame" "" in
    prefixed-Named (is_arg_set tf_prefix)
      (if ends_in_slash tf_prefix then tf_prefix else tf_prefix ++ "/")
      (record {
        sensor_frame = sensor_frame;
        lidar_frame = lidar_frame;
        imu_frame = param p.text "imu_frame" "os_imu";
        point_cloud_frame = choose_point_cloud_frame sensor_frame lidar_frame given;
        pub_static_tf = param p.bool "pub_static_tf" true;
      })
      (chosen sensor_frame lidar_frame given)

-- The frame of the point clouds is the sensor's or the lidar's, with the prefix if there is one, whatever frame was
-- asked for. In the sensor's frame the points are moved by the lidar's transform; in the lidar's they are not, unless
-- both frames have the same name.
pub parse_parameters-frames :
    {R : Type 0} (p : Params R)
    → let f = parse_parameters p in
      ((f.point_cloud_frame ≡ f.sensor_frame) × (apply_lidar_to_sensor_transform f ≡ true))
      ⊎ ((f.point_cloud_frame ≡ f.lidar_frame)
          × (apply_lidar_to_sensor_transform f ≡ (f.lidar_frame == f.sensor_frame)))
unfolding Named apply_lidar_to_sensor_transform
parse_parameters-frames p =
    let f = parse_parameters p in
    elim (parse_parameters-Named p) [
      | inl e ↦ inl (e, ap (λ s. s == f.sensor_frame) e ∙ eq_refl f.sensor_frame)
      | inr e ↦ inr (e, ap (λ s. s == f.sensor_frame) e)
    ]
