-- ===== src/PointCloud/Factory/Tables.antt =====
-- The choices of the factory fit together, for every profile and return.
use ouster_ros.Prelude.{
  arith, ℕ, suc, ◌≡◌, refl, Bool, if◌then◌else◌, true, false, [], ◌∷◌, drop, ◌==◌, Bool-cases, inl,
  inr,
}
use ouster_ros.PointTypes.{
  signal, ChanField, chan_range, chan_range2, chan_signal, chan_signal2, chan_reflectivity,
  chan_reflectivity2, chan_flags, chan_flags2, ChanFieldTable, PointStruct,
}
use ouster_ros.PointTypes.Layout.{has, fits, registers, covers, is_filled_by}
use ouster_ros.PointTypes.Native.{
  point_legacy, point_rng19_rfl8_sig16_nir16_dual, point_rng19_rfl8_sig16_nir16,
  point_rng15_rfl8_nir8, point_rng15_rfl8_nir8_dual,
}
use ouster_ros.PointTypes.Extended.{
  point_rng15_rfl8_win8, point_rng15_rfl8_nir8_zone16, point_rng19_rfl8_sig16_nir16_zone16,
  point_rng19_rfl8_sig16_nir16_rgb16, point_rng19_rfl8_sig16_nir16_rgb16_dual,
}
use ouster_ros.PointTypes.Profiles.{
  profile_legacy, profile_rng19_rfl8_sig16_nir16_dual,
  profile_rng19_rfl8_sig16_nir16_dual_2nd_return, profile_rng19_rfl8_sig16_nir16,
  profile_rng15_rfl8_nir8, profile_rng15_rfl8_nir8_dual, profile_rng15_rfl8_nir8_dual_2nd_return,
  profile_rng15_rfl8_win8, profile_rng15_rfl8_nir8_zone16, profile_rng19_rfl8_sig16_nir16_zone16,
  profile_rng19_rfl8_sig16_nir16_rgb16, profile_rng19_rfl8_sig16_nir16_rgb16_dual,
  profile_rng19_rfl8_sig16_nir16_rgb16_dual_2nd_return,
}
use ouster_ros.PointCloud.Factory.{
  UdpProfileLidar, legacy, rng19_rfl8_sig16_nir16_dual, rng19_rfl8_sig16_nir16, rng15_rfl8_nir8,
  fusa_rng15_rfl8_nir8_dual, rng15_rfl8_nir8_dual, rng15_rfl8_win8, rng15_rfl8_nir8_zone16,
  rng19_rfl8_sig16_nir16_zone16, rng19_rfl8_sig16_nir16_rgb16, rng19_rfl8_sig16_nir16_rgb16_dual,
  other_profile, unsupported_udp_profile_lidar, Outcome, two_returns, ok, throw, Source,
  make_scan_to_cloud_fn, native, point_type_requires_intensity, profile_has_intensity, Target,
  struct, make_point_cloud_processor, create_native, create_point_cloud_processor,
}

bundle : Unit {0}
unfolding make_scan_to_cloud_fn make_point_cloud_processor create_native
    create_point_cloud_processor point_legacy point_rng19_rfl8_sig16_nir16_dual
    point_rng19_rfl8_sig16_nir16 point_rng15_rfl8_nir8 point_rng15_rfl8_nir8_dual
    point_rng15_rfl8_win8 point_rng15_rfl8_nir8_zone16 point_rng19_rfl8_sig16_nir16_zone16
    point_rng19_rfl8_sig16_nir16_rgb16 point_rng19_rfl8_sig16_nir16_rgb16_dual profile_legacy
    profile_rng19_rfl8_sig16_nir16_dual profile_rng19_rfl8_sig16_nir16_dual_2nd_return
    profile_rng19_rfl8_sig16_nir16 profile_rng15_rfl8_nir8 profile_rng15_rfl8_nir8_dual
    profile_rng15_rfl8_nir8_dual_2nd_return profile_rng15_rfl8_win8 profile_rng15_rfl8_nir8_zone16
    profile_rng19_rfl8_sig16_nir16_zone16 profile_rng19_rfl8_sig16_nir16_rgb16
    profile_rng19_rfl8_sig16_nir16_rgb16_dual profile_rng19_rfl8_sig16_nir16_rgb16_dual_2nd_return
    profile_has_intensity point_type_requires_intensity
bundle = tt

-- A structure is registered with PCL as its tuple lists it, and both constructors set every member.
pub IsCoherent : PointStruct → Type 0
IsCoherent p =
    (registers p.declared p.as_tuple p.registered ≡ true)
    × (covers p.declared p.copied ≡ true)
    × (covers p.declared p.zeroed ≡ true)

-- The members after x, y, z, t and ring are those of the fields of the table, in order and of the same types, and the
-- structure has no other members.
unfoldable pub IsMatched : PointStruct → ChanFieldTable → Type 0
IsMatched p table =
    (fits p.declared (drop 5 p.as_tuple) table ≡ true) × (is_filled_by table p ≡ true)

second : ChanField → ChanField
second chan_range = chan_range2
second chan_signal = chan_signal2
second chan_reflectivity = chan_reflectivity2
second chan_flags = chan_flags2
second c = c

pub second_table : ChanFieldTable → ChanFieldTable
second_table [] = []
second_table ((c, s) ∷ table) = (second c, s) ∷ second_table table

pub is_dual : UdpProfileLidar → Bool
is_dual rng19_rfl8_sig16_nir16_dual = true
is_dual fusa_rng15_rfl8_nir8_dual = true
is_dual rng15_rfl8_nir8_dual = true
is_dual rng19_rfl8_sig16_nir16_rgb16_dual = true
is_dual _ = false

unfoldable pub Chosen : UdpProfileLidar → Outcome (Target × Source) → Type 0
Chosen profile (throw e) =
    (n : ℕ) × (profile ≡ other_profile n) × (e ≡ unsupported_udp_profile_lidar)
Chosen profile (ok (tgt, source)) =
    (i : ℕ)
    → (tgt ≡ struct (source i).0) × IsCoherent (source i).0 × IsMatched (source i).0 (source i).1

IsSound : PointStruct → PointStruct × ChanFieldTable → Type 0
IsSound p (q, table) = (struct p ≡ struct q) × IsCoherent q × IsMatched q table

-- A choice by the index of the return has what both tables have.
by_return :
    (p : PointStruct) (table table_2nd : ChanFieldTable)
    → IsCoherent p
    → IsMatched p table
    → IsMatched p table_2nd
    → (i : ℕ) → IsSound p (two_returns p table table_2nd i)
unfolding IsSound
by_return p table table_2nd coherent first_ok second_ok i = elim (Bool-cases (i == 0)) [
  | inl e ↦ (refl, coherent, rw e first_ok)
  | inr e ↦ (refl, coherent, rw e second_ok)
]

-- For every lidar profile, point type "native" throws only where the profile is none of those that the
-- repository names. Else, for every return, the target is the staging type, so that no conversion runs; the type
-- is registered with PCL as its tuple lists it, both its constructors set every member, and the table of the
-- return names, in order, the members after the first five, with their types, each once.
pub create_native_lem :
    (profile : UdpProfileLidar) → Chosen profile (create_point_cloud_processor native profile)
unfolding bundle Chosen IsCoherent IsMatched IsSound
create_native_lem legacy = λ i. (refl, (refl, refl, refl), (refl, refl))
create_native_lem rng19_rfl8_sig16_nir16_dual =
    by_return _ _ _ (refl, refl, refl) (refl, refl) (refl, refl)
create_native_lem rng19_rfl8_sig16_nir16 = λ i. (refl, (refl, refl, refl), (refl, refl))
create_native_lem rng15_rfl8_nir8 = λ i. (refl, (refl, refl, refl), (refl, refl))
create_native_lem fusa_rng15_rfl8_nir8_dual =
    by_return _ _ _ (refl, refl, refl) (refl, refl) (refl, refl)
create_native_lem rng15_rfl8_nir8_dual =
    by_return _ _ _ (refl, refl, refl) (refl, refl) (refl, refl)
create_native_lem rng15_rfl8_win8 = λ i. (refl, (refl, refl, refl), (refl, refl))
create_native_lem rng15_rfl8_nir8_zone16 = λ i. (refl, (refl, refl, refl), (refl, refl))
create_native_lem rng19_rfl8_sig16_nir16_zone16 = λ i. (refl, (refl, refl, refl), (refl, refl))
create_native_lem rng19_rfl8_sig16_nir16_rgb16 = λ i. (refl, (refl, refl, refl), (refl, refl))
create_native_lem rng19_rfl8_sig16_nir16_rgb16_dual =
    by_return _ _ _ (refl, refl, refl) (refl, refl) (refl, refl)
create_native_lem (other_profile n) = (n, refl, refl)

pub SecondOf : UdpProfileLidar → Outcome Source → Type 0
SecondOf profile (throw e) = Unit
SecondOf profile (ok source) =
    (j : ℕ)
    → ((source (suc j)).0 ≡ (source 0).0)
      × ((source (suc j)).1 ≡ (if is_dual profile then second_table (source 0).1 else (source 0).1))

-- For every supported profile, the returns after the first are staged in the same type. In a dual profile their
-- table is that of the first return with range, signal, reflectivity and flags taken from the second return;
-- in the others it is the same table.
pub make_scan_to_cloud_fn-second :
    (profile : UdpProfileLidar) → SecondOf profile (make_scan_to_cloud_fn profile)
unfolding bundle SecondOf is_dual second_table second
make_scan_to_cloud_fn-second legacy = λ j. (refl, refl)
make_scan_to_cloud_fn-second rng19_rfl8_sig16_nir16_dual = λ j. (refl, ground arith)
make_scan_to_cloud_fn-second rng19_rfl8_sig16_nir16 = λ j. (refl, refl)
make_scan_to_cloud_fn-second rng15_rfl8_nir8 = λ j. (refl, refl)
make_scan_to_cloud_fn-second fusa_rng15_rfl8_nir8_dual = λ j. (refl, ground arith)
make_scan_to_cloud_fn-second rng15_rfl8_nir8_dual = λ j. (refl, ground arith)
make_scan_to_cloud_fn-second rng15_rfl8_win8 = λ j. (refl, refl)
make_scan_to_cloud_fn-second rng15_rfl8_nir8_zone16 = λ j. (refl, refl)
make_scan_to_cloud_fn-second rng19_rfl8_sig16_nir16_zone16 = λ j. (refl, refl)
make_scan_to_cloud_fn-second rng19_rfl8_sig16_nir16_rgb16 = λ j. (refl, refl)
make_scan_to_cloud_fn-second rng19_rfl8_sig16_nir16_rgb16_dual = λ j. (refl, ground arith)
make_scan_to_cloud_fn-second (other_profile n) = tt

pub HasSignal : UdpProfileLidar → Outcome Source → Type 0
HasSignal profile (throw e) = profile_has_intensity profile ≡ false
HasSignal profile (ok source) = (i : ℕ) → profile_has_intensity profile ≡ has (source i).0 signal

-- `profile_has_intensity` says of every supported profile whether its staging type has a signal member, which is
-- what the intensity of a target is copied from, and is false of the unsupported ones.
pub profile_has_intensity_lem :
    (profile : UdpProfileLidar) → HasSignal profile (make_scan_to_cloud_fn profile)
unfolding bundle HasSignal
profile_has_intensity_lem legacy = λ i. refl
profile_has_intensity_lem rng19_rfl8_sig16_nir16_dual = λ i. refl
profile_has_intensity_lem rng19_rfl8_sig16_nir16 = λ i. refl
profile_has_intensity_lem rng15_rfl8_nir8 = λ i. refl
profile_has_intensity_lem fusa_rng15_rfl8_nir8_dual = λ i. refl
profile_has_intensity_lem rng15_rfl8_nir8_dual = λ i. refl
profile_has_intensity_lem rng15_rfl8_win8 = λ i. refl
profile_has_intensity_lem rng15_rfl8_nir8_zone16 = λ i. refl
profile_has_intensity_lem rng19_rfl8_sig16_nir16_zone16 = λ i. refl
profile_has_intensity_lem rng19_rfl8_sig16_nir16_rgb16 = λ i. refl
profile_has_intensity_lem rng19_rfl8_sig16_nir16_rgb16_dual = λ i. refl
profile_has_intensity_lem (other_profile n) = refl
