-- ===== src/PointCloud/Processor.antt =====
-- src/point_cloud_processor_factory.h with src/point_cloud_compose.h: what a processor that the factory makes
-- composes.
use ouster_ros.Prelude.{ℕ, ◌+◌, ◌*◌, ◌≤◌, ◌<◌, ◌≡◌, sym, subst, false, true, map}
use ouster_ros.Float.{Float}
use ouster_ros.PointCloud.Point.{Point}
use ouster_ros.PointCloud.Factory.{
  UdpProfileLidar, legacy, rng19_rfl8_sig16_nir16_dual, rng19_rfl8_sig16_nir16, rng15_rfl8_nir8,
  fusa_rng15_rfl8_nir8_dual, rng15_rfl8_nir8_dual, rng15_rfl8_win8, rng15_rfl8_nir8_zone16,
  rng19_rfl8_sig16_nir16_zone16, rng19_rfl8_sig16_nir16_rgb16, rng19_rfl8_sig16_nir16_rgb16_dual,
  other_profile, Outcome, ok, throw, Source, make_scan_to_cloud_fn, PointType, native, xyz, xyzi,
  o_xyzi, xyzir, xyzrgb, xyzrgba, original, color_point, other_text, Target,
  make_point_cloud_processor, create_native, create_point_cloud_processor,
}
use ouster_ros.PointCloud.Factory.Tables.{IsMatched, create_native_lem, Chosen}
use ouster_ros.PointCloud.Compose.{Input, Cloud, scan_to_cloud_f}
use ouster_ros.PointCloud.Compose.Dense.{produced, pixels, scan_to_cloud_f-unorganized}

-- Every return of a source is matched by its table.
AllMatched : Outcome (Target × Source) → Type 0
AllMatched (throw e) = Unit
AllMatched (ok (tgt, source)) = (r : ℕ) → IsMatched (source r).0 (source r).1

SourceMatched : Outcome Source → Type 0
SourceMatched (throw e) = Unit
SourceMatched (ok source) = (r : ℕ) → IsMatched (source r).0 (source r).1

make_scan_to_cloud_fn-SourceMatched :
    (profile : UdpProfileLidar) → SourceMatched (make_scan_to_cloud_fn profile)
unfolding SourceMatched Chosen create_point_cloud_processor create_native make_point_cloud_processor
    make_scan_to_cloud_fn
make_scan_to_cloud_fn-SourceMatched legacy = λ r. (create_native_lem legacy r).2
make_scan_to_cloud_fn-SourceMatched rng19_rfl8_sig16_nir16_dual =
    λ r. (create_native_lem rng19_rfl8_sig16_nir16_dual r).2
make_scan_to_cloud_fn-SourceMatched rng19_rfl8_sig16_nir16 =
    λ r. (create_native_lem rng19_rfl8_sig16_nir16 r).2
make_scan_to_cloud_fn-SourceMatched rng15_rfl8_nir8 = λ r. (create_native_lem rng15_rfl8_nir8 r).2
make_scan_to_cloud_fn-SourceMatched fusa_rng15_rfl8_nir8_dual =
    λ r. (create_native_lem fusa_rng15_rfl8_nir8_dual r).2
make_scan_to_cloud_fn-SourceMatched rng15_rfl8_nir8_dual =
    λ r. (create_native_lem rng15_rfl8_nir8_dual r).2
make_scan_to_cloud_fn-SourceMatched rng15_rfl8_win8 = λ r. (create_native_lem rng15_rfl8_win8 r).2
make_scan_to_cloud_fn-SourceMatched rng15_rfl8_nir8_zone16 =
    λ r. (create_native_lem rng15_rfl8_nir8_zone16 r).2
make_scan_to_cloud_fn-SourceMatched rng19_rfl8_sig16_nir16_zone16 =
    λ r. (create_native_lem rng19_rfl8_sig16_nir16_zone16 r).2
make_scan_to_cloud_fn-SourceMatched rng19_rfl8_sig16_nir16_rgb16 =
    λ r. (create_native_lem rng19_rfl8_sig16_nir16_rgb16 r).2
make_scan_to_cloud_fn-SourceMatched rng19_rfl8_sig16_nir16_rgb16_dual =
    λ r. (create_native_lem rng19_rfl8_sig16_nir16_rgb16_dual r).2
make_scan_to_cloud_fn-SourceMatched (other_profile n) = tt

with_target :
    (tgt : Target) (o : Outcome Source)
    → SourceMatched o
    → AllMatched (elim o [ ok source ↦ ok (tgt, source) | throw e ↦ throw e ])
unfolding SourceMatched AllMatched
with_target tgt (ok source) h = h
with_target tgt (throw e) h = tt

target-AllMatched :
    (tgt : Target) (profile : UdpProfileLidar) → AllMatched (make_point_cloud_processor tgt profile)
unfolding make_point_cloud_processor
target-AllMatched tgt profile =
    with_target tgt (make_scan_to_cloud_fn profile) (make_scan_to_cloud_fn-SourceMatched profile)

created-AllMatched :
    (p : PointType) (profile : UdpProfileLidar)
    → AllMatched (create_point_cloud_processor p profile)
unfolding AllMatched create_point_cloud_processor create_native
created-AllMatched native legacy = target-AllMatched _ legacy
created-AllMatched native rng19_rfl8_sig16_nir16_dual =
    target-AllMatched _ rng19_rfl8_sig16_nir16_dual
created-AllMatched native rng19_rfl8_sig16_nir16 = target-AllMatched _ rng19_rfl8_sig16_nir16
created-AllMatched native rng15_rfl8_nir8 = target-AllMatched _ rng15_rfl8_nir8
created-AllMatched native fusa_rng15_rfl8_nir8_dual = target-AllMatched _ fusa_rng15_rfl8_nir8_dual
created-AllMatched native rng15_rfl8_nir8_dual = target-AllMatched _ rng15_rfl8_nir8_dual
created-AllMatched native rng15_rfl8_win8 = target-AllMatched _ rng15_rfl8_win8
created-AllMatched native rng15_rfl8_nir8_zone16 = target-AllMatched _ rng15_rfl8_nir8_zone16
created-AllMatched native rng19_rfl8_sig16_nir16_zone16 =
    target-AllMatched _ rng19_rfl8_sig16_nir16_zone16
created-AllMatched native rng19_rfl8_sig16_nir16_rgb16 =
    target-AllMatched _ rng19_rfl8_sig16_nir16_rgb16
created-AllMatched native rng19_rfl8_sig16_nir16_rgb16_dual =
    target-AllMatched _ rng19_rfl8_sig16_nir16_rgb16_dual
created-AllMatched native (other_profile n) = tt
created-AllMatched xyz profile = target-AllMatched _ profile
created-AllMatched xyzi profile = target-AllMatched _ profile
created-AllMatched o_xyzi profile = target-AllMatched _ profile
created-AllMatched xyzir profile = target-AllMatched _ profile
created-AllMatched xyzrgb profile = target-AllMatched _ profile
created-AllMatched xyzrgba profile = target-AllMatched _ profile
created-AllMatched original profile = target-AllMatched _ profile
created-AllMatched color_point profile = target-AllMatched _ profile
created-AllMatched (other_text n) profile = tt

-- Whatever processor the factory makes, for any point type and profile that it accepts, and for any return: an
-- unorganized cloud of `n` rows (the height divided by the row step, rounded up; the step is not 0), staged in the
-- type and copied by the table that the factory chose, has one point for each pixel whose coordinates are numbers,
-- row by row, whatever the cloud and the staging point held, and is marked dense.
pub create_point_cloud_processor-scan_to_cloud_f :
    (k : Float) (p : PointType) (profile : UdpProfileLidar) (tgt : Target) (source : Source) (r : ℕ)
    (i : Input k) (n : ℕ) (cloud : Cloud k) (staging : Point k)
    → create_point_cloud_processor p profile ≡ ok (tgt, source)
    → i.src ≡ (source r).0
    → i.table ≡ (source r).1
    → i.organized ≡ false
    → 1 ≤ i.rows_step
    → n * i.rows_step < i.ls.h + i.rows_step
    → i.ls.h ≤ n * i.rows_step
    → ((scan_to_cloud_f k i cloud staging).0.points ≡ map (produced k i) (pixels k i n 0))
      × ((scan_to_cloud_f k i cloud staging).0.is_dense ≡ true)
unfolding AllMatched IsMatched
create_point_cloud_processor-scan_to_cloud_f k p profile tgt source r i n cloud staging e e_src
      e_table =
    let all = subst (λ o. AllMatched o) e (created-AllMatched p profile) in
    let matched =
      subst (λ q. IsMatched q i.table) (sym e_src)
        (subst (λ t. IsMatched (source r).0 t) (sym e_table) (all r)) in
    scan_to_cloud_f-unorganized k i n cloud staging matched.0 matched.1
