-- ===== src/PointCloud/Accessors/Tests.antt =====
-- The accessors of concrete point types.
use ouster_ros.Prelude.{ℕ, ◌+◌, ◌≡◌, ◌↔◌, refl, true, false, none, some, List, [], ◌∷◌, arith}
use ouster_ros.PointTypes.{Member, x, y, r, g, b}
use ouster_ros.PointTypes.Native.{point_legacy}
use ouster_ros.PointTypes.Common
use ouster_ros.PointCloud.Factory.{
  rng15_rfl8_nir8, xyzi, struct, pcl_point_xyz, pcl_point_xyzi, pcl_point_xyzrgb,
  make_scan_to_cloud_fn, make_point_cloud_processor, create_point_cloud_processor,
}
use ouster_ros.PointCloud.Accessors.{size, get, bind, apply, enumerate}
use ouster_ros.PointCloud.Accessors.Elements.{create_point_cloud_processor-get}

sizes :
    (size pcl_point_xyz ≡ 3)
    × (size pcl_point_xyzi ≡ 4)
    × (size (struct point_legacy) ≡ 10)
    × (size (struct Common.point) ≡ 9)
    × (size (struct Common.point_xyzir) ≡ 5)
unfolding size point_legacy Common.point Common.point_xyzir
sizes = (refl, refl, refl, refl, refl)

-- The members of a range, with their indexes.
colors :
    enumerate {S = List (ℕ × Member)} pcl_point_xyzrgb 3 6 (λ i m seen. (i, m) ∷ seen) []
    ≡ some ((5, b) ∷ (4, g) ∷ (3, r) ∷ [])
unfolding enumerate get
colors = refl

first_two : apply pcl_point_xyz 0 2 (λ m seen. m ∷ seen) [] ≡ some (y ∷ x ∷ [])
unfolding apply get
first_two = refl

bound : (bind {A = ℕ} true 3 4 ≡ 3) × (bind {A = ℕ} false 3 4 ≡ 4)
unfolding bind
bound = (refl, refl)

create_point_cloud_processor-get_example :
    (m : Member) × (get pcl_point_xyzi 1 ≡ some m)
    × ((get pcl_point_xyzi 2 ≡ some m) ↔ (◌≡◌ {A = ℕ} 2 1))
    × (get pcl_point_xyzi (size pcl_point_xyzi + 3) ≡ none)
unfolding create_point_cloud_processor make_point_cloud_processor make_scan_to_cloud_fn size
create_point_cloud_processor-get_example =
    create_point_cloud_processor-get xyzi rng15_rfl8_nir8 1 2 3 refl (omega arith)

-- The index of each member, added to a sum.
abbrev add_index : ℕ → Member → ℕ → ℕ
add_index i m n = n + i

abbrev count : Member → ℕ → ℕ
count m n = n + 1
