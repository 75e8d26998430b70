-- ===== src/PointCloud/Project/Tests.antt =====
-- The projection and a mask on a scan of two rows, and the theorems there.

use ouster_ros.Prelude.{
  ℕ, ◌≡◌, refl, Option, none, some, List, [], ◌∷◌, get_elem?, some_inj, ap, sym, arith,
}
use ouster_ros.Float.Whole.{whole}
use ouster_ros.PointCloud.Project.{
  Image, Xyz, Setup, cartesian, create_and_process, load_mask, process_from,
}
use ouster_ros.PointCloud.Project.Masked.{coordinates, cartesian_lem, create_and_process-masked}

abbrev setup : Setup whole
setup = record {
  pixels_per_column = 2;
  columns_per_frame = 1;
  num_returns = 1;
  rows_step = 2;
  direction = (1, 2, 3) ∷ (4, 5, 6) ∷ [];
  offset = (0, 0, 1) ∷ (0, 0, 1) ∷ [];
  min_range = 1;
  max_range = 10;
  quiet_nan = 99;
}

abbrev ranges : ℕ → Option Image
ranges i = some (record { rows = 2; cols = 1; pixels = 1 ∷ 3 ∷ [] })

-- A product of arrays of two sizes in a build with assertions.
abbrev asserted : Image → Image → Option Image
asserted a b = none

-- The first range is at the limit.
unmasked :
    create_and_process whole asserted (λ i points cloud. points) setup "" none ranges []
    ≡ some (((99, 99, 99) ∷ (12, 15, 19) ∷ []) ∷ [])
unfolding create_and_process load_mask process_from
unmasked = refl

cartesian_lem_example :
    (points : List (Xyz whole)) × (cartesian whole 2
        (1 ∷ 3 ∷ [])
        setup.direction
        setup.offset
        1
        10
        99
      ≡ some points)
    × (get_elem? points 1 ≡ some (12, 15, 19))
unfolding coordinates
cartesian_lem_example =
    cartesian_lem whole (1 ∷ 3 ∷ []) setup.direction setup.offset 1 10 99 1 3 (4, 5, 6) (0, 0, 1)
      refl refl refl refl refl

rows_of_ranges : (i : ℕ) (image : Image) → ranges i ≡ some image → image.rows ≡ 2
rows_of_ranges i image e = ap (λ x. x.rows) (sym (some_inj e))

create_and_process-masked_example :
    create_and_process whole asserted
      (λ i points cloud. points)
      setup
      "mask.png"
      (some (255 ∷ []))
      ranges
      []
    ≡ none
create_and_process-masked_example =
    create_and_process-masked whole asserted (λ a b. refl) (λ i points cloud. points) setup
      "mask.png" (some (255 ∷ [])) ranges [] refl (omega arith) (omega arith) (omega arith)
      rows_of_ranges
