-- ===== src/PointCloud/Project.antt =====
-- src/impl/cartesian.h and src/point_cloud_processor.h: the projection of ranges to coordinates, and the loop over
-- returns around it. `none` is a failed assertion of `cartesianT`, in a build that has assertions, or a thrown exception.
-- The composition of the cloud (`scan_to_cloud_f`) is an argument here, and so is the product that Eigen makes of arrays
-- of two sizes: an assertion fails where assertions are compiled in, and without them the result is Eigen's.
pub mod Masked
mod Tests
use Prim.Native.String.{String}
use text.Mathlib.Text.{◌==◌}
use ouster_ros.Prelude.{
  ℕ, zero, suc, ◌+◌, ◌*◌, ◌/◌, ◌%◌, ◌^◌, Bool, true, false, not, ◌&&◌, ◌||◌, Option, none, some,
  List, [], ◌∷◌, map, length, leb, if◌then◌else◌, ◌>>=◌,
}
use ouster_ros.Float.{Float}

abbrev pub eqb : ℕ → ℕ → Bool
eqb a b = leb a b && leb b a

-- An image, row by row.
pub record Image : Type 0 where
  pub rows : ℕ
  pub cols : ℕ
  pub pixels : List ℕ

module _ (k : Float) where
  abbrev pub Xyz : Type 0
  Xyz = k.F × k.F × k.F

  -- The body of the loop.
  unfoldable pub project : ℕ → ℕ → k.F → ℕ → Xyz → Xyz → Xyz
  project min_r max_r invalid r (dx, dy, dz) (ox, oy, oz) =
      if leb r min_r || leb max_r r then (invalid, invalid, invalid) else (
        k.add (k.mul (k.of_ℕ r) dx) ox,
        k.add (k.mul (k.of_ℕ r) dy) oy,
        k.add (k.mul (k.of_ℕ r) dz) oz,
      )

  unfoldable pub project_all : ℕ → ℕ → k.F → List ℕ → List Xyz → List Xyz → List Xyz
  unfolding project
  project_all min_r max_r invalid (r ∷ range) (d ∷ direction) (o ∷ offset) =
      project min_r max_r invalid r d o ∷ project_all min_r max_r invalid range direction offset
  project_all min_r max_r invalid _ _ _ = []

  -- With its assertions on the sizes of the arrays; `n` is that of `points`.
  unfoldable pub cartesian : ℕ → List ℕ → List Xyz → List Xyz → ℕ → ℕ → k.F → Option (List Xyz)
  unfolding project_all
  cartesian n range direction offset min_r max_r invalid =
      if eqb n (length direction) && (eqb n (length offset) && eqb n (length range))
      then some (project_all min_r max_r invalid range direction offset)
      else none

-- `range * mask` in 32 bits.
unfoldable pub multiply : List ℕ → List ℕ → List ℕ
multiply (a ∷ xs) (b ∷ ys) = (a * b) % 2 ^ 32 ∷ multiply xs ys
multiply _ _ = []

unfoldable pub multiply_images : (Image → Image → Option Image) → Image → Image → Option Image
unfolding multiply
multiply_images of_two_sizes a b =
    if eqb a.rows b.rows && eqb a.cols b.cols
    then some (record a { pixels = multiply a.pixels b.pixels })
    else of_two_sizes a b

-- `load_mask`: no mask for the empty path, else the file's image, which OpenCV reads and resizes to the height and the
-- width, with 1 for every pixel that is not 0; the image is an argument.
unfoldable pub load_mask : String → Option (List ℕ) → ℕ → ℕ → Option (Option Image)
load_mask mask_path resized height width = if mask_path == "" then some none else elim resized [
  | none ↦ none
  | some pixels ↦ some (
      some (record {
        rows = height;
        cols = width;
        pixels = map (λ c. if leb c 0 then 0 else 1) pixels;
      }))
]

-- What the processor keeps of the sensor and of its parameters.
pub record Setup (k : Float) : Type 0 where
  pub pixels_per_column : ℕ
  pub columns_per_frame : ℕ
  pub num_returns : ℕ
  pub rows_step : ℕ
  pub direction : List (Xyz k)
  pub offset : List (Xyz k)
  pub min_range : ℕ
  pub max_range : ℕ
  pub quiet_nan : k.F

-- The height of the cloud and of the mask; division by zero is excluded by the check of `v_reduction`.
abbrev pub reduced_height : {k : Float} → Setup k → ℕ
reduced_height s = s.pixels_per_column / s.rows_step

module _ (k : Float) {C : Type 0} (of_two_sizes : Image → Image → Option Image)
    (scan_to_cloud : ℕ → List (Xyz k) → C → C) where
  abbrev apply_mask : Option Image → Image → Option Image
  apply_mask none range = some range
  apply_mask (some mask) range = multiply_images of_two_sizes range mask

  -- One turn of the loop, for return `i`: the range field, and the cloud, which is reused.
  unfoldable pub process_return : Setup k → Option Image → (ℕ → Option Image) → ℕ → C → Option C
  unfolding multiply_images cartesian
  process_return s mask range_field i cloud = range_field i >>= λ range.
      apply_mask mask range >>= λ masked.
      cartesian k (length s.direction) masked.pixels s.direction s.offset s.min_range s.max_range
        s.quiet_nan
      >>= λ points. some (scan_to_cloud i points cloud)

  -- The messages of the `n` returns from `i`, a cloud for each.
  unfoldable pub process_from :
      Setup k → Option Image → (ℕ → Option Image) → ℕ → ℕ → C → Option (List C)
  unfolding process_return
  process_from s mask range_field i zero cloud = some []
  process_from s mask range_field i (suc n) cloud =
      process_return s mask range_field i cloud >>= λ cloud'.
      process_from s mask range_field (suc i) n cloud' >>= λ msgs. some (cloud' ∷ msgs)

  -- The constructor's mask, then `process` on a scan.
  unfoldable pub create_and_process :
      Setup k → String → Option (List ℕ) → (ℕ → Option Image) → C → Option (List C)
  create_and_process s mask_path resized range_field cloud =
      load_mask mask_path resized (reduced_height s) s.columns_per_frame >>= λ mask.
      process_from s mask range_field 0 s.num_returns cloud
