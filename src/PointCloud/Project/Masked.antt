-- ===== src/PointCloud/Project/Masked.antt =====
-- The coordinates of a pixel, and what a mask does with a row step.
use Prim.Native.String.{String}
use text.Mathlib.Text.{◌==◌}
use ouster_ros.Prelude.{
  ℕ, zero, suc, ◌≤◌, ◌<◌, ◌≡◌, refl, ap, ap₂, ◌∙◌, false, ◌&&◌, Option, none, some, List, [], ◌∷◌,
  map, length, leb, ltb, get_elem?, some_inj, Option-cases, if◌then◌else◌, arith, inl, inr,
}
use native.Mathlib.Nat.{div-lt_self}
use ouster_ros.Float.{Float}
use ouster_ros.PointCloud.Project.{
  eqb, Image, Xyz, project, project_all, cartesian, multiply_images, load_mask, Setup,
  reduced_height, process_return, process_from, create_and_process,
}

module _ (k : Float) where
  -- The coordinates of a pixel of range `r`, in terms of its direction and offset.
  unfoldable pub coordinates : ℕ → ℕ → k.F → ℕ → Xyz k → Xyz k → Xyz k
  coordinates min_r max_r invalid r (dx, dy, dz) (ox, oy, oz) =
      if ltb min_r r && ltb r max_r
      then (
        k.add (k.mul (k.of_ℕ r) dx) ox,
        k.add (k.mul (k.of_ℕ r) dy) oy,
        k.add (k.mul (k.of_ℕ r) dz) oz,
      )
      else (invalid, invalid, invalid)

  project-coordinates :
      (min_r max_r : ℕ) (invalid : k.F) (r : ℕ) (d o : Xyz k)
      → project k min_r max_r invalid r d o ≡ coordinates min_r max_r invalid r d o
  unfolding project coordinates
  project-coordinates min_r max_r invalid r (dx, dy, dz) (ox, oy, oz) = ground arith

  project_all_lem :
      (min_r max_r : ℕ) (invalid : k.F) (range : List ℕ) (direction offset : List (Xyz k)) (i r : ℕ)
      (d o : Xyz k)
      → get_elem? range i ≡ some r
      → get_elem? direction i ≡ some d
      → get_elem? offset i ≡ some o
      → get_elem? (project_all k min_r max_r invalid range direction offset) i
        ≡ some (coordinates min_r max_r invalid r d o)
  unfolding project_all
  project_all_lem min_r max_r invalid (r' ∷ range) (d' ∷ direction) (o' ∷ offset) zero r d o hr hd
        ho =
      ap some (
        ap (λ x. project k min_r max_r invalid x d' o') (some_inj hr)
        ∙ ap₂ (project k min_r max_r invalid r) (some_inj hd) (some_inj ho)
        ∙ project-coordinates min_r max_r invalid r d o)
  project_all_lem min_r max_r invalid (r' ∷ range) (d' ∷ direction) (o' ∷ offset) (suc i) r d o hr
        hd ho =
      project_all_lem min_r max_r invalid range direction offset i r d o hr hd ho
  project_all_lem min_r max_r invalid [] direction offset i r d o hr hd ho = cc
  project_all_lem min_r max_r invalid (r' ∷ range) [] offset i r d o hr hd ho = cc
  project_all_lem min_r max_r invalid (r' ∷ range) (d' ∷ direction) [] i r d o hr hd ho = cc

  -- Where the arrays have the sizes that are asserted, the projection does not fail, and a pixel whose range is above
  -- the least and below the greatest one is its direction times the range plus its offset; any other, also one at a
  -- limit, gets the invalid value in all three coordinates.
  pub cartesian_lem :
      (range : List ℕ) (direction offset : List (Xyz k)) (min_r max_r : ℕ) (invalid : k.F) (i r : ℕ)
      (d o : Xyz k)
      → length range ≡ length direction
      → length offset ≡ length direction
      → get_elem? range i ≡ some r
      → get_elem? direction i ≡ some d
      → get_elem? offset i ≡ some o
      → (points : List (Xyz k)) × (cartesian k
            (length direction)
            range
            direction
            offset
            min_r
            max_r
            invalid
          ≡ some points)
        × (get_elem? points i ≡ some (coordinates min_r max_r invalid r d o))
  unfolding cartesian
  cartesian_lem range direction offset min_r max_r invalid i r d o hr ho gr gd go = (
    project_all k min_r max_r invalid range direction offset,
    ground (arith, hr, ho),
    project_all_lem min_r max_r invalid range direction offset i r d o gr gd go,
  )

module _ (k : Float) {C : Type 0} (of_two_sizes : Image → Image → Option Image)
    (asserts : (a b : Image) → of_two_sizes a b ≡ none)
    (scan_to_cloud : ℕ → List (Xyz k) → C → C) where
  mismatched :
      (s : Setup k) (mask : Image) (range_field : ℕ → Option Image) (i : ℕ) (cloud : C)
      → ((image : Image) → range_field i ≡ some image → image.rows ≡ s.pixels_per_column)
      → mask.rows < s.pixels_per_column
      → process_return k of_two_sizes scan_to_cloud s (some mask) range_field i cloud ≡ none
  unfolding process_return multiply_images
  mismatched s mask range_field i cloud rows less = elim (Option-cases (range_field i)) [
    | inl e ↦ simp (e) refl
    | inr (image, e) ↦
        let differ : eqb image.rows mask.rows ≡ false = ground (arith, rows image e, less) in
        simp (e, differ, asserts image mask) refl
  ]

  failed :
      (s : Setup k) (mask : Option Image) (range_field : ℕ → Option Image) (n : ℕ) (cloud : C)
      → 0 < n
      → process_return k of_two_sizes scan_to_cloud s mask range_field 0 cloud ≡ none
      → process_from k of_two_sizes scan_to_cloud s mask range_field 0 n cloud ≡ none
  unfolding process_from
  failed s mask range_field zero cloud h e = elim h [ ]
  failed s mask range_field (suc n) cloud h e = ground (arith, e)

  mask_fails :
      (s : Setup k) (pixels : List ℕ) (range_field : ℕ → Option Image) (cloud : C)
      → reduced_height s < s.pixels_per_column
      → 0 < s.num_returns
      → ((i : ℕ) (image : Image) → range_field i ≡ some image → image.rows ≡ s.pixels_per_column)
      → process_from k of_two_sizes scan_to_cloud s
          (some (record { rows = reduced_height s; cols = s.columns_per_frame; pixels = pixels }))
          range_field
          0
          s.num_returns
          cloud
        ≡ none
  mask_fails s pixels range_field cloud less returns rows =
      let mask : Image = record {
        rows = reduced_height s;
        cols = s.columns_per_frame;
        pixels = pixels;
      } in
      failed s (some mask) range_field s.num_returns cloud returns
        (mismatched s mask range_field 0 cloud (rows 0) less)

  -- In a build with Eigen's assertions, which fail on a product of arrays of two sizes, with a mask and a row step of at
  -- least 2 no scan of a return is processed: the mask is loaded with the height of the reduced cloud and multiplied
  -- with ranges of the full height, so that whatever the file holds the loading throws or the product fails.
  pub create_and_process-masked :
      (s : Setup k) (mask_path : String) (resized : Option (List ℕ))
      (range_field : ℕ → Option Image) (cloud : C)
      → (mask_path == "") ≡ false
      → 2 ≤ s.rows_step
      → 0 < s.pixels_per_column
      → 0 < s.num_returns
      → ((i : ℕ) (image : Image) → range_field i ≡ some image → image.rows ≡ s.pixels_per_column)
      → create_and_process k of_two_sizes scan_to_cloud s mask_path resized range_field cloud ≡ none
  unfolding create_and_process load_mask
  create_and_process-masked s mask_path resized range_field cloud path step pixels returns rows =
      let less : reduced_height s < s.pixels_per_column = div-lt_self pixels step in
      elim (Option-cases resized) [
        | inl e ↦ simp (path, e) refl
        | inr (image, e) ↦
            simp (path, e)
              (mask_fails s (map (λ c. if leb c 0 then 0 else 1) image) range_field cloud less
                returns rows)
      ]
