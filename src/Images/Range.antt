-- ===== src/Images/Range.antt =====
-- The pixels of the range image.
use ouster_ros.Prelude.{
  ℕ, zero, suc, ◌+◌, ◌-◌, ◌*◌, ◌/◌, ◌%◌, ◌^◌, ◌≤◌, ◌<◌, ◌≡◌, ◌⊎◌, inl, inr, refl, ap, ◌∙◌, ap₂,
  some_inj, dec_lt, Bool, true, false, Option, none, some, List, [], ◌∷◌, ◌++◌, length, get_elem?,
  get_or, ltb, if◌then◌else◌, arith, Bool-cases,
}
use native.Mathlib.Nat.{mul-le-mul_right}
use ouster_ros.Float.{Float}
use ouster_ros.Images.{
  range_pixel, row_pixels, image_pixels, multiply_pixels, apply_mask, Fields, Exposure, Processor,
  source_index, expose_return, mask_return, process_return,
}

module _ {A : Type 0} where
  get_elem?-append_right :
      (xs ys : List A) (i : ℕ) → get_elem? (xs ++ ys) (length xs + i) ≡ get_elem? ys i
  get_elem?-append_right [] ys i = ap (get_elem? ys) (omega arith)
  get_elem?-append_right (x ∷ xs) ys i =
      let next : suc (length xs) + i ≡ suc (length xs + i) = omega arith in
      ap (get_elem? (x ∷ (xs ++ ys))) next ∙ get_elem?-append_right xs ys i

  get_elem?-append_left :
      (xs ys : List A) (i : ℕ) → i < length xs → get_elem? (xs ++ ys) i ≡ get_elem? xs i
  get_elem?-append_left [] ys i h = elim h [ ]
  get_elem?-append_left (x ∷ xs) ys zero h = refl
  get_elem?-append_left (x ∷ xs) ys (suc i) h = get_elem?-append_left xs ys i (omega arith)

  pub length-row_pixels : (pixel : ℕ → A) (v n : ℕ) → length (row_pixels pixel v n) ≡ n
  unfolding row_pixels
  length-row_pixels pixel v zero = refl
  length-row_pixels pixel v (suc n) = ap suc (length-row_pixels pixel (suc v) n)

  get_elem?-row_pixels :
      (pixel : ℕ → A) (v n j : ℕ)
      → j < n
      → get_elem? (row_pixels pixel v n) j ≡ some (pixel (v + j))
  unfolding row_pixels
  get_elem?-row_pixels pixel v zero j h = elim h [ ]
  get_elem?-row_pixels pixel v (suc n) zero h = ap (λ i. some (pixel i)) (omega arith)
  get_elem?-row_pixels pixel v (suc n) (suc j) h =
      get_elem?-row_pixels pixel (suc v) n j (omega arith) ∙ ap (λ i. some (pixel i)) (omega arith)

  -- The pixel of a row and a column of an image.
  pub get_elem?-image_pixels :
      (pixel : ℕ → ℕ → A) (w u n i j : ℕ)
      → i < n
      → j < w
      → get_elem? (image_pixels pixel w u n) (i * w + j) ≡ some (pixel (u + i) j)
  unfolding image_pixels
  get_elem?-image_pixels pixel w u zero i j h k = elim h [ ]
  get_elem?-image_pixels pixel w u (suc n) zero j h k =
      let row = row_pixels (pixel u) 0 w in
      let rest = image_pixels pixel w (suc u) n in
      let first : 0 * w + j ≡ j = omega arith in
      ap (get_elem? (row ++ rest)) first
      ∙ get_elem?-append_left row rest j (omega (arith, length-row_pixels (pixel u) 0 w))
      ∙ get_elem?-row_pixels (pixel u) 0 w j k
      ∙ ap₂ (λ a b. some (pixel a b)) (omega arith) (omega arith)
  get_elem?-image_pixels pixel w u (suc n) (suc i) j h k =
      let row = row_pixels (pixel u) 0 w in
      let rest = image_pixels pixel w (suc u) n in
      let at : suc i * w + j ≡ length row + (i * w + j) =
        omega (arith, length-row_pixels (pixel u) 0 w) in
      ap (get_elem? (row ++ rest)) at
      ∙ get_elem?-append_right row rest (i * w + j)
      ∙ get_elem?-image_pixels pixel w (suc u) n i j (omega arith) k
      ∙ ap (λ a. some (pixel a j)) (omega arith)

-- A mask has a value for each of `n` pixels.
unfoldable pub Covers : ℕ → Option (List ℕ) → Type 0
Covers n none = Unit
Covers n (some mask) = n ≤ length mask

abbrev pub mask_value : Option (List ℕ) → ℕ → ℕ
mask_value none i = 1
mask_value (some mask) i = get_or mask i 0

get_elem?-multiply_pixels :
    (bits : ℕ) (image mask : List ℕ) (i x : ℕ)
    → get_elem? image i ≡ some x
    → i < length mask
    → get_elem? (multiply_pixels bits image mask) i ≡ some ((x * get_or mask i 0) % 2 ^ bits)
unfolding multiply_pixels
get_elem?-multiply_pixels bits [] mask i x e h = cc
get_elem?-multiply_pixels bits (y ∷ image) [] i x e h = elim h [ ]
get_elem?-multiply_pixels bits (y ∷ image) (m ∷ mask) zero x e h =
    ap (λ a. some ((a * m) % 2 ^ bits)) (some_inj e)
get_elem?-multiply_pixels bits (y ∷ image) (m ∷ mask) (suc i) x e h =
    get_elem?-multiply_pixels bits image mask i x e (omega arith)

get_elem?-apply_mask :
    (mask : Option (List ℕ)) (image : List ℕ) (i n x : ℕ)
    → get_elem? image i ≡ some x
    → Covers n mask
    → i < n
    → x < 2 ^ 16
    → get_elem? (apply_mask 16 mask image) i ≡ some ((x * mask_value mask i) % 2 ^ 16)
unfolding apply_mask Covers
get_elem?-apply_mask none image i n x e c h small = e ∙ ap some (omega arith)
get_elem?-apply_mask (some mask) image i n x e c h small =
    get_elem?-multiply_pixels 16 image mask i x e (omega arith)

range_pixel_lem :
    (r : ℕ)
    → r < 2 ^ 32
    → (range_pixel r < 2 ^ 16)
      × (((4 * range_pixel r ≤ r + 2) × (r ≤ 4 * range_pixel r + 1))
          ⊎ ((range_pixel r ≡ 0) × (2 ^ 18 ≤ r + 2)))
unfolding range_pixel
range_pixel_lem r h = elim (Bool-cases (ltb (2 ^ 16 - 1) ((r + 2) % 2 ^ 32 / 4))) [
  | inl e ↦ (ground (arith, e), inr (ground (arith, e), ground (arith, e)))
  | inr e ↦ elim (dec_lt (r + 2) (2 ^ 32)) [
    | yes fits ↦ (ground (arith, e), inl (ground (arith, e, fits), ground (arith, e, fits)))
    | no wraps ↦ (ground (arith, e), inr (ground (arith, e, wraps), omega arith))
  ]
]

in_image : {h w : ℕ} (u v : ℕ) → u < h → v < w → u * w + v < h * w
in_image {h} {w} u v hu hv = omega (arith, mul-le-mul_right {m = suc u} {n = h} w hu)

module _ (k : Float) (x : Exposure k) where
  -- The range image of a return.
  abbrev pub range_of : Bool → Processor k x → List ℕ
  range_of first p =
      if first then p.images.first_return.range_image else p.images.second_return.range_image

  processed-range :
      (first : Bool) (f : Fields) (p : Processor k x)
      → range_of first (process_return k x first f p)
        ≡ apply_mask 16 p.mask (
            image_pixels
              (λ u v. range_pixel (get_or f.range (source_index k x p u v) 0))
              p.width
              0
              p.height)
  unfolding process_return expose_return mask_return
  processed-range true f p = refl
  processed-range false f p = refl

  -- Each pixel of the range image of a return, in row `u` and column `v` of the destaggered image, is the range that
  -- destaggering reads, in steps of 4 mm and rounded to the nearest; ranges that do not fit 16 bits are 0. The mask,
  -- which is 0 or 1 at a pixel where it comes from a file, is multiplied; it has a value for each pixel.
  pub process_return-range :
      (first : Bool) (f : Fields) (p : Processor k x) (u v r : ℕ)
      → u < p.height
      → v < p.width
      → Covers (p.height * p.width) p.mask
      → get_or f.range (source_index k x p u v) 0 ≡ r
      → r < 2 ^ 32
      → (q : ℕ) × (get_elem? (range_of first (process_return k x first f p)) (u * p.width + v)
          ≡ some ((q * mask_value p.mask (u * p.width + v)) % 2 ^ 16))
        × (q < 2 ^ 16)
        × (((4 * q ≤ r + 2) × (r ≤ 4 * q + 1)) ⊎ ((q ≡ 0) × (2 ^ 18 ≤ r + 2)))
  process_return-range first f p u v r hu hv covers read small =
      let pixel : ℕ → ℕ → ℕ = λ i j. range_pixel (get_or f.range (source_index k x p i j) 0) in
      let (fits, value) = range_pixel_lem r small in
      let here : pixel u v ≡ range_pixel r = ap range_pixel read in
      let plain : get_elem? (image_pixels pixel p.width 0 p.height) (u * p.width + v)
          ≡ some (range_pixel r) =
        get_elem?-image_pixels pixel p.width 0 p.height u v hu hv
        ∙ ap (λ i. some (pixel i v)) (omega arith)
        ∙ ap some here in
      (
        range_pixel r,
        ap (λ image. get_elem? image (u * p.width + v)) (processed-range first f p)
            ∙ get_elem?-apply_mask p.mask (image_pixels pixel p.width 0 p.height) (u * p.width + v)
                (p.height * p.width) (range_pixel r) plain covers (in_image u v hu hv) fits,
        fits,
        value,
      )
