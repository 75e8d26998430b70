-- ===== src/Images.antt =====
-- src/image_processor.h: the images of a scan. The auto exposure, the correction of the beams and the floating-point
-- arithmetic are the SDK's and the compiler's, arguments here; a pixel out of range of its field is 0.
pub mod Range
pub mod Create
mod Tests
use ouster_ros.Prelude.{
  ℕ, zero, suc, ◌+◌, ◌-◌, ◌*◌, ◌/◌, ◌%◌, ◌^◌, Bool, true, false, not, ◌&&◌, Option, none, some,
  List, [], ◌∷◌, ◌++◌, map, get_or, ltb, if◌then◌else◌,
}
use ouster_ros.Prelude.Int.{ℤ, pos, pos_part, neg_part}
use ouster_ros.Float.{Float}

-- `std::numeric_limits<uint16_t>::max()`
abbrev pub pixel_value_max : ℕ
pixel_value_max = 2 ^ 16 - 1

-- `(rg + 2) >> 2` in 32 bits, and 0 above the greatest pixel.
unfoldable pub range_pixel : ℕ → ℕ
range_pixel rg = let r = (rg + 2) % 2 ^ 32 / 4 in if ltb pixel_value_max r then 0 else r

-- `(v + W - px_offset[u]) % W`, where the offset is an `int` that is converted to `size_t`.
unfoldable pub image_column : ℕ → ℤ → ℕ → ℕ
image_column w offset v = (v + w + neg_part offset + 2 ^ 64 - pos_part offset) % 2 ^ 64 % w

-- The pixels of one row from column `v`, and those of the rows from `u`.
unfoldable pub row_pixels : {A : Type 0} → (ℕ → A) → ℕ → ℕ → List A
row_pixels pixel v zero = []
row_pixels pixel v (suc n) = pixel v ∷ row_pixels pixel (suc v) n

unfoldable pub image_pixels : {A : Type 0} → (ℕ → ℕ → A) → ℕ → ℕ → ℕ → List A
unfolding row_pixels
image_pixels pixel w u zero = []
image_pixels pixel w u (suc n) = row_pixels (pixel u) 0 w ++ image_pixels pixel w (suc u) n

-- An image without a mask is left; else each pixel of `bits` bits is multiplied.
unfoldable pub multiply_pixels : ℕ → List ℕ → List ℕ → List ℕ
multiply_pixels bits (x ∷ image) (m ∷ mask) = (x * m) % 2 ^ bits ∷ multiply_pixels bits image mask
multiply_pixels bits _ _ = []

unfoldable pub apply_mask : ℕ → Option (List ℕ) → List ℕ → List ℕ
unfolding multiply_pixels
apply_mask bits none image = image
apply_mask bits (some mask) image = multiply_pixels bits image mask

-- The fields of a return, and the offsets of the rows.
pub record Fields : Type 0 where
  pub range : List ℕ
  pub signal : List ℕ
  pub reflectivity : List ℕ
  pub near_ir : List ℕ
  pub red : List ℕ
  pub green : List ℕ
  pub blue : List ℕ

pub record ReturnImages : Type 0 where
  pub range_image : List ℕ
  pub signal_image : List ℕ
  pub reflec_image : List ℕ

-- `image_msgs`; a red, a green and a blue value for each pixel.
pub record Images : Type 0 where
  pub first_return : ReturnImages
  pub second_return : ReturnImages
  pub nearir_image : List ℕ
  pub rgb_image : List ℕ × List ℕ × List ℕ

module _ (k : Float) where
  -- The exposures with the operations on them; the result of a step is scaled by 65535 and converted.
  pub record Exposure : Type 1 where
    pub State : Type 0
    pub update_signal : Bool → List k.F → State → State × List k.F
    pub update_reflectivity : Bool → List k.F → State → State × List k.F
    pub correct_near_ir : List k.F → State → State × List k.F
    pub update_near_ir : Bool → List k.F → State → State × List k.F
    pub square_root : k.F → k.F
    pub cast_pixel : k.F → ℕ

  pub record Processor (x : Exposure) : Type 0 where
    pub height : ℕ
    pub width : ℕ
    pub has_rgb : Bool
    pub pixel_shift_by_row : List ℤ
    pub mask : Option (List ℕ)
    pub exposure : x.State
    pub images : Images

  module _ (x : Exposure) where
    abbrev pub source_index : Processor x → ℕ → ℕ → ℕ
    source_index p u v =
        u * p.width + image_column p.width (get_or p.pixel_shift_by_row u (pos 0)) v

    abbrev pub destaggered : {A : Type 0} → Processor x → (ℕ → A) → List A
    destaggered p pixel = image_pixels (λ u v. pixel (source_index p u v)) p.width 0 p.height

    abbrev pixel_of : List ℕ → ℕ → k.F
    pixel_of field idx = k.of_ℕ (get_or field idx 0)

    -- Each 16-bit image of the return, before its mask.
    unfoldable pub expose_return : Bool → Fields → Processor x → x.State × ReturnImages
    unfolding image_pixels image_column range_pixel
    expose_return first f p =
        let (e, signal) = x.update_signal first (destaggered p (pixel_of f.signal)) p.exposure in
        let (e', reflectivity) =
          x.update_reflectivity first (destaggered p (pixel_of f.reflectivity)) e in
        (
          e',
          record {
            range_image = destaggered p (λ idx. range_pixel (get_or f.range idx 0));
            signal_image =
                map (λ y. x.cast_pixel (k.mul (x.square_root y) (k.of_ℕ pixel_value_max))) signal;
            reflec_image = map (λ y. x.cast_pixel (k.mul y (k.of_ℕ pixel_value_max))) reflectivity;
          },
        )

    unfoldable pub mask_return : Option (List ℕ) → ReturnImages → ReturnImages
    unfolding apply_mask
    mask_return mask r = record {
      range_image = apply_mask 16 mask r.range_image;
      signal_image = apply_mask 16 mask r.signal_image;
      reflec_image = apply_mask 16 mask r.reflec_image;
    }

    unfoldable pub near_ir_image : Fields → x.State → Processor x → x.State × List ℕ
    unfolding image_pixels image_column
    near_ir_image f e p =
        let (e', corrected) = x.correct_near_ir (destaggered p (pixel_of f.near_ir)) e in
        let (e'', near_ir) = x.update_near_ir true corrected e' in
        (e'', map (λ y. x.cast_pixel (k.mul (x.square_root y) (k.of_ℕ pixel_value_max))) near_ir)

    unfoldable pub process_rgb : Fields → Processor x → List ℕ × List ℕ × List ℕ
    unfolding image_pixels image_column apply_mask
    process_rgb f p =
        let color : List ℕ → List ℕ =
          λ field. apply_mask 8 p.mask (destaggered p (λ idx. get_or field idx 0)) in
        (color f.red, color f.green, color f.blue)

    unfoldable pub process_return : Bool → Fields → Processor x → Processor x
    unfolding expose_return mask_return near_ir_image process_rgb
    process_return first f p =
        let (e, exposed) = expose_return first f p in
        let masked = mask_return p.mask exposed in
        let (e', near_ir) = near_ir_image f e p in
        if first
        then record p {
          exposure = e';
          images = record p.images {
            first_return = masked;
            nearir_image = apply_mask 16 p.mask near_ir;
            rgb_image = if p.has_rgb then process_rgb f p else p.images.rgb_image;
          };
        }
        else record p { exposure = e; images = record p.images { second_return = masked } }

    -- The images that are handed on for a scan of one or two returns.
    unfoldable pub process : Fields → Option Fields → Processor x → Processor x
    unfolding process_return
    process f none p = process_return true f p
    process f (some second) p = process_return false second (process_return true f p)
