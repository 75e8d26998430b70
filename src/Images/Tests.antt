-- ===== src/Images/Tests.antt =====
-- The images of a scan of one row, and the theorem there.
use ouster_ros.Nodes.Publishers.{rgb}
use ouster_ros.Images.Create.{rgb8, init_field}
use ouster_ros.Prelude.{
  ℕ, ◌+◌, ◌*◌, ◌%◌, ◌^◌, ◌≤◌, ◌<◌, ◌≡◌, ◌⊎◌, refl, true, none, some, [], ◌∷◌, get_elem?, arith,
}
use ouster_ros.Prelude.Int.{pos}
use ouster_ros.Float.Whole.{whole}
use ouster_ros.Images.{
  Fields, ReturnImages, Exposure, Processor, process_return, process, image_column,
}
use ouster_ros.Images.Range.{Covers, range_of, process_return-range}

-- Exposures that change nothing.
abbrev plain : Exposure whole
plain = record {
  State = ℕ;
  update_signal = λ first image s. (s, image);
  update_reflectivity = λ first image s. (s, image);
  correct_near_ir = λ image s. (s, image);
  update_near_ir = λ first image s. (s, image);
  square_root = λ y. y;
  cast_pixel = λ y. y % 2 ^ 16;
}

abbrev nothing : ReturnImages
nothing = record { range_image = []; signal_image = []; reflec_image = [] }

abbrev processor : Processor whole plain
processor = record {
  height = 1;
  width = 3;
  has_rgb = true;
  pixel_shift_by_row = pos 1 ∷ [];
  mask = some (1 ∷ 1 ∷ 0 ∷ []);
  exposure = 0;
  images = record {
    first_return = nothing;
    second_return = nothing;
    nearir_image = [];
    rgb_image = ([], [], []);
  };
}

abbrev fields : Fields
fields = record {
  range = 1000 ∷ 300000 ∷ 2001 ∷ [];
  signal = 1 ∷ 2 ∷ 3 ∷ [];
  reflectivity = 1 ∷ 2 ∷ 3 ∷ [];
  near_ir = 1 ∷ 2 ∷ 3 ∷ [];
  red = 10 ∷ 20 ∷ 30 ∷ [];
  green = 1 ∷ 2 ∷ 3 ∷ [];
  blue = 0 ∷ 0 ∷ 0 ∷ [];
}

-- The row is shifted by one, the last pixel is masked, and the range of 300 m does not fit.
images :
    (process whole plain fields none processor).images.first_return.range_image ≡ 500 ∷ 250 ∷ 0 ∷ []
unfolding process
images = refl

colors : (process whole plain fields none processor).images.rgb_image.0 ≡ 30 ∷ 10 ∷ 0 ∷ []
unfolding process
colors = refl

process_return-range_example :
    (q : ℕ) × (get_elem?
        (range_of whole plain true (process_return whole plain true fields processor))
        1
      ≡ some ((q * 1) % 2 ^ 16))
    × (q < 2 ^ 16)
    × (((4 * q ≤ 1002) × (1000 ≤ 4 * q + 1)) ⊎ ((q ≡ 0) × (2 ^ 18 ≤ 1002)))
unfolding Covers image_column
process_return-range_example =
    process_return-range whole plain true fields processor 0 1 1000 (omega arith) (omega arith)
      (omega arith) refl (omega arith)

-- The color image of a sensor of two rows.
color_message : init_field 2 4 "lidar" rgb ≡ record {
  height = 2;
  width = 4;
  step = 12;
  encoding = rgb8;
  data_size = 24;
  frame_id = "lidar";
}
unfolding init_field
color_message = refl
