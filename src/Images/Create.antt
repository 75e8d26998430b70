-- ===== src/Images/Create.antt =====
-- src/image_processor.h: the messages of the images that the constructor makes, with the sizes of their bytes.
use Prim.Native.String.{String}
use ouster_ros.Prelude.{ℕ, zero, suc, ◌*◌, ◌%◌, ◌^◌, ◌<◌, length-append, ◌≡◌, ◌∙◌, length, arith}
use ouster_ros.Images.{row_pixels, image_pixels}
use ouster_ros.Images.Range.{length-row_pixels}
use ouster_ros.Nodes.Publishers.{ImageField, rgb}

pub data Encoding : Type 0 where
  mono16 rgb8 : Encoding

-- The members of the message but its header's stamp; `data_size` is the number of the bytes.
pub record ImageMsg : Type 0 where
  pub height : ℕ
  pub width : ℕ
  pub step : ℕ
  pub encoding : Encoding
  pub data_size : ℕ
  pub frame_id : String

-- The step is a `uint32_t`, and the size of the bytes a `size_t`.
unfoldable pub init_image_msg : ℕ → ℕ → String → ImageMsg
init_image_msg h w frame = record {
  height = h;
  width = w;
  step = w * 2 % 2 ^ 32;
  encoding = mono16;
  data_size = w * h * 2 % 2 ^ 64;
  frame_id = frame;
}

unfoldable pub init_image_msg_rgb : ℕ → ℕ → String → ImageMsg
init_image_msg_rgb h w frame = record {
  height = h;
  width = w;
  step = w * 3 % 2 ^ 32;
  encoding = rgb8;
  data_size = h * (w * 3 % 2 ^ 32) % 2 ^ 64;
  frame_id = frame;
}

unfoldable pub init_field : ℕ → ℕ → String → ImageField → ImageMsg
unfolding init_image_msg init_image_msg_rgb
init_field h w frame rgb = init_image_msg_rgb h w frame
init_field h w frame _ = init_image_msg h w frame

-- The bytes of a pixel.
abbrev pub pixel_bytes : Encoding → ℕ
pixel_bytes mono16 = 2
pixel_bytes rgb8 = 3

pub length-image_pixels :
    {A : Type 0} (pixel : ℕ → ℕ → A) (w u n : ℕ) → length (image_pixels pixel w u n) ≡ n * w
unfolding image_pixels
length-image_pixels pixel w u zero = omega arith
length-image_pixels pixel w u (suc n) =
    length-append (row_pixels (pixel u) 0 w) (image_pixels pixel w (suc u) n)
    ∙ omega (arith, length-row_pixels (pixel u) 0 w, length-image_pixels pixel w (suc u) n)

-- Each image of `h` rows of `w` pixels has as many bytes as its rows, and as the pixels that are written to it.
pub init_field-sizes :
    {A : Type 0} (h w : ℕ) (frame : String) (field : ImageField) (pixel : ℕ → ℕ → A)
    → w < 2 ^ 30
    → w * h < 2 ^ 60
    → let msg = init_field h w frame field in
      (msg.data_size ≡ msg.height * msg.step)
      × (msg.data_size ≡ length (image_pixels pixel w 0 h) * pixel_bytes msg.encoding)
unfolding init_field init_image_msg init_image_msg_rgb
init_field-sizes h w frame rgb pixel small all =
    let step : w * 3 % 2 ^ 32 ≡ w * 3 = omega arith in
    let pixels : length (image_pixels pixel w 0 h) ≡ h * w = length-image_pixels pixel w 0 h in
    rw step (rw pixels (omega arith, omega arith))
init_field-sizes h w frame _ pixel small all =
    let step : w * 2 % 2 ^ 32 ≡ w * 2 = omega arith in
    let pixels : length (image_pixels pixel w 0 h) ≡ h * w = length-image_pixels pixel w 0 h in
    rw step (rw pixels (omega arith, omega arith))
