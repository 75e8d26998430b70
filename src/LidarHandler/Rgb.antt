-- ===== src/LidarHandler/Rgb.antt =====
-- src/lidar_packet_handler.h: the color stage of `process_scans`.
pub mod Bits
use ouster_ros.Prelude.{ℕ, zero, suc, ◌+◌, ◌*◌, ◌%◌, ◌^◌, List, map, ◌==◌, if◌then◌else◌}
use ouster_ros.Prelude.Words.{u32_mod}
use ouster_ros.Float.{Float}
use ouster_ros.LidarHandler.Sdk.{Sdk, Channel, red, green, blue}

-- The 32-bit pattern of `f16_bits_to_f32`: a shift by 13 of a `uint32_t`.
unfoldable pub expanded : ℕ → ℕ
expanded bits = (bits + 0x1C000) * 2 ^ 13 % u32_mod

unfoldable pub f16_bits_to_f32 : (d : Float) → ℕ → d.F
f16_bits_to_f32 d bits = if bits == 0 then d.of_ℕ 0 else d.of_bits (expanded bits)

-- `half` is 0.5f.
unfoldable pub f32_to_u8 : (d : Float) → d.F → ℕ
f32_to_u8 d v =
    let half = d.div (d.of_ℕ 1) (d.of_ℕ 2) in
    let w = if d.lt v (d.of_ℕ 0) then d.of_ℕ 0 else v in
    let u = if d.lt (d.of_ℕ 1) w then d.of_ℕ 1 else w in
    d.to_ℕ (d.add (d.mul u (d.of_ℕ 255)) half) % 256

-- The three color fields have the same size, so each loop is a `map`.
unfoldable pub process_rgb : (k : Sdk) → k.AutoExposure → k.Scan → k.AutoExposure × k.Scan
process_rgb k ae ls =
    let d = k.float in
    let r_out = map (f16_bits_to_f32 d) (k.field red ls) in
    let g_out = map (f16_bits_to_f32 d) (k.field green ls) in
    let b_out = map (f16_bits_to_f32 d) (k.field blue ls) in
    let (ae', r, g, b) = k.expose ae r_out g_out b_out in
    (
      ae',
      k.set_field_u8 blue (map (f32_to_u8 d) b) (
          k.set_field_u8 green (map (f32_to_u8 d) g) (k.set_field_u8 red (map (f32_to_u8 d) r) ls)),
    )
