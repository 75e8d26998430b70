-- ===== src/Messages/Laser/Filled.antt =====
-- Every element of the message is written, from the pixel that it stands for.
use Prim.Native.String.{String}
use ouster_ros.Prelude.{
  ℕ, zero, suc, ◌+◌, ◌-◌, ◌*◌, ◌/◌, ◌%◌, ◌^◌, ◌<◌, ◌≤◌, ◌≡◌, ◌⊎◌, inl, inr, refl, sym, ap, ◌∙◌,
  Bool, true, false, some, List, get_or, get_elem?, set, length, length-set, length-replicate,
  get_elem?-set_self, get_elem?-set_ne, ltb, ◌==◌, if◌then◌else◌, arith, dec_lt, ℕ_discrete,
}
use ouster_ros.Prelude.Int.{ℤ, pos}
use ouster_ros.Float.{Float}
use native.Mathlib.Nat.{mod-eq-sub-mod}
use ouster_ros.RingBuffer.Invariant.{step_cases}
use ouster_ros.PointTypes.{ChanField, chan_range, chan_range2, chan_signal, chan_signal2}
use ouster_ros.PointCloud.Point.{LidarScan}
use ouster_ros.Messages.Laser.{
  Geometry, get_or_fill_zero, lidar_scan_to_laser_scan_msg, laser_message, LaserScan, fill_columns,
  laser_column,
}

module _ (k : Float) (w : ℕ) (range intensity : ℕ → k.F) where
  set_column :
      (n j : ℕ) (xs : List k.F) (x : k.F)
      → suc n ≤ w
      → length xs ≡ w
      → get_elem? (set xs (w - 1 - (w - suc n)) x) j ≡ (if j == n then some x else get_elem? xs j)
  set_column n j xs x le full =
      let same : w - 1 - (w - suc n) ≡ n = omega arith in
      elim (ℕ_discrete n j) [
        | yes e ↦
            let here = get_elem?-set_self xs n x (omega arith) in
            let there : get_elem? (set xs n x) j ≡ some x =
              ap (get_elem? (set xs n x)) (sym e) ∙ here in
            ap (λ i. get_elem? (set xs i x) j) same ∙ ground (arith, e, there)
        | no d ↦
            let other = get_elem?-set_ne xs {i = n} {j = j} x d in
            ap (λ i. get_elem? (set xs i x) j) same ∙ ground (arith, d, other)
      ]

  column_cases :
      (n j : ℕ) (xs : List k.F) (value : ℕ → k.F)
      → suc n ≤ w
      → length xs ≡ w
      → (if ltb j n
          then some (value (w - 1 - j))
          else get_elem? (set xs (w - 1 - (w - suc n)) (value (w - suc n))) j)
        ≡ (if ltb j (suc n) then some (value (w - 1 - j)) else get_elem? xs j)
  column_cases n j xs value le full =
      let step = set_column n j xs (value (w - suc n)) le full in
      elim (ℕ_discrete j n) [
        | yes e ↦
            let column : w - suc n ≡ w - 1 - j = omega (arith, e) in
            let at : value (w - suc n) ≡ value (w - 1 - j) = ap value column in
            ground (arith, step, e, at)
        | no d ↦ ground (arith, step, d)
      ]

  fill_columns_lem :
      (n j : ℕ) (msg : LaserScan k)
      → n ≤ w
      → length msg.ranges ≡ w
      → length msg.intensities ≡ w
      → j < w
      → (get_elem? (fill_columns k w range intensity n msg).ranges j
          ≡ (if ltb j n then some (range (w - 1 - j)) else get_elem? msg.ranges j))
        × (get_elem? (fill_columns k w range intensity n msg).intensities j
            ≡ (if ltb j n then some (intensity (w - 1 - j)) else get_elem? msg.intensities j))
  unfolding fill_columns
  fill_columns_lem zero j msg le r i lt = (ground arith, ground arith)
  fill_columns_lem (suc n) j msg le r i lt =
      let v = w - suc n in
      let ranges = set msg.ranges (w - 1 - v) (range v) in
      let intensities = set msg.intensities (w - 1 - v) (intensity v) in
      let (rs, is) =
        fill_columns_lem n j (record msg { ranges = ranges; intensities = intensities })
          (omega arith) (length-set msg.ranges (w - 1 - v) (range v) ∙ r)
          (length-set msg.intensities (w - 1 - v) (intensity v) ∙ i) lt in
      (
        rs ∙ column_cases n j msg.ranges range le r,
        is ∙ column_cases n j msg.intensities intensity le i,
      )

  filled :
      (j : ℕ) (msg : LaserScan k)
      → length msg.ranges ≡ w
      → length msg.intensities ≡ w
      → j < w
      → (get_elem? (fill_columns k w range intensity w msg).ranges j ≡ some (range (w - 1 - j)))
        × (get_elem? (fill_columns k w range intensity w msg).intensities j
            ≡ some (intensity (w - 1 - j)))
  filled j msg r i lt =
      let (rs, is) = fill_columns_lem w j msg (omega arith) r i lt in
      (ground (arith, rs, lt), ground (arith, is, lt))

-- The column that stands for direction `v`, whose row is shifted by `s`: half a turn from `v`, `s` to the left.
pub laser_column_lem :
    (w s v : ℕ)
    → s ≤ w
    → v < w
    → w < 2 ^ 62
    → (laser_column w (pos s) v < w)
      × ((laser_column w (pos s) v + s ≡ v + w / 2)
          ⊎ (laser_column w (pos s) v + s ≡ v + w / 2 + w)
          ⊎ (laser_column w (pos s) v + s + w ≡ v + w / 2))
unfolding laser_column
laser_column_lem w s v le lt small =
    let x = v + w + w / 2 - s in
    let wrapped : (v + w + w / 2 + 0 + 2 ^ 64 - s) % 2 ^ 64 ≡ x = omega arith in
    simp (wrapped) (elim (dec_lt x (w + w)) [
      | yes below ↦ elim (step_cases x w below) [
        | inl (in_row, e) ↦ (omega arith, inr (inl (omega arith)))
        | inr (past, e) ↦ (omega arith, inl (omega arith))
      ]
      | no above ↦
          let again = mod-eq-sub-mod {n = x} {m = w} (omega arith) in
          elim (step_cases (x - w) w (omega arith)) [
            | inl (in_row, e) ↦ omega arith
            | inr (past, e) ↦ (omega arith, inr (inr (omega arith)))
          ]
    ])

laser_message_lem :
    (k : Float) (g : Geometry k) (ls : LidarScan) (timestamp : ℕ) (frame : String) (ring j : ℕ)
    (shift : ℤ) (rg sg : List ℕ)
    → j < ls.w
    → let idx = ring * ls.w + laser_column ls.w shift (ls.w - 1 - j) in
      let msg = laser_message k g ls timestamp frame ring shift rg sg in
      (get_elem? msg.ranges j ≡ some (k.mul (k.of_ℕ (get_or rg idx 0)) g.range_unit))
      × (get_elem? msg.intensities j ≡ some (k.of_ℕ (get_or sg idx 0)))
unfolding laser_message
laser_message_lem k g ls timestamp frame ring j shift rg sg lt =
    let src_idx : ℕ → ℕ = λ v. ring * ls.w + laser_column ls.w shift v in
    filled k ls.w (λ v. k.mul (k.of_ℕ (get_or rg (src_idx v) 0)) g.range_unit)
      (λ v. k.of_ℕ (get_or sg (src_idx v) 0)) j _ (length-replicate ls.w (k.of_ℕ 0))
      (length-replicate ls.w (k.of_ℕ 0)) lt

message_of_return :
    (k : Float) (g : Geometry k) (has_field : ChanField → Bool) (ls : LidarScan) (timestamp : ℕ)
    (frame : String) (ring : ℕ) (shifts : List ℤ) (second : Bool)
    → has_field (if second then chan_range2 else chan_range) ≡ true
    → lidar_scan_to_laser_scan_msg k g has_field ls timestamp frame ring shifts
        (if second then 1 else 0)
      ≡ some (
          laser_message k g ls timestamp frame ring
            (get_or shifts ring (pos 0))
            (ls.field (if second then chan_range2 else chan_range))
            (get_or_fill_zero has_field (if second then chan_signal2 else chan_signal) ls))
unfolding lidar_scan_to_laser_scan_msg
message_of_return k g has_field ls timestamp frame ring shifts true has = simp (has) refl
message_of_return k g has_field ls timestamp frame ring shifts false has = simp (has) refl

-- A scan that has the range field of the return yields a message, each of whose elements is written: element `j`, of
-- direction `v` (the width minus one minus `j`), has the range, scaled to meters, and the signal of the pixel in the
-- row of the ring and in the column that stands for `v`. Where the shift `s` of the row is from 0 to the width, which
-- is below 2 ^ 62, that is a column of the row, half a turn from `v` and `s` to the left, so that opposite columns
-- are read. A signal that the scan lacks is 0.
pub lidar_scan_to_laser_scan_msg_lem :
    (k : Float) (g : Geometry k) (has_field : ChanField → Bool) (ls : LidarScan) (timestamp : ℕ)
    (frame : String) (ring : ℕ) (shifts : List ℤ) (second : Bool) (s j : ℕ)
    → has_field (if second then chan_range2 else chan_range) ≡ true
    → get_or shifts ring (pos 0) ≡ pos s
    → s ≤ ls.w
    → ls.w < 2 ^ 62
    → j < ls.w
    → let v = ls.w - 1 - j in
      let c = laser_column ls.w (pos s) v in
      let pixel : List ℕ → k.F = λ image. k.of_ℕ (get_or image (ring * ls.w + c) 0) in
      let signal = get_or_fill_zero has_field (if second then chan_signal2 else chan_signal) ls in
      (msg : LaserScan k) × (lidar_scan_to_laser_scan_msg k g has_field ls timestamp frame ring
          shifts
          (if second then 1 else 0)
        ≡ some msg)
      × (get_elem? msg.ranges j
          ≡ some
              (k.mul (pixel (ls.field (if second then chan_range2 else chan_range))) g.range_unit))
      × (get_elem? msg.intensities j ≡ some (pixel signal))
      × (c < ls.w)
      × ((c + s ≡ v + ls.w / 2) ⊎ (c + s ≡ v + ls.w / 2 + ls.w) ⊎ (c + s + ls.w ≡ v + ls.w / 2))
lidar_scan_to_laser_scan_msg_lem k g has_field ls timestamp frame ring shifts second s j has shift
      le small lt =
    let rg = ls.field (if second then chan_range2 else chan_range) in
    let sg = get_or_fill_zero has_field (if second then chan_signal2 else chan_signal) ls in
    let (range, intensity) = laser_message_lem k g ls timestamp frame ring j (pos s) rg sg lt in
    let (in_row, turn) = laser_column_lem ls.w s (ls.w - 1 - j) le (omega arith) small in
    (
      laser_message k g ls timestamp frame ring (pos s) rg sg,
      message_of_return k g has_field ls timestamp frame ring shifts second has
          ∙ ap (λ x. some (laser_message k g ls timestamp frame ring x rg sg)) shift,
      range,
      intensity,
      in_row,
      turn,
    )
