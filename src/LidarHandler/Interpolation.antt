-- ===== src/LidarHandler/Interpolation.antt =====
-- src/lidar_packet_handler.h: the scan timestamp from the columns' timestamps. A column without a
-- packet has timestamp 0.
pub mod Search
use ouster_ros.Prelude.{
  ℕ, zero, suc, ◌+◌, ◌-◌, Bool, true, false, not, Option, none, some, List, [], ◌∷◌, length, get_or,
  ltb, ◌==◌, ◌>>=◌, if◌then◌else◌,
}
use ouster_ros.Prelude.Int.{ℤ, pos, negsuc, sub_ℕ, pos_part, neg_part}
use ouster_ros.Prelude.Words.{add_u64, sub_u64}
use ouster_ros.Float.{Float}
use ouster_ros.Timestamps.{ulround}

abbrev pub is_nonzero : ℕ → Bool
is_nonzero h = not (h == 0)

-- `std::find_if` over the columns, as an index; `none` is the end.
unfoldable pub find_if : List ℕ → (ℕ → Bool) → Option ℕ
find_if [] p = none
find_if (x ∷ xs) p =
    let rest = find_if xs p in
    if p x then some 0 else elim rest [ none ↦ none | some i ↦ some (suc i) ]

-- The `do` loop of `find_if_reverse`, at index `i`.
unfoldable pub find_down : List ℕ → (ℕ → Bool) → ℕ → ℤ
find_down xs p zero = if p (get_or xs 0 0) then pos 0 else negsuc 0
find_down xs p (suc i) =
    let rest = find_down xs p i in if p (get_or xs (suc i) 0) then pos (suc i) else rest

-- `none` where the array is empty and the loop reads in front of it.
unfoldable pub find_if_reverse : List ℕ → (ℕ → Bool) → Option ℤ
find_if_reverse [] p = none
find_if_reverse (x ∷ xs) p = some (find_down (x ∷ xs) p (length xs))

-- `a - b` of two `int`s.
abbrev pub diff : ℤ → ℤ → ℤ
diff a b = sub_ℕ (pos_part a + neg_part b) (neg_part a + pos_part b)

-- The members that `compute_scan_ts` reads and writes. `first` says that it is still
-- `compute_scan_ts_0`.
pub record ScanTs : Type 0 where
  pub first : Bool
  pub last_scan_last_nonzero_idx : ℤ
  pub last_scan_last_nonzero_value : ℕ

module _ (d : Float) where
  open d use {F, of_ℕ, of_ℤ, add, sub, mul, div, to_ℕ}

  unfoldable pub linear_interpolate : ℤ → ℕ → ℤ → ℕ → ℤ → ℕ
  linear_interpolate x0 y0 x1 y1 x =
      if ltb y0 y1 then value y0 y1 (of_ℕ 1) else value y1 y0 (of_ℤ (negsuc 0))
    where
      value : ℕ → ℕ → F → ℕ
      value min_v max_v sign = to_ℕ (
          add (of_ℕ y0) (
            div (mul (mul (of_ℤ (diff x x0)) sign) (of_ℕ (sub_u64 max_v min_v)))
              (of_ℤ (diff x1 x0))))

  -- `none` where the assertion fails.
  unfoldable pub impute_value : ℤ → ℕ → ℕ → ℕ → ℕ → Option ℕ
  impute_value last_idx last_value first_idx first_value scan_width =
      if ltb (pos_part last_idx) (scan_width + first_idx + neg_part last_idx)
      then some (
          ulround d (
            of_ℕ (
              linear_interpolate last_idx last_value (pos (scan_width + first_idx)) first_value
                (pos scan_width))))
      else none

  unfoldable pub extrapolate_value : F → ℕ → ℕ → ℕ
  extrapolate_value spacing first_idx first_value =
      ulround d (sub (of_ℕ first_value) (mul spacing (of_ℕ first_idx)))

  -- The end of both functions: the last column with a timestamp is kept for the next scan.
  unfoldable pub save_last : List ℕ → ℕ → Option (ℕ × ScanTs)
  save_last ts_v scan_ns = do
    last ← find_if_reverse ts_v is_nonzero
    if ltb 0 (neg_part last)
        then none
        else some (
          scan_ns,
          record {
            first = false;
            last_scan_last_nonzero_idx = last;
            last_scan_last_nonzero_value = get_or ts_v (pos_part last) 0;
          },
        )

  unfoldable pub compute_scan_ts_0 : F → List ℕ → Option (ℕ × ScanTs)
  compute_scan_ts_0 spacing ts_v = do
    idx ← find_if ts_v is_nonzero
    let value = get_or ts_v idx 0
    save_last ts_v (if idx == 0 then value else extrapolate_value spacing idx value)

  unfoldable pub compute_scan_ts_n : ScanTs → List ℕ → Option (ℕ × ScanTs)
  compute_scan_ts_n m ts_v = do
    idx ← find_if ts_v is_nonzero
    let value = get_or ts_v idx 0
    scan_ns ←
        if idx == 0
        then some value
        else impute_value m.last_scan_last_nonzero_idx m.last_scan_last_nonzero_value idx value
            (length ts_v)
    save_last ts_v scan_ns

  unfoldable pub compute_scan_ts : F → ScanTs → List ℕ → Option (ℕ × ScanTs)
  compute_scan_ts spacing m ts_v =
      if m.first then compute_scan_ts_0 spacing ts_v else compute_scan_ts_n m ts_v
