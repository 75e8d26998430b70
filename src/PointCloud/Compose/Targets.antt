-- ===== src/PointCloud/Compose/Targets.antt =====
-- The organized cloud of a native type: which pixel each point is filled from.
use native.Mathlib.Nat.{mul-div_cancel}
use ouster_ros.Prelude.{
  ◌==◌, ==_iff, ℕ, zero, suc, ◌+◌, ◌*◌, ◌/◌, ◌≤◌, ◌<◌, ◌≡◌, ◌≢◌, refl, sym, ap, subst, ◌∙◌, inl,
  inr, true, List, [], ◌∷◌, length, length-set, get_or, set, drop, ltb, lt→ltb, Bool-cases, arith,
}
use ouster_ros.Float.{Float}
use ouster_ros.PointTypes.Layout.{fits, is_filled_by}
use ouster_ros.PointCloud.Point.{Point}
use ouster_ros.PointCloud.Compose.{
  Input, Cloud, default_point, fill, place, visit, columns, rows, scan_to_cloud_f,
}
use ouster_ros.PointCloud.Compose.Staging.{Agree, fill-Agree}
use ouster_ros.PointCloud.Compose.Dense.{steps_inside, steps_le}

module _ {A : Type 0} where
  get_or-set_self : (xs : List A) (t : ℕ) (a d : A) → t < length xs → get_or (set xs t a) t d ≡ a
  get_or-set_self [] t a d h = ground arith
  get_or-set_self (y ∷ ys) zero a d h = refl
  get_or-set_self (y ∷ ys) (suc t) a d h = get_or-set_self ys t a d (omega arith)

  get_or-set_ne :
      (xs : List A) (s t : ℕ) (a d : A) → s ≢ t → get_or (set xs s a) t d ≡ get_or xs t d
  get_or-set_ne [] s t a d h = refl
  get_or-set_ne (y ∷ ys) zero zero a d h = absurd (h refl)
  get_or-set_ne (y ∷ ys) zero (suc t) a d h = refl
  get_or-set_ne (y ∷ ys) (suc s) zero a d h = refl
  get_or-set_ne (y ∷ ys) (suc s) (suc t) a d h = get_or-set_ne ys s t a d (λ e. h (ap suc e))

module _ (k : Float) (i : Input k) (organized : i.organized ≡ true)
    (same : i.same_type ≡ true) where
  visit-points :
      (u v : ℕ) (s : Cloud k × Point k)
      → let idx = u / i.rows_step * i.ls.w + v in
        (visit k i u v s).0.points
        ≡ set s.0.points idx (fill k i u v (get_or s.0.points idx (default_point k i.tgt)))
  unfolding visit place
  visit-points u v (cloud, staging) = simp (organized, same) refl

  visit_other :
      (u v t : ℕ) (s : Cloud k × Point k) (d : Point k)
      → u / i.rows_step * i.ls.w + v ≢ t
      → get_or (visit k i u v s).0.points t d ≡ get_or s.0.points t d
  visit_other u v t s d h =
      ap (λ l. get_or l t d) (visit-points u v s) ∙ get_or-set_ne s.0.points _ t _ d h

  columns_other :
      (left u v t : ℕ) (s : Cloud k × Point k) (d : Point k)
      → ((m : ℕ) → m < left → u / i.rows_step * i.ls.w + (v + m) ≢ t)
      → get_or (columns k i left u v s).0.points t d ≡ get_or s.0.points t d
  unfolding columns
  columns_other zero u v t s d h = refl
  columns_other (suc left) u v t s d h =
      columns_other left u (suc v) t (visit k i u v s) d (λ m lt.
        subst (λ x. u / i.rows_step * i.ls.w + x ≢ t) {x = v + suc m} (omega arith)
          (h (suc m) (omega arith)))
      ∙ visit_other u v t s d (
          subst (λ x. u / i.rows_step * i.ls.w + x ≢ t) {x = v + 0} (omega arith)
            (h 0 (omega arith)))

  visit-length :
      (u v : ℕ) (s : Cloud k × Point k) → length (visit k i u v s).0.points ≡ length s.0.points
  visit-length u v s = ap length (visit-points u v s) ∙ length-set s.0.points _ _

  columns-length :
      (left u v : ℕ) (s : Cloud k × Point k)
      → length (columns k i left u v s).0.points ≡ length s.0.points
  unfolding columns
  columns-length zero u v s = refl
  columns-length (suc left) u v s =
      columns-length left u (suc v) (visit k i u v s) ∙ visit-length u v s

  visit_self :
      (u c : ℕ) (s : Cloud k × Point k) (d : Point k)
      → u / i.rows_step * i.ls.w + c < length s.0.points
      → get_or (visit k i u c s).0.points (u / i.rows_step * i.ls.w + c) d
        ≡ fill k i u c (get_or s.0.points (u / i.rows_step * i.ls.w + c) (default_point k i.tgt))
  visit_self u c s d small =
      ap (λ l. get_or l (u / i.rows_step * i.ls.w + c) d) (visit-points u c s)
      ∙ get_or-set_self s.0.points _ _ d small

  -- A column of the row is filled from its pixel.
  columns_target :
      (left u v c : ℕ) (s : Cloud k × Point k) (d : Point k)
      → v ≤ c
      → c < v + left
      → u / i.rows_step * i.ls.w + c < length s.0.points
      → (old : Point k) × (get_or (columns k i left u v s).0.points (u / i.rows_step * i.ls.w + c) d
          ≡ fill k i u c old)
  unfolding columns
  columns_target zero u v c s d le lt small = ground arith
  columns_target (suc left) u v c s d le lt small = elim (Bool-cases (c == v)) [
    | inl e ↦
        subst
          (λ v'.
            (old : Point k) × (get_or (columns k i left u (suc v') (visit k i u v' s)).0.points
                (u / i.rows_step * i.ls.w + c) d
              ≡ fill k i u c old))
          ((==_iff c v).0 e)
          (
            get_or s.0.points (u / i.rows_step * i.ls.w + c) (default_point k i.tgt),
            columns_other left u (suc c) _ (visit k i u c s) d (λ m lt' eq. omega arith)
                ∙ visit_self u c s d small,
          )
    | inr e ↦
        columns_target left u (suc v) c (visit k i u v s) d (ground arith) (omega arith)
          (subst (λ n. u / i.rows_step * i.ls.w + c < n) (sym (visit-length u v s)) small)
  ]

module _ (k : Float) (i : Input k) (organized : i.organized ≡ true) (same : i.same_type ≡ true)
    (pos_step : 0 < i.rows_step) where
  row_base : (j : ℕ) → j * i.rows_step / i.rows_step * i.ls.w ≡ j * i.ls.w
  row_base j = ap (λ q. q * i.ls.w) (mul-div_cancel j pos_step)

  rows_other :
      (fuel j t : ℕ) (s : Cloud k × Point k) (d : Point k)
      → t < j * i.ls.w
      → get_or (rows k i fuel (j * i.rows_step) s).0.points t d ≡ get_or s.0.points t d
  unfolding rows
  rows_other zero j t s d h = refl
  rows_other (suc fuel) j t s d h = elim (Bool-cases (ltb (j * i.rows_step) i.ls.h)) [
    | inr stop ↦ simp stop refl
    | inl go ↦
        let s' = columns k i i.ls.w (j * i.rows_step) 0 s in
        let step : suc j * i.rows_step ≡ j * i.rows_step + i.rows_step = omega arith in
        simp go (
          subst (λ u. get_or (rows k i fuel u s').0.points t d ≡ get_or s'.0.points t d) step
            (rows_other fuel (suc j) t s' d (omega arith))
          ∙ columns_other k i organized same i.ls.w (j * i.rows_step) 0 t s d
              (λ m lt e. omega (arith, row_base j)))
  ]

  rows_target :
      (n : ℕ)
      → ((j : ℕ) → j < n → j * i.rows_step < i.ls.h)
      → (left fuel j row c : ℕ) (s : Cloud k × Point k) (d : Point k) → j + left ≡ n
      → left ≤ fuel
      → j ≤ row
      → row < n
      → c < i.ls.w
      → row * i.ls.w + c < length s.0.points
      → (old : Point k) × (get_or (rows k i fuel (j * i.rows_step) s).0.points (row * i.ls.w + c) d
          ≡ fill k i (row * i.rows_step) c old)
  unfolding rows
  rows_target n inside zero fuel j row c s d e le low high lt small = ground arith
  rows_target n inside (suc left) zero j row c s d e le low high lt small = ground arith
  rows_target n inside (suc left) (suc fuel) j row c s d e le low high lt small =
      let go : ltb (j * i.rows_step) i.ls.h ≡ true = lt→ltb _ _ (inside j (omega arith)) in
      let s' = columns k i i.ls.w (j * i.rows_step) 0 s in
      let step : suc j * i.rows_step ≡ j * i.rows_step + i.rows_step = omega arith in
      let Target : ℕ → ℕ → Type 0 = λ u r.
        (old : Point k) × (get_or (rows k i fuel u s').0.points (r * i.ls.w + c) d
          ≡ fill k i (r * i.rows_step) c old) in
      simp go (
        subst (λ u. Target u row) step
          (elim (Bool-cases (row == j)) [
            | inl eq ↦
                let at_j = (==_iff row j).0 eq in
                let small_j : j * i.ls.w + c < length s.0.points =
                  subst (λ r. r * i.ls.w + c < length s.0.points) at_j small in
                let (old, filled) =
                  columns_target k i organized same i.ls.w (j * i.rows_step) 0 c s d (omega arith)
                    (omega arith) (omega (arith, row_base j, small_j)) in
                let here : get_or s'.0.points (j * i.ls.w + c) d
                    ≡ fill k i (j * i.rows_step) c old =
                  subst (λ q. get_or s'.0.points (q + c) d ≡ fill k i (j * i.rows_step) c old)
                    (row_base j) filled in
                subst (λ r. Target (suc j * i.rows_step) r) (sym at_j)
                  (old, rows_other fuel (suc j) (j * i.ls.w + c) s' d (omega arith) ∙ here)
            | inr ne ↦
                rows_target n inside left fuel (suc j) row c s' d (omega arith) (omega arith)
                  (ground arith) high lt
                  (subst (λ l. row * i.ls.w + c < l)
                    (sym (columns-length k i organized same i.ls.w (j * i.rows_step) 0 s)) small)
          ]))

-- An organized cloud of a native type, of `n` rows (the height divided by the row step, rounded up; the step is not
-- 0): once the scan is composed, the point at `row * w + c` has, in every member of the type, what filling a default
-- point from the pixel in row `row * rows_step` and column `c` gives, whatever the cloud held before. The table fits
-- the type and fills all of it, as the factory's do, and the cloud has that point.
pub scan_to_cloud_f-Agree :
    (k : Float) (i : Input k) (n row c : ℕ) (cloud : Cloud k) (staging d : Point k)
    → fits i.src.declared (drop 5 i.src.as_tuple) i.table ≡ true
    → is_filled_by i.table i.src ≡ true
    → i.organized ≡ true
    → i.same_type ≡ true
    → 1 ≤ i.rows_step
    → n * i.rows_step < i.ls.h + i.rows_step
    → i.ls.h ≤ n * i.rows_step
    → row < n
    → c < i.ls.w
    → row * i.ls.w + c < length cloud.points
    → Agree k i.src
        (get_or (scan_to_cloud_f k i cloud staging).0.points (row * i.ls.w + c) d)
        (fill k i (row * i.rows_step) c (default_point k i.src))
unfolding scan_to_cloud_f
scan_to_cloud_f-Agree k i n row c cloud staging d h_fits full organized same pos_step small out high
      lt inside_cloud =
    let inside = steps_inside n i.rows_step i.ls.h pos_step small in
    let s : Cloud k × Point k = (record { points = cloud.points; is_dense = true }, staging) in
    let (old, e) =
      rows_target k i organized same (omega arith) n inside n i.ls.h 0 row c s d (omega arith)
        (steps_le n i.rows_step i.ls.h pos_step small) (omega arith) high lt inside_cloud in
    let at_0 : get_or (rows k i i.ls.h 0 s).0.points (row * i.ls.w + c) d
        ≡ fill k i (row * i.rows_step) c old =
      subst
        (λ u.
          get_or (rows k i i.ls.h u s).0.points (row * i.ls.w + c) d
          ≡ fill k i (row * i.rows_step) c old)
        {x = 0 * i.rows_step} (omega arith) e in
    simp organized (
      subst (λ p. Agree k i.src p (fill k i (row * i.rows_step) c (default_point k i.src)))
        (sym at_0) (fill-Agree k i (row * i.rows_step) c old (default_point k i.src) h_fits full))
