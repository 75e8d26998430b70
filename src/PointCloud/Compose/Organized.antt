-- ===== src/PointCloud/Compose/Organized.antt =====
-- The organized cloud: its size, and whether it is marked dense.
use ouster_ros.Prelude.{
  ℕ, zero, suc, ◌+◌, ◌*◌, ◌≤◌, ◌<◌, ◌≡◌, refl, sym, ap, subst, ◌∙◌, inl, inr, Bool, true, false,
  not, ◌&&◌, length, length-set, ltb, lt→ltb, Bool-cases, arith,
}
use ouster_ros.Float.{Float}
use ouster_ros.PointCloud.Point.{Point}
use ouster_ros.PointCloud.Compose.{
  Input, Cloud, src_idx, place, visit, columns, rows, scan_to_cloud_f,
}
use ouster_ros.PointCloud.Compose.Dense.{steps_inside, steps_le}

and_true : (u : Bool) → (u && true) ≡ u
and_true true = refl
and_true false = refl

and_assoc : (u v w : Bool) → ((u && v) && w) ≡ (u && (v && w))
and_assoc true v w = refl
and_assoc false v w = refl

module _ (k : Float) (i : Input k) where
  -- No pixel lacks coordinates among the next `left` columns of a row, and of the next `left` rows.
  unfoldable pub row_valid : ℕ → ℕ → ℕ → Bool
  row_valid zero u v = true
  row_valid (suc left) u v = not (i.has_nan (i.row (src_idx k i u v))) && row_valid left u (suc v)

  unfoldable pub all_valid : ℕ → ℕ → Bool
  unfolding row_valid
  all_valid zero j = true
  all_valid (suc left) j = row_valid i.ls.w (j * i.rows_step) 0 && all_valid left (suc j)

  -- The state `s'` has the size of `s`, and is dense where `s` was and `valid` holds.
  Kept : Cloud k × Point k → Bool → Cloud k × Point k → Type 0
  Kept s valid s' =
      (length s'.0.points ≡ length s.0.points) × (s'.0.is_dense ≡ (s.0.is_dense && valid))

  Kept-refl : (s : Cloud k × Point k) → Kept s true s
  unfolding Kept
  Kept-refl s = (refl, sym (and_true s.0.is_dense))

  Kept-trans :
      (s s' s'' : Cloud k × Point k) (u v : Bool)
      → Kept s u s'
      → Kept s' v s''
      → Kept s (u && v) s''
  unfolding Kept
  Kept-trans s s' s'' u v (l, d) (l', d') =
      (l' ∙ l, d' ∙ ap (λ b. b && v) d ∙ and_assoc s.0.is_dense u v)

  place-Kept :
      (u v idx : ℕ) (cloud : Cloud k) (staging : Point k)
      → (length (place k i u v idx cloud staging).0.points ≡ length cloud.points)
        × ((place k i u v idx cloud staging).0.is_dense ≡ cloud.is_dense)
  unfolding place
  place-Kept u v idx cloud staging = elim (Bool-cases i.same_type) [
    | inl e ↦ simp e (length-set cloud.points idx _, refl)
    | inr e ↦ simp e (length-set cloud.points idx _, refl)
  ]

  visit-Kept :
      i.organized ≡ true
      → (u v : ℕ) (s : Cloud k × Point k)
      → Kept s (not (i.has_nan (i.row (src_idx k i u v)))) (visit k i u v s)
  unfolding visit Kept
  visit-Kept organized u v (cloud, staging) = simp organized (place-Kept u v _ _ staging)

  columns-Kept :
      i.organized ≡ true
      → (left u v : ℕ) (s : Cloud k × Point k)
      → Kept s (row_valid left u v) (columns k i left u v s)
  unfolding columns row_valid
  columns-Kept organized zero u v s = Kept-refl s
  columns-Kept organized (suc left) u v s =
      Kept-trans s (visit k i u v s) _ _ _ (visit-Kept organized u v s)
        (columns-Kept organized left u (suc v) (visit k i u v s))

  rows-Kept :
      i.organized ≡ true
      → (n : ℕ) → ((j : ℕ) → j < n → j * i.rows_step < i.ls.h)
      → i.ls.h ≤ n * i.rows_step
      → (left fuel j : ℕ) (s : Cloud k × Point k) → j + left ≡ n
      → left ≤ fuel
      → Kept s (all_valid left j) (rows k i fuel (j * i.rows_step) s)
  unfolding rows all_valid
  rows-Kept organized n inside out zero zero j s e le = Kept-refl s
  rows-Kept organized n inside out zero (suc fuel) j s e le =
      let stop : ltb (j * i.rows_step) i.ls.h ≡ false = ground (
        arith,
        subst (λ x. x * i.rows_step ≡ n * i.rows_step) {x = n} {y = j} (omega arith) refl,
      ) in
      simp stop (Kept-refl s)
  rows-Kept organized n inside out (suc left) zero j s e le = ground arith
  rows-Kept organized n inside out (suc left) (suc fuel) j s e le =
      let go : ltb (j * i.rows_step) i.ls.h ≡ true = lt→ltb _ _ (inside j (omega arith)) in
      let s' = columns k i i.ls.w (j * i.rows_step) 0 s in
      let step : suc j * i.rows_step ≡ j * i.rows_step + i.rows_step = omega arith in
      simp go (
        Kept-trans s s' _ _ (all_valid left (suc j))
          (columns-Kept organized i.ls.w (j * i.rows_step) 0 s)
          (subst (λ u. Kept s' (all_valid left (suc j)) (rows k i fuel u s')) step
            (rows-Kept organized n inside out left fuel (suc j) s' (omega arith) (omega arith))))

-- An organized cloud of `n` rows (the height divided by the row step, rounded up; the step is not 0) keeps its size,
-- and is marked dense exactly where every pixel that the loops visit has coordinates.
pub scan_to_cloud_f-organized :
    (k : Float) (i : Input k) (n : ℕ) (cloud : Cloud k) (staging : Point k)
    → i.organized ≡ true
    → 1 ≤ i.rows_step
    → n * i.rows_step < i.ls.h + i.rows_step
    → i.ls.h ≤ n * i.rows_step
    → (length (scan_to_cloud_f k i cloud staging).0.points ≡ length cloud.points)
      × ((scan_to_cloud_f k i cloud staging).0.is_dense ≡ all_valid k i n 0)
unfolding scan_to_cloud_f Kept
scan_to_cloud_f-organized k i n cloud staging organized pos_step small out =
    let inside = steps_inside n i.rows_step i.ls.h pos_step small in
    let s : Cloud k × Point k = (record { points = cloud.points; is_dense = true }, staging) in
    simp organized (
      subst (λ u. Kept k i s (all_valid k i n 0) (rows k i i.ls.h u s)) {x = 0 * i.rows_step}
        (omega arith)
        (rows-Kept k i organized n inside out n i.ls.h 0 s (omega arith)
          (steps_le n i.rows_step i.ls.h pos_step small)))
