-- ===== src/PointCloud/Compose/Dense.antt =====
-- The unorganized cloud: one point for each pixel with coordinates, row by row.
use ouster_ros.Prelude.{
  ℕ, zero, suc, ◌+◌, ◌*◌, ◌≤◌, ◌<◌, ◌≡◌, refl, sym, ap, subst, ◌∙◌, inl, inr, Bool, true, false,
  List, [], ◌∷◌, ◌++◌, map, length, get_or, set, drop, ltb, lt→ltb, if◌then◌else◌, Bool-cases,
  arith,
}
use ouster_ros.Float.{Float}
use ouster_ros.PointTypes.Layout.{fits, is_filled_by}
use ouster_ros.PointCloud.Point.{Point}
use ouster_ros.PointCloud.Transform.{transform}
use ouster_ros.PointCloud.Compose.{
  Input, Cloud, default_point, src_idx, fill, place, visit, columns, rows, scan_to_cloud_f,
}
use ouster_ros.PointCloud.Compose.Staging.{fill-Agree, transform-Agree}

module _ {A : Type 0} where
  set-append : (xs : List A) (old new : A) → set (xs ++ old ∷ []) (length xs) new ≡ xs ++ new ∷ []
  set-append [] old new = refl
  set-append (x ∷ xs) old new = ap (λ ys. x ∷ ys) (set-append xs old new)

  get_or-append : (xs : List A) (last d : A) → get_or (xs ++ last ∷ []) (length xs) d ≡ last
  get_or-append [] last d = refl
  get_or-append (x ∷ xs) last d = get_or-append xs last d

  append_assoc : (xs ys zs : List A) → (xs ++ ys) ++ zs ≡ xs ++ (ys ++ zs)
  append_assoc [] ys zs = refl
  append_assoc (x ∷ xs) ys zs = ap (λ l. x ∷ l) (append_assoc xs ys zs)

  append_nil : (xs : List A) → xs ++ [] ≡ xs
  append_nil [] = refl
  append_nil (x ∷ xs) = ap (λ l. x ∷ l) (append_nil xs)

module _ (k : Float) (i : Input k) where
  -- The point of a pixel: a default point that is filled, or made from a default staging point that is filled.
  unfoldable pub produced : ℕ × ℕ → Point k
  produced (u, v) =
      if i.same_type
      then fill k i u v (default_point k i.tgt)
      else transform k i.tgt i.src (fill k i u v (default_point k i.src)) (default_point k i.tgt)

  -- The pixels with coordinates: one pixel, the next `left` columns of a row, and the next `left` rows.
  unfoldable pub pixel : ℕ → ℕ → List (ℕ × ℕ)
  pixel u v = if i.has_nan (i.row (src_idx k i u v)) then [] else (u, v) ∷ []

  unfoldable pub row_pixels : ℕ → ℕ → ℕ → List (ℕ × ℕ)
  unfolding pixel
  row_pixels zero u v = []
  row_pixels (suc left) u v = pixel u v ++ row_pixels left u (suc v)

  unfoldable pub pixels : ℕ → ℕ → List (ℕ × ℕ)
  unfolding row_pixels
  pixels zero j = []
  pixels (suc left) j = row_pixels i.ls.w (j * i.rows_step) 0 ++ pixels left (suc j)

  -- The state `s'` is `s` with the points of `ps` at the end.
  Grown : Cloud k × Point k → List (ℕ × ℕ) → Cloud k × Point k → Type 0
  Grown s ps s' = (s'.0.points ≡ s.0.points ++ map (produced) ps) × (s'.0.is_dense ≡ s.0.is_dense)

  Grown-nil : (s : Cloud k × Point k) → Grown s [] s
  unfolding Grown
  Grown-nil s = (sym (append_nil s.0.points), refl)

  Grown-append :
      (s s' s'' : Cloud k × Point k) (ps qs : List (ℕ × ℕ))
      → Grown s ps s'
      → Grown s' qs s''
      → Grown s (ps ++ qs) s''
  unfolding Grown
  Grown-append s s' s'' ps qs (e, d) (e', d') = (
    e'
        ∙ ap (λ l. l ++ map (produced) qs) e
        ∙ append_assoc s.0.points _ _
        ∙ ap (λ l. s.0.points ++ l) (sym (map-append ps qs)),
    d' ∙ d,
  )
    where
      map-append :
          (ps qs : List (ℕ × ℕ))
          → map (produced) (ps ++ qs) ≡ map (produced) ps ++ map (produced) qs
      map-append [] qs = refl
      map-append (p ∷ ps) qs = ap (λ l. produced p ∷ l) (map-append ps qs)

module _ (k : Float) (i : Input k)
    (h_fits : fits i.src.declared (drop 5 i.src.as_tuple) i.table ≡ true)
    (full : is_filled_by i.table i.src ≡ true) where
  place-Grown :
      (u v : ℕ) (points : List (Point k)) (dense : Bool) (staging : Point k)
      → Grown k i
          (record { points = points; is_dense = dense }, staging)
          ((u, v) ∷ [])
          (place k i u v
            (length points)
            (record { points = points ++ default_point k i.tgt ∷ []; is_dense = dense })
            staging)
  unfolding place produced Grown
  place-Grown u v points dense staging = elim (Bool-cases i.same_type) [
    | inl e ↦ simp e (
      rw (get_or-append points (default_point k i.tgt) (default_point k i.tgt))
          (set-append points _ _),
      refl,
    )
    | inr e ↦ simp e (
      rw
          (
            get_or-append points (default_point k i.tgt) (default_point k i.tgt),
            transform-Agree k i (fill k i u v staging) (fill k i u v (default_point k i.src))
                (default_point k i.tgt) full
                (fill-Agree k i u v staging (default_point k i.src) h_fits full),
          )
          (set-append points _ _),
      refl,
    )
  ]

  visit-Grown :
      i.organized ≡ false
      → (u v : ℕ) (s : Cloud k × Point k) → Grown k i s (pixel k i u v) (visit k i u v s)
  unfolding visit pixel
  visit-Grown unorganized u v (cloud, staging) =
      simp unorganized (elim (Bool-cases (i.has_nan (i.row (src_idx k i u v)))) [
        | inl e ↦ simp e (Grown-nil k i (cloud, staging))
        | inr e ↦ simp e (place-Grown u v cloud.points cloud.is_dense staging)
      ])

  columns-Grown :
      i.organized ≡ false
      → (left u v : ℕ) (s : Cloud k × Point k)
      → Grown k i s (row_pixels k i left u v) (columns k i left u v s)
  unfolding columns row_pixels
  columns-Grown unorganized zero u v s = Grown-nil k i s
  columns-Grown unorganized (suc left) u v s =
      Grown-append k i s (visit k i u v s) _ (pixel k i u v) _ (visit-Grown unorganized u v s)
        (columns-Grown unorganized left u (suc v) (visit k i u v s))

  rows-Grown :
      i.organized ≡ false
      → (n : ℕ) → ((j : ℕ) → j < n → j * i.rows_step < i.ls.h)
      → i.ls.h ≤ n * i.rows_step
      → (left fuel j : ℕ) (s : Cloud k × Point k) → j + left ≡ n
      → left ≤ fuel
      → Grown k i s (pixels k i left j) (rows k i fuel (j * i.rows_step) s)
  unfolding rows pixels
  rows-Grown unorganized n inside out zero zero j s e le = Grown-nil k i s
  rows-Grown unorganized n inside out zero (suc fuel) j s e le =
      let stop : ltb (j * i.rows_step) i.ls.h ≡ false = ground (
        arith,
        subst (λ x. x * i.rows_step ≡ n * i.rows_step) {x = n} {y = j} (omega arith) refl,
      ) in
      simp stop (Grown-nil k i s)
  rows-Grown unorganized n inside out (suc left) zero j s e le = ground arith
  rows-Grown unorganized n inside out (suc left) (suc fuel) j s e le =
      let go : ltb (j * i.rows_step) i.ls.h ≡ true = lt→ltb _ _ (inside j (omega arith)) in
      let s' = columns k i i.ls.w (j * i.rows_step) 0 s in
      let step : suc j * i.rows_step ≡ j * i.rows_step + i.rows_step = omega arith in
      simp go (
        Grown-append k i s s' _ _ (pixels k i left (suc j))
          (columns-Grown unorganized i.ls.w (j * i.rows_step) 0 s)
          (subst (λ u. Grown k i s' (pixels k i left (suc j)) (rows k i fuel u s')) step
            (rows-Grown unorganized n inside out left fuel (suc j) s' (omega arith) (omega arith))))

mul_mono : (a b c : ℕ) → a ≤ b → a * c ≤ b * c
mul_mono zero b c h = omega arith
mul_mono (suc a) zero c h = omega arith
mul_mono (suc a) (suc b) c h = omega (arith, mul_mono a b c (omega arith))

le_mul : (a c : ℕ) → 1 ≤ c → a ≤ a * c
le_mul zero c h = omega arith
le_mul (suc a) c h = omega (arith, le_mul a c h)

pub steps_inside : (n rs h : ℕ) → 1 ≤ rs → n * rs < h + rs → (j : ℕ) → j < n → j * rs < h
steps_inside n rs h pos_step small j lt = omega (arith, mul_mono (suc j) n rs lt)

pub steps_le : (n rs h : ℕ) → 1 ≤ rs → n * rs < h + rs → n ≤ h
steps_le zero rs h pos_step small = omega arith
steps_le (suc j) rs h pos_step small =
    omega (arith, steps_inside (suc j) rs h pos_step small j (omega arith), le_mul j rs pos_step)

-- An unorganized cloud of `n` rows (the height divided by the row step, rounded up; the step is not 0) is composed
-- with one point for each pixel whose coordinates are numbers, row by row, whatever the cloud and the staging point
-- held; it is marked dense. A point is a default point filled from the pixel, or what `transform` makes of one.
-- The table fits the structure of the scan's type and fills all of it, as the factory's do.
pub scan_to_cloud_f-unorganized :
    (k : Float) (i : Input k) (n : ℕ) (cloud : Cloud k) (staging : Point k)
    → fits i.src.declared (drop 5 i.src.as_tuple) i.table ≡ true
    → is_filled_by i.table i.src ≡ true
    → i.organized ≡ false
    → 1 ≤ i.rows_step
    → n * i.rows_step < i.ls.h + i.rows_step
    → i.ls.h ≤ n * i.rows_step
    → ((scan_to_cloud_f k i cloud staging).0.points ≡ map (produced k i) (pixels k i n 0))
      × ((scan_to_cloud_f k i cloud staging).0.is_dense ≡ true)
unfolding scan_to_cloud_f Grown
scan_to_cloud_f-unorganized k i n cloud staging h_fits full unorganized pos_step small out =
    let inside = steps_inside n i.rows_step i.ls.h pos_step small in
    let empty : Cloud k = record { points = []; is_dense = true } in
    simp unorganized (
      subst (λ u. Grown k i (empty, staging) (pixels k i n 0) (rows k i i.ls.h u (empty, staging)))
        {x = 0 * i.rows_step} (omega arith)
        (rows-Grown k i h_fits full unorganized n inside out n i.ls.h 0 (empty, staging)
          (omega arith) (steps_le n i.rows_step i.ls.h pos_step small)))
