-- ===== src/LidarHandler/Interpolation/Search.antt =====
-- The two searches of the scan timestamp, and the members that it leaves behind.
use ouster_ros.Prelude.{
  ℕ, zero, suc, ◌+◌, ◌≤◌, ◌<◌, ◌≡◌, refl, ap, ◌∙◌, ◌≢◌, ◌⊎◌, inl, inr, Bool, true, false, some,
  List, [], ◌∷◌, length, get_or, ◌==◌, arith, Bool-cases, dec_lt, lt→ltb, if◌then◌else◌,
}
use ouster_ros.Prelude.Int.{pos, negsuc}
use ouster_ros.Float.{Float}
use ouster_ros.LidarHandler.Interpolation.{
  is_nonzero, find_if, find_down, find_if_reverse, ScanTs, save_last, compute_scan_ts_0,
  compute_scan_ts_n, compute_scan_ts, impute_value, extrapolate_value, linear_interpolate,
}
use ouster_ros.Timestamps.{ulround}

find_if-zero : (x : ℕ) (xs : List ℕ) (p : ℕ → Bool) → find_if (x ∷ xs) p ≡ some 0 → p x ≡ true
unfolding find_if
find_if-zero x xs p e = ground arith

find_if-suc :
    (x : ℕ) (xs : List ℕ) (p : ℕ → Bool) (i : ℕ)
    → find_if (x ∷ xs) p ≡ some (suc i)
    → (p x ≡ false) × (find_if xs p ≡ some i)
unfolding find_if
find_if-suc x xs p i e = ground arith

-- `find_if` gives the least index of an element that satisfies the test.
pub find_if_lem :
    (xs : List ℕ) (p : ℕ → Bool) (i : ℕ)
    → find_if xs p ≡ some i
    → (i < length xs) × (p (get_or xs i 0) ≡ true) × ((j : ℕ) → j < i → p (get_or xs j 0) ≡ false)
unfolding find_if
find_if_lem [] p i e = cc
find_if_lem (x ∷ xs) p zero e = (omega arith, find_if-zero x xs p e, λ j h. absurd (omega arith))
find_if_lem (x ∷ xs) p (suc i) e =
    let (miss, later) = find_if-suc x xs p i e in
    let (inside, hit, before) = find_if_lem xs p i later in (omega arith, hit, least miss before)
  where
    least :
        p x ≡ false
        → ((j : ℕ) → j < i → p (get_or xs j 0) ≡ false)
        → (j : ℕ) → j < suc i
        → p (get_or (x ∷ xs) j 0) ≡ false
    least miss before zero h = miss
    least miss before (suc j) h = before j (omega arith)

-- The loop of `find_if_reverse` from index `i` gives the greatest index up to `i` of an element
-- that satisfies the test, or -1 if there is none.
pub find_down_lem :
    (xs : List ℕ) (p : ℕ → Bool) (i : ℕ)
    → ((k : ℕ) × (find_down xs p i ≡ pos k)
        × (k ≤ i)
        × (p (get_or xs k 0) ≡ true)
        × ((j : ℕ) → k < j → j ≤ i → p (get_or xs j 0) ≡ false))
      ⊎ ((find_down xs p i ≡ negsuc 0) × ((j : ℕ) → j ≤ i → p (get_or xs j 0) ≡ false))
unfolding find_down
find_down_lem xs p zero = elim (Bool-cases (p (get_or xs 0 0))) [
  | inl e ↦ inl (0, rw e, omega arith, e, λ j l h. absurd (omega arith))
  | inr e ↦ inr (rw e, λ j h. rw (zero_of j h) e)
]
  where
    zero_of : (j : ℕ) → j ≤ 0 → j ≡ 0
    zero_of j h = omega arith
find_down_lem xs p (suc i) = elim (Bool-cases (p (get_or xs (suc i) 0))) [
  | inl e ↦ inl (suc i, rw e, omega arith, e, λ j l h. absurd (omega arith))
  | inr e ↦ elim (find_down_lem xs p i) [
    | inl (k, eq, below, hit, after) ↦ inl (
      k,
      rw e eq,
      omega arith,
      hit,
      λ j l h. elim (dec_lt i j) [ yes q ↦ rw (top j q h) e | no q ↦ after j l (omega arith) ],
    )
    | inr (eq, missed) ↦ inr (
      rw e eq,
      λ j h. elim (dec_lt i j) [ yes q ↦ rw (top j q h) e | no q ↦ missed j (omega arith) ],
    )
  ]
]
  where
    top : (j : ℕ) → i < j → j ≤ suc i → j ≡ suc i
    top j l h = omega arith

find_if_total :
    (xs : List ℕ) (p : ℕ → Bool) (j : ℕ)
    → j < length xs
    → p (get_or xs j 0) ≡ true
    → (i : ℕ) × (find_if xs p ≡ some i) × (i ≤ j)
unfolding find_if
find_if_total [] p j h e = absurd (omega arith)
find_if_total (x ∷ xs) p zero h e = (0, rw e, omega arith)
find_if_total (x ∷ xs) p (suc j) h e = elim (Bool-cases (p x)) [
  | inl hit ↦ (0, rw hit, omega arith)
  | inr miss ↦
      let (i, eq, le) = find_if_total xs p j (omega arith) e in (suc i, rw (miss, eq), omega arith)
]

-- The members name the last column of `ts_v` that has a timestamp.
pub record Names (ts_v : List ℕ) (m : ScanTs) : Type 0 where
  pub column : ℕ
  pub later_scan : m.first ≡ false
  pub idx : m.last_scan_last_nonzero_idx ≡ pos column
  pub inside : column < length ts_v
  pub stamped : get_or ts_v column 0 ≢ 0
  pub value : m.last_scan_last_nonzero_value ≡ get_or ts_v column 0
  pub rest_zero : (j : ℕ) → column < j → j < length ts_v → get_or ts_v j 0 ≡ 0

-- What `compute_scan_ts_n` takes for granted of a scan of `width` columns.
abbrev pub IsWithin : ℕ → ScanTs → Type 0
IsWithin width m =
    (m.first ≡ true) ⊎ ((k : ℕ) × (m.last_scan_last_nonzero_idx ≡ pos k) × (k < width))

zero_of : (n : ℕ) → is_nonzero n ≡ false → n ≡ 0
zero_of n e = ground arith

ne_of : (n : ℕ) → is_nonzero n ≡ true → n ≢ 0
ne_of n e = ground arith

of_ne : (n : ℕ) → n ≢ 0 → is_nonzero n ≡ true
of_ne n e = ground arith

module _ (d : Float) where
  save_last_total :
      (ts_v : List ℕ) (scan_ns j : ℕ)
      → j < length ts_v
      → get_or ts_v j 0 ≢ 0
      → (m : ScanTs) × (save_last d ts_v scan_ns ≡ some (scan_ns, m)) × Names ts_v m
  unfolding save_last find_if_reverse
  save_last_total [] scan_ns j h e = absurd (omega arith)
  save_last_total (x ∷ xs) scan_ns j h e = elim (find_down_lem (x ∷ xs) is_nonzero (length xs)) [
    | inl (k, eq, le, hit, after) ↦ (
      record {
        first = false;
        last_scan_last_nonzero_idx = pos k;
        last_scan_last_nonzero_value = get_or (x ∷ xs) k 0;
      },
      rw eq,
      record {
        column = k;
        later_scan = refl;
        idx = refl;
        inside = omega arith;
        stamped = ne_of _ hit;
        value = refl;
        rest_zero = λ i l r. zero_of _ (after i l (omega arith));
      },
    )
    | inr (eq, missed) ↦ absurd (e (zero_of _ (missed j (omega arith))))
  ]

  column_zero :
      (ts_v : List ℕ) (i : ℕ) → find_if ts_v is_nonzero ≡ some i → get_or ts_v 0 0 ≢ 0 → i ≡ 0
  column_zero ts_v zero eq e = refl
  column_zero ts_v (suc i) eq e =
      absurd (e (zero_of _ ((find_if_lem ts_v is_nonzero (suc i) eq).2 0 (omega arith))))

  impute_value_total :
      (k last_value first_idx first_value width : ℕ)
      → k < width
      → (n : ℕ) × (impute_value d (pos k) last_value first_idx first_value width ≡ some n)
  unfolding impute_value
  impute_value_total k last_value first_idx first_value width h = (
    ulround d (
        d.of_ℕ (
          linear_interpolate d (pos k) last_value (pos (width + first_idx)) first_value
            (pos width))),
    rw (lt→ltb k (width + first_idx + 0) (omega arith)),
  )

  -- The value that either function keeps, from the first column with a timestamp.
  imputed_total :
      (m : ScanTs) (ts_v : List ℕ) (i v : ℕ)
      → (k : ℕ) × (m.last_scan_last_nonzero_idx ≡ pos k) × (k < length ts_v)
      → (n : ℕ) × ((if i == 0
            then some v
            else impute_value d m.last_scan_last_nonzero_idx m.last_scan_last_nonzero_value i v
                (length ts_v))
          ≡ some n)
        × (i ≡ 0 → n ≡ v)
  imputed_total m ts_v i v (k, at, le) = elim (Bool-cases (i == 0)) [
    | inl z ↦ (v, rw z, λ e. refl)
    | inr z ↦
        let (n, eq) = impute_value_total k m.last_scan_last_nonzero_value i v (length ts_v) le in
        (n, rw (z, at) eq, λ e. ground arith)
  ]

  -- Members that `compute_scan_ts_n` is called with.
  within_later :
      (width : ℕ) (m : ScanTs)
      → IsWithin width m
      → m.first ≡ false
      → (k : ℕ) × (m.last_scan_last_nonzero_idx ≡ pos k) × (k < width)
  within_later width m (inl e) f = cc
  within_later width m (inr w) f = w

  test_zero : (i v x : ℕ) → i ≡ 0 → (if i == 0 then v else x) ≡ v
  test_zero i v x e = ground arith

  ts_0_eq :
      (spacing : d.F) (m : ScanTs) (ts_v : List ℕ) (i : ℕ)
      → m.first ≡ true
      → find_if ts_v is_nonzero ≡ some i
      → let v = get_or ts_v i 0 in
        compute_scan_ts d spacing m ts_v
        ≡ save_last d ts_v (if i == 0 then v else extrapolate_value d spacing i v)
  unfolding compute_scan_ts compute_scan_ts_0
  ts_0_eq spacing m ts_v i start found = rw (start, found)

  ts_n_eq :
      (spacing : d.F) (m : ScanTs) (ts_v : List ℕ) (i n : ℕ)
      → m.first ≡ false
      → find_if ts_v is_nonzero ≡ some i
      → (if i == 0
          then some (get_or ts_v i 0)
          else impute_value d m.last_scan_last_nonzero_idx m.last_scan_last_nonzero_value i
              (get_or ts_v i 0)
              (length ts_v))
        ≡ some n
      → compute_scan_ts d spacing m ts_v ≡ save_last d ts_v n
  unfolding compute_scan_ts compute_scan_ts_n
  ts_n_eq spacing m ts_v i n later found imputed = rw (later, found, imputed)

  -- Where some column has a timestamp, and the members fit the scan's width, no assertion fails;
  -- a timestamp of column 0 is the scan's, and the last column with one is kept for the next scan.
  pub compute_scan_ts_total :
      (spacing : d.F) (m : ScanTs) (ts_v : List ℕ) (j : ℕ)
      → IsWithin (length ts_v) m
      → j < length ts_v
      → get_or ts_v j 0 ≢ 0
      → (scan_ns : ℕ) × (m' : ScanTs) × (compute_scan_ts d spacing m ts_v ≡ some (scan_ns, m'))
        × Names ts_v m'
        × (get_or ts_v 0 0 ≢ 0 → scan_ns ≡ get_or ts_v 0 0)
  compute_scan_ts_total spacing m ts_v j w h e = elim (Bool-cases m.first) [
    | inl start ↦
        let (i, found, _) = find_if_total ts_v is_nonzero j h (of_ne _ e) in
        let v = get_or ts_v i 0 in
        let n = if i == 0 then v else extrapolate_value d spacing i v in
        let (m', saved, names) = save_last_total ts_v n j h e in
        (
          n,
          m',
          ts_0_eq spacing m ts_v i start found ∙ saved,
          names,
          λ ne.
              let z = column_zero ts_v i found ne in
              test_zero i v (extrapolate_value d spacing i v) z ∙ ap (λ k. get_or ts_v k 0) z,
        )
    | inr later ↦
        let (i, found, _) = find_if_total ts_v is_nonzero j h (of_ne _ e) in
        let (n, imputed, at_zero) =
          imputed_total m ts_v i (get_or ts_v i 0) (within_later _ m w later) in
        let (m', saved, names) = save_last_total ts_v n j h e in
        (
          n,
          m',
          ts_n_eq spacing m ts_v i n later found imputed ∙ saved,
          names,
          λ ne. let z = column_zero ts_v i found ne in at_zero z ∙ ap (λ k. get_or ts_v k 0) z,
        )
  ]
