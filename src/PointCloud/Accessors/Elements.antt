-- ===== src/PointCloud/Accessors/Elements.antt =====
-- The elements of every point type that the factory makes clouds of.
use ouster_ros.Prelude.{
  ℕ, zero, suc, ◌+◌, ◌<◌, ◌≤◌, ◌≡◌, ◌≢◌, ◌↔◌, refl, sym, subst, some_inj, ap, ◌∙◌, Bool, true,
  false, not, ◌&&◌, none, some, List, [], ◌∷◌, length, get_elem?, if◌then◌else◌, arith, ==_iff,
  Option-cases, inl, inr,
}
use ouster_ros.PointTypes.{Member, x, y, z, r, g, b, intensity}
use ouster_ros.PointTypes.Layout.{index, same, mem}
use ouster_ros.PointTypes.Native.{
  point_legacy, point_rng19_rfl8_sig16_nir16_dual, point_rng19_rfl8_sig16_nir16,
  point_rng15_rfl8_nir8, point_rng15_rfl8_nir8_dual,
}
use ouster_ros.PointTypes.Extended.{
  point_rng15_rfl8_win8, point_rng15_rfl8_nir8_zone16, point_rng19_rfl8_sig16_nir16_zone16,
  point_rng19_rfl8_sig16_nir16_rgb16, point_rng19_rfl8_sig16_nir16_rgb16_dual,
}
use ouster_ros.PointTypes.Common
use ouster_ros.PointCloud.Factory.{
  UdpProfileLidar, legacy, rng19_rfl8_sig16_nir16_dual, rng19_rfl8_sig16_nir16, rng15_rfl8_nir8,
  fusa_rng15_rfl8_nir8_dual, rng15_rfl8_nir8_dual, rng15_rfl8_win8, rng15_rfl8_nir8_zone16,
  rng19_rfl8_sig16_nir16_zone16, rng19_rfl8_sig16_nir16_rgb16, rng19_rfl8_sig16_nir16_rgb16_dual,
  other_profile, Outcome, ok, throw, Source, PointType, native, xyz, xyzi, o_xyzi, xyzir, xyzrgb,
  xyzrgba, original, color_point, other_text, Target, struct, pcl_point_xyz, pcl_point_xyzi,
  pcl_point_xyzrgb, pcl_point_xyzrgba, make_scan_to_cloud_fn, make_point_cloud_processor,
  create_native, create_point_cloud_processor,
}
use ouster_ros.PointCloud.Accessors.{size, get}

-- The elements in order.
unfoldable pub elements : Target → List Member
elements (struct p) = p.as_tuple
elements pcl_point_xyz = x ∷ y ∷ z ∷ []
elements pcl_point_xyzi = x ∷ y ∷ z ∷ intensity ∷ []
elements pcl_point_xyzrgb = x ∷ y ∷ z ∷ r ∷ g ∷ b ∷ []
elements pcl_point_xyzrgba = x ∷ y ∷ z ∷ r ∷ g ∷ b ∷ []

pub get-elements : (t : Target) (i : ℕ) → get t i ≡ get_elem? (elements t) i
unfolding get elements
get-elements (struct p) i = refl
get-elements pcl_point_xyz zero = refl
get-elements pcl_point_xyz (suc zero) = refl
get-elements pcl_point_xyz (suc (suc zero)) = refl
get-elements pcl_point_xyz (suc (suc (suc i))) = refl
get-elements pcl_point_xyzi zero = refl
get-elements pcl_point_xyzi (suc zero) = refl
get-elements pcl_point_xyzi (suc (suc zero)) = refl
get-elements pcl_point_xyzi (suc (suc (suc zero))) = refl
get-elements pcl_point_xyzi (suc (suc (suc (suc i)))) = refl
get-elements pcl_point_xyzrgb zero = refl
get-elements pcl_point_xyzrgb (suc zero) = refl
get-elements pcl_point_xyzrgb (suc (suc zero)) = refl
get-elements pcl_point_xyzrgb (suc (suc (suc zero))) = refl
get-elements pcl_point_xyzrgb (suc (suc (suc (suc zero)))) = refl
get-elements pcl_point_xyzrgb (suc (suc (suc (suc (suc zero))))) = refl
get-elements pcl_point_xyzrgb (suc (suc (suc (suc (suc (suc i)))))) = refl
get-elements pcl_point_xyzrgba zero = refl
get-elements pcl_point_xyzrgba (suc zero) = refl
get-elements pcl_point_xyzrgba (suc (suc zero)) = refl
get-elements pcl_point_xyzrgba (suc (suc (suc zero))) = refl
get-elements pcl_point_xyzrgba (suc (suc (suc (suc zero)))) = refl
get-elements pcl_point_xyzrgba (suc (suc (suc (suc (suc zero))))) = refl
get-elements pcl_point_xyzrgba (suc (suc (suc (suc (suc (suc i)))))) = refl

pub size-elements : (t : Target) → size t ≡ length (elements t)
unfolding size elements
size-elements (struct p) = refl
size-elements pcl_point_xyz = refl
size-elements pcl_point_xyzi = refl
size-elements pcl_point_xyzrgb = refl
size-elements pcl_point_xyzrgba = refl

-- No member is listed twice.
abbrev pub all_differ : List Member → Bool
all_differ [] = true
all_differ (m ∷ ms) = not (mem m ms) && all_differ ms

same_self : (m : Member) → same m m ≡ true
same_self m = (==_iff (index m) (index m)).1 refl

else_true : (c d : Bool) → d ≡ true → (if c then true else d) ≡ true
else_true true d h = refl
else_true false d h = h

then_true : (c d : Bool) → c ≡ true → (if c then true else d) ≡ true
then_true true d h = refl
then_true false d h = cc

pub mem-get_elem? :
    (ms : List Member) (i : ℕ) (m : Member) → get_elem? ms i ≡ some m → mem m ms ≡ true
mem-get_elem? [] i m h = cc
mem-get_elem? (n ∷ ms) zero m h =
    subst (λ q. mem q (n ∷ ms) ≡ true) (some_inj h) (then_true (same n n) (mem n ms) (same_self n))
mem-get_elem? (n ∷ ms) (suc i) m h = else_true (same n m) (mem m ms) (mem-get_elem? ms i m h)

pub get_elem?-lt : (ms : List Member) (i : ℕ) → (get_elem? ms i ≢ none) ↔ (i < length ms)
get_elem?-lt [] i = (λ h. absurd (h refl), λ h. elim h [ ])
get_elem?-lt (n ∷ ms) zero = (λ h. omega arith, λ h e. cc)
get_elem?-lt (n ∷ ms) (suc i) =
    let (to, from) = get_elem?-lt ms i in (λ h. omega (arith, to h), λ h. from (omega arith))

not_twice : (c d : Bool) → (not c && d) ≡ true → c ≡ true → ⊥
not_twice true d h e = cc
not_twice false d h e = cc

pub and_right : (c d : Bool) → (c && d) ≡ true → d ≡ true
and_right true d h = h
and_right false d h = cc

pub all_differ-inj :
    (ms : List Member) (i j : ℕ) (m : Member)
    → all_differ ms ≡ true
    → get_elem? ms i ≡ some m
    → get_elem? ms j ≡ some m
    → i ≡ j
all_differ-inj [] i j m d hi hj = cc
all_differ-inj (n ∷ ms) zero zero m d hi hj = refl
all_differ-inj (n ∷ ms) zero (suc j) m d hi hj =
    absurd (not_twice (mem n ms) (all_differ ms) d (mem-get_elem? ms j n (hj ∙ sym hi)))
all_differ-inj (n ∷ ms) (suc i) zero m d hi hj =
    absurd (not_twice (mem n ms) (all_differ ms) d (mem-get_elem? ms i n (hi ∙ sym hj)))
all_differ-inj (n ∷ ms) (suc i) (suc j) m d hi hj =
    ap suc (all_differ-inj ms i j m (and_right (not (mem n ms)) (all_differ ms) d) hi hj)

get_elem?-none : (ms : List Member) (i : ℕ) → length ms ≤ i → get_elem? ms i ≡ none
get_elem?-none [] i h = refl
get_elem?-none (n ∷ ms) zero h = elim h [ ]
get_elem?-none (n ∷ ms) (suc i) h = get_elem?-none ms i (omega arith)

-- The elements of the type of a cloud differ, where one is made.
differ : Outcome (Target × Source) → Bool
differ (ok (t, source)) = all_differ (elements t)
differ (throw e) = true

native-differ : (profile : UdpProfileLidar) → differ (create_native profile) ≡ true
unfolding differ create_native make_point_cloud_processor make_scan_to_cloud_fn elements
    point_legacy point_rng19_rfl8_sig16_nir16_dual point_rng19_rfl8_sig16_nir16
    point_rng15_rfl8_nir8 point_rng15_rfl8_nir8_dual point_rng15_rfl8_win8
    point_rng15_rfl8_nir8_zone16 point_rng19_rfl8_sig16_nir16_zone16
    point_rng19_rfl8_sig16_nir16_rgb16 point_rng19_rfl8_sig16_nir16_rgb16_dual
native-differ legacy = refl
native-differ rng19_rfl8_sig16_nir16_dual = refl
native-differ rng19_rfl8_sig16_nir16 = refl
native-differ rng15_rfl8_nir8 = refl
native-differ fusa_rng15_rfl8_nir8_dual = refl
native-differ rng15_rfl8_nir8_dual = refl
native-differ rng15_rfl8_win8 = refl
native-differ rng15_rfl8_nir8_zone16 = refl
native-differ rng19_rfl8_sig16_nir16_zone16 = refl
native-differ rng19_rfl8_sig16_nir16_rgb16 = refl
native-differ rng19_rfl8_sig16_nir16_rgb16_dual = refl
native-differ (other_profile n) = refl

made_for-differ :
    (t : Target) (profile : UdpProfileLidar)
    → all_differ (elements t) ≡ true
    → differ (make_point_cloud_processor t profile) ≡ true
unfolding differ make_point_cloud_processor
made_for-differ t profile h = made_from (make_scan_to_cloud_fn profile)
  where
    made_from :
        (o : Outcome Source)
        → differ (elim o [ ok source ↦ ok (t, source) | throw e ↦ throw e ]) ≡ true
    made_from (ok source) = h
    made_from (throw e) = refl

made-differ :
    (p : PointType) (profile : UdpProfileLidar)
    → differ (create_point_cloud_processor p profile) ≡ true
unfolding create_point_cloud_processor differ elements Common.point Common.point_xyzi
    Common.point_xyzir Common.color_point
made-differ native profile = native-differ profile
made-differ xyz profile = made_for-differ pcl_point_xyz profile refl
made-differ xyzi profile = made_for-differ pcl_point_xyzi profile refl
made-differ o_xyzi profile = made_for-differ (struct Common.point_xyzi) profile refl
made-differ xyzir profile = made_for-differ (struct Common.point_xyzir) profile refl
made-differ xyzrgb profile = made_for-differ pcl_point_xyzrgb profile refl
made-differ xyzrgba profile = made_for-differ pcl_point_xyzrgba profile refl
made-differ original profile = made_for-differ (struct Common.point) profile refl
made-differ color_point profile = made_for-differ (struct Common.color_point) profile refl
made-differ (other_text n) profile = refl

pub made-all_differ :
    (p : PointType) (profile : UdpProfileLidar) {t : Target} {source : Source}
    → create_point_cloud_processor p profile ≡ ok (t, source)
    → all_differ (elements t) ≡ true
unfolding differ
made-all_differ p profile h = sym (ap differ h) ∙ made-differ p profile

-- For every point type and profile for which the factory makes a cloud, the points of the cloud have an element at each
-- index below `size`, which no other index gives, and none from `size` on.
pub create_point_cloud_processor-get :
    (p : PointType) (profile : UdpProfileLidar) {t : Target} {source : Source} (i j k : ℕ)
    → create_point_cloud_processor p profile ≡ ok (t, source)
    → i < size t
    → (m : Member) × (get t i ≡ some m)
      × ((get t j ≡ some m) ↔ (j ≡ i))
      × (get t (size t + k) ≡ none)
create_point_cloud_processor-get p profile {t} i j k h below =
    let len = size-elements t in
    let inside = (get_elem?-lt (elements t) i).1 (omega (arith, len)) in
    elim (Option-cases (get_elem? (elements t) i)) [
      | inl e ↦ absurd (inside e)
      | inr (m, e) ↦ (
        m,
        get-elements t i ∙ e,
        (
          λ e'.
              all_differ-inj (elements t) j i m (made-all_differ p profile h)
                (sym (get-elements t j) ∙ e') e,
          λ same_index. ap (get t) same_index ∙ get-elements t i ∙ e,
        ),
        get-elements t (size t + k) ∙ get_elem?-none (elements t) (size t + k) (omega (arith, len)),
      )
    ]
