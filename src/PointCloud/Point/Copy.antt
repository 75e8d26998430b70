-- ===== src/PointCloud/Point/Copy.antt =====
-- What the copy of the fields of a scan leaves in a point.
use ouster_ros.Prelude.{
  ℕ, zero, suc, ◌+◌, ◌≡◌, refl, sym, ap, subst, ◌∙◌, inl, inr, Bool, true, false, ◌&&◌, Option,
  none, some, List, [], ◌∷◌, get_elem?, get_or, drop, if◌then◌else◌, ==_iff, Bool-cases, arith,
}
use ouster_ros.Float.{Float}
use ouster_ros.PointTypes.{
  Member, Scalar, float32, uint64, uint32, uint16, uint8, ChanField, ChanFieldTable, PointStruct,
}
use ouster_ros.PointTypes.Layout.{
  same, same_iff, type_of, member_of, lookup, mem, rank, is_typed, fits,
}
use ouster_ros.PointCloud.Point.{
  LidarScan, Value, whole, Point, convert, assign, put, make_lidar_scan_tuple,
  copy_lidar_scan_fields_to_point,
}

rank_inj : (s s' : Scalar) → rank s ≡ rank s' → s ≡ s'
rank_inj s s' e = sym (back s) ∙ ap scalar e ∙ back s'
  where
    scalar : ℕ → Scalar
    scalar zero = float32
    scalar (suc zero) = uint64
    scalar (suc (suc zero)) = uint32
    scalar (suc (suc (suc zero))) = uint16
    scalar (suc (suc (suc (suc n)))) = uint8

    back : (s : Scalar) → scalar (rank s) ≡ s
    back float32 = refl
    back uint64 = refl
    back uint32 = refl
    back uint16 = refl
    back uint8 = refl

is_typed_lem : (o : Option Scalar) (s : Scalar) → is_typed o s ≡ true → o ≡ some s
is_typed_lem none s h = ground arith
is_typed_lem (some s') s h = ap some (rank_inj s' s ((==_iff (rank s') (rank s)).0 h))

drop-cons :
    {A : Type 0} (k : ℕ) (xs : List A) {y : A} {rest : List A}
    → drop k xs ≡ y ∷ rest
    → (get_elem? xs k ≡ some y) × (drop (suc k) xs ≡ rest)
drop-cons zero [] h = ground arith
drop-cons zero (y ∷ ys) h = (ground arith, ground arith)
drop-cons (suc k) [] h = ground arith
drop-cons (suc k) (y ∷ ys) h = drop-cons k ys h

if-true : (u v : Bool) → (if u then v else false) ≡ true → (u ≡ true) × (v ≡ true)
if-true true v h = (refl, h)
if-true false v h = ground arith

if-false : (u v : Bool) → (if u then true else v) ≡ false → (u ≡ false) × (v ≡ false)
if-false true v h = ground arith
if-false false v h = (refl, h)

and-true : (u v : Bool) → (u && v) ≡ true → (u ≡ true) × (v ≡ true)
and-true true v h = (refl, h)
and-true false v h = ground arith

if-not : (u v : Bool) → (if u then false else v) ≡ true → (u ≡ false) × (v ≡ true)
if-not true v h = ground arith
if-not false v h = (refl, h)

-- What fitting says of the first member.
fits-cons :
    (declared : List (Member × Scalar)) (m : Member) (tuple : List Member) (c : ChanField)
    (s : Scalar) (table : ChanFieldTable)
    → fits declared (m ∷ tuple) ((c, s) ∷ table) ≡ true
    → (m ≡ member_of c)
      × (type_of declared m ≡ some s)
      × (mem m tuple ≡ false)
      × (fits declared tuple table ≡ true)
fits-cons declared m tuple c s table h =
    let (both, rest) = if-true (same m (member_of c) && is_typed (type_of declared m) s) _ h in
    let (named, typed) = and-true (same m (member_of c)) _ both in
    let (once, others) = if-not (mem m tuple) _ rest in
    (same_iff m (member_of c) named, is_typed_lem (type_of declared m) s typed, once, others)

lookup-none :
    (declared : List (Member × Scalar)) (tuple : List Member) (table : ChanFieldTable) (n : Member)
    → fits declared tuple table ≡ true
    → mem n tuple ≡ false
    → lookup table n ≡ none
lookup-none declared [] [] n h absent = refl
lookup-none declared [] (f ∷ table) n h absent = ground arith
lookup-none declared (m ∷ tuple) [] n h absent = ground arith
lookup-none declared (m ∷ tuple) ((c, s) ∷ table) n h absent =
    let (named, typed, once, others) = fits-cons declared m tuple c s table h in
    let (other, rest) = if-false (same m n) (mem n tuple) absent in
    let e : same (member_of c) n ≡ false = subst (λ m'. same m' n ≡ false) named other in
    rw e (lookup-none declared tuple table n others rest)

module _ (k : Float) (p : PointStruct) (ls : LidarScan) (idx : ℕ) where
  -- The value of a member once the fields of `table` are copied.
  unfoldable pub copied_member : ChanFieldTable → Point k → Member → Value k
  copied_member table pt n = elim (lookup table n) [
    | none ↦ pt n
    | some (c, s) ↦ convert k s (whole (get_or (ls.field c) idx 0))
  ]

  copy_from :
      (index : ℕ) (tuple : List Member) (table : ChanFieldTable) (pt : Point k) (n : Member)
      → drop (5 + index) p.as_tuple ≡ tuple
      → fits p.declared tuple table ≡ true
      → copy_lidar_scan_fields_to_point k p index (make_lidar_scan_tuple table ls) idx pt n
        ≡ copied_member table pt n
  unfolding copy_lidar_scan_fields_to_point make_lidar_scan_tuple copied_member put assign
  copy_from index tuple [] pt n at h = refl
  copy_from index [] (f ∷ table) pt n at h = ground arith
  copy_from index (m ∷ tuple) ((c, s) ∷ table) pt n at h =
      let (named, typed, once, others) = fits-cons p.declared m tuple c s table h in
      let (here, next) = drop-cons (5 + index) p.as_tuple at in
      let v : Value k = whole (get_or (ls.field c) idx 0) in
      let pt' : Point k = put k p (get_elem? p.as_tuple (5 + index)) v pt in
      let next' : drop (5 + suc index) p.as_tuple ≡ tuple =
        subst (λ i. drop i p.as_tuple ≡ tuple) {x = suc (5 + index)} (omega arith) next in
      let rec = copy_from (suc index) tuple table pt' n next' others in
      rec ∙ elim (Bool-cases (same m n)) [
        | inl e ↦
            let gone =
              lookup-none p.declared tuple table n others
                (subst (λ m'. mem m' tuple ≡ false) (same_iff m n e) once) in
            let owned : same (member_of c) n ≡ true = subst (λ m'. same m' n ≡ true) named e in
            ground arith
        | inr e ↦
            let other : same (member_of c) n ≡ false = subst (λ m'. same m' n ≡ false) named e in
            ground arith
      ]

-- Where the members of a structure after the first five are the fields of a table, in order, with their types and each
-- once, the copy gives every member that the table names the value that its field has at the pixel, converted to the
-- field's type, and leaves the others as they were.
pub copy_lidar_scan_fields_to_point_lem :
    (k : Float) (p : PointStruct) (table : ChanFieldTable) (ls : LidarScan) (idx : ℕ) (pt : Point k)
    (n : Member)
    → fits p.declared (drop 5 p.as_tuple) table ≡ true
    → copy_lidar_scan_fields_to_point k p 0 (make_lidar_scan_tuple table ls) idx pt n
      ≡ copied_member k p ls idx table pt n
copy_lidar_scan_fields_to_point_lem k p table ls idx pt n h =
    copy_from k p ls idx 0 (drop 5 p.as_tuple) table pt n refl h
