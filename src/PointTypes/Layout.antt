-- ===== src/PointTypes/Layout.antt =====
-- Reading a point structure: src/point_meta_helpers.h (`DEFINE_MEMBER_CHECKER`, `get`), and what the comments of
-- include/ouster_ros/sensor_point_types.h ask of a structure and of its table.
use ouster_ros.Prelude.{
  ℕ, ◌≡◌, refl, sym, ap, ◌∙◌, Bool, true, false, ◌&&◌, Option, none, some, List, [], ◌∷◌, get_elem?,
  ◌==◌, if◌then◌else◌, ==_iff,
}
use ouster_ros.PointTypes.{
  Member, x, y, z, t, ring, range, signal, near_ir, reflectivity, flags, window, zone_mask, r, g, b,
  a, rgb, intensity, ambient, Scalar, float32, uint64, uint32, uint16, uint8, ChanField, chan_range,
  chan_range2, chan_signal, chan_signal2, chan_reflectivity, chan_reflectivity2, chan_near_ir,
  chan_flags, chan_flags2, chan_window, chan_zone_mask, chan_r_u8, chan_g_u8, chan_b_u8,
  ChanFieldTable, PointStruct,
}

abbrev members : List Member
members =
    x ∷ y ∷ z ∷ t ∷ ring ∷ range ∷ signal ∷ near_ir ∷ reflectivity ∷ flags ∷ window ∷ zone_mask ∷ r
    ∷ g ∷ b ∷ a ∷ rgb ∷ intensity ∷ ambient ∷ []

abbrev pub index : Member → ℕ
index x = 0
index y = 1
index z = 2
index t = 3
index ring = 4
index range = 5
index signal = 6
index near_ir = 7
index reflectivity = 8
index flags = 9
index window = 10
index zone_mask = 11
index r = 12
index g = 13
index b = 14
index a = 15
index rgb = 16
index intensity = 17
index ambient = 18

abbrev pub same : Member → Member → Bool
same m n = index m == index n

index_lem : (m : Member) → get_elem? members (index m) ≡ some m
index_lem x = refl
index_lem y = refl
index_lem z = refl
index_lem t = refl
index_lem ring = refl
index_lem range = refl
index_lem signal = refl
index_lem near_ir = refl
index_lem reflectivity = refl
index_lem flags = refl
index_lem window = refl
index_lem zone_mask = refl
index_lem r = refl
index_lem g = refl
index_lem b = refl
index_lem a = refl
index_lem rgb = refl
index_lem intensity = refl
index_lem ambient = refl

abbrev or_x : Option Member → Member
or_x none = x
or_x (some m) = m

pub same_iff : (m n : Member) → same m n ≡ true → m ≡ n
same_iff m n h = ap or_x (
    sym (index_lem m)
    ∙ ap (λ i. get_elem? members i) ((==_iff (index m) (index n)).0 h)
    ∙ index_lem n)

-- The type of a member, where the structure declares it.
abbrev pub type_of : List (Member × Scalar) → Member → Option Scalar
type_of [] m = none
type_of ((n, s) ∷ rest) m = if same n m then some s else type_of rest m

-- `has_<member>_v<T>`
abbrev pub has : PointStruct → Member → Bool
has p m = elim (type_of p.declared m) [ none ↦ false | some s ↦ true ]

abbrev pub rank : Scalar → ℕ
rank float32 = 0
rank uint64 = 1
rank uint32 = 2
rank uint16 = 3
rank uint8 = 4

abbrev pub is_typed : Option Scalar → Scalar → Bool
is_typed none s = false
is_typed (some s') s = rank s' == rank s

-- The member that the comments pair with a field of a scan, whichever return it is of.
abbrev pub member_of : ChanField → Member
member_of chan_range = range
member_of chan_range2 = range
member_of chan_signal = signal
member_of chan_signal2 = signal
member_of chan_reflectivity = reflectivity
member_of chan_reflectivity2 = reflectivity
member_of chan_near_ir = near_ir
member_of chan_flags = flags
member_of chan_flags2 = flags
member_of chan_window = window
member_of chan_zone_mask = zone_mask
member_of chan_r_u8 = r
member_of chan_g_u8 = g
member_of chan_b_u8 = b

abbrev pub mem : Member → List Member → Bool
mem m [] = false
mem m (n ∷ rest) = if same n m then true else mem m rest

-- The fields of `table`, in order, are members of `p` of the same types, and they are the names in `tuple`, each
-- once.
abbrev pub fits : List (Member × Scalar) → List Member → ChanFieldTable → Bool
fits declared [] [] = true
fits declared [] (f ∷ table) = false
fits declared (m ∷ tuple) [] = false
fits declared (m ∷ tuple) ((c, s) ∷ table) =
    if same m (member_of c) && is_typed (type_of declared m) s
    then (if mem m tuple then false else fits declared tuple table)
    else false

-- A registration lists the names of `tuple`, in order, with their declared types.
abbrev pub registers : List (Member × Scalar) → List Member → List (Member × Scalar) → Bool
registers declared [] [] = true
registers declared [] (f ∷ rest) = false
registers declared (m ∷ tuple) [] = false
registers declared (m ∷ tuple) ((n, s) ∷ rest) =
    if same m n && is_typed (type_of declared m) s then registers declared tuple rest else false

-- Every declared member is in the list.
abbrev pub covers : List (Member × Scalar) → List Member → Bool
covers [] ms = true
covers ((m, s) ∷ rest) ms = mem m ms && covers rest ms

-- The first field of a table that belongs in a member.
abbrev pub lookup : ChanFieldTable → Member → Option (ChanField × Scalar)
lookup [] n = none
lookup ((c, s) ∷ table) n = if same (member_of c) n then some (c, s) else lookup table n

-- A member is one of the first five or has a field in the table.
abbrev pub is_filled : ChanFieldTable → Member → Bool
is_filled table x = true
is_filled table y = true
is_filled table z = true
is_filled table t = true
is_filled table ring = true
is_filled table m = elim (lookup table m) [ none ↦ false | some f ↦ true ]

abbrev pub fills : ChanFieldTable → List (Member × Scalar) → Bool
fills table [] = true
fills table ((m, s) ∷ rest) = is_filled table m && fills table rest

-- The structure has x, y and z, and every declared member is filled.
abbrev pub is_filled_by : ChanFieldTable → PointStruct → Bool
is_filled_by table p = has p x && (has p y && (has p z && fills table p.declared))
