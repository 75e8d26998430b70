-- ===== src/PointCloud/Accessors.antt =====
-- src/point_meta_helpers.h: the elements of a point by their index, for the structures of the repository and the types of
-- PCL. A call that does not compile is `none`; a reference to an element is the member that it refers to.
pub mod Elements
pub mod Visit
mod Tests
use ouster_ros.Prelude.{
  ℕ, zero, suc, ◌-◌, Bool, true, false, Option, none, some, List, [], ◌∷◌, length, get_elem?,
}
use ouster_ros.PointTypes.{Member, x, y, z, r, g, b, intensity, PointStruct}
use ouster_ros.PointCloud.Factory.{
  Target, struct, pcl_point_xyz, pcl_point_xyzi, pcl_point_xyzrgb, pcl_point_xyzrgba,
}

unfoldable pub size : Target → ℕ
size (struct p) = length p.as_tuple
size pcl_point_xyz = 3
size pcl_point_xyzi = 4
size pcl_point_xyzrgb = 6
size pcl_point_xyzrgba = 6

unfoldable pub get : Target → ℕ → Option Member
get (struct p) i = get_elem? p.as_tuple i
get pcl_point_xyz zero = some x
get pcl_point_xyz (suc zero) = some y
get pcl_point_xyz (suc (suc zero)) = some z
get pcl_point_xyz (suc (suc (suc i))) = none
get pcl_point_xyzi zero = some x
get pcl_point_xyzi (suc zero) = some y
get pcl_point_xyzi (suc (suc zero)) = some z
get pcl_point_xyzi (suc (suc (suc zero))) = some intensity
get pcl_point_xyzi (suc (suc (suc (suc i)))) = none
get pcl_point_xyzrgb zero = some x
get pcl_point_xyzrgb (suc zero) = some y
get pcl_point_xyzrgb (suc (suc zero)) = some z
get pcl_point_xyzrgb (suc (suc (suc zero))) = some r
get pcl_point_xyzrgb (suc (suc (suc (suc zero)))) = some g
get pcl_point_xyzrgb (suc (suc (suc (suc (suc zero))))) = some b
get pcl_point_xyzrgb (suc (suc (suc (suc (suc (suc i)))))) = none
get pcl_point_xyzrgba zero = some x
get pcl_point_xyzrgba (suc zero) = some y
get pcl_point_xyzrgba (suc (suc zero)) = some z
get pcl_point_xyzrgba (suc (suc (suc zero))) = some r
get pcl_point_xyzrgba (suc (suc (suc (suc zero)))) = some g
get pcl_point_xyzrgba (suc (suc (suc (suc (suc zero))))) = some b
get pcl_point_xyzrgba (suc (suc (suc (suc (suc (suc i)))))) = none

-- `CondBinaryBind<Enable>::run`
unfoldable pub bind : {A : Type 0} → Bool → A → A → A
bind true first second = first
bind false first second = second

module _ {S : Type 0} (t : Target) where
  -- The recursions while `Index < N`, on what is left; an operation changes the point and what it captures.
  unfoldable pub apply_next : (Member → S → S) → ℕ → ℕ → S → Option S
  apply_next unary_op zero index s = some s
  apply_next unary_op (suc n) index s = elim (get t index) [
    | none ↦ none
    | some m ↦ apply_next unary_op n (suc index) (unary_op m s)
  ]

  unfoldable pub enumerate_next : (ℕ → Member → S → S) → ℕ → ℕ → S → Option S
  enumerate_next enum_op zero index s = some s
  enumerate_next enum_op (suc n) index s = elim (get t index) [
    | none ↦ none
    | some m ↦ enumerate_next enum_op n (suc index) (enum_op index m s)
  ]

  unfoldable pub apply : ℕ → ℕ → (Member → S → S) → S → Option S
  unfolding apply_next
  apply index n unary_op s = apply_next unary_op (n - index) index s

  unfoldable pub enumerate : ℕ → ℕ → (ℕ → Member → S → S) → S → Option S
  unfolding enumerate_next
  enumerate index n enum_op s = enumerate_next enum_op (n - index) index s
