-- ===== src/RingBuffer/Invariant.antt =====
-- The invariant of `LockFreeRingBuffer`: the heads lie inside the capacity, and no `size_t`
-- operation wraps.
use ouster_ros.Prelude.{
  ℕ, ◌+◌, ◌-◌, ◌%◌, ◌^◌, ◌≤◌, ◌<◌, ◌≡◌, ◌↔◌, ◌⊎◌, inl, inr, true, false, arith, dec_lt,
}
use ouster_ros.Prelude.Words.{add_u64}
use ouster_ros.RingBuffer.{Buffer, create, size, available, is_empty, is_full, write, read}
use native.Mathlib.Nat.{mod-eq_of_lt, mod-eq-sub-mod}

abbrev pub max_capacity : ℕ
max_capacity = 2 ^ 63

pub record IsValid (b : Buffer) : Type 0 where
  pub small : b.capacity ≤ max_capacity
  pub write_in : b.write_idx < b.capacity
  pub read_in : b.read_idx < b.capacity

pub create-IsValid : (c : ℕ) → 0 < c → c ≤ max_capacity → IsValid (create c)
unfolding create
create-IsValid c h k = omega arith

-- The occupancy without machine arithmetic.
pub size_cases :
    (b : Buffer)
    → IsValid b
    → ((b.read_idx ≤ b.write_idx) × (size b + b.read_idx ≡ b.write_idx))
      ⊎ ((b.write_idx < b.read_idx) × (size b + b.read_idx ≡ b.write_idx + b.capacity))
unfolding size
size_cases b v = ground arith

pub size-lt-capacity : (b : Buffer) → IsValid b → size b < b.capacity
size-lt-capacity b v = omega (arith, size_cases b v)

pub size-add-available : (b : Buffer) → IsValid b → size b + available b + 1 ≡ b.capacity
unfolding available
size-add-available b v = omega (arith, size-lt-capacity b v)

-- A head that moves on within one turn.
pub no_wrap : (x : ℕ) → x < 2 ^ 64 → x % 2 ^ 64 ≡ x
no_wrap x h = omega arith

pub step_cases : (x c : ℕ) → x < c + c → ((x < c) × (x % c ≡ x)) ⊎ ((c ≤ x) × (x % c + c ≡ x))
step_cases x c h = elim (dec_lt x c) [
  | yes p ↦ inl (p, mod-eq_of_lt p)
  | no p ↦ inr (
    omega arith,
    omega (
      arith,
      mod-eq-sub-mod {n = x} {m = c} (omega arith),
      mod-eq_of_lt {n = x - c} {m = c} (omega arith),
    ),
  )
]

abbrev pub Advances : ℕ → ℕ → ℕ → Type 0
Advances i n c =
    ((i + n < c) × (add_u64 i n % c ≡ i + n)) ⊎ ((c ≤ i + n) × (add_u64 i n % c + c ≡ i + n))

pub advance_cases : (i n c : ℕ) → i < c → n < c → c ≤ max_capacity → Advances i n c
advance_cases i n c h k m = rw (no_wrap (i + n) (omega arith)) (step_cases (i + n) c (omega arith))

-- What a head moved by `count` does to the occupancy.
pub write_head_moves :
    (count : ℕ) (b : Buffer)
    → IsValid b
    → size b + count < b.capacity
    → let b' = record b { write_idx = add_u64 b.write_idx count % b.capacity } in
      IsValid b' × (size b' ≡ size b + count)
write_head_moves count b v h = (moved, omega (arith, size_cases b v, size_cases _ moved, turn))
  where
    turn : Advances b.write_idx count b.capacity
    turn = advance_cases b.write_idx count b.capacity v.write_in (omega arith) v.small

    moved : IsValid (record b { write_idx = add_u64 b.write_idx count % b.capacity })
    moved = omega (arith, turn)

pub read_head_moves :
    (count : ℕ) (b : Buffer)
    → IsValid b
    → count ≤ size b
    → let b' = record b { read_idx = add_u64 b.read_idx count % b.capacity } in
      IsValid b' × (size b' + count ≡ size b)
read_head_moves count b v h =
    (moved, omega (arith, size-lt-capacity b v, size_cases b v, size_cases _ moved, turn))
  where
    turn : Advances b.read_idx count b.capacity
    turn =
        advance_cases b.read_idx count b.capacity v.read_in (omega (arith, size-lt-capacity b v))
          v.small

    moved : IsValid (record b { read_idx = add_u64 b.read_idx count % b.capacity })
    moved = omega (arith, turn)

-- `write` refuses exactly when fewer than `count` places are left, and then changes nothing;
-- otherwise it keeps the invariant, and the occupancy grows by `count`.
pub write_lem :
    (count : ℕ) (b : Buffer)
    → IsValid b
    → ((size b + count < b.capacity)
        × ((write count b).1 ≡ true)
        × IsValid (write count b).0
        × (size (write count b).0 ≡ size b + count))
      ⊎ ((b.capacity ≤ size b + count) × (write count b ≡ (b, false)))
unfolding write
write_lem count b v = elim (dec_lt (size b + count) b.capacity) [
  | yes h ↦ ground (arith, write_head_moves count b v h, size-add-available b v)
  | no h ↦ ground (arith, size-add-available b v)
]

-- `read` refuses exactly when fewer than `count` items are there, and then changes nothing;
-- otherwise it keeps the invariant, and the occupancy falls by `count`.
pub read_lem :
    (count : ℕ) (b : Buffer)
    → IsValid b
    → ((count ≤ size b)
        × ((read count b).1 ≡ true)
        × IsValid (read count b).0
        × (size (read count b).0 + count ≡ size b))
      ⊎ ((size b < count) × (read count b ≡ (b, false)))
unfolding read
read_lem count b v = elim (dec_lt (size b) count) [
  | yes h ↦ ground arith
  | no h ↦ ground (arith, read_head_moves count b v (omega arith))
]

pub write-IsValid : (count : ℕ) (b : Buffer) → IsValid b → IsValid (write count b).0
write-IsValid count b v = elim (write_lem count b v) [ inl (_, _, w, _) ↦ w | inr (_, e) ↦ rw e v ]

pub read-IsValid : (count : ℕ) (b : Buffer) → IsValid b → IsValid (read count b).0
read-IsValid count b v = elim (read_lem count b v) [ inl (_, _, w, _) ↦ w | inr (_, e) ↦ rw e v ]

-- `empty()` holds exactly at occupancy 0, and `full()` exactly at occupancy `capacity() - 1`.
pub is_empty_full_iff :
    (b : Buffer)
    → IsValid b
    → ((is_empty b ≡ true) ↔ (size b ≡ 0)) × ((is_full b ≡ true) ↔ (size b + 1 ≡ b.capacity))
unfolding is_empty is_full
is_empty_full_iff b v = ground (arith, size_cases b v, advance_cases b.write_idx 1 b.capacity)
