-- ===== src/RingBuffer.antt =====
-- src/lock_free_ring_buffer.h: the index arithmetic of `LockFreeRingBuffer`. The buffer holds no
-- items; the client keeps them in `capacity` slots that the two heads select.
-- A capacity of 0, where `%` is undefined in C++, is excluded by `Invariant.IsValid`.
pub mod Invariant
pub mod Refine
pub mod Concurrent
mod Tests
use ouster_ros.Prelude.{ℕ, ◌%◌, Bool, true, false, leb, ltb, ◌==◌, if◌then◌else◌}
use ouster_ros.Prelude.Words.{add_u64, sub_u64}

pub record Buffer : Type 0 where
  pub capacity : ℕ
  pub write_idx : ℕ
  pub read_idx : ℕ

unfoldable pub create : ℕ → Buffer
create capacity = record { capacity = capacity; write_idx = 0; read_idx = 0 }

-- The expression of `size()`, which loads each head twice: `w` and `r` for the comparison, `w'`
-- and `r'` for the difference.
unfoldable pub observe : ℕ → ℕ → ℕ → ℕ → ℕ → ℕ
observe capacity w r w' r' = if leb r w then sub_u64 w' r' else sub_u64 (add_u64 w' capacity) r'

-- `size()` where no other thread moves a head meanwhile.
unfoldable pub size : Buffer → ℕ
unfolding observe
size b = observe b.capacity b.write_idx b.read_idx b.write_idx b.read_idx

unfoldable pub available : Buffer → ℕ
available b = sub_u64 (sub_u64 b.capacity 1) (size b)

unfoldable pub is_empty : Buffer → Bool
is_empty b = b.read_idx == b.write_idx

unfoldable pub is_full : Buffer → Bool
is_full b = b.read_idx == add_u64 b.write_idx 1 % b.capacity

-- `write` and `read` return the new buffer beside their status.
unfoldable pub write : ℕ → Buffer → Buffer × Bool
write count b =
    if ltb (available b) count
    then (b, false)
    else (record b { write_idx = add_u64 b.write_idx count % b.capacity }, true)

unfoldable pub read : ℕ → Buffer → Buffer × Bool
read count b =
    if ltb (size b) count
    then (b, false)
    else (record b { read_idx = add_u64 b.read_idx count % b.capacity }, true)
