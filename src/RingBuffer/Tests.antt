-- ===== src/RingBuffer/Tests.antt =====
-- Runs of the ring buffer, and its theorems at concrete buffers.
use ouster_ros.Prelude.{ℕ, ◌+◌, ◌^◌, ◌<◌, ◌≡◌, refl, true, false, [], ◌∷◌, ◌++◌, drop, arith}
use ouster_ros.RingBuffer.{Buffer, create, observe, size, available, is_empty, is_full, write, read}
use ouster_ros.RingBuffer.Invariant.{IsValid}
use ouster_ros.RingBuffer.Refine.{contents, contents-write, contents-read}
use ouster_ros.RingBuffer.Concurrent.{
  Spsc, Producer, Consumer, Reach, finish_write, here, next, write_compares, write_sizes,
  write_finishes, start, Reach-balance, observe_torn,
}

ring : Unit {0}
unfolding create observe size available is_empty is_full write read
ring = tt

-- Four items that go round the end of ten slots.
abbrev wrapped : Buffer
wrapped = record { capacity = 10; write_idx = 2; read_idx = 8 }

wrapped-IsValid : IsValid wrapped
wrapped-IsValid = omega arith

runs :
    (size wrapped ≡ 4)
    × (available wrapped ≡ 5)
    × (write 6 wrapped ≡ (wrapped, false))
    × (write 5 wrapped ≡ (record { capacity = 10; write_idx = 7; read_idx = 8 }, true))
    × (read 3 wrapped ≡ (record { capacity = 10; write_idx = 2; read_idx = 1 }, true))
    × (is_full (record wrapped { write_idx = 7 }) ≡ true)
unfolding ring
runs = (refl, refl, refl, refl, refl, refl)

abbrev slots : ℕ → ℕ
slots i = i + 100

contents-write_example : contents slots (write 1 wrapped).0 ≡ contents slots wrapped ++ slots 2 ∷ []
unfolding ring
contents-write_example = contents-write slots wrapped wrapped-IsValid (omega arith)

contents-read_example : contents slots (read 2 wrapped).0 ≡ drop 2 (contents slots wrapped)
unfolding ring
contents-read_example = contents-read slots wrapped 2 wrapped-IsValid (omega arith)

-- A reader compares with a write head of 9, and the writer goes round to 0 before it subtracts.
observe_torn_example :
    (observe 10 9 8 0 8 + 10 ≡ size (record wrapped { write_idx = 0 }) + 2 ^ 64)
    × (10 < observe 10 9 8 0 8)
observe_torn_example =
    observe_torn (record wrapped { write_idx = 0 }) 9 (omega arith) (omega arith) (omega arith)
      (omega arith)

-- One write, from the load for the comparison to the store.
abbrev after_write : Spsc
after_write = record {
  buffer = record { capacity = 10; write_idx = 1; read_idx = 0 };
  producer = Producer.idle;
  consumer = Consumer.idle;
  written = 1;
  consumed = 0;
}

one_write : Reach (start 10) after_write
unfolding ring start finish_write
one_write =
    next (next (next here (write_compares (start 10) refl)) (write_sizes _ 0 refl))
      (write_finishes _ 0 refl)

Reach-balance_example :
    IsValid after_write.buffer × (0 + size after_write.buffer ≡ 1) × (1 < 0 + 10)
Reach-balance_example = Reach-balance 10 (omega arith) (omega arith) one_write
