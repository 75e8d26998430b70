-- ===== src/RingBuffer/Concurrent.antt =====
-- One writing and one reading thread over the two atomic heads. Every load of the other thread's
-- head is a step of its own, so `size()` may compare with one value and subtract another.
-- `written` and `consumed` count what the threads have moved; they are no part of the program.
use ouster_ros.Prelude.{
  ℕ, ◌+◌, ◌%◌, ◌^◌, ◌≤◌, ◌<◌, ◌≡◌, ◌⊎◌, inl, inr, false, arith, ltb, if◌then◌else◌, Bool-cases,
  subst,
}
use ouster_ros.Prelude.Words.{add_u64, sub_u64}
use ouster_ros.RingBuffer.{Buffer, create, observe, size}
use ouster_ros.RingBuffer.Invariant.{
  IsValid, max_capacity, size_cases, size-lt-capacity, write_head_moves, read_head_moves,
}

-- Where `write(1)` stands: before it, after the load for the comparison, after `size()`.
pub data Producer : Type 0 where
  idle : Producer
  compared : ℕ → Producer
  sized : ℕ → Producer

-- Where `read(count)` stands, with its count.
pub data Consumer : Type 0 where
  idle : Consumer
  compared : ℕ → ℕ → Consumer
  sized : ℕ → ℕ → Consumer

pub record Spsc : Type 0 where
  pub buffer : Buffer
  pub producer : Producer
  pub consumer : Consumer
  pub written : ℕ
  pub consumed : ℕ

-- `write(1)` once `size()` has returned `n`.
unfoldable pub finish_write : ℕ → Spsc → Spsc
finish_write n s =
    if ltb (sub_u64 (sub_u64 s.buffer.capacity 1) n) 1
    then record s { producer = Producer.idle }
    else record s {
      buffer = record s.buffer { write_idx = add_u64 s.buffer.write_idx 1 % s.buffer.capacity };
      producer = Producer.idle;
      written = s.written + 1;
    }

-- `read(count)` once `size()` has returned `n`.
unfoldable pub finish_read : ℕ → ℕ → Spsc → Spsc
finish_read count n s = if ltb n count then record s { consumer = Consumer.idle } else record s {
  buffer = record s.buffer { read_idx = add_u64 s.buffer.read_idx count % s.buffer.capacity };
  consumer = Consumer.idle;
  consumed = s.consumed + count;
}

-- `read(2)` is only called by a reader that has seen the ring non-empty, as `process_scans` does.
pub data Step : Spsc → Spsc → Type 0 where
  write_compares :
      (s : Spsc)
      → s.producer ≡ Producer.idle
      → Step s (record s { producer = Producer.compared s.buffer.read_idx })
  write_sizes :
      (s : Spsc) (r : ℕ)
      → s.producer ≡ Producer.compared r
      → Step s (record s {
        producer =
            Producer.sized
              (observe s.buffer.capacity s.buffer.write_idx r s.buffer.write_idx s.buffer.read_idx);
      })
  write_finishes : (s : Spsc) (n : ℕ) → s.producer ≡ Producer.sized n → Step s (finish_write n s)
  read_compares :
      (s : Spsc) (count : ℕ)
      → s.consumer ≡ Consumer.idle
      → (count ≤ 1) ⊎ ((count ≡ 2) × (0 < size s.buffer))
      → Step s (record s { consumer = Consumer.compared count s.buffer.write_idx })
  read_sizes :
      (s : Spsc) (count w : ℕ)
      → s.consumer ≡ Consumer.compared count w
      → Step s (record s {
        consumer =
            Consumer.sized count
              (observe s.buffer.capacity w s.buffer.read_idx s.buffer.write_idx s.buffer.read_idx);
      })
  read_finishes :
      (s : Spsc) (count n : ℕ)
      → s.consumer ≡ Consumer.sized count n
      → Step s (finish_read count n s)

pub data Reach (s : Spsc) : Spsc → Type 0 where
  here : Reach s s
  next : {t u : Spsc} → Reach s t → Step t u → Reach s u

-- What a thread that is under way knows of the other's head.
abbrev ProducerKnows : Buffer → Producer → Type 0
ProducerKnows b Producer.idle = Unit {0}
ProducerKnows b (Producer.compared r) =
    IsValid (record b { read_idx = r }) × (size b ≤ size (record b { read_idx = r }))
ProducerKnows b (Producer.sized n) =
    ltb (sub_u64 (sub_u64 b.capacity 1) n) 1 ≡ false → size b + 1 < b.capacity

abbrev ConsumerKnows : Buffer → Consumer → Type 0
ConsumerKnows b Consumer.idle = Unit {0}
ConsumerKnows b (Consumer.compared count w) =
    IsValid (record b { write_idx = w })
    × (size (record b { write_idx = w }) ≤ size b)
    × (count ≤ size (record b { write_idx = w }) + 1)
ConsumerKnows b (Consumer.sized count n) = count ≤ n → count ≤ size b

pub record Inv (s : Spsc) : Type 0 where
  pub valid : IsValid s.buffer
  pub balance : s.consumed + size s.buffer ≡ s.written
  pub producing : ProducerKnows s.buffer s.producer
  pub consuming : ConsumerKnows s.buffer s.consumer

-- What `size()` returns to the writer: the occupancy, or the occupancy and a whole turn if the
-- reader went round meanwhile, and then there is room.
writer_observes :
    (b : Buffer) (r : ℕ)
    → IsValid b
    → IsValid (record b { read_idx = r })
    → size b ≤ size (record b { read_idx = r })
    → let n = observe b.capacity b.write_idx r b.write_idx b.read_idx in
      (n ≡ size b) ⊎ ((n ≡ size b + b.capacity) × (size b + 1 < b.capacity))
unfolding observe
writer_observes b r v u h =
    ground (arith, size_cases b v, size_cases (record b { read_idx = r }) u, size-lt-capacity _ u)

-- What it returns to the reader: the occupancy, or 2 ^ 64 less a turn more if the writer went
-- round meanwhile, and then there is one item more than at the comparison.
reader_observes :
    (b : Buffer) (w : ℕ)
    → IsValid b
    → IsValid (record b { write_idx = w })
    → size (record b { write_idx = w }) ≤ size b
    → let n = observe b.capacity w b.read_idx b.write_idx b.read_idx in
      (n ≡ size b)
      ⊎ ((n + b.capacity ≡ size b + 2 ^ 64) × (size (record b { write_idx = w }) < size b))
unfolding observe
reader_observes b w v u h =
    ground (arith, size_cases b v, size_cases (record b { write_idx = w }) u, size-lt-capacity b v)

-- The reader's knowledge survives a write, and the writer's a read.
consumer_keeps :
    (b : Buffer) (c : Consumer)
    → IsValid b
    → size b + 1 < b.capacity
    → ConsumerKnows b c
    → ConsumerKnows (record b { write_idx = add_u64 b.write_idx 1 % b.capacity }) c
consumer_keeps b Consumer.idle v room k = tt
consumer_keeps b (Consumer.compared count w) v room (u, h, l) = (
  record { small = u.small; write_in = u.write_in; read_in = u.read_in },
  omega (arith, write_head_moves 1 b v room),
  l,
)
consumer_keeps b (Consumer.sized count n) v room k =
    λ h. omega (arith, write_head_moves 1 b v room, k h)

producer_keeps :
    (b : Buffer) (count : ℕ) (p : Producer)
    → IsValid b
    → count ≤ size b
    → ProducerKnows b p
    → ProducerKnows (record b { read_idx = add_u64 b.read_idx count % b.capacity }) p
producer_keeps b count Producer.idle v less k = tt
producer_keeps b count (Producer.compared r) v less (u, h) = (
  record { small = u.small; write_in = u.write_in; read_in = u.read_in },
  omega (arith, read_head_moves count b v less),
)
producer_keeps b count (Producer.sized n) v less k =
    λ h. omega (arith, read_head_moves count b v less, k h)

finish_write-Inv :
    (n : ℕ) (s : Spsc) → Inv s → s.producer ≡ Producer.sized n → Inv (finish_write n s)
unfolding finish_write
finish_write-Inv n s i e = elim (Bool-cases (ltb (sub_u64 (sub_u64 s.buffer.capacity 1) n) 1)) [
  | inl full ↦
      rw full
        (record { valid = i.valid; balance = i.balance; producing = tt; consuming = i.consuming })
  | inr free ↦
      let known = subst (ProducerKnows s.buffer) e i.producing in
      let room : size s.buffer + 1 < s.buffer.capacity = known free in
      rw free (record {
        valid = (write_head_moves 1 s.buffer i.valid room).0;
        balance = omega (arith, i.balance, write_head_moves 1 s.buffer i.valid room);
        producing = tt;
        consuming = consumer_keeps s.buffer s.consumer i.valid room i.consuming;
      })
]

finish_read-Inv :
    (count n : ℕ) (s : Spsc)
    → Inv s
    → s.consumer ≡ Consumer.sized count n
    → Inv (finish_read count n s)
unfolding finish_read
finish_read-Inv count n s i e = elim (Bool-cases (ltb n count)) [
  | inl short ↦
      rw short
        (record { valid = i.valid; balance = i.balance; producing = i.producing; consuming = tt })
  | inr there ↦
      let known = subst (ConsumerKnows s.buffer) e i.consuming in
      let less : count ≤ size s.buffer = known (ground arith) in
      rw there (record {
        valid = (read_head_moves count s.buffer i.valid less).0;
        balance = omega (arith, i.balance, read_head_moves count s.buffer i.valid less);
        producing = producer_keeps s.buffer count s.producer i.valid less i.producing;
        consuming = tt;
      })
]

Step-Inv : {s t : Spsc} → Step s t → Inv s → Inv t
Step-Inv (write_compares s e) i = record {
  valid = i.valid;
  balance = i.balance;
  producing = (i.valid, omega arith);
  consuming = i.consuming;
}
Step-Inv (write_sizes s r e) i =
    let known = subst (ProducerKnows s.buffer) e i.producing in
    record {
      valid = i.valid;
      balance = i.balance;
      producing = λ free. ground (
        arith,
        writer_observes s.buffer r i.valid known.0 known.1,
        size-lt-capacity s.buffer i.valid,
      );
      consuming = i.consuming;
    }
Step-Inv (write_finishes s n e) i = finish_write-Inv n s i e
Step-Inv (read_compares s count e h) i = record {
  valid = i.valid;
  balance = i.balance;
  producing = i.producing;
  consuming = (i.valid, omega arith, omega arith);
}
Step-Inv (read_sizes s count w e) i =
    let known = subst (ConsumerKnows s.buffer) e i.consuming in
    record {
      valid = i.valid;
      balance = i.balance;
      producing = i.producing;
      consuming = λ h. omega (arith, reader_observes s.buffer w i.valid known.0 known.1, known);
    }
Step-Inv (read_finishes s count n e) i = finish_read-Inv count n s i e

Reach-Inv : {s t : Spsc} → Inv s → Reach s t → Inv t
Reach-Inv i here = i
Reach-Inv i (next r st) = Step-Inv st (Reach-Inv i r)

unfoldable pub start : ℕ → Spsc
unfolding create
start capacity = record {
  buffer = create capacity;
  producer = Producer.idle;
  consumer = Consumer.idle;
  written = 0;
  consumed = 0;
}

start-Inv : (capacity : ℕ) → 0 < capacity → capacity ≤ max_capacity → Inv (start capacity)
unfolding start create size observe
start-Inv capacity h k = record {
  valid = omega arith;
  balance = ground arith;
  producing = tt;
  consuming = tt;
}

-- Whatever the interleaving of the loads and stores of one writing and one reading thread from an
-- empty ring of capacity 1 to 2 ^ 63, the heads stay inside the capacity, the occupancy that they
-- show is what was written and not yet consumed, and that is always below the capacity: no slot
-- is overwritten before it is read, and none is read before it is written.
pub Reach-balance :
    (capacity : ℕ) {s : Spsc}
    → 0 < capacity
    → capacity ≤ max_capacity
    → Reach (start capacity) s
    → IsValid s.buffer
      × (s.consumed + size s.buffer ≡ s.written)
      × (s.written < s.consumed + s.buffer.capacity)
Reach-balance capacity {s} h k r =
    let i = Reach-Inv (start-Inv capacity h k) r in
    (i.valid, i.balance, omega (arith, i.balance, size-lt-capacity s.buffer i.valid))

-- Where the writer goes round between the comparison and the difference of a `size()` of the
-- reader, the value is the occupancy plus 2 ^ 64 less the capacity: above every threshold up to
-- the capacity, however few items are queued.
pub observe_torn :
    (b : Buffer) (w : ℕ)
    → IsValid b
    → w < b.capacity
    → b.read_idx ≤ w
    → b.write_idx < b.read_idx
    → let n = observe b.capacity w b.read_idx b.write_idx b.read_idx in
      (n + b.capacity ≡ size b + 2 ^ 64) × (b.capacity < n)
unfolding observe
observe_torn b w v h k l = ground (arith, size_cases b v)
