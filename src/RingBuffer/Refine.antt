-- ===== src/RingBuffer/Refine.antt =====
-- A ring over `capacity` slots behaves as a bounded queue: the client fills the slot at
-- `write_head()` and then calls `write()`, reads the slot at `read_head()` and then calls `read()`.
use native.Mathlib.Nat.{mod-add-mod, mod-eq_of_lt}
use ouster_ros.Prelude.{
  ℕ, zero, suc, ◌+◌, ◌-◌, ◌%◌, ◌≤◌, ◌<◌, ◌≡◌, refl, sym, ap, ap₂, ◌∙◌, ◌≢◌, inl, inr, List, [], ◌∷◌,
  ◌++◌, arith, ◌==◌, if◌then◌else◌, length, drop,
}
use ouster_ros.RingBuffer.{Buffer, size, write, read}
use ouster_ros.RingBuffer.Invariant.{
  IsValid, size-lt-capacity, size_cases, read_lem, write_lem, no_wrap, step_cases,
}
use native.Mathlib.Numerals.{add-one}

module _ {ℓ} {A : Type ℓ} where
  -- The vector that the ring indexes. `IsValid` keeps both heads inside it.
  unfoldable pub update : (ℕ → A) → ℕ → A → ℕ → A
  update slots i a j = if j == i then a else slots j

  pub update_self : (s : ℕ → A) (i : ℕ) (a : A) → update s i a i ≡ a
  unfolding update
  update_self s i a = ground arith

  update_ne : (s : ℕ → A) (i j : ℕ) (a : A) → j ≢ i → update s i a j ≡ s j
  unfolding update
  update_ne s i j a h = ground arith

  -- The `n` items from slot `h` on, going round at `cap`.
  window : (ℕ → A) → ℕ → ℕ → ℕ → List A
  window s cap h zero = []
  window s cap h (suc n) = s h ∷ window s cap ((h + 1) % cap) n

  -- The items that a reader still has to see, oldest first.
  unfoldable pub contents : (ℕ → A) → Buffer → List A
  unfolding window
  contents s b = window s b.capacity b.read_idx (size b)

  length-window : (s : ℕ → A) (cap h n : ℕ) → length (window s cap h n) ≡ n
  unfolding window
  length-window s cap h zero = refl
  length-window s cap h (suc n) = ap suc (length-window s cap ((h + 1) % cap) n)

  pub length-contents : (s : ℕ → A) (b : Buffer) → length (contents s b) ≡ size b
  unfolding contents
  length-contents s b = length-window s b.capacity b.read_idx (size b)

-- Fewer than `cap` steps round the ring do not come back to the start.
turn-ne : (cap h k : ℕ) → h < cap → suc k < cap → (h + suc k) % cap ≢ h
turn-ne cap h k hh hk e = omega (arith, step_cases (h + suc k) cap (omega arith))

turn_suc : (cap h n : ℕ) → (h + suc n) % cap ≡ ((h + 1) % cap + n) % cap
turn_suc cap h n = rw mod-add-mod (ap (λ k. k % cap) (omega arith))

whole_turn : (cap h : ℕ) → h < cap → h ≡ ((h + 1) % cap + (cap - 1)) % cap
whole_turn cap h hh =
    sym (sym (turn_suc cap h (cap - 1)) ∙ ap (λ k. k % cap) (omega arith) ∙ add_mod cap h hh)
  where
    add_mod : (cap h : ℕ) → h < cap → (h + cap) % cap ≡ h
    add_mod cap h hh = omega (arith, step_cases (h + cap) cap (omega arith))

module _ {ℓ} {A : Type ℓ} where
  -- A write to a slot past a window leaves the window as it is.
  window-update :
      (s : ℕ → A) (cap h n m i : ℕ) (a : A)
      → h < cap
      → n ≤ m
      → m < cap
      → i ≡ (h + m) % cap
      → window (update s i a) cap h n ≡ window s cap h n
  unfolding window
  window-update s cap h zero m i a hh le hm e = refl
  window-update s cap h (suc n) zero i a hh le hm e = absurd (omega arith)
  window-update s cap h (suc n) (suc m) i a hh le hm e =
      ap₂ ◌∷◌ (update_ne s i h a (λ p. turn-ne cap h m hh hm (sym (p ∙ e)))) (
        window-update s cap ((h + 1) % cap) n m i a (omega arith) (omega arith) (omega arith)
          (e ∙ turn_suc cap h m))

  window-suc :
      (s : ℕ → A) (cap h n : ℕ)
      → h < cap
      → window s cap h (suc n) ≡ window s cap h n ++ s ((h + n) % cap) ∷ []
  unfolding window
  window-suc s cap h zero hh =
      ap (λ k. s k ∷ []) (sym (ap (λ k. k % cap) (omega arith) ∙ mod-eq_of_lt hh))
  window-suc s cap h (suc n) hh =
      ap (λ t. s h ∷ t)
        (window-suc s cap ((h + 1) % cap) n (omega arith)
          ∙ ap (λ k. window s cap ((h + 1) % cap) n ++ s k ∷ []) (sym (turn_suc cap h n)))

  drop-window :
      (s : ℕ → A) (cap h n k m : ℕ)
      → h < cap
      → m ≡ k + n
      → drop k (window s cap h m) ≡ window s cap ((h + k) % cap) n
  unfolding window
  drop-window s cap h n zero m hh e =
      ap₂ (window s cap) (sym (ap (λ k. k % cap) (omega arith) ∙ mod-eq_of_lt hh)) (omega arith)
  drop-window s cap h n (suc k) zero hh e = absurd (omega arith)
  drop-window s cap h n (suc k) (suc m) hh e =
      drop-window s cap ((h + 1) % cap) n k m (omega arith) (omega arith)
      ∙ ap (λ t. window s cap t n) (sym (turn_suc cap h k))

-- The slot that `write_head()` selects is the end of the window.
write_slot : (b : Buffer) → IsValid b → (b.read_idx + size b) % b.capacity ≡ b.write_idx
write_slot b v = omega (
  arith,
  size_cases b v,
  step_cases (b.read_idx + size b) b.capacity (omega (arith, size-lt-capacity b v)),
  size-lt-capacity b v,
)

pub capacity-write : (n : ℕ) (b : Buffer) → (write n b).0.capacity ≡ b.capacity
unfolding write
capacity-write n b = ground arith

read_idx-write : (n : ℕ) (b : Buffer) → (write n b).0.read_idx ≡ b.read_idx
unfolding write
read_idx-write n b = ground arith

pub capacity-read : (n : ℕ) (b : Buffer) → (read n b).0.capacity ≡ b.capacity
unfolding read
capacity-read n b = ground arith

read_idx-read :
    (n : ℕ) (b : Buffer)
    → IsValid b
    → n ≤ size b
    → (read n b).0.read_idx ≡ (b.read_idx + n) % b.capacity
unfolding read
read_idx-read n b v h = ground (arith, size-lt-capacity b v, no_wrap (b.read_idx + n))

module _ {ℓ} {A : Type ℓ} where
  -- Filling the slot at `write_head()` leaves the queued items as they are.
  pub contents-update :
      (s : ℕ → A) (b : Buffer) (a : A)
      → IsValid b
      → contents (update s b.write_idx a) b ≡ contents s b
  unfolding contents
  contents-update s b a v =
      window-update s b.capacity b.read_idx (size b) (size b) b.write_idx a v.read_in (omega arith)
        (size-lt-capacity b v) (sym (write_slot b v))

  -- A `write()` with room queues what stands in the slot at `write_head()`.
  pub contents-write :
      (s : ℕ → A) (b : Buffer)
      → IsValid b
      → size b + 1 < b.capacity
      → contents s (write 1 b).0 ≡ contents s b ++ s b.write_idx ∷ []
  unfolding contents
  contents-write s b v room = elim (write_lem 1 b v) [
    | inl (_, _, _, grown) ↦ rw (
      capacity-write 1 b,
      read_idx-write 1 b,
      grown,
      add-one (size b),
      window-suc s b.capacity b.read_idx (size b) v.read_in,
      write_slot b v,
    )
    | inr (full, _) ↦ absurd (omega arith)
  ]

  -- A `read(count)` of what is there drops the `count` oldest items.
  pub contents-read :
      (s : ℕ → A) (b : Buffer) (n : ℕ)
      → IsValid b
      → n ≤ size b
      → contents s (read n b).0 ≡ drop n (contents s b)
  unfolding contents
  contents-read s b n v h = elim (read_lem n b v) [
    | inl (_, _, _, less) ↦
        rw (capacity-read n b, read_idx-read n b v h)
          (sym (
            drop-window s b.capacity b.read_idx (size (read n b).0) n (size b) v.read_in
              (omega arith)))
    | inr (short, _) ↦ absurd (omega arith)
  ]

  -- Changing the oldest item in its slot changes the head of the queue alone.
  pub contents-update_head :
      (s : ℕ → A) (b : Buffer) (a : A)
      → IsValid b
      → 0 < size b
      → contents (update s b.read_idx a) b ≡ a ∷ drop 1 (contents s b)
  unfolding contents window
  contents-update_head s b a v h = rw (size_suc) (ap₂ ◌∷◌ (update_self s b.read_idx a) later)
    where
      size_suc : size b ≡ suc (size b - 1)
      size_suc = omega arith

      later :
          window (update s b.read_idx a) b.capacity ((b.read_idx + 1) % b.capacity) (size b - 1)
          ≡ window s b.capacity ((b.read_idx + 1) % b.capacity) (size b - 1)
      later =
          window-update s b.capacity ((b.read_idx + 1) % b.capacity) (size b - 1) (b.capacity - 1)
            b.read_idx a (omega arith) (omega (arith, size-lt-capacity b v)) (omega arith)
            (whole_turn b.capacity b.read_idx v.read_in)

  pub contents-head :
      (s : ℕ → A) (b : Buffer) → 0 < size b → contents s b ≡ s b.read_idx ∷ drop 1 (contents s b)
  unfolding contents window
  contents-head s b h = rw size_suc
    where
      size_suc : size b ≡ suc (size b - 1)
      size_suc = omega arith
