-- ===== src/LidarHandler/Handler/Process.antt =====
-- The packet handler as a queue of scans: what `process_scans` takes.
use ouster_ros.Prelude.{
  ℕ, zero, suc, ◌≤◌, ◌<◌, ◌≡◌, refl, sym, ap, ◌∙◌, ◌⊎◌, inl, inr, Bool, true, false, List, [], ◌∷◌,
  map, drop, length, arith, Bool-cases, ltb, if◌then◌else◌,
}
use ouster_ros.RingBuffer.{Buffer, size, is_empty, read}
use ouster_ros.RingBuffer.Invariant.{IsValid, read-IsValid, is_empty_full_iff}
use ouster_ros.RingBuffer.Refine.{
  update, capacity-read, contents, length-contents, contents-read, contents-update_head,
  contents-head,
}
use ouster_ros.LidarHandler.Sdk.{Sdk}
use ouster_ros.LidarHandler.Handler.{Handler, read_step, prepare, process_scans, lidar_scan_count}
use ouster_ros.LidarHandler.Handler.Queue.{queued, IsReady}

nil_of_length {ℓ} : {A : Type ℓ} (xs : List A) → length xs ≡ 0 → xs ≡ []
nil_of_length [] e = refl
nil_of_length (x ∷ xs) e = absurd (omega arith)

-- One scan is taken, or two from eight on: never more than wait.
pub read_step_lem :
    (b : Buffer)
    → b.capacity ≡ lidar_scan_count
    → (read_step b ≡ (if ltb 7 (size b) then 2 else 1))
      × (1 ≤ read_step b)
      × (0 < size b → read_step b ≤ size b)
unfolding read_step
read_step_lem b e = (ground arith, ground arith, λ h. ground arith)

drop_step {ℓ} :
    {A : Type ℓ} (two : Bool) (xs : List A)
    → drop (if two then 2 else 1) xs ≡ (if two then drop 1 (drop 1 xs) else drop 1 xs)
drop_step true [] = refl
drop_step true (x ∷ xs) = refl
drop_step false xs = refl

module _ (k : Sdk) where
  open k use {Scan}

  emptied : (h : Handler k) → IsReady k h → is_empty h.ring_buffer ≡ true → queued k h ≡ []
  unfolding queued
  emptied h i e =
      nil_of_length (contents h.lidar_scans h.ring_buffer) (
        length-contents h.lidar_scans h.ring_buffer
        ∙ (is_empty_full_iff h.ring_buffer i.ring).0.0 e)

  waiting : (h : Handler k) → IsReady k h → is_empty h.ring_buffer ≡ false → 0 < size h.ring_buffer
  waiting h i e = ground (arith, is_empty_full_iff h.ring_buffer i.ring)

  -- Changing the slot at the read head before it is read does not show behind it.
  taken :
      (slots : ℕ → Scan) (b : Buffer) (s : Scan) (n : ℕ)
      → IsValid b
      → 1 ≤ n
      → n ≤ size b
      → contents (update slots b.read_idx s) (read n b).0 ≡ drop n (contents slots b)
  taken slots b s zero v h l = absurd (omega arith)
  taken slots b s (suc n) v h l =
      contents-read (update slots b.read_idx s) b (suc n) v l
      ∙ ap (drop (suc n)) (contents-update_head slots b s v (omega arith))
      ∙ sym (ap (drop (suc n)) (contents-head slots b (omega arith)))

  pub process_scans-config : (h : Handler k) → (process_scans k h).0.config ≡ h.config
  unfolding process_scans
  process_scans-config h = elim (Bool-cases (is_empty h.ring_buffer)) [
    | inl e ↦ rw e refl
    | inr e ↦ rw e refl
  ]

  -- On an empty queue `process_scans` does nothing. Otherwise it gives the oldest scan, after the
  -- color stage, to every handler in the order of registration, and takes it from the queue, with
  -- the scan behind it if more than seven wait.
  pub process_scans-queued :
      (h : Handler k)
      → IsReady k h
      → let (h', calls) = process_scans k h in
        IsReady k h'
        × (((queued k h ≡ []) × (h' ≡ h) × (calls ≡ []))
            ⊎ ((s : Scan) × (rest : List Scan) × (queued k h ≡ s ∷ rest)
                × (queued k h' ≡ (if ltb 7 (size h.ring_buffer) then drop 1 rest else rest))
                × (calls
                    ≡ map
                        (λ n. record {
                          handler = n;
                          scan = (prepare k h s).1;
                          ts = h.lidar_scan_estimated_ts;
                          msg_ts = h.lidar_scan_estimated_msg_ts;
                        })
                        h.config.lidar_scan_handlers)))
  unfolding process_scans queued
  process_scans-queued h i = elim (Bool-cases (is_empty h.ring_buffer)) [
    | inl no_scan ↦ rw no_scan (i, inl (emptied h i no_scan, refl, refl))
    | inr more ↦ rw more (
      record {
        ring = read-IsValid (read_step h.ring_buffer) h.ring_buffer i.ring;
        slots = capacity-read (read_step h.ring_buffer) h.ring_buffer ∙ i.slots;
      },
      inr (
        h.lidar_scans h.ring_buffer.read_idx,
        drop 1 (queued k h),
        contents-head h.lidar_scans h.ring_buffer (waiting h i more),
        taken h.lidar_scans h.ring_buffer (prepare k h (h.lidar_scans h.ring_buffer.read_idx)).1
              (read_step h.ring_buffer) i.ring step.1 (step.2 (waiting h i more))
            ∙ ap (λ n. drop n (queued k h)) step.0
            ∙ drop_step (ltb 7 (size h.ring_buffer)) (queued k h),
        refl,
      ),
    )
  ]
    where
      step :
          (read_step h.ring_buffer ≡ (if ltb 7 (size h.ring_buffer) then 2 else 1))
          × (1 ≤ read_step h.ring_buffer)
          × (0 < size h.ring_buffer → read_step h.ring_buffer ≤ size h.ring_buffer)
      step = read_step_lem h.ring_buffer i.slots
