-- ===== src/LidarHandler/Drain.antt =====
-- src/lidar_packet_handler.h: the turns of the thread that processes scans.
use mathlib.Core.List.{map-append}
use ouster_ros.Prelude.{
  ℕ, zero, suc, ◌-◌, ◌≤◌, ◌≡◌, refl, sym, subst, ap, ap₂, ◌∙◌, List, [], ◌∷◌, ◌++◌, map, drop,
  length, length-drop, ltb, if◌then◌else◌, arith, Bool-cases, inl, inr,
}
use ouster_ros.RingBuffer.{size}
use ouster_ros.RingBuffer.Refine.{length-contents}
use ouster_ros.LidarHandler.Sdk.{Sdk}
use ouster_ros.LidarHandler.Handler.{Config, Handler, Delivery, process_scans}
use ouster_ros.LidarHandler.Handler.Queue.{queued, IsReady}
use ouster_ros.LidarHandler.Handler.Process.{process_scans-queued, process_scans-config}
use ouster_ros.LidarHandler.Create.{processing_thread}

-- The scans that are handed on of so many that wait: all, but for one behind each that is taken while more than seven
-- wait. The first number is at least the second.
unfoldable pub handed_on : ℕ → ℕ → ℕ
handed_on zero waiting = 0
handed_on (suc n) zero = 0
handed_on (suc n) (suc waiting) =
    suc (handed_on n (if ltb 7 (suc waiting) then waiting - 1 else waiting))

unfoldable pub times {ℓ} : {A : Type ℓ} → ℕ → List A → List A
times zero xs = []
times (suc n) xs = xs ++ times n xs

handed_on_none : (n : ℕ) → handed_on n 0 ≡ 0
unfolding handed_on
handed_on_none zero = refl
handed_on_none (suc n) = refl

nil_of_length {ℓ} : {A : Type ℓ} (xs : List A) → length xs ≤ 0 → xs ≡ []
nil_of_length [] le = refl
nil_of_length (x ∷ xs) le = absurd (omega arith)

shorter :
    (rest n m : ℕ) → m ≡ (if ltb 7 (suc rest) then rest - 1 else rest) → suc rest ≤ suc n → m ≤ n
shorter rest n m e le = ground arith

module _ (k : Sdk) where
  size-queued : (h : Handler k) → length (queued k h) ≡ size h.ring_buffer
  unfolding queued
  size-queued h = length-contents h.lidar_scans h.ring_buffer

  -- Each handler is called once, in order.
  called-handlers :
      (call : ℕ → Delivery k)
      → ((n : ℕ) → (call n).handler ≡ n)
      → (handlers : List ℕ) → map (λ d. d.handler) (map call handlers) ≡ handlers
  called-handlers call same [] = refl
  called-handlers call same (n ∷ handlers) =
      ap₂ (λ m ms. m ∷ ms) (same n) (called-handlers call same handlers)

  length-rest :
      (h h' : Handler k) (s : k.Scan) (rest : List k.Scan)
      → queued k h ≡ s ∷ rest
      → queued k h' ≡ (if ltb 7 (size h.ring_buffer) then drop 1 rest else rest)
      → length (queued k h') ≡ (if ltb 7 (suc (length rest)) then length rest - 1 else length rest)
  length-rest h h' s rest q q' =
      let waiting : size h.ring_buffer ≡ suc (length rest) = sym (size-queued h) ∙ ap length q in
      let taken : queued k h' ≡ (if ltb 7 (suc (length rest)) then drop 1 rest else rest) =
        q' ∙ ap (λ m. if ltb 7 m then drop 1 rest else rest) waiting in
      elim (Bool-cases (ltb 7 (suc (length rest)))) [
        | inl e ↦ rw e (ap length taken ∙ rw e (length-drop 1 rest))
        | inr e ↦ rw e (ap length taken ∙ rw e)
      ]

  unfoldable pub IsDrained : ℕ → Handler k → Type 0
  IsDrained n h =
      (queued k (processing_thread k n h).0 ≡ [])
      × (map (λ d. d.handler) (processing_thread k n h).1
          ≡ times (handed_on n (length (queued k h))) h.config.lidar_scan_handlers)

  drained_empty :
      (n : ℕ) (h : Handler k)
      → queued k h ≡ []
      → times (handed_on n (length (queued k h))) h.config.lidar_scan_handlers ≡ []
  drained_empty n h e =
      ap (λ q. times (handed_on n (length q)) h.config.lidar_scan_handlers) e
      ∙ ap (λ m. times m h.config.lidar_scan_handlers) (handed_on_none n)
      ∙ unfold times in refl

  -- One turn that finds a scan, and the turns after it.
  turn :
      (n : ℕ) (h : Handler k) (s : k.Scan) (rest : List k.Scan)
      → queued k h ≡ s ∷ rest
      → length (queued k (process_scans k h).0)
        ≡ (if ltb 7 (suc (length rest)) then length rest - 1 else length rest)
      → map (λ d. d.handler) (process_scans k h).1 ≡ h.config.lidar_scan_handlers
      → map (λ d. d.handler) (processing_thread k n (process_scans k h).0).1
        ≡ times
            (handed_on n (length (queued k (process_scans k h).0)))
            (process_scans k h).0.config.lidar_scan_handlers
      → map
          (λ d. d.handler)
          ((process_scans k h).1 ++ (processing_thread k n (process_scans k h).0).1)
        ≡ times (handed_on (suc n) (length (queued k h))) h.config.lidar_scan_handlers
  turn n h s rest q left calls more =
      let handlers = h.config.lidar_scan_handlers in
      map-append (λ (d : Delivery k). d.handler) (process_scans k h).1
        (processing_thread k n (process_scans k h).0).1
      ∙ ap₂ (λ xs ys. xs ++ ys) calls
          (more
            ∙ ap₂ (λ m (c : Config k). times (handed_on n m) c.lidar_scan_handlers) left
                (process_scans-config k h))
      ∙ sym (
          ap (λ l. times (handed_on (suc n) (length l)) handlers) q
          ∙ unfold handed_on times in refl)

  -- As many turns of the processing thread as scans wait empty the queue, if no packet comes in between: each scan that
  -- is handed on goes to every registered handler once, in the order of registration, and while more than seven wait
  -- each turn drops one more.
  pub processing_thread-IsDrained :
      (n : ℕ) (h : Handler k) → IsReady k h → length (queued k h) ≤ n → IsDrained n h
  unfolding IsDrained processing_thread
  processing_thread-IsDrained zero h i le =
      (nil_of_length (queued k h) le, sym (drained_empty 0 h (nil_of_length (queued k h) le)))
  processing_thread-IsDrained (suc n) h i le =
      let (i', case) = process_scans-queued k h i in
      let h' : Handler k = (process_scans k h).0 in
      elim case [
        | inl (nothing, same, none_called) ↦
            let still : queued k h' ≡ [] = ap (queued k) same ∙ nothing in
            let (empty, more) =
              processing_thread-IsDrained n h' i' (omega (arith, ap length still)) in
            (
              empty,
              ap
                    (λ calls.
                      map (λ (d : Delivery k). d.handler) (calls ++ (processing_thread k n h').1))
                    none_called
                  ∙ more
                  ∙ drained_empty n h' still
                  ∙ sym (drained_empty (suc n) h nothing),
            )
        | inr (s, rest, q, q', calls) ↦
            let left = length-rest h h' s rest q q' in
            let (empty, more) = processing_thread-IsDrained n h' i' (
              shorter (length rest) n (length (queued k h')) left
                (subst (λ l. length l ≤ suc n) q le)) in
            (
              empty,
              turn n h s rest q left
                  (ap (map (λ (d : Delivery k). d.handler)) calls
                    ∙ called-handlers _ (λ m. refl) h.config.lidar_scan_handlers)
                  more,
            )
      ]
