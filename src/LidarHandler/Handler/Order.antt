-- ===== src/LidarHandler/Handler/Order.antt =====
-- Any sequence of packets and of calls of `process_scans`: the scans are handed on in the order in
-- which they were accepted.
pub mod Calls
use mathlib.Core.List.{Sublist, append_assoc, append-nil}
use mathlib.Core.List.Sublist
use ouster_ros.Prelude.{
  ℕ, ◌≡◌, refl, sym, ap, subst, ◌∙◌, inl, inr, Bool, true, false, some, some_inj, >>=-eq-some, List,
  [], ◌∷◌, ◌++◌, map, drop, ltb, if◌then◌else◌, ◌&&◌, Bool-cases, arith,
}
use ouster_ros.RingBuffer.{size, is_full, is_empty}
use ouster_ros.LidarHandler.Sdk.{Sdk}
use ouster_ros.LidarHandler.Handler.{
  Config, Handler, Delivery, TimestampMode, ros_time, ptp_1588, sensor_time, estimate,
  lidar_handler, lidar_handler_ros_time, lidar_handler_sensor_time, lidar_handler_sensor_time_ptp,
  has_enough_columns, finish_packet, lidar_packet_accumlator, prepare, process_scans,
}
use ouster_ros.LidarHandler.Handler.Queue.{queued, IsReady, Accepts, lidar_packet_accumlator-queued}
use ouster_ros.LidarHandler.Handler.Order.Calls.{
  first, HandedOn, HandedOn-append, process-HandedOn, accumulator-config,
}
use ouster_ros.LidarHandler.Handler.Process.{process_scans-queued, process_scans-config}

drop-sublist {ℓ} : {A : Type ℓ} (xs : List A) → Sublist (drop 1 xs) xs
drop-sublist [] = Sublist.refl []
drop-sublist (x ∷ xs) = Sublist.cons x (Sublist.refl xs)

first-sublist {ℓ} :
    {A : Type ℓ} (two : Bool) (s : A) (rest : List A)
    → Sublist (first (s ∷ rest) ++ (if two then drop 1 rest else rest)) (s ∷ rest)
first-sublist true s rest = Sublist.cons-cons s (drop-sublist rest)
first-sublist false s rest = Sublist.refl (s ∷ rest)

module _ (k : Sdk) where
  open k use {Packet, Scan}

  -- A history from `h`: the scans that were accepted, those that were the oldest when `process_scans` ran, and all the
  -- calls that it made.
  pub data Trace (h : Handler k)
      : Handler k → List Scan → List Scan → List (Delivery k) → Type 0 where
    start : Trace h h [] [] []
    accept :
        {h1 h2 : Handler k} {acc out : List Scan} {calls : List (Delivery k)} (p : Packet)
        (s : Scan)
        → Trace h h1 acc out calls
        → lidar_packet_accumlator k p h1 ≡ some (h2, true)
        → Accepts k p h1 s
        → Trace h h2 (acc ++ s ∷ []) out calls
    ignore :
        {h1 h2 : Handler k} {acc out : List Scan} {calls : List (Delivery k)} (p : Packet)
        → Trace h h1 acc out calls
        → lidar_packet_accumlator k p h1 ≡ some (h2, false)
        → Trace h h2 acc out calls
    process :
        {h1 : Handler k} {acc out : List Scan} {calls : List (Delivery k)}
        → Trace h h1 acc out calls
        → Trace h
            (process_scans k h1).0
            acc
            (out ++ first (queued k h1))
            (calls ++ (process_scans k h1).1)

  Trace-config :
      {h h' : Handler k} {acc out : List Scan} {calls : List (Delivery k)}
      → Trace h h' acc out calls
      → h'.config ≡ h.config
  Trace-config start = refl
  Trace-config {h' = h'} (accept {h1 = h1} p s t e a) =
      accumulator-config k p h1 h' true e ∙ Trace-config t
  Trace-config {h' = h'} (ignore {h1 = h1} p t e) =
      accumulator-config k p h1 h' false e ∙ Trace-config t
  Trace-config (process {h1 = h1} t) = process_scans-config k h1 ∙ Trace-config t

  accepted_once :
      (p : Packet) (h : Handler k) (s t : Scan) → Accepts k p h s → Accepts k p h t → s ≡ t
  accepted_once p h s t a b =
      ap (λ (o : Handler k × Scan × Bool). o.1) (some_inj (sym a.complete ∙ b.complete))

  Trace-IsReady :
      {h h' : Handler k} {acc out : List Scan} {calls : List (Delivery k)}
      → IsReady k h
      → Trace h h' acc out calls
      → IsReady k h'
  Trace-IsReady i start = i
  Trace-IsReady i (accept p s t e a) =
      (lidar_packet_accumlator-queued k p _ (Trace-IsReady i t) e).0
  Trace-IsReady i (ignore p t e) = (lidar_packet_accumlator-queued k p _ (Trace-IsReady i t) e).0
  Trace-IsReady i (process t) = (process_scans-queued k _ (Trace-IsReady i t)).0

  -- One call moves the first scan from the queue to the handlers, and may lose the next one.
  process_step :
      (h : Handler k)
      → IsReady k h
      → Sublist (first (queued k h) ++ queued k (process_scans k h).0) (queued k h)
  process_step h i =
      let (_, case) = process_scans-queued k h i in
      elim case [
        | inl (nothing, same, _) ↦ rw (same, nothing) (Sublist.refl [])
        | inr (s, rest, q, q', _) ↦ rw (q', q) (first-sublist (ltb 7 (size h.ring_buffer)) s rest)
      ]

  accept_step :
      (p : Packet) (h h2 : Handler k) (s : Scan)
      → IsReady k h
      → lidar_packet_accumlator k p h ≡ some (h2, true)
      → Accepts k p h s
      → queued k h2 ≡ queued k h ++ s ∷ []
  accept_step p h h2 s i e a =
      let (_, case) = lidar_packet_accumlator-queued k p h i e in
      elim case [
        | inl (_, t, b, more) ↦ more ∙ ap (λ u. queued k h ++ u ∷ []) (accepted_once p h t s b a)
        | inr (no_scan, _) ↦ cc
      ]

  ignore_step :
      (p : Packet) (h h2 : Handler k)
      → IsReady k h
      → lidar_packet_accumlator k p h ≡ some (h2, false)
      → queued k h2 ≡ queued k h
  ignore_step p h h2 i e =
      let (_, case) = lidar_packet_accumlator-queued k p h i e in
      elim case [ inl (yea, _, _, _) ↦ cc | inr (_, same) ↦ same ]

  waiting-sublist :
      {h h' : Handler k} {acc out : List Scan} {calls : List (Delivery k)}
      → IsReady k h
      → Trace h h' acc out calls
      → Sublist (out ++ queued k h') (queued k h ++ acc)
  waiting-sublist {h} i start = subst (Sublist (queued k h)) (sym (append-nil _)) (Sublist.refl _)
  waiting-sublist {h} {h'} i (accept {h1 = h1} {acc = acc} {out = out} p s t e a) =
      subst (λ l. Sublist (out ++ l) (queued k h ++ (acc ++ s ∷ [])))
        (sym (accept_step p h1 h' s (Trace-IsReady i t) e a))
        (rw (← append_assoc out (queued k h1) (s ∷ []), ← append_assoc (queued k h) acc (s ∷ []))
          (Sublist.append (waiting-sublist i t) (Sublist.refl (s ∷ []))))
  waiting-sublist {h} {h'} i (ignore {h1 = h1} {acc = acc} {out = out} p t e) =
      subst (λ l. Sublist (out ++ l) (queued k h ++ acc))
        (sym (ignore_step p h1 h' (Trace-IsReady i t) e)) (waiting-sublist i t)
  waiting-sublist i (process {h1 = h1} {out = out} t) =
      Sublist.trans
        (rw (append_assoc out (first (queued k h1)) _)
          (Sublist.append (Sublist.refl out) (process_step h1 (Trace-IsReady i t))))
        (waiting-sublist i t)

  called-HandedOn :
      {h h' : Handler k} {acc out : List Scan} {calls : List (Delivery k)}
      → IsReady k h
      → Trace h h' acc out calls
      → HandedOn k h.config out calls
  unfolding HandedOn
  called-HandedOn i start = refl
  called-HandedOn i (accept p s t e a) = called-HandedOn i t
  called-HandedOn i (ignore p t e) = called-HandedOn i t
  called-HandedOn {h} i (process {h1 = h1} {out = out} {calls = calls} t) =
      HandedOn-append k h.config out (first (queued k h1)) calls (process_scans k h1).1
        (called-HandedOn i t) (process-HandedOn k h.config h1 (Trace-IsReady i t) (Trace-config t))

  -- From a ready handler, whatever packets arrive and however often `process_scans` runs, the calls that it makes are
  -- exactly those that hand a list of scans on, scan by scan: each scan, as it is after the color stage, goes to every
  -- registered handler in the order of registration, while it is the oldest that waits. These scans, followed by those
  -- that still wait, are some of those that waited at the start and were accepted since, in the same order: none
  -- twice, none out of turn.
  pub Trace-sublist :
      {h h' : Handler k} {acc out : List Scan} {calls : List (Delivery k)}
      → IsReady k h
      → Trace h h' acc out calls
      → HandedOn k h.config out calls × Sublist (out ++ queued k h') (queued k h ++ acc)
  Trace-sublist i t = (called-HandedOn i t, waiting-sublist i t)
