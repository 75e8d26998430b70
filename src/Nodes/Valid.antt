-- ===== src/Nodes/Valid.antt =====
-- The options of the processors that `create_handlers` makes.
use ouster_ros.Prelude.{
  ℕ, ◌<◌, ◌≡◌, refl, subst, ap, ◌∙◌, Bool, true, false, not, ◌&&◌, ◌||◌, none, some, List, [], ◌∷◌,
  ◌++◌, if◌then◌else◌, arith, Bool-cases, inl, inr,
}
use ouster_ros.Prelude.Int.{pos}
use ouster_ros.Float.{Float}
use ouster_ros.Ros.{Params, param}
use ouster_ros.OsSensor.Config.Valid.{IsPower, one_of-powers}
use ouster_ros.Messages.Tokens.{check_token}
use ouster_ros.Nodes.Handlers.{
  codes, Found, Processor, point_cloud, laser_scan, image, Handlers, clamp_ring, cloud_options,
  create_handlers,
}
use ouster_ros.Nodes.Created.{
  is_created, clamp_ring_lem, wanted, are_valid_options, wants_lidar, wanted_handlers, is_ratio,
  create_handlers_lem,
}

-- The options of a processor are in their ranges, for a sensor with so many beams.
unfoldable pub IsValid : ℕ → Processor → Type 0
IsValid beams (point_cloud o) = IsPower 4 o.v_reduction
IsValid beams (laser_scan ring) = (n : ℕ) × (ring ≡ pos n) × (n < beams)
IsValid beams (image mask) = Unit

unfoldable pub AllValid : ℕ → List Processor → Type 0
AllValid beams [] = Unit
AllValid beams (q ∷ qs) = IsValid beams q × AllValid beams qs

AllValid-append :
    (beams : ℕ) (xs ys : List Processor)
    → AllValid beams xs
    → AllValid beams ys
    → AllValid beams (xs ++ ys)
unfolding AllValid
AllValid-append beams [] ys h k = k
AllValid-append beams (x ∷ xs) ys (first, h) k = (first, AllValid-append beams xs ys h k)

-- A processor that is made only where a token asks for it.
AllValid-asked :
    (beams : ℕ) (asked : Bool) (q : Processor)
    → (asked ≡ true → IsValid beams q)
    → AllValid beams (if asked then q ∷ [] else [])
unfolding AllValid
AllValid-asked beams true q h = (h refl, tt)
AllValid-asked beams false q h = tt

module _ (k : Float) (p : Params (k.F)) (found : Found) (beams : ℕ) where
  options-IsPower :
      are_valid_options k p found beams ≡ true → IsPower 4 (cloud_options k p).v_reduction
  unfolding are_valid_options
  options-IsPower h = one_of-powers 0 4 (param p.int "v_reduction" (pos 1)) (ground arith)

  wanted-AllValid :
      (images : Bool) (tokens : List (List ℕ))
      → 0 < beams
      → (not (check_token tokens (codes "PCL")) || are_valid_options k p found beams) ≡ true
      → AllValid beams (wanted k p found beams images tokens)
  unfolding wanted IsValid
  wanted-AllValid images tokens some_beams h =
      let clouds = check_token tokens (codes "PCL") in
      let scans = check_token tokens (codes "SCAN") in
      let imgs = images && check_token tokens (codes "IMG") in
      let cloud = point_cloud (cloud_options k p) in
      let scan = laser_scan (clamp_ring beams (param p.int "scan_ring" (pos 0))) in
      let img = image (param p.text "mask_path" "") in
      let (n, same, lt, rest) = clamp_ring_lem beams (param p.int "scan_ring" (pos 0)) some_beams in
      AllValid-append beams (if clouds then cloud ∷ [] else [])
        ((if scans then scan ∷ [] else []) ++ (if imgs then img ∷ [] else []))
        (AllValid-asked beams clouds cloud (λ e. options-IsPower (ground (arith, h, e))))
        (AllValid-append beams (if scans then scan ∷ [] else []) (if imgs then img ∷ [] else [])
          (AllValid-asked beams scans scan (λ e. (n, same, lt)))
          (AllValid-asked beams imgs img (λ e. tt)))

  made_processors :
      (images : Bool) (tokens : List (List ℕ)) (h : Handlers (k.F)) (ps : List Processor)
      (ratio : k.F)
      → h.lidar_packet_handler ≡ none
      → (wanted_handlers k p found beams images tokens h).lidar_packet_handler ≡ some (ps, ratio)
      → wanted k p found beams images tokens ≡ ps
  unfolding wanted_handlers
  made_processors images tokens h ps ratio fresh lidar =
      elim (Bool-cases (wants_lidar k p found beams images tokens)) [
        | inl e ↦ ground (arith, fresh, lidar, e)
        | inr e ↦ ground (arith, fresh, lidar, e)
      ]

  created_options :
      (images : Bool) (tokens : List (List ℕ))
      → is_created k p found beams images tokens ≡ true
      → (not (check_token tokens (codes "PCL")) || are_valid_options k p found beams) ≡ true
  unfolding is_created
  created_options images tokens h = ground (arith, h)

  -- Where `create_handlers` does not throw, for a sensor with beams and a node that had no lidar packet handler, the
  -- processors of the new one are valid: the row step is a power of two up to 16, and the ring of the laser scan is
  -- one of the beams, whatever the parameters ask for.
  pub create_handlers-AllValid :
      (images : Bool) (tokens : List (List ℕ)) (h h' : Handlers (k.F)) (ps : List Processor)
      (ratio : k.F)
      → 0 < beams
      → h.lidar_packet_handler ≡ none
      → create_handlers k p found beams images tokens h ≡ (h', false)
      → h'.lidar_packet_handler ≡ some (ps, ratio)
      → AllValid beams ps
  create_handlers-AllValid images tokens h h' ps ratio some_beams fresh made lidar =
      let law = create_handlers_lem k p found beams images tokens h in
      let accepted = is_ratio k p found beams && is_created k p found beams images tokens in
      elim (Bool-cases accepted) [
        | inr e ↦ ground (arith, law, made, e)
        | inl e ↦
            let same : wanted_handlers k p found beams images tokens h ≡ h' =
              ground (arith, law, made, e) in
            subst (λ qs. AllValid beams qs) {x = wanted k p found beams images tokens} {y = ps}
              (made_processors images tokens h ps ratio fresh
                (ap (λ x. x.lidar_packet_handler) same ∙ lidar))
              (wanted-AllValid images tokens some_beams
                (created_options images tokens (ground (arith, e))))
      ]
