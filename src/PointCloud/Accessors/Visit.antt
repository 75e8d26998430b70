-- ===== src/PointCloud/Accessors/Visit.antt =====
-- `apply` and `enumerate` over a range of elements.
use ouster_ros.Prelude.{
  ℕ, zero, suc, ◌+◌, ◌-◌, ◌<◌, ◌≤◌, ◌≡◌, refl, sym, subst, some_inj, ap, ◌∙◌, Bool, true, false,
  not, ◌&&◌, none, some, List, [], ◌∷◌, length, get_elem?, take, drop, if◌then◌else◌, arith,
  Bool-cases, Option-cases, leb, leb→le, ==_iff, inl, inr,
}
use ouster_ros.PointTypes.{Member}
use ouster_ros.PointTypes.Layout.{index, same, mem}
use ouster_ros.PointCloud.Factory.{
  UdpProfileLidar, Source, PointType, Target, ok, create_point_cloud_processor,
}
use ouster_ros.PointCloud.Accessors.{size, get, apply_next, enumerate_next, apply, enumerate}
use ouster_ros.PointCloud.Accessors.Elements.{
  elements, get-elements, size-elements, get_elem?-lt, all_differ, and_right, made-all_differ,
}

-- An operation on each element of a list with its index, in order.
unfoldable pub visit_elements : {S : Type 0} → (ℕ → Member → S → S) → ℕ → List Member → S → S
visit_elements op i [] s = s
visit_elements op i (m ∷ ms) s = visit_elements op (suc i) ms (op i m s)

drop-get_elem? :
    (ms : List Member) (i : ℕ) (m : Member)
    → get_elem? ms i ≡ some m
    → drop i ms ≡ m ∷ drop (suc i) ms
drop-get_elem? [] i m h = cc
drop-get_elem? (n ∷ ms) zero m h = ap (λ q. q ∷ ms) (some_inj h)
drop-get_elem? (n ∷ ms) (suc i) m h = drop-get_elem? ms i m h

module _ {S : Type 0} (t : Target) where
  enumerate_next-get :
      (op : ℕ → Member → S → S) (n i : ℕ) (s : S) (m : Member)
      → get t i ≡ some m
      → enumerate_next t op (suc n) i s ≡ enumerate_next t op n (suc i) (op i m s)
  unfolding enumerate_next
  enumerate_next-get op n i s m h = rw (h, enumerate_next)

  enumerate_next-visit :
      (op : ℕ → Member → S → S) (n i : ℕ) (s : S)
      → i + n ≤ length (elements t)
      → enumerate_next t op n i s ≡ some (visit_elements op i (take n (drop i (elements t))) s)
  unfolding visit_elements
  enumerate_next-visit op zero i s h = unfold enumerate_next in refl
  enumerate_next-visit op (suc n) i s h = elim (Option-cases (get_elem? (elements t) i)) [
    | inl e ↦ absurd ((get_elem?-lt (elements t) i).1 (omega arith) e)
    | inr (m, e) ↦
        enumerate_next-get op n i s m (get-elements t i ∙ e)
        ∙ enumerate_next-visit op n (suc i) (op i m s) (omega arith)
        ∙ ap (λ ms. some (visit_elements op i (take (suc n) ms) s))
            (sym (drop-get_elem? (elements t) i m e))
  ]

  -- Past the last element an accessor is missing.
  enumerate_next-none :
      (op : ℕ → Member → S → S) (n i : ℕ) (s : S)
      → length (elements t) < i + n
      → i ≤ length (elements t)
      → enumerate_next t op n i s ≡ none
  enumerate_next-none op zero i s h le = absurd (omega arith)
  enumerate_next-none op (suc n) i s h le = elim (Option-cases (get_elem? (elements t) i)) [
    | inl e ↦ missing (get-elements t i ∙ e)
    | inr (m, e) ↦
        enumerate_next-get op n i s m (get-elements t i ∙ e)
        ∙ enumerate_next-none op n (suc i) (op i m s) (omega arith)
            (omega (arith, (get_elem?-lt (elements t) i).0 (λ no. cc)))
  ]
    where
      missing : get t i ≡ none → enumerate_next t op (suc n) i s ≡ none
      missing e = unfold enumerate_next in rw (e, enumerate_next)

  apply_next-enumerate_next :
      (op : Member → S → S) (n i : ℕ) (s : S)
      → apply_next t op n i s ≡ enumerate_next t (λ j m x. op m x) n i s
  unfolding apply_next enumerate_next
  apply_next-enumerate_next op zero i s = refl
  apply_next-enumerate_next op (suc n) i s = elim (Option-cases (get t i)) [
    | inl e ↦ rw (e, apply_next, enumerate_next)
    | inr (m, e) ↦
        rw (e, apply_next) (apply_next-enumerate_next op n (suc i) (op m s))
        ∙ sym (enumerate_next-get (λ j m x. op m x) n i s m e)
  ]

  -- `enumerate` from an index up to a bound compiles exactly where the bound is at most the number of elements, for an
  -- index above neither; then it calls the operation on each element of the range with its index, in order, and `apply`
  -- does the same without the index.
  pub enumerate-visit :
      (op : ℕ → Member → S → S) (op' : Member → S → S) (i n : ℕ) (s : S)
      → i ≤ n
      → i ≤ size t
      → let range = take (n - i) (drop i (elements t)) in
        (enumerate t i n op s
          ≡ (if leb n (size t) then some (visit_elements op i range s) else none))
        × (apply t i n op' s
            ≡ (if leb n (size t) then some (visit_elements (λ j m x. op' m x) i range s) else none))
  unfolding enumerate apply
  enumerate-visit op op' i n s le start =
      let op'' : ℕ → Member → S → S = λ j m x. op' m x in
      (
        enumerate_to op i n s le start,
        apply_next-enumerate_next op' (n - i) i s ∙ enumerate_to op'' i n s le start,
      )
    where
      enumerate_to :
          (op : ℕ → Member → S → S) (i n : ℕ) (s : S)
          → i ≤ n
          → i ≤ size t
          → enumerate_next t op (n - i) i s ≡ (
              if leb n (size t)
              then some (visit_elements op i (take (n - i) (drop i (elements t))) s)
              else none)
      enumerate_to op i n s le start = elim (Bool-cases (leb n (size t))) [
        | inl e ↦ rw e (
            enumerate_next-visit op (n - i) i s
              (omega (arith, size-elements t, leb→le n (size t) e)))
        | inr e ↦ rw e (
            enumerate_next-none op (n - i) i s
              (let lt : size t < n = ground (arith, e) in omega (arith, size-elements t, lt))
              (omega (arith, size-elements t)))
      ]

-- A write through the reference to an element.
abbrev pub write : {A : Type 0} → Member → A → (Member → A) → Member → A
write m v pt n = if same m n then v else pt n

module _ {A : Type 0} (v : ℕ → A) where
  visit_elements-write_other :
      (ms : List Member) (i : ℕ) (pt : Member → A) (m : Member)
      → mem m ms ≡ false
      → visit_elements (λ j n x. write n (v j) x) i ms pt m ≡ pt m
  unfolding visit_elements
  visit_elements-write_other [] i pt m h = refl
  visit_elements-write_other (n ∷ ms) i pt m h =
      let (other, rest) = parted (same n m) (mem m ms) h in
      visit_elements-write_other ms (suc i) (write n (v i) pt) m rest
      ∙ ap (λ c. if c then v i else pt m) other
    where
      parted : (c d : Bool) → (if c then true else d) ≡ false → (c ≡ false) × (d ≡ false)
      parted true d h = cc
      parted false d h = (refl, h)

  visit_elements-write :
      (ms : List Member) (i j : ℕ) (pt : Member → A) (m : Member)
      → all_differ ms ≡ true
      → get_elem? ms j ≡ some m
      → visit_elements (λ j n x. write n (v j) x) i ms pt m ≡ v (i + j)
  unfolding visit_elements
  visit_elements-write [] i j pt m d h = cc
  visit_elements-write (n ∷ ms) i zero pt m d h =
      let absent : mem m ms ≡ false =
        subst (λ q. mem q ms ≡ false) (some_inj h) (once (mem n ms) (all_differ ms) d) in
      visit_elements-write_other ms (suc i) (write n (v i) pt) m absent
      ∙ ap (λ c. if c then v i else pt m)
          (subst (λ q. same n q ≡ true) (some_inj h) ((==_iff (index n) (index n)).1 refl))
      ∙ ap v (omega arith)
    where
      once : (c d : Bool) → (not c && d) ≡ true → c ≡ false
      once true d e = cc
      once false d e = refl
  visit_elements-write (n ∷ ms) i (suc j) pt m d h =
      visit_elements-write ms (suc i) j (write n (v i) pt) m
        (and_right (not (mem n ms)) (all_differ ms) d) h
      ∙ ap v (omega arith)

  -- Every element of a point of a cloud that the factory makes is written by `enumerate` with its own value, and what is
  -- no element stays, whatever the point held.
  pub enumerate-write :
      (p : PointType) (profile : UdpProfileLidar) {t : Target} {source : Source} (pt : Member → A)
      (i : ℕ) (m m' : Member)
      → create_point_cloud_processor p profile ≡ ok (t, source)
      → get t i ≡ some m
      → mem m' (elements t) ≡ false
      → (pt' : Member → A) × (enumerate t 0 (size t) (λ j n x. write n (v j) x) pt ≡ some pt')
        × (pt' m ≡ v i)
        × (pt' m' ≡ pt m')
  unfolding enumerate
  enumerate-write p profile {t} pt i m m' h e absent =
      let op : ℕ → Member → (Member → A) → Member → A = λ j n x. write n (v j) x in
      let all = take (size t - 0) (elements t) in
      let whole : all ≡ elements t =
        take_all (elements t) (size t - 0) (omega (arith, size-elements t)) in
      (
        visit_elements op 0 (elements t) pt,
        enumerate_next-visit t op (size t - 0) 0 pt (omega (arith, size-elements t))
            ∙ ap (λ ms. some (visit_elements op 0 ms pt)) whole,
        visit_elements-write (elements t) 0 i pt m (made-all_differ p profile h)
              (sym (get-elements t i) ∙ e)
            ∙ ap v (omega arith),
        visit_elements-write_other (elements t) 0 pt m' absent,
      )
    where
      take_all : (ms : List Member) (n : ℕ) → length ms ≤ n → take n ms ≡ ms
      take_all [] zero le = refl
      take_all [] (suc n) le = refl
      take_all (m ∷ ms) zero le = absurd (omega arith)
      take_all (m ∷ ms) (suc n) le = ap (λ q. m ∷ q) (take_all ms n (omega arith))
