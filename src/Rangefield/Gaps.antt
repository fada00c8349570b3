-- ===== src/Rangefield/Gaps.antt =====
-- `inverse_impl`, `inverse` and `out_space` of include/avhttp/rangefield.hpp: the inverted map holds
-- exactly the positions below the size that are not covered.
use avhttp.Base.{
  ℕ, ◌+◌, ◌≤◌, ◌<◌, Bool, true, false, not, ◌&&◌, ◌||◌, none, some, [], ◌∷◌, ◌++◌, append_assoc,
  append-nil, ◌≡◌, refl, ◌∙◌, ap, inl, inr, arith, ltb, ◌==◌, if◌then◌else◌, Bool-cases,
}
use avhttp.Rangefield.{
  RangeMap, insert, Rangefield, tidy, merge, Inverting, inverse_step, inverse_loop, inverse_map,
  inverse_impl, inverse,
}
use avhttp.Rangefield.Cover.{
  inside, covered, Separated, IsSeparated, Within, Below, IsValid, covered_below, insert_last,
  Below-snoc, IsSeparated-IsOrdered, Separated-IsSeparated,
}
use avhttp.Rangefield.Merge.{tidy_done}

-- The holes behind `p`.
holes : ℕ → ℕ → RangeMap → RangeMap
holes p size [] = if p == size then [] else (p, size) ∷ []
holes p size ((l, r) ∷ m) = (p, l) ∷ holes r size m

abbrev close : ℕ → Bool → Inverting → RangeMap
close size empty s =
    if not (s.point == size) || empty then insert s.point size s.reverse_map else s.reverse_map

inverse_step-later :
    (s : Inverting) (l r : ℕ)
    → s.at_begin ≡ false
    → Below s.point s.reverse_map
    → inverse_step s (l, r)
      ≡ record { at_begin = false; point = r; reverse_map = s.reverse_map ++ (s.point, l) ∷ [] }
unfolding inverse_step
inverse_step-later s l r h b = ground (arith, insert_last s.point l s.reverse_map b)

inverse_loop-holes :
    (size : ℕ) (m : RangeMap) (s : Inverting)
    → s.at_begin ≡ false
    → Below s.point s.reverse_map
    → Separated (s.point + 1) m
    → close size false (inverse_loop s m) ≡ s.reverse_map ++ holes s.point size m
unfolding inverse_loop holes
inverse_loop-holes size [] s h b p =
    ground (arith, insert_last s.point size s.reverse_map b, append-nil s.reverse_map)
inverse_loop-holes size ((l, r) ∷ m) s h b (q, lr, p) =
    ap (λ t. close size false (inverse_loop t m)) (inverse_step-later s l r h b)
    ∙ inverse_loop-holes size m
        (record { at_begin = false; point = r; reverse_map = s.reverse_map ++ (s.point, l) ∷ [] })
        refl (Below-snoc s.point r l s.reverse_map (omega arith) b) p
    ∙ append_assoc s.reverse_map _ _

-- The inverted map as a plain recursion.
holes_of : ℕ → RangeMap → RangeMap
unfolding holes
holes_of size [] = (0, size) ∷ []
holes_of size ((l, r) ∷ m) = if l == 0 then holes r size m else (0, l) ∷ holes r size m

abbrev start : Inverting
start = record { at_begin = true; point = 0; reverse_map = [] }

inverse_step-first :
    (l r : ℕ)
    → inverse_step start (l, r)
      ≡ record { at_begin = false; point = r; reverse_map = if l == 0 then [] else (0, l) ∷ [] }
unfolding inverse_step insert
inverse_step-first l r = ground arith

inverse_map-holes_of :
    (size : ℕ) (m : RangeMap) → IsSeparated m → inverse_map size m ≡ holes_of size m
unfolding inverse_map holes_of insert
inverse_map-holes_of size [] s = ground arith
inverse_map-holes_of size ((l, r) ∷ m) (e, s) = elim (Bool-cases (l == 0)) [
  | inl z ↦
      ap (λ t. close size false (inverse_loop t m)) (inverse_step-first l r)
      ∙ rw z (
          inverse_loop-holes size m (record { at_begin = false; point = r; reverse_map = [] }) refl
            tt s)
  | inr z ↦
      ap (λ t. close size false (inverse_loop t m)) (inverse_step-first l r)
      ∙ rw z (
          inverse_loop-holes size m
            (record { at_begin = false; point = r; reverse_map = (0, l) ∷ [] }) refl
            (ground arith, tt) s)
]

covered-holes :
    (p size x : ℕ) (m : RangeMap)
    → p ≤ size
    → Separated (p + 1) m
    → Within size m
    → covered (holes p size m) x ≡ (inside p size x && not (covered m x))
unfolding holes covered
covered-holes p size x [] b s w = ground arith
covered-holes p size x ((l, r) ∷ m) b (q, lr, s) (w, ws) =
    ground (arith, covered-holes r size x m w s ws, covered_below (r + 1) x m s)

holes-Separated :
    (p size lo : ℕ) (m : RangeMap)
    → lo ≤ p
    → p ≤ size
    → Separated (p + 1) m
    → Within size m
    → Separated lo (holes p size m)
unfolding holes
holes-Separated p size lo [] q b s w = elim (Bool-cases (p == size)) [
  | inl e ↦ rw e tt
  | inr e ↦ rw e (q, ground arith, tt)
]
holes-Separated p size lo ((l, r) ∷ m) q b (h, lr, s) (w, ws) =
    (q, omega arith, holes-Separated r size (l + 1) m (omega arith) w s ws)

-- The inverted map covers the complement.
pub covered-inverse_map :
    (size x : ℕ) (m : RangeMap)
    → IsSeparated m
    → Within size m
    → covered (inverse_map size m) x ≡ (ltb x size && not (covered m x))
covered-inverse_map size x m s w = rw (inverse_map-holes_of size m s) (go m s w)
  where
    go :
        (m : RangeMap)
        → IsSeparated m
        → Within size m
        → covered (holes_of size m) x ≡ (ltb x size && not (covered m x))
    go [] s w = unfold covered holes_of in ground arith
    go ((l, r) ∷ m) (e, s) (b, w) =
        unfold covered holes_of in
        ground (arith, covered-holes r size x m b s w, covered_below (r + 1) x m s)

-- It has entries in order and, for a size above 0, no empty one.
pub inverse_map-Separated :
    (size : ℕ) (m : RangeMap)
    → 0 < size
    → IsSeparated m
    → Within size m
    → Separated 0 (inverse_map size m)
inverse_map-Separated size m p s w = rw (inverse_map-holes_of size m s) (go m s w)
  where
    go : (m : RangeMap) → IsSeparated m → Within size m → Separated 0 (holes_of size m)
    go [] s w = unfold holes_of in (omega arith, p, tt)
    go ((l, r) ∷ m) (e, s) (b, w) = elim (Bool-cases (l == 0)) [
      | inl z ↦ unfold holes_of in rw z (holes-Separated r size 0 m (omega arith) b s w)
      | inr z ↦
          unfold holes_of in
          rw z (omega arith, ground arith, holes-Separated r size (l + 1) m (ground arith) b s w)
    ]

holes-Within :
    (p size : ℕ) (m : RangeMap) → Separated (p + 1) m → Within size m → Within size (holes p size m)
unfolding holes
holes-Within p size [] s w = elim (Bool-cases (p == size)) [
  | inl e ↦ rw e tt
  | inr e ↦ rw e (omega arith, tt)
]
holes-Within p size ((l, r) ∷ m) (q, lr, s) (w, ws) = (omega arith, holes-Within r size m s ws)

inverse_map-IsSeparated :
    (size : ℕ) (m : RangeMap)
    → IsSeparated m
    → Within size m
    → IsSeparated (inverse_map size m) × Within size (inverse_map size m)
inverse_map-IsSeparated size m s w = rw (inverse_map-holes_of size m s) (go m s w)
  where
    go :
        (m : RangeMap)
        → IsSeparated m
        → Within size m
        → IsSeparated (holes_of size m) × Within size (holes_of size m)
    go [] s w = unfold holes_of in ((ground arith, tt), (omega arith, tt))
    go ((l, r) ∷ m) (e, s) (b, w) = elim (Bool-cases (l == 0)) [
      | inl z ↦
          unfold holes_of in
          rw z (
            Separated-IsSeparated 0 _ (holes-Separated r size 0 m (omega arith) b s w),
            holes-Within r size m s w,
          )
      | inr z ↦
          unfold holes_of in
          rw z (
            (ground arith, holes-Separated r size (l + 1) m (ground arith) b s w),
            (omega arith, holes-Within r size m s w),
          )
    ]

pub inverse_impl-done :
    (held : Bool) (f : Rangefield)
    → f.need_merge ≡ false
    → inverse_impl held f ≡ some (f, inverse_map f.size f.ranges)
unfolding inverse_impl
inverse_impl-done held f e = rw (tidy_done held f e)

-- `inverse` of a field with no merge due: the field stays, and the result is a valid field of the
-- same size that covers exactly the positions below the size which the field does not cover.
pub inverse_lem :
    (f : Rangefield)
    → IsValid f
    → f.need_merge ≡ false
    → (h : Rangefield) × (inverse f ≡ some (f, h))
      × (h.size ≡ f.size)
      × IsValid h
      × ((x : ℕ) → covered h.ranges x ≡ (ltb x f.size && not (covered f.ranges x)))
unfolding inverse
inverse_lem f v e =
    let (s, w) = inverse_map-IsSeparated f.size f.ranges (v.tidy_when e) v.within in
    (
      record { need_merge = f.need_merge; size = f.size; ranges = inverse_map f.size f.ranges },
      rw (inverse_impl-done true f e),
      refl,
      record { ordered = IsSeparated-IsOrdered _ s; within = w; tidy_when = λ _. s },
      λ x. covered-inverse_map f.size x f.ranges (v.tidy_when e) v.within,
    )

-- With a merge due `inverse` locks the mutex that it holds, and never returns.
pub inverse_blocks : (f : Rangefield) → f.need_merge ≡ true → inverse f ≡ none
unfolding inverse inverse_impl tidy merge
inverse_blocks f e = ground arith
