-- ===== src/Rangefield/Totals.antt =====
-- `is_full` and `range_size` of include/avhttp/rangefield.hpp, against the covered positions.
use avhttp.Base.{
  ℕ, zero, suc, ◌+◌, ◌-◌, ◌≤◌, ◌<◌, min, Bool, true, false, ◌&&◌, ◌||◌, some, [], ◌∷◌, ◌≡◌, refl,
  sym, ◌∙◌, ap, ◌↔◌, inl, inr, arith, if◌then◌else◌,
}
use avhttp.Rangefield.{RangeMap, Rangefield, full_ranges, is_full, sizes, range_size}
use avhttp.Rangefield.Cover.{
  inside, covered, Ascending, Separated, IsOrdered, IsSeparated, Within, IsValid, covered_below,
  Ascending-mono,
}
use mathlib.Core.Path.{fun_ext}
use avhttp.Rangefield.Merge.{Tidied, tidy_lem}
use avhttp.Rangefield.Queries.{AllCovered}

full_sound : (size : ℕ) (m : RangeMap) → full_ranges size m ≡ true → AllCovered m 0 size
unfolding full_ranges covered
full_sound size [] h x p q = cc
full_sound size ((l, r) ∷ []) h x p q = ground arith
full_sound size ((l, r) ∷ e ∷ m) h x p q = cc

full_complete :
    (size : ℕ) (m : RangeMap)
    → 0 < size
    → IsSeparated m
    → Within size m
    → AllCovered m 0 size
    → full_ranges size m ≡ true
unfolding full_ranges covered
full_complete size [] p s w a = a 0 (omega arith) p
full_complete size ((l, r) ∷ []) p (e, s) w a =
    ground (arith, a 0 (omega arith) p, a r (omega arith))
full_complete size ((l, r) ∷ (l', r') ∷ m) p (e, s) w a = ground (
  arith,
  a 0 (omega arith) p,
  a r (omega arith),
  covered_below (r + 1) 0 ((l', r') ∷ m) s,
  covered_below (r + 1) r ((l', r') ∷ m) s,
)

-- `is_full` says whether each position below the size is covered, for every valid field of a
-- size above 0.
pub is_full_lem :
    (f : Rangefield)
    → 0 < f.size
    → IsValid f
    → (g : Rangefield) × (b : Bool) × (is_full f ≡ some (g, b))
      × Tidied f g
      × ((b ≡ true) ↔ AllCovered f.ranges 0 f.size)
unfolding is_full
is_full_lem f p v =
    let (g, e, t) = tidy_lem f v in
    (
      g,
      full_ranges g.size g.ranges,
      rw e,
      t,
      (
        (λ h x u w. sym (t.same x) ∙ full_sound g.size g.ranges h x u (rw t.size_is w)),
        λ a.
            full_complete g.size g.ranges (rw t.size_is p) t.separated t.within
              (λ x u w. t.same x ∙ a x u (rw (← t.size_is) w)),
      ),
    )

-- How many positions below `n` satisfy a test.
abbrev pub count : ℕ → (ℕ → Bool) → ℕ
count zero p = 0
count (suc n) p = (if p n then 1 else 0) + count n p

count-inside : (n l r : ℕ) → l ≤ r → count n (inside l r) ≡ min n r - min n l
count-inside zero l r h = omega arith
count-inside (suc n) l r h = ground (arith, count-inside n l r h)

count-or-le : (n : ℕ) (p q : ℕ → Bool) → count n (λ x. p x || q x) ≤ count n p + count n q
count-or-le zero p q = omega arith
count-or-le (suc n) p q = ground (arith, count-or-le n p q)

count-or :
    (n : ℕ) (p q : ℕ → Bool)
    → ((x : ℕ) → (p x && q x) ≡ false)
    → count n (λ x. p x || q x) ≡ count n p + count n q
count-or zero p q h = omega arith
count-or (suc n) p q h = ground (arith, count-or n p q h, h n)

count-false : (n : ℕ) → count n (λ x. false) ≡ 0
count-false zero = refl
count-false (suc n) = ground (arith, count-false n)

count-le-sizes : (size : ℕ) (m : RangeMap) → Ascending 0 m → count size (covered m) ≤ sizes m
unfolding sizes covered
count-le-sizes size [] a = ground (arith, count-false size)
count-le-sizes size ((l, r) ∷ m) (_, lr, a) =
    let both : count size (covered ((l, r) ∷ m))
        ≤ count size (inside l r) + count size (covered m) =
      count-or-le size (inside l r) (covered m) in
    omega (
      arith,
      both,
      count-inside size l r (omega arith),
      count-le-sizes size m (Ascending-mono (l + 1) 0 m (omega arith) a),
    )

count-sizes :
    (lo size : ℕ) (m : RangeMap) → Separated lo m → Within size m → count size (covered m) ≡ sizes m
unfolding sizes covered
count-sizes lo size [] s w = ground (arith, count-false size)
count-sizes lo size ((l, r) ∷ m) (_, lr, s) (b, w) =
    let apart : (x : ℕ) → (inside l r x && covered m x) ≡ false =
      λ x. ground (arith, covered_below (r + 1) x m s) in
    let both : count size (covered ((l, r) ∷ m))
        ≡ count size (inside l r) + count size (covered m) =
      count-or size (inside l r) (covered m) apart in
    omega (arith, both, count-inside size l r (omega arith), count-sizes (r + 1) size m s w)

sizes-IsSeparated :
    (size : ℕ) (m : RangeMap) → IsSeparated m → Within size m → sizes m ≡ count size (covered m)
unfolding sizes covered
sizes-IsSeparated size [] s w = ground (arith, count-false size)
sizes-IsSeparated size ((l, r) ∷ m) (inl lr, s) w =
    sym (count-sizes 0 size ((l, r) ∷ m) (omega arith, lr, s) w)
sizes-IsSeparated size ((l, r) ∷ m) (inr (l0, r0), s) (b, w) =
    let alone : count size (covered ((l, r) ∷ m)) ≡ count size (covered m) =
      ap (count size) (fun_ext λ x. ground arith) in
    omega (arith, alone, count-sizes (r + 1) size m s w)

count-le-sizes_ordered : (size : ℕ) (m : RangeMap) → IsOrdered m → count size (covered m) ≤ sizes m
unfolding sizes covered
count-le-sizes_ordered size [] o = ground (arith, count-false size)
count-le-sizes_ordered size ((l, r) ∷ m) (inl lr, a) =
    count-le-sizes size ((l, r) ∷ m) (omega arith, lr, a)
count-le-sizes_ordered size ((l, r) ∷ m) (inr (l0, r0), a) =
    let alone : count size (covered ((l, r) ∷ m)) ≡ count size (covered m) =
      ap (count size) (fun_ext λ x. ground arith) in
    omega (arith, alone, count-le-sizes size m (Ascending-mono (l + 1) 0 m (omega arith) a))

-- `range_size` is never below the number of covered positions, and is that number where no merge
-- is due.
pub range_size_lem :
    (f : Rangefield)
    → IsValid f
    → (count f.size (covered f.ranges) ≤ range_size f)
      × (f.need_merge ≡ false → range_size f ≡ count f.size (covered f.ranges))
unfolding range_size
range_size_lem f v = (
  count-le-sizes_ordered f.size f.ranges v.ordered,
  λ e. sizes-IsSeparated f.size f.ranges (v.tidy_when e) v.within,
)
