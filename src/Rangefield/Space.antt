-- ===== src/Rangefield/Space.antt =====
-- `out_space` of include/avhttp/rangefield.hpp: which hole of the field it hands out.
use avhttp.Base.{
  ℕ, ◌+◌, ◌≤◌, ◌<◌, Bool, true, false, not, ◌&&◌, Option, none, some, [], ◌∷◌, ◌≡◌, refl, ◌∙◌, ◌⊎◌,
  inl, inr, arith, leb, ltb, Bool-cases,
}
use mathlib.Core.Path.{subst, fun_ext}
use avhttp.Rangefield.{
  RangeMap, Rangefield, inverse_map, gap_loop, gap_or_first, out_space_from, out_space,
}
use avhttp.Rangefield.Cover.{covered, Separated, IsValid, covered_below}
use avhttp.Rangefield.Gaps.{inverse_impl-done, covered-inverse_map, inverse_map-Separated}
use avhttp.Rangefield.Merge.{Tidied, tidy_lem, tidy_done}

-- A position below the size that no entry holds.
abbrev pub free : Rangefield → ℕ → Bool
free f x = ltb x f.size && not (covered f.ranges x)

-- No position of [left, right) satisfies the test.
abbrev pub NoneIn : (ℕ → Bool) → ℕ → ℕ → Type 0
NoneIn p left right = (x : ℕ) → left ≤ x → x < right → p x ≡ false

-- All of [left, right) does, and `right` does not.
abbrev pub IsRun : (ℕ → Bool) → ℕ → ℕ → Type 0
IsRun p left right =
    (left < right) × ((x : ℕ) → left ≤ x → x < right → p x ≡ true) × (p right ≡ false)

-- The first run from `offset` on; where there is none, the first of all; `none` where none is.
abbrev pub IsSpace : (ℕ → Bool) → ℕ → Option (ℕ × ℕ) → Type 0
IsSpace p offset none = (x : ℕ) → p x ≡ false
IsSpace p offset (some (left, right)) =
    IsRun p left right
    × (((offset ≤ left) × NoneIn p offset left)
        ⊎ (((x : ℕ) → offset ≤ x → p x ≡ false) × NoneIn p 0 left))

-- What the loop finds.
abbrev FirstRun : (ℕ → Bool) → ℕ → Option (ℕ × ℕ) → Type 0
FirstRun p offset none = (x : ℕ) → offset ≤ x → p x ≡ false
FirstRun p offset (some (left, right)) = IsRun p left right × (offset ≤ left) × NoneIn p offset left

IsRun-cons :
    (lo l r : ℕ) (m : RangeMap) → Separated lo ((l, r) ∷ m) → IsRun (covered ((l, r) ∷ m)) l r
unfolding covered
IsRun-cons lo l r m (q, lr, s) =
    (lr, (λ x u w. ground arith), ground (arith, covered_below (r + 1) r m s))

gap_loop-FirstRun :
    (lo offset : ℕ) (m : RangeMap)
    → Separated lo m
    → FirstRun (covered m) offset (gap_loop offset m)
unfolding gap_loop covered
gap_loop-FirstRun lo offset [] s = λ x p. refl
gap_loop-FirstRun lo offset ((l, r) ∷ m) s = elim (Bool-cases (leb l offset)) [
  | inr ahead ↦
      rw ahead (
        IsRun-cons lo l r m s,
        ground arith,
        λ x u w. ground (arith, covered_below (r + 1) x m s.2),
      )
  | inl behind ↦ rw behind (elim (Bool-cases (ltb offset r)) [
    | inl within ↦ rw within (
      (ground arith, (λ x u w. ground arith), ground (arith, covered_below (r + 1) r m s.2)),
      omega arith,
      λ x u w. absurd (omega arith),
    )
    | inr past ↦
        rw past
          (past_entry (gap_loop offset m) (gap_loop-FirstRun (r + 1) offset m s.2) (ground arith))
  ])
]
  where
    past_entry :
        (o : Option (ℕ × ℕ))
        → FirstRun (covered m) offset o
        → r ≤ offset
        → FirstRun (covered ((l, r) ∷ m)) offset o
    past_entry none h q = λ x u. ground (arith, h x u)
    past_entry (some (l', r')) (run, p, before) q = (
      (run.0, (λ x u w. ground (arith, run.1 x u w)), ground (arith, run.2)),
      p,
      λ x u w. ground (arith, before x u w),
    )

gap_or_first-IsSpace :
    (lo offset : ℕ) (m : RangeMap)
    → Separated lo m
    → IsSpace (covered m) offset (gap_or_first (gap_loop offset m) m)
unfolding gap_or_first covered
gap_or_first-IsSpace lo offset [] s = λ x. refl
gap_or_first-IsSpace lo offset ((l, r) ∷ m) s =
    pick (gap_loop offset ((l, r) ∷ m)) (gap_loop-FirstRun lo offset ((l, r) ∷ m) s)
  where
    pick :
        (o : Option (ℕ × ℕ))
        → FirstRun (covered ((l, r) ∷ m)) offset o
        → IsSpace (covered ((l, r) ∷ m)) offset (gap_or_first o ((l, r) ∷ m))
    pick none h =
        (IsRun-cons lo l r m s, inr (h, λ x u w. ground (arith, covered_below (r + 1) x m s.2)))
    pick (some g) (run, p, before) = (run, inl (p, before))

abbrev space_in : ℕ → Rangefield → Option (ℕ × ℕ)
space_in offset g = let inv = inverse_map g.size g.ranges in gap_or_first (gap_loop offset inv) inv

space_in-IsSpace :
    (offset : ℕ) {f g : Rangefield}
    → 0 < f.size
    → Tidied f g
    → IsSpace (free f) offset (space_in offset g)
space_in-IsSpace offset {f} {g} p t =
    let same : covered (inverse_map g.size g.ranges) ≡ free f =
      fun_ext λ x.
        covered-inverse_map g.size x g.ranges t.separated t.within ∙ rw (t.same x, t.size_is) in
    subst (λ q. IsSpace q offset (space_in offset g)) same
      (gap_or_first-IsSpace 0 offset (inverse_map g.size g.ranges)
        (inverse_map-Separated g.size g.ranges (rw t.size_is p) t.separated t.within))

out_space_from-done :
    (offset : ℕ) (g : Rangefield)
    → g.need_merge ≡ false
    → out_space_from offset g ≡ some (g, space_in offset g)
unfolding out_space_from
out_space_from-done offset g e = rw (tidy_done false g e, inverse_impl-done true g e)

-- `out_space(offset, …)` hands out, for every valid field of a size above 0, the first free run
-- from `offset` on, cut to begin at `offset`; if nothing is free from there on, the first free run
-- of all; and `false` exactly where no position is free.
pub out_space_from_lem :
    (offset : ℕ) (f : Rangefield)
    → 0 < f.size
    → IsValid f
    → (g : Rangefield) × (o : Option (ℕ × ℕ)) × (out_space_from offset f ≡ some (g, o))
      × Tidied f g
      × IsSpace (free f) offset o
unfolding out_space_from
out_space_from_lem offset f p v =
    let (g, e, t) = tidy_lem f v in
    (
      g,
      space_in offset g,
      rw (e, inverse_impl-done true g t.no_merge),
      t,
      space_in-IsSpace offset p t,
    )

-- `out_space` without an offset hands out the first free run of all.
pub out_space_lem :
    (f : Rangefield)
    → 0 < f.size
    → IsValid f
    → (g : Rangefield) × (o : Option (ℕ × ℕ)) × (out_space f ≡ some (g, o))
      × Tidied f g
      × IsSpace (free f) 0 o
unfolding out_space
out_space_lem f p v =
    let (g, e, t) = tidy_lem f v in
    (g, space_in 0 g, rw e (out_space_from-done 0 g t.no_merge), t, space_in-IsSpace 0 p t)
