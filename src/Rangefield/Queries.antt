-- ===== src/Rangefield/Queries.antt =====
-- `check_range`, `get_range`, `is_full` and `range_size` of include/avhttp/rangefield.hpp, against
-- the covered positions.
use avhttp.Base.{
  ℕ, ◌+◌, ◌≤◌, ◌<◌, Bool, true, false, ◌&&◌, Option, none, some, [], ◌∷◌, ◌≡◌, refl, sym, ◌∙◌, ◌↔◌,
  ◌⊎◌, inl, inr, arith, leb, ltb, if◌then◌else◌, Bool-cases, ◌>>=◌,
}
use avhttp.Rangefield.{RangeMap, Rangefield, check_loop, check_range, get_loop, get_range}
use avhttp.Rangefield.Cover.{inside, covered, Separated, IsSeparated, IsValid, covered_below}
use avhttp.Rangefield.Merge.{Tidied, tidy_lem}

-- Each position of [left, right) is covered.
abbrev pub AllCovered : RangeMap → ℕ → ℕ → Type 0
AllCovered m left right = (x : ℕ) → left ≤ x → x < right → covered m x ≡ true

check_loop_sound :
    (left right : ℕ) (m : RangeMap) → check_loop left right m ≡ true → AllCovered m left right
unfolding check_loop covered
check_loop_sound left right [] h x p q = cc
check_loop_sound left right ((l, r) ∷ m) h x p q =
    ground (arith, λ (e : check_loop left right m ≡ true). check_loop_sound left right m e x p q)

-- Where the first entry does not hold all of [left, right), it holds nothing of it.
first_entry :
    (l r left right : ℕ) (m : RangeMap)
    → left < right
    → l ≤ r
    → Separated (r + 1) m
    → AllCovered ((l, r) ∷ m) left right
    → ((leb l left && leb right r) ≡ true) ⊎ ((r < left) × AllCovered m left right)
unfolding covered
first_entry l r left right m p q s a = elim (Bool-cases (ltb r left)) [
  | inl past ↦ inr (ground arith, λ x u w. let c = a x u w in ground arith)
  | inr near ↦ inl (
      ground (
        arith,
        a left (omega arith) p,
        a r,
        covered_below (r + 1) left m s,
        covered_below (r + 1) r m s,
      ))
]

check_loop_complete :
    (m : RangeMap) (l r left right : ℕ)
    → left < right
    → l ≤ r
    → Separated (r + 1) m
    → AllCovered ((l, r) ∷ m) left right
    → check_loop left right ((l, r) ∷ m) ≡ true
unfolding check_loop
check_loop_complete [] l r left right p q s a = elim (first_entry l r left right [] p q s a) [
  | inl here ↦ ground arith
  | inr (_, none_left) ↦ unfold covered in cc (none_left left (omega arith) p)
]
check_loop_complete ((l', r') ∷ m) l r left right p q s a =
    elim (first_entry l r left right ((l', r') ∷ m) p q s a) [
      | inl here ↦ ground arith
      | inr (_, a') ↦ ground (arith, check_loop_complete m l' r' left right p (omega arith) s.2 a')
    ]

check_loop_iff :
    (left right : ℕ) (m : RangeMap)
    → left < right
    → IsSeparated m
    → (check_loop left right m ≡ true) ↔ AllCovered m left right
unfolding covered
check_loop_iff left right [] p s =
    (check_loop_sound left right [], λ a. cc (a left (omega arith) p))
check_loop_iff left right ((l, r) ∷ m) p (e, s) = (
  check_loop_sound left right ((l, r) ∷ m),
  check_loop_complete m l r left right p (omega arith) s,
)

-- `check_range` answers, for every valid field and non-empty range, whether each position of the
-- range is covered, and only joins entries.
pub check_range_lem :
    (left right : ℕ) (f : Rangefield)
    → left < right
    → IsValid f
    → (g : Rangefield) × (b : Bool) × (check_range left right f ≡ some (g, b))
      × Tidied f g
      × ((b ≡ true) ↔ AllCovered f.ranges left right)
unfolding check_range
check_range_lem left right f p v =
    let (g, e, t) = tidy_lem f v in
    let c = check_loop_iff left right g.ranges p t.separated in
    (
      g,
      check_loop left right g.ranges,
      rw e,
      t,
      ((λ h x u w. sym (t.same x) ∙ c.0 h x u w), λ a. c.1 (λ x u w. t.same x ∙ a x u w)),
    )

-- What `get_range` promises of its right boundary: the covered stretch from `left` on, cut at
-- `right`.
abbrev pub IsStretch : RangeMap → ℕ → ℕ → Option ℕ → Type 0
IsStretch m left right none = covered m left ≡ false
IsStretch m left right (some r) =
    (left < r) × (r ≤ right) × AllCovered m left r × ((r ≡ right) ⊎ (covered m r ≡ false))

-- An entry that holds `left`.
IsStretch-cons_here :
    (m : RangeMap) (l r left right : ℕ)
    → left < right
    → l ≤ left
    → left < r
    → Separated (r + 1) m
    → IsStretch ((l, r) ∷ m) left right (if leb right r then some right else some r)
unfolding covered
IsStretch-cons_here m l r left right p q h s = elim (Bool-cases (leb right r)) [
  | inl cut ↦ rw cut (p, omega arith, (λ x u w. ground arith), inl refl)
  | inr all ↦
      rw all (
        h,
        ground arith,
        (λ x u w. ground arith),
        inr (ground (arith, covered_below (r + 1) r m s)),
      )
]

-- An entry that does not hold `left` changes nothing.
IsStretch-cons_past :
    (m : RangeMap) (l r left right : ℕ) (o : Option ℕ)
    → inside l r left ≡ false
    → l ≤ r
    → Separated (r + 1) m
    → IsStretch m left right o
    → IsStretch ((l, r) ∷ m) left right o
unfolding covered
IsStretch-cons_past m l r left right none out q s h = ground arith
IsStretch-cons_past m l r left right (some r') out q s (a, b, c, d) = (
  a,
  b,
  (λ x u w. let e = c x u w in ground arith),
  elim d [
    | inl e ↦ inl e
    | inr e ↦ inr (ground (arith, c left (omega arith) a, covered_below (r + 1) left m s))
  ],
)

get_loop-inside :
    (m : RangeMap) (l r left right : ℕ)
    → left < right
    → inside l r left ≡ true
    → get_loop left right ((l, r) ∷ m) ≡ (if leb right r then some right else some r)
unfolding get_loop
get_loop-inside m l r left right p h = ground arith

get_loop-outside :
    (m : RangeMap) (l r left right : ℕ)
    → left < right
    → inside l r left ≡ false
    → get_loop left right ((l, r) ∷ m) ≡ get_loop left right m
unfolding get_loop
get_loop-outside m l r left right p h = ground arith

get_loop-IsStretch :
    (m : RangeMap) (l r left right : ℕ)
    → left < right
    → l ≤ r
    → Separated (r + 1) m
    → IsStretch ((l, r) ∷ m) left right (get_loop left right ((l, r) ∷ m))
get_loop-IsStretch [] l r left right p q s = elim (Bool-cases (inside l r left)) [
  | inl here ↦
      rw (get_loop-inside [] l r left right p here)
        (IsStretch-cons_here [] l r left right p (ground arith) (ground arith) s)
  | inr past ↦
      rw (get_loop-outside [] l r left right p past) (unfold get_loop covered in ground arith)
]
get_loop-IsStretch ((l', r') ∷ m) l r left right p q s = elim (Bool-cases (inside l r left)) [
  | inl here ↦
      rw (get_loop-inside ((l', r') ∷ m) l r left right p here)
        (IsStretch-cons_here ((l', r') ∷ m) l r left right p (ground arith) (ground arith) s)
  | inr past ↦ rw (get_loop-outside ((l', r') ∷ m) l r left right p past) (
      IsStretch-cons_past ((l', r') ∷ m) l r left right _ past q s
        (get_loop-IsStretch m l' r' left right p (omega arith) s.2))
]

get_loop_lem :
    (m : RangeMap) (left right : ℕ)
    → left < right
    → IsSeparated m
    → IsStretch m left right (get_loop left right m)
unfolding get_loop covered
get_loop_lem [] left right p s = refl
get_loop_lem ((l, r) ∷ m) left right p (e, s) =
    get_loop-IsStretch m l r left right p (omega arith) s

-- A stretch of a field is one of the field that was tidied.
IsStretch-Tidied :
    {f g : Rangefield} (left right : ℕ) (o : Option ℕ)
    → Tidied f g
    → IsStretch g.ranges left right o
    → IsStretch f.ranges left right o
IsStretch-Tidied left right none t h = sym (t.same left) ∙ h
IsStretch-Tidied left right (some r) t (a, b, c, d) = (
  a,
  b,
  (λ x u w. sym (t.same x) ∙ c x u w),
  elim d [ inl e ↦ inl e | inr e ↦ inr (sym (t.same r) ∙ e) ],
)

-- `get_range` says `false` exactly where `left` is not covered; otherwise it keeps `left` and cuts
-- `right` down to the end of the covered stretch that begins at `left`.
pub get_range_lem :
    (left right : ℕ) (f : Rangefield)
    → left < right
    → IsValid f
    → (g : Rangefield) × (o : Option ℕ) × (get_range left right f
        ≡ some (g, o >>= λ r. some (left, r)))
      × Tidied f g
      × IsStretch f.ranges left right o
unfolding get_range
get_range_lem left right f p v =
    let (g, e, t) = tidy_lem f v in
    (
      g,
      get_loop left right g.ranges,
      rw e,
      t,
      IsStretch-Tidied left right (get_loop left right g.ranges) t
          (get_loop_lem g.ranges left right p t.separated),
    )
