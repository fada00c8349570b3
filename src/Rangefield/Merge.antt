-- ===== src/Rangefield/Merge.antt =====
-- `merge` of include/avhttp/rangefield.hpp: its loop against a plain recursion that joins entries
-- which overlap or touch.
use avhttp.Base.{
  ℕ, ◌+◌, ◌≤◌, ◌<◌, max, Bool, false, ◌||◌, some, [], ◌∷◌, ◌++◌, append_assoc, ◌≡◌, refl, ap, ◌∙◌,
  inl, inr, arith, leb, ◌==◌, if◌then◌else◌, Bool-cases,
}
use avhttp.Rangefield.{
  RangeMap, insert, Merging, merge_step, merge_loop, merged, Rangefield, merge, tidy,
}
use avhttp.Rangefield.Cover.{
  inside, covered, Ascending, Separated, IsEntry, IsOrdered, IsSeparated, Within, Below,
  insert_last, Below-snoc, Ascending-mono, Separated-IsSeparated, IsSeparated-IsOrdered, IsValid,
}

-- The entry `(a, b)` in front of `m`, and all that it touches joined to it.
pub coalesce : ℕ → ℕ → RangeMap → RangeMap
coalesce a b [] = (a, b) ∷ []
coalesce a b ((l, r) ∷ m) =
    let joined = coalesce a (max b r) m in
    let rest = coalesce l r m in if leb l b then joined else (a, b) ∷ rest

abbrev flush : Merging → RangeMap
flush s = insert s.first s.second s.result

merge_step_joins :
    (s : Merging) (l r : ℕ)
    → s.first < l
    → l ≤ s.second
    → merge_step s (l, r) ≡ record s { second = max s.second r }
unfolding merge_step
merge_step_joins s l r p q = ground arith

merge_step_pushes :
    (s : Merging) (l r : ℕ)
    → s.first < s.second
    → s.second < l
    → l < r
    → merge_step s (l, r) ≡ record { result = flush s; first = l; second = r }
unfolding merge_step
merge_step_pushes s l r p q lr = ground arith

merge_loop-coalesce :
    (m : RangeMap) (s : Merging)
    → Below s.first s.result
    → s.first < s.second
    → Ascending (s.first + 1) m
    → flush (merge_loop s m) ≡ s.result ++ coalesce s.first s.second m
unfolding merge_loop coalesce
merge_loop-coalesce [] s b p a = insert_last s.first s.second s.result b
merge_loop-coalesce ((l, r) ∷ m) s b p (h, lr, a) = elim (Bool-cases (leb l s.second)) [
  | inl near ↦ rw near (
      ap (λ t. flush (merge_loop t m)) (merge_step_joins s l r (omega arith) (ground arith))
      ∙ merge_loop-coalesce m (record s { second = max s.second r }) b (omega arith)
          (Ascending-mono (l + 1) (s.first + 1) m (omega arith) a))
  | inr far ↦ rw far (
      ap (λ t. flush (merge_loop t m)) (merge_step_pushes s l r p (ground arith) lr)
      ∙ merge_loop-coalesce m (record { result = flush s; first = l; second = r })
          (rw (insert_last _ s.second _ b) (Below-snoc s.first l s.second s.result (omega arith) b))
          lr a
      ∙ rw (insert_last _ s.second _ b) (append_assoc s.result _ _))
]

first_round :
    (l r : ℕ)
    → IsEntry l r
    → merge_step (record { result = []; first = 0; second = 0 }) (l, r)
      ≡ record { result = []; first = l; second = r }
unfolding merge_step
first_round l r e = ground arith

coalesce_all : RangeMap → RangeMap
unfolding coalesce
coalesce_all [] = (0, 0) ∷ []
coalesce_all ((l, r) ∷ m) = coalesce l r m

-- The empty entry that a merge of nothing leaves is dropped by the next merge.
joined : RangeMap → RangeMap
joined [] = (0, 0) ∷ []
joined ((l, r) ∷ m) = if l == r then coalesce_all m else coalesce_all ((l, r) ∷ m)

abbrev empty_merging : Merging
empty_merging = record { result = []; first = 0; second = 0 }

merge_loop-coalesce_all :
    (lo : ℕ) (m : RangeMap) → Ascending lo m → flush (merge_loop empty_merging m) ≡ coalesce_all m
unfolding merge_loop coalesce_all insert
merge_loop-coalesce_all lo [] h = refl
merge_loop-coalesce_all lo ((l, r) ∷ m) (_, lr, a) =
    ap (λ t. flush (merge_loop t m)) (first_round l r (inl lr))
    ∙ merge_loop-coalesce m (record { result = []; first = l; second = r }) tt lr a

merged-joined : (m : RangeMap) → IsOrdered m → merged m ≡ joined m
unfolding merged joined merge_loop insert coalesce_all
merged-joined [] h = refl
merged-joined ((l, r) ∷ m) (inl lr, a) =
    merge_loop-coalesce_all 0 ((l, r) ∷ m) (omega arith, lr, a) ∙ ground arith
merged-joined ((l, r) ∷ m) (inr (l0, r0), a) =
    ap (λ t. flush (merge_loop t m)) (first_round l r (inr (l0, r0)) ∙ ground arith)
    ∙ merge_loop-coalesce_all (l + 1) m a
    ∙ ground arith

covered-coalesce :
    (a b x : ℕ) (m : RangeMap)
    → a < b
    → Ascending (a + 1) m
    → covered (coalesce a b m) x ≡ (inside a b x || covered m x)
unfolding covered coalesce
covered-coalesce a b x [] p h = refl
covered-coalesce a b x ((l, r) ∷ m) p (al, lr, h) = ground (
  arith,
  covered-coalesce a (max b r) x m (omega arith) (Ascending-mono (l + 1) (a + 1) m (omega arith) h),
  covered-coalesce l r x m lr h,
)

coalesce-Separated :
    (a b lo : ℕ) (m : RangeMap)
    → a < b
    → lo ≤ a
    → Ascending (a + 1) m
    → Separated lo (coalesce a b m)
unfolding coalesce
coalesce-Separated a b lo [] p q h = (q, p, tt)
coalesce-Separated a b lo ((l, r) ∷ m) p q (al, lr, h) = elim (Bool-cases (leb l b)) [
  | inl near ↦ rw near (
      coalesce-Separated a (max b r) lo m (omega arith) q
        (Ascending-mono (l + 1) (a + 1) m (omega arith) h))
  | inr far ↦ rw far (q, p, coalesce-Separated l r (b + 1) m lr (ground arith) h)
]

coalesce-Within :
    (a b size : ℕ) (m : RangeMap) → b ≤ size → Within size m → Within size (coalesce a b m)
unfolding coalesce
coalesce-Within a b size [] p w = (p, tt)
coalesce-Within a b size ((l, r) ∷ m) p (q, w) = elim (Bool-cases (leb l b)) [
  | inl near ↦ rw near (coalesce-Within a (max b r) size m (omega arith) w)
  | inr far ↦ rw far (p, coalesce-Within l r size m q w)
]

coalesce_all-IsSeparated : (lo : ℕ) (m : RangeMap) → Ascending lo m → IsSeparated (coalesce_all m)
unfolding coalesce_all
coalesce_all-IsSeparated lo [] h = (inr (refl, refl), tt)
coalesce_all-IsSeparated lo ((l, r) ∷ m) (_, lr, a) =
    Separated-IsSeparated 0 _ (coalesce-Separated l r 0 m lr (omega arith) a)

joined-IsSeparated : (m : RangeMap) → IsOrdered m → IsSeparated (joined m)
unfolding joined
joined-IsSeparated [] h = (inr (refl, refl), tt)
joined-IsSeparated ((l, r) ∷ m) (e, a) = elim (Bool-cases (l == r)) [
  | inl skip ↦ rw skip (coalesce_all-IsSeparated (l + 1) m a)
  | inr keep ↦ rw keep (coalesce_all-IsSeparated 0 ((l, r) ∷ m) (omega arith, ground arith, a))
]

covered-coalesce_all :
    (lo x : ℕ) (m : RangeMap) → Ascending lo m → covered (coalesce_all m) x ≡ covered m x
unfolding coalesce_all covered
covered-coalesce_all lo x [] h = ground arith
covered-coalesce_all lo x ((l, r) ∷ m) (_, lr, a) = covered-coalesce l r x m lr a

covered-joined : (x : ℕ) (m : RangeMap) → IsOrdered m → covered (joined m) x ≡ covered m x
unfolding joined covered
covered-joined x [] h = ground arith
covered-joined x ((l, r) ∷ m) (e, a) = elim (Bool-cases (l == r)) [
  | inl skip ↦ rw skip (covered-coalesce_all (l + 1) x m a ∙ ground arith)
  | inr keep ↦ rw keep (covered-coalesce_all 0 x ((l, r) ∷ m) (omega arith, ground arith, a))
]

coalesce_all-Within : (size : ℕ) (m : RangeMap) → Within size m → Within size (coalesce_all m)
unfolding coalesce_all
coalesce_all-Within size [] w = (omega arith, tt)
coalesce_all-Within size ((l, r) ∷ m) (p, w) = coalesce-Within l r size m p w

joined-Within : (size : ℕ) (m : RangeMap) → Within size m → Within size (joined m)
unfolding joined
joined-Within size [] w = (omega arith, tt)
joined-Within size ((l, r) ∷ m) (p, w) = elim (Bool-cases (l == r)) [
  | inl skip ↦ rw skip (coalesce_all-Within size m w)
  | inr keep ↦ rw keep (coalesce_all-Within size ((l, r) ∷ m) (p, w))
]

-- The field `g` is `f` after a merge that was due, or `f` itself.
pub record Tidied (f g : Rangefield) : Type 0 where
  pub separated : IsSeparated g.ranges
  pub within : Within g.size g.ranges
  pub no_merge : g.need_merge ≡ false
  pub size_is : g.size ≡ f.size
  pub same : (x : ℕ) → covered g.ranges x ≡ covered f.ranges x

pub Tidied-IsValid : {f g : Rangefield} → Tidied f g → IsValid g
Tidied-IsValid t = record {
  ordered = IsSeparated-IsOrdered _ t.separated;
  within = t.within;
  tidy_when = λ _. t.separated;
}

-- `merge`, with the mutex free, keeps the covered positions of every valid field, leaves entries
-- that neither overlap nor touch, and clears the flag.
pub merge_lem :
    (f : Rangefield) → IsValid f → (g : Rangefield) × (merge false f ≡ some g) × Tidied f g
unfolding merge
merge_lem f v =
    let e = merged-joined f.ranges v.ordered in
    (
      record f { ranges = merged f.ranges; need_merge = false },
      refl,
      record {
        separated = rw e (joined-IsSeparated f.ranges v.ordered);
        within = rw e (joined-Within f.size f.ranges v.within);
        no_merge = refl;
        size_is = refl;
        same = λ x. rw e (covered-joined x f.ranges v.ordered);
      },
    )

pub tidy_lem :
    (f : Rangefield) → IsValid f → (g : Rangefield) × (tidy false f ≡ some g) × Tidied f g
unfolding tidy
tidy_lem f v = elim (Bool-cases f.need_merge) [
  | inl due ↦
      let (g, e, t) = merge_lem f v in (g, ap (λ b. if b then merge false f else some f) due ∙ e, t)
  | inr done ↦ (
    f,
    ap (λ b. if b then merge false f else some f) done,
    record {
      separated = v.tidy_when done;
      within = v.within;
      no_merge = done;
      size_is = refl;
      same = λ x. refl;
    },
  )
]

-- Where no merge is due the mutex is not touched.
pub tidy_done : (held : Bool) (f : Rangefield) → f.need_merge ≡ false → tidy held f ≡ some f
unfolding tidy
tidy_done held f e = ap (λ b. if b then merge held f else some f) e
