-- ===== src/MultiDownload/Allocate.antt =====
-- What `allocate_range` of include/avhttp/impl/multi_download.ipp hands out.
use avhttp.Base.{
  ℕ, zero, suc, ◌+◌, ◌-◌, ◌*◌, ◌^◌, ◌≤◌, ◌<◌, true, false, ◌||◌, Option, none, some, [], ◌∷◌, ◌≡◌,
  sym, ◌∙◌, arith,
}
use avhttp.Base.Int.{pos}
use avhttp.Rangefield.{RangeMap, Rangefield, update}
use avhttp.Rangefield.Cover.{inside, covered, Ascending, IsOrdered, IsValid}
use avhttp.Rangefield.Merge.{Tidied, Tidied-IsValid}
use avhttp.Rangefield.Pieces.{times}
use avhttp.Rangefield.Space.{free, IsSpace, out_space_from_lem}
use avhttp.Rangefield.Update.{end_at, update-IsValid, update_covers, size-update}
use avhttp.MultiDownload.{
  Allocation, refused, allocated, unfinished, blocked, overflow, cut_range, with_last, take_space,
  allocate_loop, allocate_range,
}

-- The positions of [left, last], which were free, are taken, and nothing else changes.
pub record Takes (f g : Rangefield) (left last : ℕ) : Type 0 where
  pub order : left ≤ last
  pub was_free : (x : ℕ) → left ≤ x → x ≤ last → free f x ≡ true
  pub takes : (x : ℕ) → covered g.ranges x ≡ (inside left (last + 1) x || covered f.ranges x)
  pub valid : IsValid g
  pub same_size : g.size ≡ f.size

-- What a call must come to.
abbrev pub IsAllocation : ℕ → Rangefield → Allocation → Type 0
IsAllocation most f unfinished = ⊥
IsAllocation most f blocked = ⊥
IsAllocation most f overflow = ⊥
IsAllocation most f (refused g) = (IsValid g) × ((x : ℕ) → free f x ≡ false)
IsAllocation most f (allocated g left last) = Takes f g left last × (last < left + most)

-- An entry that begins at a position that is not covered is empty.
end_at-Ascending : (lo k : ℕ) (m : RangeMap) → Ascending lo m → covered m k ≡ false → end_at k m ≤ k
unfolding covered
end_at-Ascending lo k [] o h = omega arith
end_at-Ascending lo k ((j, w) ∷ m) o h = ground (arith, end_at-Ascending (j + 1) k m o.2)

end_at_free : (k : ℕ) (m : RangeMap) → IsOrdered m → covered m k ≡ false → end_at k m ≤ k
unfolding covered
end_at_free k [] o h = omega arith
end_at_free k ((j, w) ∷ m) o h = ground (arith, end_at-Ascending (j + 1) k m o.1)

cut_range_lem :
    (most left right : ℕ)
    → 0 < most
    → left < right
    → ((cut_range most (left, right)).0 ≡ left)
      × (left < (cut_range most (left, right)).1)
      × ((cut_range most (left, right)).1 ≤ right)
      × ((cut_range most (left, right)).1 ≤ left + most)
unfolding cut_range
cut_range_lem most left right p q = ground arith

with_last-allocated :
    (f : Rangefield) (left right : ℕ)
    → left < right
    → with_last f (left, right) ≡ allocated f left (right - 1)
unfolding with_last
with_last-allocated f left right h = ground arith

free-covered :
    (f : Rangefield) (x : ℕ) → free f x ≡ true → (x < f.size) × (covered f.ranges x ≡ false)
free-covered f x h = ground arith

-- A free run that `out_space` gave is taken at once.
update_run :
    (f g : Rangefield) (left right : ℕ)
    → Tidied f g
    → left < right
    → ((x : ℕ) → left ≤ x → x < right → free f x ≡ true)
    → ((update (pos left) (pos right) g).1 ≡ true)
      × Takes f (update (pos left) (pos right) g).0 left (right - 1)
update_run f g left right t p h =
    let first = free-covered f left (h left (omega arith) p) in
    let last = free-covered f (right - 1) (h (right - 1) (omega arith) (omega arith)) in
    let size = t.size_is in
    let here : covered g.ranges left ≡ false = t.same left ∙ first.1 in
    let e = end_at_free left g.ranges (Tidied-IsValid t).ordered here in
    let whole : right - 1 + 1 ≡ right = omega arith in
    let (ok, cover) = update_covers left right g p (omega arith) (omega arith) in
    (
      ok,
      record {
        order = omega arith;
        was_free = λ x u w. h x u (omega arith);
        takes = λ x. rw (whole, sym (t.same x)) (cover x);
        valid = update-IsValid (pos left) (pos right) g (Tidied-IsValid t);
        same_size = size-update (pos left) (pos right) g ∙ t.size_is;
      },
    )

take_space_lem :
    (most offset : ℕ) (again : Rangefield → Allocation) (f g : Rangefield) (o : Option (ℕ × ℕ))
    → 0 < most
    → Tidied f g
    → IsSpace (free f) offset o
    → IsAllocation most f (take_space (some most) again (some (g, o)))
unfolding take_space
take_space_lem most offset again f g none p t s = (Tidied-IsValid t, s)
take_space_lem most offset again f g (some (left, right)) p t ((order, all_free, _), _) =
    let (at_left, above, inside_run, cut) = cut_range_lem most left right p order in
    let end = (cut_range most (left, right)).1 in
    let (ok, taken) = update_run f g left end t above (λ x u w. all_free x u (omega arith)) in
    rw at_left (
      rw ok (
        rw (with_last-allocated (update (pos left) (pos end) g).0 left end above)
          (taken, omega arith)))

-- With requests of at least one byte whose size fits an `int`, the first round of `allocate_range`
-- ends the call, for every valid field of a size above 0. It is refused only if no position is
-- free; otherwise the range is not longer than a request, all its positions were free, just they
-- become covered, and the field stays valid.
pub allocate_range_lem :
    (rounds request_piece_num piece_size download_point : ℕ) (f : Rangefield)
    → 0 < rounds
    → 0 < request_piece_num * piece_size
    → request_piece_num * piece_size < 2 ^ 31
    → 0 < f.size
    → IsValid f
    → IsAllocation
        (request_piece_num * piece_size)
        f
        (allocate_range rounds request_piece_num piece_size download_point f)
unfolding allocate_range allocate_loop
allocate_range_lem zero n s point f q p i z v = absurd (omega arith)
allocate_range_lem (suc rounds) n s point f q p i z v =
    let (g, o, e, t, space) = out_space_from_lem point f z v in
    let product : times n s ≡ some (n * s) = ground arith in
    rw (product, e)
      (take_space_lem (n * s) point (allocate_loop rounds (some (n * s)) point) f g o p t space)
