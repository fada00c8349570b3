-- ===== src/Rangefield/Update.antt =====
-- `update` of include/avhttp/rangefield.hpp. It writes the entry at its left boundary, whatever
-- stood there.
use avhttp.Base.{
  ℕ, ◌+◌, ◌≤◌, ◌<◌, true, ◌||◌, [], ◌∷◌, ◌≡◌, refl, inl, inr, arith, ◌==◌, if◌then◌else◌,
  Bool-cases,
}
use avhttp.Base.Int.{ℤ, pos, ltb_ℤ, leb_ℤ}
use avhttp.Rangefield.{RangeMap, assign, Rangefield, update}
use avhttp.Rangefield.Cover.{inside, covered, Ascending, IsOrdered, Within, IsValid, Ascending-mono}

-- The right boundary of the entry at `k`, and 0 where there is none.
abbrev pub end_at : ℕ → RangeMap → ℕ
end_at k [] = 0
end_at k ((j, w) ∷ m) = if k == j then w else end_at k m

assign-Ascending :
    (lo k v : ℕ) (m : RangeMap) → lo ≤ k → k < v → Ascending lo m → Ascending lo (assign k v m)
unfolding assign
assign-Ascending lo k v [] p q a = (p, q, tt)
assign-Ascending lo k v ((j, w) ∷ m) p q a =
    ground (arith, assign-Ascending (j + 1) k v m, Ascending-mono (j + 1) (k + 1) m)

assign-IsOrdered : (k v : ℕ) (m : RangeMap) → k < v → IsOrdered m → IsOrdered (assign k v m)
unfolding assign
assign-IsOrdered k v [] q a = (inl q, tt)
assign-IsOrdered k v ((j, w) ∷ m) q (e, a) =
    ground (arith, assign-Ascending (j + 1) k v m, Ascending-mono (j + 1) (k + 1) m)

assign-Within :
    (size k v : ℕ) (m : RangeMap) → v ≤ size → Within size m → Within size (assign k v m)
unfolding assign
assign-Within size k v [] p w = (p, tt)
assign-Within size k v ((j, u) ∷ m) p w = ground (arith, assign-Within size k v m)

covered-assign :
    (k v x : ℕ) (m : RangeMap)
    → end_at k m ≤ v
    → covered (assign k v m) x ≡ (inside k v x || covered m x)
unfolding assign covered
covered-assign k v x [] h = refl
covered-assign k v x ((j, w) ∷ m) h = ground (arith, covered-assign k v x m)

assign-assign : (k u v : ℕ) (m : RangeMap) → assign k v (assign k u m) ≡ assign k v m
unfolding assign
assign-assign k u v [] = ground arith
assign-assign k u v ((j, w) ∷ m) = ground (arith, assign-assign k u v m)

pub size-update : (left right : ℤ) (f : Rangefield) → (update left right f).0.size ≡ f.size
unfolding update
size-update left right f =
    elim (Bool-cases ((ltb_ℤ left (pos 0) || ltb_ℤ (pos f.size) right) || leb_ℤ right left)) [
      | inl refused ↦ rw refused refl
      | inr accepted ↦ rw accepted refl
    ]

-- `update` keeps a field valid, at every pair of signed boundaries.
pub update-IsValid : (left right : ℤ) (f : Rangefield) → IsValid f → IsValid (update left right f).0
unfolding update
update-IsValid left right f v =
    elim (Bool-cases ((ltb_ℤ left (pos 0) || ltb_ℤ (pos f.size) right) || leb_ℤ right left)) [
      | inl refused ↦ rw refused v
      | inr accepted ↦ rw accepted (record {
        ordered = assign-IsOrdered _ _ f.ranges (ground arith) v.ordered;
        within = assign-Within f.size _ _ f.ranges (ground arith) v.within;
        tidy_when = λ e. cc;
      })
    ]

-- A range that lies in the field is accepted, and joins the covered positions, if no longer entry
-- begins at its left boundary.
pub update_covers :
    (left right : ℕ) (f : Rangefield)
    → left < right
    → right ≤ f.size
    → end_at left f.ranges ≤ right
    → ((update (pos left) (pos right) f).1 ≡ true)
      × ((x : ℕ)
          → covered (update (pos left) (pos right) f).0.ranges x
            ≡ (inside left right x || covered f.ranges x))
unfolding update
update_covers left right f p q h =
    (ground arith, λ x. ground (arith, covered-assign left right x f.ranges))

-- A shorter range that begins where an entry begins replaces the entry: what the longer one
-- covered behind it is lost.
pub update_forgets :
    (left right longer : ℕ) (f : Rangefield)
    → left < right
    → right < longer
    → longer ≤ f.size
    → (update (pos left) (pos right) (update (pos left) (pos longer) f).0).0
      ≡ (update (pos left) (pos right) f).0
unfolding update
update_forgets left right longer f p q r = ground (arith, assign-assign left longer right f.ranges)
