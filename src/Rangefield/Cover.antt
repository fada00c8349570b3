-- ===== src/Rangefield/Cover.antt =====
-- The abstract view of the maps of include/avhttp/rangefield.hpp: the set of positions that the
-- half-open entries cover, and the orders that a map may be in.
use avhttp.Base.{
  ℕ, ◌+◌, ◌≤◌, ◌<◌, Bool, false, ◌&&◌, ◌||◌, [], ◌∷◌, ◌++◌, ◌≡◌, refl, ◌⊎◌, inl, arith, ltb, leb,
}
use avhttp.Rangefield.{RangeMap, insert, Rangefield}

abbrev pub inside : ℕ → ℕ → ℕ → Bool
inside l r x = leb l x && ltb x r

-- Some entry holds position `x`.
unfoldable pub covered : RangeMap → ℕ → Bool
covered [] x = false
covered ((l, r) ∷ m) x = inside l r x || covered m x

-- Keys from `lo` on, in strict order, and no empty entry.
abbrev pub Ascending : ℕ → RangeMap → Type 0
Ascending lo [] = Unit
Ascending lo ((l, r) ∷ m) = (lo ≤ l) × (l < r) × Ascending (l + 1) m

-- The same, and a hole in front of each entry but the first.
abbrev pub Separated : ℕ → RangeMap → Type 0
Separated lo [] = Unit
Separated lo ((l, r) ∷ m) = (lo ≤ l) × (l < r) × Separated (r + 1) m

-- `merge` of the empty map leaves the entry 0 ↦ 0, and only such an entry may be empty.
abbrev pub IsEntry : ℕ → ℕ → Type 0
IsEntry l r = (l < r) ⊎ ((l ≡ 0) × (r ≡ 0))

abbrev pub IsOrdered : RangeMap → Type 0
IsOrdered [] = Unit
IsOrdered ((l, r) ∷ m) = IsEntry l r × Ascending (l + 1) m

abbrev pub IsSeparated : RangeMap → Type 0
IsSeparated [] = Unit
IsSeparated ((l, r) ∷ m) = IsEntry l r × Separated (r + 1) m

abbrev pub Within : ℕ → RangeMap → Type 0
Within size [] = Unit
Within size ((l, r) ∷ m) = (r ≤ size) × Within size m

-- Keys below `k`.
abbrev pub Below : ℕ → RangeMap → Type 0
Below k [] = Unit
Below k ((l, r) ∷ m) = (l < k) × Below k m

pub insert_last : (k v : ℕ) (m : RangeMap) → Below k m → insert k v m ≡ m ++ (k, v) ∷ []
unfolding insert
insert_last k v [] h = refl
insert_last k v ((j, w) ∷ m) h = ground (arith, insert_last k v m h.1)

pub Below-mono : (k k' : ℕ) (m : RangeMap) → k ≤ k' → Below k m → Below k' m
Below-mono k k' [] h b = tt
Below-mono k k' ((l, r) ∷ m) h b = (omega arith, Below-mono k k' m h b.1)

pub Below-snoc : (k k' v : ℕ) (m : RangeMap) → k < k' → Below k m → Below k' (m ++ (k, v) ∷ [])
Below-snoc k k' v [] h b = (h, tt)
Below-snoc k k' v ((l, r) ∷ m) h b = (omega arith, Below-snoc k k' v m h b.1)

pub Ascending-mono : (hi lo : ℕ) (m : RangeMap) → lo ≤ hi → Ascending hi m → Ascending lo m
Ascending-mono hi lo [] p a = tt
Ascending-mono hi lo ((l, r) ∷ m) p a = (omega arith, a.1, a.2)

pub Separated-Ascending : (lo : ℕ) (m : RangeMap) → Separated lo m → Ascending lo m
Separated-Ascending lo [] h = tt
Separated-Ascending lo ((l, r) ∷ m) h =
    (h.0, h.1, Ascending-mono (r + 1) (l + 1) m (omega arith) (Separated-Ascending (r + 1) m h.2))

pub IsSeparated-IsOrdered : (m : RangeMap) → IsSeparated m → IsOrdered m
IsSeparated-IsOrdered [] h = tt
IsSeparated-IsOrdered ((l, r) ∷ m) (e, h) =
    (e, Ascending-mono (r + 1) (l + 1) m (omega arith) (Separated-Ascending (r + 1) m h))

pub Separated-IsSeparated : (lo : ℕ) (m : RangeMap) → Separated lo m → IsSeparated m
Separated-IsSeparated lo [] h = tt
Separated-IsSeparated lo ((l, r) ∷ m) (_, lr, h) = (inl lr, h)

-- Nothing below the first key is covered.
pub covered_below : (lo x : ℕ) (m : RangeMap) → Separated lo m → x < lo → covered m x ≡ false
unfolding covered
covered_below lo x [] h p = refl
covered_below lo x ((l, r) ∷ m) h p = ground (arith, covered_below (r + 1) x m h.2)

pub covered_above : (size x : ℕ) (m : RangeMap) → Within size m → size ≤ x → covered m x ≡ false
unfolding covered
covered_above size x [] h p = refl
covered_above size x ((l, r) ∷ m) h p = ground (arith, covered_above size x m h.1)

-- What every operation keeps: the order of the map, its entries within the size, and a map with
-- nothing to join whenever no merge is due.
pub record IsValid (f : Rangefield) : Type 0 where
  pub ordered : IsOrdered f.ranges
  pub within : Within f.size f.ranges
  pub tidy_when : f.need_merge ≡ false → IsSeparated f.ranges
