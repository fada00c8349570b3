-- ===== src/Rangefield.antt =====
-- include/avhttp/rangefield.hpp: the map of the byte ranges that a download holds.
-- `std::map` is an association list in the order of its keys. Positions are naturals once the
-- guard of `update` has passed; its arguments are signed. The build is one without assertions
-- (NDEBUG), so `BOOST_ASSERT` does nothing. Locking the held mutex again never returns: `none`.
pub mod Cover
pub mod Merge
pub mod Queries
pub mod Gaps
pub mod Totals
pub mod Space
pub mod Update
pub mod Pieces
mod Tests
use avhttp.Base.{
  ℕ, ◌+◌, ◌-◌, Bool, true, false, not, ◌&&◌, ◌||◌, Option, none, some, List, [], ◌∷◌, ltb, leb,
  ◌==◌, if◌then◌else◌, ◌>>=◌,
}
use avhttp.Base.Int.{ℤ, pos, pos_part, ltb_ℤ, leb_ℤ}

abbrev pub RangeMap : Type 0
RangeMap = List (ℕ × ℕ)

-- `m[k] = v`
unfoldable pub assign : ℕ → ℕ → RangeMap → RangeMap
assign k v [] = (k, v) ∷ []
assign k v ((j, w) ∷ m) =
    let rest = assign k v m in
    if ltb k j then (k, v) ∷ (j, w) ∷ m else if k == j then (k, v) ∷ m else (j, w) ∷ rest

-- `m.insert(std::make_pair(k, v))`, which keeps an entry that is there
unfoldable pub insert : ℕ → ℕ → RangeMap → RangeMap
insert k v [] = (k, v) ∷ []
insert k v ((j, w) ∷ m) =
    let rest = insert k v m in
    if ltb k j then (k, v) ∷ (j, w) ∷ m else if k == j then (j, w) ∷ m else (j, w) ∷ rest

pub record Rangefield : Type 0 where
  pub need_merge : Bool
  pub size : ℕ
  pub ranges : RangeMap

-- The constructor, and `reset`.
pub rangefield : ℕ → Rangefield
rangefield size = record { need_merge = false; size = size; ranges = [] }

unfoldable pub reset : ℕ → Rangefield → Rangefield
reset size f = record f { need_merge = false; size = size; ranges = [] }

unfoldable pub update : ℤ → ℤ → Rangefield → Rangefield × Bool
update left right f =
    if (ltb_ℤ left (pos 0) || ltb_ℤ (pos f.size) right) || leb_ℤ right left then (f, false) else (
      record f { ranges = assign (pos_part left) (pos_part right) f.ranges; need_merge = true },
      true,
    )

-- The locals of `merge`: `result` and the two fields of `max_value`.
pub record Merging : Type 0 where
  pub result : RangeMap
  pub first : ℕ
  pub second : ℕ

-- One round of its loop, at the entry `(l, r)`.
pub merge_step : Merging → ℕ × ℕ → Merging
merge_step s (l, r) =
    if leb s.first l && leb r s.second
    then s
    else if leb l s.first && (leb s.first r && leb r s.second)
    then record s { first = l }
    else if ltb s.first l && leb l s.second
    then record s { second = r }
    else if ltb s.second l || (s.first == 0 && s.second == 0)
    then record {
      result =
          if not (s.first == 0) || not (s.second == 0)
          then insert s.first s.second s.result
          else s.result;
      first = l;
      second = r;
    }
    else s

pub merge_loop : Merging → RangeMap → Merging
merge_loop s [] = s
merge_loop s (e ∷ m) = merge_loop (merge_step s e) m

-- What `merge` leaves in `m_ranges`.
pub merged : RangeMap → RangeMap
unfolding merge_loop merge_step insert
merged m =
    let s = merge_loop (record { result = []; first = 0; second = 0 }) m in
    insert s.first s.second s.result

-- The flag says whether the caller holds `m_mutex`.
unfoldable pub merge : Bool → Rangefield → Option Rangefield
unfolding merged
merge true f = none
merge false f = some (record f { ranges = merged f.ranges; need_merge = false })

-- `if (m_need_merge) merge();`
unfoldable pub tidy : Bool → Rangefield → Option Rangefield
unfolding merge
tidy held f = if f.need_merge then merge held f else some f

-- `left >= i->first && right <= i->second` for some entry
pub check_loop : ℕ → ℕ → RangeMap → Bool
check_loop left right [] = false
check_loop left right ((l, r) ∷ m) = (leb l left && leb right r) || check_loop left right m

pub check_range : ℕ → ℕ → Rangefield → Option (Rangefield × Bool)
check_range left right f = do g ← tidy false f; some (g, check_loop left right g.ranges)

-- The new right boundary; `none` where the loop ends without a `return true`.
pub get_loop : ℕ → ℕ → RangeMap → Option ℕ
get_loop left right [] = none
get_loop left right ((l, r) ∷ m) =
    let rest = get_loop left right m in
    if leb l left
    then (if leb right r then some right else if ltb l right && ltb left r then some r else rest)
    else rest

-- The inner `none` is a `false` that leaves both references alone.
pub get_range : ℕ → ℕ → Rangefield → Option (Rangefield × Option (ℕ × ℕ))
get_range left right f = do
  g ← tidy false f
  some (g, get_loop left right g.ranges >>= λ r. some (left, r))

-- The locals of `inverse_impl`; `at_begin` is `i == m_ranges.begin()`.
pub record Inverting : Type 0 where
  pub at_begin : Bool
  pub point : ℕ
  pub reverse_map : RangeMap

unfoldable pub inverse_step : Inverting → ℕ × ℕ → Inverting
inverse_step s (l, r) =
    if s.at_begin
    then (if not (l == 0)
        then record { at_begin = false; point = r; reverse_map = insert 0 l s.reverse_map }
        else record s { at_begin = false; point = r })
    else record { at_begin = false; point = r; reverse_map = insert s.point l s.reverse_map }

unfoldable pub inverse_loop : Inverting → RangeMap → Inverting
inverse_loop s [] = s
inverse_loop s (e ∷ m) = inverse_loop (inverse_step s e) m

abbrev pub is_empty : RangeMap → Bool
is_empty [] = true
is_empty (e ∷ m) = false

-- The map that `inverse_impl` returns for merged ranges.
unfoldable pub inverse_map : ℕ → RangeMap → RangeMap
unfolding inverse_loop inverse_step
inverse_map size m =
    let s = inverse_loop (record { at_begin = true; point = 0; reverse_map = [] }) m in
    if not (s.point == size) || is_empty m then insert s.point size s.reverse_map else s.reverse_map

unfoldable pub inverse_impl : Bool → Rangefield → Option (Rangefield × RangeMap)
inverse_impl held f = do g ← tidy held f; some (g, inverse_map g.size g.ranges)

-- `inverse` holds the mutex while `inverse_impl` runs.
pub inverse : Rangefield → Option (Rangefield × Rangefield)
inverse f = do
  (g, m) ← inverse_impl true f
  some (g, record { need_merge = g.need_merge; size = g.size; ranges = m })

unfoldable pub gap_loop : ℕ → RangeMap → Option (ℕ × ℕ)
gap_loop offset [] = none
gap_loop offset ((l, r) ∷ m) =
    let rest = gap_loop offset m in
    if leb l offset then (if ltb offset r then some (offset, r) else rest) else some (l, r)

-- What follows the loop when it found nothing: the first gap.
unfoldable pub gap_or_first : Option (ℕ × ℕ) → RangeMap → Option (ℕ × ℕ)
gap_or_first _ [] = none
gap_or_first none (e ∷ inv) = some e
gap_or_first (some g) (e ∷ inv) = some g

-- `out_space(offset, left, right)`. The inner `none` is a `false`. `inverse_impl` runs under the
-- lock, and finds nothing left to merge.
unfoldable pub out_space_from : ℕ → Rangefield → Option (Rangefield × Option (ℕ × ℕ))
out_space_from offset f = do
  g ← tidy false f
  (h, inv) ← inverse_impl true g
  some (h, gap_or_first (gap_loop offset inv) inv)

pub out_space : Rangefield → Option (Rangefield × Option (ℕ × ℕ))
out_space f = do g ← tidy false f; out_space_from 0 g

pub full_ranges : ℕ → RangeMap → Bool
full_ranges size ((l, r) ∷ []) = l == 0 && r == size
full_ranges size _ = false

pub is_full : Rangefield → Option (Rangefield × Bool)
is_full f = do g ← tidy false f; some (g, full_ranges g.size g.ranges)

pub sizes : RangeMap → ℕ
sizes [] = 0
sizes ((l, r) ∷ m) = (r - l) + sizes m

-- It does not merge first.
pub range_size : Rangefield → ℕ
unfolding sizes
range_size f = sizes f.ranges
