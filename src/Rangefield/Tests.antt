-- ===== src/Rangefield/Tests.antt =====
-- Runs of the operations of include/avhttp/rangefield.hpp, and each theorem at an input.
use avhttp.Base.{
  ℕ, Bool, true, false, not, ◌&&◌, ◌||◌, Option, none, some, [], ◌∷◌, ◌≡◌, ◌↔◌, refl, arith, ltb,
  ◌>>=◌,
}
use avhttp.Base.Int.{pos, negsuc}
use avhttp.Rangefield.Cover.{inside, covered, IsValid}
use avhttp.Rangefield.Gaps
use avhttp.Rangefield.Merge
use avhttp.Rangefield.Merge.{Tidied}
use avhttp.Rangefield.Queries
use avhttp.Rangefield.Queries.{AllCovered, IsStretch}
use avhttp.Rangefield.Space
use avhttp.Rangefield.Space.{free, IsSpace}
use avhttp.Rangefield.Totals
use avhttp.Rangefield.Totals.{count}
use avhttp.Rangefield.Update
use avhttp.Rangefield.{
  Rangefield, rangefield, reset, assign, insert, update, merged, merge, tidy, check_loop,
  check_range, get_loop, get_range, inverse_map, inverse_impl, inverse, gap_loop, gap_or_first,
  out_space_from, out_space, full_ranges, is_full, range_size,
}

abbrev overlapping : Rangefield
overlapping = record { need_merge = true; size = 10; ranges = (0, 4) ∷ (3, 6) ∷ (8, 9) ∷ [] }

abbrev tidied : Rangefield
tidied = record { need_merge = false; size = 10; ranges = (0, 6) ∷ (8, 9) ∷ [] }

overlapping-IsValid : IsValid overlapping
overlapping-IsValid = record { ordered = omega arith; within = omega arith; tidy_when = λ e. cc }

tidied-IsValid : IsValid tidied
tidied-IsValid = record {
  ordered = omega arith;
  within = omega arith;
  tidy_when = λ e. omega arith;
}

merge_runs : merge false overlapping ≡ some tidied
unfolding merge merged
merge_runs = refl

-- A field of ten bytes: two updates, one refused update, then the queries.
abbrev filled : Rangefield
filled = (update (pos 3) (pos 6) (update (pos 0) (pos 4) (rangefield 10)).0).0

filled_runs :
    (update (negsuc 0) (pos 4) filled ≡ (filled, false))
    × (check_range 1 6 filled ≡ some (record tidied { ranges = (0, 6) ∷ [] }, true))
    × (get_range 2 9 filled ≡ some (record tidied { ranges = (0, 6) ∷ [] }, some (2, 6)))
    × (out_space filled ≡ some (record tidied { ranges = (0, 6) ∷ [] }, some (6, 10)))
    × (is_full filled ≡ some (record tidied { ranges = (0, 6) ∷ [] }, false))
    × (range_size filled ≡ 7)
    × (inverse filled ≡ none)
    × (reset 3 filled ≡ rangefield 3)
unfolding update rangefield reset assign check_range check_loop get_range get_loop out_space
    out_space_from inverse inverse_impl inverse_map gap_or_first gap_loop is_full full_ranges
    range_size tidy merged insert
filled_runs = (refl, refl, refl, refl, refl, refl, refl, refl)

merge_lem_example : (g : Rangefield) × (merge false overlapping ≡ some g) × Tidied overlapping g
merge_lem_example = Merge.merge_lem overlapping overlapping-IsValid

check_range_lem_example :
    (g : Rangefield) × (b : Bool) × (check_range 2 5 overlapping ≡ some (g, b))
    × Tidied overlapping g
    × ((b ≡ true) ↔ AllCovered overlapping.ranges 2 5)
check_range_lem_example = Queries.check_range_lem 2 5 overlapping (omega arith) overlapping-IsValid

get_range_lem_example :
    (g : Rangefield) × (o : Option ℕ) × (get_range 2 9 overlapping
      ≡ some (g, o >>= λ r. some (2, r)))
    × Tidied overlapping g
    × IsStretch overlapping.ranges 2 9 o
get_range_lem_example = Queries.get_range_lem 2 9 overlapping (omega arith) overlapping-IsValid

out_space_from_lem_example :
    (g : Rangefield) × (o : Option (ℕ × ℕ)) × (out_space_from 7 overlapping ≡ some (g, o))
    × Tidied overlapping g
    × IsSpace (free overlapping) 7 o
out_space_from_lem_example =
    Space.out_space_from_lem 7 overlapping (omega arith) overlapping-IsValid

is_full_lem_example :
    (g : Rangefield) × (b : Bool) × (is_full overlapping ≡ some (g, b))
    × Tidied overlapping g
    × ((b ≡ true) ↔ AllCovered overlapping.ranges 0 10)
is_full_lem_example = Totals.is_full_lem overlapping (omega arith) overlapping-IsValid

inverse_lem_example :
    (h : Rangefield) × (inverse tidied ≡ some (tidied, h))
    × (h.size ≡ tidied.size)
    × IsValid h
    × ((x : ℕ) → covered h.ranges x ≡ (ltb x 10 && not (covered tidied.ranges x)))
inverse_lem_example = Gaps.inverse_lem tidied tidied-IsValid refl

update-IsValid_example : IsValid (update (pos 5) (pos 9) overlapping).0
update-IsValid_example = Update.update-IsValid (pos 5) (pos 9) overlapping overlapping-IsValid

update_covers_example :
    ((update (pos 5) (pos 9) overlapping).1 ≡ true)
    × ((x : ℕ)
        → covered (update (pos 5) (pos 9) overlapping).0.ranges x
          ≡ (inside 5 9 x || covered overlapping.ranges x))
update_covers_example =
    Update.update_covers 5 9 overlapping (omega arith) (omega arith) (omega arith)
