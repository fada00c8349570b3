-- ===== src/Rangefield/Pieces/Tests.antt =====
-- Runs of the two conversions of include/avhttp/rangefield.hpp, and the theorems at them.
use avhttp.Base.{
  ℕ, ◌<◌, Bool, true, false, ◌&&◌, none, some, List, [], ◌∷◌, ◌≡◌, refl, arith, ltb, length, ◌^◌,
}
use avhttp.Rangefield.{Rangefield, RangeMap, assign, tidy}
use avhttp.Rangefield.Cover.{covered, IsValid}
use avhttp.Rangefield.Pieces.{bit_step, bit_loop, bitfield_to_range, piece_num, range_to_bitfield}
use avhttp.Rangefield.Pieces.FromBits.{in_piece, bitfield_to_range_lem}
use avhttp.Rangefield.Pieces.ToBits.{range_to_bitfield_lem}

abbrev file : RangeMap → Rangefield
file ranges = record { need_merge = false; size = 25; ranges = ranges }

run_bitfield_to_range :
    bitfield_to_range (true ∷ false ∷ true ∷ []) 10 (file [])
    ≡ some (record { need_merge = true; size = 25; ranges = (0, 10) ∷ (20, 25) ∷ [] })
unfolding bitfield_to_range bit_loop assign
run_bitfield_to_range = refl

run_range_to_bitfield :
    range_to_bitfield [] 10 (file ((0, 10) ∷ (20, 25) ∷ []))
    ≡ some (file ((0, 10) ∷ (20, 25) ∷ []), true ∷ false ∷ true ∷ [])
unfolding range_to_bitfield tidy piece_num
run_range_to_bitfield = refl

-- The iterator steps once for each piece: the piece [10, 20) is held, and missed.
run_missed_piece :
    range_to_bitfield [] 10 (file ((0, 1) ∷ (2, 3) ∷ (4, 5) ∷ (10, 20) ∷ []))
    ≡ some (file ((0, 1) ∷ (2, 3) ∷ (4, 5) ∷ (10, 20) ∷ []), false ∷ false ∷ false ∷ [])
unfolding range_to_bitfield tidy piece_num
run_missed_piece = refl

-- A field that has bits already keeps them.
run_stale_bit :
    range_to_bitfield (true ∷ []) 10 (file []) ≡ some (file [], true ∷ false ∷ false ∷ [])
unfolding range_to_bitfield tidy piece_num
run_stale_bit = refl

-- The product of the index and the piece size leaves the `int`.
run_overflow : bitfield_to_range (false ∷ false ∷ true ∷ []) (2 ^ 30) (file []) ≡ none
unfolding bitfield_to_range bit_loop bit_step
run_overflow = refl

bitfield_to_range_lem_example :
    (g : Rangefield) × (bitfield_to_range (true ∷ false ∷ true ∷ []) 10 (file []) ≡ some g)
    × IsValid g
    × ((x : ℕ) → covered g.ranges x ≡ in_piece 10 0 (true ∷ false ∷ true ∷ []) x && ltb x 25)
bitfield_to_range_lem_example =
    bitfield_to_range_lem (true ∷ false ∷ true ∷ []) 10 (file []) (omega arith) (omega arith)
      (omega arith)

held_file-IsValid : IsValid (file ((0, 10) ∷ (20, 25) ∷ []))
held_file-IsValid = record {
  ordered = omega arith;
  within = omega arith;
  tidy_when = λ e. omega arith;
}

range_to_bitfield_lem_example :
    (g : Rangefield) × (bits : List Bool) × (range_to_bitfield [] 10
        (file ((0, 10) ∷ (20, 25) ∷ []))
      ≡ some (g, bits))
    × (length bits ≡ piece_num 25 10)
    × ((x : ℕ) → in_piece 10 0 bits x ≡ true → x < 25 → covered ((0, 10) ∷ (20, 25) ∷ []) x ≡ true)
unfolding piece_num
range_to_bitfield_lem_example =
    range_to_bitfield_lem 10 (file ((0, 10) ∷ (20, 25) ∷ [])) (omega arith) held_file-IsValid
      (omega arith)
