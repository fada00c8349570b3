-- ===== src/Rangefield/Pieces.antt =====
-- `bitfield_to_range` and `range_to_bitfield` of include/avhttp/rangefield.hpp. A bitfield is the
-- list of its bits. The products of two `int` are `none` where they do not fit, which is undefined
-- in C++.
pub mod FromBits
pub mod ToBits
mod Tests
use avhttp.Base.{
  ℕ, zero, suc, ◌+◌, ◌*◌, ◌/◌, ◌%◌, ◌^◌, min, Bool, true, false, not, ◌&&◌, ◌||◌, Option, none,
  some, List, [], ◌∷◌, ltb, leb, ◌==◌, if◌then◌else◌, ◌>>=◌,
}
use avhttp.Rangefield.{RangeMap, assign, Rangefield, tidy}

-- `int * int`
abbrev pub times : ℕ → ℕ → Option ℕ
times a b = if ltb (a * b) (2 ^ 31) then some (a * b) else none

-- The locals of `bitfield_to_range`.
pub record Run : Type 0 where
  pub left : ℕ
  pub right : ℕ
  pub left_record : Bool

-- The end of a run of set bits.
abbrev pub close_run : ℕ → Run → RangeMap → RangeMap
close_run size run m = assign run.left (min run.right size) m

-- The first set bit of a run.
abbrev pub start_run : ℕ → RangeMap → Option ℕ → Option (Run × RangeMap)
start_run piece_size m none = none
start_run piece_size m (some l) =
    some (record { left = l; right = l + piece_size; left_record = true }, m)

pub bit_step : ℕ → ℕ → ℕ → Run → RangeMap → Bool → Option (Run × RangeMap)
bit_step size piece_size index run m bit =
    if bit && not run.left_record
    then start_run piece_size m (times index piece_size)
    else if bit && run.left_record
    then some (record run { right = run.right + piece_size }, m)
    else if run.left_record && not bit
    then some (record run { right = min run.right size; left_record = false }, close_run size run m)
    else some (run, m)

pub bit_loop : ℕ → ℕ → ℕ → Run → RangeMap → List Bool → Option (Run × RangeMap)
unfolding bit_step
bit_loop size piece_size index run m [] = some (run, m)
bit_loop size piece_size index run m (bit ∷ bf) =
    bit_step size piece_size index run m bit >>= λ next.
    bit_loop size piece_size (suc index) next.0 next.1 bf

abbrev pub last_run : ℕ → Run × RangeMap → RangeMap
last_run size (run, m) = if run.left_record then close_run size run m else m

pub bitfield_to_range : List Bool → ℕ → Rangefield → Option Rangefield
bitfield_to_range bf piece_size f = do
  out ← bit_loop f.size piece_size 0 (record { left = 0; right = 0; left_record = false }) [] bf
  some (record f { ranges = last_run f.size out; need_merge = true })

-- `bf.resize(n, false)`: the bits that are there stay.
unfoldable pub resize : ℕ → List Bool → List Bool
resize zero bf = []
resize (suc n) [] = false ∷ resize n []
resize (suc n) (bit ∷ bf) = bit ∷ resize n bf

-- Is the piece inside the entry that the iterator is at?
abbrev pub holds : ℕ → ℕ → RangeMap → Bool
holds l r [] = false
holds l r ((a, b) ∷ m) = leb a l && leb r b

-- The iterator behind the piece, and `is_complete`.
pub piece_step : ℕ → ℕ → RangeMap → RangeMap × Bool
piece_step l r [] = ([], false)
piece_step l r ((a, b) ∷ m) =
    if holds l r ((a, b) ∷ m)
    then ((a, b) ∷ m, true)
    else if leb b r
    then (m, holds l r m)
    else ((a, b) ∷ m, false)

-- The loop from piece `i` on, over the bits from there on.
pub piece_loop : ℕ → ℕ → ℕ → RangeMap → List Bool → Option (List Bool)
unfolding piece_step
piece_loop size piece_size i it [] = some []
piece_loop size piece_size i it (bit ∷ bf) =
    let after : ℕ → ℕ → Option (List Bool) = λ l r.
      (piece_loop size piece_size (suc i) (piece_step l (min r size) it).0 bf >>= λ rest.
      some ((bit || (piece_step l (min r size) it).1) ∷ rest)) in
    times i piece_size >>= λ l. times (suc i) piece_size >>= λ r. after l r

-- `size / piece_size`, and one more for what is left over. A division by 0 is undefined in C++: the
-- callers rule it out.
unfoldable pub piece_num : ℕ → ℕ → ℕ
piece_num size piece_size = size / piece_size + (if size % piece_size == 0 then 0 else 1)

-- A piece size of 0 is `none` too.
pub range_to_bitfield : List Bool → ℕ → Rangefield → Option (Rangefield × List Bool)
unfolding resize piece_loop
range_to_bitfield bf piece_size f =
    let by_piece = tidy false f >>= λ g.
    (piece_loop f.size piece_size 0 g.ranges (resize (piece_num f.size piece_size) bf) >>= λ bits.
    some (g, bits)) in
    if piece_size == 0 then none else by_piece
