-- ===== src/MultiDownload/Tests.antt =====
-- Runs of `allocate_range` of include/avhttp/impl/multi_download.ipp, and the theorems at them.
use avhttp.Base.{true, false, [], ◌∷◌, ◌≡◌, refl, arith}
use avhttp.Rangefield.{
  Rangefield, assign, update, tidy, merge, inverse_map, inverse_impl, gap_loop, gap_or_first,
  out_space_from,
}
use avhttp.Rangefield.Cover.{IsValid, inside, covered}
use avhttp.Base.{◌||◌, ℕ}
use avhttp.MultiDownload.Receive.{
  StreamObject, receive, receive_all, NoneBegins, receive_all_covers,
}
use avhttp.MultiDownload.{
  allocated, allocate_range, allocate_loop, take_space, cut_range, with_last,
}
use avhttp.MultiDownload.{default_piece_size}
use avhttp.MultiDownload.PieceSize.{IsSize, default_piece_size-IsSize}
use Prim.Native.Nat.{◌*◌, ◌/◌}
use avhttp.MultiDownload.Allocate.{IsAllocation, allocate_range_lem}
use avhttp.MultiDownload.Handouts.{Handouts, AllApart, Handouts-AllApart}

-- A file of 25 bytes, of which the first four are there.
abbrev begun : Rangefield
begun = record { need_merge = false; size = 25; ranges = (0, 4) ∷ [] }

begun-IsValid : IsValid begun
begun-IsValid = record { ordered = omega arith; within = omega arith; tidy_when = λ e. omega arith }

abbrev after : Rangefield
after = record { need_merge = true; size = 25; ranges = (0, 4) ∷ (4, 14) ∷ [] }

run_first : allocate_range 1 2 5 0 begun ≡ allocated after 4 13
unfolding allocate_range allocate_loop take_space cut_range with_last out_space_from tidy
    inverse_impl gap_or_first inverse_map gap_loop update assign
run_first = refl

abbrev filled : Rangefield
filled = record { need_merge = true; size = 25; ranges = (0, 14) ∷ (20, 25) ∷ [] }

run_second : allocate_range 1 2 5 20 after ≡ allocated filled 20 24
unfolding allocate_range allocate_loop take_space cut_range with_last out_space_from tidy
    inverse_impl gap_or_first inverse_map gap_loop update assign merge
run_second = refl

allocate_range_lem_example : IsAllocation 10 begun (allocate_range 1 2 5 0 begun)
allocate_range_lem_example =
    allocate_range_lem 1 2 5 0 begun (omega arith) (omega arith) (omega arith) (omega arith)
      begun-IsValid

two_ranges : Handouts 2 5 begun ((4, 13) ∷ (20, 24) ∷ [])
two_ranges = (after, 0, 0, run_first, (filled, 0, 20, run_second, tt))

Handouts-AllApart_example : AllApart ((4, 13) ∷ (20, 24) ∷ [])
Handouts-AllApart_example =
    Handouts-AllApart 2 5 begun ((4, 13) ∷ (20, 24) ∷ []) (omega arith) (omega arith) (omega arith)
      begun-IsValid two_ranges

run_piece_size : default_piece_size (100 * 1024 * 1024) ≡ 64 * 1024
unfolding default_piece_size
run_piece_size = refl

default_piece_size-IsSize_example :
    IsSize (104857600 / 2048) (16 * 1024) (default_piece_size 104857600)
default_piece_size-IsSize_example = default_piece_size-IsSize 104857600

abbrev stream : StreamObject
stream = record { left = 4; bytes_transferred = 0; bytes_downloaded = 0 }

run_receive :
    (receive_all stream begun (3 ∷ 0 ∷ 5 ∷ [])).1
    ≡ record { need_merge = true; size = 25; ranges = (0, 4) ∷ (4, 7) ∷ (7, 12) ∷ [] }
unfolding receive_all receive update assign
run_receive = refl

begun-NoneBegins : NoneBegins 4 12 begun
begun-NoneBegins j p q = ground arith

receive_all_covers_example :
    IsValid (receive_all stream begun (3 ∷ 0 ∷ 5 ∷ [])).1
    × ((x : ℕ)
        → covered (receive_all stream begun (3 ∷ 0 ∷ 5 ∷ [])).1.ranges x
          ≡ (inside 4 12 x || covered begun.ranges x))
receive_all_covers_example =
    receive_all_covers (3 ∷ 0 ∷ 5 ∷ []) stream begun begun-IsValid (omega arith) begun-NoneBegins
