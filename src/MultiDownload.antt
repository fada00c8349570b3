-- ===== src/MultiDownload.antt =====
-- include/avhttp/impl/multi_download.ipp: `default_piece_size`, and `allocate_range`, the range of
-- bytes that a stream is to ask for next. The caller of `allocate_range` holds no other lock.
pub mod Allocate
pub mod Handouts
pub mod Meta
pub mod PieceSize
pub mod Receive
mod Tests
use avhttp.Base.{
  ℕ, zero, suc, ◌+◌, ◌-◌, ◌*◌, ◌/◌, Bool, true, false, Option, none, some, ltb, if◌then◌else◌,
}
use avhttp.Base.Int.{ℤ, pos, negsuc, ltb_ℤ}
use avhttp.Rangefield.Pieces.{times}
use avhttp.Rangefield.{Rangefield, update, out_space_from}

-- What a call leaves: the loop that did not end in the rounds given, the mutex that is never free,
-- a product of two `int` that does not fit, which is undefined in C++, `false`, and `true` with the
-- range, whose right end is inside it.
pub data Allocation : Type 0 where
  unfinished : Allocation
  blocked : Allocation
  overflow : Allocation
  refused : Rangefield → Allocation
  allocated : Rangefield → ℕ → ℕ → Allocation

-- `temp.size() > max_request_bytes`, with the end that `size` counts in.
pub cut_range : ℕ → ℕ × ℕ → ℕ × ℕ
cut_range max_request_bytes (left, right) =
    if ltb max_request_bytes (right - left + 1)
    then (left, left + max_request_bytes)
    else (left, right)

-- `--r.right < r.left`
pub with_last : Rangefield → ℕ × ℕ → Allocation
with_last f (left, right) = if ltb left right then allocated f left (right - 1) else refused f

-- One round: `request_piece_num * piece_size`, what `out_space` gave, and the next round.
pub take_space :
    Option ℕ → (Rangefield → Allocation) → Option (Rangefield × Option (ℕ × ℕ)) → Allocation
unfolding cut_range with_last
take_space product again none = blocked
take_space product again (some (g, none)) = refused g
take_space none again (some (g, some (left, right))) = overflow
take_space (some max_request_bytes) again (some (g, some (left, right))) =
    let r = cut_range max_request_bytes (left, right) in
    let u = update (pos r.0) (pos r.1) g in if u.1 then with_last u.0 r else again u.0

-- The loop, for so many rounds. Nobody aborts the download.
pub allocate_loop : ℕ → Option ℕ → ℕ → Rangefield → Allocation
unfolding take_space
allocate_loop zero product download_point f = unfinished
allocate_loop (suc rounds) product download_point f =
    take_space product (allocate_loop rounds product download_point)
      (out_space_from download_point f)

-- `request_piece_num` pieces at most, from `m_download_point` on.
pub allocate_range : ℕ → ℕ → ℕ → ℕ → Rangefield → Allocation
unfolding allocate_loop
allocate_range rounds request_piece_num piece_size download_point f =
    allocate_loop rounds (times request_piece_num piece_size) download_point f

-- The loop of `default_piece_size`, for so many rounds: from `i` on, doubled while it is below 16 MiB
-- and below the size wanted.
pub size_loop : ℕ → ℕ → ℕ → ℕ
size_loop zero piece_size i = i
size_loop (suc rounds) piece_size i =
    let next = size_loop rounds piece_size (i * 2) in
    if ltb i (16 * 1024 * 1024) then (if ltb i piece_size then next else i) else i

-- `target_size / 20` is 2048.
pub default_piece_size : ℕ → ℕ
unfolding size_loop
default_piece_size file_size = size_loop 10 (file_size / (40 * 1024 / 20)) (16 * 1024)
