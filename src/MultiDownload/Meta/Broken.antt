-- ===== src/MultiDownload/Meta/Broken.antt =====
-- A meta file of include/avhttp/impl/multi_download.ipp that does not decode.
use avhttp.Base.{ℕ, ◌^◌, ◌<◌, Bool, true, false, [], ◌≡◌, refl, arith, ltb, Bytes, codes, length}
use avhttp.Base.Int.{ℤ, pos}
use avhttp.Bencode.{undefined, assign, key_lt}
use avhttp.Bencode.Access.{find_key, integer_at, string_at}
use avhttp.Bencode.Decode.{ok, bdecode}
use avhttp.Bitfield.Walk.{walk-assign_none}
use avhttp.MultiDownload.Meta.{Download, done, take_entry, open_meta}
use avhttp.MultiDownload.Meta.Resume.{open_meta-decoded}
use avhttp.Rangefield.{reset}
use avhttp.Rangefield.Pieces.FromBits.{bitfield_to_range-nil}

-- The download of a file of which nothing is known but its size and its piece size.
abbrev pub emptied : ℕ → ℕ → Download → Download
emptied size piece_size d = record d {
  file_size = size;
  rangefield = record { need_merge = true; size = size; ranges = [] };
  downloaded_field = record { need_merge = true; size = size; ranges = [] };
  piece_size = piece_size;
}

-- The three numbers that the memory of the new entries holds.
pub record Holds (memory : Bytes → ℤ) (size piece_size : ℕ) : Type 0 where
  pub at_file_size : memory (codes "file_size") ≡ pos size
  pub at_piece_size : memory (codes "piece_size") ≡ pos piece_size
  pub at_piece_num : memory (codes "piece_num") ≡ pos 0

take_entry-undefined :
    (b : Bool) (memory : Bytes → ℤ) (again : ℕ → ℕ) (size piece_size : ℕ) (d : Download)
    → Holds memory size piece_size
    → piece_size < 2 ^ 31
    → take_entry memory again undefined (record d { allow_use_meta_url = b })
      ≡ done (emptied size piece_size (record d { allow_use_meta_url = b }))
unfolding take_entry integer_at string_at find_key assign key_lt reset
take_entry-undefined true memory again size piece_size d m h =
    let small : ltb piece_size (2 ^ 31) ≡ true = ground arith in
    rw
      (
        m.at_file_size,
        m.at_piece_size,
        m.at_piece_num,
        small,
        walk-assign_none again [],
        bitfield_to_range-nil,
      )
      refl
take_entry-undefined false memory again size piece_size d m h =
    let small : ltb piece_size (2 ^ 31) ≡ true = ground arith in
    rw
      (
        m.at_file_size,
        m.at_piece_size,
        m.at_piece_num,
        small,
        walk-assign_none again [],
        bitfield_to_range-nil,
      )
      refl

-- A meta file that `bdecode` gives up on is opened all the same. Where the memory of its missing
-- numbers holds no pieces, any size and any piece size that is an `int`, the result is `true`, and
-- the download has lost its ranges and has that size and that piece size.
pub open_meta-undecodable :
    (memory : Bytes → ℤ) (again : ℕ → ℕ) (size piece_size : ℕ) (text rest : Bytes) (d : Download)
    → 0 < length text
    → bdecode text ≡ ok undefined rest
    → Holds memory size piece_size
    → piece_size < 2 ^ 31
    → open_meta memory again (length text) text d ≡ done (emptied size piece_size d, true)
open_meta-undecodable memory again size piece_size text rest d h k m q =
    open_meta-decoded memory again text rest undefined d (emptied size piece_size d) h k
      (take_entry-undefined d.allow_use_meta_url memory again size piece_size d m q)
