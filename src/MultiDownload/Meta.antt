-- ===== src/MultiDownload/Meta.antt =====
-- The meta file of include/avhttp/impl/multi_download.ipp, from which a download is resumed:
-- `update_meta` writes the downloaded field, `open_meta` reads it back. The contents of the file are
-- a list of bytes. Whether it opens, and how many bytes a read gives, is a parameter.
pub mod Written
pub mod Resume
pub mod Broken
mod Tests
use avhttp.Base.{
  ℕ, zero, suc, ◌+◌, ◌-◌, ◌/◌, ◌%◌, ◌^◌, Bool, true, false, not, Option, none, some, ◌>>=◌, List,
  [], ◌∷◌, ◌++◌, ltb, ◌==◌, if◌then◌else◌, Bytes, codes, length,
}
use avhttp.Base.Int.{ℤ, pos, negsuc}
use avhttp.Bencode.Access.{integer_at, string_at, set_at}
use avhttp.Bencode.Decode.{Decoded, ok, failed, fault, out_of_fuel, bdecode}
use avhttp.Bencode.{Entry, integer, string, dictionary, undefined, end, bencode}
use avhttp.Bitfield.Bits.{from_bits}
use avhttp.Bitfield.{Bitfield, assign, begin, walk, empty_bitfield}
use avhttp.Rangefield.Pieces.{bitfield_to_range, range_to_bitfield, piece_num}
use avhttp.Rangefield.{Rangefield, reset}
use avhttp.Url.{Url, from_string, to_string, all_components}

-- The members that the two methods use.
pub record Download : Type 0 where
  pub final_url : Url
  pub file_size : ℕ
  pub rangefield : Rangefield
  pub downloaded_field : Rangefield
  pub piece_size : ℕ
  pub allow_use_meta_url : Bool

-- `outside`: undefined behaviour, or a number that is negative or does not fit an `int`.
pub data Meta (A : Type 0) : Type 0 where
  done : A → Meta A
  thrown : Meta A
  outside : Meta A

abbrev pub then_meta : {A B : Type 0} → Meta A → (A → Meta B) → Meta B
then_meta (done a) f = f a
then_meta thrown f = thrown
then_meta outside f = outside

abbrev pub or_thrown : {A : Type 0} → Option A → Meta A
or_thrown none = thrown
or_thrown (some a) = done a

abbrev pub or_outside : {A : Type 0} → Option A → Meta A
or_outside none = outside
or_outside (some a) = done a

abbrev pub natural : ℤ → Meta ℕ
natural (pos n) = done n
natural (negsuc n) = outside

-- `int x = v`
abbrev pub to_int : ℤ → Meta ℕ
to_int (pos n) = if ltb n (2 ^ 31) then done n else outside
to_int (negsuc n) = outside

abbrev pub decoded : Decoded Entry → Meta Entry
decoded (ok e rest) = done e
decoded _ = outside

-- The bytes of the field with these bits.
abbrev pub bytes_of : (ℕ → ℕ) → List Bool → Bytes
bytes_of junk bits = let bf = from_bits junk bits in bf.m_bytes

pub meta_entry : Bytes → ℕ → ℕ → Bytes → Option Entry
meta_entry url file_size piece_size bits = do
  e1 ← set_at (codes "final_url") (string url) undefined
  e2 ← set_at (codes "file_size") (integer (pos file_size)) e1
  e3 ← set_at (codes "piece_size") (integer (pos piece_size)) e2
  e4 ← set_at (codes "piece_num") (integer (pos (piece_num file_size piece_size))) e3
  set_at (codes "bitfield") (string bits) e4

-- `m_file_meta.write(0, ...)`: what is behind the bytes written stays.
abbrev pub drop : ℕ → Bytes → Bytes
drop n [] = []
drop zero s = s
drop (suc n) (c ∷ s) = drop n s

abbrev pub write_front : Bytes → Bytes → Bytes
write_front new old = new ++ drop (length new) old

-- `update_meta`, with the file open: the state, and the new contents of the file.
pub update_meta : (ℕ → ℕ) → Bytes → Download → Meta (Download × Bytes)
unfolding meta_entry
update_meta junk old d =
    let rest = then_meta (or_outside (range_to_bitfield [] d.piece_size d.downloaded_field)) λ r.
      then_meta
        (or_thrown (
          meta_entry (to_string all_components d.final_url) d.file_size d.piece_size
            (bytes_of junk r.1)))
        λ e. done (record d { downloaded_field = r.0 }, write_front (bencode e) old) in
    if d.piece_size == 0 then outside else rest

-- The final URL that the file names.
abbrev pub take_url : Bool → Entry → Download → Meta (Entry × Download)
take_url false e d = done (e, d)
take_url true e d = then_meta (or_thrown (string_at (codes "final_url") e)) λ u. named u.0 u.1
  where
    named : Entry → Bytes → Meta (Entry × Download)
    named e2 [] = done (e2, d)
    named e2 (c ∷ url) =
        then_meta (or_thrown (from_string (c ∷ url))) λ u. done (e2, record d { final_url = u })

-- What `open_meta` does with the decoded entry; `memory` is what an integer holds that nothing set.
pub take_entry : (Bytes → ℤ) → (ℕ → ℕ) → Entry → Download → Meta Download
take_entry memory junk e d = then_meta (take_url d.allow_use_meta_url e d) λ a.
    then_meta (or_thrown (integer_at memory (codes "file_size") a.0)) λ s.
      then_meta (natural s.1) λ file_size.
        then_meta (or_thrown (integer_at memory (codes "piece_size") s.0)) λ p.
          then_meta (to_int p.1) λ piece_size.
            then_meta (or_thrown (integer_at memory (codes "piece_num") p.0)) λ n.
              then_meta (to_int n.1) λ piece_num.
                then_meta (or_thrown (string_at (codes "bitfield") n.0)) λ b.
                  let bf = assign junk b.1 piece_num empty_bitfield in
                  let bits = walk (bf.m_size + 1) bf begin in
                  then_meta
                    (or_outside
                      (bitfield_to_range bits piece_size (reset file_size a.1.rangefield)))
                    λ f.
                      then_meta
                        (or_outside (
                          bitfield_to_range bits piece_size (reset file_size a.1.downloaded_field)))
                        λ g. done (record a.1 {
                          file_size = file_size;
                          rangefield = f;
                          downloaded_field = g;
                          piece_size = piece_size;
                        })

-- `open_meta`, where the file has opened and `num` bytes were read of it: the state, and what it
-- returns.
pub open_meta : (Bytes → ℤ) → (ℕ → ℕ) → ℕ → Bytes → Download → Meta (Download × Bool)
unfolding take_entry
open_meta memory junk num [] d = done (d, true)
open_meta memory junk num (c ∷ s) d =
    let rest =
      then_meta (decoded (bdecode (c ∷ s)))
        λ e. then_meta (take_entry memory junk e d) λ g. done (g, true) in
    if num == length (c ∷ s) then rest else done (d, false)
