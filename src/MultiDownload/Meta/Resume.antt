-- ===== src/MultiDownload/Meta/Resume.antt =====
-- Resuming from the meta file of include/avhttp/impl/multi_download.ipp.
use avhttp.Base.{
  ℕ, zero, suc, ◌+◌, ◌*◌, ◌^◌, ◌<◌, Bool, true, false, some, List, [], ◌∷◌, ◌&&◌, ltb, ◌==◌, ◌≡◌,
  refl, sym, ap, ◌∙◌, arith, Bytes, length, length-append,
}
use avhttp.Base.Int.{ℤ}
use avhttp.Bencode.{Entry, bencode}
use avhttp.Bencode.Decode.{ok, bdecode}
use avhttp.Bencode.Decode.RoundTrip.{bdecode-encoding, length-bencode}
use avhttp.Bencode.Access.{find_key, integer_at, string_at}
use avhttp.Bencode.{assign, key_lt}
use avhttp.Bitfield.Bits.{from_bits_lem}
use avhttp.Bitfield.Walk.{walk-assign}
use avhttp.MultiDownload.Meta.{
  Download, done, bytes_of, take_entry, drop, write_front, update_meta, open_meta,
}
use avhttp.MultiDownload.Meta.Written.{
  written_entry, meta_entry_lem, written_entry-IsCanonical, written_entry-height, take_url-written,
}
use avhttp.Rangefield.{Rangefield, reset}
use avhttp.Rangefield.Cover.{covered, IsValid}
use avhttp.Rangefield.Pieces.{piece_num, range_to_bitfield, bitfield_to_range}
use avhttp.Rangefield.Pieces.FromBits.{in_piece, bitfield_to_range_lem}
use avhttp.Rangefield.Pieces.ToBits.{range_to_bitfield_lem, piece_num_lem}
use avhttp.Url.{Url, from_string, to_string, all_components}
use avhttp.Url.RoundTrip.{IsWritable, from_string-to_string}

-- A download that can be written to its meta file: the downloaded field is that of the file, and the
-- numbers fit the products of `int` that the two conversions make.
pub record IsStorable (d : Download) : Type 0 where
  pub field_valid : IsValid d.downloaded_field
  pub whole_file : d.downloaded_field.size ≡ d.file_size
  pub some_piece : 0 < d.piece_size
  pub piece_fits : d.piece_size < 2 ^ 31
  pub pieces_fit : piece_num d.file_size d.piece_size * d.piece_size < 2 ^ 31
  pub url_fits : length (to_string all_components d.final_url) < 2 ^ 31
  pub url_writable : IsWritable d.final_url

-- What is known behind a restart: `e` is the download that was opened, `d` the one that was written.
pub record Resumes (d e : Download) : Type 0 where
  pub same_url : e.final_url ≡ d.final_url
  pub same_size : e.file_size ≡ d.file_size
  pub same_piece_size : e.piece_size ≡ d.piece_size
  pub rangefield_valid : IsValid e.rangefield
  pub downloaded_valid : IsValid e.downloaded_field
  pub nothing_invented :
      (x : ℕ)
      → covered e.downloaded_field.ranges x ≡ true
      → covered d.downloaded_field.ranges x ≡ true
  pub same_fields : (x : ℕ) → covered e.rangefield.ranges x ≡ covered e.downloaded_field.ranges x

take_entry-written :
    (memory : Bytes → ℤ) (junk again : ℕ → ℕ) (url : Bytes) (u : Url) (bits : List Bool)
    (size piece_size : ℕ) (d : Download)
    → d.allow_use_meta_url ≡ true
    → from_string url ≡ some u
    → piece_size < 2 ^ 31
    → length bits < 2 ^ 31
    → (f g : Rangefield) → bitfield_to_range bits piece_size (reset size d.rangefield) ≡ some f
    → bitfield_to_range bits piece_size (reset size d.downloaded_field) ≡ some g
    → take_entry memory again
        (written_entry url size piece_size (length bits) (bytes_of junk bits))
        d
      ≡ done (record d {
        final_url = u;
        file_size = size;
        rangefield = f;
        downloaded_field = g;
        piece_size = piece_size;
      })
unfolding take_entry integer_at string_at find_key assign key_lt
take_entry-written memory junk again url u bits size piece_size d allowed parsed a b f g left
      right =
    let small : ltb piece_size (2 ^ 31) ≡ true = ground arith in
    let few : ltb (length bits) (2 ^ 31) ≡ true = ground arith in
    rw (take_url-written url (bytes_of junk bits) u size piece_size (length bits) d allowed parsed)
      (rw (small, few, walk-assign junk again bits) (rw (left, right) refl))

factor_fits : (n p : ℕ) → 0 < p → n * p < 2 ^ 31 → n < 2 ^ 31
factor_fits n zero h k = absurd (omega arith)
factor_fits n (suc p) h k = let e : n * suc p ≡ n + n * p = grind arith in omega arith

update_meta-written :
    (junk : ℕ → ℕ) (old : Bytes) (d : Download) (g : Rangefield) (bits : List Bool)
    → 0 < d.piece_size
    → range_to_bitfield [] d.piece_size d.downloaded_field ≡ some (g, bits)
    → update_meta junk old d
      ≡ done (
        record d { downloaded_field = g },
        write_front
            (bencode (
              written_entry
                (to_string all_components d.final_url)
                d.file_size
                d.piece_size
                (piece_num d.file_size d.piece_size)
                (bytes_of junk bits)))
            old,
      )
unfolding update_meta
update_meta-written junk old d g bits h ends =
    let some_piece : (d.piece_size == 0) ≡ false = ground arith in
    rw (some_piece, ends)
      (rw
        (meta_entry_lem (to_string all_components d.final_url) (bytes_of junk bits) d.file_size
          d.piece_size)
        refl)

-- A text that decodes to an entry is taken for what the entry says.
pub open_meta-decoded :
    (memory : Bytes → ℤ) (again : ℕ → ℕ) (text rest : Bytes) (e : Entry) (d g : Download)
    → 0 < length text
    → bdecode text ≡ ok e rest
    → take_entry memory again e d ≡ done g
    → open_meta memory again (length text) text d ≡ done (g, true)
unfolding open_meta
open_meta-decoded memory again [] rest e d g h k t = absurd (omega arith)
open_meta-decoded memory again (c ∷ s) rest e d g h k t =
    let all_read : (length (c ∷ s) == length (c ∷ s)) ≡ true = ground arith in
    rw (all_read, k, t) refl

-- For a storable download, whatever the file held before and whatever new memory holds,
-- `update_meta` writes a file that a download allowed to use the URL opens. The opened one has the
-- same URL, size and piece size, its two rangefields are valid and agree, and they cover no
-- position that was not downloaded.
pub open_meta-update_meta :
    (memory : Bytes → ℤ) (junk again : ℕ → ℕ) (old : Bytes) (d start : Download)
    → IsStorable d
    → start.allow_use_meta_url ≡ true
    → (g : Download) × (text : Bytes) × (e : Download) × (update_meta junk old d ≡ done (g, text))
      × (open_meta memory again (length text) text start ≡ done (e, true))
      × Resumes d e
unfolding reset
open_meta-update_meta memory junk again old d start v u =
    let size = d.file_size in
    let p = d.piece_size in
    let field = d.downloaded_field in
    let url = to_string all_components d.final_url in
    let n = piece_num size p in
    let (enough, tight) = piece_num_lem size p v.some_piece in
    let few : n < 2 ^ 31 = factor_fits n p v.some_piece v.pieces_fit in
    let one_size = v.whole_file in
    let (g, bits, ends, many, sound) =
      range_to_bitfield_lem p field v.some_piece v.field_valid (rw one_size v.pieces_fit) in
    let count : length bits ≡ n = many ∙ ap (λ k. piece_num k p) one_size in
    let short : length bits * p < size + p = rw count tight in
    let small : size < 2 ^ 31 = omega arith in
    let bytes = bytes_of junk bits in
    let entry = written_entry url size p n bytes in
    let (w, many_bits, same) = from_bits_lem junk bits in
    let bytes_fit : length bytes < 2 ^ 31 = let z = w.sized in omega arith in
    let canonical =
      written_entry-IsCanonical url bytes size p n v.url_fits bytes_fit small v.piece_fits few in
    let (left, left_ends, left_valid, left_covers) =
      bitfield_to_range_lem bits p (reset size start.rangefield) v.some_piece short (omega arith) in
    let (right, right_ends, right_valid, right_covers) =
      bitfield_to_range_lem bits p (reset size start.downloaded_field) v.some_piece short
        (omega arith) in
    let text = write_front (bencode entry) old in
    let tail = drop (length (bencode entry)) old in
    let nonempty : 0 < length text =
      omega (arith, length-bencode entry canonical, length-append (bencode entry) tail) in
    (
      record d { downloaded_field = g },
      text,
      resumed left right,
      update_meta-written junk old d g bits v.some_piece ends,
      open_meta-decoded memory again text tail entry start (resumed left right) nonempty
          (bdecode-encoding entry tail canonical (written_entry-height url bytes size p n))
          (ap (λ k. take_entry memory again (written_entry url size p k bytes) start) (sym count)
            ∙ take_entry-written memory junk again url d.final_url bits size p start u
                (from_string-to_string d.final_url v.url_writable) v.piece_fits (omega arith) left
                right left_ends right_ends),
      record {
        same_url = refl;
        same_size = refl;
        same_piece_size = refl;
        rangefield_valid = left_valid;
        downloaded_valid = right_valid;
        nothing_invented = λ x h.
            let (set, below) =
              both_true (in_piece p 0 bits x) (ltb x size) (sym (right_covers x) ∙ h) in
            sound x set (ground arith);
        same_fields = λ x. left_covers x ∙ sym (right_covers x);
      },
    )
  where
    resumed : Rangefield → Rangefield → Download
    resumed left right = record start {
      final_url = d.final_url;
      file_size = d.file_size;
      rangefield = left;
      downloaded_field = right;
      piece_size = d.piece_size;
    }

    both_true : (a b : Bool) → (a && b) ≡ true → (a ≡ true) × (b ≡ true)
    both_true a b h = (ground arith, ground arith)
