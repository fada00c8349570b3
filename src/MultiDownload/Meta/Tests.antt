-- ===== src/MultiDownload/Meta/Tests.antt =====
-- Runs of `update_meta` and `open_meta` of include/avhttp/impl/multi_download.ipp, and the theorems
-- at them.
use avhttp.Base.{
  ℕ, ◌+◌, ◌*◌, true, false, [], ◌∷◌, ◌≡◌, refl, arith, Bytes, codes, length, text_eq, if◌then◌else◌,
}
use avhttp.Bencode.Decode.{ok, bdecode, decode_string, decode_integer, read_until, read_string}
use avhttp.Base.Int.{ℤ, pos}
use avhttp.Bencode.{undefined}
use avhttp.CStdlib.{to_lower, atoi, digits_value}
use avhttp.Escape.{is_digit}
use avhttp.MultiDownload.Meta.{Download, done, update_meta, open_meta}
use avhttp.MultiDownload.Meta.Broken.{emptied, Holds, open_meta-undecodable}
use avhttp.MultiDownload.Meta.Resume.{IsStorable, Resumes, open_meta-update_meta}
use avhttp.Rangefield.Pieces.{piece_num}
use avhttp.Url.RoundTrip.{IsWritable}
use avhttp.Url.{Url, one_of, to_string}

abbrev host_url : Bytes → Url
host_url host = record {
  protocol_ = codes "http";
  user_info_ = [];
  host_ = host;
  port_ = [];
  path_ = codes "/f";
  query_ = [];
  fragment_ = [];
  ipv6_host_ = false;
}

-- A file of 25 bytes in pieces of 10, with the first and the last.
abbrev stored : Download
stored = record {
  final_url = host_url (codes "b");
  file_size = 25;
  rangefield = record { need_merge = false; size = 25; ranges = [] };
  downloaded_field = record { need_merge = false; size = 25; ranges = (0, 10) ∷ (20, 25) ∷ [] };
  piece_size = 10;
  allow_use_meta_url = true;
}

abbrev fresh : Download
fresh = record {
  final_url = host_url (codes "a");
  file_size = 7;
  rangefield = record { need_merge = false; size = 7; ranges = [] };
  downloaded_field = record { need_merge = false; size = 7; ranges = [] };
  piece_size = 3;
  allow_use_meta_url = true;
}

abbrev junk_at : ℕ → ℕ
junk_at k = k * 37 + 90

-- Uninitialised integers, by the key of the entry.
abbrev memory_at : Bytes → ℤ
memory_at key =
    if text_eq key (codes "file_size")
    then pos 7
    else if text_eq key (codes "piece_size")
    then pos 70
    else pos 0

memory_at-Holds : Holds memory_at 7 70
unfolding text_eq
memory_at-Holds = record { at_file_size = refl; at_piece_size = refl; at_piece_num = refl }

host_url-IsWritable : IsWritable (host_url (codes "b"))
unfolding to_lower one_of is_digit
host_url-IsWritable = record {
  protocol_some = λ e. absurd (cc);
  protocol_lower = refl;
  protocol_ends = (refl, (refl, (refl, (refl, tt))));
  user_info_ends = tt;
  host_ends = (refl, tt);
  port_digits = tt;
  path_starts = refl;
  path_ends = (refl, (refl, tt));
  query_ends = tt;
}

stored-IsStorable : IsStorable stored
unfolding piece_num to_string
stored-IsStorable = record {
  field_valid = record {
    ordered = omega arith;
    within = omega arith;
    tidy_when = λ e. omega arith;
  };
  whole_file = refl;
  some_piece = omega arith;
  piece_fits = omega arith;
  pieces_fit = omega arith;
  url_fits = omega arith;
  url_writable = host_url-IsWritable;
}

-- The file had a longer text before.
open_meta-update_meta_example :
    (g : Download) × (text : Bytes) × (e : Download) × (update_meta junk_at
        (codes "junk behind the text")
        stored
      ≡ done (g, text))
    × (open_meta memory_at junk_at (length text) text fresh ≡ done (e, true))
    × Resumes stored e
open_meta-update_meta_example =
    open_meta-update_meta memory_at junk_at junk_at (codes "junk behind the text") stored fresh
      stored-IsStorable refl

run_undecodable : bdecode (codes "d4:") ≡ ok undefined []
unfolding bdecode decode_string decode_integer read_until read_string is_digit atoi digits_value
run_undecodable = refl

open_meta-undecodable_example :
    open_meta memory_at junk_at 3 (codes "d4:") stored ≡ done (emptied 7 70 stored, true)
open_meta-undecodable_example =
    open_meta-undecodable memory_at junk_at 7 70 (codes "d4:") [] stored (omega arith)
      run_undecodable memory_at-Holds (omega arith)

-- Where the number of bytes read is not the size of the file, the state stays.
run_short_read : open_meta memory_at junk_at 2 (codes "d4:") stored ≡ done (stored, false)
unfolding open_meta
run_short_read = refl
