-- ===== src/MultiDownload/Meta/Written.antt =====
-- The entry of the meta file of include/avhttp/impl/multi_download.ipp, and reading its fields.
use avhttp.Base.{
  ℕ, ◌^◌, ◌<◌, ◌≤◌, true, none, some, [], ◌∷◌, ◌≡◌, refl, sym, ap, ◌∙◌, arith, Bytes, codes, length,
}
use avhttp.Base.Int.{pos}
use avhttp.Bencode.Access.{find_key, string_at, set_at}
use avhttp.Bencode.Decode.Steps.{IsCanonical, height}
use avhttp.Bencode.{Entry, integer, string, dictionary, field, end, key_lt, assign}
use avhttp.MultiDownload.Meta.{Download, done, meta_entry, take_url}
use avhttp.Rangefield.Pieces.{piece_num}
use avhttp.Url.RoundTrip.{from_string-empty}
use avhttp.Url.{Url, from_string}

-- The fields in the order of their keys.
abbrev pub written_entry : Bytes → ℕ → ℕ → ℕ → Bytes → Entry
written_entry url file_size piece_size pieces bits = dictionary (
    field (codes "bitfield") (string bits) (
      field (codes "file_size") (integer (pos file_size)) (
        field (codes "final_url") (string url) (
          field (codes "piece_num") (integer (pos pieces))
            (field (codes "piece_size") (integer (pos piece_size)) end)))))

pub meta_entry_lem :
    (url bits : Bytes) (file_size piece_size : ℕ)
    → meta_entry url file_size piece_size bits
      ≡ some (written_entry url file_size piece_size (piece_num file_size piece_size) bits)
unfolding meta_entry set_at assign key_lt
meta_entry_lem url bits file_size piece_size = refl

pub written_entry-IsCanonical :
    (url bits : Bytes) (file_size piece_size pieces : ℕ)
    → length url < 2 ^ 31
    → length bits < 2 ^ 31
    → file_size < 2 ^ 31
    → piece_size < 2 ^ 31
    → pieces < 2 ^ 31
    → IsCanonical (written_entry url file_size piece_size pieces bits)
unfolding IsCanonical key_lt
written_entry-IsCanonical url bits file_size piece_size pieces a b c d e = (
  omega arith,
  b,
  (refl, (refl, (refl, (refl, tt)))),
  (
    omega arith,
    omega arith,
    (refl, (refl, (refl, tt))),
    (
      omega arith,
      a,
      (refl, (refl, tt)),
      (omega arith, omega arith, (refl, tt), (omega arith, omega arith, tt, tt)),
    ),
  ),
)

pub written_entry-height :
    (url bits : Bytes) (file_size piece_size pieces : ℕ)
    → height (written_entry url file_size piece_size pieces bits) ≤ 100
unfolding height
written_entry-height url bits file_size piece_size pieces = omega arith

none-ne : {A : Type 0} {a : A} → none ≡ some a → ⊥
none-ne e = cc

url_taken :
    (url bits : Bytes) (u : Url) (file_size piece_size pieces : ℕ) (d : Download)
    → from_string url ≡ some u
    → let e = written_entry url file_size piece_size pieces bits in
      take_url true e d ≡ done (e, record d { final_url = u })
unfolding string_at find_key assign key_lt
url_taken [] bits u file_size piece_size pieces d h =
    let e = from_string-empty in absurd (none-ne (sym e ∙ h))
url_taken (c ∷ url) bits u file_size piece_size pieces d h = rw h refl

pub take_url-written :
    (url bits : Bytes) (u : Url) (file_size piece_size pieces : ℕ) (d : Download)
    → d.allow_use_meta_url ≡ true
    → from_string url ≡ some u
    → let e = written_entry url file_size piece_size pieces bits in
      take_url d.allow_use_meta_url e d ≡ done (e, record d { final_url = u })
take_url-written url bits u file_size piece_size pieces d allowed h =
    ap (λ t. take_url t (written_entry url file_size piece_size pieces bits) d) allowed
    ∙ url_taken url bits u file_size piece_size pieces d h
