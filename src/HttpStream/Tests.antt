-- ===== src/HttpStream/Tests.antt =====
-- Runs of `read_some` of include/avhttp/impl/http_stream.ipp on a socket whose text arrives in
-- segments, and the theorems at them.
use avhttp.Base.{
  ℕ, zero, suc, ◌≤◌, ◌<◌, true, false, none, some, List, [], ◌∷◌, ◌++◌, append_assoc, ◌≡◌, refl,
  sym, ap, ◌∙◌, arith, Bytes, codes, length,
}
use avhttp.CStdlib.{is_space, hex_size, skip_space, skip_prefix, hex_digits_value}
use avhttp.Escape.{hex_value}
use avhttp.HttpStream.{
  eof, shut_down, invalid_chunked_encoding, Received, HttpStream, result, nothing_read, take, drop,
  from_socket, read_some_impl, read_crlf, read_line, read_data, after_size, read_size, after_crlf,
  read_chunked, read_plain, read_some,
}
use avhttp.HttpStream.Body.{read_to_end, read_to_end_lem}
use avhttp.HttpStream.Chunks.{Last, first, Expects, Progress, read_some-Progress}
use avhttp.HttpStream.Faults.{read_some-bad_crlf}
use avhttp.HttpStream.Socket.{IsSocket, take-drop}

-- A socket that has these segments to give.
abbrev read_segments : ℕ → List Bytes → Received (List Bytes)
read_segments n [] = record { socket = []; bytes = []; error = some eof }
read_segments n ([] ∷ segments) = read_segments n segments
read_segments n ((c ∷ s) ∷ segments) = record {
  socket = drop n (c ∷ s) ∷ segments;
  bytes = take n (c ∷ s);
  error = none;
}

abbrev joined : List Bytes → Bytes
joined [] = []
joined (s ∷ segments) = s ++ joined segments

segments_arrive :
    (n : ℕ) (s : List Bytes) (c : ℕ) (t : Bytes)
    → 0 < n
    → joined s ≡ c ∷ t
    → let r = read_segments n s in
      (r.error ≡ none)
      × (0 < length r.bytes)
      × (length r.bytes ≤ n)
      × (joined s ≡ r.bytes ++ joined r.socket)
unfolding take drop
segments_arrive n [] c t p e = absurd (empty e)
  where
    empty : {c : ℕ} {t : Bytes} → [] ≡ c ∷ t → ⊥
    empty e = cc
segments_arrive n ([] ∷ segments) c t p e = segments_arrive n segments c t p e
segments_arrive zero ((d ∷ s) ∷ segments) c t p e = absurd (omega arith)
segments_arrive (suc n) ((d ∷ s) ∷ segments) c t p e = (
  refl,
  omega arith,
  short n s,
  ap (λ y. (d ∷ y) ++ joined segments) (sym (take-drop n s))
      ∙ ap (λ y. d ∷ y) (append_assoc (take n s) (drop n s) (joined segments)),
)
  where
    short : (n : ℕ) (s : Bytes) → suc (length (take n s)) ≤ suc n
    short zero s = omega arith
    short (suc n) [] = omega arith
    short (suc n) (c ∷ s) = omega (arith, short n s)

segments_end :
    (n : ℕ) (s : List Bytes)
    → 0 < n
    → joined s ≡ []
    → let r = read_segments n s in (r.error ≡ some eof) × (r.bytes ≡ []) × (joined r.socket ≡ [])
segments_end n [] p e = (refl, refl, refl)
segments_end n ([] ∷ segments) p e = segments_end n segments p e
segments_end n ((d ∷ s) ∷ segments) p e = absurd (full e)
  where
    full : {c : ℕ} {t : Bytes} → c ∷ t ≡ [] → ⊥
    full e = cc

segments-IsSocket : IsSocket read_segments joined
segments-IsSocket = record { arrives = segments_arrive; ends = segments_end }

abbrev stream_of : Bytes → List Bytes → HttpStream (List Bytes)
stream_of response segments = record {
  socket = segments;
  response = response;
  is_chunked = true;
  is_chunked_end = false;
  skip_crlf = true;
  chunked_size = 0;
  keep_alive = false;
  content_length = none;
  body_size = 0;
}

abbrev line_end : Bytes
line_end = 13 ∷ 10 ∷ []

-- The first characters came with the header, the rest in two segments.
abbrev sample : HttpStream (List Bytes)
sample = stream_of (codes "5") (
    (13 ∷ 10 ∷ codes "hel")
    ∷ (codes "lo"
        ++ line_end
        ++ codes "3;x=y"
        ++ line_end
        ++ codes "abc"
        ++ line_end
        ++ codes "0"
        ++ line_end
        ++ line_end)
    ∷ [])

run_sample : read_to_end read_segments 9 60 4 sample ≡ some (codes "helloabc", eof)
unfolding read_to_end read_some read_chunked read_size read_line read_crlf after_crlf after_size
    read_data read_some_impl from_socket take drop is_space hex_size skip_prefix hex_digits_value
    hex_value
run_sample = refl

abbrev last_chunk : Last
last_chunk = record { last_line = codes "0"; trailer = line_end }

sample-Expects :
    Expects read_segments joined segments-IsSocket last_chunk false sample (codes "helloabc")
unfolding is_space hex_size skip_prefix hex_digits_value hex_value
sample-Expects = record {
  phase = first;
  chunks =
      record { size_line = codes "5"; content = codes "hello" }
      ∷ record { size_line = codes "3;x=y"; content = codes "abc" }
      ∷ [];
  text = refl;
  sized = refl;
  skips = refl;
  chunked = refl;
  goes_on = refl;
  kept_alive = refl;
  good = (
    record { one_line = (refl, tt); size = refl; nonempty = omega arith },
    (
      record {
        one_line = (refl, (refl, (refl, (refl, (refl, tt)))));
        size = refl;
        nonempty = omega arith;
      },
      tt,
    ),
  );
  last = record { one_line = (refl, tt); zero_size = refl };
  remains = refl;
}

read_some-Progress_example :
    Progress read_segments joined segments-IsSocket last_chunk false 60 4
      (codes "helloabc")
      (read_some read_segments 60 4 none sample)
read_some-Progress_example =
    read_some-Progress read_segments joined segments-IsSocket last_chunk false 60 4 sample
      (codes "helloabc") (omega arith) (omega arith) sample-Expects

read_to_end_lem_example : read_to_end read_segments 9 60 4 sample ≡ some (codes "helloabc", eof)
read_to_end_lem_example =
    read_to_end_lem read_segments joined segments-IsSocket last_chunk 9 60 4 sample
      (codes "helloabc") (omega arith) (omega arith) (omega arith) sample-Expects

abbrev behind_chunk : HttpStream (List Bytes)
behind_chunk = record (stream_of [] (codes "x" ∷ codes "yz" ∷ [])) { skip_crlf = false }

read_some-bad_crlf_example :
    (g : HttpStream (List Bytes)) × (read_some read_segments 3 4 none behind_chunk
      ≡ some (nothing_read 2 g (some invalid_chunked_encoding)))
read_some-bad_crlf_example =
    read_some-bad_crlf read_segments joined segments-IsSocket 3 4 behind_chunk b'x' b'y' (codes "z")
      (omega arith) refl refl refl refl refl refl

-- Without chunks, a stream that is kept alive stops at the content length; `ec` stays as it was.
run_plain :
    (read_some read_segments 1 4 none
        (record (stream_of [] (codes "abcdef" ∷ [])) { is_chunked = false })
      ≡ some (
          result
            (record (stream_of [] (codes "ef" ∷ [])) { is_chunked = false; body_size = 4 })
            (codes "abcd")
            none))
    × (read_some read_segments 1 4 (some shut_down) (record (stream_of [] (codes "ab" ∷ [])) {
      is_chunked = false;
      keep_alive = true;
      content_length = some 0;
    })
        ≡ some (
            nothing_read 0
              (record (stream_of [] (codes "ab" ∷ [])) {
                is_chunked = false;
                keep_alive = true;
                content_length = some 0;
              })
              (some shut_down)))
unfolding read_some read_plain read_some_impl from_socket take drop
run_plain = (refl, refl)

run_hex :
    (hex_size (codes "1aF;x") ≡ 431)
    × (hex_size (codes " 0x10") ≡ 16)
    × (hex_size (codes "zz") ≡ 0)
    × (hex_size (codes "-1") ≡ 18446744073709551615)
unfolding is_space hex_size skip_space skip_prefix hex_digits_value hex_value
run_hex = (refl, refl, refl, refl)
