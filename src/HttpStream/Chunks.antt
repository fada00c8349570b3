-- ===== src/HttpStream/Chunks.antt =====
-- `read_some` of include/avhttp/impl/http_stream.ipp over a chunked body: each call gives the next
-- bytes of the body.
use avhttp.Base.{
  ℕ, ◌+◌, ◌-◌, ◌≤◌, ◌<◌, min, Bool, true, false, Option, none, some, List, [], ◌∷◌, ◌++◌,
  append_assoc, ◌==◌, ◌>>=◌, if◌then◌else◌, All, ◌⊎◌, inl, inr, ◌≡◌, refl, sym, ap, ◌∙◌, arith,
  Bytes, length, length-append,
}
use avhttp.CStdlib.{hex_size}
use mathlib.Core.Path.{subst}
use avhttp.HttpStream.{
  Received, HttpStream, Result, result, eof_unless, read_plain, nothing_read, read_some_impl,
  read_crlf, read_line, read_data, after_size, read_size, after_crlf, read_chunked, read_some,
}
use avhttp.HttpStream.Socket.{IsSocket, incoming, prefix, read_some_impl-Delivers}
use avhttp.HttpStream.Lines.{OneLine, read_crlf-Reads, read_line-Reads}

-- A chunk: the line with its size, without the line break, and its content.
pub record Chunk : Type 0 where
  pub size_line : Bytes
  pub content : Bytes

abbrev pub crlf : Bytes → Bytes
crlf t = 13 ∷ 10 ∷ t

pub record IsChunk (c : Chunk) : Type 0 where
  pub one_line : OneLine c.size_line
  pub size : hex_size (c.size_line ++ crlf []) ≡ length c.content
  pub nonempty : 0 < length c.content

-- What stands behind the last chunk: its line, and the rest.
pub record Last : Type 0 where
  pub last_line : Bytes
  pub trailer : Bytes

pub record IsLast (l : Last) : Type 0 where
  pub one_line : OneLine l.last_line
  pub zero_size : hex_size (l.last_line ++ crlf []) ≡ 0

-- The text of the chunks, up to the last.
abbrev pub chunks_text : Last → List Chunk → Bytes
chunks_text l [] = l.last_line ++ crlf l.trailer
chunks_text l (c ∷ cs) = c.size_line ++ crlf (c.content ++ crlf (chunks_text l cs))

abbrev pub contents : List Chunk → Bytes
contents [] = []
contents (c ∷ cs) = c.content ++ contents cs

-- Where a stream is: in front of the first chunk, or in one, of which a part is left.
pub data Phase : Type 0 where
  first : Phase
  within : Bytes → Phase

abbrev pub upcoming : Last → Phase → List Chunk → Bytes
upcoming l first cs = chunks_text l cs
upcoming l (within part) cs = part ++ crlf (chunks_text l cs)

abbrev pub part_left : Phase → Bytes
part_left first = []
part_left (within part) = part

abbrev pub is_first : Phase → Bool
is_first first = true
is_first (within part) = false

-- What `read_some` comes down to on a chunked body.
module _ {S : Type 0} (read_socket : ℕ → S → Received S) where
  pub read_some-inside :
      (rounds size : ℕ) (h : HttpStream S)
      → h.is_chunked ≡ true
      → 0 < h.chunked_size
      → read_some read_socket rounds size none h ≡ some (read_data read_socket size h)
  unfolding read_some read_chunked
  read_some-inside rounds size h c p =
      let some_left : (h.chunked_size == 0) ≡ false = ground arith in
      ap
        (λ b.
          if b
          then read_chunked read_socket rounds size none h
          else some (read_plain read_socket size none h))
        c
      ∙ rw some_left refl

  read_some-line :
      (rounds size : ℕ) (h : HttpStream S)
      → h.is_chunked ≡ true
      → h.chunked_size ≡ 0
      → h.skip_crlf ≡ true
      → read_some read_socket rounds size none h ≡ read_size read_socket rounds size none h
  unfolding read_some read_chunked
  read_some-line rounds size h c p s =
      let none_left : (h.chunked_size == 0) ≡ true = ground arith in
      ap
        (λ b.
          if b
          then read_chunked read_socket rounds size none h
          else some (read_plain read_socket size none h))
        c
      ∙ rw none_left (
          ap
            (λ b.
              if b
              then read_size read_socket rounds size none h
              else (read_crlf read_socket rounds [] h >>= after_crlf read_socket rounds size))
            s)

  pub read_some-behind :
      (rounds size : ℕ) (h : HttpStream S)
      → h.is_chunked ≡ true
      → h.chunked_size ≡ 0
      → h.skip_crlf ≡ false
      → read_some read_socket rounds size none h
        ≡ (read_crlf read_socket rounds [] h >>= after_crlf read_socket rounds size)
  unfolding read_some read_chunked
  read_some-behind rounds size h c p s =
      let none_left : (h.chunked_size == 0) ≡ true = ground arith in
      ap
        (λ b.
          if b
          then read_chunked read_socket rounds size none h
          else some (read_plain read_socket size none h))
        c
      ∙ rw none_left (
          ap
            (λ b.
              if b
              then read_size read_socket rounds size none h
              else (read_crlf read_socket rounds [] h >>= after_crlf read_socket rounds size))
            s)

  read_some-crlf :
      (rounds size : ℕ) (h g : HttpStream S)
      → h.is_chunked ≡ true
      → h.chunked_size ≡ 0
      → h.skip_crlf ≡ false
      → read_crlf read_socket rounds [] h ≡ some (g, crlf [], none)
      → g.is_chunked_end ≡ false
      → read_some read_socket rounds size none h ≡ read_size read_socket rounds size none g
  unfolding after_crlf
  read_some-crlf rounds size h g c p s e o =
      read_some-behind rounds size h c p s
      ∙ ap (λ r. r >>= after_crlf read_socket rounds size) e
      ∙ ap
          (λ b.
            if b
            then some (nothing_read 0 g (eof_unless g.keep_alive none))
            else read_size read_socket rounds size none g)
          o

module _ {S : Type 0} (read_socket : ℕ → S → Received S) (pending : S → Bytes)
    (law : IsSocket read_socket pending) (l : Last) (kept : Bool) where
  -- The stream, which the server keeps alive or not as `kept` says, is at a place of a chunked
  -- body, of which `body` is still to come.
  pub record Expects (h : HttpStream S) (body : Bytes) : Type 0 where
    pub phase : Phase
    pub chunks : List Chunk
    pub text : incoming read_socket pending law h ≡ upcoming l phase chunks
    pub sized : h.chunked_size ≡ length (part_left phase)
    pub skips : h.skip_crlf ≡ is_first phase
    pub chunked : h.is_chunked ≡ true
    pub goes_on : h.is_chunked_end ≡ false
    pub kept_alive : h.keep_alive ≡ kept
    pub good : All IsChunk chunks
    pub last : IsLast l
    pub remains : body ≡ part_left phase ++ contents chunks

  -- A call that gave the next bytes of the body.
  pub record Gives (limit size : ℕ) (body : Bytes) (r : Option (Result S)) : Type 0 where
    pub stream : HttpStream S
    pub bytes : Bytes
    pub left : Bytes
    pub returns : r ≡ some (result stream bytes none)
    pub some_bytes : 0 < length bytes
    pub room : length bytes ≤ size
    pub in_order : body ≡ bytes ++ left
    pub expects : Expects stream left
    pub no_longer : length (incoming read_socket pending law stream) ≤ limit

  -- A call at the end of the body.
  pub record Finishes (body : Bytes) (r : Option (Result S)) : Type 0 where
    pub stream : HttpStream S
    pub nothing_left : body ≡ []
    pub returns : r ≡ some (nothing_read 0 stream (eof_unless kept none))

  abbrev pub Progress : ℕ → ℕ → Bytes → Option (Result S) → Type 0
  Progress limit size body r = Gives limit size body r ⊎ Finishes body r

  -- Inside a chunk.
  read_data-Gives :
      (limit size : ℕ) (h : HttpStream S) (c : ℕ) (part : Bytes) (cs : List Chunk)
      → 0 < size
      → length (incoming read_socket pending law h) ≤ limit
      → incoming read_socket pending law h ≡ upcoming l (within (c ∷ part)) cs
      → h.chunked_size ≡ length (c ∷ part)
      → h.skip_crlf ≡ false
      → h.is_chunked ≡ true
      → h.is_chunked_end ≡ false
      → h.keep_alive ≡ kept
      → All IsChunk cs
      → IsLast l
      → Gives limit size ((c ∷ part) ++ contents cs) (some (read_data read_socket size h))
  unfolding read_data
  read_data-Gives limit size h c part cs p enough text sized skips chunked goes_on alive good last =
      let n = min size h.chunked_size in
      let r = read_some_impl read_socket n h in
      let g = r.0 in
      let d =
        read_some_impl-Delivers read_socket pending law n h c (part ++ crlf (chunks_text l cs))
          (omega arith) text in
      let q =
        prefix r.1 (incoming read_socket pending law g) (c ∷ part) (crlf (chunks_text l cs))
          (sym d.in_order ∙ text) (let z = d.room in omega arith) in
      let count : length (c ∷ part) ≡ length r.1 + length q.left =
        ap length q.whole ∙ length-append r.1 q.left in
      let same_size : g.chunked_size ≡ h.chunked_size =
        ap (λ (m : HttpStream S). m.chunked_size) d.same_rest in
      record {
        stream = record g { chunked_size = g.chunked_size - length r.1 };
        bytes = r.1;
        left = q.left ++ contents cs;
        returns =
            ap (λ e. some (result (record g { chunked_size = g.chunked_size - length r.1 }) r.1 e))
              d.no_error;
        some_bytes = d.some_bytes;
        room = let z = d.room in omega arith;
        in_order = ap (λ y. y ++ contents cs) q.whole ∙ append_assoc r.1 q.left (contents cs);
        expects = record {
          phase = within q.left;
          chunks = cs;
          text = q.behind;
          sized = omega arith;
          skips = ap (λ (m : HttpStream S). m.skip_crlf) d.same_rest ∙ skips;
          chunked = ap (λ (m : HttpStream S). m.is_chunked) d.same_rest ∙ chunked;
          goes_on = ap (λ (m : HttpStream S). m.is_chunked_end) d.same_rest ∙ goes_on;
          kept_alive = ap (λ (m : HttpStream S). m.keep_alive) d.same_rest ∙ alive;
          good = good;
          last = last;
          remains = refl;
        };
        no_longer =
            let z = ap length d.in_order in
            omega (arith, length-append r.1 (incoming read_socket pending law g));
      }

  -- The stream behind the line of a chunk, whose text is `out`.
  abbrev sized_stream : HttpStream S → Bytes → HttpStream S
  sized_stream g out = record g { chunked_size = hex_size out; skip_crlf = false }

  read_size-line :
      (rounds size : ℕ) (h g : HttpStream S) (out : Bytes)
      → read_line read_socket rounds [] h ≡ some (g, out, none)
      → read_size read_socket rounds size none h
        ≡ some (after_size read_socket size (sized_stream g out))
  unfolding read_size
  read_size-line rounds size h g out e = rw e refl

  after_size-nonzero :
      (size : ℕ) (h : HttpStream S)
      → 0 < h.chunked_size
      → after_size read_socket size h ≡ read_data read_socket size h
  unfolding after_size
  after_size-nonzero size h p = let e : (h.chunked_size == 0) ≡ false = ground arith in rw e refl

  after_size-zero :
      (size : ℕ) (h : HttpStream S)
      → h.chunked_size ≡ 0
      → h.keep_alive ≡ kept
      → after_size read_socket size h
        ≡ nothing_read 0 (record h { is_chunked_end = true }) (eof_unless kept none)
  unfolding after_size
  after_size-zero size h e k =
      let z : (h.chunked_size == 0) ≡ true = ground arith in
      ap
        (λ b.
          if b
          then nothing_read 0 (record h { is_chunked_end = true }) (eof_unless h.keep_alive none)
          else read_data read_socket size h)
        z
      ∙ ap (λ b. nothing_read 0 (record h { is_chunked_end = true }) (eof_unless b none)) k

  chunk-Gives :
      (limit size : ℕ) (h : HttpStream S) (content : Bytes) (cs : List Chunk)
      → 0 < size
      → length (incoming read_socket pending law h) ≤ limit
      → incoming read_socket pending law h ≡ content ++ crlf (chunks_text l cs)
      → h.chunked_size ≡ length content
      → 0 < length content
      → h.skip_crlf ≡ false
      → h.is_chunked ≡ true
      → h.is_chunked_end ≡ false
      → h.keep_alive ≡ kept
      → All IsChunk cs
      → IsLast l
      → Gives limit size (content ++ contents cs) (some (after_size read_socket size h))
  chunk-Gives limit size h [] cs p enough text sized nonempty skips chunked goes_on alive good
        last =
      absurd (omega arith)
  chunk-Gives limit size h (c ∷ part) cs p enough text sized nonempty skips chunked goes_on alive
        good last =
      rw (after_size-nonzero size h (omega arith)) (
        read_data-Gives limit size h c part cs p enough text sized skips chunked goes_on alive good
          last)

  read_size-Progress :
      (rounds size : ℕ) (h : HttpStream S) (cs : List Chunk)
      → 0 < size
      → length (incoming read_socket pending law h) ≤ rounds
      → incoming read_socket pending law h ≡ chunks_text l cs
      → h.is_chunked ≡ true
      → h.is_chunked_end ≡ false
      → h.keep_alive ≡ kept
      → All IsChunk cs
      → IsLast l
      → Progress rounds size (contents cs) (read_size read_socket rounds size none h)
  read_size-Progress rounds size h [] p enough text chunked goes_on alive good last =
      let n : length (incoming read_socket pending law h)
          ≡ length l.last_line + (2 + length l.trailer) =
        ap length text ∙ length-append l.last_line (crlf l.trailer) ∙ omega arith in
      let r =
        read_line-Reads read_socket pending law l.last_line [] l.trailer rounds h last.one_line
          (omega arith) text in
      let g = sized_stream r.stream (l.last_line ++ crlf []) in
      inr (record {
        stream = record g { is_chunked_end = true };
        nothing_left = refl;
        returns =
            read_size-line rounds size h r.stream (l.last_line ++ crlf []) r.ends
            ∙ ap some (
                after_size-zero size g last.zero_size
                  (ap (λ (m : HttpStream S). m.keep_alive) r.same_rest ∙ alive));
      })
  read_size-Progress rounds size h (c ∷ cs) p enough text chunked goes_on alive (good, goods) last =
      let t = c.content ++ crlf (chunks_text l cs) in
      let n : length (incoming read_socket pending law h) ≡ length c.size_line + (2 + length t) =
        ap length text ∙ length-append c.size_line (crlf t) ∙ omega arith in
      let r =
        read_line-Reads read_socket pending law c.size_line [] t rounds h good.one_line
          (omega arith) text in
      let g = sized_stream r.stream (c.size_line ++ crlf []) in
      rw (read_size-line rounds size h r.stream (c.size_line ++ crlf []) r.ends) (
        inl (
          chunk-Gives rounds size g c.content cs p (let m = ap length r.after in omega arith)
            r.after good.size good.nonempty refl
            (ap (λ (m : HttpStream S). m.is_chunked) r.same_rest ∙ chunked)
            (ap (λ (m : HttpStream S). m.is_chunked_end) r.same_rest ∙ goes_on)
            (ap (λ (m : HttpStream S). m.keep_alive) r.same_rest ∙ alive) goods last))

  at_each_phase :
      (rounds size : ℕ) (h : HttpStream S) (phase : Phase) (cs : List Chunk)
      → 0 < size
      → length (incoming read_socket pending law h) ≤ rounds
      → incoming read_socket pending law h ≡ upcoming l phase cs
      → h.chunked_size ≡ length (part_left phase)
      → h.skip_crlf ≡ is_first phase
      → h.is_chunked ≡ true
      → h.is_chunked_end ≡ false
      → h.keep_alive ≡ kept
      → All IsChunk cs
      → IsLast l
      → Progress rounds size
          (part_left phase ++ contents cs)
          (read_some read_socket rounds size none h)
  at_each_phase rounds size h first cs p enough text sized skips chunked goes_on alive good last =
      rw (read_some-line read_socket rounds size h chunked sized skips)
        (read_size-Progress rounds size h cs p enough text chunked goes_on alive good last)
  at_each_phase rounds size h (within []) cs p enough text sized skips chunked goes_on alive good
        last =
      let n = ap length text in
      let r =
        read_crlf-Reads read_socket pending law rounds h [] (crlf []) (chunks_text l cs) refl
          (omega arith) text in
      let unended = ap (λ (m : HttpStream S). m.is_chunked_end) r.same_rest ∙ goes_on in
      let shorter : length (incoming read_socket pending law r.stream) ≤ rounds =
        let m = ap length r.after in omega arith in
      rw (read_some-crlf read_socket rounds size h r.stream chunked sized skips r.ends unended) (
        read_size-Progress rounds size r.stream cs p shorter r.after
          (ap (λ (m : HttpStream S). m.is_chunked) r.same_rest ∙ chunked) unended
          (ap (λ (m : HttpStream S). m.keep_alive) r.same_rest ∙ alive) good last)
  at_each_phase rounds size h (within (c ∷ part)) cs p enough text sized skips chunked goes_on alive
        good last =
      rw (read_some-inside read_socket rounds size h chunked (omega arith)) (
        inl (
          read_data-Gives rounds size h c part cs p enough text sized skips chunked goes_on alive
            good last))

  -- At any place of a chunked body, a call with room for a byte ends, and either gives the next
  -- bytes of the body, one at least, in order, or gives none where the body is at its end. Then it
  -- reports the end of the file, or no error if the stream is kept alive.
  pub read_some-Progress :
      (rounds size : ℕ) (h : HttpStream S) (body : Bytes)
      → 0 < size
      → length (incoming read_socket pending law h) ≤ rounds
      → Expects h body
      → Progress rounds size body (read_some read_socket rounds size none h)
  read_some-Progress rounds size h body p enough x = ap_progress (sym x.remains) (
      at_each_phase rounds size h x.phase x.chunks p enough x.text x.sized x.skips x.chunked
        x.goes_on x.kept_alive x.good x.last)
    where
      ap_progress :
          {b d : Bytes}
          → b ≡ d
          → Progress rounds size b (read_some read_socket rounds size none h)
          → Progress rounds size d (read_some read_socket rounds size none h)
      ap_progress e =
          subst (λ d. Progress rounds size d (read_some read_socket rounds size none h)) e
