-- ===== src/HttpStream/Lines.antt =====
-- The two loops of `read_some` of include/avhttp/impl/http_stream.ipp over a chunk's line and its
-- end.
use avhttp.Base.{
  ℕ, zero, suc, ◌+◌, ◌-◌, ◌≤◌, ◌<◌, true, false, Option, none, some, [], ◌∷◌, ◌++◌, append_assoc,
  append-nil, ◌==◌, All, ◌≡◌, refl, sym, ap, ◌∙◌, arith, Bytes, length, length-append,
}
use avhttp.HttpStream.{Error, Received, HttpStream, ends_crlf, read_some_impl, read_crlf, read_line}
use avhttp.HttpStream.Socket.{
  IsSocket, incoming, SameRest, prefix, head_eq, tail_eq, read_some_impl-Delivers,
}

-- No line feed.
abbrev pub OneLine : Bytes → Type 0
OneLine s = All (λ c. (c == 10) ≡ false) s

ends_crlf-snoc : (s : Bytes) (c : ℕ) → (c == 10) ≡ false → ends_crlf (s ++ (c ∷ [])) ≡ false
ends_crlf-snoc [] c h = refl
ends_crlf-snoc (d ∷ []) c h = rw h (ground arith)
ends_crlf-snoc (d ∷ e ∷ []) c h = ends_crlf-snoc (e ∷ []) c h
ends_crlf-snoc (d ∷ e ∷ f ∷ s) c h = ends_crlf-snoc (e ∷ f ∷ s) c h

ends_crlf-crlf : (s : Bytes) → ends_crlf ((s ++ (13 ∷ [])) ++ (10 ∷ [])) ≡ true
ends_crlf-crlf [] = refl
ends_crlf-crlf (d ∷ []) = refl
ends_crlf-crlf (d ∷ e ∷ []) = refl
ends_crlf-crlf (d ∷ e ∷ f ∷ s) = ends_crlf-crlf (e ∷ f ∷ s)

one_byte : (s : Bytes) → 0 < length s → length s ≤ 1 → (c : ℕ) × (s ≡ c ∷ [])
one_byte [] h k = absurd (omega arith)
one_byte (c ∷ []) h k = (c, refl)
one_byte (c ∷ d ∷ s) h k = absurd (omega arith)

module _ {S : Type 0} (read_socket : ℕ → S → Received S) (pending : S → Bytes)
    (law : IsSocket read_socket pending) where
  -- A loop that read `out`, with `t` left to read.
  pub record Reads (h : HttpStream S) (r : Option (HttpStream S × Bytes × Option Error))
      (out t : Bytes) : Type 0 where
    pub stream : HttpStream S
    pub ends : r ≡ some (stream, out, none)
    pub after : incoming read_socket pending law stream ≡ t
    pub same_rest : SameRest read_socket pending law h stream

  SameRest-trans :
      (h g k : HttpStream S)
      → SameRest read_socket pending law h g
      → SameRest read_socket pending law g k
      → SameRest read_socket pending law h k
  SameRest-trans h g k p q =
      q ∙ ap (λ (m : HttpStream S). record m { socket = k.socket; response = k.response }) p

  pub read_crlf-Reads :
      (rounds : ℕ) (h : HttpStream S) (got rest t : Bytes)
      → length got + length rest ≡ 2
      → length rest ≤ rounds
      → incoming read_socket pending law h ≡ rest ++ t
      → Reads h (read_crlf read_socket rounds got h) (got ++ rest) t
  unfolding read_crlf
  read_crlf-Reads zero h got [] t e l i =
      let two : (length got == 2) ≡ true = ground arith in
      record { stream = h; ends = rw (two, append-nil got) refl; after = i; same_rest = refl }
  read_crlf-Reads (suc rounds) h got [] t e l i =
      let two : (length got == 2) ≡ true = ground arith in
      record { stream = h; ends = rw (two, append-nil got) refl; after = i; same_rest = refl }
  read_crlf-Reads zero h got (c ∷ rest) t e l i = absurd (omega arith)
  read_crlf-Reads (suc rounds) h got (c ∷ rest) t e l i =
      let more : (length got == 2) ≡ false = ground arith in
      let r = read_some_impl read_socket (2 - length got) h in
      let d =
        read_some_impl-Delivers read_socket pending law (2 - length got) h c (rest ++ t)
          (omega arith) i in
      let p =
        prefix r.1 (incoming read_socket pending law r.0) (c ∷ rest) t (sym d.in_order ∙ i)
          (let z = d.room in omega arith) in
      let n : length (c ∷ rest) ≡ length r.1 + length p.left =
        ap length p.whole ∙ length-append r.1 p.left in
      let z = d.some_bytes in
      let next =
        read_crlf-Reads rounds r.0 (got ++ r.1) p.left t (omega (arith, length-append got r.1))
          (omega arith) p.behind in
      record {
        stream = next.stream;
        ends =
            rw (more, d.no_error)
              (next.ends
                ∙ ap (λ y. some (next.stream, y, none))
                    (append_assoc got r.1 p.left ∙ ap (λ y. got ++ y) (sym p.whole)));
        after = next.after;
        same_rest = SameRest-trans h r.0 next.stream d.same_rest next.same_rest;
      }

  record OneByte (h : HttpStream S) (c : ℕ) (t : Bytes) (r : HttpStream S × Bytes × Option Error)
      : Type 0 where
    no_error : r.2 ≡ none
    byte : r.1 ≡ c ∷ []
    after : incoming read_socket pending law r.0 ≡ t
    same_rest : SameRest read_socket pending law h r.0

  read_one :
      (h : HttpStream S) (c : ℕ) (t : Bytes)
      → incoming read_socket pending law h ≡ c ∷ t
      → OneByte h c t (read_some_impl read_socket 1 h)
  read_one h c t i =
      let d = read_some_impl-Delivers read_socket pending law 1 h c t (omega arith) i in
      let r = read_some_impl read_socket 1 h in
      let (b, e) = one_byte r.1 d.some_bytes d.room in
      let all : (b ∷ incoming read_socket pending law r.0) ≡ c ∷ t =
        ap (λ y. y ++ incoming read_socket pending law r.0) (sym e) ∙ sym d.in_order ∙ i in
      record {
        no_error = d.no_error;
        byte = e ∙ ap (λ y. y ∷ []) (head_eq b c (incoming read_socket pending law r.0) t all);
        after = tail_eq b c (incoming read_socket pending law r.0) t all;
        same_rest = d.same_rest;
      }

  -- One more character, which does not end the line.
  line_goes_on :
      (rounds : ℕ) (line out t u : Bytes) (c : ℕ) (h : HttpStream S)
      → incoming read_socket pending law h ≡ c ∷ u
      → ends_crlf (line ++ (c ∷ [])) ≡ false
      → ((g : HttpStream S)
          → incoming read_socket pending law g ≡ u
          → Reads g (read_line read_socket rounds (line ++ (c ∷ [])) g) out t)
      → Reads h (read_line read_socket (suc rounds) line h) out t
  unfolding read_line
  line_goes_on rounds line out t u c h i e next =
      let d = read_one h c u i in
      let r = read_some_impl read_socket 1 h in
      let n = next r.0 d.after in
      record {
        stream = n.stream;
        ends = rw (d.byte, e, d.no_error) n.ends;
        after = n.after;
        same_rest = SameRest-trans h r.0 n.stream d.same_rest n.same_rest;
      }

  -- The line feed that ends it.
  line_ends :
      (rounds : ℕ) (line t : Bytes) (h : HttpStream S)
      → incoming read_socket pending law h ≡ 10 ∷ t
      → Reads h
          (read_line read_socket (suc rounds) (line ++ (13 ∷ [])) h)
          ((line ++ (13 ∷ [])) ++ (10 ∷ []))
          t
  unfolding read_line
  line_ends rounds line t h i =
      let d = read_one h 10 t i in
      record {
        stream = (read_some_impl read_socket 1 h).0;
        ends = rw (d.byte, ends_crlf-crlf line, d.no_error) refl;
        after = d.after;
        same_rest = d.same_rest;
      }

  pub read_line-Reads :
      (rest line t : Bytes) (rounds : ℕ) (h : HttpStream S)
      → OneLine rest
      → length rest + 2 ≤ rounds
      → incoming read_socket pending law h ≡ rest ++ (13 ∷ 10 ∷ t)
      → Reads h (read_line read_socket rounds line h) ((line ++ rest) ++ (13 ∷ 10 ∷ [])) t
  read_line-Reads rest line t zero h o l i = absurd (omega arith)
  read_line-Reads [] line t (suc zero) h o l i = absurd (omega arith)
  read_line-Reads [] line t (suc (suc rounds)) h o l i =
      line_goes_on (suc rounds) line ((line ++ []) ++ (13 ∷ 10 ∷ [])) t (10 ∷ t) 13 h i
        (ends_crlf-snoc line 13 refl)
        (λ g q.
          rw (append-nil line, ← append_assoc line (13 ∷ []) (10 ∷ []))
            (line_ends rounds line t g q))
  read_line-Reads (c ∷ rest) line t (suc rounds) h (o, os) l i =
      line_goes_on rounds line ((line ++ (c ∷ rest)) ++ (13 ∷ 10 ∷ [])) t (rest ++ (13 ∷ 10 ∷ t)) c
        h i (ends_crlf-snoc line c o)
        (λ g q.
          rw (← append_assoc line (c ∷ []) rest)
            (read_line-Reads rest (line ++ (c ∷ [])) t rounds g os (omega arith) q))
