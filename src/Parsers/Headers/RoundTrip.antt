-- ===== src/Parsers/Headers/RoundTrip.antt =====
-- The two `parse_http_headers` of include/avhttp/detail/parsers.hpp read a block of headers, each
-- on its line, up to the empty line.
use avhttp.Base.{
  ℕ, Bool, true, false, ◌||◌, List, [], ◌∷◌, ◌++◌, append_assoc, append-nil, ◌≡◌, ◌≢◌, refl, sym,
  ◌∙◌, ap, arith, ◌==◌, if◌then◌else◌, Bytes, All,
}
use avhttp.CStdlib.{is_space, trim_end, trim}
use avhttp.Escape.{is_char, is_ctl, is_tspecial}
use avhttp.Parsers.Headers.{
  Known, check_header, HeaderState, first_header_line_start, header_line_start, header_name,
  space_before_header_value, header_value, final_linefeed, HeaderParser, is_bad_name, finish_header,
  run, parse_http_headers,
}

abbrev pub at : HeaderState → Bytes → Bytes → Known → List (Bytes × Bytes) → HeaderParser
at state name value known headers = record {
  state = state;
  name = name;
  value = value;
  known = known;
  headers = headers;
}

abbrev pub IsNameChar : ℕ → Type 0
IsNameChar c = (is_bad_name c ≡ false) × ((c == b':') ≡ false)

abbrev pub IsValueChar : ℕ → Type 0
IsValueChar c = is_ctl c ≡ false

-- A header that can be written on one line.
abbrev pub IsHeader : Bytes × Bytes → Type 0
IsHeader (name, value) =
    (name ≢ []) × All IsNameChar name × All IsValueChar value × (trim value ≡ value)

-- `name: value`, and the end of the line.
abbrev pub header_line : Bytes × Bytes → Bytes → Bytes
header_line (name, value) rest = name ++ (b':' ∷ b' ' ∷ (value ++ (b'\r' ∷ b'\n' ∷ rest)))

abbrev pub header_lines : List (Bytes × Bytes) → Bytes → Bytes
header_lines [] rest = rest
header_lines (h ∷ hs) rest = header_line h (header_lines hs rest)

-- What the calls of `check_header` leave.
abbrev pub check_all : List (Bytes × Bytes) → Known → Known
check_all [] k = k
check_all ((name, value) ∷ hs) k = check_all hs (check_header name value k)

pub NoSpace : ℕ → Type 0
NoSpace c = is_space c ≡ false

trim_end-NoSpace : (s : Bytes) → All NoSpace s → trim_end s ≡ s
unfolding trim_end NoSpace
trim_end-NoSpace [] h = refl
trim_end-NoSpace (c ∷ []) (p, h) = rw p
trim_end-NoSpace (c ∷ d ∷ s) (p, h) = rw (trim_end-NoSpace (d ∷ s) h)

pub trim-NoSpace : (s : Bytes) → All NoSpace s → trim s ≡ s
unfolding trim NoSpace
trim-NoSpace [] h = refl
trim-NoSpace (c ∷ s) (p, h) = rw p (trim_end-NoSpace (c ∷ s) (p, h))

name_char-NoSpace : (c : ℕ) → IsNameChar c → NoSpace c
unfolding NoSpace is_space is_char is_ctl is_tspecial
name_char-NoSpace c h = ground arith

pub name-NoSpace : (s : Bytes) → All IsNameChar s → All NoSpace s
name-NoSpace [] h = tt
name-NoSpace (c ∷ s) (p, h) = (name_char-NoSpace c p, name-NoSpace s h)

pub name_not_cr : (c : ℕ) → IsNameChar c → (c == b'\r') ≡ false
unfolding is_char is_ctl is_tspecial
name_not_cr c h = ground arith

name_not_blank : (c : ℕ) → IsNameChar c → (c == b' ' || c == b'\t') ≡ false
unfolding is_char is_ctl is_tspecial
name_not_blank c h = ground arith

value_not_cr : (c : ℕ) → IsValueChar c → (c == b'\r') ≡ false
unfolding is_ctl
value_not_cr c h = ground arith

module _ (listing : Bool) where
  pub run-name :
      (n rest name value : Bytes) (k : Known) (hs : List (Bytes × Bytes))
      → All IsNameChar n
      → run listing (at header_name name value k hs) (n ++ (b':' ∷ rest))
        ≡ run listing (at space_before_header_value (name ++ n) value k hs) rest
  unfolding run
  run-name [] rest name value k hs h = rw append-nil
  run-name (c ∷ n) rest name value k hs ((p, q), h) =
      rw (q, p) (run-name n rest (name ++ c ∷ []) value k hs h ∙ rw append_assoc)

  pub run-value :
      (v rest name value : Bytes) (k : Known) (hs : List (Bytes × Bytes))
      → All IsValueChar v
      → run listing (at header_value name value k hs) (v ++ (b'\r' ∷ b'\n' ∷ rest))
        ≡ run listing (at header_line_start name (value ++ v) k hs) rest
  unfolding run
  run-value [] rest name value k hs h = rw append-nil
  run-value (c ∷ v) rest name value k hs (p, h) =
      rw (value_not_cr c p, p) (run-value v rest name (value ++ c ∷ []) k hs h ∙ rw append_assoc)

-- The lenient overload keeps the blank behind the colon for `trim`.
abbrev pub lead : Bool → Bytes
lead false = []
lead true = b' ' ∷ []

pub run_blank :
    (listing : Bool) (s name : Bytes) (k : Known) (hs : List (Bytes × Bytes))
    → run listing (at space_before_header_value name [] k hs) (b' ' ∷ s)
      ≡ run listing (at header_value name (lead listing) k hs) s
unfolding run is_ctl
run_blank true s name k hs = refl
run_blank false s name k hs = refl

pub trim-lead : (listing : Bool) (v : Bytes) → trim (lead listing ++ v) ≡ trim v
unfolding trim is_space
trim-lead true v = refl
trim-lead false v = refl

-- The list after the headers `hs`, if the overload has one.
abbrev pub listed : Bool → List (Bytes × Bytes) → List (Bytes × Bytes) → List (Bytes × Bytes)
listed listing headers hs = if listing then headers ++ hs else headers

listed-append :
    (listing : Bool) (headers hs hs' : List (Bytes × Bytes))
    → listed listing (listed listing headers hs) hs' ≡ listed listing headers (hs ++ hs')
listed-append true headers hs hs' = append_assoc headers hs hs'
listed-append false headers hs hs' = refl

listed-nil : (listing : Bool) (headers : List (Bytes × Bytes)) → headers ≡ listed listing headers []
listed-nil true headers = sym (append-nil headers)
listed-nil false headers = refl

finish_header-at :
    (listing : Bool) (n v : Bytes) (k : Known) (hs : List (Bytes × Bytes))
    → IsHeader (n, v)
    → finish_header listing (at header_line_start n (lead listing ++ v) k hs)
      ≡ at header_line_start [] [] (check_header n v k) (listed listing hs ((n, v) ∷ []))
unfolding finish_header
finish_header-at listing n v k hs (ne, hn, hv, tv) =
    rw (trim-NoSpace n (name-NoSpace n hn), trim-lead listing v) (rw tv)

-- From the first character of a name to the next line.
run-header_line :
    (listing : Bool) (c : ℕ) (n v rest : Bytes) (k : Known) (hs : List (Bytes × Bytes))
    → IsHeader (c ∷ n, v)
    → run listing
        (at header_name (c ∷ []) [] k hs)
        (n ++ (b':' ∷ b' ' ∷ (v ++ (b'\r' ∷ b'\n' ∷ rest))))
      ≡ run listing (at header_line_start (c ∷ n) (lead listing ++ v) k hs) rest
run-header_line listing c n v rest k hs (ne, (_, hn), hv, tv) =
    run-name listing n _ (c ∷ []) [] k hs hn
    ∙ run_blank listing _ (c ∷ n) k hs
    ∙ run-value listing v rest (c ∷ n) (lead listing) k hs hv

next_header :
    (listing : Bool) (c : ℕ) (s n v : Bytes) (k : Known) (hs : List (Bytes × Bytes))
    → IsHeader (n, v)
    → IsNameChar c
    → run listing (at header_line_start n (lead listing ++ v) k hs) (c ∷ s)
      ≡ run listing
          (at header_name (c ∷ []) [] (check_header n v k) (listed listing hs ((n, v) ∷ [])))
          s
unfolding run
next_header listing c s n v k hs h p =
    rw (name_not_cr c p, name_not_blank c p)
      (rw p.0 (
        ap (λ q. run listing (record q { name = c ∷ []; state = header_name }) s)
          (finish_header-at listing n v k hs h)))

last_header :
    (listing : Bool) (rest n v : Bytes) (k : Known) (hs : List (Bytes × Bytes))
    → IsHeader (n, v)
    → run listing (at header_line_start n (lead listing ++ v) k hs) (b'\r' ∷ b'\n' ∷ rest)
      ≡ (true, at final_linefeed [] [] (check_header n v k) (listed listing hs ((n, v) ∷ [])))
unfolding run
last_header listing rest n v k hs h =
    ap (λ q. (true, record q { state = final_linefeed })) (finish_header-at listing n v k hs h)

run-header_lines :
    (listing : Bool) (more : List (Bytes × Bytes)) (rest n v : Bytes) (k : Known)
    (hs : List (Bytes × Bytes))
    → IsHeader (n, v)
    → All IsHeader more
    → run listing
        (at header_line_start n (lead listing ++ v) k hs)
        (header_lines more (b'\r' ∷ b'\n' ∷ rest))
      ≡ (
        true,
        at final_linefeed [] [] (check_all ((n, v) ∷ more) k) (listed listing hs ((n, v) ∷ more)),
      )
run-header_lines listing [] rest n v k hs h m = last_header listing rest n v k hs h
run-header_lines listing (([], v') ∷ more) rest n v k hs h (h', m) = absurd (h'.0 refl)
run-header_lines listing ((c ∷ n', v') ∷ more) rest n v k hs h (h', m) =
    next_header listing c _ n v k hs h h'.1.0
    ∙ run-header_line listing c n' v' _ _ _ h'
    ∙ run-header_lines listing more rest (c ∷ n') v' (check_header n v k) _ h' m
    ∙ ap (λ l. (true, at final_linefeed [] [] (check_all ((n, v) ∷ (c ∷ n', v') ∷ more) k) l))
        (listed-append listing hs ((n, v) ∷ []) ((c ∷ n', v') ∷ more))

pub first_char :
    (listing : Bool) (c : ℕ) (s : Bytes) (k : Known) (hs : List (Bytes × Bytes))
    → IsNameChar c
    → run listing (at first_header_line_start [] [] k hs) (c ∷ s)
      ≡ run listing (at header_name (c ∷ []) [] k hs) s
unfolding run
first_char listing c s k hs p = rw (name_not_cr c p, p.0)

-- Both overloads accept a block of headers that ends with an empty line, whatever follows it: each
-- header is looked at in its order, and the overload with a list appends the headers to it.
pub parse_http_headers-header_lines :
    (listing : Bool) (hs headers : List (Bytes × Bytes)) (rest : Bytes) (k : Known)
    → All IsHeader hs
    → parse_http_headers listing (header_lines hs (b'\r' ∷ b'\n' ∷ rest)) k headers
      ≡ (true, at final_linefeed [] [] (check_all hs k) (listed listing headers hs))
unfolding parse_http_headers
parse_http_headers-header_lines listing [] headers rest k h =
    ap (λ l. (true, at final_linefeed [] [] k l)) (listed-nil listing headers)
parse_http_headers-header_lines listing (([], v) ∷ hs) headers rest k (h, m) = absurd (h.0 refl)
parse_http_headers-header_lines listing ((c ∷ n, v) ∷ hs) headers rest k (h, m) =
    first_char listing c _ k headers h.1.0
    ∙ run-header_line listing c n v _ k headers h
    ∙ run-header_lines listing hs rest (c ∷ n) v k headers h m
