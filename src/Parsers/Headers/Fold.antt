-- ===== src/Parsers/Headers/Fold.antt =====
-- Folded headers, and the length that `parse_http_headers` of include/avhttp/detail/parsers.hpp
-- gathers.
use avhttp.Base.{
  ℕ, ◌+◌, ◌≤◌, Bool, true, false, ◌||◌, Option, none, some, List, [], ◌∷◌, ◌++◌, append_assoc, ◌≡◌,
  refl, ◌∙◌, ap, inl, inr, arith, ◌==◌, Bool-cases, Bytes, All, ◌⊎◌,
}
use avhttp.Base.Int.{ℤ, pos_part, neg_part, leb_ℤ}
use avhttp.CStdlib.{trim, atoi64}
use avhttp.Escape.{is_ctl}
use avhttp.Parsers.Headers.RoundTrip.{
  at, IsNameChar, IsValueChar, name-NoSpace, trim-NoSpace, trim-lead, first_char, run-name,
  run_blank, run-value,
}
use avhttp.Parsers.Headers.{
  Known, check_header, behind_slash, longer, max_ℤ, HeaderState, first_header_line_start,
  header_line_start, space_before_header_value, header_value, final_linefeed, fail, HeaderParser,
  finish_header, step_in, run, parse_http_headers,
}

-- a ≤ b
abbrev pub ◌≤ℤ◌ : ℤ → ℤ → Type 0
◌≤ℤ◌ a b = pos_part a + neg_part b ≤ pos_part b + neg_part a

max_ℤ-le : (a b : ℤ) → ◌≤ℤ◌ b (max_ℤ a b)
max_ℤ-le a b = elim (Bool-cases (leb_ℤ a b)) [
  | inl e ↦ rw e (omega arith)
  | inr e ↦ rw e (ground arith)
]

longer-le : (o : Option Bytes) (k : Known) → ◌≤ℤ◌ k.content_length (longer o k).content_length
longer-le none k = omega arith
longer-le (some []) k = omega arith
longer-le (some (c ∷ s)) k = max_ℤ-le (atoi64 (c ∷ s)) k.content_length

abbrev Grows : Known → Known → Type 0
Grows k k' = ◌≤ℤ◌ k.content_length k'.content_length

check_header-Grows : (name value : Bytes) (k : Known) → Grows k (check_header name value k)
unfolding check_header
check_header-Grows name value k =
    ground (arith, max_ℤ-le (atoi64 value) k.content_length, longer-le (behind_slash value) k)

finish_header-Grows :
    (listing : Bool) (p : HeaderParser) → Grows p.known (finish_header listing p).known
unfolding finish_header
finish_header-Grows listing p = check_header-Grows (trim p.name) (trim p.value) p.known

step_in-Grows :
    (listing : Bool) (state : HeaderState) (p : HeaderParser) (c : ℕ)
    → Grows p.known (step_in listing state p c).known
unfolding step_in
step_in-Grows listing header_line_start p c = ground (arith, finish_header-Grows listing p)
step_in-Grows true space_before_header_value p c = ground arith
step_in-Grows false space_before_header_value p c = ground arith
step_in-Grows listing _ p c = ground arith

run_cases :
    (listing : Bool) (p : HeaderParser) (c : ℕ) (s : Bytes)
    → (run listing p (c ∷ s) ≡ (false, p))
      ⊎ (run listing p (c ∷ s) ≡ (c == b'\n', p))
      ⊎ (run listing p (c ∷ s) ≡ run listing (step_in listing p.state p c) s)
unfolding run
run_cases listing p c s = by_state p.state (run listing (step_in listing p.state p c) s)
  where
    Outcome : Type 0
    Outcome = Bool × HeaderParser

    returns : HeaderState → Outcome → Outcome
    returns state next = elim state [
      | fail ↦ (false, p)
      | final_linefeed ↦ (c == b'\n', p)
      | _ ↦ next
    ]

    by_state :
        (state : HeaderState) (next : Outcome)
        → (returns state next ≡ (false, p))
          ⊎ (returns state next ≡ (c == b'\n', p))
          ⊎ (returns state next ≡ next)
    by_state fail next = inl refl
    by_state final_linefeed next = inr (inl refl)
    by_state _ next = inr (inr refl)

run-Grows :
    (listing : Bool) (s : Bytes) (p : HeaderParser) → Grows p.known (run listing p s).1.known
run-Grows listing [] p = unfold run in omega arith
run-Grows listing (c ∷ s) p =
    let step = step_in-Grows listing p.state p c in
    let rest = run-Grows listing s (step_in listing p.state p c) in
    elim (run_cases listing p c s) [
      | inl e ↦ rw e (omega arith)
      | inr (inl e) ↦ rw e (omega arith)
      | inr (inr e) ↦ rw e (omega (arith, step, rest))
    ]

-- The length that is gathered never falls below the one that was given, whatever the text is and
-- whether it is accepted.
pub parse_http_headers-content_length :
    (listing : Bool) (s : Bytes) (known : Known) (headers : List (Bytes × Bytes))
    → ◌≤ℤ◌ known.content_length (parse_http_headers listing s known headers).1.known.content_length
unfolding parse_http_headers
parse_http_headers-content_length listing s known headers =
    run-Grows listing s (at first_header_line_start [] [] known headers)

-- Behind a line that is complete, a line that begins with a blank goes on with its value.
fold_step :
    (listing : Bool) (c : ℕ) (s n v : Bytes) (k : Known) (hs : List (Bytes × Bytes))
    → IsValueChar c
    → (c == b' ' || c == b'\t') ≡ false
    → run listing (at header_line_start n v k hs) (b' ' ∷ c ∷ s)
      ≡ run listing (at header_value n (v ++ c ∷ []) k hs) s
unfolding run is_ctl
fold_step listing c s n v k hs p q = ground arith

-- A value that is folded over two lines is read with nothing between its parts: the line break
-- and the blank that begins the second line are dropped.
pub folded_value :
    (c d : ℕ) (n v w rest : Bytes) (k : Known) (headers : List (Bytes × Bytes))
    → IsNameChar c
    → All IsNameChar n
    → All IsValueChar v
    → IsValueChar d
    → (d == b' ' || d == b'\t') ≡ false
    → All IsValueChar w
    → (parse_http_headers true
        (c
          ∷ (n
              ++ (b':'
                  ∷ b' '
                  ∷ (v
                      ++ (b'\r'
                          ∷ b'\n'
                          ∷ b' '
                          ∷ d
                          ∷ (w ++ (b'\r' ∷ b'\n' ∷ b'\r' ∷ b'\n' ∷ rest)))))))
        k
        headers).1.headers
      ≡ headers ++ (c ∷ n, trim (v ++ (d ∷ w))) ∷ []
unfolding parse_http_headers
folded_value c d n v w rest k headers hc hn hv hd blank hw =
    ap (λ (o : Bool × HeaderParser). o.1.headers)
      (first_char true c _ k headers hc
        ∙ run-name true n _ (c ∷ []) [] k headers hn
        ∙ run_blank true _ (c ∷ n) k headers
        ∙ run-value true v _ (c ∷ n) (b' ' ∷ []) k headers hv
        ∙ fold_step true d _ (c ∷ n) (b' ' ∷ v) k headers hd blank
        ∙ run-value true w _ (c ∷ n) _ k headers hw
        ∙ closing)
    ∙ names
  where
    joined : Bytes
    joined = (b' ' ∷ (v ++ d ∷ [])) ++ w

    closing : run true (at header_line_start (c ∷ n) joined k headers) (b'\r' ∷ b'\n' ∷ rest) ≡ (
      true,
      record (finish_header true (at header_line_start (c ∷ n) joined k headers)) {
        state = final_linefeed;
      },
    )
    closing = unfold run in refl

    names :
        (finish_header true (at header_line_start (c ∷ n) joined k headers)).headers
        ≡ headers ++ (c ∷ n, trim (v ++ (d ∷ w))) ∷ []
    names =
        unfold finish_header in
        rw (trim-NoSpace (c ∷ n) (name-NoSpace (c ∷ n) (hc, hn)), append_assoc v (d ∷ []) w)
          (rw (trim-lead true (v ++ (d ∷ w))))
