-- ===== src/Parsers/StatusLine/Language.antt =====
-- Which texts `parse_http_status_line` of include/avhttp/detail/parsers.hpp accepts, and what it
-- reads from them.
use avhttp.Base.{
  ℕ, Bool, true, false, [], ◌∷◌, ◌++◌, append_assoc, append-nil, ◌≡◌, ◌≢◌, refl, ◌∙◌, ap, inl, inr,
  arith, ◌==◌, if◌then◌else◌, Bool-cases, Bytes, All,
}
use avhttp.Escape.{is_digit, is_ctl}
use avhttp.Parsers.StatusLine.{
  StatusState, http_version_h, http_version_t_1, http_version_t_2, http_version_p,
  http_version_slash, http_version_major_start, http_version_major, http_version_minor_start,
  http_version_minor, status_code_start, status_code, reason_phrase, linefeed, fail, StatusLine,
  run, parse_http_status_line,
}
use avhttp.Parsers.StatusLine.Numbers.{
  IsDigit, NotCtl, value, decimal, FitsInt, value_exact, ReadsNumber, StartsNumber,
  some_digits_accepted, some_digits_found,
}

abbrev pub line : StatusState → ℕ → ℕ → ℕ → Bytes → StatusLine
line state major minor status reason = record {
  state = state;
  version_major = major;
  version_minor = minor;
  status = status;
  reason = reason;
}

run_fail : (ma mi st : ℕ) (r s : Bytes) → (run (line fail ma mi st r) s).0 ≡ false
unfolding run
run_fail ma mi st r [] = refl
run_fail ma mi st r (c ∷ s) = refl

module _ (ma mi st : ℕ) (r : Bytes) where
  abbrev in_major : StatusState → ℕ → Bytes → Bool × StatusLine
  in_major state n = run (line state n mi st r)

  abbrev in_minor : StatusState → ℕ → Bytes → Bool × StatusLine
  in_minor state n = run (line state ma n st r)

  abbrev in_status : StatusState → ℕ → Bytes → Bool × StatusLine
  in_status state n = run (line state ma mi n r)

  major_reads : ReadsNumber b'.' (in_major http_version_major) (in_major http_version_minor_start)
  unfolding run is_digit
  major_reads = record {
    separator = λ n s. refl;
    digit = λ n c s h. ground arith;
    other = λ n c s h k. ground (arith, run_fail n mi st r s);
    ends = λ n. refl;
  }

  major_starts :
      StartsNumber b'.'
        (in_major http_version_major_start)
        (in_major http_version_major)
        (in_major http_version_minor_start)
  unfolding run is_digit
  major_starts = record {
    first = λ n c s h. ground arith;
    refuses = λ n c s k. ground (arith, run_fail n mi st r s);
    wants = λ n. refl;
  }

  minor_reads : ReadsNumber b' ' (in_minor http_version_minor) (in_minor status_code_start)
  unfolding run is_digit
  minor_reads = record {
    separator = λ n s. refl;
    digit = λ n c s h. ground arith;
    other = λ n c s h k. ground (arith, run_fail ma n st r s);
    ends = λ n. refl;
  }

  minor_starts :
      StartsNumber b' '
        (in_minor http_version_minor_start)
        (in_minor http_version_minor)
        (in_minor status_code_start)
  unfolding run is_digit
  minor_starts = record {
    first = λ n c s h. ground arith;
    refuses = λ n c s k. ground (arith, run_fail ma n st r s);
    wants = λ n. refl;
  }

  status_reads : ReadsNumber b' ' (in_status status_code) (in_status reason_phrase)
  unfolding run is_digit
  status_reads = record {
    separator = λ n s. refl;
    digit = λ n c s h. ground arith;
    other = λ n c s h k. ground (arith, run_fail ma mi n r s);
    ends = λ n. refl;
  }

  status_starts :
      StartsNumber b' '
        (in_status status_code_start)
        (in_status status_code)
        (in_status reason_phrase)
  unfolding run is_digit
  status_starts = record {
    first = λ n c s h. ground arith;
    refuses = λ n c s k. ground (arith, run_fail ma mi n r s);
    wants = λ n. refl;
  }

run-reason :
    (reason rest : Bytes) (ma mi st : ℕ) (r : Bytes)
    → All NotCtl reason
    → run (line reason_phrase ma mi st r) (reason ++ (b'\r' ∷ b'\n' ∷ rest))
      ≡ (true, line linefeed ma mi st (r ++ reason))
unfolding run
run-reason [] rest ma mi st r h = ground (arith, append-nil r)
run-reason (c ∷ s) rest ma mi st r (p, h) =
    ground (arith, ctl_cr, run-reason s rest ma mi st (r ++ c ∷ []) h, append_assoc r (c ∷ []) s)
  where
    ctl_cr : (c == b'\r') ≡ false
    ctl_cr = unfold is_ctl in ground arith

reason_found :
    (s : Bytes) (ma mi st : ℕ) (r : Bytes)
    → (run (line reason_phrase ma mi st r) s).0 ≡ true
    → (reason rest : Bytes) × (s ≡ reason ++ (b'\r' ∷ b'\n' ∷ rest)) × All NotCtl reason
unfolding run
reason_found [] ma mi st r h = cc
reason_found (c ∷ s) ma mi st r h = elim (Bool-cases (c == b'\r')) [
  | inl cr ↦ ending s (ground arith) (ground arith)
  | inr more ↦ elim (Bool-cases (is_ctl c)) [
    | inl bad ↦ absurd (ground (arith, run_fail ma mi st r s))
    | inr fine ↦
        let (reason, rest, e, k) = reason_found s ma mi st (r ++ c ∷ []) (ground arith) in
        (c ∷ reason, rest, ap (◌∷◌ c) e, (fine, k))
  ]
]
  where
    ending :
        (s : Bytes)
        → c ≡ b'\r'
        → (run (line linefeed ma mi st r) s).0 ≡ true
        → (reason rest : Bytes) × (c ∷ s ≡ reason ++ (b'\r' ∷ b'\n' ∷ rest)) × All NotCtl reason
    ending [] e k = cc
    ending (d ∷ s) e k = ([], s, ground arith, tt)

-- A status line, in its parts, with what follows it.
pub record IsStatusLine (s major minor status reason rest : Bytes) : Type 0 where
  pub text_is :
      s
      ≡ b'H'
        ∷ b'T'
        ∷ b'T'
        ∷ b'P'
        ∷ b'/'
        ∷ (major
            ++ (b'.' ∷ (minor ++ (b' ' ∷ (status ++ (b' ' ∷ (reason ++ (b'\r' ∷ b'\n' ∷ rest))))))))
  pub has_major : (major ≢ []) × All IsDigit major
  pub has_minor : (minor ≢ []) × All IsDigit minor
  pub has_status : (status ≢ []) × All IsDigit status
  pub has_reason : All NotCtl reason

-- A status line whose three numbers, with the code of `0` on top, fit an `int`, each read behind
-- what was in its variable, is accepted, and the numbers and the reason are read from it.
pub parse_http_status_line_accepts :
    {s major minor status reason rest : Bytes} (ma mi st : ℕ)
    → IsStatusLine s major minor status reason rest
    → FitsInt ma major
    → FitsInt mi minor
    → FitsInt st status
    → parse_http_status_line s ma mi st
      ≡ (true, line linefeed (decimal ma major) (decimal mi minor) (decimal st status) reason)
unfolding parse_http_status_line
parse_http_status_line_accepts {s} {major} {minor} {status} {reason} {rest} ma mi st h fits_major
      fits_minor fits_status =
    rw
      (
        h.text_is,
        ← value_exact major ma h.has_major.1 fits_major,
        ← value_exact minor mi h.has_minor.1 fits_minor,
        ← value_exact status st h.has_status.1 fits_status,
      )
      (some_digits_accepted b'.' _ _ _ major _ ma (major_starts ma mi st [])
          (major_reads ma mi st []) h.has_major.0 h.has_major.1
        ∙ some_digits_accepted b' ' _ _ _ minor _ mi (minor_starts (value ma major) mi st [])
            (minor_reads (value ma major) mi st []) h.has_minor.0 h.has_minor.1
        ∙ some_digits_accepted b' ' _ _ _ status _ st
            (status_starts (value ma major) (value mi minor) st [])
            (status_reads (value ma major) (value mi minor) st []) h.has_status.0 h.has_status.1
        ∙ run-reason reason rest _ _ _ [] h.has_reason)

-- One letter of `HTTP/`, at a state that expects it.
letter_found :
    (state next : StatusState) (letter ma mi st : ℕ) (s : Bytes)
    → ((run (line state ma mi st []) []).0 ≡ false)
    → ((c : ℕ) (t : Bytes)
        → run (line state ma mi st []) (c ∷ t)
          ≡ run (line (if c == letter then next else fail) ma mi st []) t)
    → (run (line state ma mi st []) s).0 ≡ true
    → (t : Bytes) × (s ≡ letter ∷ t) × ((run (line next ma mi st []) t).0 ≡ true)
letter_found state next letter ma mi st [] e k h = cc
letter_found state next letter ma mi st (c ∷ t) e k h = elim (Bool-cases (c == letter)) [
  | inl same ↦
      let at_letter : c ≡ letter = ground arith in
      (t, ap (λ x. x ∷ t) at_letter, rw same at (rw (k c t) at h))
  | inr other ↦
      let failed : (run (line fail ma mi st []) t).0 ≡ true = rw other at (rw (k c t) at h) in
      cc (run_fail ma mi st [] t)
]

prefix_found :
    (s : Bytes) (ma mi st : ℕ)
    → (run (line http_version_h ma mi st []) s).0 ≡ true
    → (t : Bytes) × (s ≡ b'H' ∷ b'T' ∷ b'T' ∷ b'P' ∷ b'/' ∷ t)
      × ((run (line http_version_major_start ma mi st []) t).0 ≡ true)
unfolding run
prefix_found s ma mi st h =
    let (s1, e1, h1) =
      letter_found http_version_h http_version_t_1 b'H' ma mi st s refl (λ c t. refl) h in
    let (s2, e2, h2) =
      letter_found http_version_t_1 http_version_t_2 b'T' ma mi st s1 refl (λ c t. refl) h1 in
    let (s3, e3, h3) =
      letter_found http_version_t_2 http_version_p b'T' ma mi st s2 refl (λ c t. refl) h2 in
    let (s4, e4, h4) =
      letter_found http_version_p http_version_slash b'P' ma mi st s3 refl (λ c t. refl) h3 in
    let (s5, e5, h5) =
      letter_found http_version_slash http_version_major_start b'/' ma mi st s4 refl (λ c t. refl)
        h4 in
    (s5, cc, h5)

-- Nothing else is accepted: an accepted text begins with a status line.
pub parse_http_status_line_sound :
    (s : Bytes) (ma mi st : ℕ)
    → (parse_http_status_line s ma mi st).0 ≡ true
    → (major minor status reason rest : Bytes) × IsStatusLine s major minor status reason rest
unfolding parse_http_status_line
parse_http_status_line_sound s ma mi st h =
    let (s1, e1, h1) = prefix_found s ma mi st h in
    let (major, s2, e2, n2, d2, h2) =
      some_digits_found b'.' _ _ _ s1 ma (major_starts ma mi st []) (major_reads ma mi st []) h1 in
    let ma' = value ma major in
    let (minor, s3, e3, n3, d3, h3) =
      some_digits_found b' ' _ _ _ s2 mi (minor_starts ma' mi st []) (minor_reads ma' mi st [])
        h2 in
    let mi' = value mi minor in
    let (status, s4, e4, n4, d4, h4) =
      some_digits_found b' ' _ _ _ s3 st (status_starts ma' mi' st []) (status_reads ma' mi' st [])
        h3 in
    let (reason, rest, e5, r5) = reason_found s4 ma' mi' (value st status) [] h4 in
    (
      major,
      minor,
      status,
      reason,
      rest,
      record {
        text_is = cc;
        has_major = (n2, d2);
        has_minor = (n3, d3);
        has_status = (n4, d4);
        has_reason = r5;
      },
    )
