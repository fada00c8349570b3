-- ===== src/HttpStream/Header/Collect.antt =====
-- The header lines that `receive_header` of include/avhttp/impl/http_stream.ipp collects, and the
-- body behind them.
use avhttp.Base.{
  ℕ, zero, suc, ◌+◌, ◌<◌, true, false, none, some, List, [], ◌∷◌, ◌++◌, append_assoc, ◌==◌, text_eq,
  All, ◌≡◌, refl, ap, ◌∙◌, arith, Bytes, length, length-append,
}
use avhttp.Escape.{is_ctl}
use avhttp.HttpStream.Header.{line_break, take_line, collect_lines, receive_lines}
use avhttp.Parsers.Headers.{Known, final_linefeed}
use avhttp.Parsers.Headers.RoundTrip.{
  at, IsNameChar, IsValueChar, IsHeader, header_line, header_lines, name_not_cr, check_all, listed,
  parse_http_headers-header_lines,
}

abbrev NoReturn : ℕ → Type 0
NoReturn c = (c == 13) ≡ false

take_line-step :
    (c : ℕ) (s l t : Bytes)
    → NoReturn c
    → take_line s ≡ some (l, t)
    → take_line (c ∷ s) ≡ some (c ∷ l, t)
unfolding take_line
take_line-step c [] l t h e = absurd (none_some e)
  where
    none_some : {A : Type 0} {a : A} → none ≡ some a → ⊥
    none_some e = cc
take_line-step c (d ∷ s) l t h e = rw (h, e) refl

take_line-append :
    (p s l t : Bytes)
    → All NoReturn p
    → take_line s ≡ some (l, t)
    → take_line (p ++ s) ≡ some (p ++ l, t)
take_line-append [] s l t h e = e
take_line-append (c ∷ p) s l t (h, hs) e =
    take_line-step c (p ++ s) (p ++ l) t h (take_line-append p s l t hs e)

line_ends : (t : Bytes) → take_line (13 ∷ 10 ∷ t) ≡ some (line_break, t)
unfolding take_line
line_ends t = refl

name-NoReturn : (s : Bytes) → All IsNameChar s → All NoReturn s
name-NoReturn [] h = tt
name-NoReturn (c ∷ s) (p, h) = (name_not_cr c p, name-NoReturn s h)

value-NoReturn : (s : Bytes) → All IsValueChar s → All NoReturn s
unfolding is_ctl
value-NoReturn [] h = tt
value-NoReturn (c ∷ s) (p, h) = (ground arith, value-NoReturn s h)

take_line-header_line :
    (h : Bytes × Bytes) (t : Bytes)
    → IsHeader h
    → take_line (header_line h t) ≡ some (header_line h [], t)
take_line-header_line (name, value) t (ne, names, values, trimmed) =
    take_line-append name _ _ t (name-NoReturn name names) (
      take_line-step b':' _ _ t refl (
        take_line-step b' ' _ _ t refl
          (take_line-append value _ _ t (value-NoReturn value values) (line_ends t))))

no_break : (h : Bytes × Bytes) → IsHeader h → text_eq (header_line h []) line_break ≡ false
unfolding text_eq
no_break ([], value) (ne, names, values, trimmed) = absurd (ne refl)
no_break (c ∷ name, value) (ne, (p, names), values, trimmed) =
    let z = name_not_cr c p in ground arith

header_line-append : (h : Bytes × Bytes) (t : Bytes) → header_line h [] ++ t ≡ header_line h t
header_line-append (name, value) t =
    append_assoc name _ t ∙ ap (λ s. name ++ (b':' ∷ b' ' ∷ s)) (append_assoc value line_break t)

collect_ends :
    (fuel : ℕ) (before rest : Bytes)
    → collect_lines (suc fuel) before (13 ∷ 10 ∷ rest) ≡ some (before ++ line_break, rest)
unfolding collect_lines take_line text_eq
collect_ends fuel before rest = refl

collect_lines-header_lines :
    (hs : List (Bytes × Bytes)) (fuel : ℕ) (before rest : Bytes)
    → All IsHeader hs
    → length hs < fuel
    → collect_lines fuel before (header_lines hs (13 ∷ 10 ∷ rest))
      ≡ some (before ++ header_lines hs line_break, rest)
unfolding collect_lines
collect_lines-header_lines hs zero before rest h k = absurd (omega arith)
collect_lines-header_lines [] (suc fuel) before rest h k = collect_ends fuel before rest
collect_lines-header_lines (h ∷ hs) (suc fuel) before rest (g, gs) k =
    rw (take_line-header_line h (header_lines hs (13 ∷ 10 ∷ rest)) g, no_break h g)
      (collect_lines-header_lines hs fuel (before ++ header_line h []) rest gs (omega arith)
        ∙ ap (λ s. some (s, rest))
            (append_assoc before (header_line h []) (header_lines hs line_break)
              ∙ ap (λ s. before ++ s) (header_line-append h (header_lines hs line_break))))

length-header_lines :
    (hs : List (Bytes × Bytes)) (rest : Bytes)
    → length hs + length rest < suc (length (header_lines hs rest))
length-header_lines [] rest = omega arith
length-header_lines ((name, value) ∷ hs) rest = omega (
  arith,
  length-header_lines hs rest,
  length-append name (b':' ∷ b' ' ∷ (value ++ (13 ∷ 10 ∷ header_lines hs rest))),
  length-append value (13 ∷ 10 ∷ header_lines hs rest),
)

-- Header lines that each stand on one line are collected up to the empty line, accepted, and listed
-- in their order behind the options that were there; what is behind the empty line is left to be
-- read as the body.
pub receive_lines-header_lines :
    (hs : List (Bytes × Bytes)) (body : Bytes) (k : Known) (opts : List (Bytes × Bytes))
    → All IsHeader hs
    → receive_lines (header_lines hs (13 ∷ 10 ∷ body)) k opts
      ≡ some ((true, at final_linefeed [] [] (check_all hs k) (listed true opts hs)), body)
unfolding receive_lines
receive_lines-header_lines hs body k opts h =
    let enough = length-header_lines hs (13 ∷ 10 ∷ body) in
    rw
      (
        collect_lines-header_lines hs (length (header_lines hs (13 ∷ 10 ∷ body))) [] body h
            (omega arith),
        parse_http_headers-header_lines true hs opts [] k h,
      )
      refl
