-- ===== src/Settings/Header.antt =====
-- `option::header_string` of include/avhttp/settings.hpp writes what `parse_http_headers` of
-- include/avhttp/detail/parsers.hpp reads.
use avhttp.Base.{
  Bool, true, false, List, [], ◌∷◌, ◌++◌, append_assoc, ◌≡◌, refl, ◌∙◌, ap, Bytes, codes, text_eq,
  All, if◌then◌else◌,
}
use avhttp.Settings.{OptionItemList, Options, header_loop, header_string, status_code}
use avhttp.Parsers.Headers.{Known, parse_http_headers, final_linefeed}
use avhttp.Parsers.Headers.RoundTrip.{
  at, IsHeader, header_lines, check_all, listed, parse_http_headers-header_lines,
}

-- The options that are headers.
unfoldable pub sent : OptionItemList → OptionItemList
sent [] = []
sent ((k, v) ∷ opts) = let rest = sent opts in if text_eq k status_code then rest else (k, v) ∷ rest

-- What `header_loop` adds for one option.
abbrev line : Bytes → Bytes → Bytes
line k v = k ++ (codes ": " ++ (v ++ codes "\r\n"))

line-append :
    (str k v rest : Bytes)
    → (str ++ line k v) ++ rest ≡ str ++ (k ++ (codes ": " ++ (v ++ (codes "\r\n" ++ rest))))
line-append str k v rest =
    append_assoc str _ _
    ∙ ap (λ t. str ++ t)
        (append_assoc k _ _ ∙ ap (λ t. k ++ (codes ": " ++ t)) (append_assoc v _ _))

one_option :
    (skip : Bool) (opts : OptionItemList) (str k v rest : Bytes)
    → ((s : Bytes) → header_loop opts s ++ rest ≡ s ++ header_lines (sent opts) rest)
    → (if skip then header_loop opts str else header_loop opts (str ++ line k v)) ++ rest
      ≡ str ++ header_lines (if skip then sent opts else (k, v) ∷ sent opts) rest
one_option true opts str k v rest others = others str
one_option false opts str k v rest others = others (str ++ line k v) ∙ line-append str k v _

header_loop_lem :
    (opts : OptionItemList) (str rest : Bytes)
    → header_loop opts str ++ rest ≡ str ++ header_lines (sent opts) rest
unfolding header_loop sent
header_loop_lem [] str rest = refl
header_loop_lem ((k, v) ∷ opts) str rest =
    one_option (text_eq k status_code) opts str k v rest (λ s. header_loop_lem opts s rest)

-- The header lines of a request, with the empty line behind them, are accepted by both header
-- parsers, and the one with a list appends to it the options in their order, but for the status
-- code, if each of these can be written on one line.
pub parse_http_headers-header_string :
    (listing : Bool) (o : Options) (headers : List (Bytes × Bytes)) (rest : Bytes) (k : Known)
    → All IsHeader (sent o.m_opts)
    → parse_http_headers listing (header_string o ++ (b'\r' ∷ b'\n' ∷ rest)) k headers ≡ (
      true,
      at final_linefeed [] []
          (check_all (sent o.m_opts) k)
          (listed listing headers (sent o.m_opts)),
    )
unfolding header_string
parse_http_headers-header_string listing o headers rest k h =
    ap (λ s. parse_http_headers listing s k headers)
      (header_loop_lem o.m_opts [] (b'\r' ∷ b'\n' ∷ rest))
    ∙ parse_http_headers-header_lines listing (sent o.m_opts) headers rest k h
