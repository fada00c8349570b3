-- ===== src/HttpStream/Header.antt =====
-- The loop of `receive_header` of include/avhttp/impl/http_stream.ipp that collects the header
-- lines, and the call of `parse_http_headers` behind it. The input is the text that arrives, up to
-- its end.
pub mod Collect
mod Tests
use avhttp.Base.{
  ℕ, zero, suc, ◌+◌, Bool, true, false, ◌&&◌, Option, none, some, ◌>>=◌, List, [], ◌∷◌, ◌++◌, ◌==◌,
  if◌then◌else◌, text_eq, Bytes, length,
}
use avhttp.Parsers.Headers.{Known, HeaderParser, parse_http_headers}

abbrev pub line_break : Bytes
line_break = 13 ∷ 10 ∷ []

-- `read_until(m_sock, m_response, "\r\n")`: the line with its end, and the rest; `none` is the end of
-- the file in front of it.
unfoldable pub take_line : Bytes → Option (Bytes × Bytes)
take_line [] = none
take_line (c ∷ []) = none
take_line (c ∷ d ∷ s) =
    let next = take_line (d ∷ s) >>= λ r. some (c ∷ r.0, r.1) in
    if c == 13 && d == 10 then some (c ∷ d ∷ [], s) else next

-- The loop: `header_string`, and what is left in `m_response`. `none` is
-- `malformed_response_headers`.
unfoldable pub collect_lines : ℕ → Bytes → Bytes → Option (Bytes × Bytes)
unfolding take_line text_eq
collect_lines zero header_string s = none
collect_lines (suc fuel) header_string s = take_line s >>= λ line.
    let next = collect_lines fuel (header_string ++ line.0) line.1 in
    if text_eq line.0 line_break then some (header_string ++ line.0, line.1) else next

-- The lines collected and parsed, onto the options that are there, which hold the status code: the
-- headers, and the body so far. Each line takes two characters at least, so that the fuel is enough.
pub receive_lines : Bytes → Known → List (Bytes × Bytes) → Option ((Bool × HeaderParser) × Bytes)
unfolding collect_lines
receive_lines s k opts = collect_lines (length s) [] s >>= λ r.
    let parsed = parse_http_headers true r.0 k opts in if parsed.0 then some (parsed, r.1) else none
