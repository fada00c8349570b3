-- ===== src/Parsers/Headers/Tests.antt =====
-- Runs of `parse_http_headers`, and its theorems at an input.
use avhttp.Base.{true, false, List, [], ◌∷◌, ◌++◌, ◌≡◌, refl, Bytes, All, codes}
use avhttp.Base.Int.{pos, negsuc}
use avhttp.CStdlib.{trim, atoi64, is_space, leading, digits_value}
use avhttp.Escape.{is_char, is_ctl, is_tspecial, is_digit}
use avhttp.Parsers.Headers.Fold.{folded_value}
use avhttp.Parsers.Headers.RoundTrip.{
  at, IsHeader, header_lines, check_all, listed, parse_http_headers-header_lines,
}
use avhttp.Parsers.Headers.{
  Known, final_linefeed, finish_header, check_header, headers_equal, behind_slash,
  parse_http_headers,
}

abbrev unknown : Known
unknown = record { content_type = []; content_length = negsuc 0; location = [] }

abbrev two : List (Bytes × Bytes)
two = (codes "server", codes "x y") ∷ (codes "Empty", []) ∷ []

abbrev response : Bytes
response = codes "CONTENT-LENGTH: 12\r\nlocation:  /a \r\nContent-Range: bytes 0-9/70\r\n\r\nbody"

response_runs : parse_http_headers true response unknown [] ≡ (
  true,
  at final_linefeed [] []
      (record { content_type = []; content_length = pos 70; location = codes "/a" })
      ((codes "CONTENT-LENGTH", codes "12")
        ∷ (codes "location", codes "/a")
        ∷ (codes "Content-Range", codes "bytes 0-9/70")
        ∷ []),
)
unfolding parse_http_headers finish_header check_header headers_equal behind_slash atoi64 trim
    is_char is_ctl is_tspecial is_digit leading digits_value
response_runs = refl

two-IsHeader : All IsHeader two
unfolding trim is_space is_char is_ctl is_tspecial
two-IsHeader = (
  ((λ e. cc), (fine, (fine, (fine, (fine, (fine, (fine, tt)))))), (refl, (refl, (refl, tt))), refl),
  (((λ e. cc), (fine, (fine, (fine, (fine, (fine, tt))))), tt, refl), tt),
)
  where
    fine : (◌≡◌ false false) × (◌≡◌ false false)
    fine = (refl, refl)

parse_http_headers-header_lines_example :
    parse_http_headers true (header_lines two (codes "\r\nbody")) unknown []
    ≡ (true, at final_linefeed [] [] (check_all two unknown) (listed true [] two))
parse_http_headers-header_lines_example =
    parse_http_headers-header_lines true two [] (codes "body") unknown two-IsHeader

folded_value_example :
    (parse_http_headers true (codes "X: a\r\n b\r\n\r\n") unknown []).1.headers
    ≡ [] ++ (codes "X", trim (codes "ab")) ∷ []
unfolding is_char is_ctl is_tspecial
folded_value_example =
    folded_value b'X' b'b' [] (codes "a") [] [] unknown [] (refl, refl) tt (refl, tt) refl refl tt
