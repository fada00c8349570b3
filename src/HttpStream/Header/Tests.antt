-- ===== src/HttpStream/Header/Tests.antt =====
-- Runs of the header loop of `receive_header` of include/avhttp/impl/http_stream.ipp, and its
-- theorem.
use avhttp.Base.{true, none, some, List, [], ◌∷◌, ◌≡◌, refl, Bytes, codes, text_eq, All}
use avhttp.Base.Int.{negsuc}
use avhttp.CStdlib.{trim, is_space}
use avhttp.Escape.{is_char, is_ctl, is_tspecial}
use avhttp.HttpStream.Header.{take_line, collect_lines, receive_lines}
use avhttp.HttpStream.Header.Collect.{receive_lines-header_lines}
use avhttp.Parsers.Headers.{Known, final_linefeed}
use avhttp.Parsers.Headers.RoundTrip.{at, IsHeader, header_lines, check_all, listed}

abbrev nothing_known : Known
nothing_known = record { content_type = []; content_length = negsuc 0; location = [] }

run_lines :
    (collect_lines 9 [] (codes "A: b\r\n\r\nbody") ≡ some (codes "A: b\r\n\r\n", codes "body"))
    × (collect_lines 9 [] (codes "A: b\r\nbody") ≡ none)
unfolding collect_lines take_line text_eq
run_lines = (refl, refl)

abbrev status_option : List (Bytes × Bytes)
status_option = (codes "_status_code", codes "200") ∷ []

abbrev two_headers : List (Bytes × Bytes)
two_headers = (codes "Host", codes "h") ∷ (codes "A", codes "bc") ∷ []

two_headers-IsHeader : All IsHeader two_headers
unfolding trim is_space is_char is_ctl is_tspecial
two_headers-IsHeader = (
  (
    λ e. absurd (cc),
    ((refl, refl), ((refl, refl), ((refl, refl), ((refl, refl), tt)))),
    (refl, tt),
    refl,
  ),
  ((λ e. absurd (cc), ((refl, refl), tt), (refl, (refl, tt)), refl), tt),
)

receive_lines-header_lines_example :
    receive_lines (header_lines two_headers (codes "\r\nbody")) nothing_known status_option
    ≡ some (
      (
        true,
        at final_linefeed [] []
            (check_all two_headers nothing_known)
            (listed true status_option two_headers),
      ),
      codes "body",
    )
receive_lines-header_lines_example =
    receive_lines-header_lines two_headers (codes "body") nothing_known status_option
      two_headers-IsHeader
