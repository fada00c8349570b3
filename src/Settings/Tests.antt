-- ===== src/Settings/Tests.antt =====
-- Runs of the class `option` of include/avhttp/settings.hpp, and the theorems at them.
use avhttp.Base.{false, some, [], ◌∷◌, ◌≡◌, refl, codes, text_eq, All}
use avhttp.Base.Int.{negsuc}
use avhttp.CStdlib.{trim, is_space, to_lower}
use avhttp.Escape.{is_char, is_ctl, is_tspecial}
use avhttp.Settings.{Options, remove, find, header_string}
use avhttp.Settings.Header.{sent}
use avhttp.Parsers.Headers.{Known}
use avhttp.Parsers.Headers.RoundTrip.{IsHeader}

abbrev request : Options
request = record {
  m_opts = (codes "Host", codes "h") ∷ (codes "_status_code", codes "200") ∷ [];
  m_fake_continue = false;
}

abbrev nothing_known : Known
nothing_known = record { content_type = []; content_length = negsuc 0; location = [] }

run_header_string : header_string request ≡ codes "Host: h\r\n"
unfolding header_string text_eq
run_header_string = refl

-- `find` looks past the case of letters, `remove` does not.
run_find : find (codes "HOST") (remove (codes "host") request) ≡ some (codes "h")
unfolding find remove text_eq to_lower
run_find = refl

request-IsHeader : All IsHeader (sent request.m_opts)
unfolding sent text_eq trim is_space is_char is_ctl is_tspecial
request-IsHeader = (
  ((λ e. cc), ((refl, refl), ((refl, refl), ((refl, refl), ((refl, refl), tt)))), (refl, tt), refl),
  tt,
)
