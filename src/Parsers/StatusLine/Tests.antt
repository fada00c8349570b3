-- ===== src/Parsers/StatusLine/Tests.antt =====
-- Runs of `parse_http_status_line`, and its theorems at an input.
use avhttp.Base.{true, false, ◌≡◌, refl, ap, arith, Bytes, codes}
use avhttp.Escape.{is_digit, is_ctl}
use avhttp.Parsers.StatusLine.Language.{
  line, IsStatusLine, parse_http_status_line_accepts, parse_http_status_line_sound,
}
use avhttp.Parsers.StatusLine.{linefeed, parse_http_status_line}

abbrev ok_line : Bytes
ok_line = codes "HTTP/1.1 200 OK\r\nServer: x"

parse_runs :
    (parse_http_status_line ok_line 0 0 0 ≡ (true, line linefeed 1 1 200 (codes "OK")))
    × ((parse_http_status_line (codes "HTTP/1.1 200\r\n") 0 0 0).0 ≡ false)
    × ((parse_http_status_line (codes "ICY 200 OK\r\n") 0 0 0).0 ≡ false)
unfolding parse_http_status_line is_digit is_ctl
parse_runs = (refl, refl, refl)

ok_line-IsStatusLine :
    IsStatusLine ok_line (codes "1") (codes "1") (codes "200") (codes "OK") (codes "Server: x")
unfolding is_digit is_ctl
ok_line-IsStatusLine = record {
  text_is = refl;
  has_major = ((λ e. cc), (refl, tt));
  has_minor = ((λ e. cc), (refl, tt));
  has_status = ((λ e. cc), (refl, (refl, (refl, tt))));
  has_reason = (refl, (refl, tt));
}

parse_http_status_line_accepts_example :
    parse_http_status_line ok_line 0 0 0 ≡ (true, line linefeed 1 1 200 (codes "OK"))
parse_http_status_line_accepts_example =
    parse_http_status_line_accepts 0 0 0 ok_line-IsStatusLine (omega arith) (omega arith)
      (omega arith)

parse_http_status_line_sound_example :
    (major minor status reason rest : Bytes) × IsStatusLine ok_line major minor status reason rest
parse_http_status_line_sound_example =
    parse_http_status_line_sound ok_line 0 0 0 (ap (λ r. r.0) parse_runs.0)
