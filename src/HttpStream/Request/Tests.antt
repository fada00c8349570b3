-- ===== src/HttpStream/Request/Tests.antt =====
-- Runs of `request` of include/avhttp/impl/http_stream.ipp, and its theorems at inputs.
use avhttp.Base.{true, false, some, [], ◌∷◌, ◌++◌, ◌≡◌, refl, Bytes, codes, text_eq, All}
use avhttp.Base.Int.{negsuc}
use avhttp.CStdlib.{trim, is_space, to_lower}
use avhttp.Escape.{is_char, is_ctl, is_tspecial, encode_base64, pad}
use avhttp.HttpStream.Request.{
  ProxySettings, no_http_proxy, http_pw, Request, take_option, other_options, request_to,
  request_of, other_option_string, request_line, request_string,
}
use avhttp.HttpStream.Request.Chosen.{GoesBy, request_to-GoesBy}
use avhttp.HttpStream.Request.Text.{headers, parse_http_headers-request_string}
use avhttp.Parsers.Headers.{Known, parse_http_headers, final_linefeed}
use avhttp.Parsers.Headers.RoundTrip.{at, IsHeader, check_all, listed}
use avhttp.Settings.{Options, find, find_loop, remove, remove_first, lowered}
use avhttp.Url.{Url, to_string}

abbrev target_url : Url
target_url = record {
  protocol_ = codes "http";
  user_info_ = [];
  host_ = codes "h";
  port_ = [];
  path_ = codes "/p";
  query_ = codes "q";
  fragment_ = [];
  ipv6_host_ = false;
}

abbrev no_proxy : ProxySettings
no_proxy = record { type = no_http_proxy; username = []; password = [] }

abbrev with_password : ProxySettings
with_password = record { type = http_pw; username = codes "u"; password = codes "p" }

-- A key in lower case is found for the host, and is not removed: it is written a second time.
abbrev given : Options
given = record {
  m_opts = (codes "Accept", codes "a") ∷ (codes "host", codes "i") ∷ [];
  m_fake_continue = false;
}

abbrev same_text : Bytes → Bytes
same_text s = s

abbrev sample : Request
sample = record {
  request_method = codes "GET";
  http_version = codes "HTTP/1.1";
  host = codes "h";
  accept = codes "a";
  user_agent = codes "av";
  cookie = [];
  proxied = false;
  connection = codes "close";
  auth = [];
  others = (codes "host", codes "i") ∷ [];
  body = codes "b";
  target = codes "/p?q";
}

run_request :
    request_to same_text (codes "av") [] no_proxy (codes "http") target_url given
    ≡ record sample { host = codes "i"; body = [] }
unfolding request_to take_option find find_loop remove remove_first lowered to_lower text_eq
    to_string other_options
run_request = refl

run_text :
    request_string sample
    ≡ codes
        "GET /p?q HTTP/1.1\r\nHost: h\r\nAccept: a\r\nUser-Agent: av\r\nConnection: close\r\nhost: i\r\n\r\nb"
unfolding request_string other_option_string
run_text = refl

run_proxied :
    (request_of same_text (codes "av") (codes "c=d") with_password (codes "http") target_url given)
    ≡ some (
      record sample {
        host = codes "i";
        cookie = codes "c=d";
        proxied = true;
        auth = codes "Basic u:p=";
        body = [];
        target = codes "http://h/p?q";
      },
      target_url,
    )
unfolding request_of request_to take_option find find_loop remove remove_first lowered to_lower
    text_eq to_string other_options encode_base64 pad
run_proxied = refl

sample-IsHeader : All IsHeader (headers sample)
unfolding trim is_space is_char is_ctl is_tspecial
sample-IsHeader = (
  (
    λ e. absurd (cc),
    ((refl, refl), ((refl, refl), ((refl, refl), ((refl, refl), tt)))),
    (refl, tt),
    refl,
  ),
  (
    (
      λ e. absurd (cc),
      (
        (refl, refl),
        ((refl, refl), ((refl, refl), ((refl, refl), ((refl, refl), ((refl, refl), tt))))),
      ),
      (refl, tt),
      refl,
    ),
    (
      (
        λ e. absurd (cc),
        (
          (refl, refl),
          (
            (refl, refl),
            (
              (refl, refl),
              (
                (refl, refl),
                (
                  (refl, refl),
                  (
                    (refl, refl),
                    ((refl, refl), ((refl, refl), ((refl, refl), ((refl, refl), tt)))),
                  ),
                ),
              ),
            ),
          ),
        ),
        (refl, (refl, tt)),
        refl,
      ),
      (
        (
          λ e. absurd (cc),
          (
            (refl, refl),
            (
              (refl, refl),
              (
                (refl, refl),
                (
                  (refl, refl),
                  (
                    (refl, refl),
                    (
                      (refl, refl),
                      ((refl, refl), ((refl, refl), ((refl, refl), ((refl, refl), tt)))),
                    ),
                  ),
                ),
              ),
            ),
          ),
          (refl, (refl, (refl, (refl, (refl, tt))))),
          refl,
        ),
        (
          (
            λ e. absurd (cc),
            ((refl, refl), ((refl, refl), ((refl, refl), ((refl, refl), tt)))),
            (refl, tt),
            refl,
          ),
          tt,
        ),
      ),
    ),
  ),
)

abbrev nothing_known : Known
nothing_known = record { content_type = []; content_length = negsuc 0; location = [] }

parse_http_headers-request_string_example :
    (part : Bytes) × (request_string sample ≡ request_line sample ++ part)
    × (parse_http_headers true part nothing_known [] ≡ (
      true,
      at final_linefeed [] []
          (check_all (headers sample) nothing_known)
          (listed true [] (headers sample)),
    ))
parse_http_headers-request_string_example =
    parse_http_headers-request_string true sample [] nothing_known sample-IsHeader

request_to-GoesBy_example :
    GoesBy
      (request_to same_text (codes "av") [] no_proxy (codes "http") target_url given)
      (codes "av")
      false
      target_url
      given
request_to-GoesBy_example =
    request_to-GoesBy same_text (codes "av") [] no_proxy (codes "http") target_url given
