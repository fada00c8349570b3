-- ===== src/Url/Tests.antt =====
-- Runs of the functions of include/avhttp/url.hpp, and the theorems at them.
use avhttp.Base.{true, false, none, some, [], ◌≡◌, refl, codes, text_eq}
use avhttp.CStdlib.{to_lower}
use avhttp.Escape.{is_digit}
use avhttp.Url.{
  Url, one_of, span, expect, take_host, take_user_info, take_ipv6, take_port, all_digits, take_path,
  take_query, take_fragment, from_string, to_string, all_components,
}
use avhttp.Url.RoundTrip.{IsWritable, from_string-to_string}

abbrev mirror : Url
mirror = record {
  protocol_ = codes "https";
  user_info_ = codes "me:pw";
  host_ = codes "a.b";
  port_ = codes "8080";
  path_ = codes "/f@g";
  query_ = codes "q=1?";
  fragment_ = codes "s#";
  ipv6_host_ = false;
}

abbrev loopback : Url
loopback = record {
  protocol_ = codes "http";
  user_info_ = [];
  host_ = codes "::1";
  port_ = codes "65616";
  path_ = codes "/";
  query_ = [];
  fragment_ = [];
  ipv6_host_ = true;
}

run_mirror : to_string all_components mirror ≡ codes "https://me:pw@a.b:8080/f@g?q=1?#s#"
unfolding to_string
run_mirror = refl

run_loopback : from_string (codes "HTTP://[::1]:65616") ≡ some loopback
unfolding from_string expect span take_host take_user_info take_ipv6 text_eq take_port all_digits
    is_digit to_lower take_path take_query take_fragment
run_loopback = refl

run_bad_port : from_string (codes "http://h:8a/") ≡ none
unfolding from_string expect span take_host take_user_info take_port text_eq all_digits is_digit
run_bad_port = refl

mirror-IsWritable : IsWritable mirror
unfolding to_lower one_of is_digit
mirror-IsWritable = record {
  protocol_some = λ e. absurd (cc);
  protocol_lower = refl;
  protocol_ends = (refl, (refl, (refl, (refl, (refl, tt)))));
  user_info_ends = (refl, (refl, (refl, (refl, (refl, tt)))));
  host_ends = (refl, (refl, (refl, tt)));
  port_digits = (refl, (refl, (refl, (refl, tt))));
  path_starts = refl;
  path_ends = (refl, (refl, (refl, (refl, tt))));
  query_ends = (refl, (refl, (refl, (refl, tt))));
}

from_string-to_string_example : from_string (to_string all_components mirror) ≡ some mirror
from_string-to_string_example = from_string-to_string mirror mirror-IsWritable
