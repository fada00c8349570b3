-- ===== src/HttpStream/Redirect/Tests.antt =====
-- The theorems on the redirections of include/avhttp/impl/http_stream.ipp, at two servers.
use avhttp.Base.{ℕ, ◌+◌, false, some, [], ◌≡◌, refl, arith, Bytes, codes, if◌then◌else◌, text_eq}
use avhttp.HttpStream.Redirect.{found, Attempt, refused, answered, failed, ended, open_url}
use avhttp.HttpStream.Redirect.Limit.{Returns, here, hop, open_url-Returns, open_url-counts_on}
use avhttp.Url.{
  Url, from_string, expect, span, one_of, take_host, take_user_info, take_port, take_path,
  take_query, take_fragment,
}
use avhttp.CStdlib.{to_lower}

abbrev url_of : Bytes → Url
url_of host = record {
  protocol_ = codes "http";
  user_info_ = [];
  host_ = host;
  port_ = [];
  path_ = codes "/";
  query_ = [];
  fragment_ = [];
  ipv6_host_ = false;
}

-- The host `a` sends on to `b`, which cannot be reached; the state counts the calls.
abbrev ask_two : Url → ℕ → ℕ × Attempt
ask_two u n =
    (n + 1, (if text_eq u.host_ (codes "a") then answered found (codes "http://b/") else refused 7))

location_parsed : from_string (codes "http://b/") ≡ some (url_of (codes "b"))
unfolding from_string expect span text_eq to_lower take_host take_user_info take_port take_path
    take_query take_fragment one_of
location_parsed = refl

open_url-Returns_example : Returns ask_two 5 (open_url ask_two 5 6 0 (url_of (codes "a")) 0)
open_url-Returns_example =
    open_url-Returns ask_two 5 6 0 (url_of (codes "a")) 0 (omega arith) (omega arith)

-- The second call begins at the limit: the redirection is its result.
open_url-counts_on_example :
    (open_url ask_two 1 2 0 (url_of (codes "a")) 0 ≡ some (2, 1, failed 7))
    × (open_url ask_two 1 1 1 (url_of (codes "a")) 2 ≡ some (3, 0, ended found))
unfolding text_eq
open_url-counts_on_example =
    open_url-counts_on ask_two 1 1 0 7 (url_of (codes "a")) (url_of (codes "b"))
      (url_of (codes "a")) (url_of (codes "a")) 0 1 2 found (codes "http://b/") refl
      (hop 0 (url_of (codes "a")) (url_of (codes "b")) (url_of (codes "b")) 0 1 found
        (codes "http://b/") refl refl location_parsed (here (url_of (codes "b")) 1))
      refl (here (url_of (codes "a")) 2) refl
