-- ===== src/HttpStream/Request.antt =====
-- `request` of include/avhttp/impl/http_stream.ipp, up to the text that it sends: how the options
-- of the caller become a request. The line of cookies, and the Boost text of `encode_base64`, are
-- parameters.
pub mod Text
pub mod Chosen
mod Tests
use avhttp.Base.{
  ℕ, Bool, true, false, not, ◌&&◌, ◌||◌, Option, none, some, List, [], ◌∷◌, ◌++◌, if◌then◌else◌,
  text_eq, Bytes, codes,
}
use avhttp.Escape.{encode_base64}
use avhttp.Settings.{OptionItemList, Options, option, insert, remove, find, status_code}
use avhttp.Url.{Url, from_string, to_string, all_components, is_empty}

-- `m_proxy.type`, as far as `request` looks at it.
pub data ProxyType : Type 0 where
  no_http_proxy : ProxyType
  http : ProxyType
  http_pw : ProxyType

pub record ProxySettings : Type 0 where
  pub type : ProxyType
  pub username : Bytes
  pub password : Bytes

-- The locals of `request` that go into the text.
pub record Request : Type 0 where
  pub request_method : Bytes
  pub http_version : Bytes
  pub host : Bytes
  pub accept : Bytes
  pub user_agent : Bytes
  pub cookie : Bytes
  pub proxied : Bool
  pub connection : Bytes
  pub auth : Bytes
  pub others : OptionItemList
  pub body : Bytes
  pub target : Bytes

-- `if (opts.find(key, val)) opts.remove(key)`
pub take_option : Bytes → Bytes → Options → Bytes × Options
unfolding find remove
take_option key val opts = elim (find key opts) [
  | none ↦ (val, opts)
  | some v ↦ (v, remove key opts)
]

abbrev pub is_http_proxy : ProxyType → Bool
is_http_proxy no_http_proxy = false
is_http_proxy http = true
is_http_proxy http_pw = true

-- The value of `Proxy-Authorization`, empty where there is none.
abbrev pub authorization : (Bytes → Bytes) → ProxySettings → Bytes → Bytes
authorization base64_text p user_info = by_type p.type
  where
    by_type : ProxyType → Bytes
    by_type no_http_proxy = []
    by_type http_pw =
        codes "Basic " ++ encode_base64 base64_text (p.username ++ (codes ":" ++ p.password))
    by_type http =
        if is_empty user_info then [] else codes "Basic " ++ encode_base64 base64_text user_info

-- The options that are of no use in the text.
abbrev pub is_internal : Bytes → Bool
is_internal key =
    text_eq key (codes "_path")
    || text_eq key (codes "_url")
    || text_eq key (codes "_request_method")
    || text_eq key (codes "_http_version")
    || text_eq key (codes "_request_body")
    || text_eq key status_code

-- The loop over the other options.
unfoldable pub other_options : OptionItemList → OptionItemList
unfolding text_eq
other_options [] = []
other_options ((key, val) ∷ list) =
    let rest = other_options list in if is_internal key then rest else (key, val) ∷ rest

-- `m_url = new_url`, which throws when the text is no URL.
abbrev pub new_url : Bytes → Url → Option Url
new_url [] u = some u
new_url (c ∷ s) u = from_string (c ∷ s)

-- `url::host_component | url::port_component`, and the path with what is behind it.
abbrev pub host_and_port : ℕ
host_and_port = 12

abbrev pub path_and_behind : ℕ
path_and_behind = 112

-- The request for the URL that the stream has behind the option `_url`, with `m_protocol`, which
-- `open` has set and `_url` does not change.
pub request_to : (Bytes → Bytes) → Bytes → Bytes → ProxySettings → Bytes → Url → Options → Request
unfolding take_option other_options
request_to base64_text user_agent cookie proxy protocol u opts =
    let m = take_option (codes "_request_method") (codes "GET") opts in
    let v = take_option (codes "_http_version") (codes "HTTP/1.1") m.1 in
    let h = take_option (codes "Host") (to_string host_and_port u) v.1 in
    let a = take_option (codes "Accept") (codes "text/html, application/xhtml+xml, */*") h.1 in
    let g = take_option (codes "User-Agent") user_agent a.1 in
    let proxied = is_http_proxy proxy.type && not (text_eq protocol (codes "https")) in
    let c =
      take_option (if proxied then codes "Proxy-Connection" else codes "Connection") (codes "close")
        g.1 in
    let b = take_option (codes "_request_body") [] c.1 in
    record {
      request_method = m.0;
      http_version = v.0;
      host = h.0;
      accept = a.0;
      user_agent = g.0;
      cookie = cookie;
      proxied = proxied;
      connection = c.0;
      auth = if proxied then authorization base64_text proxy u.user_info_ else [];
      others = other_options b.1.m_opts;
      body = b.0;
      target = to_string (if proxied then all_components else path_and_behind) u;
    }

-- The request, and the URL of the stream; `none` is the exception for an option `_url` that is no
-- URL.
pub request_of :
    (Bytes → Bytes) → Bytes → Bytes → ProxySettings → Bytes → Url → Options → Option (Request × Url)
unfolding take_option request_to
request_of base64_text user_agent cookie proxy protocol u opts =
    let n = take_option (codes "_url") [] opts in
    elim (new_url n.0 u) [
      | none ↦ none
      | some w ↦ some (request_to base64_text user_agent cookie proxy protocol w n.1, w)
    ]

abbrev pub crlf : Bytes
crlf = 13 ∷ 10 ∷ []

-- `name: value` and the line break.
abbrev pub header_text : Bytes → Bytes → Bytes
header_text name val = name ++ (codes ": " ++ (val ++ crlf))

unfoldable pub other_option_string : OptionItemList → Bytes → Bytes
other_option_string [] str = str
other_option_string ((key, val) ∷ list) str = other_option_string list (str ++ header_text key val)

abbrev pub unless_empty : Bytes → Bytes → Bytes
unless_empty val text = if is_empty val then [] else text

-- The first line.
abbrev pub request_line : Request → Bytes
request_line r =
    r.request_method ++ (codes " " ++ (r.target ++ (codes " " ++ (r.http_version ++ crlf))))

-- What is behind the first line, in the order in which it is written.
pub header_part : Request → Bytes
unfolding other_option_string
header_part r =
    header_text (codes "Host") r.host
    ++ (header_text (codes "Accept") r.accept
        ++ (header_text (codes "User-Agent") r.user_agent
            ++ (unless_empty r.cookie (header_text (codes "Cookie") r.cookie)
                ++ (header_text (if r.proxied then codes "Proxy-Connection" else codes "Connection")
                      r.connection
                    ++ (unless_empty r.auth (header_text (codes "Proxy-Authorization") r.auth)
                        ++ (other_option_string r.others [] ++ (crlf ++ r.body)))))))

pub request_string : Request → Bytes
unfolding header_part
request_string r = request_line r ++ header_part r
