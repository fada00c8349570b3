-- ===== src/HttpStream/Request/Chosen.antt =====
-- Whose options `request` of include/avhttp/impl/http_stream.ipp goes by.
use avhttp.Base.{
  Bool, true, false, not, ◌&&◌, Option, none, some, ◌≡◌, refl, ◌∙◌, Bytes, codes, text_eq,
  if◌then◌else◌,
}
use avhttp.CStdlib.{to_lower}
use avhttp.HttpStream.Request.{
  ProxySettings, Request, take_option, is_http_proxy, host_and_port, request_to,
}
use avhttp.Settings.{Options, find, lowered}
use avhttp.Settings.Find.{find-remove}
use avhttp.Url.{Url, to_string}

abbrev pub or_default : Bytes → Option Bytes → Bytes
or_default val none = val
or_default val (some v) = v

take_option-value :
    (key val : Bytes) (o : Options) (r : Option Bytes)
    → find key o ≡ r
    → (take_option key val o).0 ≡ or_default val r
unfolding take_option
take_option-value key val o none e = rw (take_option, e) refl
take_option-value key val o (some v) e = rw (take_option, e) refl

take_option-others :
    (key val other : Bytes) (o : Options) (r : Option Bytes)
    → find key o ≡ r
    → text_eq (lowered key) (lowered other) ≡ false
    → find other (take_option key val o).1 ≡ find other o
unfolding take_option find
take_option-others key val other o none e h = rw (take_option, e) refl
take_option-others key val other o (some v) e h = rw (take_option, e) (find-remove other key o h)

-- What was taken before leaves what is found under another key.
taken_before :
    (key val other : Bytes) (o : Options)
    → text_eq (lowered key) (lowered other) ≡ false
    → find other (take_option key val o).1 ≡ find other o
taken_before key val other o h = take_option-others key val other o (find key o) refl h

chosen :
    (key val : Bytes) (o before : Options)
    → find key o ≡ find key before
    → (take_option key val o).0 ≡ or_default val (find key before)
chosen key val o before e = take_option-value key val o (find key before) e

either :
    (b : Bool) (P : Bytes → Type 0)
    → P (codes "Proxy-Connection")
    → P (codes "Connection")
    → P (if b then codes "Proxy-Connection" else codes "Connection")
either true P p q = p
either false P p q = q

-- The values of a request are those of the options, or else the defaults.
pub record GoesBy (r : Request) (agent : Bytes) (by_proxy : Bool) (u : Url) (opts : Options)
    : Type 0 where
  pub request_method :
      r.request_method ≡ or_default (codes "GET") (find (codes "_request_method") opts)
  pub http_version :
      r.http_version ≡ or_default (codes "HTTP/1.1") (find (codes "_http_version") opts)
  pub host : r.host ≡ or_default (to_string host_and_port u) (find (codes "Host") opts)
  pub accept :
      r.accept
      ≡ or_default (codes "text/html, application/xhtml+xml, */*") (find (codes "Accept") opts)
  pub user_agent : r.user_agent ≡ or_default agent (find (codes "User-Agent") opts)
  pub proxied : r.proxied ≡ by_proxy
  pub connection :
      r.connection
      ≡ or_default
          (codes "close")
          (find (if by_proxy then codes "Proxy-Connection" else codes "Connection") opts)

-- For any options, the method, the version, the host, what is accepted, the user agent and the
-- connection are those that `find` gives for the options of the caller, and where it gives none,
-- the defaults. The request goes by the proxy, and asks for `Proxy-Connection`, just if there is a
-- HTTP proxy and the protocol that the stream was opened with is not `https`, whatever URL the
-- options name.
pub request_to-GoesBy :
    (base64_text : Bytes → Bytes) (user_agent cookie : Bytes) (proxy : ProxySettings)
    (protocol : Bytes) (u : Url) (opts : Options)
    → GoesBy
        (request_to base64_text user_agent cookie proxy protocol u opts)
        user_agent
        (is_http_proxy proxy.type && not (text_eq protocol (codes "https")))
        u
        opts
unfolding request_to lowered to_lower text_eq
request_to-GoesBy base64_text user_agent cookie proxy protocol u opts =
    let m = take_option (codes "_request_method") (codes "GET") opts in
    let v = take_option (codes "_http_version") (codes "HTTP/1.1") m.1 in
    let h = take_option (codes "Host") (to_string host_and_port u) v.1 in
    let a = take_option (codes "Accept") (codes "text/html, application/xhtml+xml, */*") h.1 in
    let method : (other : Bytes)
        → text_eq (lowered (codes "_request_method")) (lowered other) ≡ false
        → find other m.1 ≡ find other opts =
      λ other. taken_before (codes "_request_method") (codes "GET") other opts in
    let version : (other : Bytes)
        → text_eq (lowered (codes "_http_version")) (lowered other) ≡ false
        → find other v.1 ≡ find other m.1 =
      λ other. taken_before (codes "_http_version") (codes "HTTP/1.1") other m.1 in
    let host : (other : Bytes)
        → text_eq (lowered (codes "Host")) (lowered other) ≡ false
        → find other h.1 ≡ find other v.1 =
      λ other. taken_before (codes "Host") (to_string host_and_port u) other v.1 in
    let accept : (other : Bytes)
        → text_eq (lowered (codes "Accept")) (lowered other) ≡ false
        → find other a.1 ≡ find other h.1 =
      λ other.
        taken_before (codes "Accept") (codes "text/html, application/xhtml+xml, */*") other h.1 in
    let agent : (other : Bytes)
        → text_eq (lowered (codes "User-Agent")) (lowered other) ≡ false
        → find other (take_option (codes "User-Agent") user_agent a.1).1 ≡ find other a.1 =
      λ other. taken_before (codes "User-Agent") user_agent other a.1 in
    record {
      request_method = chosen (codes "_request_method") (codes "GET") opts opts refl;
      http_version =
          chosen (codes "_http_version") (codes "HTTP/1.1") m.1 opts
            (method (codes "_http_version") refl);
      host =
          chosen (codes "Host") (to_string host_and_port u) v.1 opts
            (version (codes "Host") refl ∙ method (codes "Host") refl);
      accept = chosen (codes "Accept") (codes "text/html, application/xhtml+xml, */*") h.1 opts (
          host (codes "Accept") refl
          ∙ version (codes "Accept") refl
          ∙ method (codes "Accept") refl);
      user_agent = chosen (codes "User-Agent") user_agent a.1 opts (
          accept (codes "User-Agent") refl
          ∙ host (codes "User-Agent") refl
          ∙ version (codes "User-Agent") refl
          ∙ method (codes "User-Agent") refl);
      proxied = refl;
      connection =
          let key =
            if is_http_proxy proxy.type && not (text_eq protocol (codes "https"))
            then codes "Proxy-Connection"
            else codes "Connection" in
          chosen key (codes "close") _ opts (
            either (is_http_proxy proxy.type && not (text_eq protocol (codes "https")))
              (λ k. find k (take_option (codes "User-Agent") user_agent a.1).1 ≡ find k opts)
              (agent (codes "Proxy-Connection") refl
                ∙ accept (codes "Proxy-Connection") refl
                ∙ host (codes "Proxy-Connection") refl
                ∙ version (codes "Proxy-Connection") refl
                ∙ method (codes "Proxy-Connection") refl)
              (agent (codes "Connection") refl
                ∙ accept (codes "Connection") refl
                ∙ host (codes "Connection") refl
                ∙ version (codes "Connection") refl
                ∙ method (codes "Connection") refl));
    }
