-- ===== src/HttpStream/Request/Text.antt =====
-- The text of a request of include/avhttp/impl/http_stream.ipp, read by `parse_http_headers` of
-- include/avhttp/detail/parsers.hpp.
use avhttp.Base.{
  Bool, true, List, [], ◌∷◌, ◌++◌, append_assoc, ◌≡◌, refl, ◌∙◌, ap, Bytes, codes, All,
  if◌then◌else◌,
}
use avhttp.HttpStream.Request.{
  Request, crlf, header_text, other_option_string, unless_empty, request_line, header_part,
  request_string,
}
use avhttp.Settings.{OptionItemList}
use avhttp.Parsers.Headers.{Known, parse_http_headers, final_linefeed}
use avhttp.Parsers.Headers.RoundTrip.{
  at, IsHeader, header_lines, check_all, listed, parse_http_headers-header_lines,
}

-- A header that is written only with a value.
abbrev pub optional : Bytes → Bytes → OptionItemList → OptionItemList
optional name [] hs = hs
optional name (c ∷ val) hs = (name, c ∷ val) ∷ hs

-- The headers of a request, in their order.
abbrev pub headers : Request → OptionItemList
headers r =
    (codes "Host", r.host)
    ∷ (codes "Accept", r.accept)
    ∷ (codes "User-Agent", r.user_agent)
    ∷ optional (codes "Cookie") r.cookie (
        ((if r.proxied then codes "Proxy-Connection" else codes "Connection"), r.connection)
        ∷ optional (codes "Proxy-Authorization") r.auth r.others)

header_text-append :
    (name val rest : Bytes)
    → header_text name val ++ rest ≡ name ++ (codes ": " ++ (val ++ (crlf ++ rest)))
header_text-append name val rest =
    append_assoc name _ _ ∙ ap (λ t. name ++ (codes ": " ++ t)) (append_assoc val _ _)

others-append :
    (list : OptionItemList) (str rest : Bytes)
    → other_option_string list str ++ rest ≡ str ++ header_lines list rest
unfolding other_option_string
others-append [] str rest = refl
others-append ((key, val) ∷ list) str rest =
    others-append list (str ++ header_text key val) rest
    ∙ append_assoc str _ _
    ∙ ap (λ t. str ++ t) (header_text-append key val (header_lines list rest))

optional-append :
    (name val rest : Bytes) (hs : OptionItemList) (s : Bytes)
    → s ≡ header_lines hs rest
    → unless_empty val (header_text name val) ++ s ≡ header_lines (optional name val hs) rest
optional-append name [] rest hs s e = e
optional-append name (c ∷ val) rest hs s e =
    header_text-append name (c ∷ val) s
    ∙ ap (λ t. name ++ (codes ": " ++ ((c ∷ val) ++ (crlf ++ t)))) e

one_header :
    (name val rest : Bytes) (hs : OptionItemList) (s : Bytes)
    → s ≡ header_lines hs rest
    → header_text name val ++ s ≡ header_lines ((name, val) ∷ hs) rest
one_header name val rest hs s e =
    header_text-append name val s ∙ ap (λ t. name ++ (codes ": " ++ (val ++ (crlf ++ t)))) e

header_part-lines : (r : Request) → header_part r ≡ header_lines (headers r) (crlf ++ r.body)
unfolding header_part
header_part-lines r =
    let rest = crlf ++ r.body in
    let connection = if r.proxied then codes "Proxy-Connection" else codes "Connection" in
    let h5 = optional (codes "Proxy-Authorization") r.auth r.others in
    let h4 = (connection, r.connection) ∷ h5 in
    let h3 = optional (codes "Cookie") r.cookie h4 in
    let h2 = (codes "User-Agent", r.user_agent) ∷ h3 in
    let h1 = (codes "Accept", r.accept) ∷ h2 in
    let tail =
      optional-append (codes "Proxy-Authorization") r.auth rest r.others _
        (others-append r.others [] rest) in
    one_header (codes "Host") r.host rest h1 _ (
      one_header (codes "Accept") r.accept rest h2 _ (
        one_header (codes "User-Agent") r.user_agent rest h3 _ (
          optional-append (codes "Cookie") r.cookie rest h4 _
            (one_header connection r.connection rest h5 _ tail))))

-- Behind its first line, the text of a request is a block of headers that both header parsers
-- accept, and that the one with a list reads as the headers of the request in their order, if each
-- of them can be written on one line.
pub parse_http_headers-request_string :
    (listing : Bool) (r : Request) (before : List (Bytes × Bytes)) (k : Known)
    → All IsHeader (headers r)
    → (part : Bytes) × (request_string r ≡ request_line r ++ part)
      × (parse_http_headers listing part k before ≡ (
        true,
        at final_linefeed [] [] (check_all (headers r) k) (listed listing before (headers r)),
      ))
unfolding request_string
parse_http_headers-request_string listing r before k h = (
  header_part r,
  refl,
  ap (λ s. parse_http_headers listing s k before) (header_part-lines r)
      ∙ parse_http_headers-header_lines listing (headers r) before r.body k h,
)
