-- ===== src/Url.antt =====
-- include/avhttp/url.hpp: a URL taken apart and put together. The text is a C string: it has no NUL,
-- and a pointer into it is the list of the characters from there on, empty at the end.
pub mod Parts
pub mod RoundTrip
pub mod Port
mod Tests
use mathlib.Core.List.{map}
use avhttp.Base.{
  ℕ, ◌/◌, ◌%◌, ◌^◌, Bool, true, false, not, ◌&&◌, ◌||◌, Option, none, some, [], ◌∷◌, ◌++◌, ◌==◌,
  if◌then◌else◌, ◌>>=◌, Bytes, codes, text_eq,
}
use avhttp.CStdlib.{to_lower, atoi}
use avhttp.Escape.{is_digit, unescape_path}

pub record Url : Type 0 where
  pub protocol_ : Bytes
  pub user_info_ : Bytes
  pub host_ : Bytes
  pub port_ : Bytes
  pub path_ : Bytes
  pub query_ : Bytes
  pub fragment_ : Bytes
  pub ipv6_host_ : Bool

-- Is the character one of `set`?
unfoldable pub one_of : Bytes → ℕ → Bool
one_of [] c = false
one_of (d ∷ set) c = c == d || one_of set c

-- The text in front of the first character of `set`, and the text from there on: both sides of
-- what `strcspn` measures.
unfoldable pub span : Bytes → Bytes → Bytes × Bytes
unfolding one_of
span set [] = ([], [])
span set (c ∷ s) = let (p, r) = span set s in if one_of set c then ([], c ∷ s) else (c ∷ p, r)

-- `*s++ != c` for each character of the text.
unfoldable pub expect : Bytes → Bytes → Option Bytes
expect [] s = some s
expect (c ∷ p) [] = none
expect (c ∷ p) (d ∷ s) = let rest = expect p s in if d == c then rest else none

abbrev pub skip_one : Bytes → Bytes
skip_one [] = []
skip_one (c ∷ s) = s

abbrev pub at_char : ℕ → Bytes → Bool
at_char c [] = false
at_char c (d ∷ s) = d == c

-- The user info and the text behind its `@`; no user info leaves the text.
unfoldable pub take_user_info : Bytes → Bytes × Bytes
take_user_info s =
    let (u, r) = span (codes "@:[/?#") s in
    let (v, r2) = span (codes "@/?#") r in
    if at_char b'@' r
    then (u, skip_one r)
    else if at_char b':' r && at_char b'@' r2
    then (u ++ v, skip_one r2)
    else ([], s)

pub record Host : Type 0 where
  pub name : Bytes
  pub ipv6 : Bool
  pub behind : Bytes

-- Behind `[`: up to `]`, and then the end, a port, a path, a query or a fragment.
pub take_ipv6 : Bytes → Option Host
take_ipv6 s =
    let (h, r) = span (codes "]") s in
    let (junk, r2) = span (codes ":/?#") (skip_one r) in
    if not (at_char b']' r)
    then none
    else if text_eq junk []
    then some (record { name = h; ipv6 = true; behind = skip_one r })
    else none

unfoldable pub take_host : Bytes → Option Host
take_host s =
    let (h, r) = span (codes ":/?#") s in
    if at_char b'[' s
    then take_ipv6 (skip_one s)
    else some (record { name = h; ipv6 = false; behind = r })

pub all_digits : Bytes → Bool
all_digits [] = true
all_digits (c ∷ s) = is_digit c && all_digits s

-- The digits of the port, and the text behind them.
unfoldable pub take_port : Bytes → Option (Bytes × Bytes)
take_port s =
    let (p, r) = span (codes "/?#") (skip_one s) in
    if not (at_char b':' s)
    then some ([], s)
    else if text_eq p [] || not (all_digits p)
    then none
    else some (p, r)

unfoldable pub take_path : Bytes → Bytes × Bytes
take_path s = if at_char b'/' s then span (codes "?#") s else (b'/' ∷ [], s)

unfoldable pub take_query : Bytes → Bytes × Bytes
take_query s = if at_char b'?' s then span (codes "#") (skip_one s) else ([], s)

unfoldable pub take_fragment : Bytes → Bytes
take_fragment s = if at_char b'#' s then skip_one s else []

-- `none` is the error `invalid_argument`.
unfoldable pub from_string : Bytes → Option Url
from_string s = do
  let (protocol, r0) = span (codes ":") s
  r1 ← expect (codes "://") r0
  let (user_info, r2) = take_user_info r1
  host ← take_host r2
  (port, r3) ← take_port host.behind
  let (path, r4) = take_path r3
  let (query, r5) = take_query r4
  some (record {
    protocol_ = map to_lower protocol;
    user_info_ = user_info;
    host_ = host.name;
    port_ = port;
    path_ = path;
    query_ = query;
    fragment_ = take_fragment r5;
    ipv6_host_ = host.ipv6;
  })

-- `(components & mask) != 0`, for a mask of one bit.
abbrev pub has_component : ℕ → ℕ → Bool
has_component components mask = (components / mask) % 2 == 1

abbrev pub all_components : ℕ
all_components = 127

abbrev pub is_empty : Bytes → Bool
is_empty [] = true
is_empty (c ∷ s) = false

abbrev pub when : Bool → Bytes → Bytes
when b s = if b then s else []

unfoldable pub to_string : ℕ → Url → Bytes
to_string components u =
    when (has_component components 1 && not (is_empty u.protocol_)) (u.protocol_ ++ codes "://")
    ++ (when (has_component components 2 && not (is_empty u.user_info_)) (u.user_info_ ++ codes "@")
        ++ (when (has_component components 4)
              (when u.ipv6_host_ (codes "[") ++ (u.host_ ++ when u.ipv6_host_ (codes "]")))
            ++ (when (has_component components 8 && not (is_empty u.port_)) (codes ":" ++ u.port_)
                ++ (when (has_component components 16 && not (is_empty u.path_)) u.path_
                    ++ (when (has_component components 32 && not (is_empty u.query_))
                          (codes "?" ++ u.query_)
                        ++ when (has_component components 64 && not (is_empty u.fragment_))
                            (codes "#" ++ u.fragment_))))))

-- The result is an `unsigned short`.
pub port : Url → ℕ
port u =
    if not (is_empty u.port_)
    then atoi u.port_ % 2 ^ 16
    else if text_eq u.protocol_ (codes "http")
    then 80
    else if text_eq u.protocol_ (codes "https")
    then 443
    else if text_eq u.protocol_ (codes "ftp")
    then 21
    else 0

-- The flag that `unescape_path` returns is not looked at.
pub path : Url → Bytes
path u = (unescape_path u.path_).1
