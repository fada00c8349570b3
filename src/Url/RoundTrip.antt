-- ===== src/Url/RoundTrip.antt =====
-- The two directions of include/avhttp/url.hpp meet: `from_string` reads what `to_string` writes.
use mathlib.Core.List.{map}
use mathlib.Core.Path.{subst}
use avhttp.Base.{
  ℕ, true, false, not, none, some, [], ◌∷◌, ◌++◌, append_assoc, ◌≡◌, ◌≢◌, refl, sym, ◌∙◌, ap, arith,
  ◌==◌, Bytes, codes,
}
use avhttp.CStdlib.{to_lower}
use avhttp.Url.{
  Url, one_of, span, expect, at_char, take_user_info, from_string, all_components, is_empty, when,
  to_string,
}
use avhttp.Url.Parts.{
  Lacks, span-append, stop, user_info_text, host_text, port_text, query_text, fragment_text,
  take_fragment-text, take_query-text, take_path-text, IsDigits, take_port-text, IsHost,
  take_host-text, IsUserInfo, take_user_info-text, take_user_info-none,
}

-- What a URL needs for its text to say where its parts end.
pub record IsWritable (u : Url) : Type 0 where
  pub protocol_some : u.protocol_ ≢ []
  pub protocol_lower : map to_lower u.protocol_ ≡ u.protocol_
  pub protocol_ends : Lacks (codes ":") u.protocol_
  pub user_info_ends : IsUserInfo u.user_info_
  pub host_ends : IsHost u.ipv6_host_ u.host_
  pub port_digits : IsDigits u.port_
  pub path_starts : at_char b'/' u.path_ ≡ true
  pub path_ends : Lacks (codes "?#") u.path_
  pub query_ends : Lacks (codes "#") u.query_

-- The text of `u` with the path `path`.
abbrev text_with : Url → Bytes → Bytes
text_with u path =
    u.protocol_
    ++ (codes "://"
        ++ (user_info_text u.user_info_
            ++ (host_text u.ipv6_host_ u.host_
                ++ (port_text u.port_
                    ++ (path ++ (query_text u.query_ ++ fragment_text u.fragment_))))))

named : (s : Bytes) → s ≢ [] → is_empty s ≡ false
named [] h = absurd (h refl)
named (c ∷ s) h = refl

when_text : (s : Bytes) → when (not (is_empty s)) s ≡ s
when_text [] = refl
when_text (c ∷ s) = refl

to_string-all_components :
    (u : Url) → IsWritable u → to_string all_components u ≡ text_with u u.path_
unfolding to_string
to_string-all_components u w =
    rw (named u.protocol_ w.protocol_some, when_text u.path_, append_assoc) refl

take_user_info-all :
    (u : Url) (t : Bytes)
    → IsUserInfo u.user_info_
    → IsHost u.ipv6_host_ u.host_
    → IsDigits u.port_
    → take_user_info (
        user_info_text u.user_info_
        ++ (host_text u.ipv6_host_ u.host_ ++ (port_text u.port_ ++ (b'/' ∷ t))))
      ≡ (u.user_info_, host_text u.ipv6_host_ u.host_ ++ (port_text u.port_ ++ (b'/' ∷ t)))
take_user_info-all u t l h d = by_cases u.user_info_ l
  where
    by_cases :
        (v : Bytes)
        → IsUserInfo v
        → take_user_info (
            user_info_text v
            ++ (host_text u.ipv6_host_ u.host_ ++ (port_text u.port_ ++ (b'/' ∷ t))))
          ≡ (v, host_text u.ipv6_host_ u.host_ ++ (port_text u.port_ ++ (b'/' ∷ t)))
    by_cases [] k = take_user_info-none u.ipv6_host_ u.host_ u.port_ t h d
    by_cases (c ∷ v) k = take_user_info-text c v _ k

is_slash : (c : ℕ) → (c == b'/') ≡ true → c ≡ b'/'
is_slash c e = ground arith

-- The path of a writable URL behind its slash.
path_cons : (p : Bytes) → at_char b'/' p ≡ true → (q : Bytes) × (p ≡ b'/' ∷ q)
path_cons [] h = absurd (cc)
path_cons (c ∷ s) h = (s, ap (λ d. d ∷ s) (is_slash c h))

from_string-text_with :
    (u : Url) (q : Bytes)
    → IsWritable u
    → u.path_ ≡ b'/' ∷ q
    → from_string (text_with u (b'/' ∷ q)) ≡ some (record u { path_ = b'/' ∷ q })
unfolding from_string expect one_of
from_string-text_with u q w e =
    let t = q ++ (query_text u.query_ ++ fragment_text u.fragment_) in
    let r = port_text u.port_ ++ (b'/' ∷ t) in
    let s = user_info_text u.user_info_ ++ (host_text u.ipv6_host_ u.host_ ++ r) in
    rw
      (
        span-append (codes ":") u.protocol_ (codes "://" ++ s) w.protocol_ends
            (stop (codes ":") b':' (codes "//" ++ s) refl),
        w.protocol_lower,
      )
      (rw (take_user_info-all u t w.user_info_ends w.host_ends w.port_digits) (
        rw (take_host-text u.ipv6_host_ u.host_ u.port_ t w.host_ends) (
          rw (take_port-text u.port_ t w.port_digits) (
            rw
              (take_path-text q u.query_ u.fragment_
                (subst (λ p. Lacks (codes "?#") p) e w.path_ends))
              (rw
                (take_query-text u.query_ u.fragment_ w.query_ends, take_fragment-text u.fragment_)
                refl)))))

-- The text of a URL, with all its components, reads back as that URL, if its protocol is a name in
-- lower case and no part has a character that would end it.
pub from_string-to_string :
    (u : Url) → IsWritable u → from_string (to_string all_components u) ≡ some u
from_string-to_string u w =
    let (q, e) = path_cons u.path_ w.path_starts in
    ap from_string (to_string-all_components u w ∙ ap (text_with u) e)
    ∙ from_string-text_with u q w e
    ∙ ap (λ p. some (record u { path_ = p })) (sym e)

-- The empty text is no URL.
pub from_string-empty : from_string [] ≡ none
unfolding from_string span expect
from_string-empty = refl
