-- ===== src/Cookie/Tests.antt =====
-- Runs of include/avhttp/cookie.hpp, and its theorems at inputs. A time is a number here, and
-- `expires` is read as a length.
use Prim.Native.String.{String}
use avhttp.Base.{
  ℕ, true, Option, none, some, List, [], ◌∷◌, ◌≡◌, ◌≢◌, refl, if◌then◌else◌, text_eq, Bytes, codes,
  length, All,
}
use avhttp.Bencode.{key_lt}
use avhttp.CStdlib.{to_lower}
use avhttp.Cookie.{
  HttpCookie, new_cookie, put, flagged, step_in, run, is_empty, finish_in, take_attributes,
  attribute, cookies_of, finished, parse_cookie_string, update, value_of, kept, fill, remove_cookie,
}
use avhttp.Cookie.Pairs.{IsPair, value_char, last_value}
use avhttp.Cookie.Store.{value_of-update}
use avhttp.Cookie.Values.{parse_cookie_string-pairs_text}
use avhttp.Escape.{is_char, is_tspecial}

abbrev expires_at : Bytes → Option ℕ
expires_at s = some (length s)

abbrev parsed : Bytes → Option (List (HttpCookie ℕ))
parsed s = parse_cookie_string expires_at (codes "a.b") s

abbrev named : String → String → HttpCookie ℕ
named k v = record new_cookie { name = codes k; value = codes v }

run_attributes :
    parsed (codes "id=7; Path=/x; domain=; Expires=Sun, 22-Sep-2013; HttpOnly; secure")
    ≡ some (
        record {
          name = codes "id";
          value = codes "7";
          domain = codes "a.b";
          path = codes "/x";
          expires = some 16;
          httponly = true;
          secure = true;
        }
        ∷ [])
unfolding parse_cookie_string run step_in is_char is_tspecial flagged to_lower finish_in put key_lt
    take_attributes attribute cookies_of finished
run_attributes = refl

-- A quote ends the value, so that a semicolon directly behind it begins the next name.
run_quoted :
    (parsed (codes "a='b'; c=d") ≡ some (named "a" "b" ∷ named "c" "d" ∷ []))
    × (parsed (codes "a='b';c=d") ≡ some (named ";c" "d" ∷ named "a" "b" ∷ []))
    × (parsed (codes "a=b; bad; c=d") ≡ none)
    × (parsed (codes "a=b; c=") ≡ some (named "a" "b" ∷ []))
unfolding parse_cookie_string run step_in is_char is_tspecial flagged to_lower finish_in put key_lt
    take_attributes attribute cookies_of finished
run_quoted = (refl, refl, refl, refl)

-- The cookie that was to be removed is there afterwards, at the place behind those that were kept.
run_remove_cookie :
    remove_cookie (λ k. named "left" "over") (codes "a") (named "a" "1" ∷ named "b" "2" ∷ [])
    ≡ named "b" "2" ∷ named "left" "over" ∷ []
unfolding remove_cookie kept fill
run_remove_cookie = refl

two_pairs-IsPair : All IsPair ((codes "b", codes "1") ∷ (codes "b", codes "2") ∷ [])
unfolding is_char is_tspecial to_lower text_eq
two_pairs-IsPair = (
  pair_of (codes "1") (λ e. absurd (cc)) (refl, tt),
  (pair_of (codes "2") (λ e. absurd (cc)) (refl, tt), tt),
)
  where
    pair_of : (v : Bytes) → v ≢ [] → All (λ c. value_char c ≡ true) v → IsPair (codes "b", v)
    pair_of v h k = record {
      some_name = λ e. absurd (cc);
      name_chars = (refl, tt);
      some_value = h;
      value_chars = k;
      no_expires = refl;
      no_domain = refl;
      no_path = refl;
    }

parse_cookie_string-pairs_text_example :
    (cookies : List (HttpCookie ℕ)) × (parsed (codes "b=1; b=2") ≡ some cookies)
    × ((key : Bytes)
        → value_of key cookies
          ≡ last_value key [] ((codes "b", codes "1") ∷ (codes "b", codes "2") ∷ []))
parse_cookie_string-pairs_text_example =
    parse_cookie_string-pairs_text expires_at (codes "a.b") (codes "b", codes "1")
      ((codes "b", codes "2") ∷ []) two_pairs-IsPair.0 two_pairs-IsPair.1

value_of-update_example :
    value_of (codes "a") (update (codes "a") (codes "new") (named "a" "old" ∷ [])) ≡ (
      if is_empty (value_of (codes "a") (named "a" "old" ∷ []))
      then codes "new"
      else value_of (codes "a") (named "a" "old" ∷ []))
value_of-update_example = value_of-update (codes "a") (codes "new") (named "a" "old" ∷ [])
