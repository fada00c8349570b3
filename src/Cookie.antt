-- ===== src/Cookie.antt =====
-- include/avhttp/cookie.hpp: the list of cookies, and the parser of a Set-Cookie text. What is a
-- date, and the clock, are parameters: `expires_of` is the time that the text of `expires` gives,
-- by `parse_http_date` or as a number of seconds from now. `none` is no time.
pub mod Pairs
pub mod Values
pub mod Store
mod Tests
use mathlib.Core.List.{map}
use avhttp.Base.{
  ℕ, zero, suc, ◌+◌, Bool, true, false, not, ◌&&◌, ◌||◌, Option, none, some, List, [], ◌∷◌, ◌++◌,
  ltb, ◌==◌, if◌then◌else◌, Bytes, codes, text_eq, length,
}
use avhttp.Bencode.{key_lt}
use avhttp.CStdlib.{to_lower}
use avhttp.Escape.{is_char, is_tspecial}

-- `cookie_t`
pub record HttpCookie (Time : Type 0) : Type 0 where
  pub name : Bytes
  pub value : Bytes
  pub domain : Bytes
  pub path : Bytes
  pub expires : Option Time
  pub httponly : Bool
  pub secure : Bool

abbrev pub new_cookie : {Time : Type 0} → HttpCookie Time
new_cookie = record {
  name = [];
  value = [];
  domain = [];
  path = [];
  expires = none;
  httponly = false;
  secure = false;
}

-- A map from strings to strings, in the order of its keys, and `tmp[name] = value`.
abbrev pub StringMap : Type 0
StringMap = List (Bytes × Bytes)

unfoldable pub put : Bytes → Bytes → StringMap → StringMap
unfolding key_lt
put k v [] = (k, v) ∷ []
put k v ((j, w) ∷ m) =
    let rest = put k v m in
    if key_lt k j then (k, v) ∷ (j, w) ∷ m else if key_lt j k then (j, w) ∷ rest else (k, v) ∷ m

pub data CookieState : Type 0 where
  cookie_name_start : CookieState
  cookie_name : CookieState
  cookie_value_start : CookieState
  cookie_value : CookieState
  cookie_bad : CookieState

-- The locals of `parse_cookie_string`.
pub record CookieParser : Type 0 where
  pub state : CookieState
  pub name : Bytes
  pub value : Bytes
  pub tmp : StringMap
  pub httponly : Bool
  pub secure : Bool

abbrev pub start : CookieParser
start = record {
  state = cookie_name_start;
  name = [];
  value = [];
  tmp = [];
  httponly = false;
  secure = false;
}

abbrev pub lower_copy : Bytes → Bytes
lower_copy s = map to_lower s

abbrev pub is_quote : ℕ → Bool
is_quote c = c == 34 || c == 39

-- A name that stands alone: `secure` or `httponly`.
unfoldable pub flagged : CookieParser → CookieParser → CookieParser
unfolding to_lower text_eq
flagged p bad =
    if text_eq (lower_copy p.name) (codes "secure")
    then record p { secure = true }
    else if text_eq (lower_copy p.name) (codes "httponly")
    then record p { httponly = true }
    else bad

-- `tmp[name] = value`, and the name and the value cleared.
abbrev pub stored : CookieParser → CookieParser
stored p = record p {
  state = cookie_name_start;
  name = [];
  value = [];
  tmp = put p.name p.value p.tmp;
}

unfoldable pub step_in : CookieState → ℕ → CookieParser → CookieParser
unfolding is_char is_tspecial flagged put
step_in cookie_name_start c p =
    if c == b' '
    then p
    else if is_char c
    then record p { name = p.name ++ (c ∷ []); state = cookie_name }
    else record p { state = cookie_bad }
step_in cookie_name c p =
    if c == b';'
    then record (flagged (record p { state = cookie_name_start })
        (record p { state = cookie_bad })) { name = [] }
    else if c == b'='
    then record p { value = []; state = cookie_value_start }
    else if is_tspecial c || c == b':'
    then record p { name = []; state = cookie_name_start }
    else if is_char c || c == b'_'
    then record p { name = p.name ++ (c ∷ []) }
    else p
step_in cookie_value_start c p =
    if c == b';'
    then stored p
    else if is_quote c
    then p
    else if is_char c
    then record p { value = p.value ++ (c ∷ []); state = cookie_value }
    else record p { state = cookie_bad }
step_in cookie_value c p =
    if c == b';' || is_quote c
    then stored p
    else if is_char c
    then record p { value = p.value ++ (c ∷ []) }
    else record p { state = cookie_bad }
step_in cookie_bad c p = p

-- The loop stops at the state `cookie_bad`, in which a step changes nothing.
unfoldable pub run : Bytes → CookieParser → CookieParser
unfolding step_in
run [] p = p
run (c ∷ s) p = run s (step_in p.state c p)

abbrev pub is_empty : Bytes → Bool
is_empty [] = true
is_empty (c ∷ s) = false

-- Behind the loop: the locals, or `false`.
unfoldable pub finish_in : CookieState → CookieParser → Option CookieParser
unfolding flagged put
finish_in cookie_name p = some (if is_empty p.name then p else flagged p p)
finish_in cookie_value p =
    some (if is_empty p.value then p else record p { tmp = put p.name p.value p.tmp })
finish_in cookie_bad p = none
finish_in _ p = some p

module _ {Time : Type 0} (expires_of : Bytes → Option Time) where
  abbrev pub dated : Option Time → HttpCookie Time → HttpCookie Time
  dated none c = c
  dated (some t) c = record c { expires = some t }

  -- What an attribute sets in all cookies of the text; `none` is no attribute.
  unfoldable pub attribute : Bytes → Bytes → Bytes → HttpCookie Time → Option (HttpCookie Time)
  unfolding to_lower text_eq
  attribute default_domain k v c =
      let domain = if is_empty v && not (is_empty default_domain) then default_domain else v in
      if text_eq (lower_copy k) (codes "expires")
      then some (dated (expires_of v) c)
      else if text_eq (lower_copy k) (codes "domain")
      then some (record c { domain = domain })
      else if text_eq (lower_copy k) (codes "path")
      then some (record c { path = v })
      else none

  -- The loop that takes the attributes out of the map.
  unfoldable pub take_attributes : Bytes → StringMap → HttpCookie Time → HttpCookie Time × StringMap
  unfolding attribute
  take_attributes default_domain [] c = (c, [])
  take_attributes default_domain ((k, v) ∷ m) c = elim (attribute default_domain k v c) [
    | some d ↦ take_attributes default_domain m d
    | none ↦ let (d, rest) = take_attributes default_domain m c in (d, (k, v) ∷ rest)
  ]

  -- The cookies that are left, each with the attributes.
  unfoldable pub cookies_of : HttpCookie Time → StringMap → List (HttpCookie Time)
  cookies_of c [] = []
  cookies_of c ((k, v) ∷ m) = record c { name = k; value = v } ∷ cookies_of c m

  unfoldable pub finished : Bytes → CookieParser → List (HttpCookie Time)
  unfolding take_attributes cookies_of
  finished default_domain p =
      let r =
        take_attributes default_domain p.tmp
          (record new_cookie { httponly = p.httponly; secure = p.secure }) in
      cookies_of r.0 r.1

  pub parse_cookie_string : Bytes → Bytes → Option (List (HttpCookie Time))
  unfolding run finish_in finished
  parse_cookie_string default_domain str =
      let p = run str start in
      elim (finish_in p.state p) [ none ↦ none | some q ↦ some (finished default_domain q) ]

  -- `operator()(str)`: the cookies of a text behind those that are there.
  pub update_from : Bytes → Bytes → List (HttpCookie Time) → List (HttpCookie Time)
  unfolding parse_cookie_string
  update_from default_domain str cookies = elim (parse_cookie_string default_domain str) [
    | none ↦ cookies
    | some more ↦ cookies ++ more
  ]

module _ {Time : Type 0} where
  -- `operator()(name, value)`
  pub update : Bytes → Bytes → List (HttpCookie Time) → List (HttpCookie Time)
  update name value cookies = cookies ++ (record new_cookie { name = name; value = value } ∷ [])

  -- `operator[]`
  pub value_of : Bytes → List (HttpCookie Time) → Bytes
  unfolding text_eq
  value_of key [] = []
  value_of key (c ∷ cookies) =
      let rest = value_of key cookies in
      if text_eq c.name key && not (is_empty c.value) then c.value else rest

  -- `std::remove_if`: the elements that stay are moved to the front, and the list keeps its length.
  -- What stands behind them is up to `left_over`.
  pub kept : Bytes → List (HttpCookie Time) → List (HttpCookie Time)
  unfolding text_eq
  kept name [] = []
  kept name (c ∷ cookies) =
      let rest = kept name cookies in if text_eq c.name name then rest else c ∷ rest

  pub fill :
      (ℕ → HttpCookie Time)
      → ℕ
      → List (HttpCookie Time)
      → List (HttpCookie Time)
      → List (HttpCookie Time)
  fill left_over k s [] = []
  fill left_over k [] (c ∷ cookies) = left_over k ∷ fill left_over (suc k) [] cookies
  fill left_over k (d ∷ s) (c ∷ cookies) = d ∷ fill left_over (suc k) s cookies

  pub remove_cookie :
      (ℕ → HttpCookie Time) → Bytes → List (HttpCookie Time) → List (HttpCookie Time)
  unfolding kept fill
  remove_cookie left_over name cookies = fill left_over 0 (kept name cookies) cookies
