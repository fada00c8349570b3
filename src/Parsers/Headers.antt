-- ===== src/Parsers/Headers.antt =====
-- `headers_equal`, `check_header` and the two `parse_http_headers` of
-- include/avhttp/detail/parsers.hpp. The overload with a list of headers is the lenient one: it
-- takes a header with no value, and a line that ends with a lone newline.
pub mod RoundTrip
pub mod Fold
mod Tests
use avhttp.Base.{
  ℕ, Bool, true, false, not, ◌&&◌, ◌||◌, Option, none, some, List, [], ◌∷◌, ◌++◌, leb, ◌==◌,
  if◌then◌else◌, Bytes, codes, length,
}
use avhttp.Base.Int.{ℤ, leb_ℤ}
use avhttp.CStdlib.{trim, to_lower, atoi64}
use avhttp.Escape.{is_char, is_ctl, is_tspecial}

pub tolower_compare : ℕ → ℕ → Bool
unfolding to_lower
tolower_compare a b = to_lower a == to_lower b

-- `std::equal` over the characters of the first.
pub all_equal : Bytes → Bytes → Bool
unfolding tolower_compare
all_equal [] b = true
all_equal (x ∷ a) [] = false
all_equal (x ∷ a) (y ∷ b) = tolower_compare x y && all_equal a b

pub headers_equal : Bytes → Bytes → Bool
unfolding all_equal
headers_equal a b = if not (length a == length b) then false else all_equal a b

-- What stands behind the first slash.
pub behind_slash : Bytes → Option Bytes
behind_slash [] = none
behind_slash (c ∷ s) = let rest = behind_slash s in if c == b'/' then some s else rest

abbrev pub max_ℤ : ℤ → ℤ → ℤ
max_ℤ a b = if leb_ℤ a b then b else a

-- The references that `check_header` fills.
pub record Known : Type 0 where
  pub content_type : Bytes
  pub content_length : ℤ
  pub location : Bytes

abbrev pub longer : Option Bytes → Known → Known
longer none k = k
longer (some []) k = k
longer (some (c ∷ s)) k = record k { content_length = max_ℤ (atoi64 (c ∷ s)) k.content_length }

pub check_header : Bytes → Bytes → Known → Known
check_header name value k =
    if headers_equal name (codes "Content-Type")
    then record k { content_type = value }
    else if headers_equal name (codes "Content-Length")
    then record k { content_length = max_ℤ (atoi64 value) k.content_length }
    else if headers_equal name (codes "Location")
    then record k { location = value }
    else if headers_equal name (codes "Content-Range")
    then longer (behind_slash value) k
    else k

pub data HeaderState : Type 0 where
  first_header_line_start header_line_start header_lws header_name : HeaderState
  space_before_header_value header_value linefeed final_linefeed fail : HeaderState

-- The locals and the references to the results.
pub record HeaderParser : Type 0 where
  pub state : HeaderState
  pub name : Bytes
  pub value : Bytes
  pub known : Known
  pub headers : List (Bytes × Bytes)

abbrev pub goto : HeaderState → HeaderParser → HeaderParser
goto state p = record p { state = state }

-- A header that is complete: trimmed, looked at, and listed.
pub finish_header : Bool → HeaderParser → HeaderParser
finish_header listing p =
    let name = trim p.name in
    let value = trim p.value in
    record p {
      known = check_header name value p.known;
      headers = if listing then p.headers ++ (name, value) ∷ [] else p.headers;
      name = [];
      value = [];
    }

abbrev pub is_bad_name : ℕ → Bool
is_bad_name c = not (is_char c) || is_ctl c || is_tspecial c

abbrev pub push_value : ℕ → HeaderParser → HeaderParser
push_value c p = record p { state = header_value; value = p.value ++ c ∷ [] }

-- The cases of the `switch` but `final_linefeed` and the default, which return; `listing` is the
-- overload with the list.
pub step_in : Bool → HeaderState → HeaderParser → ℕ → HeaderParser
step_in listing first_header_line_start p c =
    if c == b'\r'
    then goto final_linefeed p
    else if is_bad_name c
    then goto fail p
    else record p { name = p.name ++ c ∷ []; state = header_name }
step_in listing header_line_start p c =
    if c == b'\r'
    then goto final_linefeed (finish_header listing p)
    else if c == b' ' || c == b'\t'
    then goto header_lws p
    else if is_bad_name c
    then goto fail p
    else record (finish_header listing p) { name = c ∷ []; state = header_name }
step_in listing header_lws p c =
    if c == b'\r'
    then goto linefeed p
    else if c == b' ' || c == b'\t'
    then p
    else if is_ctl c
    then goto fail p
    else push_value c p
step_in listing header_name p c =
    if c == b':'
    then goto space_before_header_value p
    else if is_bad_name c
    then goto fail p
    else record p { name = p.name ++ c ∷ [] }
step_in false space_before_header_value p c =
    if c == b' ' then goto header_value p else if is_ctl c then goto fail p else push_value c p
step_in true space_before_header_value p c =
    if c == b'\r' then goto linefeed p else if is_ctl c then goto fail p else push_value c p
step_in listing header_value p c =
    if c == b'\r'
    then goto linefeed p
    else if is_ctl c
    then (if listing && c == b'\n' then goto header_line_start p else goto fail p)
    else push_value c p
step_in listing linefeed p c = if c == b'\n' then goto header_line_start p else goto fail p
step_in listing final_linefeed p c = p
step_in listing fail p c = p

pub run : Bool → HeaderParser → Bytes → Bool × HeaderParser
unfolding step_in
run listing p [] = (false, p)
run listing p (c ∷ s) =
    let next = run listing (step_in listing p.state p c) s in
    elim p.state [ fail ↦ (false, p) | final_linefeed ↦ (c == b'\n', p) | _ ↦ next ]

abbrev pub start : Known → List (Bytes × Bytes) → HeaderParser
start known headers = record {
  state = first_header_line_start;
  name = [];
  value = [];
  known = known;
  headers = headers;
}

pub parse_http_headers : Bool → Bytes → Known → List (Bytes × Bytes) → Bool × HeaderParser
unfolding run
parse_http_headers listing s known headers = run listing (start known headers) s
