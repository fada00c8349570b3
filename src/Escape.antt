-- ===== src/Escape.antt =====
-- include/avhttp/detail/escape_string.hpp: percent-encoding, and base64 with its padding.
-- A `char` is a byte, read as unsigned: `c >= 0` of a signed char is `c ≤ 127`.
mod Hex
pub mod RoundTrip
pub mod Safe
pub mod Base64
mod Tests
use avhttp.Base.{
  ℕ, zero, suc, ◌+◌, ◌-◌, ◌*◌, ◌/◌, ◌%◌, Bool, true, false, not, ◌&&◌, ◌||◌, Option, none, some, [],
  ◌∷◌, ◌++◌, leb, ltb, ◌==◌, if◌then◌else◌, ◌>>=◌, Bytes, length,
}

abbrev between : ℕ → ℕ → ℕ → Bool
between lo hi c = leb lo c && leb c hi

unfoldable pub is_char : ℕ → Bool
is_char c = leb c 127

unfoldable pub is_digit : ℕ → Bool
is_digit c = between b'0' b'9' c

unfoldable pub is_ctl : ℕ → Bool
is_ctl c = leb c 31 || c == 127

pub is_unreserved_char : ℕ → Bool
is_unreserved_char c =
    between b'A' b'Z' c
    || between b'a' b'z' c
    || between b'0' b'9' c
    || c == b'-'
    || c == b'_'
    || c == b'.'
    || c == b'~'

unfoldable pub is_tspecial : ℕ → Bool
is_tspecial c = c == b' ' || c == b'`' || c == b'{' || c == b'}' || c == b'^' || c == b'|'

-- `hex_chars[d]`
pub hex_char : ℕ → ℕ
hex_char d = if ltb d 10 then b'0' + d else b'a' + (d - 10)

pub to_hex : Bytes → Bytes
unfolding hex_char
to_hex [] = []
to_hex (c ∷ s) = hex_char (c / 16) ∷ hex_char (c % 16) ∷ to_hex s

-- The loop of `escape_path` and of `escape_string`, with the test for what is encoded.
pub escape_loop : (ℕ → Bool) → Bytes → Bytes → Bytes
unfolding to_hex
escape_loop encoded [] ret = ret
escape_loop encoded (c ∷ s) ret =
    escape_loop encoded s (ret ++ (if encoded c then b'%' ∷ to_hex (c ∷ []) else c ∷ []))

pub escape_path : Bytes → Bytes
unfolding escape_loop is_char is_tspecial
escape_path s = escape_loop (λ c. not (is_char c) || is_tspecial c) s []

pub escape_string : Bytes → Bytes
unfolding escape_loop is_unreserved_char
escape_string s = escape_loop (λ c. not (is_unreserved_char c)) s []

-- The value of a hexadecimal digit of either case.
unfoldable pub hex_value : ℕ → Option ℕ
hex_value c =
    if between b'0' b'9' c
    then some (c - b'0')
    else if between b'a' b'f' c
    then some (c - b'a' + 10)
    else if between b'A' b'F' c
    then some (c - b'A' + 10)
    else none

-- `value` after the two rounds of the inner loop.
pub hex_pair : ℕ → ℕ → Option ℕ
unfolding hex_value
hex_pair d e = do hi ← hex_value d; lo ← hex_value e; some (hi * 16 + lo)

-- The punctuation that stays as it is; neighbours in the code are joined to ranges.
pub is_mark : ℕ → Bool
is_mark c =
    c == b'-'
    || c == b'_'
    || c == b'.'
    || c == b'~'
    || c == b'!'
    || between b'#' b'$' c
    || between b'&' b'/' c
    || between b':' b';' c
    || c == b'='
    || between b'?' b'@' c
    || c == b'['
    || c == b']'

-- The cases of the `switch` but `'%'`: is the character taken over?
pub is_plain : ℕ → Bool
unfolding is_mark
is_plain c = is_mark c || between b'0' b'9' c || between b'A' b'Z' c || between b'a' b'z' c

-- The flag that is returned, and `out`, which a failure leaves as it stands.
pub unescape_loop : Bytes → Bytes → Bool × Bytes
unfolding hex_pair is_plain
unescape_loop [] out = (true, out)
unescape_loop (c ∷ []) out =
    if c == b'%' then (false, out) else if is_plain c then (true, out ++ c ∷ []) else (false, out)
unescape_loop (c ∷ d ∷ []) out =
    let copy = unescape_loop (d ∷ []) (out ++ c ∷ []) in
    if c == b'%' then (false, out) else if is_plain c then copy else (false, out)
unescape_loop (c ∷ d ∷ e ∷ s) out =
    let copy = unescape_loop (d ∷ e ∷ s) (out ++ c ∷ []) in
    let decode : Bool × Bytes = elim (hex_pair d e) [
      | none ↦ (false, out)
      | some v ↦ unescape_loop s (out ++ v ∷ [])
    ] in
    if c == b'%' then decode else if is_plain c then copy else (false, out)

unfoldable pub unescape_path : Bytes → Bool × Bytes
unfolding unescape_loop
unescape_path s = unescape_loop s []

-- `result += "="`, so many times.
unfoldable pub pad : ℕ → Bytes → Bytes
pad zero result = result
pad (suc n) result = pad n (result ++ b'=' ∷ [])

-- The text of the Boost iterators is a parameter: six bits of the input to a character.
unfoldable pub encode_base64 : (Bytes → Bytes) → Bytes → Bytes
unfolding pad
encode_base64 base64_text s =
    let result = base64_text s in let padding = 4 - length result % 4 in pad padding result
