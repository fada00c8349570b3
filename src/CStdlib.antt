-- ===== src/CStdlib.antt =====
-- What the program uses of the C library on characters and decimal numbers.
use avhttp.Base.{
  ℕ, zero, suc, ◌+◌, ◌-◌, ◌*◌, ◌%◌, ◌^◌, min, Bool, ◌&&◌, ◌||◌, Option, none, some, [], ◌∷◌, leb,
  ◌==◌, if◌then◌else◌, Bytes,
}
use avhttp.Base.Int.{ℤ, pos, negsuc}
use avhttp.Escape.{is_digit, hex_value}

-- `isspace` and the digits that `strtoll` and `atoi` read.
unfoldable pub is_space : ℕ → Bool
is_space c = c == b' ' || (leb 9 c && leb c 13)

unfoldable pub skip_space : Bytes → Bytes
skip_space [] = []
skip_space (c ∷ s) = let rest = skip_space s in if is_space c then rest else c ∷ s

unfoldable pub digits_value : Bytes → ℕ → ℕ
digits_value [] n = n
digits_value (c ∷ s) n =
    let rest = digits_value s (n * 10 + (c - b'0')) in if is_digit c then rest else n

-- `none` where there is no digit to convert.
unfoldable pub leading : Bytes → Option ℕ
leading [] = none
leading (c ∷ s) = if is_digit c then some (digits_value (c ∷ s) 0) else none

abbrev pub max_i64 : ℕ
max_i64 = 2 ^ 63 - 1

-- `strtoll` stops at a value outside 64 bits.
abbrev pub positive : Option ℕ → Option ℤ
positive none = none
positive (some n) = some (pos (min n max_i64))

abbrev pub negate : ℕ → ℤ
negate zero = pos 0
negate (suc n) = negsuc n

abbrev pub negative : Option ℕ → Option ℤ
negative none = none
negative (some n) = some (negate (min n (max_i64 + 1)))

unfoldable pub signed : Bytes → Option ℤ
signed [] = none
signed (c ∷ s) =
    if c == b'-'
    then negative (leading s)
    else if c == b'+'
    then positive (leading s)
    else positive (leading (c ∷ s))

-- `none` where `end_pointer` is the start of the text.
unfoldable pub strtoll : Bytes → Option ℤ
unfolding signed skip_space is_space
strtoll s = signed (skip_space s)

-- `std::atoi`, of a text that begins with a digit.
unfoldable pub atoi : Bytes → ℕ
atoi s = digits_value s 0

-- `isspace` characters off the end, and off both ends: `boost::trim` in the "C" locale.
abbrev pub unless_blank : ℕ → Bytes → Bytes
unless_blank c [] = if is_space c then [] else c ∷ []
unless_blank c (d ∷ s) = c ∷ d ∷ s

unfoldable pub trim_end : Bytes → Bytes
trim_end [] = []
trim_end (c ∷ s) = unless_blank c (trim_end s)

unfoldable pub trim : Bytes → Bytes
unfolding trim_end skip_space
trim s = trim_end (skip_space s)

unfoldable pub to_lower : ℕ → ℕ
to_lower c = if leb b'A' c && leb c b'Z' then c + 32 else c

-- `strtoll(s, NULL, 10)`: 0 where nothing is converted.
abbrev pub value_or_zero : Option ℤ → ℤ
value_or_zero none = pos 0
value_or_zero (some v) = v

unfoldable pub atoi64 : Bytes → ℤ
unfolding strtoll
atoi64 s = value_or_zero (strtoll s)

-- `ss << std::hex << text; ss >> size`: an unsigned 64-bit number in hexadecimal digits, 0 where
-- there is none, the highest where it does not fit; a minus wraps around.
unfoldable pub hex_digits_value : Bytes → ℕ → ℕ
unfolding hex_value
hex_digits_value [] n = n
hex_digits_value (c ∷ s) n = elim (hex_value c) [
  | none ↦ n
  | some d ↦ hex_digits_value s (n * 16 + d)
]

unfoldable pub skip_prefix : Bytes → Bytes
skip_prefix [] = []
skip_prefix (c ∷ []) = c ∷ []
skip_prefix (c ∷ d ∷ s) = if c == b'0' && (d == b'x' || d == b'X') then s else c ∷ d ∷ s

abbrev pub fit_u64 : ℕ → ℕ
fit_u64 n = min n (2 ^ 64 - 1)

unfoldable pub signed_hex : Bytes → ℕ
unfolding skip_prefix hex_digits_value
signed_hex [] = 0
signed_hex (c ∷ s) =
    if c == b'-'
    then (if leb (2 ^ 64) (hex_digits_value (skip_prefix s) 0)
        then 2 ^ 64 - 1
        else (2 ^ 64 - hex_digits_value (skip_prefix s) 0) % 2 ^ 64)
    else if c == b'+'
    then fit_u64 (hex_digits_value (skip_prefix s) 0)
    else fit_u64 (hex_digits_value (skip_prefix (c ∷ s)) 0)

unfoldable pub hex_size : Bytes → ℕ
unfolding skip_space signed_hex
hex_size s = signed_hex (skip_space s)
