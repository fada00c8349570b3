-- ===== src/Escape/Hex.antt =====
-- Two hexadecimal digits of include/avhttp/detail/escape_string.hpp spell a byte.
use avhttp.Base.{ℕ, ◌/◌, ◌%◌, ◌<◌, some, ◌≡◌, arith}
use avhttp.Escape.{hex_char, hex_value, hex_pair}

hex_value-hex_char : (d : ℕ) → d < 16 → hex_value (hex_char d) ≡ some d
unfolding hex_value hex_char
hex_value-hex_char d h = ground arith

pub hex_pair-hex_char :
    (c : ℕ) → c < 256 → hex_pair (hex_char (c / 16)) (hex_char (c % 16)) ≡ some c
unfolding hex_pair
hex_pair-hex_char c h =
    rw (hex_value-hex_char (c / 16) (omega arith), hex_value-hex_char (c % 16) (omega arith))
      (ground arith)
