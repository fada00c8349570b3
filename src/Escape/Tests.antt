-- ===== src/Escape/Tests.antt =====
-- Runs of include/avhttp/detail/escape_string.hpp, and each theorem at an input.
use avhttp.Base.{
  ℕ, zero, suc, ◌+◌, ◌*◌, ◌/◌, true, false, not, ◌||◌, [], ◌∷◌, ◌≡◌, refl, inl, inr, arith, Bytes,
  All, codes, length,
}
use avhttp.Escape.Base64.{SixBits}
use avhttp.Escape.RoundTrip
use avhttp.Escape.{
  is_char, is_tspecial, escape_path, escape_string, unescape_path, encode_base64, is_plain,
}

escape_runs :
    (escape_string (codes "a b%/") ≡ codes "a%20b%25%2f")
    × (escape_path (codes "/a b/c|d") ≡ codes "/a%20b/c%7cd")
    × (unescape_path (codes "a%2Fb%2f") ≡ (true, codes "a/b/"))
    × (unescape_path (codes "ab%2") ≡ (false, codes "ab"))
    × (unescape_path (codes "ab%2g") ≡ (false, codes "ab"))
    × (unescape_path (codes "a b") ≡ (false, codes "a"))
unfolding escape_string escape_path unescape_path
escape_runs = (refl, refl, refl, refl, refl, refl)

unescape_path-escape_string_example :
    unescape_path (escape_string (codes "50% of a/b")) ≡ (true, codes "50% of a/b")
unescape_path-escape_string_example =
    RoundTrip.unescape_path-escape_string (codes "50% of a/b") (omega arith)

readable : All (RoundTrip.IsReadable (λ c. not (is_char c) || is_tspecial c)) (codes "/a b|c")
unfolding is_char is_tspecial is_plain
readable = (
  (omega arith, inr refl),
  (
    (omega arith, inr refl),
    (
      (omega arith, inl refl),
      ((omega arith, inr refl), ((omega arith, inl refl), ((omega arith, inr refl), tt))),
    ),
  ),
)

unescape_path-escape_path_example :
    unescape_path (escape_path (codes "/a b|c")) ≡ (true, codes "/a b|c")
unescape_path-escape_path_example = RoundTrip.unescape_path-escape_path (codes "/a b|c") readable

-- A text of the right length.
abbrev repeat : ℕ → Bytes
repeat zero = []
repeat (suc n) = b'A' ∷ repeat n

length-repeat : (n : ℕ) → length (repeat n) ≡ n
length-repeat zero = refl
length-repeat (suc n) = omega (arith, length-repeat n)

abbrev sample_text : Bytes → Bytes
sample_text s = repeat ((4 * length s + 2) / 3)

sample_text-SixBits : SixBits sample_text
sample_text-SixBits s = length-repeat _

too_many : encode_base64 (λ s. codes "YWJj") (codes "abc") ≡ codes "YWJj===="
unfolding encode_base64
too_many = refl
