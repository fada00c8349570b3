-- ===== src/Escape/Base64.antt =====
-- The padding of `encode_base64` of include/avhttp/detail/escape_string.hpp. The Boost iterators
-- that map six bits of the input to a character are a parameter.
use avhttp.Base.{
  ℕ, zero, suc, ◌+◌, ◌-◌, ◌*◌, ◌/◌, ◌%◌, [], ◌∷◌, ◌++◌, ◌≡◌, ◌≢◌, arith, Bytes, length,
  length-append,
}
use avhttp.Escape.{pad, encode_base64}

length-pad : (n : ℕ) (result : Bytes) → length (pad n result) ≡ length result + n
unfolding pad
length-pad zero result = omega arith
length-pad (suc n) result =
    omega (arith, length-pad n (result ++ b'=' ∷ []), length-append result (b'=' ∷ []))

-- One character for each six bits that begin: the length of the text that the iterators give.
abbrev pub SixBits : (Bytes → Bytes) → Type 0
SixBits base64_text = (s : Bytes) → length (base64_text s) ≡ (4 * length s + 2) / 3

module _ (base64_text : Bytes → Bytes) (six_bits : SixBits base64_text) where
  -- The result fills whole groups of four characters, as many as the input has groups of three
  -- bytes that begin, if the last of these is not full; if it is, a group `====` is too many.
  pub length-encode_base64 :
      (s : Bytes)
      → (length s % 3 ≢ 0 → length (encode_base64 base64_text s) ≡ 4 * ((length s + 2) / 3))
        × (length s % 3 ≡ 0 → length (encode_base64 base64_text s) ≡ 4 * ((length s + 2) / 3) + 4)
  unfolding encode_base64
  length-encode_base64 s =
      let padded = length-pad (4 - length (base64_text s) % 4) (base64_text s) in
      ((λ h. omega (arith, padded, six_bits s)), λ h. omega (arith, padded, six_bits s))
