-- ===== src/Escape/Safe.antt =====
-- Which characters `escape_string` and `escape_path` of include/avhttp/detail/escape_string.hpp
-- write.
use avhttp.Base.{
  ℕ, ◌/◌, ◌%◌, ◌<◌, Bool, true, false, not, ◌||◌, [], ◌∷◌, ◌≡◌, refl, ◌⊎◌, inl, inr, arith,
  Bool-cases, Bytes, All, All-append,
}
use avhttp.Escape.RoundTrip.{chunk, escape_loop-cons}
use avhttp.Escape.{
  is_char, is_unreserved_char, is_tspecial, hex_char, to_hex, escape_loop, escape_path,
  escape_string,
}

hex_char-unreserved : (d : ℕ) → d < 16 → is_unreserved_char (hex_char d) ≡ true
unfolding is_unreserved_char hex_char
hex_char-unreserved d h = ground arith

-- What the encoder may write: an unreserved character or `%`.
abbrev pub IsUnreserved : ℕ → Type 0
IsUnreserved c = (is_unreserved_char c ≡ true) ⊎ (c ≡ b'%')

module _ (encoded : ℕ → Bool) (P : ℕ → Type 0) where
  chunk-All :
      (c : ℕ)
      → c < 256
      → P b'%'
      → ((d : ℕ) → d < 16 → P (hex_char d))
      → (encoded c ≡ false → P c)
      → All P (chunk encoded c)
  unfolding to_hex
  chunk-All c b percent hex kept = elim (Bool-cases (encoded c)) [
    | inl e ↦ rw e (percent, (hex (c / 16) (omega arith), (hex (c % 16) (omega arith), tt)))
    | inr e ↦ rw e (kept e, tt)
  ]

  escape_loop-All :
      (s : Bytes)
      → All (λ c. c < 256) s
      → P b'%'
      → ((d : ℕ) → d < 16 → P (hex_char d))
      → ((c : ℕ) → encoded c ≡ false → P c)
      → All P (escape_loop encoded s [])
  escape_loop-All [] h percent hex kept = unfold escape_loop in tt
  escape_loop-All (c ∷ s) (b, h) percent hex kept = rw (escape_loop-cons encoded c s) (
      All-append P (chunk encoded c) (escape_loop encoded s []) (chunk-All c b percent hex (kept c))
        (escape_loop-All s h percent hex kept))

-- `escape_string` writes unreserved characters and percent signs only.
pub escape_string-IsUnreserved :
    (s : Bytes) → All (λ c. c < 256) s → All IsUnreserved (escape_string s)
unfolding escape_string
escape_string-IsUnreserved s h =
    escape_loop-All (λ c. not (is_unreserved_char c)) IsUnreserved s h (inr refl)
      (λ d b. inl (hex_char-unreserved d b)) (λ c e. inl (ground arith))

-- Inside ASCII, and none of the special characters.
abbrev pub IsPathChar : ℕ → Type 0
IsPathChar c = (is_char c ≡ true) × (is_tspecial c ≡ false)

hex_char-IsPathChar : (d : ℕ) → d < 16 → IsPathChar (hex_char d)
unfolding is_char is_tspecial hex_char
hex_char-IsPathChar d h = ground arith

-- `escape_path` writes ASCII characters only, and no special one.
pub escape_path-IsPathChar : (s : Bytes) → All (λ c. c < 256) s → All IsPathChar (escape_path s)
unfolding escape_path
escape_path-IsPathChar s h =
    escape_loop-All (λ c. not (is_char c) || is_tspecial c) IsPathChar s h
      (unfold is_char is_tspecial in (refl, refl)) hex_char-IsPathChar
      (λ c e. (ground arith, ground arith))
