-- ===== src/Escape/RoundTrip.antt =====
-- `unescape_path` of include/avhttp/detail/escape_string.hpp undoes `escape_string`, and undoes
-- `escape_path` where that writes nothing but what it reads.
use avhttp.Base.{
  ℕ, ◌/◌, ◌%◌, ◌<◌, Bool, true, false, not, ◌||◌, [], ◌∷◌, ◌++◌, append-nil, append_assoc, ◌≡◌, sym,
  ◌∙◌, ap, ◌⊎◌, inl, inr, arith, ◌==◌, if◌then◌else◌, Bool-cases, Bytes, All,
}
use avhttp.Escape.Hex.{hex_pair-hex_char}
use avhttp.Escape.{
  is_char, is_unreserved_char, is_tspecial, hex_char, to_hex, escape_loop, escape_path,
  escape_string, is_plain, unescape_loop, unescape_path,
}

is_plain-ne-percent : (c : ℕ) → is_plain c ≡ true → (c == b'%') ≡ false
unfolding is_plain
is_plain-ne-percent c h = ground arith

read_plain :
    (c : ℕ) (s out : Bytes)
    → is_plain c ≡ true
    → unescape_loop (c ∷ s) out ≡ unescape_loop s (out ++ c ∷ [])
unfolding unescape_loop
read_plain c [] out h = ground (arith, is_plain-ne-percent c h)
read_plain c (d ∷ []) out h = rw (is_plain-ne-percent c h, h)
read_plain c (d ∷ e ∷ s) out h = rw (is_plain-ne-percent c h, h)

read_hex :
    (c : ℕ) (s out : Bytes)
    → c < 256
    → unescape_loop (b'%' ∷ hex_char (c / 16) ∷ hex_char (c % 16) ∷ s) out
      ≡ unescape_loop s (out ++ c ∷ [])
unfolding unescape_loop
read_hex c s out h = rw (hex_pair-hex_char c h)

abbrev pub chunk : (ℕ → Bool) → ℕ → Bytes
chunk encoded c = if encoded c then b'%' ∷ to_hex (c ∷ []) else c ∷ []

pub escape_loop-append :
    (encoded : ℕ → Bool) (s ret : Bytes)
    → escape_loop encoded s ret ≡ ret ++ escape_loop encoded s []
unfolding escape_loop
escape_loop-append encoded [] ret = sym (append-nil ret)
escape_loop-append encoded (c ∷ s) ret =
    escape_loop-append encoded s (ret ++ chunk_of)
    ∙ append_assoc ret chunk_of _
    ∙ ap (λ t. ret ++ t) (sym (escape_loop-append encoded s chunk_of))
  where
    chunk_of : Bytes
    chunk_of = if encoded c then b'%' ∷ to_hex (c ∷ []) else c ∷ []

pub escape_loop-cons :
    (encoded : ℕ → Bool) (c : ℕ) (s : Bytes)
    → escape_loop encoded (c ∷ s) [] ≡ chunk encoded c ++ escape_loop encoded s []
unfolding escape_loop
escape_loop-cons encoded c s = escape_loop-append encoded s (chunk encoded c)

-- A byte that is encoded, or that the decoder takes over.
abbrev pub IsReadable : (ℕ → Bool) → ℕ → Type 0
IsReadable encoded c = (c < 256) × ((encoded c ≡ true) ⊎ (is_plain c ≡ true))

read_chunk :
    (encoded : ℕ → Bool) (c : ℕ) (s out : Bytes)
    → IsReadable encoded c
    → unescape_loop (chunk encoded c ++ s) out ≡ unescape_loop s (out ++ c ∷ [])
unfolding to_hex
read_chunk encoded c s out (b, r) = elim (Bool-cases (encoded c)) [
  | inl e ↦ rw e (read_hex c s out b)
  | inr e ↦ rw e (read_plain c s out (ground arith))
]

unescape_loop-escape_loop :
    (encoded : ℕ → Bool) (s out : Bytes)
    → All (IsReadable encoded) s
    → unescape_loop (escape_loop encoded s []) out ≡ (true, out ++ s)
unescape_loop-escape_loop encoded [] out h = unfold escape_loop unescape_loop in rw append-nil
unescape_loop-escape_loop encoded (c ∷ s) out (r, h) = rw (escape_loop-cons encoded c s) (
    read_chunk encoded c _ out r
    ∙ unescape_loop-escape_loop encoded s (out ++ c ∷ []) h
    ∙ rw append_assoc)

unreserved-is_plain : (c : ℕ) → c < 256 → IsReadable (λ c. not (is_unreserved_char c)) c
unfolding is_unreserved_char is_plain
unreserved-is_plain c h = (h, ground arith)

All-map {ℓ κ} :
    {P : ℕ → Type ℓ} {Q : ℕ → Type κ} (s : Bytes) → ((c : ℕ) → P c → Q c) → All P s → All Q s
All-map [] f h = tt
All-map (c ∷ s) f (h, hs) = (f c h, All-map s f hs)

-- `unescape_path` reads every string of bytes back from `escape_string`.
pub unescape_path-escape_string :
    (s : Bytes) → All (λ c. c < 256) s → unescape_path (escape_string s) ≡ (true, s)
unfolding unescape_path escape_string
unescape_path-escape_string s h =
    unescape_loop-escape_loop _ s [] (All-map {P = λ c. c < 256} s unreserved-is_plain h)

-- `unescape_path` reads a string back from `escape_path`, if each of its characters is plain or
-- one of those that `escape_path` encodes.
pub unescape_path-escape_path :
    (s : Bytes)
    → All (IsReadable (λ c. not (is_char c) || is_tspecial c)) s
    → unescape_path (escape_path s) ≡ (true, s)
unfolding unescape_path escape_path
unescape_path-escape_path s h = unescape_loop-escape_loop _ s [] h
