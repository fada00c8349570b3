-- ===== src/Url/Port.antt =====
-- `url::port` of include/avhttp/url.hpp returns an `unsigned short` that `atoi` has read.
use avhttp.Base.{ℕ, ◌<◌, ◌%◌, ◌^◌, true, not, [], ◌∷◌, ◌≡◌, ◌≢◌, refl, sym, ap, ◌∙◌, arith, Bytes}
use mathlib.Core.Path.{subst}
use avhttp.Base.Int.{pos}
use avhttp.CStdlib.{atoi, digits_value}
use avhttp.Bencode.{integer_to_str}
use avhttp.Bencode.Decode.Number.{decimal-Spells}
use avhttp.Url.{Url, is_empty, port}

not_empty : (s : Bytes) → s ≢ [] → not (is_empty s) ≡ true
not_empty [] h = absurd (h refl)
not_empty (c ∷ s) h = refl

-- A URL whose port is written as the decimal number `n`, below 2 ^ 31, has that number modulo 2 ^ 16
-- for its port.
pub port-integer_to_str :
    (u : Url) (n : ℕ) → n < 2 ^ 31 → u.port_ ≡ integer_to_str (pos n) → port u ≡ n % 2 ^ 16
unfolding port atoi
port-integer_to_str u n h e =
    let s = decimal-Spells n (omega arith) in
    let some = subst (λ p. p ≢ []) (sym e) s.ne_nil in
    rw (not_empty u.port_ some) (ap (λ k. k % 2 ^ 16) (ap (λ p. digits_value p 0) e ∙ s.value))
