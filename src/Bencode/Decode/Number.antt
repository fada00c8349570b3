-- ===== src/Bencode/Decode/Number.antt =====
-- The numbers of include/avhttp/bencode.hpp: `strtoll` and `atoi` read back what `integer_to_str`
-- writes, which is digits behind an optional sign.
use native.Mathlib.Nat.{pow-suc}
use avhttp.Base.{
  ℕ, zero, suc, ◌+◌, ◌/◌, ◌%◌, ◌^◌, ◌≤◌, ◌<◌, min, true, some, [], ◌∷◌, ◌≡◌, ◌≢◌, refl, ◌∙◌, ap,
  inl, inr, arith, ◌==◌, Bool-cases, Bytes, All,
}
use avhttp.Base.Int.{ℤ, pos, negsuc}
use avhttp.CStdlib.{digits_value, leading, max_i64, strtoll, negate, negative, positive}
use avhttp.Bencode.{digits_loop, integer_to_str}
use avhttp.Escape.{is_digit}

abbrev pub IsDigit : ℕ → Type 0
IsDigit c = is_digit c ≡ true

last_digit :
    (n : ℕ) (buf : Bytes) → digits_value ((b'0' + n % 10) ∷ buf) (n / 10) ≡ digits_value buf n
unfolding digits_value is_digit
last_digit n buf = ground arith

digits_value-digits_loop :
    (room n : ℕ) (buf : Bytes)
    → n < 10 ^ room
    → digits_value (digits_loop room n buf) 0 ≡ digits_value buf n
unfolding digits_loop
digits_value-digits_loop zero n buf h = ap (digits_value buf) (omega arith)
digits_value-digits_loop (suc room) n buf h = elim (Bool-cases (n == 0)) [
  | inl z ↦ rw z (ap (digits_value buf) (ground arith))
  | inr p ↦
      rw p (
        digits_value-digits_loop room (n / 10) _ (omega (arith, pow-suc 10 room))
        ∙ last_digit n buf)
]

digits_loop-IsDigit :
    (room n : ℕ) (buf : Bytes) → All IsDigit buf → All IsDigit (digits_loop room n buf)
unfolding digits_loop is_digit
digits_loop-IsDigit zero n buf h = h
digits_loop-IsDigit (suc room) n buf h = elim (Bool-cases (n == 0)) [
  | inl z ↦ rw z h
  | inr p ↦ rw p (digits_loop-IsDigit room (n / 10) _ (ground arith, h))
]

digits_loop-keeps_cons : (room n : ℕ) (buf : Bytes) → buf ≢ [] → digits_loop room n buf ≢ []
unfolding digits_loop
digits_loop-keeps_cons zero n buf h = h
digits_loop-keeps_cons (suc room) n buf h = elim (Bool-cases (n == 0)) [
  | inl z ↦ rw z h
  | inr p ↦ rw p (digits_loop-keeps_cons room (n / 10) _ (λ e. cc))
]

-- Digits that spell `n`.
pub record Spells (n : ℕ) (s : Bytes) : Type 0 where
  pub digits : All IsDigit s
  pub ne_nil : s ≢ []
  pub value : digits_value s 0 ≡ n

digits_loop-Spells :
    (room n : ℕ) → 0 < n → n < 10 ^ suc room → Spells n (digits_loop (suc room) n [])
unfolding digits_loop
digits_loop-Spells room n p h = record {
  digits = digits_loop-IsDigit (suc room) n [] tt;
  ne_nil = elim (Bool-cases (n == 0)) [
    | inl z ↦ absurd (ground arith)
    | inr q ↦ rw q (digits_loop-keeps_cons room (n / 10) _ (λ e. cc))
  ];
  value = unfold digits_value in digits_value-digits_loop (suc room) n [] h;
}

-- The text of a number that is not negative.
pub decimal-Spells : (n : ℕ) → n ≤ max_i64 → Spells n (integer_to_str (pos n))
unfolding integer_to_str
decimal-Spells n h = elim (Bool-cases (n == 0)) [
  | inl z ↦ rw z (
      unfold digits_value is_digit in
      record { digits = (refl, tt); ne_nil = λ e. cc; value = ground arith })
  | inr p ↦ rw p (digits_loop-Spells 19 n (ground arith) (omega arith))
]

leading-Spells : {n : ℕ} (s : Bytes) → Spells n s → leading s ≡ some n
unfolding leading
leading-Spells [] h = absurd (h.ne_nil refl)
leading-Spells (c ∷ s) h = rw h.digits.0 (ap some h.value)

-- A digit is no space and no sign.
digit_first : (c : ℕ) (s : Bytes) → IsDigit c → strtoll (c ∷ s) ≡ positive (leading (c ∷ s))
unfolding strtoll is_digit
digit_first c s h = ground arith

strtoll-Spells : {n : ℕ} (s : Bytes) → Spells n s → n ≤ max_i64 → strtoll s ≡ some (pos n)
strtoll-Spells [] h b = absurd (h.ne_nil refl)
strtoll-Spells {n} (c ∷ s) h b =
    digit_first c s h.digits.0
    ∙ ap positive (leading-Spells (c ∷ s) h)
    ∙ ap (λ m. some (pos m)) (omega arith)

-- Within 64 bits, and with a negation that stays there.
abbrev pub Fits64 : ℤ → Type 0
Fits64 (pos n) = n ≤ max_i64
Fits64 (negsuc n) = n < max_i64

pub strtoll-integer_to_str : (v : ℤ) → Fits64 v → strtoll (integer_to_str v) ≡ some v
strtoll-integer_to_str (pos n) h = strtoll-Spells (integer_to_str (pos n)) (decimal-Spells n h) h
strtoll-integer_to_str (negsuc n) h =
    let s = digits_loop-Spells 18 (suc n) (omega arith) (omega arith) in
    unfold integer_to_str in
    unfold strtoll in
    (ap negative (leading-Spells (digits_loop 19 (suc n) []) s)
      ∙ ap (λ m. some (negate m)) (let e : min (suc n) (max_i64 + 1) ≡ suc n = omega arith in e))

-- No character of the text ends it for `read_until`.
abbrev pub Lacks : ℕ → Bytes → Type 0
Lacks t = All (λ c. c ≢ t)

digits-Lacks : (t : ℕ) (s : Bytes) → 57 < t → All IsDigit s → Lacks t s
unfolding is_digit
digits-Lacks t [] p h = tt
digits-Lacks t (c ∷ s) p (d, h) = ((λ e. ground arith), digits-Lacks t s p h)

pub integer_to_str-Lacks : (t : ℕ) (v : ℤ) → 57 < t → Fits64 v → Lacks t (integer_to_str v)
integer_to_str-Lacks t (pos n) p h = digits-Lacks t _ p (decimal-Spells n h).digits
integer_to_str-Lacks t (negsuc n) p h =
    let s = digits_loop-Spells 18 (suc n) (omega arith) (omega arith) in
    unfold integer_to_str in ((λ e. omega arith), digits-Lacks t _ p s.digits)
