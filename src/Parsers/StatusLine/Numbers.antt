-- ===== src/Parsers/StatusLine/Numbers.antt =====
-- The numbers in a text for `parse_http_status_line` of include/avhttp/detail/parsers.hpp: a machine
-- that reads digits up to a separator.
use avhttp.Base.{
  ℕ, ◌+◌, ◌-◌, ◌*◌, ◌^◌, ◌≤◌, ◌<◌, Bool, true, false, [], ◌∷◌, ◌++◌, ◌≡◌, ◌≢◌, refl, ◌∙◌, ap, inl,
  inr, arith, ◌==◌, Bool-cases, Bytes, All,
}
use avhttp.Escape.{is_digit, is_ctl}
use avhttp.Parsers.StatusLine.{StatusLine, shift_in}

abbrev pub IsDigit : ℕ → Type 0
IsDigit c = is_digit c ≡ true

abbrev pub NotCtl : ℕ → Type 0
NotCtl c = is_ctl c ≡ false

-- What the machine has for digits behind `n`, in 32 bits.
abbrev pub value : ℕ → Bytes → ℕ
value n [] = n
value n (c ∷ s) = value (shift_in n c) s

-- The number that digits spell behind `n`.
abbrev pub decimal : ℕ → Bytes → ℕ
decimal n [] = n
decimal n (c ∷ s) = decimal (n * 10 + c - b'0') s

decimal_grows : (d : Bytes) (n : ℕ) → All IsDigit d → n ≤ decimal n d
decimal_grows [] n h = omega arith
decimal_grows (c ∷ d) n (p, h) =
    let at_least : b'0' ≤ c = unfold is_digit in ground arith in
    omega (arith, decimal_grows d (n * 10 + c - b'0') h)

-- With the code of `0` on top it fits an `int`, so that no sum on the way is too large.
abbrev pub FitsInt : ℕ → Bytes → Type 0
FitsInt n d = decimal n d + b'0' < 2 ^ 31

pub value_exact : (d : Bytes) (n : ℕ) → All IsDigit d → FitsInt n d → value n d ≡ decimal n d
value_exact [] n h f = refl
value_exact (c ∷ d) n (p, h) f =
    let fits : n * 10 + c - b'0' < 2 ^ 32 = omega (arith, decimal_grows d (n * 10 + c - b'0') h) in
    let whole : shift_in n c ≡ n * 10 + c - b'0' = omega arith in
    rw whole (value_exact d (n * 10 + c - b'0') h f)

-- A machine that reads a number up to `sep` and goes on as `g`.
module _ (sep : ℕ) (f g : ℕ → Bytes → Bool × StatusLine) where
  pub record ReadsNumber : Type 0 where
    pub separator : (n : ℕ) (s : Bytes) → f n (sep ∷ s) ≡ g n s
    pub digit : (n c : ℕ) (s : Bytes) → IsDigit c → f n (c ∷ s) ≡ f (shift_in n c) s
    pub other :
        (n c : ℕ) (s : Bytes) → (c == sep) ≡ false → is_digit c ≡ false → (f n (c ∷ s)).0 ≡ false
    pub ends : (n : ℕ) → (f n []).0 ≡ false

  pub number_accepted :
      (d s : Bytes) (n : ℕ) → ReadsNumber → All IsDigit d → f n (d ++ (sep ∷ s)) ≡ g (value n d) s
  number_accepted [] s n m h = m.separator n s
  number_accepted (c ∷ d) s n m (p, h) =
      m.digit n c (d ++ (sep ∷ s)) p ∙ number_accepted d s (shift_in n c) m h

  pub number_found :
      (s : Bytes) (n : ℕ)
      → ReadsNumber
      → (f n s).0 ≡ true
      → (d t : Bytes) × (s ≡ d ++ (sep ∷ t)) × All IsDigit d × ((g (value n d) t).0 ≡ true)
  number_found [] n m h = cc (m.ends n)
  number_found (c ∷ s) n m h = elim (Bool-cases (c == sep)) [
    | inl at_sep ↦
        let e : c ≡ sep = ground arith in
        ([], s, ap (λ x. x ∷ s) e, tt, rw (← m.separator n s, ← e) h)
    | inr more ↦ elim (Bool-cases (is_digit c)) [
      | inl p ↦
          let (d, t, e, ds, k) = number_found s (shift_in n c) m (rw (← m.digit n c s p) h) in
          (c ∷ d, t, ap (◌∷◌ c) e, (p, ds), k)
      | inr q ↦ cc (m.other n c s more q)
    ]
  ]

-- The same behind a state that wants at least one digit.
module _ (sep : ℕ) (f0 f g : ℕ → Bytes → Bool × StatusLine) where
  pub record StartsNumber : Type 0 where
    pub first : (n c : ℕ) (s : Bytes) → IsDigit c → f0 n (c ∷ s) ≡ f (shift_in n c) s
    pub refuses : (n c : ℕ) (s : Bytes) → is_digit c ≡ false → (f0 n (c ∷ s)).0 ≡ false
    pub wants : (n : ℕ) → (f0 n []).0 ≡ false

  pub some_digits_accepted :
      (d s : Bytes) (n : ℕ)
      → StartsNumber
      → ReadsNumber sep f g
      → d ≢ []
      → All IsDigit d
      → f0 n (d ++ (sep ∷ s)) ≡ g (value n d) s
  some_digits_accepted [] s n b m ne h = absurd (ne refl)
  some_digits_accepted (c ∷ d) s n b m ne (p, h) =
      b.first n c (d ++ (sep ∷ s)) p ∙ number_accepted sep f g d s (shift_in n c) m h

  pub some_digits_found :
      (s : Bytes) (n : ℕ)
      → StartsNumber
      → ReadsNumber sep f g
      → (f0 n s).0 ≡ true
      → (d t : Bytes) × (s ≡ d ++ (sep ∷ t))
        × (d ≢ [])
        × All IsDigit d
        × ((g (value n d) t).0 ≡ true)
  some_digits_found [] n b m h = cc (b.wants n)
  some_digits_found (c ∷ s) n b m h = elim (Bool-cases (is_digit c)) [
    | inl p ↦
        let (d, t, e, ds, k) = number_found sep f g s (shift_in n c) m (rw (← b.first n c s p) h) in
        (c ∷ d, t, ap (◌∷◌ c) e, (λ q. cc), (p, ds), k)
    | inr q ↦ cc (b.refuses n c s q)
  ]
