-- ===== src/Url/Parts.antt =====
-- The parts of a URL in include/avhttp/url.hpp: each step of `from_string` takes what `to_string`
-- writes for it, and leaves the rest.
use avhttp.Base.{
  ℕ, Bool, true, false, not, some, [], ◌∷◌, ◌++◌, append_assoc, append-nil, ◌≡◌, refl, sym, ap, inl,
  inr, ◌⊎◌, arith, ◌==◌, Bytes, codes, text_eq, All, Bool-cases,
}
use avhttp.Escape.{is_digit}
use avhttp.Url.{
  one_of, span, at_char, take_user_info, take_ipv6, take_host, all_digits, take_port, take_path,
  take_query, take_fragment, is_empty, when,
}

-- No character of the text is in `set`.
abbrev pub Lacks : Bytes → Bytes → Type 0
Lacks set s = All (λ c. one_of set c ≡ false) s

-- `strcspn` is 0 here.
abbrev pub Stops : Bytes → Bytes → Type 0
Stops set s = span set s ≡ ([], s)

pub span-append : (set s r : Bytes) → Lacks set s → Stops set r → span set (s ++ r) ≡ (s, r)
unfolding span
span-append set [] r h e = e
span-append set (c ∷ s) r (p, h) e = rw (span-append set s r h e, p)

cons_span :
    (set : Bytes) (c : ℕ) (s p r : Bytes)
    → one_of set c ≡ false
    → span set s ≡ (p, r)
    → span set (c ∷ s) ≡ (c ∷ p, r)
unfolding span
cons_span set c s p r h e = rw (e, h)

pub stop : (set : Bytes) (c : ℕ) (s : Bytes) → one_of set c ≡ true → Stops set (c ∷ s)
unfolding span
stop set c s h = rw h

abbrev pub user_info_text : Bytes → Bytes
user_info_text u = when (not (is_empty u)) (u ++ codes "@")

abbrev pub host_text : Bool → Bytes → Bytes
host_text v6 h = when v6 (codes "[") ++ (h ++ when v6 (codes "]"))

abbrev pub port_text : Bytes → Bytes
port_text p = when (not (is_empty p)) (codes ":" ++ p)

abbrev pub query_text : Bytes → Bytes
query_text q = when (not (is_empty q)) (codes "?" ++ q)

abbrev pub fragment_text : Bytes → Bytes
fragment_text f = when (not (is_empty f)) (codes "#" ++ f)

pub take_fragment-text : (f : Bytes) → take_fragment (fragment_text f) ≡ f
unfolding take_fragment
take_fragment-text [] = refl
take_fragment-text (c ∷ f) = refl

fragment-Stops : (f : Bytes) → Stops (codes "#") (fragment_text f)
unfolding span one_of
fragment-Stops [] = refl
fragment-Stops (c ∷ f) = refl

pub take_query-text :
    (q f : Bytes)
    → Lacks (codes "#") q
    → take_query (query_text q ++ fragment_text f) ≡ (q, fragment_text f)
unfolding take_query
take_query-text [] [] h = refl
take_query-text [] (c ∷ f) h = refl
take_query-text (c ∷ q) f h = span-append (codes "#") (c ∷ q) _ h (fragment-Stops f)

query-Stops : (q f : Bytes) → Stops (codes "?#") (query_text q ++ fragment_text f)
unfolding span one_of
query-Stops [] [] = refl
query-Stops [] (c ∷ f) = refl
query-Stops (c ∷ q) f = refl

pub take_path-text :
    (p q f : Bytes)
    → Lacks (codes "?#") (b'/' ∷ p)
    → take_path (b'/' ∷ (p ++ (query_text q ++ fragment_text f)))
      ≡ (b'/' ∷ p, query_text q ++ fragment_text f)
unfolding take_path
take_path-text p q f h = span-append (codes "?#") (b'/' ∷ p) _ h (query-Stops q f)

-- A port that can be written.
abbrev pub IsDigits : Bytes → Type 0
IsDigits p = All (λ c. is_digit c ≡ true) p

digit_char :
    (c : ℕ)
    → is_digit c ≡ true
    → (one_of (codes "@/?#") c ≡ false) × (one_of (codes "/?#") c ≡ false)
unfolding is_digit one_of
digit_char c h = (ground arith, ground arith)

digit-Lacks : (p : Bytes) → IsDigits p → Lacks (codes "@/?#") p × Lacks (codes "/?#") p
digit-Lacks [] h = (tt, tt)
digit-Lacks (c ∷ p) (d, h) =
    (((digit_char c d).0, (digit-Lacks p h).0), ((digit_char c d).1, (digit-Lacks p h).1))

pub all_digits-IsDigits : (p : Bytes) → IsDigits p → all_digits p ≡ true
unfolding all_digits
all_digits-IsDigits [] h = refl
all_digits-IsDigits (c ∷ p) (d, h) = rw d (all_digits-IsDigits p h)

pub take_port-text :
    (p t : Bytes) → IsDigits p → take_port (port_text p ++ (b'/' ∷ t)) ≡ some (p, b'/' ∷ t)
unfolding take_port text_eq one_of
take_port-text [] t h = refl
take_port-text (c ∷ p) t h = rw (
  span-append (codes "/?#") (c ∷ p) (b'/' ∷ t) ((digit-Lacks (c ∷ p) h).1) (stop _ _ _ refl),
  all_digits-IsDigits (c ∷ p) h,
)

port-Stops : (p t : Bytes) → Stops (codes ":/?#") (port_text p ++ (b'/' ∷ t))
unfolding span one_of
port-Stops [] t = refl
port-Stops (c ∷ p) t = refl

-- A host that can be written: a name, or an address that stands in brackets.
abbrev pub IsHost : Bool → Bytes → Type 0
IsHost true h = Lacks (codes "]") h
IsHost false h = Lacks (codes "@:[/?#") h

fewer : (c : ℕ) → one_of (codes "@:[/?#") c ≡ false → one_of (codes ":/?#") c ≡ false
unfolding one_of
fewer c h = ground arith

Lacks-fewer : (h : Bytes) → Lacks (codes "@:[/?#") h → Lacks (codes ":/?#") h
Lacks-fewer [] l = tt
Lacks-fewer (c ∷ h) (p, l) = (fewer c p, Lacks-fewer h l)

not_bracket : (c : ℕ) → one_of (codes "@:[/?#") c ≡ false → (c == b'[') ≡ false
unfolding one_of
not_bracket c h = ground arith

at_bracket :
    (h p t : Bytes)
    → Lacks (codes "@:[/?#") h
    → at_char b'[' (h ++ (port_text p ++ (b'/' ∷ t))) ≡ false
at_bracket [] [] t l = refl
at_bracket [] (c ∷ p) t l = refl
at_bracket (c ∷ h) p t (q, l) = not_bracket c q

pub take_host-text :
    (v6 : Bool) (h p t : Bytes)
    → IsHost v6 h
    → take_host (host_text v6 h ++ (port_text p ++ (b'/' ∷ t)))
      ≡ some (record { name = h; ipv6 = v6; behind = port_text p ++ (b'/' ∷ t) })
unfolding take_host take_ipv6 text_eq one_of
take_host-text false h p t l =
    rw append-nil
      (rw (at_bracket h p t l, span-append (codes ":/?#") h _ (Lacks-fewer h l) (port-Stops p t)))
take_host-text true h p t l = rw append_assoc (
    rw (span-append (codes "]") h (b']' ∷ (port_text p ++ (b'/' ∷ t))) l (stop _ _ _ refl))
      (rw (port-Stops p t)))

-- A user info that can be written: it may have colons.
abbrev pub IsUserInfo : Bytes → Type 0
IsUserInfo u = Lacks (codes "@[/?#") u

-- The first colon of the user info `u` with the password `w`.
record UserAndPassword (u t : Bytes) : Type 0 where
  v : Bytes
  w : Bytes
  cut : span (codes "@:[/?#") (u ++ (b'@' ∷ t)) ≡ (v, b':' ∷ (w ++ (b'@' ∷ t)))
  joined : v ++ (b':' ∷ w) ≡ u
  rest : Lacks (codes "@/?#") (b':' ∷ w)

no_bracket : (c : ℕ) → one_of (codes "@[/?#") c ≡ false → one_of (codes "@/?#") c ≡ false
unfolding one_of
no_bracket c h = ground arith

Lacks-no_bracket : (u : Bytes) → IsUserInfo u → Lacks (codes "@/?#") u
Lacks-no_bracket [] l = tt
Lacks-no_bracket (c ∷ u) (p, l) = (no_bracket c p, Lacks-no_bracket u l)

no_colon :
    (c : ℕ)
    → one_of (codes "@[/?#") c ≡ false
    → (c == b':') ≡ false
    → one_of (codes "@:[/?#") c ≡ false
unfolding one_of
no_colon c h e = ground arith

is_colon : (c : ℕ) → (c == b':') ≡ true → c ≡ b':'
is_colon c e = ground arith

colon_cut :
    (c : ℕ) (u t : Bytes) → (c == b':') ≡ true → Lacks (codes "@/?#") u → UserAndPassword (c ∷ u) t
unfolding span one_of
colon_cut c u t e l = record {
  v = [];
  w = u;
  cut = ap (λ d. span (codes "@:[/?#") (d ∷ (u ++ (b'@' ∷ t)))) (is_colon c e);
  joined = ap (λ d. d ∷ u) (sym (is_colon c e));
  rest = (refl, l);
}

user_info_cut :
    (u t : Bytes)
    → IsUserInfo u
    → (span (codes "@:[/?#") (u ++ (b'@' ∷ t)) ≡ (u, b'@' ∷ t)) ⊎ UserAndPassword u t
unfolding one_of
user_info_cut [] t l = inl (stop (codes "@:[/?#") b'@' t refl)
user_info_cut (c ∷ u) t (p, l) = elim (Bool-cases (c == b':')) [
  | inl e ↦ inr (colon_cut c u t e (Lacks-no_bracket u l))
  | inr e ↦ elim (user_info_cut u t l) [
    | inl k ↦ inl (cons_span (codes "@:[/?#") c _ u _ (no_colon c p e) k)
    | inr k ↦ inr (record {
      v = c ∷ k.v;
      w = k.w;
      cut = cons_span (codes "@:[/?#") c _ k.v _ (no_colon c p e) k.cut;
      joined = ap (λ s. c ∷ s) k.joined;
      rest = k.rest;
    })
  ]
]

pub take_user_info-text :
    (c : ℕ) (u t : Bytes)
    → IsUserInfo (c ∷ u)
    → take_user_info (user_info_text (c ∷ u) ++ t) ≡ (c ∷ u, t)
unfolding take_user_info one_of
take_user_info-text c u t l = elim (user_info_cut (c ∷ u) t l) [
  | inl e ↦ rw append_assoc (rw e)
  | inr k ↦ rw append_assoc (
      rw (k.cut, span-append (codes "@/?#") (b':' ∷ k.w) (b'@' ∷ t) k.rest (stop _ _ _ refl))
        (ap (λ s. (s, t)) k.joined))
]

pub take_user_info-none :
    (v6 : Bool) (h p t : Bytes)
    → IsHost v6 h
    → IsDigits p
    → take_user_info (host_text v6 h ++ (port_text p ++ (b'/' ∷ t)))
      ≡ ([], host_text v6 h ++ (port_text p ++ (b'/' ∷ t)))
unfolding take_user_info one_of
take_user_info-none true h p t l d =
    rw (stop (codes "@:[/?#") b'[' (h ++ codes "]" ++ (port_text p ++ (b'/' ∷ t))) refl) refl
take_user_info-none false h [] t l d =
    rw append-nil (rw (span-append (codes "@:[/?#") h (b'/' ∷ t) l (stop _ _ _ refl)) refl)
take_user_info-none false h (c ∷ p) t l d = rw append-nil (
    rw (span-append (codes "@:[/?#") h (b':' ∷ ((c ∷ p) ++ (b'/' ∷ t))) l (stop _ _ _ refl)) (
      rw
        (cons_span (codes "@/?#") b':' ((c ∷ p) ++ (b'/' ∷ t)) (c ∷ p) (b'/' ∷ t) refl (
          span-append (codes "@/?#") (c ∷ p) (b'/' ∷ t) ((digit-Lacks (c ∷ p) d).0)
            (stop _ _ _ refl)))
        refl))
