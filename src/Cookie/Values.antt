-- ===== src/Cookie/Values.antt =====
-- The values that `operator[]` of include/avhttp/cookie.hpp gives for the cookies of a parsed text.
use avhttp.Base.{
  Bool, true, false, Option, none, some, List, [], ◌∷◌, if◌then◌else◌, text_eq, text_eq_refl,
  text_eq→eq, All, ◌≡◌, ◌≢◌, refl, sym, ap, ◌∙◌, arith, Bytes, inl, inr, Bool-cases,
}
use avhttp.Bencode.{key_lt}
use avhttp.Cookie.{
  HttpCookie, new_cookie, StringMap, put, start, run, is_empty, attribute, take_attributes,
  cookies_of, finished, parse_cookie_string, value_of,
}
use avhttp.Cookie.Pairs.{IsPair, pairs_text, last_value, puts, Parsed, run-pairs_text}

key_lt_irrefl : (s : Bytes) → key_lt s s ≡ false
unfolding key_lt
key_lt_irrefl [] = refl
key_lt_irrefl (c ∷ s) = ground (arith, key_lt_irrefl s)

key_lt_total : (s t : Bytes) → key_lt s t ≡ false → key_lt t s ≡ false → text_eq s t ≡ true
unfolding key_lt text_eq
key_lt_total [] [] h k = refl
key_lt_total [] (d ∷ t) h k = cc
key_lt_total (c ∷ s) [] h k = cc
key_lt_total (c ∷ s) (d ∷ t) h k = ground (arith, key_lt_total s t)

-- The value of a key, the empty string where there is none.
abbrev get : Bytes → StringMap → Bytes
get key [] = []
get key ((k, v) ∷ m) = if text_eq k key then v else get key m

text_eq_of : (s t : Bytes) → s ≡ t → text_eq s t ≡ true
text_eq_of s t e = ap (λ u. text_eq s u) (sym e) ∙ text_eq_refl s

text_eq_sym : (s t : Bytes) → text_eq s t ≡ text_eq t s
text_eq_sym s t = elim (Bool-cases (text_eq s t)) [
  | inl e ↦ e ∙ sym (text_eq_of t s (sym (text_eq→eq s t e)))
  | inr e ↦ elim (Bool-cases (text_eq t s)) [
    | inl q ↦ absurd (both (text_eq_of s t (sym (text_eq→eq t s q))) e)
    | inr q ↦ e ∙ sym q
  ]
]
  where
    both : {b : Bool} → b ≡ true → b ≡ false → ⊥
    both p q = cc

less_apart : (s t : Bytes) → key_lt s t ≡ true → text_eq t s ≡ false
less_apart s t h = elim (Bool-cases (text_eq t s)) [
  | inr e ↦ e
  | inl e ↦
      let same = text_eq→eq t s e in
      let z : key_lt s t ≡ false = ap (key_lt s) same ∙ key_lt_irrefl s in absurd (both h z)
]
  where
    both : {b : Bool} → b ≡ true → b ≡ false → ⊥
    both p q = cc

get-put :
    (key k v : Bytes) (m : StringMap)
    → get key (put k v m) ≡ (if text_eq k key then v else get key m)
unfolding put
get-put key k v [] = refl
get-put key k v ((j, w) ∷ m) = elim (Bool-cases (key_lt k j)) [
  | inl e ↦ rw e refl
  | inr e ↦ elim (Bool-cases (key_lt j k)) [
    | inl q ↦
        rw (e, q)
          (elim (Bool-cases (text_eq k key)) [
            | inl p ↦
                let apart : text_eq j key ≡ false =
                  ap (text_eq j) (sym (text_eq→eq k key p)) ∙ text_eq_sym j k ∙ less_apart j k q in
                rw (p, apart) (get-put key k v m ∙ rw p refl)
            | inr p ↦
                rw p (ap (λ t. if text_eq j key then w else t) (get-put key k v m ∙ rw p refl))
          ])
    | inr q ↦
        let same = text_eq→eq k j (key_lt_total k j e q) in
        rw (e, q)
          (elim (Bool-cases (text_eq k key)) [
            | inl p ↦ rw p refl
            | inr p ↦
                let other : text_eq j key ≡ false = ap (λ t. text_eq t key) (sym same) ∙ p in
                rw (p, other) refl
          ])
  ]
]

get-puts :
    (key : Bytes) (ps : List (Bytes × Bytes)) (m : StringMap)
    → get key (puts ps m) ≡ last_value key (get key m) ps
get-puts key [] m = refl
get-puts key ((k, v) ∷ ps) m =
    get-puts key ps (put k v m) ∙ ap (λ t. last_value key t ps) (get-put key k v m)

All-put : (p : Bytes × Bytes) (m : StringMap) → IsPair p → All IsPair m → All IsPair (put p.0 p.1 m)
unfolding put
All-put p [] h hs = (h, tt)
All-put p ((j, w) ∷ m) h (g, gs) = elim (Bool-cases (key_lt p.0 j)) [
  | inl e ↦ rw e (h, (g, gs))
  | inr e ↦ elim (Bool-cases (key_lt j p.0)) [
    | inl q ↦ rw (e, q) (g, All-put p m h gs)
    | inr q ↦ rw (e, q) (h, gs)
  ]
]

All-puts :
    (ps : List (Bytes × Bytes)) (m : StringMap)
    → All IsPair ps
    → All IsPair m
    → All IsPair (puts ps m)
All-puts [] m h hs = hs
All-puts (p ∷ ps) m (g, gs) hs = All-puts ps (put p.0 p.1 m) gs (All-put p m g hs)

is_empty-false : (s : Bytes) → s ≢ [] → is_empty s ≡ false
is_empty-false [] h = absurd (h refl)
is_empty-false (c ∷ s) h = refl

module _ {Time : Type 0} (expires_of : Bytes → Option Time) (default_domain : Bytes) where
  attribute-none :
      (p : Bytes × Bytes) (c : HttpCookie Time)
      → IsPair p
      → attribute expires_of default_domain p.0 p.1 c ≡ none
  unfolding attribute
  attribute-none p c h = rw (h.no_expires, h.no_domain, h.no_path) refl

  take_attributes-plain :
      (m : StringMap) (c : HttpCookie Time)
      → All IsPair m
      → take_attributes expires_of default_domain m c ≡ (c, m)
  unfolding take_attributes
  take_attributes-plain [] c h = refl
  take_attributes-plain (p ∷ m) c (g, gs) =
      rw (take_attributes, attribute-none p c g)
        (ap (λ (r : HttpCookie Time × StringMap). (r.0, p ∷ r.1)) (take_attributes-plain m c gs))

  value_of-cookies_of :
      (key : Bytes) (m : StringMap) (c : HttpCookie Time)
      → All IsPair m
      → value_of key (cookies_of expires_of c m) ≡ get key m
  unfolding value_of cookies_of
  value_of-cookies_of key [] c h = refl
  value_of-cookies_of key ((k, v) ∷ m) c (g, gs) = elim (Bool-cases (text_eq k key)) [
    | inl e ↦ rw (e, is_empty-false v g.some_value) refl
    | inr e ↦ rw e (value_of-cookies_of key m c gs)
  ]

  read_cookies :
      (s : Bytes) (m : StringMap)
      → Parsed (run s start) m
      → All IsPair m
      → parse_cookie_string expires_of default_domain s ≡ some (cookies_of expires_of new_cookie m)
  unfolding parse_cookie_string finished
  read_cookies s m p h =
      rw (parse_cookie_string, p.ends)
        (rw (p.filled, p.plain.0, p.plain.1)
          (ap (λ (r : HttpCookie Time × StringMap). some (cookies_of expires_of r.0 r.1))
            (take_attributes-plain m new_cookie h)))

  -- A text of names and values is accepted, and the cookies that it gives have, under each name, the
  -- last value that the text has for it.
  pub parse_cookie_string-pairs_text :
      (p : Bytes × Bytes) (ps : List (Bytes × Bytes))
      → IsPair p
      → All IsPair ps
      → (cookies : List (HttpCookie Time)) × (parse_cookie_string expires_of default_domain
            (pairs_text (p ∷ ps))
          ≡ some cookies)
        × ((key : Bytes) → value_of key cookies ≡ last_value key [] (p ∷ ps))
  parse_cookie_string-pairs_text p ps h hs =
      let m = puts (p ∷ ps) [] in
      let all = All-puts (p ∷ ps) [] (h, hs) tt in
      (
        cookies_of expires_of new_cookie m,
        read_cookies (pairs_text (p ∷ ps)) m (run-pairs_text p ps [] [] h hs) all,
        λ key. value_of-cookies_of key m new_cookie all ∙ get-puts key (p ∷ ps) [],
      )
