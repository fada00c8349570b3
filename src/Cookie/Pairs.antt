-- ===== src/Cookie/Pairs.antt =====
-- The parser of include/avhttp/cookie.hpp on a text of names and values.
use mathlib.Core.Path.{subst}
use avhttp.Base.{
  ℕ, Bool, true, false, not, ◌&&◌, ◌||◌, some, List, [], ◌∷◌, ◌++◌, append_assoc, append-nil, ◌==◌,
  if◌then◌else◌, text_eq, All, ◌≡◌, ◌≢◌, refl, sym, ap, ◌∙◌, arith, Bytes, codes,
}
use avhttp.Escape.{is_char, is_tspecial}
use avhttp.Cookie.{
  StringMap, put, CookieState, cookie_name_start, cookie_name, cookie_value_start, cookie_value,
  CookieParser, lower_copy, is_quote, step_in, run, finish_in,
}

-- A character of a name, and of a value, that does not end it.
abbrev pub name_char : ℕ → Bool
name_char c = is_char c && not (c == b';' || c == b'=' || is_tspecial c || c == b':')

abbrev pub value_char : ℕ → Bool
value_char c = is_char c && not (c == b';' || is_quote c)

-- A name and a value that the text can hold; the name is none of an attribute.
pub record IsPair (p : Bytes × Bytes) : Type 0 where
  pub some_name : p.0 ≢ []
  pub name_chars : All (λ c. name_char c ≡ true) p.0
  pub some_value : p.1 ≢ []
  pub value_chars : All (λ c. value_char c ≡ true) p.1
  pub no_expires : text_eq (lower_copy p.0) (codes "expires") ≡ false
  pub no_domain : text_eq (lower_copy p.0) (codes "domain") ≡ false
  pub no_path : text_eq (lower_copy p.0) (codes "path") ≡ false

-- The text `name=value; name=value`.
abbrev pub pairs_text : List (Bytes × Bytes) → Bytes
pairs_text [] = []
pairs_text ((k, v) ∷ []) = k ++ (b'=' ∷ v)
pairs_text ((k, v) ∷ p ∷ ps) = k ++ (b'=' ∷ (v ++ (b';' ∷ b' ' ∷ pairs_text (p ∷ ps))))

-- The last value of a name.
abbrev pub last_value : Bytes → Bytes → List (Bytes × Bytes) → Bytes
last_value key before [] = before
last_value key before ((k, v) ∷ ps) = last_value key (if text_eq k key then v else before) ps

abbrev pub puts : List (Bytes × Bytes) → StringMap → StringMap
puts [] m = m
puts ((k, v) ∷ ps) m = puts ps (put k v m)

abbrev pub at : CookieState → Bytes → Bytes → StringMap → CookieParser
at st n v m = record { state = st; name = n; value = v; tmp = m; httponly = false; secure = false }

run_name :
    (k s n v : Bytes) (m : StringMap)
    → All (λ c. name_char c ≡ true) k
    → run (k ++ s) (at cookie_name n v m) ≡ run s (at cookie_name (n ++ k) v m)
unfolding run step_in is_char is_tspecial
run_name [] s n v m h = ap (λ t. run s (at cookie_name t v m)) (sym (append-nil n))
run_name (c ∷ k) s n v m (h, hs) =
    let a : (c == b';') ≡ false = ground arith in
    let b : (c == b'=') ≡ false = ground arith in
    let d : (is_tspecial c || c == b':') ≡ false = ground arith in
    let e : (is_char c || c == b'_') ≡ true = ground arith in
    let step : step_in cookie_name c (at cookie_name n v m) ≡ at cookie_name (n ++ (c ∷ [])) v m =
      rw (a, b, d, e) refl in
    ap (run (k ++ s)) step
    ∙ run_name k s (n ++ (c ∷ [])) v m hs
    ∙ ap (λ t. run s (at cookie_name t v m)) (append_assoc n (c ∷ []) k)

run_value :
    (w s n v : Bytes) (m : StringMap)
    → All (λ c. value_char c ≡ true) w
    → run (w ++ s) (at cookie_value n v m) ≡ run s (at cookie_value n (v ++ w) m)
unfolding run step_in is_char
run_value [] s n v m h = ap (λ t. run s (at cookie_value n t m)) (sym (append-nil v))
run_value (c ∷ w) s n v m (h, hs) =
    let a : (c == b';' || is_quote c) ≡ false = ground arith in
    let e : is_char c ≡ true = ground arith in
    let step : step_in cookie_value c (at cookie_value n v m)
        ≡ at cookie_value n (v ++ (c ∷ [])) m =
      rw (a, e) refl in
    ap (run (w ++ s)) step
    ∙ run_value w s n (v ++ (c ∷ [])) m hs
    ∙ ap (λ t. run s (at cookie_value n t m)) (append_assoc v (c ∷ []) w)

first_of_name :
    (k s v : Bytes) (m : StringMap)
    → k ≢ []
    → All (λ c. name_char c ≡ true) k
    → run (k ++ s) (at cookie_name_start [] v m) ≡ run s (at cookie_name k v m)
unfolding run step_in is_char is_tspecial
first_of_name [] s v m h hs = absurd (h refl)
first_of_name (c ∷ k) s v m h (p, ps) =
    let a : (c == b' ') ≡ false = ground arith in
    let e : is_char c ≡ true = ground arith in
    let step : step_in cookie_name_start c (at cookie_name_start [] v m)
        ≡ at cookie_name (c ∷ []) v m =
      rw (a, e) refl in
    ap (run (k ++ s)) step ∙ run_name k s (c ∷ []) v m ps

first_of_value :
    (w s n : Bytes) (m : StringMap)
    → w ≢ []
    → All (λ c. value_char c ≡ true) w
    → run (w ++ s) (at cookie_value_start n [] m) ≡ run s (at cookie_value n w m)
unfolding run step_in is_char
first_of_value [] s n m h hs = absurd (h refl)
first_of_value (c ∷ w) s n m h (p, ps) =
    let a : (c == b';') ≡ false = ground arith in
    let b : is_quote c ≡ false = ground arith in
    let e : is_char c ≡ true = ground arith in
    let step : step_in cookie_value_start c (at cookie_value_start n [] m)
        ≡ at cookie_value n (c ∷ []) m =
      rw (a, b, e) refl in
    ap (run (w ++ s)) step ∙ run_value w s n (c ∷ []) m ps

equals_sign :
    (s k v : Bytes) (m : StringMap)
    → run (b'=' ∷ s) (at cookie_name k v m) ≡ run s (at cookie_value_start k [] m)
unfolding run step_in
equals_sign s k v m = refl

separator :
    (s k v : Bytes) (m : StringMap)
    → run (b';' ∷ b' ' ∷ s) (at cookie_value k v m) ≡ run s (at cookie_name_start [] [] (put k v m))
unfolding run step_in
separator s k v m = refl

one_pair :
    (p : Bytes × Bytes) (s v : Bytes) (m : StringMap)
    → IsPair p
    → run (p.0 ++ (b'=' ∷ (p.1 ++ s))) (at cookie_name_start [] v m)
      ≡ run s (at cookie_value p.0 p.1 m)
one_pair p s v m h =
    first_of_name p.0 (b'=' ∷ (p.1 ++ s)) v m h.some_name h.name_chars
    ∙ equals_sign (p.1 ++ s) p.0 v m
    ∙ first_of_value p.1 s p.0 m h.some_value h.value_chars

-- The locals behind a text of pairs, with all of them in the map.
pub record Parsed (p : CookieParser) (m : StringMap) : Type 0 where
  pub parser : CookieParser
  pub ends : finish_in p.state p ≡ some parser
  pub filled : parser.tmp ≡ m
  pub plain : (parser.httponly ≡ false) × (parser.secure ≡ false)

finish_value : (k v : Bytes) (m : StringMap) → v ≢ [] → Parsed (at cookie_value k v m) (put k v m)
unfolding finish_in
finish_value k [] m h = absurd (h refl)
finish_value k (c ∷ v) m h = record {
  parser = record (at cookie_value k (c ∷ v) m) { tmp = put k (c ∷ v) m };
  ends = refl;
  filled = refl;
  plain = (refl, refl);
}

run-nil : (p : CookieParser) → run [] p ≡ p
unfolding run
run-nil p = refl

pub run-pairs_text :
    (p : Bytes × Bytes) (ps : List (Bytes × Bytes)) (v : Bytes) (m : StringMap)
    → IsPair p
    → All IsPair ps
    → Parsed (run (pairs_text (p ∷ ps)) (at cookie_name_start [] v m)) (puts (p ∷ ps) m)
run-pairs_text p [] v m h hs =
    let e =
      ap (λ t. run (p.0 ++ (b'=' ∷ t)) (at cookie_name_start [] v m)) (sym (append-nil p.1))
      ∙ one_pair p [] v m h
      ∙ run-nil (at cookie_value p.0 p.1 m) in
    subst (λ t. Parsed t (put p.0 p.1 m)) (sym e) (finish_value p.0 p.1 m h.some_value)
run-pairs_text p (q ∷ ps) v m h (g, gs) =
    let rest = b';' ∷ b' ' ∷ pairs_text (q ∷ ps) in
    let e = one_pair p rest v m h ∙ separator (pairs_text (q ∷ ps)) p.0 p.1 m in
    subst (λ t. Parsed t (puts (p ∷ q ∷ ps) m)) (sym e)
      (run-pairs_text q ps [] (put p.0 p.1 m) g gs)
