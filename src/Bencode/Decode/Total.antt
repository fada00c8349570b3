-- ===== src/Bencode/Decode/Total.antt =====
-- The decoder of include/avhttp/bencode.hpp ends: the fuel that `bdecode` gives is enough, and each
-- call that succeeds has read at least one character.
use avhttp.Base.{
  ℕ, zero, suc, ◌+◌, ◌*◌, ◌^◌, ◌<◌, Bool, true, false, Option, none, some, [], ◌∷◌, ◌++◌, ◌≢◌, inl,
  inr, arith, leb, ◌==◌, if◌then◌else◌, Bool-cases, Bytes, length,
}
use avhttp.Base.Int.{ℤ}
use avhttp.Bencode.Decode.{
  Decoded, ok, failed, fault, out_of_fuel, bind, read_until, read_string, behind_token,
  decode_integer, decode_string, string_key, unless_end, bdecode_recursive, decode_items,
  decode_fields, fuel_for, bdecode, integer_of, result_of,
}
use avhttp.CStdlib.{strtoll, atoi}
use avhttp.Bencode.{Entry, nil, cons, list, dictionary, string, Fields, end, assign}
use avhttp.Escape.{is_digit}

-- Not short of fuel, and what is left of the input satisfies `P`.
abbrev pub Leaves : {A : Type 0} → (Bytes → Type 0) → Decoded A → Type 0
Leaves P (ok a s) = P s
Leaves P (failed s) = Unit
Leaves P fault = Unit
Leaves P out_of_fuel = ⊥

Leaves-bind :
    {A B : Type 0} (P Q : Bytes → Type 0) (d : Decoded A) (f : A → Bytes → Decoded B)
    → Leaves P d
    → ((a : A) (s : Bytes) → P s → Leaves Q (f a s))
    → Leaves Q (bind d f)
Leaves-bind P Q (ok a s) f h k = k a s h
Leaves-bind P Q (failed s) f h k = tt
Leaves-bind P Q fault f h k = tt
Leaves-bind P Q out_of_fuel f h k = h

Leaves-if :
    {A : Type 0} (P : Bytes → Type 0) (b : Bool) (x y : Decoded A)
    → Leaves P x
    → Leaves P y
    → Leaves P (if b then x else y)
Leaves-if P true x y hx hy = hx
Leaves-if P false x y hx hy = hy

-- What is left is shorter than `n`.
abbrev pub Shorter : ℕ → Bytes → Type 0
Shorter n s = length s < n

Leaves-unless_end :
    {A : Type 0} (P : Bytes → Type 0) (s : Bytes) (d : Decoded A)
    → Leaves P d
    → Leaves P (unless_end s d)
Leaves-unless_end P [] d h = tt
Leaves-unless_end P (c ∷ s) d h = h

Leaves-mono :
    {A : Type 0} (P Q : Bytes → Type 0) (d : Decoded A)
    → ((s : Bytes) → P s → Q s)
    → Leaves P d
    → Leaves Q d
Leaves-mono P Q (ok a s) k h = k s h
Leaves-mono P Q (failed s) k h = tt
Leaves-mono P Q fault k h = tt
Leaves-mono P Q out_of_fuel k h = h

-- Behind the token less is left than was there.
abbrev AtToken : ℕ → Bytes → Type 0
AtToken n r = length (behind_token r) < n

read_until-AtToken : (s ret : Bytes) (t : ℕ) → Leaves (AtToken (length s)) (read_until ret t s)
unfolding read_until
read_until-AtToken [] ret t = tt
read_until-AtToken (c ∷ s) ret t = elim (Bool-cases (c == t)) [
  | inl e ↦ rw e (omega arith)
  | inr e ↦ rw e (
      Leaves-mono (AtToken (length s)) (AtToken (suc (length s))) (read_until (ret ++ c ∷ []) t s)
        (λ r h. omega arith) (read_until-AtToken s (ret ++ c ∷ []) t))
]

read_string-Shorter :
    (len : ℕ) (str s : Bytes) → Leaves (Shorter (suc (length s))) (read_string len str s)
unfolding read_string
read_string-Shorter zero str s = omega arith
read_string-Shorter (suc len) str [] = tt
read_string-Shorter (suc len) str (c ∷ s) =
    Leaves-mono (Shorter (suc (length s))) (Shorter (suc (suc (length s))))
      (read_string len (str ++ c ∷ []) s) (λ r h. omega arith)
      (read_string-Shorter len (str ++ c ∷ []) s)

integer_of-Shorter :
    (o : Option ℤ) (s : Bytes) (n : ℕ) → length s < n → Leaves (Shorter n) (integer_of o s)
integer_of-Shorter none s n h = tt
integer_of-Shorter (some v) s n h = h

decode_integer-Shorter : (s : Bytes) → Leaves (Shorter (suc (length s))) (decode_integer s)
unfolding decode_integer
decode_integer-Shorter s =
    Leaves-bind (AtToken (length s)) (Shorter (suc (length s))) (read_until [] b'e' s) _
      (read_until-AtToken s [] b'e')
      (λ val r h. integer_of-Shorter (strtoll val) (behind_token r) _ (omega arith))

decode_string-Shorter : (s : Bytes) → Leaves (Shorter (length s)) (decode_string s)
unfolding decode_string
decode_string-Shorter s =
    Leaves-bind (AtToken (length s)) (Shorter (length s)) (read_until [] b':' s) _
      (read_until-AtToken s [] b':')
      (λ len_s r h. elim (Bool-cases (leb (2 ^ 31) (atoi len_s))) [
        | inl big ↦ rw big tt
        | inr fits ↦ rw fits (
            Leaves-bind (Shorter (suc (length (behind_token r)))) (Shorter (length s))
              (read_string (atoi len_s) [] (behind_token r)) (λ str r2. ok (string str) r2)
              (read_string-Shorter (atoi len_s) [] (behind_token r)) (λ str r2 k. omega arith))
      ])

-- The part of the dictionary loop behind a key.
module _ (f depth n : ℕ) (d : Fields) where
  behind_key :
      (key : Option Bytes) (r : Bytes)
      → Shorter n r
      → Leaves (Shorter (length r)) (bdecode_recursive f (suc depth) r)
      → ((e : Entry) (k : Bytes) (r2 : Bytes)
          → length r2 < length r
          → Leaves (Shorter n) (decode_fields f depth (assign k e d) r2))
      → Leaves (Shorter n) (elim key [
        | none ↦ ok d r
        | some k ↦
            bind
              (bdecode_recursive f (suc depth) r)
              λ e r2. unless_end r2 (decode_fields f depth (assign k e d) r2)
      ])
  behind_key none r h value next = h
  behind_key (some k) r h value next =
      Leaves-bind (Shorter (length r)) (Shorter n) (bdecode_recursive f (suc depth) r) _ value
        (λ e r2 k2. Leaves-unless_end (Shorter n) r2 _ (next e k r2 k2))

mutual
  unfolding bdecode_recursive

  decode-Shorter :
      (f depth : ℕ) (s : Bytes)
      → 2 * length s < f
      → Leaves (Shorter (length s)) (bdecode_recursive f depth s)
  decode-Shorter zero depth s h = absurd (omega arith)
  decode-Shorter (suc f) depth [] h = tt
  decode-Shorter (suc f) depth (c ∷ s) h =
      let P = Shorter (suc (length s)) in
      Leaves-if P (leb 100 depth) (failed (c ∷ s)) _ tt (
        Leaves-if P (c == b'i') _ _ (decode_integer-Shorter s) (
          Leaves-if P (c == b'l') _ _
            (Leaves-bind (Shorter (length s)) P (decode_items f depth s) (λ l r. ok (list l) r)
              (items-Shorter f depth s (omega arith)) (λ l r k. omega arith))
            (Leaves-if P (c == b'd') _ _
              (Leaves-bind (Shorter (length s)) P (decode_fields f depth end s)
                (λ d r. ok (dictionary d) r) (fields-Shorter f depth end s (omega arith))
                (λ d r k. omega arith))
              (Leaves-if P (is_digit c) _ (failed (c ∷ s)) (decode_string-Shorter (c ∷ s)) tt))))

  items-Shorter :
      (f depth : ℕ) (s : Bytes)
      → 2 * length s + 1 < f
      → Leaves (Shorter (length s)) (decode_items f depth s)
  items-Shorter zero depth s h = absurd (omega arith)
  items-Shorter (suc f) depth [] h = tt
  items-Shorter (suc f) depth (c ∷ s) h =
      let P = Shorter (suc (length s)) in
      Leaves-if P (c == b'e') (ok nil s) _ (omega arith) (
        Leaves-bind P P (bdecode_recursive f (suc depth) (c ∷ s)) _
          (decode-Shorter f (suc depth) (c ∷ s) (omega arith))
          (λ e r k. Leaves-unless_end P r _ (
            Leaves-bind (Shorter (length r)) P (decode_items f depth r) (λ l r2. ok (cons e l) r2)
              (items-Shorter f depth r (omega arith)) (λ l r2 k2. omega arith))))

  fields-Shorter :
      (f depth : ℕ) (d : Fields) (s : Bytes)
      → 2 * length s + 1 < f
      → Leaves (Shorter (length s)) (decode_fields f depth d s)
  fields-Shorter zero depth d s h = absurd (omega arith)
  fields-Shorter (suc f) depth d [] h = tt
  fields-Shorter (suc f) depth d (c ∷ s) h =
      let P = Shorter (suc (length s)) in
      Leaves-if P (c == b'e') (ok d s) _ (omega arith) (
        Leaves-bind P P (bdecode_recursive f (suc depth) (c ∷ s)) _
          (decode-Shorter f (suc depth) (c ∷ s) (omega arith))
          (λ key r k.
            behind_key f depth (suc (length s)) d (string_key key) r k
              (decode-Shorter f (suc depth) r (omega arith))
              (λ e k' r2 k2.
                Leaves-mono (Shorter (length r2)) P (decode_fields f depth (assign k' e d) r2)
                  (λ t q. omega arith) (fields-Shorter f depth (assign k' e d) r2 (omega arith)))))

-- `bdecode` never runs out of the fuel that it starts with.
pub bdecode-ne-out_of_fuel : (s : Bytes) → bdecode s ≢ out_of_fuel
unfolding bdecode
bdecode-ne-out_of_fuel s =
    given (bdecode_recursive (fuel_for s) 0 s) (decode-Shorter (fuel_for s) 0 s (omega arith))
  where
    given : (d : Decoded Entry) → Leaves (Shorter (length s)) d → result_of d ≢ out_of_fuel
    given (ok e r) h = λ p. cc
    given (failed r) h = λ p. cc
    given fault h = λ p. cc
    given out_of_fuel h = absurd h
