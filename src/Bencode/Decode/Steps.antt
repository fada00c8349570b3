-- ===== src/Bencode/Decode/Steps.antt =====
-- The decoder of include/avhttp/bencode.hpp at each kind of text that its encoder writes.
use avhttp.Base.{
  ℕ, suc, ◌^◌, ◌≤◌, ◌<◌, max, true, false, none, some, [], ◌∷◌, ◌++◌, append_assoc, append-nil, ◌≡◌,
  ◌≢◌, refl, sym, ◌∙◌, ap, inl, inr, arith, leb, ◌==◌, Bool-cases, Bytes, All, length,
}
use avhttp.Base.Int.{ℤ, pos}
use avhttp.Bencode.Decode.Number.{
  Fits64, Lacks, IsDigit, decimal-Spells, strtoll-integer_to_str, integer_to_str-Lacks,
}
use avhttp.Bencode.Decode.{
  Decoded, ok, bind, read_until, read_string, decode_integer, decode_string, unless_end,
  bdecode_recursive, decode_items, decode_fields, string_key,
}
use avhttp.CStdlib.{atoi, max_i64}
use avhttp.Bencode.Encode.{text, encoding}
use avhttp.Bencode.{
  Entry, integer, string, list, dictionary, undefined, Entries, nil, cons, Fields, end, field,
  key_lt, assign, integer_to_str,
}
use avhttp.Escape.{is_digit}

read_until-Lacks :
    (p rest ret : Bytes) (t : ℕ)
    → Lacks t p
    → read_until ret t (p ++ (t ∷ rest)) ≡ ok (ret ++ p) (t ∷ rest)
unfolding read_until
read_until-Lacks [] rest ret t h = ground (arith, append-nil ret)
read_until-Lacks (c ∷ p) rest ret t (n, h) =
    ground (arith, read_until-Lacks p rest (ret ++ c ∷ []) t h, append_assoc ret (c ∷ []) p)

read_string-append :
    (s rest str : Bytes) → read_string (length s) str (s ++ rest) ≡ ok (str ++ s) rest
unfolding read_string
read_string-append [] rest str = rw append-nil
read_string-append (c ∷ s) rest str = read_string-append s rest (str ++ c ∷ []) ∙ rw append_assoc

pub decode_integer-encoding :
    (v : ℤ) (rest : Bytes)
    → Fits64 v
    → decode_integer (integer_to_str v ++ (b'e' ∷ rest)) ≡ ok (integer v) rest
unfolding decode_integer
decode_integer-encoding v rest h =
    rw
      (read_until-Lacks (integer_to_str v) rest [] b'e'
        (integer_to_str-Lacks b'e' v (omega arith) h))
      (rw (strtoll-integer_to_str v h))

atoi-decimal : (n : ℕ) → n ≤ max_i64 → atoi (integer_to_str (pos n)) ≡ n
unfolding atoi
atoi-decimal n h = (decimal-Spells n h).value

decode_string-text :
    (s rest : Bytes) → length s < 2 ^ 31 → decode_string (text s ++ rest) ≡ ok (string s) rest
unfolding decode_string
decode_string-text s rest h = rw (append_assoc (integer_to_str (pos (length s))) (b':' ∷ s) rest) (
    rw
      (read_until-Lacks (integer_to_str (pos (length s))) (s ++ rest) [] b':'
        (integer_to_str-Lacks b':' (pos (length s)) (omega arith) (omega arith)))
      (rw (atoi-decimal (length s) (omega arith), read_string-append s rest []) (ground arith)))

-- Each key of `d` stands behind `k`.
abbrev pub AllAbove : Bytes → Fields → Type 0
AllAbove k end = Unit
AllAbove k (field j v d) = (key_lt k j ≡ true) × AllAbove k d

-- The key and value of a field, the elements of a list: what a `std::map` and an `int` can hold.
unfoldable mutual
  pub IsCanonical : Entry → Type 0
  IsCanonical (integer v) = Fits64 v
  IsCanonical (string s) = length s < 2 ^ 31
  IsCanonical (list l) = AreCanonical l
  IsCanonical (dictionary d) = FieldsCanonical d
  IsCanonical undefined = ⊥

  pub AreCanonical : Entries → Type 0
  AreCanonical nil = Unit
  AreCanonical (cons e l) = IsCanonical e × AreCanonical l

  pub FieldsCanonical : Fields → Type 0
  FieldsCanonical end = Unit
  FieldsCanonical (field k v d) =
      (length k < 2 ^ 31) × IsCanonical v × AllAbove k d × FieldsCanonical d

-- How deep the calls of the decoder nest.
unfoldable mutual
  pub height : Entry → ℕ
  height (integer v) = 1
  height (string s) = 1
  height (list l) = suc (items_height l)
  height (dictionary d) = suc (fields_height d)
  height undefined = 1

  pub items_height : Entries → ℕ
  items_height nil = 0
  items_height (cons e l) = max (height e) (items_height l)

  pub fields_height : Fields → ℕ
  fields_height end = 0
  fields_height (field k v d) = max (height v) (fields_height d)

-- A text that does not end a list or a dictionary.
abbrev pub Begins : Bytes → Type 0
Begins [] = ⊥
Begins (c ∷ s) = (c == b'e') ≡ false

pub digits-Begins : (s rest : Bytes) → s ≢ [] → All IsDigit s → Begins (s ++ rest)
unfolding is_digit
digits-Begins [] rest n h = absurd (n refl)
digits-Begins (c ∷ s) rest n (d, h) = ground arith

pub text-Begins : (s rest : Bytes) → length s < 2 ^ 31 → Begins (text s ++ rest)
text-Begins s rest h =
    let p = decimal-Spells (length s) (omega arith) in
    rw (append_assoc (integer_to_str (pos (length s))) (b':' ∷ s) rest)
      (digits-Begins _ _ p.ne_nil p.digits)

pub encoding-Begins : (e : Entry) (rest : Bytes) → IsCanonical e → Begins (encoding e ++ rest)
unfolding encoding IsCanonical
encoding-Begins (integer v) rest h = refl
encoding-Begins (string s) rest h = text-Begins s rest h
encoding-Begins (list l) rest h = refl
encoding-Begins (dictionary d) rest h = refl
encoding-Begins undefined rest h = absurd h

pub items_step :
    (f depth : ℕ) (t : Bytes)
    → Begins t
    → decode_items (suc f) depth t
      ≡ bind
          (bdecode_recursive f (suc depth) t)
          λ e r. unless_end r (bind (decode_items f depth r) λ l r2. ok (cons e l) r2)
unfolding bdecode_recursive
items_step f depth [] h = absurd h
items_step f depth (c ∷ s) h = rw h

pub fields_step :
    (f depth : ℕ) (d : Fields) (t : Bytes)
    → Begins t
    → decode_fields (suc f) depth d t
      ≡ bind (bdecode_recursive f (suc depth) t) λ key r. elim (string_key key) [
        | none ↦ ok d r
        | some k ↦
            bind
              (bdecode_recursive f (suc depth) r)
              λ e r2. unless_end r2 (decode_fields f depth (assign k e d) r2)
      ]
unfolding bdecode_recursive
fields_step f depth d [] h = absurd h
fields_step f depth d (c ∷ s) h = rw h

-- Something always follows an element: the `e` at the latest.
pub unless_end-append :
    {A : Type 0} (xs rest : Bytes) (d : Decoded A) → unless_end (xs ++ (b'e' ∷ rest)) d ≡ d
unless_end-append [] rest d = refl
unless_end-append (c ∷ xs) rest d = refl

digit_step :
    (f depth c : ℕ) (s : Bytes)
    → depth < 100
    → IsDigit c
    → bdecode_recursive (suc f) depth (c ∷ s) ≡ decode_string (c ∷ s)
unfolding bdecode_recursive is_digit
digit_step f depth c s p d = ground arith

digits_step :
    (f depth : ℕ) (s rest : Bytes)
    → depth < 100
    → s ≢ []
    → All IsDigit s
    → bdecode_recursive (suc f) depth (s ++ rest) ≡ decode_string (s ++ rest)
digits_step f depth [] rest p n h = absurd (n refl)
digits_step f depth (c ∷ s) rest p n h = digit_step f depth c (s ++ rest) p h.0

pub decode-text :
    (f depth : ℕ) (s rest : Bytes)
    → depth < 100
    → length s < 2 ^ 31
    → bdecode_recursive (suc f) depth (text s ++ rest) ≡ ok (string s) rest
decode-text f depth s rest p h =
    let q = decimal-Spells (length s) (omega arith) in
    ap (bdecode_recursive (suc f) depth)
      (append_assoc (integer_to_str (pos (length s))) (b':' ∷ s) rest)
    ∙ digits_step f depth _ _ p q.ne_nil q.digits
    ∙ ap decode_string (sym (append_assoc (integer_to_str (pos (length s))) (b':' ∷ s) rest))
    ∙ decode_string-text s rest h

pub integer_step :
    (f depth : ℕ) (s : Bytes)
    → depth < 100
    → bdecode_recursive (suc f) depth (b'i' ∷ s) ≡ decode_integer s
unfolding bdecode_recursive
integer_step f depth s p = ground arith

pub list_step :
    (f depth : ℕ) (s : Bytes)
    → depth < 100
    → bdecode_recursive (suc f) depth (b'l' ∷ s)
      ≡ bind (decode_items f depth s) (λ l r. ok (list l) r)
unfolding bdecode_recursive
list_step f depth s p = elim (Bool-cases (leb 100 depth)) [
  | inl deep ↦ absurd (ground arith)
  | inr room ↦ rw room
]

pub dictionary_step :
    (f depth : ℕ) (s : Bytes)
    → depth < 100
    → bdecode_recursive (suc f) depth (b'd' ∷ s)
      ≡ bind (decode_fields f depth end s) (λ d r. ok (dictionary d) r)
unfolding bdecode_recursive
dictionary_step f depth s p = elim (Bool-cases (leb 100 depth)) [
  | inl deep ↦ absurd (ground arith)
  | inr room ↦ rw room
]

-- A key behind all others goes to the end.
abbrev pub snoc : Fields → Bytes → Entry → Fields
snoc end k v = field k v end
snoc (field j w d) k v = field j w (snoc d k v)

abbrev pub AllBelow : Fields → Bytes → Type 0
AllBelow end k = Unit
AllBelow (field j w d) k = (key_lt j k ≡ true) × AllBelow d k

key_lt-asym : (a b : Bytes) → key_lt a b ≡ true → key_lt b a ≡ false
unfolding key_lt
key_lt-asym [] [] h = refl
key_lt-asym [] (y ∷ b) h = refl
key_lt-asym (x ∷ a) [] h = cc
key_lt-asym (x ∷ a) (y ∷ b) h = ground (arith, key_lt-asym a b)

pub assign-snoc : (d : Fields) (k : Bytes) (v : Entry) → AllBelow d k → assign k v d ≡ snoc d k v
unfolding assign
assign-snoc end k v h = refl
assign-snoc (field j w d) k v (p, h) = rw (key_lt-asym j k p, p, assign-snoc d k v h)
