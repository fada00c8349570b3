-- ===== src/Bencode/Decode/RoundTrip.antt =====
-- The decoder of include/avhttp/bencode.hpp reads back what its encoder writes.
use avhttp.Base.{
  ℕ, zero, suc, ◌+◌, ◌*◌, ◌^◌, ◌≤◌, ◌<◌, [], ◌∷◌, ◌++◌, append_assoc, append-nil, ◌≡◌, refl, sym,
  ◌∙◌, ap, true, arith, Bytes, length, length-append,
}
use avhttp.Base.Int.{pos}
use avhttp.Bencode.Decode.{
  ok, bdecode_recursive, decode_items, decode_fields, fuel_for, bdecode, result_of,
}
use avhttp.Bencode.Decode.Steps.{
  decode_integer-encoding, AllAbove, IsCanonical, AreCanonical, FieldsCanonical, height,
  items_height, fields_height, encoding-Begins, text-Begins, items_step, fields_step,
  unless_end-append, decode-text, integer_step, list_step, dictionary_step, snoc, AllBelow,
  assign-snoc,
}
use avhttp.Bencode.Encode.{text, encoding, items_encoding, fields_encoding, bencode-encoding}
use avhttp.Bencode.{
  Entry, integer, string, list, dictionary, undefined, Entries, nil, cons, Fields, end, field,
  integer_to_str, key_lt, bencode,
}

-- `acc`, and `d` behind it.
abbrev join : Fields → Fields → Fields
join end d = d
join (field j w acc) d = field j w (join acc d)

join-end : (acc : Fields) → join acc end ≡ acc
join-end end = refl
join-end (field j w acc) = ap (field j w) (join-end acc)

join-snoc :
    (acc : Fields) (k : Bytes) (v : Entry) (d : Fields)
    → join (snoc acc k v) d ≡ join acc (field k v d)
join-snoc end k v d = refl
join-snoc (field j w acc) k v d = ap (field j w) (join-snoc acc k v d)

-- All keys of `acc` stand in front of all keys of `d`.
abbrev Precedes : Fields → Fields → Type 0
Precedes acc end = Unit
Precedes acc (field k v d) = AllBelow acc k × Precedes acc d

AllBelow-snoc :
    (acc : Fields) (k j : Bytes) (v : Entry)
    → AllBelow acc j
    → key_lt k j ≡ true
    → AllBelow (snoc acc k v) j
AllBelow-snoc end k j v h p = (p, tt)
AllBelow-snoc (field i w acc) k j v (q, h) p = (q, AllBelow-snoc acc k j v h p)

Precedes-snoc :
    (acc d : Fields) (k : Bytes) (v : Entry)
    → Precedes acc d
    → AllAbove k d
    → Precedes (snoc acc k v) d
Precedes-snoc acc end k v h a = tt
Precedes-snoc acc (field j w d) k v (b, h) (p, a) =
    (AllBelow-snoc acc k j v b p, Precedes-snoc acc d k v h a)

Precedes-end : (d : Fields) → Precedes end d
Precedes-end end = tt
Precedes-end (field k v d) = (tt, Precedes-end d)

items_end : (f depth : ℕ) (rest : Bytes) → decode_items (suc f) depth (b'e' ∷ rest) ≡ ok nil rest
unfolding bdecode_recursive
items_end f depth rest = refl

fields_end :
    (f depth : ℕ) (d : Fields) (rest : Bytes)
    → decode_fields (suc f) depth d (b'e' ∷ rest) ≡ ok d rest
unfolding bdecode_recursive
fields_end f depth d rest = refl

height-pos : (e : Entry) → 0 < height e
unfolding height
height-pos (integer v) = omega arith
height-pos _ = omega arith

encoding_pos : (e : Entry) → IsCanonical e → 0 < length (encoding e)
unfolding encoding IsCanonical
encoding_pos (integer v) c = omega arith
encoding_pos (string s) c =
    omega (arith, length-append (integer_to_str (pos (length s))) (b':' ∷ s))
encoding_pos (list l) c = omega arith
encoding_pos (dictionary d) c = omega arith
encoding_pos undefined c = absurd c

fields_length :
    (k : Bytes) (v : Entry) (d : Fields)
    → length (encoding v) + length (fields_encoding d) < length (fields_encoding (field k v d))
unfolding encoding
fields_length k v d = omega (
  arith,
  length-append (text k) (encoding v ++ fields_encoding d),
  length-append (encoding v) (fields_encoding d),
  length-append (integer_to_str (pos (length k))) (b':' ∷ k),
)

-- An element, behind it the rest of a list.
items_cons :
    (f depth : ℕ) (e : Entry) (l : Entries) (s rest : Bytes)
    → IsCanonical e
    → bdecode_recursive f (suc depth) (encoding e ++ (s ++ (b'e' ∷ rest)))
      ≡ ok e (s ++ (b'e' ∷ rest))
    → decode_items f depth (s ++ (b'e' ∷ rest)) ≡ ok l rest
    → decode_items (suc f) depth ((encoding e ++ s) ++ (b'e' ∷ rest)) ≡ ok (cons e l) rest
items_cons f depth e l s rest c first later =
    ap (decode_items (suc f) depth) (append_assoc (encoding e) s (b'e' ∷ rest))
    ∙ items_step f depth _ (encoding-Begins e _ c)
    ∙ rw first (unless_end-append s rest _ ∙ rw later)

-- A field, behind it the rest of a dictionary.
fields_cons :
    (f depth : ℕ) (acc d : Fields) (k : Bytes) (e : Entry) (s rest : Bytes)
    → length k < 2 ^ 31
    → depth < 99
    → AllBelow acc k
    → bdecode_recursive (suc f) (suc depth) (encoding e ++ (s ++ (b'e' ∷ rest)))
      ≡ ok e (s ++ (b'e' ∷ rest))
    → decode_fields (suc f) depth (snoc acc k e) (s ++ (b'e' ∷ rest)) ≡ ok d rest
    → decode_fields (suc (suc f)) depth acc ((text k ++ (encoding e ++ s)) ++ (b'e' ∷ rest))
      ≡ ok d rest
fields_cons f depth acc d k e s rest short room below value later =
    ap (decode_fields (suc (suc f)) depth acc) (
      append_assoc (text k) (encoding e ++ s) (b'e' ∷ rest)
      ∙ ap (λ t. text k ++ t) (append_assoc (encoding e) s (b'e' ∷ rest)))
    ∙ fields_step (suc f) depth acc _ (text-Begins k _ short)
    ∙ rw (decode-text f (suc depth) k _ (omega arith) short)
        (rw value (unless_end-append s rest _ ∙ rw (assign-snoc acc k e below) later))

mutual
  unfolding encoding IsCanonical height

  pub decode-encoding :
      (e : Entry) (f depth : ℕ) (rest : Bytes)
      → IsCanonical e
      → depth + height e ≤ 100
      → 2 * length (encoding e) ≤ f
      → bdecode_recursive f depth (encoding e ++ rest) ≡ ok e rest
  decode-encoding (integer v) zero depth rest c h p = absurd (omega arith)
  decode-encoding (integer v) (suc f) depth rest c h p =
      rw (append_assoc (integer_to_str v) (b'e' ∷ []) rest)
        (integer_step f depth _ (omega arith) ∙ decode_integer-encoding v rest c)
  decode-encoding (string s) zero depth rest c h p =
      absurd (omega (arith, length-append (integer_to_str (pos (length s))) (b':' ∷ s)))
  decode-encoding (string s) (suc f) depth rest c h p = decode-text f depth s rest (omega arith) c
  decode-encoding (list l) zero depth rest c h p = absurd (omega arith)
  decode-encoding (list l) (suc f) depth rest c h p =
      rw (append_assoc (items_encoding l) (b'e' ∷ []) rest) (
        list_step f depth _ (omega arith)
        ∙ rw (
            decode-items l f depth rest c (omega arith)
              (omega (arith, length-append (items_encoding l) (b'e' ∷ [])))))
  decode-encoding (dictionary d) zero depth rest c h p = absurd (omega arith)
  decode-encoding (dictionary d) (suc f) depth rest c h p =
      rw (append_assoc (fields_encoding d) (b'e' ∷ []) rest) (
        dictionary_step f depth _ (omega arith)
        ∙ rw (
            decode-fields d end f depth rest c (omega arith)
              (omega (arith, length-append (fields_encoding d) (b'e' ∷ []))) (Precedes-end d)))
  decode-encoding undefined f depth rest c h p = absurd c

  decode-items :
      (l : Entries) (f depth : ℕ) (rest : Bytes)
      → AreCanonical l
      → depth + items_height l < 100
      → 2 * length (items_encoding l) + 1 ≤ f
      → decode_items f depth (items_encoding l ++ (b'e' ∷ rest)) ≡ ok l rest
  decode-items nil zero depth rest c h p = absurd (omega arith)
  decode-items nil (suc f) depth rest c h p = items_end f depth rest
  decode-items (cons e l) zero depth rest c h p = absurd (omega arith)
  decode-items (cons e l) (suc f) depth rest (c, cs) h p =
      items_cons f depth e l (items_encoding l) rest c
        (decode-encoding e f (suc depth) _ c (omega arith)
          (omega (arith, length-append (encoding e) (items_encoding l))))
        (decode-items l f depth rest cs (omega arith)
          (omega (arith, length-append (encoding e) (items_encoding l), encoding_pos e c)))

  decode-fields :
      (d acc : Fields) (f depth : ℕ) (rest : Bytes)
      → FieldsCanonical d
      → depth + fields_height d < 100
      → 2 * length (fields_encoding d) + 1 ≤ f
      → Precedes acc d
      → decode_fields f depth acc (fields_encoding d ++ (b'e' ∷ rest)) ≡ ok (join acc d) rest
  decode-fields end acc zero depth rest c h p b = absurd (omega arith)
  decode-fields end acc (suc f) depth rest c h p b =
      fields_end f depth acc rest ∙ ap (λ t. ok t rest) (sym (join-end acc))
  decode-fields (field k v d) acc zero depth rest c h p b = absurd (omega arith)
  decode-fields (field k v d) acc (suc zero) depth rest (short, c, a, cs) h p (b, bs) =
      absurd (omega (arith, fields_length k v d, encoding_pos v c))
  decode-fields (field k v d) acc (suc (suc f)) depth rest (short, c, a, cs) h p (b, bs) =
      fields_cons f depth acc (join (snoc acc k v) d) k v (fields_encoding d) rest short
        (omega (arith, height-pos v)) b
        (decode-encoding v (suc f) (suc depth) _ c (omega arith)
          (omega (arith, fields_length k v d)))
        (decode-fields d (snoc acc k v) (suc f) depth rest cs (omega arith)
          (omega (arith, fields_length k v d, encoding_pos v c)) (Precedes-snoc acc d k v bs a))
      ∙ ap (λ t. ok t rest) (join-snoc acc k v d)

-- `bdecode` reads back what `bencode` writes, for every value whose numbers and lengths fit their
-- types, whose keys are in order, and that nests no deeper than the decoder goes.
pub bdecode-bencode : (e : Entry) → IsCanonical e → height e ≤ 100 → bdecode (bencode e) ≡ ok e []
unfolding bdecode
bdecode-bencode e c h = rw (bencode-encoding e) (
    ap result_of (
      ap (bdecode_recursive (fuel_for (encoding e)) 0) (sym (append-nil (encoding e)))
      ∙ decode-encoding e (fuel_for (encoding e)) 0 [] c (omega arith) (omega arith)))

-- Behind the text of a value, `bdecode` leaves the rest of the input.
pub bdecode-encoding :
    (e : Entry) (rest : Bytes)
    → IsCanonical e
    → height e ≤ 100
    → bdecode (bencode e ++ rest) ≡ ok e rest
unfolding bdecode
bdecode-encoding e rest c h = rw (bencode-encoding e) (
    ap result_of (
      decode-encoding e (fuel_for (encoding e ++ rest)) 0 rest c (omega arith)
        (omega (arith, length-append (encoding e) rest))))

pub length-bencode : (e : Entry) → IsCanonical e → 0 < length (bencode e)
length-bencode e c = rw (bencode-encoding e) (encoding_pos e c)
