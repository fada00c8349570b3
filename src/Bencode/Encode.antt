-- ===== src/Bencode/Encode.antt =====
-- The encoder of include/avhttp/bencode.hpp against the text that it writes, as a plain recursion.
use avhttp.Base.{
  [], ◌∷◌, ◌++◌, append_assoc, append-nil, ◌≡◌, refl, ◌∙◌, arith, Bytes, length, length-append,
}
use avhttp.Base.Int.{pos}
use avhttp.Bencode.{
  Entry, integer, string, list, dictionary, undefined, Entries, nil, cons, Fields, end, field,
  integer_to_str, Written, write_text, bencode_recursive, bencode_items, bencode_fields, bencode,
}

abbrev pub text : Bytes → Bytes
text s = integer_to_str (pos (length s)) ++ (b':' ∷ s)

-- The bencoding of a value.
unfoldable mutual
  pub encoding : Entry → Bytes
  encoding (integer v) = b'i' ∷ (integer_to_str v ++ (b'e' ∷ []))
  encoding (string s) = text s
  encoding (list l) = b'l' ∷ (items_encoding l ++ (b'e' ∷ []))
  encoding (dictionary d) = b'd' ∷ (fields_encoding d ++ (b'e' ∷ []))
  encoding undefined = []

  pub items_encoding : Entries → Bytes
  items_encoding nil = []
  items_encoding (cons e l) = encoding e ++ items_encoding l

  pub fields_encoding : Fields → Bytes
  fields_encoding end = []
  fields_encoding (field k v d) = text k ++ (encoding v ++ fields_encoding d)

-- Output and count, of a call that appends `s`.
abbrev Appends : Written → Bytes → Bytes → Type 0
Appends w out s = (w.0 ≡ out ++ s) × (w.1 ≡ length s)

write_text-Appends : (out s : Bytes) → Appends (write_text out s) out (text s)
unfolding write_text
write_text-Appends out s =
    (simp (append_assoc), omega (arith, length-append (integer_to_str (pos (length s))) (b':' ∷ s)))

mutual
  unfolding bencode_recursive encoding

  bencode-Appends : (e : Entry) (out : Bytes) → Appends (bencode_recursive e out) out (encoding e)
  bencode-Appends (integer v) out =
      (simp append_assoc, omega (arith, length-append (integer_to_str v) (b'e' ∷ [])))
  bencode-Appends (string s) out = write_text-Appends out s
  bencode-Appends (list l) out =
      let h = items-Appends l (out ++ b'l' ∷ []) in
      (rw h.0 (simp append_assoc), omega (arith, h.1, length-append (items_encoding l) (b'e' ∷ [])))
  bencode-Appends (dictionary d) out =
      let h = fields-Appends d (out ++ b'd' ∷ []) in
      (
        rw h.0 (simp append_assoc),
        omega (arith, h.1, length-append (fields_encoding d) (b'e' ∷ [])),
      )
  bencode-Appends undefined out = (rw append-nil, refl)

  items-Appends : (l : Entries) (out : Bytes) → Appends (bencode_items l out) out (items_encoding l)
  items-Appends nil out = (rw append-nil, refl)
  items-Appends (cons e l) out =
      let h = bencode-Appends e out in
      let k = items-Appends l (bencode_recursive e out).0 in
      (
        k.0 ∙ rw h.0 (append_assoc out (encoding e) _),
        omega (arith, h.1, k.1, length-append (encoding e) (items_encoding l)),
      )

  fields-Appends :
      (d : Fields) (out : Bytes) → Appends (bencode_fields d out) out (fields_encoding d)
  fields-Appends end out = (rw append-nil, refl)
  fields-Appends (field k v d) out =
      let t = write_text-Appends out k in
      let h = bencode-Appends v (write_text out k).0 in
      let g = fields-Appends d (bencode_recursive v (write_text out k).0).0 in
      (
        g.0 ∙ rw h.0 (rw t.0 (simp append_assoc)),
        omega (
          arith,
          t.1,
          h.1,
          g.1,
          length-append (text k) (encoding v ++ fields_encoding d),
          length-append (encoding v) (fields_encoding d),
        ),
      )

-- `bencode_recursive` appends the bencoding of the value to the output, and returns the number of
-- bytes that it wrote.
pub bencode_recursive_lem :
    (e : Entry) (out : Bytes)
    → ((bencode_recursive e out).0 ≡ out ++ encoding e)
      × ((bencode_recursive e out).1 ≡ length (encoding e))
bencode_recursive_lem e out = bencode-Appends e out

pub bencode-encoding : (e : Entry) → bencode e ≡ encoding e
unfolding bencode
bencode-encoding e = (bencode_recursive_lem e []).0
