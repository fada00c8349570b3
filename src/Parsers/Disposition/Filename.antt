-- ===== src/Parsers/Disposition/Filename.antt =====
-- What `content_disposition_filename` of include/avhttp/detail/parsers.hpp finds.
use avhttp.Base.{
  ℕ, true, false, not, ◌||◌, [], ◌∷◌, ◌++◌, append_assoc, append-nil, ◌≡◌, ◌≢◌, refl, sym, ap, ◌∙◌,
  inl, inr, arith, ◌==◌, if◌then◌else◌, Bytes, codes, text_eq, text_eq→eq, text_eq_refl, length,
  length-append, All, Bool-cases,
}
use avhttp.Escape.{is_char, is_tspecial}
use avhttp.Parsers.Disposition.{
  DispositionState, parse_key_start, parse_key, parse_value_start, parse_value, Disposition,
  is_quote, run, is_empty, finish, content_disposition_filename,
}

abbrev at : DispositionState → Bytes → Bytes → Bytes → Disposition
at state name value filename = record {
  state = state;
  name = name;
  value = value;
  filename = filename;
}

-- A character of a key, at any place of it.
abbrev pub IsKeyChar : ℕ → Type 0
IsKeyChar c =
    (is_char c ≡ true) × (is_tspecial c ≡ false) × ((c == b';' || c == b'=' || c == b':') ≡ false)

-- A character of a value.
abbrev pub IsValueChar : ℕ → Type 0
IsValueChar c = (is_char c ≡ true) × (is_quote c ≡ false)

key_start :
    (c : ℕ) (s name value filename : Bytes)
    → IsKeyChar c
    → run (at parse_key_start name value filename) (c ∷ s)
      ≡ run (at parse_key (name ++ c ∷ []) value filename) s
unfolding run is_tspecial
key_start c s name value filename h =
    let blank : (c == b' ') ≡ false = ground arith in rw (blank, h.0) refl

run-key :
    (k s name value filename : Bytes)
    → All IsKeyChar k
    → run (at parse_key name value filename) (k ++ s)
      ≡ run (at parse_key (name ++ k) value filename) s
unfolding run
run-key [] s name value filename h = rw append-nil refl
run-key (c ∷ k) s name value filename ((p, q, r), h) =
    let semicolon : (c == b';') ≡ false = ground arith in
    let equals : (c == b'=') ≡ false = ground arith in
    let colon : (c == b':') ≡ false = ground arith in
    rw (semicolon, equals, colon, p, q)
      (run-key k s (name ++ c ∷ []) value filename h ∙ rw append_assoc refl)

run-value :
    (v s name value filename : Bytes)
    → All IsValueChar v
    → run (at parse_value name value filename) (v ++ s)
      ≡ run (at parse_value name (value ++ v) filename) s
unfolding run
run-value [] s name value filename h = rw append-nil refl
run-value (c ∷ v) s name value filename ((p, q), h) =
    rw (q, p) (run-value v s name (value ++ c ∷ []) filename h ∙ rw append_assoc refl)

value_start :
    (c : ℕ) (s name value filename : Bytes)
    → IsValueChar c
    → run (at parse_value_start name value filename) (c ∷ s)
      ≡ run (at parse_value name (value ++ c ∷ []) filename) s
unfolding run
value_start c s name value filename (p, q) = rw (q, p) refl

ne-text_eq : (s t : Bytes) → s ≢ t → text_eq s t ≡ false
ne-text_eq s t h = elim (Bool-cases (text_eq s t)) [
  | inl e ↦ absurd (h (text_eq→eq s t e))
  | inr e ↦ e
]

longer_ne : (c : ℕ) (k t : Bytes) → ((c ∷ k) ++ t) ≢ t
longer_ne c k t e = let l = ap length e in let m = length-append k t in omega arith

-- The key `filename` with a value in quotes, which is the last.
abbrev pub filename_item : Bytes → Bytes
filename_item w = codes " filename=\"" ++ (w ++ codes "\"")

ilename-IsKeyChar : All IsKeyChar (codes "ilename")
unfolding is_char is_tspecial
ilename-IsKeyChar = (ok, (ok, (ok, (ok, (ok, (ok, (ok, tt)))))))
  where
    ok : (◌≡◌ true true) × (◌≡◌ false false) × (◌≡◌ false false)
    ok = (refl, refl, refl)

-- From the quote in front of the value to the end of the text.
run-quoted :
    (d : ℕ) (w name filename : Bytes)
    → All IsValueChar (d ∷ w)
    → run (at parse_value_start name [] filename) (b'"' ∷ d ∷ (w ++ codes "\""))
      ≡ at parse_key_start name
          (d ∷ w)
          (if text_eq name (codes "filename") then d ∷ w else filename)
run-quoted d w name filename (h, hs) =
    skip
    ∙ value_start d (w ++ codes "\"") name [] filename h
    ∙ run-value w (codes "\"") name (d ∷ []) filename hs
    ∙ close
  where
    skip :
        run (at parse_value_start name [] filename) (b'"' ∷ d ∷ (w ++ codes "\""))
        ≡ run (at parse_value_start name [] filename) (d ∷ (w ++ codes "\""))
    skip = unfold run in refl

    close :
        run (at parse_value name (d ∷ w) filename) (codes "\"")
        ≡ at parse_key_start name
            (d ∷ w)
            (if text_eq name (codes "filename") then d ∷ w else filename)
    close = unfold run in refl

-- The file name is found behind a first item that is a key with no value.
pub content_disposition_filename-filename_item :
    (c d : ℕ) (k w filename : Bytes)
    → All IsKeyChar (c ∷ k)
    → All IsValueChar (d ∷ w)
    → content_disposition_filename ((c ∷ k) ++ (b';' ∷ filename_item (d ∷ w))) filename
      ≡ (true, d ∷ w)
unfolding content_disposition_filename
content_disposition_filename-filename_item c d k w filename (hc, hk) hw =
    ap finish (
      key_start c _ [] [] filename hc
      ∙ run-key k _ (c ∷ []) [] filename hk
      ∙ to_value
      ∙ run-quoted d w (codes "filename") filename hw
      ∙ ap (λ b. at parse_key_start (codes "filename") (d ∷ w) (if b then d ∷ w else filename))
          (text_eq_refl (codes "filename")))
    ∙ unfold finish in rw (text_eq_refl (codes "filename")) refl
  where
    to_value :
        run (at parse_key (c ∷ k) [] filename) (b';' ∷ filename_item (d ∷ w))
        ≡ run (at parse_value_start (codes "filename") [] filename) (b'"' ∷ d ∷ (w ++ codes "\""))
    to_value = unfold run is_char is_tspecial in refl

-- Directly behind an item with a key other than `filename` and a value without quotes, a quoted
-- file name is not found: the key of the item is not cleared, and stands in front of the next one.
-- What was in `filename` stays, and whether there was something is the result.
pub filename_lost :
    (c d e : ℕ) (k v w filename : Bytes)
    → All IsKeyChar (c ∷ k)
    → All IsValueChar (e ∷ v)
    → All IsValueChar (d ∷ w)
    → (c ∷ k) ≢ codes "filename"
    → content_disposition_filename
        ((c ∷ k) ++ (b'=' ∷ e ∷ (v ++ (b';' ∷ filename_item (d ∷ w)))))
        filename
      ≡ (not (is_empty filename), filename)
unfolding content_disposition_filename
filename_lost c d e k v w filename (hc, hk) (he, hv) hw ne =
    ap finish (
      key_start c _ [] [] filename hc
      ∙ run-key k _ (c ∷ []) [] filename hk
      ∙ to_first
      ∙ value_start e _ (c ∷ k) [] filename he
      ∙ run-value v _ (c ∷ k) (e ∷ []) filename hv
      ∙ to_second
      ∙ run-key (codes "ilename") (codes "=\"" ++ (d ∷ (w ++ codes "\""))) ((c ∷ k) ++ b'f' ∷ [])
          (e ∷ v) filename ilename-IsKeyChar
      ∙ to_value
      ∙ run-quoted d w joined filename hw)
    ∙ unfold finish in rw other refl
  where
    joined : Bytes
    joined = ((c ∷ k) ++ b'f' ∷ []) ++ codes "ilename"

    other : text_eq joined (codes "filename") ≡ false
    other = ne-text_eq joined (codes "filename") (λ q.
        longer_ne c k (codes "filename")
          (sym (append_assoc (c ∷ k) (b'f' ∷ []) (codes "ilename")) ∙ q))

    to_first :
        run (at parse_key (c ∷ k) [] filename) (b'=' ∷ e ∷ (v ++ (b';' ∷ filename_item (d ∷ w))))
        ≡ run (at parse_value_start (c ∷ k) [] filename) (e ∷ (v ++ (b';' ∷ filename_item (d ∷ w))))
    to_first = unfold run in refl

    ends_value :
        run (at parse_value (c ∷ k) (e ∷ v) filename) (b';' ∷ filename_item (d ∷ w))
        ≡ run
            (at parse_key_start
              (c ∷ k)
              (e ∷ v)
              (if text_eq (c ∷ k) (codes "filename") then e ∷ v else filename))
            (filename_item (d ∷ w))
    ends_value = unfold run in refl

    starts_key :
        run (at parse_key_start (c ∷ k) (e ∷ v) filename) (filename_item (d ∷ w))
        ≡ run
            (at parse_key ((c ∷ k) ++ b'f' ∷ []) (e ∷ v) filename)
            (codes "ilename" ++ (codes "=\"" ++ (d ∷ (w ++ codes "\""))))
    starts_key = unfold run is_char in refl

    to_second :
        run (at parse_value (c ∷ k) (e ∷ v) filename) (b';' ∷ filename_item (d ∷ w))
        ≡ run
            (at parse_key ((c ∷ k) ++ b'f' ∷ []) (e ∷ v) filename)
            (codes "ilename" ++ (codes "=\"" ++ (d ∷ (w ++ codes "\""))))
    to_second =
        ends_value
        ∙ ap
            (λ b.
              run (at parse_key_start (c ∷ k) (e ∷ v) (if b then e ∷ v else filename))
                (filename_item (d ∷ w)))
            (ne-text_eq (c ∷ k) (codes "filename") ne)
        ∙ starts_key

    to_value :
        run (at parse_key joined (e ∷ v) filename) (codes "=\"" ++ (d ∷ (w ++ codes "\"")))
        ≡ run (at parse_value_start joined [] filename) (b'"' ∷ d ∷ (w ++ codes "\""))
    to_value = unfold run in refl
