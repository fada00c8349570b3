-- ===== src/Bencode/Decode/BadKey.antt =====
-- A dictionary of include/avhttp/bencode.hpp whose first key is no string: the decoder returns
-- without an error, and what it returns stops in front of the value.
use avhttp.Base.{
  suc, ◌+◌, ◌*◌, ◌<◌, none, ◌∷◌, ◌++◌, ◌≡◌, ◌∙◌, ap, arith, Bytes, length, length-append,
}
use avhttp.Bencode.Decode.RoundTrip.{decode-encoding}
use avhttp.Bencode.Decode.Steps.{IsCanonical, height, encoding-Begins, fields_step, dictionary_step}
use avhttp.Bencode.Decode.{ok, bdecode, bdecode_recursive, fuel_for, result_of, string_key}
use avhttp.Bencode.Encode.{encoding}
use avhttp.Bencode.{Entry, dictionary, end}

-- The text `d`, the bencoding of a value that is no string, and any rest decode without an error
-- to the empty dictionary, and the rest is not looked at: neither the value of that key nor the
-- closing `e` is asked for.
pub bdecode_bad_key :
    (v : Entry) (rest : Bytes)
    → IsCanonical v
    → height v < 100
    → string_key v ≡ none
    → bdecode (b'd' ∷ (encoding v ++ rest)) ≡ ok (dictionary end) rest
unfolding bdecode
bdecode_bad_key v rest c h key =
    let s = encoding v ++ rest in
    let n = length-append (encoding v) rest in
    let e : fuel_for (b'd' ∷ s) ≡ suc (suc (2 * length s + 1)) = omega arith in
    let stops : bdecode_recursive (fuel_for (b'd' ∷ s)) 0 (b'd' ∷ s) ≡ ok (dictionary end) rest =
      ap (λ f. bdecode_recursive f 0 (b'd' ∷ s)) e
      ∙ dictionary_step (suc (2 * length s + 1)) 0 s (omega arith)
      ∙ rw (fields_step (2 * length s + 1) 0 end s (encoding-Begins v rest c)) (
          rw (decode-encoding v (2 * length s + 1) 1 rest c (omega arith) (omega arith))
            (ground arith)) in
    ap result_of stops
