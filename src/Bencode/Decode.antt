-- ===== src/Bencode/Decode.antt =====
-- The decoder of include/avhttp/bencode.hpp. `in` is the list of the characters that are left.
-- Fuel bounds the depth of the calls; `Total` shows that `bdecode` gives enough.
pub mod Number
pub mod Total
pub mod Steps
pub mod RoundTrip
pub mod BadKey
mod Tests
use avhttp.Base.{
  ℕ, zero, suc, ◌+◌, ◌-◌, ◌*◌, ◌^◌, min, Bool, true, false, ◌&&◌, ◌||◌, Option, none, some, [], ◌∷◌,
  ◌++◌, leb, ltb, ◌==◌, if◌then◌else◌, Bytes, length,
}
use avhttp.Base.Int.{ℤ, pos, negsuc}
use avhttp.Bencode.{
  Entry, integer, string, list, dictionary, undefined, Entries, nil, cons, Fields, end, field,
  assign,
}
use avhttp.CStdlib.{strtoll, atoi}
use avhttp.Escape.{is_digit}

-- `ok`: the result and the input behind it; `failed`: `err` is set, with the input left. `fault` is
-- undefined behaviour: a read at the end of the input, or a length outside `int`.
pub data Decoded (A : Type 0) : Type 0 where
  ok : A → Bytes → Decoded A
  failed : Bytes → Decoded A
  fault : Decoded A
  out_of_fuel : Decoded A

abbrev pub bind : {A B : Type 0} → Decoded A → (A → Bytes → Decoded B) → Decoded B
bind (ok a s) f = f a s
bind (failed s) f = failed s
bind fault f = fault
bind out_of_fuel f = out_of_fuel

-- The characters in front of the token, and the input from the token on.
unfoldable pub read_until : Bytes → ℕ → Bytes → Decoded Bytes
read_until ret end_token [] = failed []
read_until ret end_token (c ∷ s) =
    let rest = read_until (ret ++ c ∷ []) end_token s in
    if c == end_token then ok ret (c ∷ s) else rest

unfoldable pub read_string : ℕ → Bytes → Bytes → Decoded Bytes
read_string zero str s = ok str s
read_string (suc len) str [] = failed []
read_string (suc len) str (c ∷ s) = read_string len (str ++ c ∷ []) s

abbrev pub integer_of : Option ℤ → Bytes → Decoded Entry
integer_of none s = failed s
integer_of (some v) s = ok (integer v) s

-- `++in` over the token that `read_until` stopped at.
abbrev pub behind_token : Bytes → Bytes
behind_token [] = []
behind_token (c ∷ s) = s

-- The input behind the letter `i`.
unfoldable pub decode_integer : Bytes → Decoded Entry
decode_integer s =
    bind (read_until [] b'e' s) λ val rest. integer_of (strtoll val) (behind_token rest)

unfoldable pub decode_string : Bytes → Decoded Entry
decode_string s = bind (read_until [] b':' s) λ len_s rest.
    let text = bind (read_string (atoi len_s) [] (behind_token rest)) λ str r. ok (string str) r in
    if leb (2 ^ 31) (atoi len_s) then fault else text

-- Is the key a string? If not, the dictionary returns at once, with no error set.
abbrev pub string_key : Entry → Option Bytes
string_key (string k) = some k
string_key _ = none

-- `if (in == end) err`, behind an element; otherwise the loop goes on.
abbrev pub unless_end : {A : Type 0} → Bytes → Decoded A → Decoded A
unless_end [] next = failed []
unless_end (c ∷ s) next = next

unfoldable mutual
  pub bdecode_recursive : ℕ → ℕ → Bytes → Decoded Entry
  bdecode_recursive zero depth s = out_of_fuel
  bdecode_recursive (suc f) depth [] = failed []
  bdecode_recursive (suc f) depth (c ∷ s) =
      let as_list = bind (decode_items f depth s) λ l r. ok (list l) r in
      let as_dictionary = bind (decode_fields f depth end s) λ d r. ok (dictionary d) r in
      if leb 100 depth
      then failed (c ∷ s)
      else if c == b'i'
      then decode_integer s
      else if c == b'l'
      then as_list
      else if c == b'd'
      then as_dictionary
      else if is_digit c
      then decode_string (c ∷ s)
      else failed (c ∷ s)

  -- The loop of a list, up to its `e`.
  pub decode_items : ℕ → ℕ → Bytes → Decoded Entries
  decode_items zero depth s = out_of_fuel
  decode_items (suc f) depth [] = fault
  decode_items (suc f) depth (c ∷ s) =
      let more = bind (bdecode_recursive f (suc depth) (c ∷ s)) λ e r.
        let next = bind (decode_items f depth r) λ l r2. ok (cons e l) r2 in unless_end r next in
      if c == b'e' then ok nil s else more

  -- The loop of a dictionary, over the fields read so far.
  pub decode_fields : ℕ → ℕ → Fields → Bytes → Decoded Fields
  decode_fields zero depth d s = out_of_fuel
  decode_fields (suc f) depth d [] = fault
  decode_fields (suc f) depth d (c ∷ s) =
      let more = bind (bdecode_recursive f (suc depth) (c ∷ s)) λ key r. elim (string_key key) [
        | none ↦ ok d r
        | some k ↦
            bind (bdecode_recursive f (suc depth) r)
              λ e r2. let next = decode_fields f depth (assign k e d) r2 in unless_end r2 next
      ] in
      if c == b'e' then ok d s else more

abbrev pub fuel_for : Bytes → ℕ
fuel_for s = 2 * length s + 1

abbrev pub result_of : Decoded Entry → Decoded Entry
result_of (failed r) = ok undefined r
result_of d = d

-- `bdecode(start, end, len)`: an error gives the undefined entry, and `len` is the part read.
unfoldable pub bdecode : Bytes → Decoded Entry
unfolding bdecode_recursive
bdecode s = result_of (bdecode_recursive (fuel_for s) 0 s)
