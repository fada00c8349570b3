-- ===== src/Bencode/Decode/Tests.antt =====
-- Runs of include/avhttp/bencode.hpp, and each theorem at an input.
use avhttp.Base.{suc, ◌≤◌, [], ◌∷◌, ◌++◌, ◌≡◌, ◌≢◌, refl, arith, codes}
use avhttp.Base.Int.{pos, negsuc}
use avhttp.Bencode.Decode.BadKey.{bdecode_bad_key}
use avhttp.Bencode.Decode.RoundTrip.{bdecode-bencode}
use avhttp.Bencode.Decode.Steps.{IsCanonical, height}
use avhttp.Bencode.Decode.Total.{bdecode-ne-out_of_fuel}
use avhttp.Bencode.Decode.{
  ok, fault, out_of_fuel, bdecode, decode_string, decode_integer, read_until, read_string,
}
use avhttp.CStdlib.{leading, digits_value, strtoll, atoi}
use avhttp.Bencode.Encode.{encoding}
use avhttp.Bencode.{
  Entry, integer, string, list, dictionary, undefined, nil, cons, end, field, bencode,
  integer_to_str, digits_loop, key_lt, assign,
}
use avhttp.Escape.{is_digit}

abbrev sample : Entry
sample = dictionary (
    field (codes "len") (integer (negsuc 11))
      (field (codes "list") (list (cons (string (codes "ab")) (cons (integer (pos 0)) nil))) end))

bencode_runs : bencode sample ≡ codes "d3:leni-12e4:listl2:abi0eee"
unfolding bencode integer_to_str digits_loop
bencode_runs = refl

bdecode_runs :
    (bdecode (codes "d3:leni-12e4:listl2:abi0eee") ≡ ok sample [])
    × (bdecode (codes "i12") ≡ ok undefined [])
    × (bdecode (codes "i x7ye") ≡ ok undefined [])
    × (bdecode (codes "i 7ye") ≡ ok (integer (pos 7)) [])
    × (bdecode (codes "l") ≡ fault)
    × (bdecode (codes "di1ei2ee") ≡ ok (dictionary end) (codes "i2ee"))
unfolding bdecode leading digits_value decode_string decode_integer strtoll read_until read_string
    atoi is_digit assign
bdecode_runs = (refl, refl, refl, refl, refl, refl)

sample-IsCanonical : IsCanonical sample
unfolding IsCanonical key_lt
sample-IsCanonical =
    (omega arith, omega arith, (refl, tt), (omega arith, (omega arith, (omega arith, tt)), tt, tt))

sample-height : height sample ≤ 100
unfolding height
sample-height = omega arith

bdecode-bencode_example : bdecode (bencode sample) ≡ ok sample []
bdecode-bencode_example = bdecode-bencode sample sample-IsCanonical sample-height

bdecode-ne-out_of_fuel_example : bdecode (codes "lll") ≢ out_of_fuel
bdecode-ne-out_of_fuel_example = bdecode-ne-out_of_fuel (codes "lll")

bad_key-IsCanonical : IsCanonical (integer (pos 1))
unfolding IsCanonical
bad_key-IsCanonical = omega arith

bad_key-height : suc (height (integer (pos 1))) ≤ 100
unfolding height
bad_key-height = omega arith

bdecode_bad_key_example :
    bdecode (b'd' ∷ (encoding (integer (pos 1)) ++ codes "i2ee"))
    ≡ ok (dictionary end) (codes "i2ee")
bdecode_bad_key_example =
    bdecode_bad_key (integer (pos 1)) (codes "i2ee") bad_key-IsCanonical bad_key-height refl
