-- ===== src/Bencode.antt =====
-- include/avhttp/bencode.hpp and the values of include/avhttp/entry.hpp: the text of the meta file
-- that a download is resumed from. An integer is any whole number here, with its 64 bits as a
-- hypothesis of the theorems; an `int` that counts bytes is a natural number.
pub mod Decode
pub mod Encode
pub mod Access
use avhttp.Base.{
  ℕ, zero, suc, ◌+◌, ◌-◌, ◌*◌, ◌/◌, ◌%◌, ◌^◌, min, Bool, true, false, ◌&&◌, ◌||◌, Option, none,
  some, [], ◌∷◌, ◌++◌, leb, ltb, ◌==◌, if◌then◌else◌, Bytes, length,
}
use avhttp.Base.Int.{ℤ, pos, negsuc}
use avhttp.Escape.{is_digit}

-- `entry`; a dictionary is a `std::map`, so its fields stand in the order of their keys.
mutual
  pub data Entry : Type 0 where
    integer : ℤ → Entry
    string : Bytes → Entry
    list : Entries → Entry
    dictionary : Fields → Entry
    undefined : Entry

  pub data Entries : Type 0 where
    nil : Entries
    cons : Entry → Entries → Entries

  pub data Fields : Type 0 where
    end : Fields
    field : Bytes → Entry → Fields → Fields

-- `<` of two strings, by unsigned characters.
unfoldable pub key_lt : Bytes → Bytes → Bool
key_lt _ [] = false
key_lt [] (y ∷ ys) = true
key_lt (x ∷ xs) (y ∷ ys) = ltb x y || (x == y && key_lt xs ys)

-- `dict[key] = value`
unfoldable pub assign : Bytes → Entry → Fields → Fields
unfolding key_lt
assign k v end = field k v end
assign k v (field j w m) =
    let rest = assign k v m in
    if key_lt k j
    then field k v (field j w m)
    else if key_lt j k
    then field j w rest
    else field k v m

-- The loop of `integer_to_str`; `room` is `size - sign`.
unfoldable pub digits_loop : ℕ → ℕ → Bytes → Bytes
digits_loop zero val buf = buf
digits_loop (suc room) val buf =
    let rest = digits_loop room (val / 10) ((b'0' + val % 10) ∷ buf) in
    if val == 0 then buf else rest

-- In a buffer of 21 characters, the last of them the terminator.
unfoldable pub integer_to_str : ℤ → Bytes
integer_to_str (pos n) = if n == 0 then b'0' ∷ [] else digits_loop 20 n []
integer_to_str (negsuc n) = b'-' ∷ digits_loop 19 (suc n) []

-- The output so far, and the number of bytes written by this call.
abbrev pub Written : Type 0
Written = Bytes × ℕ

pub write_string : Bytes → Bytes → Written
write_string out val = (out ++ val, length val)

pub write_integer : Bytes → ℤ → Written
unfolding integer_to_str
write_integer out val = (out ++ integer_to_str val, length (integer_to_str val))

pub write_char : Bytes → ℕ → Bytes
write_char out c = out ++ c ∷ []

-- A length, a colon, and the string.
pub write_text : Bytes → Bytes → Written
unfolding write_string write_integer write_char
write_text out s =
    let (out1, n) = write_integer out (pos (length s)) in
    let (out2, m) = write_string (write_char out1 b':') s in (out2, n + m + 1)

mutual
  unfolding write_string write_integer write_char write_text

  pub bencode_recursive : Entry → Bytes → Written
  bencode_recursive (integer v) out =
      let (out1, n) = write_integer (write_char out b'i') v in (write_char out1 b'e', n + 2)
  bencode_recursive (string s) out = write_text out s
  bencode_recursive (list l) out =
      let (out1, n) = bencode_items l (write_char out b'l') in (write_char out1 b'e', n + 2)
  bencode_recursive (dictionary d) out =
      let (out1, n) = bencode_fields d (write_char out b'd') in (write_char out1 b'e', n + 2)
  bencode_recursive undefined out = (out, 0)

  pub bencode_items : Entries → Bytes → Written
  bencode_items nil out = (out, 0)
  bencode_items (cons e l) out =
      let (out1, n) = bencode_recursive e out in
      let (out2, m) = bencode_items l out1 in (out2, n + m)

  pub bencode_fields : Fields → Bytes → Written
  bencode_fields end out = (out, 0)
  bencode_fields (field k v d) out =
      let (out1, n) = write_text out k in
      let (out2, m) = bencode_recursive v out1 in
      let (out3, r) = bencode_fields d out2 in (out3, n + m + r)

pub bencode : Entry → Bytes
unfolding bencode_recursive
bencode e = (bencode_recursive e []).0
