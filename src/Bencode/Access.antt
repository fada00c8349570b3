-- ===== src/Bencode/Access.antt =====
-- The accessors of include/avhttp/entry.hpp that do not take a constant entry: each gives the value,
-- and the entry behind the call; `none` is the exception for a wrong type.
use avhttp.Base.{Option, none, some, ◌>>=◌, [], Bytes, if◌then◌else◌}
use avhttp.Base.Int.{ℤ}
use avhttp.Bencode.{
  Entry, integer, string, dictionary, undefined, Fields, end, field, key_lt, assign,
}

-- `dict().find(key)`
unfoldable pub find_key : Bytes → Fields → Option Entry
unfolding key_lt
find_key k end = none
find_key k (field j v d) =
    let rest = find_key k d in if key_lt k j then none else if key_lt j k then rest else some v

-- `dict()`; the undefined entry becomes an empty dictionary.
abbrev pub dict : Entry → Option Fields
dict (dictionary d) = some d
dict undefined = some end
dict _ = none

-- `integer()` and `string()`; the undefined entry becomes an integer that nothing sets, which is what
-- the memory holds, and the empty string.
abbrev pub as_integer : ℤ → Entry → Option ℤ
as_integer memory (integer v) = some v
as_integer memory undefined = some memory
as_integer memory _ = none

abbrev pub as_string : Entry → Option Bytes
as_string (string s) = some s
as_string undefined = some []
as_string _ = none

-- `operator[](key)`, which inserts an undefined entry when the key is missing.
abbrev pub value_at : Bytes → Fields → Entry
value_at key d = elim (find_key key d) [ none ↦ undefined | some v ↦ v ]

-- `e[key].integer()`, with what the memory of a new entry holds.
unfoldable pub integer_at : (Bytes → ℤ) → Bytes → Entry → Option (Entry × ℤ)
unfolding find_key assign
integer_at memory key e = do
  d ← dict e
  v ← as_integer (memory key) (value_at key d)
  some (dictionary (assign key (integer v) d), v)

-- `e[key].string()`
unfoldable pub string_at : Bytes → Entry → Option (Entry × Bytes)
unfolding find_key assign
string_at key e = do
  d ← dict e
  s ← as_string (value_at key d)
  some (dictionary (assign key (string s) d), s)

-- `e[key] = v`
unfoldable pub set_at : Bytes → Entry → Entry → Option Entry
unfolding assign
set_at key v e = dict e >>= λ d. some (dictionary (assign key v d))
