-- ===== src/Bitfield.antt =====
-- The class `bitfield` of include/avhttp/bitfield.hpp: bits in bytes, the first bit of a byte the
-- highest. Memory that was just allocated holds what `junk` says; a read behind the end, which the
-- class never makes at an index below its size, is 0.
pub mod Bytes
pub mod Get
pub mod Memory
pub mod Trailing
pub mod Resize
pub mod Bits
pub mod Refine
pub mod Count
pub mod Walk
mod Tests
use Prim.Native.Nat.{bit_and, bit_or}
use avhttp.Base.{
  ℕ, zero, suc, ◌+◌, ◌-◌, ◌*◌, ◌/◌, ◌%◌, ◌^◌, Bool, true, false, not, ◌&&◌, ◌||◌, List, [], ◌∷◌,
  ltb, leb, ◌==◌, if◌then◌else◌, length,
}
use avhttp.Base as Base

pub record Bitfield : Type 0 where
  pub m_bytes : Base.Bytes
  pub m_size : ℕ

-- `m_bytes[k]`
unfoldable pub byte_at : ℕ → Base.Bytes → ℕ
byte_at k [] = 0
byte_at zero (b ∷ s) = b
byte_at (suc k) (b ∷ s) = byte_at k s

-- `m_bytes[k] = v`
unfoldable pub put_byte : ℕ → ℕ → Base.Bytes → Base.Bytes
put_byte k v [] = []
put_byte zero v (b ∷ s) = v ∷ s
put_byte (suc k) v (b ∷ s) = b ∷ put_byte k v s

-- `0x80 >> j`
abbrev pub mask : ℕ → ℕ
mask j = 128 / 2 ^ j

-- The expressions of `get_bit`, `set_bit`, `clear_bit`, `clear_trailing_bits` and `resize` on a byte.
pub bit_of : ℕ → ℕ → Bool
bit_of b j = not (bit_and b (mask j) == 0)

pub with_bit : ℕ → ℕ → ℕ
with_bit b j = bit_or b (mask j)

pub without_bit : ℕ → ℕ → ℕ
without_bit b j = bit_and b (255 - mask j)

pub keep_first : ℕ → ℕ → ℕ
keep_first b r = bit_and b ((255 * 2 ^ (8 - r)) % 256)

pub fill_from : ℕ → ℕ → ℕ
fill_from b r = bit_or b (255 / 2 ^ r)

pub get_bit : ℕ → Bitfield → Bool
unfolding bit_of byte_at
get_bit index f = bit_of (byte_at (index / 8) f.m_bytes) (index % 8)

pub set_bit : ℕ → Bitfield → Bitfield
unfolding with_bit byte_at put_byte
set_bit index f = record f {
  m_bytes = put_byte (index / 8) (with_bit (byte_at (index / 8) f.m_bytes) (index % 8)) f.m_bytes;
}

pub clear_bit : ℕ → Bitfield → Bitfield
unfolding without_bit byte_at put_byte
clear_bit index f = record f {
  m_bytes =
      put_byte (index / 8) (without_bit (byte_at (index / 8) f.m_bytes) (index % 8)) f.m_bytes;
}

pub bytes_size : Bitfield → ℕ
bytes_size f = f.m_size / 8 + (if f.m_size % 8 == 0 then 0 else 1)

pub clear_trailing_bits : Bitfield → Bitfield
unfolding keep_first byte_at put_byte
clear_trailing_bits f =
    let last = (f.m_size + 7) / 8 - 1 in
    if f.m_size % 8 == 0 then f else record f {
      m_bytes = put_byte last (keep_first (byte_at last f.m_bytes) (f.m_size % 8)) f.m_bytes;
    }

-- `realloc` or `malloc`: so many bytes, new ones from the index `k` on with unknown values.
pub realloc : (ℕ → ℕ) → ℕ → ℕ → Base.Bytes → Base.Bytes
realloc junk k zero s = []
realloc junk k (suc n) [] = junk k % 256 ∷ realloc junk (suc k) n []
realloc junk k (suc n) (b ∷ s) = b ∷ realloc junk (suc k) n s

-- `std::memset` from the byte `k` on, for `n` bytes.
pub memset : ℕ → ℕ → ℕ → Base.Bytes → Base.Bytes
memset k v zero s = s
memset k v (suc n) [] = []
memset zero v (suc n) (b ∷ s) = v ∷ memset zero v n s
memset (suc k) v (suc n) (b ∷ s) = b ∷ memset k v (suc n) s

-- `resize(bits)`
pub resize_only : (ℕ → ℕ) → ℕ → Bitfield → Bitfield
unfolding clear_trailing_bits realloc
resize_only junk bits f =
    clear_trailing_bits
      (record { m_bytes = realloc junk 0 ((bits + 7) / 8) f.m_bytes; m_size = bits })

-- The bits behind the old size `s`, in the last byte that it had.
pub fill_last : ℕ → Bitfield → Bitfield
unfolding fill_from byte_at put_byte
fill_last s f =
    let last = (s + 7) / 8 - 1 in
    if not ((s + 7) / 8 == 0) && not (s % 8 == 0)
    then record f { m_bytes = put_byte last (fill_from (byte_at last f.m_bytes) (s % 8)) f.m_bytes }
    else f

-- The bytes behind those of the old size.
pub fill_bytes : ℕ → ℕ → Bitfield → Bitfield
unfolding memset
fill_bytes s v f =
    let old_size_bytes = (s + 7) / 8 in
    let new_size_bytes = (f.m_size + 7) / 8 in
    if ltb old_size_bytes new_size_bytes
    then record f { m_bytes = memset old_size_bytes v (new_size_bytes - old_size_bytes) f.m_bytes }
    else f

-- `resize(bits, val)`
pub resize : (ℕ → ℕ) → ℕ → Bool → Bitfield → Bitfield
unfolding resize_only fill_last fill_bytes clear_trailing_bits
resize junk bits val f =
    let g = resize_only junk bits f in
    if leb g.m_size f.m_size
    then g
    else if val
    then clear_trailing_bits (fill_bytes f.m_size 255 (fill_last f.m_size g))
    else fill_bytes f.m_size 0 g

pub empty_bitfield : Bitfield
empty_bitfield = record { m_bytes = []; m_size = 0 }

-- `assign(b, bits)`: `memcpy` of as many bytes as `b` has to give.
pub assign : (ℕ → ℕ) → Base.Bytes → ℕ → Bitfield → Bitfield
unfolding resize_only realloc clear_trailing_bits
assign junk b bits f =
    clear_trailing_bits
      (record (resize_only junk bits f) { m_bytes = realloc junk 0 ((bits + 7) / 8) b })

pub set_all : Bitfield → Bitfield
unfolding memset clear_trailing_bits
set_all f = clear_trailing_bits (record f { m_bytes = memset 0 255 ((f.m_size + 7) / 8) f.m_bytes })

pub clear_all : Bitfield → Bitfield
unfolding memset
clear_all f = record f { m_bytes = memset 0 0 ((f.m_size + 7) / 8) f.m_bytes }

-- `num_bits[x]`, of a half byte.
pub num_bits : ℕ → ℕ
num_bits x = x % 2 + (x / 2) % 2 + (x / 4) % 2 + (x / 8) % 2

-- The loop over the whole bytes, from byte `i` on.
pub count_bytes : ℕ → ℕ → Base.Bytes → ℕ
unfolding num_bits byte_at
count_bytes i zero s = 0
count_bytes i (suc n) s =
    (num_bits (bit_and (byte_at i s) 15) + num_bits (byte_at i s / 16)) + count_bytes (suc i) n s

-- The loop over the bits of the last byte, from bit `i` on.
pub count_rest : ℕ → ℕ → ℕ → ℕ
count_rest i zero b = 0
count_rest i (suc n) b = bit_and (b / 2 ^ (7 - i)) 1 + count_rest (suc i) n b

pub count : Bitfield → ℕ
unfolding count_bytes count_rest byte_at
count f =
    let num_bytes = f.m_size / 8 in
    let rest = f.m_size - num_bytes * 8 in
    count_bytes 0 num_bytes f.m_bytes + count_rest 0 rest (byte_at num_bytes f.m_bytes)

-- `const_iterator`: the byte, and the mask of the bit.
pub record Iterator : Type 0 where
  pub byte : ℕ
  pub bit : ℕ

pub begin : Iterator
begin = record { byte = 0; bit = 128 }

pub end : Bitfield → Iterator
end f = record { byte = f.m_size / 8; bit = mask (f.m_size % 8) }

pub inc : Iterator → Iterator
inc i = if i.bit == 1 then record { byte = i.byte + 1; bit = 128 } else record i { bit = i.bit / 2 }

pub dec : Iterator → Iterator
dec i = if i.bit == 128 then record { byte = i.byte - 1; bit = 1 } else record i { bit = i.bit * 2 }

pub deref : Bitfield → Iterator → Bool
unfolding byte_at
deref f i = not (bit_and (byte_at i.byte f.m_bytes) i.bit == 0)

abbrev pub same : Iterator → Iterator → Bool
same i j = i.byte == j.byte && i.bit == j.bit

-- `for (i = begin(); i != end(); i++)`, for so many rounds: the bits that the loop sees.
pub walk : ℕ → Bitfield → Iterator → List Bool
unfolding inc deref end
walk zero f i = []
walk (suc rounds) f i =
    let more = deref f i ∷ walk rounds f (inc i) in if same i (end f) then [] else more
