-- ===== src/Bitfield/Tests.antt =====
-- Runs of include/avhttp/bitfield.hpp, and its theorems at inputs.
use mathlib.Core.Path.{subst}
use avhttp.Base.{ℕ, ◌+◌, ◌*◌, true, false, [], ◌∷◌, ◌≡◌, refl}
use avhttp.Bitfield.{
  Bitfield, byte_at, put_byte, with_bit, set_bit, clear_bit, resize, resize_only,
  clear_trailing_bits, keep_first, fill_last, fill_from, fill_bytes, memset, realloc, bytes_size,
  assign, set_all, clear_all, count, begin, inc, dec, empty_bitfield,
}
use avhttp.Bitfield.Get.{IsValid}
use avhttp.Bitfield.Bits.{from_bits, from_bits_lem, to_bits}
use avhttp.Bitfield.Count.{ones, count-ones}
use avhttp.Bitfield.Refine.{Refines, bitfield-Refines}

abbrev junk_at : ℕ → ℕ
junk_at k = k * 37 + 90

-- 10 bits: 1100 0000 11.
abbrev ten_bits : Bitfield
ten_bits = record { m_bytes = 192 ∷ 192 ∷ []; m_size = 10 }

run_resize :
    (resize junk_at 18 true ten_bits ≡ record { m_bytes = 192 ∷ 255 ∷ 192 ∷ []; m_size = 18 })
    × (resize junk_at 18 false ten_bits ≡ record { m_bytes = 192 ∷ 192 ∷ 0 ∷ []; m_size = 18 })
    × (resize junk_at 9 true ten_bits ≡ record { m_bytes = 192 ∷ 128 ∷ []; m_size = 9 })
unfolding resize resize_only clear_trailing_bits keep_first byte_at put_byte realloc fill_last
    fill_from fill_bytes memset
run_resize = (refl, refl, refl)

run_bits :
    (set_bit 2 ten_bits ≡ record { m_bytes = 224 ∷ 192 ∷ []; m_size = 10 })
    × (clear_bit 9 ten_bits ≡ record { m_bytes = 192 ∷ 128 ∷ []; m_size = 10 })
    × (set_all ten_bits ≡ record { m_bytes = 255 ∷ 192 ∷ []; m_size = 10 })
    × (clear_all ten_bits ≡ record { m_bytes = 0 ∷ 0 ∷ []; m_size = 10 })
    × (assign junk_at (255 ∷ 255 ∷ []) 10 empty_bitfield
        ≡ record { m_bytes = 255 ∷ 192 ∷ []; m_size = 10 })
    × (bytes_size ten_bits ≡ 2)
    × (count ten_bits ≡ 4)
unfolding set_bit clear_bit set_all clear_all assign bytes_size count byte_at put_byte
    empty_bitfield
run_bits = (refl, refl, refl, refl, refl, refl, refl)

run_iterator : (inc (inc begin) ≡ record { byte = 0; bit = 32 }) × (dec (inc begin) ≡ begin)
unfolding inc dec begin
run_iterator = (refl, refl)

-- The same field, made bit by bit.
abbrev stored_bits : Bitfield
stored_bits =
    from_bits junk_at
      (true ∷ true ∷ false ∷ false ∷ false ∷ false ∷ false ∷ false ∷ true ∷ true ∷ [])

run_stored : stored_bits ≡ ten_bits
unfolding from_bits resize_only clear_trailing_bits keep_first byte_at put_byte realloc fill_bytes
    memset set_bit with_bit empty_bitfield
run_stored = refl

ten_bits-IsValid : IsValid ten_bits
ten_bits-IsValid =
    subst IsValid run_stored
      (from_bits_lem junk_at
        (true ∷ true ∷ false ∷ false ∷ false ∷ false ∷ false ∷ false ∷ true ∷ true ∷ [])).0

bitfield-Refines_example : Refines junk_at ten_bits
bitfield-Refines_example = bitfield-Refines junk_at ten_bits ten_bits-IsValid

count-ones_example : count ten_bits ≡ ones (to_bits ten_bits)
count-ones_example = count-ones ten_bits ten_bits-IsValid
