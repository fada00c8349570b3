-- ===== src/Bitfield/Walk.antt =====
-- The loop `for (i = begin(); i != end(); i++)` over a field of include/avhttp/bitfield.hpp.
use avhttp.Base.{
  ℕ, zero, suc, ◌+◌, ◌/◌, ◌%◌, ◌<◌, Bool, true, false, not, ◌&&◌, List, [], ◌∷◌, ◌≡◌, refl, sym, ap,
  ◌∙◌, arith, ltb, ◌==◌, inl, inr, Bool-cases, length, Bytes,
}
use avhttp.Bitfield.{
  Bitfield, mask, bit_of, get_bit, Iterator, begin, end, inc, deref, same, walk, assign,
  empty_bitfield, resize_only, clear_trailing_bits, realloc,
}
use avhttp.Bitfield.Bytes.{each_under, each_under_holds, same_test, equal_tests}
use avhttp.Bitfield.Bits.{
  tabulate, to_bits, from_bits, from_bits_lem, to_bits-of_nth, nth, nth-to_bits,
}
use avhttp.Bitfield.Resize.{assign_lem}

abbrev iterator_at : ℕ → Iterator
iterator_at i = record { byte = i / 8; bit = mask (i % 8) }

masks_table : each_under 8 (λ i. each_under 8 (λ j. same_test (mask i == mask j) (i == j))) ≡ true
unfolding each_under same_test
masks_table = refl

halves_table : each_under 7 (λ i. mask i / 2 == mask (suc i) && not (mask i == 1)) ≡ true
unfolding each_under
halves_table = refl

mask_eq : (i j : ℕ) → i < 8 → j < 8 → (mask i == mask j) ≡ (i == j)
mask_eq i j h k = equal_tests _ _ (each_under_holds 8 _ j (each_under_holds 8 _ i masks_table h) k)

same_index : (i j : ℕ) → same (iterator_at i) (iterator_at j) ≡ (i == j)
same_index i j = rw (mask_eq (i % 8) (j % 8) (omega arith) (omega arith)) (ground arith)

halves : (i : ℕ) → i < 7 → (mask i / 2 ≡ mask (suc i)) × ((mask i == 1) ≡ false)
halves i h =
    let both = each_under_holds 7 _ i halves_table h in (ground (arith, both), ground (arith, both))

inc_next : (i : ℕ) → inc (iterator_at i) ≡ iterator_at (suc i)
unfolding inc
inc_next i = elim (Bool-cases (i % 8 == 7)) [
  | inl e ↦
      let r : i % 8 ≡ 7 = ground arith in
      let d : i / 8 + 1 ≡ suc i / 8 = omega arith in
      let m : suc i % 8 ≡ 0 = omega arith in rw (r, d, m) refl
  | inr e ↦
      let low : i % 8 < 7 = ground arith in
      let d : suc i / 8 ≡ i / 8 = omega arith in
      let m : suc i % 8 ≡ suc (i % 8) = omega arith in
      let (half, inner) = halves (i % 8) low in rw (inner, d, m, half) refl
]

deref-at : (f : Bitfield) (i : ℕ) → deref f (iterator_at i) ≡ get_bit i f
unfolding deref get_bit bit_of
deref-at f i = refl

walk_from :
    (f : Bitfield) (n rounds i : ℕ)
    → i + n ≡ f.m_size
    → n < rounds
    → walk rounds f (iterator_at i) ≡ tabulate (λ j. get_bit j f) i n
unfolding walk tabulate end
walk_from f n zero i e h = absurd (omega arith)
walk_from f zero (suc rounds) i e h =
    let stop : (i == f.m_size) ≡ true = ground arith in rw (same_index i f.m_size, stop) refl
walk_from f (suc n) (suc rounds) i e h =
    let go : (i == f.m_size) ≡ false = ground arith in
    rw (same_index i f.m_size, go, deref-at f i, inc_next i)
      (ap (λ l. get_bit i f ∷ l) (walk_from f n rounds (suc i) (omega arith) (omega arith)))

-- The loop sees the bits in their order, and ends behind the last.
pub walk_lem : (rounds : ℕ) (f : Bitfield) → f.m_size < rounds → walk rounds f begin ≡ to_bits f
unfolding begin to_bits
walk_lem rounds f h = walk_from f f.m_size rounds 0 (omega arith) h

-- The bytes of a stored field, assigned to a new one and looped over, are the bits.
pub walk-assign :
    (junk again : ℕ → ℕ) (bits : List Bool)
    → let bf = assign again (from_bits junk bits).m_bytes (length bits) empty_bitfield in
      walk (bf.m_size + 1) bf begin ≡ bits
unfolding get_bit
walk-assign junk again bits =
    let (v, n, e) = from_bits_lem junk bits in
    let f = from_bits junk bits in
    let bf = assign again f.m_bytes (length bits) empty_bitfield in
    let (w, m, g) =
      assign_lem again f.m_bytes (length bits) empty_bitfield v.bytes
        (let z = v.sized in omega arith) in
    walk_lem (bf.m_size + 1) bf (omega arith)
    ∙ to_bits-of_nth bf bits m (λ i p.
      let inside : ltb i (length bits) ≡ true = ground arith in
      g i ∙ rw inside (sym (nth-to_bits i f v) ∙ ap (nth i) e))

-- A field of no bits has none to loop over.
pub walk-assign_none :
    (again : ℕ → ℕ) (b : Bytes)
    → let bf = assign again b 0 empty_bitfield in walk (bf.m_size + 1) bf begin ≡ []
unfolding assign resize_only clear_trailing_bits realloc begin walk end
walk-assign_none again b = refl
