-- ===== src/Bitfield/Count.antt =====
-- `count` of include/avhttp/bitfield.hpp against the bits one by one.
use avhttp.Base.{
  ℕ, zero, suc, ◌+◌, ◌-◌, ◌*◌, ◌/◌, ◌%◌, ◌<◌, ◌≤◌, Bool, List, [], ◌∷◌, ◌≡◌, refl, sym, ap, ◌∙◌,
  arith,
}
use avhttp.Bitfield.{Bitfield, byte_at, bit_of, get_bit, count_bytes, count_rest, count}
use avhttp.Bitfield.Bytes.{one_if, ones_in, num_bits_lem, rest_bit_lem}
use avhttp.Bitfield.Get.{AreBytes, byte_at-lt, IsValid}
use avhttp.Bitfield.Bits.{tabulate, to_bits}

-- The number of the set bits of a list.
pub ones : List Bool → ℕ
ones [] = 0
ones (b ∷ l) = one_if b + ones l

ones_from : (ℕ → Bool) → ℕ → ℕ → ℕ
ones_from p i zero = 0
ones_from p i (suc n) = one_if (p i) + ones_from p (suc i) n

ones-tabulate : (p : ℕ → Bool) (i n : ℕ) → ones (tabulate p i n) ≡ ones_from p i n
unfolding ones ones_from tabulate
ones-tabulate p i zero = refl
ones-tabulate p i (suc n) = ap (λ k. one_if (p i) + k) (ones-tabulate p (suc i) n)

ones_from-add :
    (p : ℕ → Bool) (i m n : ℕ) → ones_from p i (m + n) ≡ ones_from p i m + ones_from p (i + m) n
unfolding ones_from
ones_from-add p i zero n =
    let a : 0 + n ≡ n = omega arith in let b : i + 0 ≡ i = omega arith in rw (a, b) (omega arith)
ones_from-add p i (suc m) n =
    let a : suc m + n ≡ suc (m + n) = omega arith in
    let b : i + suc m ≡ suc i + m = omega arith in
    rw (a, b) (omega (arith, ones_from-add p (suc i) m n))

-- The bits of one byte.
ones_from-byte :
    (f : Bitfield) (k j n : ℕ)
    → j + n ≤ 8
    → ones_from (λ i. get_bit i f) (k * 8 + j) n ≡ ones_in (byte_at k f.m_bytes) j n
unfolding ones_from ones_in
ones_from-byte f k j zero h = refl
ones_from-byte f k j (suc n) h =
    let e : suc (k * 8 + j) ≡ k * 8 + suc j = omega arith in
    let d : (k * 8 + j) / 8 ≡ k = omega arith in
    let m : (k * 8 + j) % 8 ≡ j = omega arith in
    let b : get_bit (k * 8 + j) f ≡ bit_of (byte_at k f.m_bytes) j =
      unfold get_bit in rw (d, m) refl in
    rw (b, e)
      (ap (λ t. one_if (bit_of (byte_at k f.m_bytes) j) + t)
        (ones_from-byte f k (suc j) n (omega arith)))

count_bytes_lem :
    (f : Bitfield) (i n : ℕ)
    → AreBytes f.m_bytes
    → count_bytes i n f.m_bytes ≡ ones_from (λ j. get_bit j f) (i * 8) (n * 8)
unfolding count_bytes
count_bytes_lem f i zero h = unfold ones_from in refl
count_bytes_lem f i (suc n) h =
    let a : suc n * 8 ≡ 8 + n * 8 = omega arith in
    let b : i * 8 + 8 ≡ suc i * 8 = omega arith in
    let c : i * 8 + 0 ≡ i * 8 = omega arith in
    let byte = ones_from-byte f i 0 8 (omega arith) in
    rw
      (num_bits_lem (byte_at i f.m_bytes) (byte_at-lt i f.m_bytes h), count_bytes_lem f (suc i) n h)
      (rw (a, ones_from-add (λ j. get_bit j f) (i * 8) 8 (n * 8), b, ← byte, c) refl)

count_rest_lem : (b i n : ℕ) → b < 256 → i + n ≤ 8 → count_rest i n b ≡ ones_in b i n
unfolding count_rest ones_in
count_rest_lem b i zero h k = refl
count_rest_lem b i (suc n) h k =
    rw (rest_bit_lem b i h (omega arith), count_rest_lem b (suc i) n h (omega arith)) refl

-- For a valid field, `count`, which adds up a table's values for groups of four bits and then the
-- bits of the last byte, is the number of the set bits in the list of the field's bits.
pub count-ones : (f : Bitfield) → IsValid f → count f ≡ ones (to_bits f)
unfolding count to_bits
count-ones f v =
    let n = f.m_size / 8 in
    let r = f.m_size - n * 8 in
    let whole : n * 8 + r ≡ f.m_size = omega arith in
    let c : n * 8 + 0 ≡ n * 8 = omega arith in
    let z : 0 + n * 8 ≡ n * 8 = omega arith in
    let last = ones_from-byte f n 0 r (omega arith) in
    let p = λ (i : ℕ). get_bit i f in
    let split : ones_from p 0 (n * 8 + r) ≡ ones_from p 0 (n * 8) + ones_from p (n * 8) r =
      ones_from-add p 0 (n * 8) r ∙ ap (λ k. ones_from p 0 (n * 8) + ones_from p k r) z in
    let rest : count_rest 0 r (byte_at n f.m_bytes) ≡ ones_from p (n * 8) r =
      count_rest_lem (byte_at n f.m_bytes) 0 r (byte_at-lt n f.m_bytes v.bytes) (omega arith)
      ∙ sym last
      ∙ ap (λ k. ones_from p k r) c in
    ap (λ k. k + count_rest 0 r (byte_at n f.m_bytes)) (count_bytes_lem f 0 n v.bytes)
    ∙ ap (λ k. ones_from p 0 (n * 8) + k) rest
    ∙ sym split
    ∙ ap (ones_from p 0) whole
    ∙ sym (ones-tabulate p 0 f.m_size)
