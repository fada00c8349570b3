-- ===== src/Bitfield/Bytes.antt =====
-- The bits of one byte under the expressions of include/avhttp/bitfield.hpp, checked for each byte.
use avhttp.Base.{
  ℕ, zero, suc, ◌+◌, ◌-◌, ◌/◌, ◌^◌, ◌<◌, Bool, true, false, not, ◌&&◌, ◌||◌, ◌≡◌, ap, ◌∙◌, refl,
  arith, ltb, leb, ◌==◌, ==_iff, inl, inr, Bool-cases, if◌then◌else◌,
}
use avhttp.Bitfield.{bit_of, with_bit, without_bit, keep_first, fill_from, num_bits}
use Prim.Native.Nat.{bit_and}

-- A test passed by each number under a bound.
unfoldable pub each_under : ℕ → (ℕ → Bool) → Bool
each_under zero test = true
each_under (suc bound) test = each_under bound test && test bound

pub each_under_holds :
    (bound : ℕ) (test : ℕ → Bool) (k : ℕ) → each_under bound test ≡ true → k < bound → test k ≡ true
unfolding each_under
each_under_holds zero test k passed less = absurd (omega arith)
each_under_holds (suc bound) test k passed less =
    let (before, last) = both_passed (each_under bound test) (test bound) passed in
    elim (Bool-cases (k == bound)) [
      | inl e ↦ let q : k ≡ bound = ground arith in ap test q ∙ last
      | inr e ↦ each_under_holds bound test k before (ground arith)
    ]
  where
    both_passed : (a b : Bool) → (a && b) ≡ true → (a ≡ true) × (b ≡ true)
    both_passed a b h = (ground arith, ground arith)

-- Do two tests give the same?
unfoldable pub same_test : Bool → Bool → Bool
same_test x y = if x then y else not y

pub equal_tests : (x y : Bool) → same_test x y ≡ true → x ≡ y
unfolding same_test
equal_tests x y h = ground arith

-- A byte, and two numbers of bits.
abbrev table : (ℕ → ℕ → ℕ → Bool) → Bool
table p = each_under 256 (λ b. each_under 8 (λ j. each_under 8 (p b j)))

table_sound :
    (p : ℕ → ℕ → ℕ → Bool) (b j i : ℕ) → table p ≡ true → b < 256 → j < 8 → i < 8 → p b j i ≡ true
table_sound p b j i h u v w =
    each_under_holds 8 (p b j) i (each_under_holds 8 _ j (each_under_holds 256 _ b h u) v) w

with_bit-table :
    table (λ b j i.
      same_test (bit_of (with_bit b j) i) (i == j || bit_of b i) && ltb (with_bit b j) 256)
    ≡ true
unfolding each_under same_test bit_of with_bit
with_bit-table = refl

without_bit-table :
    table (λ b j i.
      same_test (bit_of (without_bit b j) i) (not (i == j) && bit_of b i)
      && ltb (without_bit b j) 256)
    ≡ true
unfolding each_under same_test bit_of without_bit
without_bit-table = refl

keep_first-table :
    table (λ b r i.
      same_test (bit_of (keep_first b r) i) (ltb i r && bit_of b i) && ltb (keep_first b r) 256)
    ≡ true
unfolding each_under same_test bit_of keep_first
keep_first-table = refl

fill_from-table :
    table (λ b r i.
      same_test (bit_of (fill_from b r) i) (leb r i || bit_of b i) && ltb (fill_from b r) 256)
    ≡ true
unfolding each_under same_test bit_of fill_from
fill_from-table = refl

both_true : (x y : Bool) → x && y ≡ true → (x ≡ true) × (y ≡ true)
both_true true true h = (refl, refl)
both_true true false h = cc
both_true false y h = cc

-- What a line of a table says.
line : (a b : Bool) (k : ℕ) → same_test a b && ltb k 256 ≡ true → (a ≡ b) × (k < 256)
line a b k h =
    let (x, y) = both_true (same_test a b) (ltb k 256) h in (equal_tests a b x, ground arith)

module _ (b j i : ℕ) (is_byte : b < 256) (at : j < 8) (other : i < 8) where
  pub with_bit_lem : (bit_of (with_bit b j) i ≡ (i == j || bit_of b i)) × (with_bit b j < 256)
  with_bit_lem = line _ _ _ (table_sound _ b j i with_bit-table is_byte at other)

  pub without_bit_lem :
      (bit_of (without_bit b j) i ≡ (not (i == j) && bit_of b i)) × (without_bit b j < 256)
  without_bit_lem = line _ _ _ (table_sound _ b j i without_bit-table is_byte at other)

  pub keep_first_lem :
      (bit_of (keep_first b j) i ≡ (ltb i j && bit_of b i)) × (keep_first b j < 256)
  keep_first_lem = line _ _ _ (table_sound _ b j i keep_first-table is_byte at other)

  pub fill_from_lem : (bit_of (fill_from b j) i ≡ (leb j i || bit_of b i)) × (fill_from b j < 256)
  fill_from_lem = line _ _ _ (table_sound _ b j i fill_from-table is_byte at other)

-- 1 for a bit that is set.
abbrev pub one_if : Bool → ℕ
one_if c = if c then 1 else 0

-- The set bits of a byte from the bit `i` on, `n` of them.
unfoldable pub ones_in : ℕ → ℕ → ℕ → ℕ
ones_in b i zero = 0
ones_in b i (suc n) = one_if (bit_of b i) + ones_in b (suc i) n

count_table :
    each_under 256 (λ b. num_bits (bit_and b 15) + num_bits (b / 16) == ones_in b 0 8) ≡ true
unfolding each_under num_bits ones_in bit_of
count_table = refl

pub num_bits_lem : (b : ℕ) → b < 256 → num_bits (bit_and b 15) + num_bits (b / 16) ≡ ones_in b 0 8
num_bits_lem b h = let e = each_under_holds 256 _ b count_table h in ground arith

rest_table :
    each_under 256 (λ b. each_under 8 (λ i. bit_and (b / 2 ^ (7 - i)) 1 == one_if (bit_of b i)))
    ≡ true
unfolding each_under bit_of
rest_table = refl

pub rest_bit_lem : (b i : ℕ) → b < 256 → i < 8 → bit_and (b / 2 ^ (7 - i)) 1 ≡ one_if (bit_of b i)
rest_bit_lem b i h k =
    let e = each_under_holds 8 _ i (each_under_holds 256 _ b rest_table h) k in (==_iff _ _).0 e

zero_table : each_under 8 (λ j. not (bit_of 0 j) && bit_of 255 j) ≡ true
unfolding each_under bit_of
zero_table = refl

pub bit_of-zero : (j : ℕ) → j < 8 → (bit_of 0 j ≡ false) × (bit_of 255 j ≡ true)
bit_of-zero j h =
    let (x, y) =
      both_true (not (bit_of 0 j)) (bit_of 255 j) (each_under_holds 8 _ j zero_table h) in
    (ground (arith, x), y)
