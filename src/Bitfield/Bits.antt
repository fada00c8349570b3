-- ===== src/Bitfield/Bits.antt =====
-- The abstract view of the class of include/avhttp/bitfield.hpp: the list of its bits.
use avhttp.Base.{
  ℕ, zero, suc, ◌+◌, ◌-◌, ◌<◌, ◌≤◌, Bool, true, false, ◌&&◌, ◌||◌, List, [], ◌∷◌, ◌≡◌, refl, sym,
  ap, ◌∙◌, arith, ltb, leb, ◌==◌, inl, inr, Bool-cases, if◌then◌else◌, length,
}
use avhttp.Bitfield.{Bitfield, byte_at, bit_of, get_bit, set_bit, resize, empty_bitfield}
use avhttp.Bitfield.Get.{IsValid, get_bit-set_bit, set_bit-IsValid}
use avhttp.Bitfield.Resize.{resize_lem}
use avhttp.Bitfield.Trailing.{get_bit_behind}

-- The values of `p` from `i` on, `n` of them.
unfoldable pub tabulate : (ℕ → Bool) → ℕ → ℕ → List Bool
tabulate p i zero = []
tabulate p i (suc n) = p i ∷ tabulate p (suc i) n

unfoldable pub to_bits : Bitfield → List Bool
unfolding tabulate
to_bits f = tabulate (λ i. get_bit i f) 0 f.m_size

-- The bit at an index, `false` behind the end.
abbrev pub nth : ℕ → List Bool → Bool
nth i [] = false
nth zero (b ∷ l) = b
nth (suc i) (b ∷ l) = nth i l

pub tabulate-ext :
    (p q : ℕ → Bool) (i n : ℕ)
    → ((j : ℕ) → i ≤ j → j < i + n → p j ≡ q j)
    → tabulate p i n ≡ tabulate q i n
unfolding tabulate
tabulate-ext p q i zero h = refl
tabulate-ext p q i (suc n) h =
    let e = h i (omega arith) (omega arith) in
    rw e (ap (λ l. q i ∷ l) (tabulate-ext p q (suc i) n (λ j u w. h j (omega arith) (omega arith))))

tabulate-shift : (p : ℕ → Bool) (i n : ℕ) → tabulate p (suc i) n ≡ tabulate (λ j. p (suc j)) i n
unfolding tabulate
tabulate-shift p i zero = refl
tabulate-shift p i (suc n) = ap (λ l. p (suc i) ∷ l) (tabulate-shift p (suc i) n)

pub tabulate-nth : (l : List Bool) → tabulate (λ i. nth i l) 0 (length l) ≡ l
unfolding tabulate
tabulate-nth [] = refl
tabulate-nth (b ∷ l) =
    ap (λ t. b ∷ t) (tabulate-shift (λ i. nth i (b ∷ l)) 0 (length l) ∙ tabulate-nth l)

nth_behind : (i : ℕ) (l : List Bool) → length l ≤ i → nth i l ≡ false
nth_behind i [] h = refl
nth_behind zero (b ∷ l) h = absurd (omega arith)
nth_behind (suc i) (b ∷ l) h = nth_behind i l (omega arith)

-- A field that has the bits of a list is that list.
pub to_bits-of_nth :
    (f : Bitfield) (l : List Bool)
    → f.m_size ≡ length l
    → ((i : ℕ) → i < length l → get_bit i f ≡ nth i l)
    → to_bits f ≡ l
unfolding to_bits
to_bits-of_nth f l n h =
    ap (λ m. tabulate (λ i. get_bit i f) 0 m) n
    ∙ tabulate-ext (λ i. get_bit i f) (λ i. nth i l) 0 (length l) (λ j u w. h j (omega arith))
    ∙ tabulate-nth l

-- `set_bit(i)` for each bit of the list, from the index `k` on.
pub store : ℕ → List Bool → Bitfield → Bitfield
store k [] f = f
store k (b ∷ l) f = store (suc k) l (if b then set_bit k f else f)

size-set_bit : (k : ℕ) (f : Bitfield) → (set_bit k f).m_size ≡ f.m_size
unfolding set_bit
size-set_bit k f = refl

store_shift :
    (k i : ℕ) (l : List Bool) (b old new : Bool)
    → new ≡ ((b && i == k) || old)
    → ((leb (suc k) i && nth (i - suc k) l) || new) ≡ ((leb k i && nth (i - k) (b ∷ l)) || old)
store_shift k i l b old new h = elim (Bool-cases (leb (suc k) i)) [
  | inl e ↦
      let s : i - k ≡ suc (i - suc k) = ground arith in
      let below : leb k i ≡ true = ground arith in
      let other : (i == k) ≡ false = ground arith in rw (e, below, s, h, other) (ground arith)
  | inr e ↦ elim (Bool-cases (i == k)) [
    | inl q ↦
        let s : i - k ≡ 0 = ground arith in
        let here : leb k i ≡ true = ground arith in rw (e, here, s, h, q) (ground arith)
    | inr q ↦ let past : leb k i ≡ false = ground arith in rw (e, past, h, q) (ground arith)
  ]
]

pub store_lem :
    (k : ℕ) (l : List Bool) (f : Bitfield)
    → IsValid f
    → k + length l ≤ f.m_size
    → IsValid (store k l f)
      × ((store k l f).m_size ≡ f.m_size)
      × ((i : ℕ) → get_bit i (store k l f) ≡ ((leb k i && nth (i - k) l) || get_bit i f))
unfolding store
store_lem k [] f v h = (v, refl, λ i. ground arith)
store_lem k (false ∷ l) f v h =
    let (w, n, g) = store_lem (suc k) l f v (omega arith) in
    (w, n, λ i. g i ∙ store_shift k i l false (get_bit i f) (get_bit i f) (ground arith))
store_lem k (true ∷ l) f v h =
    let s = size-set_bit k f in
    let (w, n, g) =
      store_lem (suc k) l (set_bit k f) (set_bit-IsValid k f v (omega arith)) (omega arith) in
    (
      w,
      n ∙ s,
      λ i.
          g i
          ∙ store_shift k i l true (get_bit i f) (get_bit i (set_bit k f))
              (get_bit-set_bit k f v (omega arith) i ∙ ground arith),
    )

-- The field with the bits of a list, as `range_to_bitfield` makes it.
unfoldable pub from_bits : (ℕ → ℕ) → List Bool → Bitfield
unfolding resize store empty_bitfield
from_bits junk l = store 0 l (resize junk (length l) false empty_bitfield)

empty_bitfield-IsValid : IsValid empty_bitfield
unfolding empty_bitfield get_bit bit_of byte_at
empty_bitfield-IsValid = record {
  sized = refl;
  bytes = tt;
  clean = λ i p. get_bit_behind i empty_bitfield (omega arith);
}

pub from_bits_lem :
    (junk : ℕ → ℕ) (l : List Bool)
    → IsValid (from_bits junk l)
      × ((from_bits junk l).m_size ≡ length l)
      × (to_bits (from_bits junk l) ≡ l)
unfolding from_bits
from_bits_lem junk l =
    let (v, n, g) = resize_lem junk (length l) empty_bitfield empty_bitfield-IsValid false in
    let fresh = resize junk (length l) false empty_bitfield in
    let (w, m, h) = store_lem 0 l fresh v (omega arith) in
    (w, m ∙ n, to_bits-of_nth (store 0 l fresh) l (m ∙ n) (λ i p. h i ∙ stored i p (g i)))
  where
    stored :
        (i : ℕ)
        → i < length l
        → get_bit i (resize junk (length l) false empty_bitfield) ≡ (
            ltb i (length l)
            && (if ltb i empty_bitfield.m_size then get_bit i empty_bitfield else false))
        → ((leb 0 i && nth (i - 0) l) || get_bit i (resize junk (length l) false empty_bitfield))
          ≡ nth i l
    stored i p e =
        let z : i - 0 ≡ i = omega arith in
        let below : ltb i (length l) ≡ true = ground arith in
        let none_there : ltb i empty_bitfield.m_size ≡ false =
          unfold empty_bitfield in ground arith in
        rw (e, below, none_there, z) (ground arith)

pub nth-tabulate : (p : ℕ → Bool) (j i n : ℕ) → nth j (tabulate p i n) ≡ (ltb j n && p (i + j))
unfolding tabulate
nth-tabulate p j i zero = ground arith
nth-tabulate p zero i (suc n) = let e : i + 0 ≡ i = omega arith in rw e (ground arith)
nth-tabulate p (suc j) i (suc n) =
    let e : suc i + j ≡ i + suc j = omega arith in nth-tabulate p j (suc i) n ∙ rw e (ground arith)

length-tabulate : (p : ℕ → Bool) (i n : ℕ) → length (tabulate p i n) ≡ n
unfolding tabulate
length-tabulate p i zero = refl
length-tabulate p i (suc n) = ap suc (length-tabulate p (suc i) n)

pub length-to_bits : (f : Bitfield) → length (to_bits f) ≡ f.m_size
unfolding to_bits
length-to_bits f = length-tabulate (λ i. get_bit i f) 0 f.m_size

pub nth-to_bits : (i : ℕ) (f : Bitfield) → IsValid f → nth i (to_bits f) ≡ get_bit i f
unfolding to_bits
nth-to_bits i f v =
    nth-tabulate (λ i. get_bit i f) i 0 f.m_size ∙ elim (Bool-cases (ltb i f.m_size)) [
      | inl e ↦ let z : 0 + i ≡ i = omega arith in rw (e, z) refl
      | inr e ↦ rw e (sym (v.clean i (ground arith)))
    ]
