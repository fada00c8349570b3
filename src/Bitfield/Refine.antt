-- ===== src/Bitfield/Refine.antt =====
-- The operations of the class of include/avhttp/bitfield.hpp on its abstract view, the list of bits.
use avhttp.Base.{
  ℕ, zero, suc, ◌<◌, Bool, true, false, ◌&&◌, List, [], ◌∷◌, ◌≡◌, refl, sym, ap, ◌∙◌, arith, ltb,
  ◌==◌, inl, inr, Bool-cases, if◌then◌else◌, length,
}
use avhttp.Bitfield.{Bitfield, get_bit, set_bit, clear_bit, resize}
use avhttp.Bitfield.Bits.{to_bits, nth, to_bits-of_nth, length-to_bits, nth-to_bits}
use avhttp.Bitfield.Get.{IsValid, get_bit-set_bit, get_bit-clear_bit}
use avhttp.Bitfield.Resize.{resize_lem}
use avhttp.Rangefield.Pieces

-- A bit of a list put.
pub put : ℕ → Bool → List Bool → List Bool
put k b [] = []
put zero b (c ∷ l) = b ∷ l
put (suc k) b (c ∷ l) = c ∷ put k b l

nth-put :
    (i k : ℕ) (b : Bool) (l : List Bool)
    → nth i (put k b l) ≡ (if i == k && ltb k (length l) then b else nth i l)
unfolding put
nth-put i k b [] = ground arith
nth-put zero zero b (c ∷ l) = ground arith
nth-put zero (suc k) b (c ∷ l) = ground arith
nth-put (suc i) zero b (c ∷ l) = ground arith
nth-put (suc i) (suc k) b (c ∷ l) = nth-put i k b l ∙ ground arith

length-put : (k : ℕ) (b : Bool) (l : List Bool) → length (put k b l) ≡ length l
unfolding put
length-put k b [] = refl
length-put zero b (c ∷ l) = refl
length-put (suc k) b (c ∷ l) = ap suc (length-put k b l)

nth-resize : (i n : ℕ) (l : List Bool) → nth i (Pieces.resize n l) ≡ (ltb i n && nth i l)
unfolding Pieces.resize
nth-resize i zero l = ground arith
nth-resize zero (suc n) [] = ground arith
nth-resize (suc i) (suc n) [] = nth-resize i n [] ∙ ground arith
nth-resize zero (suc n) (b ∷ l) = ground arith
nth-resize (suc i) (suc n) (b ∷ l) = nth-resize i n l ∙ ground arith

length-resize : (n : ℕ) (l : List Bool) → length (Pieces.resize n l) ≡ n
unfolding Pieces.resize
length-resize zero l = refl
length-resize (suc n) [] = ap suc (length-resize n [])
length-resize (suc n) (b ∷ l) = ap suc (length-resize n l)

-- What the bytes of a field promise of its list of bits.
pub record Refines (junk : ℕ → ℕ) (f : Bitfield) : Type 0 where
  pub gets : (i : ℕ) → i < f.m_size → get_bit i f ≡ nth i (to_bits f)
  pub sets : (i : ℕ) → i < f.m_size → to_bits (set_bit i f) ≡ put i true (to_bits f)
  pub clears : (i : ℕ) → i < f.m_size → to_bits (clear_bit i f) ≡ put i false (to_bits f)
  pub resizes : (n : ℕ) → to_bits (resize junk n false f) ≡ Pieces.resize n (to_bits f)

changed_bits :
    (i : ℕ) (b : Bool) (f g : Bitfield)
    → IsValid f
    → i < f.m_size
    → g.m_size ≡ f.m_size
    → ((j : ℕ) → get_bit j g ≡ (if j == i then b else get_bit j f))
    → to_bits g ≡ put i b (to_bits f)
changed_bits i b f g v h n e =
    let l = length-to_bits f in
    to_bits-of_nth g (put i b (to_bits f)) (n ∙ sym l ∙ sym (length-put i b (to_bits f))) (λ j p.
      let inside : ltb i (length (to_bits f)) ≡ true = ground arith in
      e j ∙ sym (nth-put j i b (to_bits f) ∙ rw (inside, nth-to_bits j f v) (ground arith)))

-- A valid field refines the list of its bits: reading, setting and clearing a bit below the size, and
-- resizing with `false`, are the operations on the list, whatever new memory holds.
pub bitfield-Refines : (junk : ℕ → ℕ) (f : Bitfield) → IsValid f → Refines junk f
bitfield-Refines junk f v = record {
  gets = λ i h. sym (nth-to_bits i f v);
  sets = λ i h.
      changed_bits i true f (set_bit i f) v h (unfold set_bit in refl)
        (λ j. get_bit-set_bit i f v h j ∙ ground arith);
  clears = λ i h.
      changed_bits i false f (clear_bit i f) v h (unfold clear_bit in refl)
        (λ j. get_bit-clear_bit i f v h j ∙ ground arith);
  resizes = λ n.
      let (w, m, g) = resize_lem junk n f v false in
      to_bits-of_nth (resize junk n false f) (Pieces.resize n (to_bits f))
        (m ∙ sym (length-resize n (to_bits f)))
        (λ i p. g i ∙ sym (nth-resize i n (to_bits f) ∙ rw (nth-to_bits i f v) (inside_size n i)));
}
  where
    inside_size :
        (n i : ℕ)
        → (ltb i n && get_bit i f) ≡ (ltb i n && (if ltb i f.m_size then get_bit i f else false))
    inside_size n i = elim (Bool-cases (ltb i f.m_size)) [
      | inl e ↦ rw e refl
      | inr e ↦ rw (e, v.clean i (ground arith)) refl
    ]
