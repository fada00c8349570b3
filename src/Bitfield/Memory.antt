-- ===== src/Bitfield/Memory.antt =====
-- The memory of the class of include/avhttp/bitfield.hpp: `realloc` and `memset` byte by byte.
use avhttp.Base.{
  ℕ, zero, suc, ◌+◌, ◌-◌, ◌*◌, ◌/◌, ◌%◌, ◌<◌, ◌≤◌, Bool, true, false, not, ◌&&◌, ◌||◌, [], ◌∷◌, ◌≡◌,
  refl, sym, ap, ◌∙◌, arith, ltb, leb, ◌==◌, inl, inr, ◌⊎◌, Bool-cases, if◌then◌else◌, length, All,
}
use avhttp.Base as Base
use avhttp.Bitfield.{byte_at, realloc, memset}
use avhttp.Bitfield.Get.{AreBytes}

pub byte_at-realloc :
    (junk : ℕ → ℕ) (i k n : ℕ) (s : Base.Bytes)
    → byte_at i (realloc junk k n s)
      ≡ (if ltb i n then (if ltb i (length s) then byte_at i s else junk (k + i) % 256) else 0)
unfolding byte_at realloc
byte_at-realloc junk i k zero s = ground arith
byte_at-realloc junk zero k (suc n) [] = let e : k + 0 ≡ k = omega arith in rw e (ground arith)
byte_at-realloc junk (suc i) k (suc n) [] =
    let e : suc k + i ≡ k + suc i = omega arith in
    byte_at-realloc junk i (suc k) n [] ∙ rw e (ground arith)
byte_at-realloc junk zero k (suc n) (b ∷ s) = ground arith
byte_at-realloc junk (suc i) k (suc n) (b ∷ s) =
    let e : suc k + i ≡ k + suc i = omega arith in
    byte_at-realloc junk i (suc k) n s ∙ rw e (ground arith)

pub length-realloc : (junk : ℕ → ℕ) (k n : ℕ) (s : Base.Bytes) → length (realloc junk k n s) ≡ n
unfolding realloc
length-realloc junk k zero s = refl
length-realloc junk k (suc n) [] = ap suc (length-realloc junk (suc k) n [])
length-realloc junk k (suc n) (b ∷ s) = ap suc (length-realloc junk (suc k) n s)

pub realloc-AreBytes :
    (junk : ℕ → ℕ) (k n : ℕ) (s : Base.Bytes) → AreBytes s → AreBytes (realloc junk k n s)
unfolding realloc
realloc-AreBytes junk k zero s h = tt
realloc-AreBytes junk k (suc n) [] h = (omega arith, realloc-AreBytes junk (suc k) n [] tt)
realloc-AreBytes junk k (suc n) (b ∷ s) h = (h.0, realloc-AreBytes junk (suc k) n s h.1)

pub byte_at-memset :
    (i k v n : ℕ) (s : Base.Bytes)
    → byte_at i (memset k v n s)
      ≡ (if (leb k i && ltb i (k + n)) && ltb i (length s) then v else byte_at i s)
unfolding byte_at memset
byte_at-memset i k v zero s = ground arith
byte_at-memset i k v (suc n) [] = ground arith
byte_at-memset zero zero v (suc n) (b ∷ s) = ground arith
byte_at-memset (suc i) zero v (suc n) (b ∷ s) = byte_at-memset i zero v n s ∙ ground arith
byte_at-memset zero (suc k) v (suc n) (b ∷ s) = ground arith
byte_at-memset (suc i) (suc k) v (suc n) (b ∷ s) = byte_at-memset i k v (suc n) s ∙ ground arith

pub length-memset : (k v n : ℕ) (s : Base.Bytes) → length (memset k v n s) ≡ length s
unfolding memset
length-memset k v zero s = refl
length-memset k v (suc n) [] = refl
length-memset zero v (suc n) (b ∷ s) = ap suc (length-memset zero v n s)
length-memset (suc k) v (suc n) (b ∷ s) = ap suc (length-memset k v (suc n) s)

pub memset-AreBytes :
    (k v n : ℕ) (s : Base.Bytes) → v < 256 → AreBytes s → AreBytes (memset k v n s)
unfolding memset
memset-AreBytes k v zero s p h = h
memset-AreBytes k v (suc n) [] p h = tt
memset-AreBytes zero v (suc n) (b ∷ s) p h = (p, memset-AreBytes zero v n s p h.1)
memset-AreBytes (suc k) v (suc n) (b ∷ s) p h = (h.0, memset-AreBytes k v (suc n) s p h.1)
