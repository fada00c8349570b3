-- ===== src/Rangefield/Pieces/ToBits.antt =====
-- `range_to_bitfield` of include/avhttp/rangefield.hpp: no bit is set for a piece that is not there.
use avhttp.Base.{
  ℕ, zero, suc, ◌+◌, ◌*◌, ◌%◌, ◌==◌, ◌≤◌, ◌^◌, ◌<◌, min, Bool, true, false, ◌&&◌, ◌||◌, Option,
  some, List, [], ◌∷◌, ◌≡◌, refl, sym, ap, ◌∙◌, inl, inr, arith, length, Bool-cases,
}
use native.Mathlib.Nat.{mod-lt, div-add-mod}
use avhttp.Rangefield.{RangeMap, Rangefield}
use avhttp.Rangefield.Cover.{inside, covered, IsValid}
use avhttp.Rangefield.Merge.{tidy_lem}
use avhttp.Rangefield.Pieces.{
  times, resize, holds, piece_step, piece_loop, piece_num, range_to_bitfield,
}
use avhttp.Rangefield.Pieces.FromBits.{in_piece}

holds-covered :
    (l r x : ℕ) (m : RangeMap) → holds l r m ≡ true → inside l r x ≡ true → covered m x ≡ true
unfolding covered
holds-covered l r x [] h p = cc
holds-covered l r x ((a, b) ∷ m) h p = ground arith

piece_step-covered :
    (l r x : ℕ) (m : RangeMap)
    → (piece_step l r m).1 ≡ true
    → inside l r x ≡ true
    → covered m x ≡ true
unfolding piece_step covered
piece_step-covered l r x [] h p = cc
piece_step-covered l r x ((a, b) ∷ m) h p = ground (arith, holds-covered l r x m)

-- The iterator only goes forward.
piece_step-behind :
    (l r x : ℕ) (m : RangeMap) → covered (piece_step l r m).0 x ≡ true → covered m x ≡ true
unfolding piece_step covered
piece_step-behind l r x [] h = h
piece_step-behind l r x ((a, b) ∷ m) h = ground arith

both : (a b c : Bool) → (a && b) || c ≡ true → c ≡ false → (a ≡ true) × (b ≡ true)
both true true c h e = (refl, refl)
both true false c h e = cc
both false b c h e = cc

inside_end : (l r size x : ℕ) → inside l r x ≡ true → x < size → inside l (min r size) x ≡ true
inside_end l r size x h p = ground arith

module _ (size piece_size : ℕ) where
  record Found (l : ℕ) (it : RangeMap) (n : ℕ) (result : Option (List Bool)) : Type 0 where
    bits : List Bool
    ends : result ≡ some bits
    many : length bits ≡ n
    sound : (x : ℕ) → in_piece piece_size l bits x ≡ true → x < size → covered it x ≡ true

  times_fits : (i l : ℕ) → i * piece_size ≡ l → l < 2 ^ 31 → times i piece_size ≡ some l
  times_fits i l e h = rw e (ground arith)

  piece_loop_lem :
      (n i l : ℕ) (it : RangeMap)
      → i * piece_size ≡ l
      → l + n * piece_size < 2 ^ 31
      → Found l it n (piece_loop size piece_size i it (resize n []))
  unfolding piece_loop resize in_piece
  piece_loop_lem zero i l it e h = record {
    bits = [];
    ends = refl;
    many = refl;
    sound = λ x p q. cc;
  }
  piece_loop_lem (suc n) i l it e h =
      let r = min (l + piece_size) size in
      let step = piece_step l r it in
      let e2 : suc i * piece_size ≡ l + piece_size = grind arith in
      let h2 : l + piece_size + n * piece_size < 2 ^ 31 = grind arith in
      let d = piece_loop_lem n (suc i) (l + piece_size) step.0 e2 h2 in
      rw (times_fits i l e (omega arith), times_fits (suc i) (l + piece_size) e2 (omega arith))
        (rw d.ends (record {
          bits = step.1 ∷ d.bits;
          ends = refl;
          many = ap suc d.many;
          sound = λ x p q. elim (Bool-cases (in_piece piece_size (l + piece_size) d.bits x)) [
            | inl t ↦ piece_step-behind l r x it (d.sound x t q)
            | inr t ↦
                let b = both step.1 (inside l (l + piece_size) x) _ p t in
                piece_step-covered l r x it b.0 (inside_end l (l + piece_size) size x b.1 q)
          ];
        }))

-- With pieces of at least one byte, and their number times their size in 31 bits, the fresh
-- bitfield of a valid field has a bit for each piece, and each position in the file that is in a
-- piece whose bit is set is covered by the field.
pub range_to_bitfield_lem :
    (piece_size : ℕ) (f : Rangefield)
    → 0 < piece_size
    → IsValid f
    → piece_num f.size piece_size * piece_size < 2 ^ 31
    → (g : Rangefield) × (bits : List Bool) × (range_to_bitfield [] piece_size f ≡ some (g, bits))
      × (length bits ≡ piece_num f.size piece_size)
      × ((x : ℕ) → in_piece piece_size 0 bits x ≡ true → x < f.size → covered f.ranges x ≡ true)
unfolding range_to_bitfield
range_to_bitfield_lem piece_size f q v h =
    let some_piece : (piece_size == 0) ≡ false = ground arith in
    let (g, e, t) = tidy_lem f v in
    let d =
      piece_loop_lem f.size piece_size (piece_num f.size piece_size) 0 0 g.ranges (omega arith)
        (omega arith) in
    (
      g,
      d.bits,
      rw (some_piece, e) (rw d.ends refl),
      d.many,
      λ x p q. sym (t.same x) ∙ d.sound x p q,
    )

-- The pieces cover the file, and the last one begins inside it.
pub piece_num_lem :
    (size piece_size : ℕ)
    → 0 < piece_size
    → (size ≤ piece_num size piece_size * piece_size)
      × (piece_num size piece_size * piece_size < size + piece_size)
unfolding piece_num
piece_num_lem size piece_size h =
    let low = mod-lt size h in
    let sum = div-add-mod size piece_size in
    elim (Bool-cases (size % piece_size == 0)) [
      | inl e ↦ rw e (grind arith, grind arith)
      | inr e ↦ rw e (grind arith, grind arith)
    ]
