-- ===== src/Rangefield/Pieces/FromBits.antt =====
-- `bitfield_to_range` of include/avhttp/rangefield.hpp: the set bits of a field, as ranges.
use avhttp.Base.{
  ℕ, suc, ◌+◌, ◌*◌, ◌^◌, ◌≤◌, ◌<◌, min, Bool, true, false, ◌&&◌, ◌||◌, Option, some, List, [], ◌∷◌,
  ◌++◌, ◌≡◌, refl, ◌∙◌, inl, arith, ltb, length,
}
use avhttp.Rangefield.{RangeMap, assign, Rangefield}
use avhttp.Rangefield.Cover.{
  inside, covered, Ascending, IsOrdered, Within, Below, Below-mono, Below-snoc, IsValid,
}
use avhttp.Rangefield.Pieces.{times, Run, bit_step, bit_loop, last_run, bitfield_to_range}

-- Position `x` is in a piece whose bit is set, the first piece beginning at `l`.
unfoldable pub in_piece : ℕ → ℕ → List Bool → ℕ → Bool
in_piece piece_size l [] x = false
in_piece piece_size l (bit ∷ bf) x =
    (bit && inside l (l + piece_size) x) || in_piece piece_size (l + piece_size) bf x

assign_last : (k v : ℕ) (m : RangeMap) → Below k m → assign k v m ≡ m ++ (k, v) ∷ []
unfolding assign
assign_last k v [] h = refl
assign_last k v ((j, w) ∷ m) h = ground (arith, assign_last k v m h.1)

covered-snoc :
    (k v x : ℕ) (m : RangeMap) → covered (m ++ (k, v) ∷ []) x ≡ covered m x || inside k v x
unfolding covered
covered-snoc k v x [] = ground arith
covered-snoc k v x ((l, r) ∷ m) = ground (arith, covered-snoc k v x m)

Ascending-snoc :
    (lo k v : ℕ) (m : RangeMap)
    → lo ≤ k
    → k < v
    → Below k m
    → Ascending lo m
    → Ascending lo (m ++ (k, v) ∷ [])
Ascending-snoc lo k v [] p q b h = (p, q, tt)
Ascending-snoc lo k v ((l, r) ∷ m) p q b h =
    (h.0, h.1, Ascending-snoc (l + 1) k v m (omega arith) q b.1 h.2)

Within-snoc :
    (size k v : ℕ) (m : RangeMap) → v ≤ size → Within size m → Within size (m ++ (k, v) ∷ [])
Within-snoc size k v [] p h = (p, tt)
Within-snoc size k v ((l, r) ∷ m) p h = (h.0, Within-snoc size k v m p h.1)

module _ (size piece_size : ℕ) (some_size : 0 < piece_size) where
  -- Every piece begins inside the field, and where an `int` can say.
  abbrev Starts : ℕ → List Bool → Type 0
  Starts l [] = Unit
  Starts l (bit ∷ bf) = (l < size) × (l < 2 ^ 31) × Starts (l + piece_size) bf

  -- The map in front of `l`, with the run from `a` on that is not closed yet.
  abbrev Good : Bool → ℕ → ℕ → ℕ → RangeMap → Type 0
  Good true l a r m = (a < size) × (a < r) × (r ≡ l) × Below a m
  Good false l a r m = Below l m

  record Read (start : Option (Run × RangeMap)) (spec : ℕ → Bool) : Type 0 where
    out : Run × RangeMap
    ends : start ≡ some out
    ordered : Ascending 0 (last_run size out)
    within : Within size (last_run size out)
    covers : (x : ℕ) → covered (last_run size out) x ≡ spec x

  -- What is covered in the end.
  abbrev spec : Bool → ℕ → ℕ → ℕ → RangeMap → List Bool → ℕ → Bool
  spec rec l a r m bf x =
      covered m x || (((rec && inside a r x) || in_piece piece_size l bf x) && ltb x size)

  abbrev run_at : Bool → ℕ → ℕ → Run
  run_at rec a r = record { left = a; right = r; left_record = rec }

  closed-Ascending :
      (a r : ℕ) (m : RangeMap)
      → a < size
      → a < r
      → Below a m
      → Ascending 0 m
      → Ascending 0 (assign a (min r size) m)
  closed-Ascending a r m p q b h =
      rw (assign_last a (min r size) m b)
        (Ascending-snoc 0 a (min r size) m (omega arith) (omega arith) b h)

  closed-Within :
      (a r : ℕ) (m : RangeMap) → Below a m → Within size m → Within size (assign a (min r size) m)
  closed-Within a r m b h =
      rw (assign_last a (min r size) m b) (Within-snoc size a (min r size) m (omega arith) h)

  closed_covered :
      (a r x : ℕ) (m : RangeMap)
      → Below a m
      → covered (assign a (min r size) m) x ≡ covered m x || (inside a r x && ltb x size)
  closed_covered a r x m b =
      rw (assign_last a (min r size) m b, covered-snoc a (min r size) x m) (ground arith)

  closed-Below : (a r l : ℕ) (m : RangeMap) → a < l → Below a m → Below l (assign a (min r size) m)
  closed-Below a r l m p b = rw (assign_last a (min r size) m b) (Below-snoc a l (min r size) m p b)

  Read-along :
      {start : Option (Run × RangeMap)} {spec spec' : ℕ → Bool}
      → Read start spec
      → ((x : ℕ) → spec x ≡ spec' x)
      → Read start spec'
  Read-along d h = record {
    out = d.out;
    ends = d.ends;
    ordered = d.ordered;
    within = d.within;
    covers = λ x. d.covers x ∙ h x;
  }

  next_start : (i l : ℕ) → i * piece_size ≡ l → suc i * piece_size ≡ l + piece_size
  next_start i l e = grind arith

  times_fits : (i l : ℕ) → i * piece_size ≡ l → l < 2 ^ 31 → times i piece_size ≡ some l
  times_fits i l e h = rw e (ground arith)

  bit_loop_lem :
      (rec : Bool) (bf : List Bool) (i l a r : ℕ) (m : RangeMap)
      → i * piece_size ≡ l
      → Good rec l a r m
      → Ascending 0 m
      → Within size m
      → Starts l bf
      → Read (bit_loop size piece_size i (run_at rec a r) m bf) (spec rec l a r m bf)
  unfolding bit_loop bit_step in_piece
  bit_loop_lem false [] i l a r m e g o w s = record {
    out = (run_at false a r, m);
    ends = refl;
    ordered = o;
    within = w;
    covers = λ x. ground arith;
  }
  bit_loop_lem true [] i l a r m e g o w s = record {
    out = (run_at true a r, m);
    ends = refl;
    ordered = closed-Ascending a r m g.0 g.1 g.3 o;
    within = closed-Within a r m g.3 w;
    covers = λ x. rw (closed_covered a r x m g.3) (ground arith);
  }
  bit_loop_lem false (false ∷ bf) i l a r m e g o w s =
      bit_loop_lem false bf (suc i) (l + piece_size) a r m (next_start i l e)
        (Below-mono l (l + piece_size) m (omega arith) g) o w s.2
  bit_loop_lem false (true ∷ bf) i l a r m e g o w s = rw (times_fits i l e s.1) (
      bit_loop_lem true bf (suc i) (l + piece_size) l (l + piece_size) m (next_start i l e)
        (s.0, omega arith, refl, g) o w s.2)
  bit_loop_lem true (false ∷ bf) i l a r m e g o w s =
      let closed = assign a (min r size) m in
      Read-along
        (bit_loop_lem false bf (suc i) (l + piece_size) a (min r size) closed (next_start i l e)
          (closed-Below a r (l + piece_size) m (omega arith) g.3)
          (closed-Ascending a r m g.0 g.1 g.3 o) (closed-Within a r m g.3 w) s.2)
        (λ x. rw (closed_covered a r x m g.3) (ground arith))
  bit_loop_lem true (true ∷ bf) i l a r m e g o w s =
      Read-along
        (bit_loop_lem true bf (suc i) (l + piece_size) a (r + piece_size) m (next_start i l e)
          (g.0, omega arith, omega arith, g.3) o w s.2)
        (λ x. let p = g.1 in let q = g.2 in ground arith)

  more_pieces : (n : ℕ) → suc n * piece_size ≡ n * piece_size + piece_size
  more_pieces n = grind arith

  pieces-Starts :
      (bf : List Bool) (l : ℕ)
      → l + length bf * piece_size < size + piece_size
      → size ≤ 2 ^ 31
      → Starts l bf
  pieces-Starts [] l h k = tt
  pieces-Starts (bit ∷ bf) l h k =
      let e = more_pieces (length bf) in
      (omega arith, omega arith, pieces-Starts bf (l + piece_size) (omega arith) k)

Ascending-IsOrdered : (m : RangeMap) → Ascending 0 m → IsOrdered m
Ascending-IsOrdered [] h = tt
Ascending-IsOrdered ((l, r) ∷ m) h = (inl h.1, h.2)

-- A field whose last piece begins inside the file, of at most 2 ^ 31 bytes, is read without an
-- overflow. The ranges are valid, and they cover the positions in the file that are in a piece
-- whose bit is set, and no others.
pub bitfield_to_range_lem :
    (bf : List Bool) (piece_size : ℕ) (f : Rangefield)
    → 0 < piece_size
    → length bf * piece_size < f.size + piece_size
    → f.size ≤ 2 ^ 31
    → (g : Rangefield) × (bitfield_to_range bf piece_size f ≡ some g)
      × IsValid g
      × ((x : ℕ) → covered g.ranges x ≡ in_piece piece_size 0 bf x && ltb x f.size)
unfolding bitfield_to_range covered
bitfield_to_range_lem bf piece_size f p h k =
    let d =
      bit_loop_lem f.size piece_size p false bf 0 0 0 0 [] (omega arith) tt tt tt
        (pieces-Starts f.size piece_size p bf 0 (omega arith) k) in
    (
      record f { ranges = last_run f.size d.out; need_merge = true },
      rw d.ends refl,
      record {
        ordered = Ascending-IsOrdered (last_run f.size d.out) d.ordered;
        within = d.within;
        tidy_when = λ e. cc;
      },
      d.covers,
    )

pub bitfield_to_range-nil :
    (piece_size : ℕ) (f : Rangefield)
    → bitfield_to_range [] piece_size f ≡ some (record f { ranges = []; need_merge = true })
unfolding bitfield_to_range bit_loop
bitfield_to_range-nil piece_size f = refl
