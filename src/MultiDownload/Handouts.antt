-- ===== src/MultiDownload/Handouts.antt =====
-- The calls of `allocate_range` of include/avhttp/impl/multi_download.ipp, one after the other: what
-- the streams of a download ask for.
use mathlib.Core.Path.{subst}
use avhttp.Base.{
  ℕ, suc, ◌*◌, ◌^◌, ◌≤◌, ◌<◌, max, Bool, true, false, List, [], ◌∷◌, ◌≡◌, ◌⊎◌, inl, inr, arith, ltb,
  All, Bool-cases,
}
use avhttp.Rangefield.{Rangefield}
use avhttp.Rangefield.Cover.{IsValid}
use avhttp.Rangefield.Space.{free}
use avhttp.MultiDownload.{allocated, allocate_range}
use avhttp.MultiDownload.Allocate.{Takes, IsAllocation, allocate_range_lem}

-- The ranges that calls hand out in their order, the first from the field `f`, and each next one from
-- the field that the call before it leaves, with any point to begin at.
abbrev pub Handouts : ℕ → ℕ → Rangefield → List (ℕ × ℕ) → Type 0
Handouts request_piece_num piece_size f [] = Unit
Handouts request_piece_num piece_size f ((left, last) ∷ rest) =
    (g : Rangefield) × (rounds : ℕ) × (point : ℕ) × (allocate_range (suc rounds) request_piece_num
        piece_size point f
      ≡ allocated g left last)
    × Handouts request_piece_num piece_size g rest

abbrev pub IsApart : ℕ × ℕ → ℕ × ℕ → Type 0
IsApart (left, last) (left', last') = (last < left') ⊎ (last' < left)

-- No two ranges have a position in common.
abbrev pub AllApart : List (ℕ × ℕ) → Type 0
AllApart [] = Unit
AllApart (r ∷ rest) = All (IsApart r) rest × AllApart rest

abbrev pub IsFree : Rangefield → ℕ × ℕ → Type 0
IsFree f (left, last) = (left ≤ last) × ((x : ℕ) → left ≤ x → x ≤ last → free f x ≡ true)

free_before :
    (f g : Rangefield) (left last x : ℕ) → Takes f g left last → free g x ≡ true → free f x ≡ true
free_before f g left last x t h = let cover = t.takes x in let size = t.same_size in ground arith

taken_not_free :
    (f g : Rangefield) (left last x : ℕ)
    → Takes f g left last
    → left ≤ x
    → x ≤ last
    → free g x ≡ false
taken_not_free f g left last x t p q = let cover = t.takes x in ground arith

not_both : (b : Bool) → b ≡ true → b ≡ false → ⊥
not_both b p q = cc

disjoint_from :
    (f g : Rangefield) (left last : ℕ)
    → Takes f g left last
    → (rs : List (ℕ × ℕ)) → All (IsFree g) rs
    → All (IsApart (left, last)) rs × All (IsFree f) rs
disjoint_from f g left last t [] h = (tt, tt)
disjoint_from f g left last t ((l, r) ∷ rs) ((order, free_in), h) =
    let (a, b) = disjoint_from f g left last t rs h in
    let first : IsFree f (l, r) = (order, λ x u w. free_before f g left last x t (free_in x u w)) in
    elim (Bool-cases (ltb last l)) [
      | inl p ↦ ((inl (ground arith), a), (first, b))
      | inr p ↦ elim (Bool-cases (ltb r left)) [
        | inl q ↦ ((inr (ground arith), a), (first, b))
        | inr q ↦
            let below : l ≤ last = ground arith in
            let above : left ≤ r = ground arith in
            let o = t.order in
            let y = taken_not_free f g left last (max left l) t (omega arith) (omega arith) in
            let z = free_in (max left l) (omega arith) (omega arith) in absurd (not_both _ z y)
      ]
    ]

disjoint_and_open :
    (request_piece_num piece_size : ℕ) (f : Rangefield) (rs : List (ℕ × ℕ))
    → 0 < request_piece_num * piece_size
    → request_piece_num * piece_size < 2 ^ 31
    → 0 < f.size
    → IsValid f
    → Handouts request_piece_num piece_size f rs
    → AllApart rs × All (IsFree f) rs
disjoint_and_open n s f [] p i z v h = (tt, tt)
disjoint_and_open n s f ((left, last) ∷ rest) p i z v (g, rounds, point, e, h) =
    let (t, _) =
      subst (IsAllocation (n * s) f) e
        (allocate_range_lem (suc rounds) n s point f (omega arith) p i z v) in
    let size : 0 < g.size = rw t.same_size z in
    let (apart, all_free) = disjoint_and_open n s g rest p i size t.valid h in
    let (a, b) = disjoint_from f g left last t rest all_free in
    ((a, apart), ((t.order, t.was_free), b))

-- However the calls of `allocate_range` follow one another, no two of the ranges that they hand out
-- have a position in common, if requests are of at least one byte and their size fits an `int`, and
-- the field is valid and of a size above 0 at the start.
pub Handouts-AllApart :
    (request_piece_num piece_size : ℕ) (f : Rangefield) (rs : List (ℕ × ℕ))
    → 0 < request_piece_num * piece_size
    → request_piece_num * piece_size < 2 ^ 31
    → 0 < f.size
    → IsValid f
    → Handouts request_piece_num piece_size f rs
    → AllApart rs
Handouts-AllApart n s f rs p i z v h = (disjoint_and_open n s f rs p i z v h).0
