-- ===== src/MultiDownload/PieceSize.antt =====
-- The piece size of `multi_download::default_piece_size` in include/avhttp/impl/multi_download.ipp.
use native.Mathlib.Nat.{mul_assoc}
use native.Mathlib.Omega.{pow_step}
use avhttp.Base.{
  sym, ap, ◌∙◌, ℕ, zero, suc, ◌*◌, ◌/◌, ◌≤◌, ◌<◌, ◌^◌, ◌≡◌, refl, ◌⊎◌, inl, inr, arith, ltb,
  Bool-cases,
}
use avhttp.MultiDownload.{size_loop, default_piece_size}

abbrev most : ℕ
most = 16 * 1024 * 1024

-- The size that the loop ends with when it begins at `i`.
pub record IsSize (piece_size i r : ℕ) : Type 0 where
  pub large : (piece_size ≤ r) ⊎ (r ≡ most)
  pub small : (r ≡ i) ⊎ (r < 2 * piece_size)
  pub from : i ≤ r
  pub top : r ≤ most

grow : (piece_size i r : ℕ) → i < piece_size → IsSize piece_size (i * 2) r → IsSize piece_size i r
grow piece_size i r h d = record {
  large = d.large;
  small = elim d.small [ inl e ↦ inr (omega arith) | inr l ↦ inr l ];
  from = let e = d.from in omega arith;
  top = d.top;
}

one_less : (rounds i : ℕ) → i * 2 ^ suc rounds ≡ most → i * 2 * 2 ^ rounds ≡ most
one_less rounds i h = mul_assoc i 2 (2 ^ rounds) ∙ ap (λ n. i * n) (sym (pow_step 2 rounds)) ∙ h

at_most : (rounds i : ℕ) → i * 2 ^ rounds ≡ most → i ≤ most
at_most zero i h = grind arith
at_most (suc rounds) i h = let e = at_most rounds (i * 2) (one_less rounds i h) in omega arith

-- So many rounds are enough that the last of them begins at 16 MiB.
size_loop-IsSize :
    (rounds piece_size i : ℕ)
    → i * 2 ^ rounds ≡ most
    → IsSize piece_size i (size_loop rounds piece_size i)
unfolding size_loop
size_loop-IsSize zero piece_size i h =
    let e : i ≡ most = grind arith in
    record { large = inr e; small = inl refl; from = omega arith; top = omega arith }
size_loop-IsSize (suc rounds) piece_size i h =
    let l = at_most (suc rounds) i h in
    let next = size_loop rounds piece_size (i * 2) in
    elim (Bool-cases (ltb i most)) [
      | inr big ↦
          rw big
            (record { large = inr (ground arith); small = inl refl; from = omega arith; top = l })
      | inl less ↦ rw less (elim (Bool-cases (ltb i piece_size)) [
        | inr enough ↦
            rw enough
              (record { large = inl (ground arith); small = inl refl; from = omega arith; top = l })
        | inl wanted ↦ rw wanted (
            grow piece_size i next (ground arith)
              (size_loop-IsSize rounds piece_size (i * 2) (one_less rounds i h)))
      ])
    ]

-- The piece size lies between 16 KiB and 16 MiB. It is at least the 2048th part of the file, unless
-- it is 16 MiB, and less than twice that part, unless it is 16 KiB.
pub default_piece_size-IsSize :
    (file_size : ℕ) → IsSize (file_size / 2048) (16 * 1024) (default_piece_size file_size)
unfolding default_piece_size
default_piece_size-IsSize file_size = size_loop-IsSize 10 (file_size / 2048) (16 * 1024) refl
