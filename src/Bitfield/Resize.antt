-- ===== src/Bitfield/Resize.antt =====
-- `resize` and `assign` of include/avhttp/bitfield.hpp.
use avhttp.Base.{
  ℕ, zero, suc, ◌+◌, ◌-◌, ◌*◌, ◌/◌, ◌%◌, ◌<◌, ◌≤◌, Bool, true, false, not, ◌&&◌, ◌||◌, [], ◌∷◌, ◌≡◌,
  refl, sym, ap, ◌∙◌, arith, ltb, leb, ◌==◌, inl, inr, ◌⊎◌, Bool-cases, if◌then◌else◌, length, All,
}
use mathlib.Core.Path.{subst}
use avhttp.Base as Base
use avhttp.Bitfield.{
  Bitfield, byte_at, bit_of, get_bit, realloc, clear_trailing_bits, resize_only, fill_last,
  fill_bytes, resize, assign,
}
use avhttp.Bitfield.Bytes.{bit_of-zero}
use avhttp.Bitfield.Get.{AreBytes, IsValid}
use avhttp.Bitfield.Memory.{byte_at-realloc, length-realloc, realloc-AreBytes}
use avhttp.Bitfield.Trailing.{
  IsSized, get_bit-clear_trailing_bits, clear_trailing_bits-IsSized, size-clear_trailing_bits,
  clear_trailing_bits-IsValid, fill_last-IsSized, size-fill_last, get_bit-fill_last,
  fill_bytes-IsSized, size-fill_bytes, get_bit-fill_bytes, resize_only-IsSized,
}

module _ (junk : ℕ → ℕ) (bits : ℕ) (f : Bitfield) (v : IsValid f) where
  abbrev grown : Bitfield
  grown = record { m_bytes = realloc junk 0 ((bits + 7) / 8) f.m_bytes; m_size = bits }

  get_bit-grown : (i : ℕ) → i < bits → i / 8 < (f.m_size + 7) / 8 → get_bit i grown ≡ get_bit i f
  unfolding get_bit
  get_bit-grown i p q =
      let z = v.sized in
      let new : ltb (i / 8) ((bits + 7) / 8) ≡ true = ground arith in
      let old : ltb (i / 8) (length f.m_bytes) ≡ true = ground arith in
      rw (byte_at-realloc junk (i / 8) 0 ((bits + 7) / 8) f.m_bytes) (rw (new, old) refl)

  cut : Bitfield
  unfolding resize_only
  cut = resize_only junk bits f

  cut-IsValid : IsValid cut
  unfolding cut resize_only
  cut-IsValid = clear_trailing_bits-IsValid grown (resize_only-IsSized junk bits f v.bytes)

  cut-IsSized : IsSized cut
  cut-IsSized = record { sized = cut-IsValid.sized; bytes = cut-IsValid.bytes }

  size-cut : cut.m_size ≡ bits
  unfolding cut resize_only
  size-cut = size-clear_trailing_bits grown

  get_bit-cut : (i : ℕ) → get_bit i cut ≡ (ltb i bits && get_bit i grown)
  unfolding cut resize_only
  get_bit-cut i = get_bit-clear_trailing_bits i grown (resize_only-IsSized junk bits f v.bytes)

  -- The bits after `resize(bits, val)`: what was there, and behind it `val`.
  abbrev wanted : Bool → ℕ → Bool
  wanted val i = ltb i bits && (if ltb i f.m_size then get_bit i f else val)

  shorter : (val : Bool) (i : ℕ) → bits ≤ f.m_size → get_bit i cut ≡ wanted val i
  shorter val i h = elim (Bool-cases (ltb i bits)) [
    | inr e ↦ get_bit-cut i ∙ rw e refl
    | inl e ↦
        let below : ltb i f.m_size ≡ true = ground arith in
        get_bit-cut i ∙ rw (e, below) (get_bit-grown i (ground arith) (ground arith))
  ]

  with_zeros : (i : ℕ) → f.m_size < bits → get_bit i (fill_bytes f.m_size 0 cut) ≡ wanted false i
  with_zeros i h =
      let n = size-cut in
      get_bit-fill_bytes i f.m_size 0 cut cut-IsSized
      ∙ elim (Bool-cases (leb ((f.m_size + 7) / 8) (i / 8) && ltb (i / 8) ((cut.m_size + 7) / 8))) [
        | inl e ↦
            let past : ltb i f.m_size ≡ false = ground arith in
            rw (e, past) ((bit_of-zero (i % 8) (omega arith)).0 ∙ ground arith)
        | inr e ↦ rw e (
            get_bit-cut i ∙ elim (Bool-cases (ltb i bits)) [
              | inr past ↦ rw past refl
              | inl p ↦
                  let g = get_bit-grown i (ground arith) (ground arith) in
                  rw (p, g)
                    (elim (Bool-cases (ltb i f.m_size)) [
                      | inl q ↦ rw q refl
                      | inr q ↦ rw q (v.clean i (ground arith))
                    ])
            ])
      ]

  with_ones :
      (i : ℕ)
      → f.m_size < bits
      → get_bit i (clear_trailing_bits (fill_bytes f.m_size 255 (fill_last f.m_size cut)))
        ≡ wanted true i
  with_ones i h =
      let n = size-cut in
      let filled = fill_last f.m_size cut in
      let s = fill_last-IsSized f.m_size cut cut-IsSized in
      let whole = fill_bytes f.m_size 255 filled in
      let t = fill_bytes-IsSized f.m_size 255 filled (omega arith) s in
      let z = cut-IsSized.sized in
      let n1 = size-fill_last f.m_size cut in
      let n2 = size-fill_bytes f.m_size 255 filled in
      let at_bits : ltb i whole.m_size ≡ ltb i bits = ground arith in
      let l = get_bit-fill_last i f.m_size cut cut-IsSized.bytes (omega arith) in
      get_bit-clear_trailing_bits i whole t
      ∙ rw (at_bits, get_bit-fill_bytes i f.m_size 255 filled s)
          (elim (Bool-cases (ltb i bits)) [
            | inr past ↦ rw past refl
            | inl p ↦ rw p (elim (Bool-cases (ltb i f.m_size)) [
              | inl q ↦
                  let here : (leb ((f.m_size + 7) / 8) (i / 8)
                        && ltb (i / 8) ((filled.m_size + 7) / 8))
                      ≡ false =
                    ground arith in
                  let old : leb f.m_size i ≡ false = ground arith in
                  rw (here, q)
                    (l ∙ rw (old, get_bit-cut i, p) (get_bit-grown i (ground arith) (ground arith)))
              | inr q ↦ elim (Bool-cases (leb ((f.m_size + 7) / 8) (i / 8))) [
                | inl r ↦
                    let there : ltb (i / 8) ((filled.m_size + 7) / 8) ≡ true = ground arith in
                    rw (r, there, q) ((bit_of-zero (i % 8) (omega arith)).1)
                | inr r ↦
                    let a : leb f.m_size i ≡ true = ground arith in
                    let b : ltb (i / 8) ((f.m_size + 7) / 8) ≡ true = ground arith in
                    rw (r, q) (l ∙ rw (a, b) refl)
              ]
            ])
          ])

  abbrev Resized : Bool → Bitfield → Type 0
  Resized val g = IsValid g × (g.m_size ≡ bits) × ((i : ℕ) → get_bit i g ≡ wanted val i)

  resized :
      (val : Bool) (g : Bitfield)
      → IsSized g
      → g.m_size ≡ bits
      → ((i : ℕ) → get_bit i g ≡ wanted val i)
      → Resized val g
  resized val g w n h = (
    record {
      sized = w.sized;
      bytes = w.bytes;
      clean = λ i p. let past : ltb i bits ≡ false = ground arith in h i ∙ rw past refl;
    },
    n,
    h,
  )

  resize-eq :
      (val : Bool)
      → resize junk bits val f ≡ (
          if leb bits f.m_size
          then cut
          else if val
          then clear_trailing_bits (fill_bytes f.m_size 255 (fill_last f.m_size cut))
          else fill_bytes f.m_size 0 cut)
  unfolding resize cut
  resize-eq val =
      ap
        (λ n.
          if leb n f.m_size
          then resize_only junk bits f
          else if val
          then clear_trailing_bits
              (fill_bytes f.m_size 255 (fill_last f.m_size (resize_only junk bits f)))
          else fill_bytes f.m_size 0 (resize_only junk bits f))
        size-cut

  longer :
      (val : Bool)
      → f.m_size < bits
      → Resized val (
          if val
          then clear_trailing_bits (fill_bytes f.m_size 255 (fill_last f.m_size cut))
          else fill_bytes f.m_size 0 cut)
  longer true h =
      let filled = fill_last f.m_size cut in
      let whole = fill_bytes f.m_size 255 filled in
      let s = fill_last-IsSized f.m_size cut cut-IsSized in
      let t = fill_bytes-IsSized f.m_size 255 filled (omega arith) s in
      resized true (clear_trailing_bits whole) (clear_trailing_bits-IsSized whole t)
        (size-clear_trailing_bits whole
          ∙ size-fill_bytes f.m_size 255 filled
          ∙ size-fill_last f.m_size cut
          ∙ size-cut)
        (λ i. with_ones i h)
  longer false h =
      resized false (fill_bytes f.m_size 0 cut)
        (fill_bytes-IsSized f.m_size 0 cut (omega arith) cut-IsSized)
        (size-fill_bytes f.m_size 0 cut ∙ size-cut) (λ i. with_zeros i h)

  -- For any contents of the new memory, `resize(bits, val)` of a valid field is valid, of the new
  -- size, and its bits are those that were there, and behind them `val`.
  pub resize_lem : (val : Bool) → Resized val (resize junk bits val f)
  resize_lem val =
      subst (Resized val) (sym (resize-eq val)) (elim (Bool-cases (leb bits f.m_size)) [
        | inl e ↦ rw e (resized val cut cut-IsSized size-cut (λ i. shorter val i (ground arith)))
        | inr e ↦ rw e (longer val (ground arith))
      ])

-- `assign` of a text that is long enough: its bits, for any contents of the memory before.
pub assign_lem :
    (junk : ℕ → ℕ) (b : Base.Bytes) (bits : ℕ) (f : Bitfield)
    → AreBytes b
    → (bits + 7) / 8 ≤ length b
    → IsValid (assign junk b bits f)
      × ((assign junk b bits f).m_size ≡ bits)
      × ((i : ℕ)
          → get_bit i (assign junk b bits f) ≡ (ltb i bits && bit_of (byte_at (i / 8) b) (i % 8)))
unfolding assign resize_only
assign_lem junk b bits f h long =
    let n =
      size-clear_trailing_bits
        (record { m_bytes = realloc junk 0 ((bits + 7) / 8) f.m_bytes; m_size = bits }) in
    let filled : Bitfield = record (resize_only junk bits f) {
      m_bytes = realloc junk 0 ((bits + 7) / 8) b;
    } in
    let s : IsSized filled = record {
      sized = length-realloc junk 0 ((bits + 7) / 8) b ∙ rw n refl;
      bytes = realloc-AreBytes junk 0 ((bits + 7) / 8) b h;
    } in
    (
      clear_trailing_bits-IsValid filled s,
      size-clear_trailing_bits filled ∙ n,
      λ i. get_bit-clear_trailing_bits i filled s ∙ rw n (same_bit i (Bool-cases (ltb i bits))),
    )
  where
    same_bit :
        (i : ℕ)
        → (ltb i bits ≡ true) ⊎ (ltb i bits ≡ false)
        → (ltb i bits
            && get_bit i (record { m_bytes = realloc junk 0 ((bits + 7) / 8) b; m_size = bits }))
          ≡ (ltb i bits && bit_of (byte_at (i / 8) b) (i % 8))
    same_bit i (inr e) = rw e refl
    same_bit i (inl e) =
        let new : ltb (i / 8) ((bits + 7) / 8) ≡ true = ground arith in
        let old : ltb (i / 8) (length b) ≡ true = ground arith in
        rw e (
          unfold get_bit in
          rw (byte_at-realloc junk (i / 8) 0 ((bits + 7) / 8) b) (rw (new, old) refl))
