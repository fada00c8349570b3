-- ===== src/Bitfield/Trailing.antt =====
-- The steps of `resize` of include/avhttp/bitfield.hpp: the bits behind the size cleared, and the new
-- ones filled.
use avhttp.Base.{
  ℕ, zero, suc, ◌+◌, ◌-◌, ◌*◌, ◌/◌, ◌%◌, ◌<◌, ◌≤◌, Bool, true, false, not, ◌&&◌, ◌||◌, [], ◌∷◌, ◌≡◌,
  refl, sym, ap, ◌∙◌, arith, ltb, leb, ◌==◌, inl, inr, ◌⊎◌, Bool-cases, if◌then◌else◌, length, All,
}
use avhttp.Base as Base
use avhttp.Bitfield.{
  Bitfield, byte_at, put_byte, bit_of, keep_first, fill_from, get_bit, realloc, clear_trailing_bits,
  fill_last, fill_bytes,
}
use avhttp.Bitfield.Bytes.{keep_first_lem, fill_from_lem, bit_of-zero}
use avhttp.Bitfield.Get.{
  length-put_byte, AreBytes, byte_at-lt, put_byte-AreBytes, IsValid, get_bit-put_byte,
}
use avhttp.Bitfield.Memory.{
  length-realloc, realloc-AreBytes, byte_at-memset, length-memset, memset-AreBytes,
}

-- As many bytes as the size needs: what holds before the bits behind the size are cleared.
pub record IsSized (f : Bitfield) : Type 0 where
  pub sized : length f.m_bytes ≡ (f.m_size + 7) / 8
  pub bytes : AreBytes f.m_bytes

byte_at_behind : (k : ℕ) (s : Base.Bytes) → length s ≤ k → byte_at k s ≡ 0
unfolding byte_at
byte_at_behind k [] h = refl
byte_at_behind zero (b ∷ s) h = absurd (omega arith)
byte_at_behind (suc k) (b ∷ s) h = byte_at_behind k s (omega arith)

pub get_bit_behind : (i : ℕ) (f : Bitfield) → length f.m_bytes ≤ i / 8 → get_bit i f ≡ false
unfolding get_bit
get_bit_behind i f h = rw (byte_at_behind (i / 8) f.m_bytes h) (bit_of-zero (i % 8) (omega arith)).0

-- A change of the last byte, where the size is no multiple of 8.
last_byte :
    (i v : ℕ) (s : Base.Bytes) (size m : ℕ)
    → length s ≡ (size + 7) / 8
    → (size % 8 == 0) ≡ false
    → get_bit i (record { m_bytes = put_byte ((size + 7) / 8 - 1) v s; m_size = m })
      ≡ (if i / 8 == size / 8 then bit_of v (i % 8) else bit_of (byte_at (i / 8) s) (i % 8))
last_byte i v s size m h e =
    let k : (size + 7) / 8 - 1 ≡ size / 8 = ground arith in
    rw k (get_bit-put_byte i (size / 8) v s m (ground arith))

pub get_bit-clear_trailing_bits :
    (i : ℕ) (f : Bitfield)
    → IsSized f
    → get_bit i (clear_trailing_bits f) ≡ (ltb i f.m_size && get_bit i f)
unfolding clear_trailing_bits
get_bit-clear_trailing_bits i f v = elim (Bool-cases (f.m_size % 8 == 0)) [
  | inl e ↦ rw e (elim (Bool-cases (ltb i f.m_size)) [
    | inl l ↦ rw l refl
    | inr l ↦
        let z = v.sized in
        let past : length f.m_bytes ≤ i / 8 = ground arith in rw l (get_bit_behind i f past)
  ])
  | inr e ↦ rw e (
      last_byte i _ f.m_bytes f.m_size f.m_size v.sized e
      ∙ part e (Bool-cases (i / 8 == f.m_size / 8)))
]
  where
    last : ℕ
    last = byte_at ((f.m_size + 7) / 8 - 1) f.m_bytes

    part :
        (f.m_size % 8 == 0) ≡ false
        → ((i / 8 == f.m_size / 8) ≡ true) ⊎ ((i / 8 == f.m_size / 8) ≡ false)
        → (if i / 8 == f.m_size / 8
            then bit_of (keep_first last (f.m_size % 8)) (i % 8)
            else bit_of (byte_at (i / 8) f.m_bytes) (i % 8))
          ≡ (ltb i f.m_size && get_bit i f)
    part e (inl h) =
        let l =
          keep_first_lem last (f.m_size % 8) (i % 8) (byte_at-lt _ f.m_bytes v.bytes) (omega arith)
            (omega arith) in
        let k : (f.m_size + 7) / 8 - 1 ≡ i / 8 = ground arith in
        let t : ltb (i % 8) (f.m_size % 8) ≡ ltb i f.m_size = ground arith in
        rw h (l.0 ∙ rw t (unfold get_bit in rw k refl))
    part e (inr h) = elim (Bool-cases (ltb i f.m_size)) [
      | inl l ↦ rw (h, l) (unfold get_bit in refl)
      | inr l ↦
          let z = v.sized in
          let past : length f.m_bytes ≤ i / 8 = ground arith in
          rw (h, l) (unfold get_bit in get_bit_behind i f past)
    ]

pub clear_trailing_bits-IsSized : (f : Bitfield) → IsSized f → IsSized (clear_trailing_bits f)
unfolding clear_trailing_bits
clear_trailing_bits-IsSized f v = elim (Bool-cases (f.m_size % 8 == 0)) [
  | inl e ↦ rw e v
  | inr e ↦
      let last = (f.m_size + 7) / 8 - 1 in
      let b = byte_at-lt last f.m_bytes v.bytes in
      rw e (record {
        sized = length-put_byte last _ f.m_bytes ∙ v.sized;
        bytes =
            put_byte-AreBytes last _ f.m_bytes
              ((keep_first_lem (byte_at last f.m_bytes) (f.m_size % 8) 0 b (omega arith)
                (omega arith)).1)
              v.bytes;
      })
]

pub size-clear_trailing_bits : (f : Bitfield) → (clear_trailing_bits f).m_size ≡ f.m_size
unfolding clear_trailing_bits
size-clear_trailing_bits f = ground arith

pub clear_trailing_bits-IsValid : (f : Bitfield) → IsSized f → IsValid (clear_trailing_bits f)
clear_trailing_bits-IsValid f v =
    let w = clear_trailing_bits-IsSized f v in
    let e = size-clear_trailing_bits f in
    record {
      sized = w.sized;
      bytes = w.bytes;
      clean = λ i p.
          let past : ltb i f.m_size ≡ false = ground arith in
          get_bit-clear_trailing_bits i f v ∙ rw past refl;
    }

pub fill_last-IsSized : (s : ℕ) (f : Bitfield) → IsSized f → IsSized (fill_last s f)
unfolding fill_last
fill_last-IsSized s f v =
    let last = (s + 7) / 8 - 1 in
    let b = byte_at-lt last f.m_bytes v.bytes in
    elim (Bool-cases (not ((s + 7) / 8 == 0) && not (s % 8 == 0))) [
      | inl e ↦ rw e (record {
        sized = length-put_byte last _ f.m_bytes ∙ v.sized;
        bytes =
            put_byte-AreBytes last _ f.m_bytes
              ((fill_from_lem (byte_at last f.m_bytes) (s % 8) 0 b (omega arith) (omega arith)).1)
              v.bytes;
      })
      | inr e ↦ rw e v
    ]

pub size-fill_last : (s : ℕ) (f : Bitfield) → (fill_last s f).m_size ≡ f.m_size
unfolding fill_last
size-fill_last s f = ground arith

-- In the last byte of the old size, the bits behind it are set.
pub get_bit-fill_last :
    (i s : ℕ) (f : Bitfield)
    → AreBytes f.m_bytes
    → (s + 7) / 8 ≤ length f.m_bytes
    → get_bit i (fill_last s f) ≡ ((leb s i && ltb (i / 8) ((s + 7) / 8)) || get_bit i f)
unfolding fill_last
get_bit-fill_last i s f v h = elim (Bool-cases (not ((s + 7) / 8 == 0) && not (s % 8 == 0))) [
  | inr e ↦
      let out : (leb s i && ltb (i / 8) ((s + 7) / 8)) ≡ false = ground arith in rw (e, out) refl
  | inl e ↦ rw e (
      get_bit-put_byte i ((s + 7) / 8 - 1) _ f.m_bytes f.m_size (ground arith)
      ∙ part e (Bool-cases (i / 8 == (s + 7) / 8 - 1)))
]
  where
    last : ℕ
    last = byte_at ((s + 7) / 8 - 1) f.m_bytes

    part :
        (not ((s + 7) / 8 == 0) && not (s % 8 == 0)) ≡ true
        → ((i / 8 == (s + 7) / 8 - 1) ≡ true) ⊎ ((i / 8 == (s + 7) / 8 - 1) ≡ false)
        → (if i / 8 == (s + 7) / 8 - 1
            then bit_of (fill_from last (s % 8)) (i % 8)
            else bit_of (byte_at (i / 8) f.m_bytes) (i % 8))
          ≡ ((leb s i && ltb (i / 8) ((s + 7) / 8)) || get_bit i f)
    part e (inl k) =
        let l =
          fill_from_lem last (s % 8) (i % 8) (byte_at-lt _ f.m_bytes v) (omega arith)
            (omega arith) in
        let at : (s + 7) / 8 - 1 ≡ i / 8 = ground arith in
        let t : leb (s % 8) (i % 8) ≡ (leb s i && ltb (i / 8) ((s + 7) / 8)) = ground arith in
        rw k (l.0 ∙ rw t (unfold get_bit in rw at refl))
    part e (inr k) =
        let out : (leb s i && ltb (i / 8) ((s + 7) / 8)) ≡ false = ground arith in
        rw (k, out) (unfold get_bit in refl)

pub fill_bytes-IsSized : (s v : ℕ) (f : Bitfield) → v < 256 → IsSized f → IsSized (fill_bytes s v f)
unfolding fill_bytes
fill_bytes-IsSized s v f p w = elim (Bool-cases (ltb ((s + 7) / 8) ((f.m_size + 7) / 8))) [
  | inl e ↦ rw e (record {
    sized = length-memset ((s + 7) / 8) v _ f.m_bytes ∙ w.sized;
    bytes = memset-AreBytes ((s + 7) / 8) v _ f.m_bytes p w.bytes;
  })
  | inr e ↦ rw e w
]

pub size-fill_bytes : (s v : ℕ) (f : Bitfield) → (fill_bytes s v f).m_size ≡ f.m_size
unfolding fill_bytes
size-fill_bytes s v f = ground arith

pub get_bit-fill_bytes :
    (i s v : ℕ) (f : Bitfield)
    → IsSized f
    → get_bit i (fill_bytes s v f) ≡ (
        if leb ((s + 7) / 8) (i / 8) && ltb (i / 8) ((f.m_size + 7) / 8)
        then bit_of v (i % 8)
        else get_bit i f)
unfolding fill_bytes
get_bit-fill_bytes i s v f w = elim (Bool-cases (ltb ((s + 7) / 8) ((f.m_size + 7) / 8))) [
  | inl e ↦
      let z = w.sized in
      let m = byte_at-memset (i / 8) ((s + 7) / 8) v ((f.m_size + 7) / 8 - (s + 7) / 8) f.m_bytes in
      rw e (unfold get_bit in rw m (ground arith))
  | inr e ↦
      let out : (leb ((s + 7) / 8) (i / 8) && ltb (i / 8) ((f.m_size + 7) / 8)) ≡ false =
        ground arith in
      rw (e, out) refl
]

pub resize_only-IsSized :
    (junk : ℕ → ℕ) (bits : ℕ) (f : Bitfield)
    → AreBytes f.m_bytes
    → IsSized (record { m_bytes = realloc junk 0 ((bits + 7) / 8) f.m_bytes; m_size = bits })
resize_only-IsSized junk bits f h = record {
  sized = length-realloc junk 0 ((bits + 7) / 8) f.m_bytes;
  bytes = realloc-AreBytes junk 0 ((bits + 7) / 8) f.m_bytes h;
}
