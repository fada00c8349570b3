-- ===== src/Bitfield/Get.antt =====
-- `get_bit` of include/avhttp/bitfield.hpp after `set_bit` and `clear_bit`.
use avhttp.Base.{
  ℕ, zero, suc, ◌+◌, ◌-◌, ◌*◌, ◌/◌, ◌%◌, ◌<◌, ◌≤◌, Bool, true, false, not, ◌&&◌, ◌||◌, [], ◌∷◌, ◌≡◌,
  refl, sym, ap, ◌∙◌, arith, ltb, leb, ◌==◌, inl, inr, Bool-cases, if◌then◌else◌, length, All,
}
use avhttp.Base as Base
use avhttp.Bitfield.{
  Bitfield, byte_at, put_byte, bit_of, with_bit, without_bit, get_bit, set_bit, clear_bit,
}
use avhttp.Bitfield.Bytes.{with_bit_lem, without_bit_lem}

pub byte_at-put_byte :
    (i k v : ℕ) (s : Base.Bytes)
    → byte_at i (put_byte k v s) ≡ (if i == k && ltb k (length s) then v else byte_at i s)
unfolding byte_at put_byte
byte_at-put_byte i k v [] = ground arith
byte_at-put_byte zero zero v (b ∷ s) = ground arith
byte_at-put_byte zero (suc k) v (b ∷ s) = ground arith
byte_at-put_byte (suc i) zero v (b ∷ s) = ground arith
byte_at-put_byte (suc i) (suc k) v (b ∷ s) = ground (arith, byte_at-put_byte i k v s)

pub length-put_byte : (k v : ℕ) (s : Base.Bytes) → length (put_byte k v s) ≡ length s
unfolding put_byte
length-put_byte k v [] = refl
length-put_byte zero v (b ∷ s) = refl
length-put_byte (suc k) v (b ∷ s) = ap suc (length-put_byte k v s)

abbrev pub AreBytes : Base.Bytes → Type 0
AreBytes s = All (λ b. b < 256) s

pub byte_at-lt : (k : ℕ) (s : Base.Bytes) → AreBytes s → byte_at k s < 256
unfolding byte_at
byte_at-lt k [] h = omega arith
byte_at-lt zero (b ∷ s) h = h.0
byte_at-lt (suc k) (b ∷ s) h = byte_at-lt k s h.1

pub put_byte-AreBytes :
    (k v : ℕ) (s : Base.Bytes) → v < 256 → AreBytes s → AreBytes (put_byte k v s)
unfolding put_byte
put_byte-AreBytes k v [] p h = tt
put_byte-AreBytes zero v (b ∷ s) p h = (p, h.1)
put_byte-AreBytes (suc k) v (b ∷ s) p h = (h.0, put_byte-AreBytes k v s p h.1)

-- As many bytes as the size needs, each of them a byte, and no bit set behind the size.
pub record IsValid (f : Bitfield) : Type 0 where
  pub sized : length f.m_bytes ≡ (f.m_size + 7) / 8
  pub bytes : AreBytes f.m_bytes
  pub clean : (i : ℕ) → f.m_size ≤ i → get_bit i f ≡ false

-- What `get_bit` says when a byte has been put.
pub get_bit-put_byte :
    (i k v : ℕ) (s : Base.Bytes) (size : ℕ)
    → k < length s
    → get_bit i (record { m_bytes = put_byte k v s; m_size = size })
      ≡ (if i / 8 == k then bit_of v (i % 8) else bit_of (byte_at (i / 8) s) (i % 8))
unfolding get_bit
get_bit-put_byte i k v s size h = rw (byte_at-put_byte (i / 8) k v s) (ground arith)

-- A change of one bit of a byte: `change` on the byte is `op` on the bit.
module _ (change : ℕ → ℕ → ℕ) (op : Bool → Bool → Bool) (keeps : (b : Bool) → op false b ≡ b)
    (law : (b j i : ℕ)
      → b < 256
      → j < 8
      → i < 8
      → (bit_of (change b j) i ≡ op (i == j) (bit_of b i)) × (change b j < 256)) where
  abbrev changed : ℕ → Bitfield → Bitfield
  changed index f = record f {
    m_bytes = put_byte (index / 8) (change (byte_at (index / 8) f.m_bytes) (index % 8)) f.m_bytes;
  }

  get_bit-changed :
      (i index : ℕ) (f : Bitfield)
      → IsValid f
      → index < f.m_size
      → get_bit i (changed index f) ≡ op (i == index) (get_bit i f)
  get_bit-changed i index f v h =
      let b = byte_at (index / 8) f.m_bytes in
      let l =
        law b (index % 8) (i % 8) (byte_at-lt (index / 8) f.m_bytes v.bytes) (omega arith)
          (omega arith) in
      let z = v.sized in
      get_bit-put_byte i (index / 8) (change b (index % 8)) f.m_bytes f.m_size (omega arith)
      ∙ unfold get_bit in
        elim (Bool-cases (i / 8 == index / 8)) [
          | inl e ↦
              let e2 : i / 8 ≡ index / 8 = ground arith in
              let same : (i % 8 == index % 8) ≡ (i == index) = ground arith in
              rw (e, l.0, same) (rw e2 refl)
          | inr e ↦
              let other : (i == index) ≡ false = ground arith in
              rw (e, other) (sym (keeps (bit_of (byte_at (i / 8) f.m_bytes) (i % 8))))
        ]

  changed-IsValid :
      (index : ℕ) (f : Bitfield) → IsValid f → index < f.m_size → IsValid (changed index f)
  changed-IsValid index f v h = record {
    sized = length-put_byte (index / 8) _ f.m_bytes ∙ v.sized;
    bytes =
        put_byte-AreBytes (index / 8) _ f.m_bytes
          ((law (byte_at (index / 8) f.m_bytes) (index % 8) 0
            (byte_at-lt (index / 8) f.m_bytes v.bytes) (omega arith) (omega arith)).1)
          v.bytes;
    clean = λ i p.
        let other : (i == index) ≡ false = ground arith in
        get_bit-changed i index f v h ∙ rw other (keeps (get_bit i f) ∙ v.clean i p);
  }

module _ (index : ℕ) (f : Bitfield) (v : IsValid f) (h : index < f.m_size) where
  pub get_bit-set_bit : (i : ℕ) → get_bit i (set_bit index f) ≡ (i == index || get_bit i f)
  unfolding set_bit
  get_bit-set_bit i = get_bit-changed with_bit ◌||◌ (λ b. refl) with_bit_lem i index f v h

  pub set_bit-IsValid : IsValid (set_bit index f)
  unfolding set_bit
  set_bit-IsValid = changed-IsValid with_bit ◌||◌ (λ b. refl) with_bit_lem index f v h

  pub get_bit-clear_bit :
      (i : ℕ) → get_bit i (clear_bit index f) ≡ (not (i == index) && get_bit i f)
  unfolding clear_bit
  get_bit-clear_bit i =
      get_bit-changed without_bit (λ a b. not a && b) (λ b. refl) without_bit_lem i index f v h

  pub clear_bit-IsValid : IsValid (clear_bit index f)
  unfolding clear_bit
  clear_bit-IsValid =
      changed-IsValid without_bit (λ a b. not a && b) (λ b. refl) without_bit_lem index f v h
