-- ===== src/MultiDownload/Receive.antt =====
-- The part of `multi_download::handle_read` in include/avhttp/impl/multi_download.ipp that enters the
-- bytes of a stream in the field of what is downloaded.
use avhttp.Base.{
  ℕ, ◌+◌, ◌≤◌, ◌<◌, Bool, true, not, ◌&&◌, ◌||◌, List, [], ◌∷◌, ◌≡◌, refl, ◌∙◌, inl, inr, arith,
  ◌==◌, if◌then◌else◌, Bool-cases,
}
use avhttp.Base.Int.{pos, ltb_ℤ, leb_ℤ}
use avhttp.Rangefield.{RangeMap, Rangefield, assign, update}
use avhttp.Rangefield.Cover.{inside, covered, IsValid}
use avhttp.Rangefield.Update.{end_at, update_covers, size-update, update-IsValid}

-- What the handler reads and counts of the `http_stream_object`.
pub record StreamObject : Type 0 where
  pub left : ℕ
  pub bytes_transferred : ℕ
  pub bytes_downloaded : ℕ

-- One call, for so many bytes; `keep` says that there is a storage, no error but the end of the
-- file, and a known file size.
unfoldable pub receive : Bool → StreamObject → Rangefield → ℕ → StreamObject × Rangefield
receive keep object field n =
    let offset = object.left + object.bytes_transferred in
    (
      record object {
        bytes_transferred = object.bytes_transferred + n;
        bytes_downloaded = object.bytes_downloaded + n;
      },
      if keep && not (n == 0) then (update (pos offset) (pos (offset + n)) field).0 else field,
    )

-- The calls for the blocks of a stream, one after the other.
unfoldable pub receive_all : StreamObject → Rangefield → List ℕ → StreamObject × Rangefield
unfolding receive
receive_all object field [] = (object, field)
receive_all object field (n ∷ blocks) =
    let next = receive true object field n in receive_all next.0 next.1 blocks

abbrev pub sum : List ℕ → ℕ
sum [] = 0
sum (n ∷ blocks) = n + sum blocks

-- No entry begins in [left, right).
abbrev pub NoneBegins : ℕ → ℕ → Rangefield → Type 0
NoneBegins left right f = (j : ℕ) → left ≤ j → j < right → end_at j f.ranges ≡ 0

end_at-assign : (j k v : ℕ) (m : RangeMap) → k < j → end_at j (assign k v m) ≡ end_at j m
unfolding assign
end_at-assign j k v [] h = ground arith
end_at-assign j k v ((i, w) ∷ m) h = ground (arith, end_at-assign j k v m h)

end_at-update :
    (j left right : ℕ) (f : Rangefield)
    → left < j
    → end_at j (update (pos left) (pos right) f).0.ranges ≡ end_at j f.ranges
unfolding update
end_at-update j left right f h =
    elim (Bool-cases (
      (ltb_ℤ (pos left) (pos 0) || ltb_ℤ (pos f.size) (pos right))
      || leb_ℤ (pos right) (pos left))) [
        | inl refused ↦ rw refused refl
        | inr accepted ↦ rw accepted (end_at-assign j left right f.ranges h)
      ]

abbrev pub position : StreamObject → ℕ
position object = object.left + object.bytes_transferred

-- What the blocks at [from, to) do to the field `f`.
pub record Receives (f g : Rangefield) (from to : ℕ) : Type 0 where
  pub valid : IsValid g
  pub same_size : g.size ≡ f.size
  pub covers : (x : ℕ) → covered g.ranges x ≡ (inside from to x || covered f.ranges x)
  pub begins : (j : ℕ) → to ≤ j → end_at j g.ranges ≡ end_at j f.ranges

position-receive :
    (object : StreamObject) (f : Rangefield) (n : ℕ)
    → position (receive true object f n).0 ≡ position object + n
unfolding receive
position-receive object f n = omega arith

receive-Receives :
    (object : StreamObject) (f : Rangefield) (n : ℕ)
    → IsValid f
    → position object + n ≤ f.size
    → NoneBegins (position object) (position object + n) f
    → Receives f (receive true object f n).1 (position object) (position object + n)
unfolding receive
receive-Receives object f n v h none_begins = elim (Bool-cases (n == 0)) [
  | inl e ↦
      rw e
        (record { valid = v; same_size = refl; covers = λ x. ground arith; begins = λ j q. refl })
  | inr e ↦
      let from = position object in
      let some : 0 < n = ground arith in
      let fresh = none_begins from (omega arith) (omega arith) in
      let (_, cover) = update_covers from (from + n) f (omega arith) h (omega arith) in
      rw e (record {
        valid = update-IsValid (pos from) (pos (from + n)) f v;
        same_size = size-update (pos from) (pos (from + n)) f;
        covers = cover;
        begins = λ j q. end_at-update j from (from + n) f (omega arith);
      })
]

inside_join :
    (from n next more x : ℕ) (cg cf : Bool)
    → next ≡ from + n
    → cg ≡ (inside from (from + n) x || cf)
    → (inside next (next + more) x || cg) ≡ (inside from (from + (n + more)) x || cf)
inside_join from n next more x cg cf e h = ground arith

-- The blocks that a stream receives, one after the other, make just their positions covered, from the
-- one that the stream had come to, and the field stays valid, if no entry begins in them before
-- and they lie in the file.
pub receive_all_covers :
    (blocks : List ℕ) (object : StreamObject) (f : Rangefield)
    → IsValid f
    → position object + sum blocks ≤ f.size
    → NoneBegins (position object) (position object + sum blocks) f
    → IsValid (receive_all object f blocks).1
      × ((x : ℕ)
          → covered (receive_all object f blocks).1.ranges x
            ≡ (inside (position object) (position object + sum blocks) x || covered f.ranges x))
unfolding receive_all
receive_all_covers [] object f v h none_begins = (v, λ x. ground arith)
receive_all_covers (n ∷ blocks) object f v h none_begins =
    let at_next = position-receive object f n in
    let r = receive-Receives object f n v (omega arith) (λ j p q. none_begins j p (omega arith)) in
    let size = r.same_size in
    let (valid, d) =
      receive_all_covers blocks (receive true object f n).0 (receive true object f n).1 r.valid
        (omega arith)
        (λ j p q. r.begins j (omega arith) ∙ none_begins j (omega arith) (omega arith)) in
    (
      valid,
      λ x.
          d x
          ∙ inside_join (position object) n (position (receive true object f n).0) (sum blocks) x _
              _ at_next (r.covers x),
    )
