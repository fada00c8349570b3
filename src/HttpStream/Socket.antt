-- ===== src/HttpStream/Socket.antt =====
-- What `read_some_impl` of include/avhttp/impl/http_stream.ipp relies on of a socket, and gives to
-- its callers.
use avhttp.Base.{
  ℕ, zero, suc, ◌≤◌, ◌<◌, min, Option, none, some, [], ◌∷◌, ◌++◌, append_assoc, ◌≡◌, refl, sym, ap,
  ◌∙◌, arith, Bytes, length,
}
use avhttp.HttpStream.{
  Error, eof, Received, HttpStream, take, drop, from_response, from_socket, read_some_impl,
}

-- The contract of a stream socket: `pending` is the text that is still to arrive. A read with room
-- for a byte gives one at least of what is pending, in order, and the end of the file where nothing
-- is.
pub record IsSocket {S : Type 0} (read_socket : ℕ → S → Received S) (pending : S → Bytes)
    : Type 0 where
  pub arrives :
      (n : ℕ) (s : S) (c : ℕ) (t : Bytes)
      → 0 < n
      → pending s ≡ c ∷ t
      → let r = read_socket n s in
        (r.error ≡ none)
        × (0 < length r.bytes)
        × (length r.bytes ≤ n)
        × (pending s ≡ r.bytes ++ pending r.socket)
  pub ends :
      (n : ℕ) (s : S)
      → 0 < n
      → pending s ≡ []
      → let r = read_socket n s in (r.error ≡ some eof) × (r.bytes ≡ []) × (pending r.socket ≡ [])

pub take-drop : (n : ℕ) (s : Bytes) → take n s ++ drop n s ≡ s
unfolding take drop
take-drop zero s = refl
take-drop (suc n) [] = refl
take-drop (suc n) (c ∷ s) = ap (λ t. c ∷ t) (take-drop n s)

length-take : (n : ℕ) (s : Bytes) → length (take n s) ≡ min n (length s)
unfolding take
length-take zero s = omega arith
length-take (suc n) [] = omega arith
length-take (suc n) (c ∷ s) = omega (arith, length-take n s)

-- A text in front of another, no longer than the first part of it.
pub record Prefix (s x r t : Bytes) : Type 0 where
  pub left : Bytes
  pub whole : r ≡ s ++ left
  pub behind : x ≡ left ++ t

pub head_eq : (a b : ℕ) (s t : Bytes) → (a ∷ s) ≡ (b ∷ t) → a ≡ b
head_eq a b s t e = cc

pub tail_eq : (a b : ℕ) (s t : Bytes) → (a ∷ s) ≡ (b ∷ t) → s ≡ t
tail_eq a b s t e = cc

pub prefix : (s x r t : Bytes) → s ++ x ≡ r ++ t → length s ≤ length r → Prefix s x r t
prefix [] x r t e h = record { left = r; whole = refl; behind = e }
prefix (c ∷ s) x [] t e h = absurd (omega arith)
prefix (c ∷ s) x (d ∷ r) t e h =
    let p = prefix s x r t (tail_eq c d (s ++ x) (r ++ t) e) (omega arith) in
    let q = head_eq c d (s ++ x) (r ++ t) e in
    record {
      left = p.left;
      whole = ap (λ y. y ∷ r) (sym q) ∙ ap (λ y. c ∷ y) p.whole;
      behind = p.behind;
    }

module _ {S : Type 0} (read_socket : ℕ → S → Received S) (pending : S → Bytes)
    (law : IsSocket read_socket pending) where
  -- All that is still to be read.
  abbrev pub incoming : HttpStream S → Bytes
  incoming h = h.response ++ pending h.socket

  -- Only the input of the stream differs.
  abbrev pub SameRest : HttpStream S → HttpStream S → Type 0
  SameRest h g = g ≡ record h { socket = g.socket; response = g.response }

  -- A read that gave bytes.
  pub record Delivers (n : ℕ) (h g : HttpStream S) (s : Bytes) (e : Option Error) : Type 0 where
    pub no_error : e ≡ none
    pub some_bytes : 0 < length s
    pub room : length s ≤ n
    pub in_order : incoming h ≡ s ++ incoming g
    pub same_rest : SameRest h g

  delivered :
      (n : ℕ) (h : HttpStream S) (r : Bytes) (c : ℕ) (t : Bytes)
      → h.response ≡ r
      → 0 < n
      → incoming h ≡ c ∷ t
      → let (g, s, e) = from_response read_socket n h r in Delivers n h g s e
  unfolding from_socket
  delivered n h [] c t q p i =
      let start : pending h.socket ≡ c ∷ t = ap (λ y. y ++ pending h.socket) (sym q) ∙ i in
      let (e, some_bytes, room, order) = law.arrives n h.socket c t p start in
      let r = read_socket n h.socket in
      record {
        no_error = rw e refl;
        some_bytes = some_bytes;
        room = room;
        in_order =
            ap (λ y. y ++ pending h.socket) q
            ∙ order
            ∙ ap (λ y. r.bytes ++ (y ++ pending r.socket)) (sym q);
        same_rest = refl;
      }
  delivered (suc n) h (d ∷ r) c t q p i =
      let l = length-take (suc n) (d ∷ r) in
      record {
        no_error = refl;
        some_bytes = omega arith;
        room = omega arith;
        in_order =
            ap (λ y. y ++ pending h.socket) (q ∙ sym (take-drop (suc n) (d ∷ r)))
            ∙ append_assoc (take (suc n) (d ∷ r)) (drop (suc n) (d ∷ r)) (pending h.socket);
        same_rest = refl;
      }
  delivered zero h (d ∷ r) c t q p i = absurd (omega arith)

  pub read_some_impl-Delivers :
      (n : ℕ) (h : HttpStream S) (c : ℕ) (t : Bytes)
      → 0 < n
      → incoming h ≡ c ∷ t
      → let (g, s, e) = read_some_impl read_socket n h in Delivers n h g s e
  unfolding read_some_impl
  read_some_impl-Delivers n h c t p i = delivered n h h.response c t refl p i
