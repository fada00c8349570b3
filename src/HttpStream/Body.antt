-- ===== src/HttpStream/Body.antt =====
-- Calling `read_some` of include/avhttp/impl/http_stream.ipp until it reports an error, as the free
-- functions that read a whole body do.
use avhttp.Base.{
  ℕ, zero, suc, false, ◌≤◌, ◌<◌, Option, none, some, ◌>>=◌, [], ◌++◌, inl, inr, ◌≡◌, refl, sym, ap,
  ◌∙◌, arith, Bytes, length, length-append,
}
use avhttp.HttpStream.{Error, eof, Received, HttpStream, result, nothing_read, read_some}
use avhttp.HttpStream.Socket.{IsSocket, incoming}
use avhttp.HttpStream.Chunks.{Last, Expects, read_some-Progress}

module _ {S : Type 0} (read_socket : ℕ → S → Received S) where
  -- All bytes that the calls gave, and the error that ended them.
  unfoldable pub read_to_end : ℕ → ℕ → ℕ → HttpStream S → Option (Bytes × Error)
  read_to_end zero rounds size h = none
  read_to_end (suc calls) rounds size h = read_some read_socket rounds size none h >>= λ r.
      let more =
        read_to_end calls rounds size r.stream >>= λ rest. some (r.bytes ++ rest.0, rest.1) in
      last_or more r.bytes r.error
    where
      last_or : Option (Bytes × Error) → Bytes → Option Error → Option (Bytes × Error)
      last_or more s none = more
      last_or more s (some e) = some (s, e)

module _ {S : Type 0} (read_socket : ℕ → S → Received S) (pending : S → Bytes)
    (law : IsSocket read_socket pending) (l : Last) where
  call_gives :
      (calls rounds size : ℕ) (h g : HttpStream S) (s rest : Bytes)
      → read_some read_socket rounds size none h ≡ some (result g s none)
      → read_to_end read_socket calls rounds size g ≡ some (rest, eof)
      → read_to_end read_socket (suc calls) rounds size h ≡ some (s ++ rest, eof)
  unfolding read_to_end
  call_gives calls rounds size h g s rest e next = rw (e, next) refl

  call_ends :
      (calls rounds size : ℕ) (h g : HttpStream S)
      → read_some read_socket rounds size none h ≡ some (nothing_read 0 g (some eof))
      → read_to_end read_socket (suc calls) rounds size h ≡ some ([], eof)
  unfolding read_to_end
  call_ends calls rounds size h g e = rw e refl

  -- At any place of a chunked body, on a stream that is not kept alive, with more calls than the body
  -- has bytes and as many rounds as there is text, the calls end, and give the rest of the body, then
  -- the end of the file: for any way in which the text arrives.
  pub read_to_end_lem :
      (calls rounds size : ℕ) (h : HttpStream S) (body : Bytes)
      → 0 < size
      → length body < calls
      → length (incoming read_socket pending law h) ≤ rounds
      → Expects read_socket pending law l false h body
      → read_to_end read_socket calls rounds size h ≡ some (body, eof)
  read_to_end_lem zero rounds size h body p c n x = absurd (omega arith)
  read_to_end_lem (suc calls) rounds size h body p c n x =
      elim (read_some-Progress read_socket pending law l false rounds size h body p n x) [
        | inl g ↦
            let z = g.some_bytes in
            let fewer : length g.left < calls =
              let m = ap length g.in_order in omega (arith, length-append g.bytes g.left) in
            call_gives calls rounds size h g.stream g.bytes g.left g.returns
              (read_to_end_lem calls rounds size g.stream g.left p fewer g.no_longer g.expects)
            ∙ ap (λ s. some (s, eof)) (sym g.in_order)
        | inr f ↦
            call_ends calls rounds size h f.stream f.returns
            ∙ ap (λ s. some (s, eof)) (sym f.nothing_left)
      ]
