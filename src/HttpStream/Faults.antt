-- ===== src/HttpStream/Faults.antt =====
-- Faulty chunked bodies in `read_some` of include/avhttp/impl/http_stream.ipp.
use avhttp.Base.{
  ℕ, ◌≤◌, true, false, none, some, ◌>>=◌, [], ◌∷◌, if◌then◌else◌, ◌≡◌, refl, ap, ◌∙◌, Bytes,
}
use avhttp.HttpStream.{
  invalid_chunked_encoding, Received, HttpStream, nothing_read, eof_unless, is_crlf, read_size,
  after_crlf, read_some,
}
use avhttp.HttpStream.Socket.{IsSocket, incoming}
use avhttp.HttpStream.Lines.{read_crlf-Reads}
use avhttp.HttpStream.Chunks.{read_some-behind}

module _ {S : Type 0} (read_socket : ℕ → S → Received S) (pending : S → Bytes)
    (law : IsSocket read_socket pending) where
  refused :
      (rounds size : ℕ) (g : HttpStream S) (a b : ℕ)
      → is_crlf (a ∷ b ∷ []) ≡ false
      → g.is_chunked_end ≡ false
      → after_crlf read_socket rounds size (g, a ∷ b ∷ [], none)
        ≡ some (nothing_read 2 g (some invalid_chunked_encoding))
  unfolding after_crlf
  refused rounds size g a b bad e =
      ap
        (λ t.
          if t
          then some (nothing_read 0 g (eof_unless g.keep_alive none))
          else if is_crlf (a ∷ b ∷ [])
          then read_size read_socket rounds size none g
          else some (nothing_read 2 g (some invalid_chunked_encoding)))
        e
      ∙ rw bad refl

  -- Two characters behind a chunk that are no line break are an error, which comes with the count 2,
  -- though nothing was put in the buffers.
  pub read_some-bad_crlf :
      (rounds size : ℕ) (h : HttpStream S) (a b : ℕ) (t : Bytes)
      → 2 ≤ rounds
      → h.is_chunked ≡ true
      → h.is_chunked_end ≡ false
      → h.chunked_size ≡ 0
      → h.skip_crlf ≡ false
      → incoming read_socket pending law h ≡ a ∷ b ∷ t
      → is_crlf (a ∷ b ∷ []) ≡ false
      → (g : HttpStream S) × (read_some read_socket rounds size none h
          ≡ some (nothing_read 2 g (some invalid_chunked_encoding)))
  read_some-bad_crlf rounds size h a b t enough chunked goes_on sized skips text bad =
      let r = read_crlf-Reads read_socket pending law rounds h [] (a ∷ b ∷ []) t refl enough text in
      (
        r.stream,
        read_some-behind read_socket rounds size h chunked sized skips
            ∙ ap (λ m. m >>= after_crlf read_socket rounds size) r.ends
            ∙ refused rounds size r.stream a b bad
                (ap (λ (m : HttpStream S). m.is_chunked_end) r.same_rest ∙ goes_on),
      )
