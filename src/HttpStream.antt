-- ===== src/HttpStream.antt =====
-- `read_some` and `read_some_impl` of include/avhttp/impl/http_stream.ipp, in a build without zlib:
-- the body of a response, chunked or not. The socket is a parameter: its state, and what one read of
-- at most so many bytes gives. The buffers of a call are one buffer of their joint length.
-- `none` is a loop that did not end in the rounds given.
pub mod Socket
pub mod Lines
pub mod Chunks
pub mod Body
pub mod Faults
pub mod Request
pub mod Redirect
pub mod Header
mod Tests
use avhttp.Base.{
  ℕ, zero, suc, ◌+◌, ◌-◌, min, Bool, true, false, not, ◌&&◌, Option, none, some, ◌>>=◌, [], ◌∷◌,
  ◌++◌, ◌==◌, if◌then◌else◌, Bytes, length,
}
use avhttp.CStdlib.{hex_size}

pub data Error : Type 0 where
  eof : Error
  shut_down : Error
  invalid_chunked_encoding : Error
  other : ℕ → Error

-- What a read of the socket gives.
pub record Received (S : Type 0) : Type 0 where
  pub socket : S
  pub bytes : Bytes
  pub error : Option Error

-- The members that `read_some` uses; a content length of -1 is `none`.
pub record HttpStream (S : Type 0) : Type 0 where
  pub socket : S
  pub response : Bytes
  pub is_chunked : Bool
  pub is_chunked_end : Bool
  pub skip_crlf : Bool
  pub chunked_size : ℕ
  pub keep_alive : Bool
  pub content_length : Option ℕ
  pub body_size : ℕ

-- What `read_some` leaves: the stream, the number that it returns, what it put in the buffers, and
-- `ec`.
pub record Result (S : Type 0) : Type 0 where
  pub stream : HttpStream S
  pub count : ℕ
  pub bytes : Bytes
  pub error : Option Error

abbrev pub result : {S : Type 0} → HttpStream S → Bytes → Option Error → Result S
result h s e = record { stream = h; count = length s; bytes = s; error = e }

-- `return n` with nothing in the buffers.
abbrev pub nothing_read : {S : Type 0} → ℕ → HttpStream S → Option Error → Result S
nothing_read n h e = record { stream = h; count = n; bytes = []; error = e }

-- `m_response.sgetn`: what is taken, and what is left.
unfoldable pub take : ℕ → Bytes → Bytes
take zero s = []
take (suc n) [] = []
take (suc n) (c ∷ s) = c ∷ take n s

unfoldable pub drop : ℕ → Bytes → Bytes
drop zero s = s
drop (suc n) [] = []
drop (suc n) (c ∷ s) = drop n s

abbrev pub no_shut_down : Option Error → Option Error
no_shut_down (some shut_down) = some eof
no_shut_down e = e

abbrev pub ends_crlf : Bytes → Bool
ends_crlf [] = false
ends_crlf (c ∷ []) = false
ends_crlf (c ∷ d ∷ []) = c == 13 && d == 10
ends_crlf (c ∷ d ∷ e ∷ s) = ends_crlf (d ∷ e ∷ s)

abbrev pub is_crlf : Bytes → Bool
is_crlf (c ∷ d ∷ []) = c == 13 && d == 10
is_crlf _ = false

-- `while (!ec)`
abbrev pub unless_error : {A : Type 0} → Option Error → A → A → A
unless_error (some x) stop again = stop
unless_error none stop again = again

-- `if (!m_keep_alive) ec = eof`
abbrev pub eof_unless : Bool → Option Error → Option Error
eof_unless keep_alive e = if keep_alive then e else some eof

abbrev pub complete : ℕ → Option ℕ → Bool
complete body_size none = false
complete body_size (some n) = body_size == n

module _ {S : Type 0} (read_socket : ℕ → S → Received S) where
  -- What `read_some_impl` leaves: the stream, the bytes, and `ec`.
  abbrev pub Reply : Type 0
  Reply = HttpStream S × Bytes × Option Error

  pub from_socket : ℕ → HttpStream S → Reply
  from_socket size h =
      let r = read_socket size h.socket in
      (record h { socket = r.socket }, r.bytes, no_shut_down r.error)

  abbrev pub from_response : ℕ → HttpStream S → Bytes → Reply
  from_response size h [] = from_socket size h
  from_response size h (c ∷ s) =
      (record h { response = drop size (c ∷ s) }, take size (c ∷ s), none)

  pub read_some_impl : ℕ → HttpStream S → Reply
  unfolding from_socket take drop
  read_some_impl size h = from_response size h h.response

  -- `while (!ec && bytes_transferred != 2)`, with the characters so far.
  pub read_crlf : ℕ → Bytes → HttpStream S → Option Reply
  read_crlf zero got h = if length got == 2 then some (h, got, none) else none
  read_crlf (suc rounds) got h =
      let (g, s, e) = read_some_impl (2 - length got) h in
      let again = read_crlf rounds (got ++ s) g in
      let next = unless_error e (some (g, got ++ s, e)) again in
      if length got == 2 then some (h, got, none) else next

  -- `while (!ec)`, up to a line feed behind a carriage return, with the line so far.
  pub read_line : ℕ → Bytes → HttpStream S → Option Reply
  unfolding read_some_impl
  read_line zero line h = none
  read_line (suc rounds) line h =
      let (g, s, e) = read_some_impl 1 h in
      let again = read_line rounds (line ++ s) g in
      let next = unless_error e (some (g, line ++ s, e)) again in
      if length s == 1 && ends_crlf (line ++ s) then some (g, line ++ s, e) else next

  -- The data of a chunk, of which `chunked_size` bytes are left.
  pub read_data : ℕ → HttpStream S → Result S
  unfolding read_some_impl
  read_data size h =
      let (g, s, e) = read_some_impl (min size h.chunked_size) h in
      result (record g { chunked_size = g.chunked_size - length s }) s e

  -- The chunk of size 0.
  abbrev pub end_chunks : HttpStream S → Result S
  end_chunks h = nothing_read 0 (record h { is_chunked_end = true }) (eof_unless h.keep_alive none)

  pub after_size : ℕ → HttpStream S → Result S
  unfolding read_data
  after_size size h = if h.chunked_size == 0 then end_chunks h else read_data size h

  -- The line of a chunk with its size. `ec` stops the loop before it begins.
  pub read_size : ℕ → ℕ → Option Error → HttpStream S → Option (Result S)
  unfolding read_line after_size
  read_size rounds size (some x) h = some (nothing_read 0 h (some x))
  read_size rounds size none h = read_line rounds [] h >>= λ reply. sized reply.0 reply.1 reply.2
    where
      sized : HttpStream S → Bytes → Option Error → Option (Result S)
      sized g line (some x) = some (nothing_read 0 g (some x))
      sized g line none =
          some (after_size size (record g { chunked_size = hex_size line; skip_crlf = false }))

  -- Behind the two characters that end a chunk.
  pub after_crlf : ℕ → ℕ → Reply → Option (Result S)
  unfolding read_size
  after_crlf rounds size (g, got, some x) = some (nothing_read 0 g (some x))
  after_crlf rounds size (g, got, none) =
      let next = read_size rounds size none g in
      if g.is_chunked_end
      then some (nothing_read 0 g (eof_unless g.keep_alive none))
      else if is_crlf got
      then next
      else some (nothing_read (length got) g (some invalid_chunked_encoding))

  pub read_chunked : ℕ → ℕ → Option Error → HttpStream S → Option (Result S)
  unfolding read_crlf after_crlf read_size read_data
  read_chunked rounds size ec h =
      if not (h.chunked_size == 0)
      then some (read_data size h)
      else if h.skip_crlf
      then read_size rounds size ec h
      else (read_crlf rounds [] h >>= after_crlf rounds size)

  pub read_plain : ℕ → Option Error → HttpStream S → Result S
  unfolding read_some_impl
  read_plain size ec h =
      let (g, s, e) = read_some_impl size h in
      if h.keep_alive && complete h.body_size h.content_length
      then nothing_read 0 h ec
      else result (record g { body_size = g.body_size + length s }) s e

  pub read_some : ℕ → ℕ → Option Error → HttpStream S → Option (Result S)
  unfolding read_chunked read_plain
  read_some rounds size ec h =
      if h.is_chunked then read_chunked rounds size ec h else some (read_plain size ec h)
