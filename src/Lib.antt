-- ===== src/Lib.antt =====
-- A model of avhttp, an HTTP client library over Boost.Asio, and its theorems.
--
-- avhttp downloads over HTTP: `http_stream` speaks the protocol, `multi_download` splits a file into
-- byte ranges and fetches them over several streams. Which ranges are present is kept by a
-- `rangefield` and written to a bencoded meta file, from which a download resumes.
--
-- Base holds the shared names: tests on numbers, lists, bytes and signed integers.
-- Rangefield models include/avhttp/rangefield.hpp: the record `Rangefield` is the class, with the
-- `std::map` as an association list in key order; each method is the function of its name. A method
-- that merges returns the tidied field beside its result, and `none` where it would lock the held
-- mutex. Pieces has the two conversions to and from a bitfield, which is the list of its bits. Cover
-- has the abstract view, the set of covered positions, and the invariant `IsValid`.
-- Bitfield models include/avhttp/bitfield.hpp: the bytes of the class, its operations on bits, its
-- iterator. New memory holds what a parameter says. Bits has the abstract view, the list of the bits,
-- and Refine what the operations are on it. The ownership of the memory is not modelled.
-- Escape models include/avhttp/detail/escape_string.hpp. Strings are lists of bytes. The Boost
-- iterators of `encode_base64` are a parameter, with the length of their text as a hypothesis.
-- Bencode models include/avhttp/bencode.hpp over the values of include/avhttp/entry.hpp; its child
-- Access has the accessors of an entry, Decode has the decoder. Each call of the decoder, and each
-- round of its loops, takes one unit of fuel, and `bdecode` starts with twice the length of the input
-- and one, which is enough since each element takes a character. A read at the end of the input is the value `fault`.
--
-- CStdlib has what the program uses of the C library on characters and decimal numbers.
-- Parsers models include/avhttp/detail/parsers.hpp: StatusLine is `parse_http_status_line`, Headers the
-- two `parse_http_headers`, the one with a list of headers under the flag `listing`, Disposition
-- `content_disposition_filename`. A machine is a function `step_in` from the state and a character,
-- run over the text; what it returns stands beside the locals at that time.
-- Url models include/avhttp/url.hpp: `from_string` takes the parts off the text one after the other,
-- each part a function that returns what it took and the rest; `to_string` writes the components
-- that its mask names.
-- Settings models the class `option` of include/avhttp/settings.hpp, the list of options of a request.
-- MultiDownload.Meta models `update_meta` and `open_meta` of include/avhttp/impl/multi_download.ipp over
-- Bencode, Url, Bitfield and the conversions of Rangefield: the meta file is a list of bytes, an exception
-- is the value `thrown`, and `outside` is undefined behaviour or a negative number. What an integer holds
-- that nothing has set is a parameter. Whether the file
-- opens, and how many bytes a read gives, is up to the caller of the model.
-- MultiDownload models `allocate_range`, `default_piece_size` and the storing of `handle_read` (Receive)
-- of include/avhttp/impl/multi_download.ipp over Rangefield. The loop of `allocate_range` runs for a
-- number of rounds, of which one is enough where a request has a byte at least and its length fits an
-- `int`; a length that does not fit is the result `overflow`. The loop of
-- `default_piece_size` runs for ten, since ten doublings of 16 KiB reach the 16 MiB at which it ends.
-- HttpStream models `read_some` and `read_some_impl` of include/avhttp/impl/http_stream.ipp, without zlib.
-- The socket is a parameter, and `Socket.IsSocket` the contract that it is used under. The two loops over
-- a chunk's line and its end run for a number of rounds; as many as there is text are enough. Chunks has
-- the view of a chunked body, Body the calls up to an error, Faults a broken line break. Request models how
-- `request` makes the text that it sends of the options, over Settings, Url and Escape; the line of
-- cookies is a parameter there. Redirect models how `open` follows redirections, one connection and
-- request being a parameter; each call takes a unit of fuel, and one more than the limit is enough.
-- Header has the loop of `receive_header` over the header lines, with the length of the text as fuel.
-- Cookie models include/avhttp/cookie.hpp: the parser of a Set-Cookie text as a function `step_in` from the
-- state and a character, the updates, the lookup and `remove_cookie`. Dates and the clock are parameters;
-- what `std::remove_if` leaves behind the elements that stay is one too.
--
-- The build is one without assertions (NDEBUG). Integers that count bytes are naturals; where a width
-- matters it is a hypothesis, or a product that does not fit is `none`; the numbers of a status line
-- wrap around at 32 bits. Not modelled: sockets, TLS,
-- files, timers, logging and the example programs, which are input and output; the connections
-- and the asynchronous calls of `http_stream`, the lines of cookies for a request,
-- the files of cookies, and the dates of headers are left out.
pub mod Base
pub mod Rangefield
pub mod Escape
pub mod CStdlib
pub mod Bencode
pub mod Parsers
pub mod Url
pub mod Settings
pub mod MultiDownload
pub mod Bitfield
pub mod HttpStream
pub mod Cookie
