-- ===== src/Parsers.antt =====
-- include/avhttp/detail/parsers.hpp: the parsers of a response's head.
pub mod StatusLine
pub mod Headers
pub mod Disposition
