-- ===== src/Word.antt =====
-- Machine words: bits, and the bytes of their little- and big-endian encodings.
pub mod Bits
pub mod Bytes
pub mod Utf8
pub mod Int
