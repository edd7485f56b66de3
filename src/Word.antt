-- ===== src/Word.antt =====
-- Bits of machine words: the laws of `^` and of the top-bit test that the CRC needs.
mod Digits
pub mod Xor
pub mod TopBit
