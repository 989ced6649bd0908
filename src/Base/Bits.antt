-- ===== src/Base/Bits.antt =====
-- The laws of `^`, `|` and `&` on machine words that the code relies on, at every width.
pub mod Digits
pub mod Xor
pub mod Fields
