-- ===== src/Common/Bits.antt =====
-- Laws of `&`, `|` and `^` on numbers of any width.
pub mod Step
pub mod Digit
pub mod Laws
