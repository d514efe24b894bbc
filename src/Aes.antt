-- ===== src/Aes.antt =====
-- AES and carry-less multiplication: aes.h, aes.c and aesins.c.
pub mod Tables
pub mod Block
pub mod Linear
pub mod Mix
pub mod BlockLaws
pub mod Rounds
pub mod RoundLaws
pub mod Cipher
pub mod ClMul
pub mod ClMulLaws
pub mod Dispatch
pub mod Copies
pub mod DispatchLaws
