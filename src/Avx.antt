-- ===== src/Avx.antt =====
-- The AVX and AVX2 instructions: avx.h and avx.c.
pub mod Moves
pub mod Permute
pub mod Shift
pub mod Dispatch
pub mod Laws
pub mod Zero
