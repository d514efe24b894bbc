-- ===== src/Sse2.antt =====
-- The SSE2 instructions in VEX form: vsse2.h and vsse2.c.
pub mod Integer
pub mod Moves
pub mod Shuffle
pub mod Floats
pub mod Compare
pub mod Cases
pub mod Xmm
pub mod Ymm
pub mod Dispatch
pub mod Laws
pub mod Predicates
