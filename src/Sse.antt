-- ===== src/Sse.antt =====
-- The SSE instructions in VEX form: vsse.h and vsse.c.
pub mod Moves
pub mod Floats
pub mod Compare
pub mod Dispatch
pub mod Predicates
pub mod Laws
