-- ===== src/Sse41.antt =====
-- The SSE4.1 instructions in VEX form: vsse41.h and vsse41.c.
pub mod Integer
pub mod Select
pub mod Floats
pub mod Other
pub mod Dispatch
pub mod Laws
