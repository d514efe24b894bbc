-- ===== src/Fma.antt =====
-- The fused multiply-add instructions: fma.h and fma.c.
pub mod Lanes
pub mod Dispatch
