-- ===== src/Gather.antt =====
-- The gathers: vgather.h and vgather.c.
pub mod Lanes
pub mod Dispatch
pub mod Laws
