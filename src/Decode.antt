-- ===== src/Decode.antt =====
-- The decoding of an instruction's bytes: prefixes, opcode and the length of the operand (optrap.c).
pub mod Length
pub mod Rex
pub mod Vex
pub mod Laws
