-- ===== src/Lib.antt =====
-- The opcode emulator: a Linux kernel module that hooks the kernel's `do_error_trap` and emulates
-- instructions that the processor does not know.
--
-- How the parts interact. `fh_init` of trap_hook.c installs the hook. On an invalid opcode of user
-- code `fh_do_error_trap` calls `opemu_utrap` of optrap.c, which decodes the bytes at the
-- instruction pointer, first as legacy or REX and then as VEX instruction, and calls one
-- `_instruction` function after the other until one returns a size that is not 0. Each of them
-- fetches its operands from the registers, computes, writes a register back and returns the size.
-- Then the instruction pointer moves on, or the original handler runs.
--
-- Which file models which part, by paths from the repository's root:
--   Machine: the registers and the `_store_` and `_load_` functions of optrap.h. `Regs` is
--     `struct pt_regs`, `Cpu` has the xmm and mm registers too, and the VYMM variables. These are
--     `static` in the header, so each object file has its own copy: `ObjectFile` tells whose.
--   Decode: `get_consumed` (Decode.Length) and the first halves of `rex_ins` (Decode.Rex) and
--     `vex_ins` (Decode.Vex) of optrap.c. `Insn` is what a handler is called with.
--   Address: `addressing64`, `addressing32` and `vmaddrs` of optrap.c; Address.Spec is the
--     processor's own rule.
--   Operand: `get_x64regs`, `get_rexregs` and `get_vexregs` of optrap.c.
--   Bmi: bmi.h, width by width, in Bmi.Words, Bmi.Flags, Bmi.Ops64 and Bmi.Ops32; bmi.c in
--     Bmi.Dispatch64, Bmi.Dispatch32 and Bmi.
--   Aes: aesins.c in Aes.Tables and Aes.Block, aes.h in Aes.Rounds and Aes.ClMul, aes.c in
--     Aes.ClMul and Aes.Dispatch.
--   Trap: the second halves of `rex_ins` and `vex_ins`, and `opemu_utrap`, of optrap.c.
--     Trap.Contract joins what the handlers owe; Trap.Progress is about many traps in a row,
--     Trap.Shadow about the opcodes that one handler keeps from those behind it, and Trap.Reach about
--     the states that traps and programs lead to.
--   Half: half.c.
--   Handler: what a `_instruction` function is, and what it owes its caller.
--   Simd: the shape that the vector handlers share. A `switch` is the list of its cases in the
--     order of the source: `Case` has the opcode, prefix and leading opcode that are tested, and
--     `Write` what is written. Simd.Loops has the loops over lanes and the saturation macros of
--     optrap.h; Simd.Encodings is about the encodings that a switch has.
--   Fpins: fpins.c. `isNaN_f64` and `isNaN_f32` are in Sse2.Compare and Sse.Compare.
--   Sse: vsse.h in Sse.Moves, Sse.Floats and Sse.Compare, and vsse.c in Sse.Dispatch; Sse.Compare
--     has the comparisons at the end of vsse.c too.
--   Avx: avx.h in Avx.Moves, Avx.Permute and Avx.Shift, and avx.c in Avx.Dispatch.
--   Gather: vgather.h in Gather.Lanes, and vgather.c in Gather.Dispatch.
--   Fma: fma.h in Fma.Lanes, and fma.c in Fma.Dispatch. The three forms of an operation are one
--     function with the form as an argument.
--   Ssse3: vssse3.h, and vssse3.c in Ssse3.Dispatch.
--   F16c: f16c.h and f16c.c.
--   Pcmpstr: pcmpstr.c. Sse42: vsse42.h and vsse42.c.
--   Sse2: vsse2.h in Sse2.Integer, Sse2.Moves, Sse2.Shuffle, Sse2.Floats and Sse2.Compare; vsse2.c,
--     by its own headings, in Sse2.Xmm and Sse2.Ymm, joined in Sse2.Dispatch.
--   Hook: trap_hook.c over a kernel that is a parameter; Hook.Trap has its trap handlers.
--   Sse3: vsse3.h, and vsse3.c in Sse3.Dispatch.
--   Sse41: vsse41.h in Sse41.Integer, Sse41.Select, Sse41.Floats and Sse41.Other, and vsse41.c in
--     Sse41.Dispatch.
--   Tests: runs and instances on concrete inputs.
--   Common: numbers as words, the digits of a number, lanes, lists and Boolean tests.
--
-- Numbers. A word of `w` bits is a number below 2 ^ w, and every wrap-around is written out; a
-- signed value is its pattern. A register of 128 or 256 bits is one number, and a union's views
-- are its lanes.
--
-- Loops. `cl_mul` runs on a count of 128, which is enough for a number of 128 bits; the loop of
-- `HalfToFloat` on a count of 10, enough for a mantissa that is not 0; the loops of `pdep` and
-- `pext` on the width, which is their own bound.
--
-- What C leaves open is an argument: `Frame` holds what the locals of a handler and the stack
-- behind them contain, `wide`, `wide_shift` or `shift_beyond` what a shift by the width or more
-- gives.
--
-- Arithmetic of doubles and floats is what the compiler and the processor make of it: `FloatOps` of
-- Fpins has the operations on patterns, and the casts. Comparisons, the tests for NaN, the rounding
-- functions and the loops of the square roots, with the 100 turns of the source, are modelled.
--
-- `_load_maddr_from_xmm` and `_load_maddr_from_ymm` assign to their own parameter: `to_memory` of
-- `Write` changes nothing.
--
-- Not modelled: the effect of VLDMXCSR on MXCSR; printed messages; the bytes that a write of 32
-- bytes to a local of 16 destroys, or one of 16 or 32 to a parameter of 8, and those behind a mask
-- union whose loop runs beyond it.
pub mod Common
pub mod Machine
pub mod Decode
pub mod Address
pub mod Operand
pub mod Handler
pub mod Fpins
pub mod Bmi
pub mod Aes
pub mod Trap
pub mod Half
pub mod Hook
pub mod Simd
pub mod Ssse3
pub mod F16c
pub mod Pcmpstr
pub mod Sse42
pub mod Sse2
pub mod Sse3
pub mod Sse41
pub mod Sse
pub mod Avx
pub mod Gather
pub mod Fma
pub mod Tests
