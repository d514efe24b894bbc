-- ===== src/Trap.antt =====
-- The emulation of one trapped instruction: `rex_ins`, `vex_ins` and `opemu_utrap` of optrap.c.
pub mod Contract
pub mod Laws
pub mod Lengths
pub mod Shadow
pub mod Invariant
pub mod Reach
pub mod Progress
use opemu_linux.Common.{ℕ, ◌+◌, ◌==◌, ◌&&◌, if◌then◌else◌, trunc, Option, none, some}
use opemu_linux.Machine.{Regs, Cpu, Bytes, is_saved_state64, is_saved_state32}
use opemu_linux.Decode.Rex.{Insn, rex_decode}
use opemu_linux.Decode.Vex.{vex_decode}
use opemu_linux.Operand.{Frame}
use opemu_linux.Handler.{Handler}
use opemu_linux.Aes.Dispatch.{aes_instruction, vaes_instruction}
use opemu_linux.Bmi.{bmi_instruction}
use opemu_linux.F16c.{f16c_instruction}
use opemu_linux.Ssse3.Dispatch.{vssse3_instruction}
use opemu_linux.Avx.Dispatch.{avx_instruction}
use opemu_linux.Gather.Dispatch.{vgather_instruction}
use opemu_linux.Fma.Dispatch.{fma_instruction}
use opemu_linux.Sse.Dispatch.{vsse_instruction}
use opemu_linux.Sse42.{vsse42_instruction}
use opemu_linux.Fpins.{FloatOps}
use opemu_linux.Sse3.Dispatch.{vsse3_instruction}
use opemu_linux.Sse41.Dispatch.{vsse41_instruction}
use opemu_linux.Sse2.Dispatch.{vsse2_instruction}

-- What the C language and the processor leave open in the handlers: the stack frames, shifts that are
-- too wide, and the arithmetic of floats.
pub record Emulator : Type 0 where
  pub floats : FloatOps
  pub avx_frame : Frame
  pub vgather_frame : Frame
  pub fma_frame : Frame
  pub vsse_frame : Frame
  pub f16c_frame : Frame
  pub vsse2_frame : Frame
  pub vsse3_frame : Frame
  pub vssse3_frame : Frame
  pub vsse41_frame : Frame
  -- What the local `src1_byte` of vmpsadbw holds before it is set.
  pub vsse41_unset : ℕ
  pub vsse42_frame : Frame
  pub aes_frame : Frame
  pub vaes_frame : Frame
  pub vaes_wide_frame : Frame
  pub bmi_frame : Frame
  pub wide_shift : ℕ → ℕ

-- `bmi_instruction` has no vector registers to change.
unfoldable pub bmi_handler : Emulator → Handler
bmi_handler em cpu i =
    let r = bmi_instruction em.wide_shift em.bmi_frame cpu.regs i in
    (record cpu { regs = r.0 }, r.1)

-- `if (ins_size == 0) ins_size = h(..., ins_size, ...)`. What is passed on is the 0; what is
-- returned goes into a byte.
unfoldable pub or_else : Handler → Insn → Cpu × ℕ → Cpu × ℕ
or_else h i r =
    if r.1 == 0
    then (let next = h r.0 (record i { ins_size = r.1 }) in (next.0, trunc 8 next.1))
    else r

unfoldable pub rex_ins : Emulator → Bytes → Cpu → Cpu × ℕ
rex_ins em code cpu = aes_instruction em.aes_frame cpu (rex_decode code)

-- The calls in the order of the source.
unfoldable pub vex_handlers : Emulator → Cpu → Insn → Cpu × ℕ
unfolding or_else
vex_handlers em cpu i =
    let r0 = vaes_instruction em.vaes_frame em.vaes_wide_frame cpu i in
    let r1 = or_else (avx_instruction em.floats em.avx_frame) i r0 in
    let r2 = or_else (vgather_instruction em.vgather_frame) i r1 in
    let r3 = or_else (fma_instruction em.floats em.fma_frame) i r2 in
    let r4 = or_else (f16c_instruction em.f16c_frame) i r3 in
    let r5 = or_else (bmi_handler em) i r4 in
    let r6 = or_else (vsse_instruction em.floats em.vsse_frame) i r5 in
    let r7 = or_else (vsse2_instruction em.floats em.vsse2_frame) i r6 in
    let r8 = or_else (vsse3_instruction em.floats em.vsse3_frame) i r7 in
    let r9 = or_else (vssse3_instruction em.vssse3_frame) i r8 in
    let r10 = or_else (vsse41_instruction em.floats em.vsse41_unset em.vsse41_frame) i r9 in
    or_else (vsse42_instruction em.vsse42_frame) i r10

-- Without a VEX prefix `vex_ins` returns 0.
unfoldable pub vex_if : Emulator → Cpu → Option Insn → Cpu × ℕ
vex_if em cpu none = (cpu, 0)
vex_if em cpu (some i) = vex_handlers em cpu i

unfoldable pub vex_ins : Emulator → Bytes → Cpu → Cpu × ℕ
unfolding vex_if
vex_ins em code cpu = vex_if em cpu (vex_decode code)

-- `bytes_skip` after both emulators.
unfoldable pub emulate : Emulator → Bytes → Cpu → Cpu × ℕ
emulate em code cpu = let r = rex_ins em code cpu in if r.1 == 0 then vex_ins em code r.0 else r

-- `regs->ip += bytes_skip`
unfoldable pub skip_bytes : ℕ → Cpu → Cpu
skip_bytes n cpu = record cpu { regs = record cpu.regs { ip = trunc 64 (cpu.regs.ip + n) } }

-- One of the two blocks: the code is the user's memory from `addr` on.
unfoldable pub run_at : Emulator → (ℕ → ℕ) → ℕ → Cpu → Cpu × ℕ
unfolding skip_bytes
run_at em memory addr cpu =
    let r = emulate em (λ d. memory (addr + d)) cpu in (skip_bytes r.1 r.0, r.1)

-- The second block, and the value that is returned at the end.
unfoldable pub utrap32 : Emulator → (ℕ → ℕ) → Cpu → Cpu × ℕ
utrap32 em memory cpu =
    if is_saved_state32 cpu.regs
    then (let r = run_at em memory (trunc 32 cpu.regs.ip) cpu in (r.0, if r.1 == 0 then 0 else 1))
    else (cpu, 1)

unfoldable pub opemu_utrap : Emulator → (ℕ → ℕ) → Cpu → Cpu × ℕ
opemu_utrap em memory cpu =
    if is_saved_state64 cpu.regs
    then (let r = run_at em memory cpu.regs.ip cpu in
        if r.1 == 0 then (r.0, 0) else utrap32 em memory r.0)
    else utrap32 em memory cpu
