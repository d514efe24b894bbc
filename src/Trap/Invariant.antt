-- ===== src/Trap/Invariant.antt =====
-- No trap writes to the VYMM variables of optrap.o.
use opemu_linux.Common.{refl, ℕ, ◌+◌, Option, none, some, Bool, true, false, if◌then◌else◌}
use opemu_linux.Machine.{Cpu, Bytes, ObjectFile}
use opemu_linux.Machine.Copies.{IsUntouched}
use opemu_linux.Decode.Rex.{Insn, rex_decode}
use opemu_linux.Decode.Vex.{vex_decode}
use opemu_linux.Handler.{Handler}
use opemu_linux.Simd.Copies.{run_switch-IsUntouched, by_size-IsUntouched}
use opemu_linux.Aes.Dispatch.{vaes_instruction}
use opemu_linux.Aes.Copies.{aes_instruction-IsUntouched, vaes_instruction-IsUntouched}
use opemu_linux.F16c.{f16c_instruction}
use opemu_linux.Ssse3.Dispatch.{vssse3_instruction}
use opemu_linux.Avx.Dispatch.{avx_instruction}
use opemu_linux.Gather.Dispatch.{vgather_cases, vgather_instruction}
use opemu_linux.Fma.Dispatch.{fma_instruction}
use opemu_linux.Sse.Dispatch.{vsse_instruction}
use opemu_linux.Sse42.{vsse42_instruction}
use opemu_linux.Sse41.Dispatch.{vsse41_instruction}
use opemu_linux.Sse3.Dispatch.{vsse3_instruction}
use opemu_linux.Sse2.Dispatch.{vsse2_instruction}
use opemu_linux.Trap.{
  Emulator, bmi_handler, or_else, rex_ins, vex_handlers, vex_if, vex_ins, emulate, skip_bytes,
  run_at, utrap32, opemu_utrap,
}

-- A handler that leaves them as they are.
abbrev Keeps : Handler → Type 0
Keeps h = (cpu : Cpu) (i : Insn) → IsUntouched cpu → IsUntouched (h cpu i).0

either :
    (b : Bool) (x y : Cpu × ℕ)
    → IsUntouched x.0
    → IsUntouched y.0
    → let r : Cpu × ℕ = if b then x else y in IsUntouched r.0
either true x y hx hy = hx
either false x y hx hy = hy

or_else-IsUntouched :
    (h : Handler) (i : Insn) (r : Cpu × ℕ)
    → Keeps h
    → IsUntouched r.0
    → IsUntouched (or_else h i r).0
unfolding or_else
or_else-IsUntouched h i r keeps is = either _ _ _ (keeps r.0 _ is) is

module _ (em : Emulator) where
  bmi_handler-Keeps : Keeps (bmi_handler em)
  unfolding bmi_handler
  bmi_handler-Keeps cpu i is = record { still_zero = is.still_zero }

  f16c-Keeps : Keeps (f16c_instruction em.f16c_frame)
  unfolding f16c_instruction
  f16c-Keeps cpu i is = by_size-IsUntouched ObjectFile.f16c refl cpu i _ _ is

  vsse2-Keeps : Keeps (vsse2_instruction em.floats em.vsse2_frame)
  unfolding vsse2_instruction
  vsse2-Keeps cpu i is = by_size-IsUntouched ObjectFile.vsse2 refl cpu i _ _ is

  vsse3-Keeps : Keeps (vsse3_instruction em.floats em.vsse3_frame)
  unfolding vsse3_instruction
  vsse3-Keeps cpu i is = by_size-IsUntouched ObjectFile.vsse3 refl cpu i _ _ is

  vsse41-Keeps : Keeps (vsse41_instruction em.floats em.vsse41_unset em.vsse41_frame)
  unfolding vsse41_instruction
  vsse41-Keeps cpu i is = by_size-IsUntouched ObjectFile.vsse41 refl cpu i _ _ is

  avx-Keeps : Keeps (avx_instruction em.floats em.avx_frame)
  unfolding avx_instruction
  avx-Keeps cpu i is = by_size-IsUntouched ObjectFile.avx refl cpu i _ _ is

  vgather-Keeps : Keeps (vgather_instruction em.vgather_frame)
  unfolding vgather_instruction
  vgather-Keeps cpu i is =
      run_switch-IsUntouched ObjectFile.vgather refl cpu i (vgather_cases em.vgather_frame cpu i) is

  fma-Keeps : Keeps (fma_instruction em.floats em.fma_frame)
  unfolding fma_instruction
  fma-Keeps cpu i is = by_size-IsUntouched ObjectFile.fma refl cpu i _ _ is

  vsse-Keeps : Keeps (vsse_instruction em.floats em.vsse_frame)
  unfolding vsse_instruction
  vsse-Keeps cpu i is = by_size-IsUntouched ObjectFile.vsse refl cpu i _ _ is

  vssse3-Keeps : Keeps (vssse3_instruction em.vssse3_frame)
  unfolding vssse3_instruction
  vssse3-Keeps cpu i is = by_size-IsUntouched ObjectFile.vssse3 refl cpu i _ _ is

  vsse42-Keeps : Keeps (vsse42_instruction em.vsse42_frame)
  unfolding vsse42_instruction
  vsse42-Keeps cpu i is = by_size-IsUntouched ObjectFile.vsse42 refl cpu i _ _ is

module _ (em : Emulator) where
  vex_handlers-Keeps : Keeps (vex_handlers em)
  unfolding vex_handlers
  vex_handlers-Keeps cpu i is =
      let r0 : Cpu × ℕ = vaes_instruction em.vaes_frame em.vaes_wide_frame cpu i in
      let r1 : Cpu × ℕ = or_else (avx_instruction em.floats em.avx_frame) i r0 in
      let r2 : Cpu × ℕ = or_else (vgather_instruction em.vgather_frame) i r1 in
      let r3 : Cpu × ℕ = or_else (fma_instruction em.floats em.fma_frame) i r2 in
      let r4 : Cpu × ℕ = or_else (f16c_instruction em.f16c_frame) i r3 in
      let r5 : Cpu × ℕ = or_else (bmi_handler em) i r4 in
      let r6 : Cpu × ℕ = or_else (vsse_instruction em.floats em.vsse_frame) i r5 in
      let r7 : Cpu × ℕ = or_else (vsse2_instruction em.floats em.vsse2_frame) i r6 in
      let r8 : Cpu × ℕ = or_else (vsse3_instruction em.floats em.vsse3_frame) i r7 in
      let r9 : Cpu × ℕ = or_else (vssse3_instruction em.vssse3_frame) i r8 in
      let r10 : Cpu × ℕ =
        or_else (vsse41_instruction em.floats em.vsse41_unset em.vsse41_frame) i r9 in
      let i0 = vaes_instruction-IsUntouched em.vaes_frame em.vaes_wide_frame cpu i is in
      let i1 =
        or_else-IsUntouched (avx_instruction em.floats em.avx_frame) i r0 (avx-Keeps em) i0 in
      let i2 =
        or_else-IsUntouched (vgather_instruction em.vgather_frame) i r1 (vgather-Keeps em) i1 in
      let i3 =
        or_else-IsUntouched (fma_instruction em.floats em.fma_frame) i r2 (fma-Keeps em) i2 in
      let i4 = or_else-IsUntouched (f16c_instruction em.f16c_frame) i r3 (f16c-Keeps em) i3 in
      let i5 = or_else-IsUntouched (bmi_handler em) i r4 (bmi_handler-Keeps em) i4 in
      let i6 =
        or_else-IsUntouched (vsse_instruction em.floats em.vsse_frame) i r5 (vsse-Keeps em) i5 in
      let i7 =
        or_else-IsUntouched (vsse2_instruction em.floats em.vsse2_frame) i r6 (vsse2-Keeps em) i6 in
      let i8 =
        or_else-IsUntouched (vsse3_instruction em.floats em.vsse3_frame) i r7 (vsse3-Keeps em) i7 in
      let i9 = or_else-IsUntouched (vssse3_instruction em.vssse3_frame) i r8 (vssse3-Keeps em) i8 in
      let i10 =
        or_else-IsUntouched (vsse41_instruction em.floats em.vsse41_unset em.vsse41_frame) i r9
          (vsse41-Keeps em) i9 in
      or_else-IsUntouched (vsse42_instruction em.vsse42_frame) i r10 (vsse42-Keeps em) i10

  vex_if-IsUntouched :
      (cpu : Cpu) (o : Option Insn) → IsUntouched cpu → IsUntouched (vex_if em cpu o).0
  unfolding vex_if
  vex_if-IsUntouched cpu none is = is
  vex_if-IsUntouched cpu (some i) is = vex_handlers-Keeps cpu i is

  emulate-IsUntouched :
      (code : Bytes) (cpu : Cpu) → IsUntouched cpu → IsUntouched (emulate em code cpu).0
  unfolding emulate rex_ins vex_ins
  emulate-IsUntouched code cpu is =
      let first = aes_instruction-IsUntouched em.aes_frame cpu (rex_decode code) is in
      either _ _ _ (vex_if-IsUntouched _ (vex_decode code) first) first

  run_at-IsUntouched :
      (memory : ℕ → ℕ) (addr : ℕ) (cpu : Cpu)
      → IsUntouched cpu
      → IsUntouched (run_at em memory addr cpu).0
  unfolding run_at skip_bytes
  run_at-IsUntouched memory addr cpu is =
      let r = emulate-IsUntouched (λ d. memory (addr + d)) cpu is in
      record { still_zero = r.still_zero }

  utrap32-IsUntouched :
      (memory : ℕ → ℕ) (cpu : Cpu) → IsUntouched cpu → IsUntouched (utrap32 em memory cpu).0
  unfolding utrap32
  utrap32-IsUntouched memory cpu is = either _ _ _ (run_at-IsUntouched memory _ cpu is) is

  pub opemu_utrap-IsUntouched :
      (memory : ℕ → ℕ) (cpu : Cpu) → IsUntouched cpu → IsUntouched (opemu_utrap em memory cpu).0
  unfolding opemu_utrap
  opemu_utrap-IsUntouched memory cpu is =
      let first = run_at-IsUntouched memory cpu.regs.ip cpu is in
      either _ _ _ (either _ _ _ first (utrap32-IsUntouched memory _ first))
        (utrap32-IsUntouched memory cpu is)
