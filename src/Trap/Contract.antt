-- ===== src/Trap/Contract.antt =====
-- What `vex_ins` of optrap.c relies on in every handler.
use opemu_linux.Common.{ℕ, ◌≡◌, arith, refl, Option, none, some}
use opemu_linux.Machine.{Cpu, Bytes}
use opemu_linux.Decode.Length.{get_consumed_bounds}
use opemu_linux.Decode.Rex.{Insn, rex_decode}
use opemu_linux.Decode.Vex.{vex_decode}
use opemu_linux.Decode.Laws.{rex_decode-IsFramed, vex_decode-IsFramed}
use opemu_linux.Aes.Dispatch.{aes_instruction, vaes_instruction}
use opemu_linux.Aes.DispatchLaws.{aes_instruction-handles, vaes_instruction-handles}
use opemu_linux.Bmi.Laws.{bmi_instruction-handles}
use opemu_linux.F16c.{f16c_instruction, f16c_instruction-IsHandler}
use opemu_linux.Ssse3.Dispatch.{vssse3_instruction, vssse3_instruction-IsHandler}
use opemu_linux.Avx.Dispatch.{avx_instruction, avx_instruction-IsHandler}
use opemu_linux.Gather.Dispatch.{vgather_instruction, vgather_instruction-IsHandler}
use opemu_linux.Fma.Dispatch.{fma_instruction, fma_instruction-IsHandler}
use opemu_linux.Sse.Dispatch.{vsse_instruction, vsse_instruction-IsHandler}
use opemu_linux.Sse42.{vsse42_instruction, vsse42_instruction-IsHandler}
use opemu_linux.Sse41.Dispatch.{vsse41_instruction, vsse41_instruction-IsHandler}
use opemu_linux.Sse3.Dispatch.{vsse3_instruction, vsse3_instruction-IsHandler}
use opemu_linux.Sse2.Dispatch.{vsse2_instruction, vsse2_instruction-IsHandler}
use opemu_linux.Handler.{Handler, IsResult, IsHandler}
use opemu_linux.Trap.{
  Emulator, bmi_handler, or_else, rex_ins, vex_handlers, vex_if, vex_ins, emulate,
}

module _ (em : Emulator) where
  -- The handlers keep the contract with no assumption.
  aes_instruction-IsHandler : IsHandler (aes_instruction em.aes_frame)
  aes_instruction-IsHandler cpu i h =
      ground (arith, aes_instruction-handles em.aes_frame cpu i, get_consumed_bounds i.modrm)

  vaes_instruction-IsHandler : IsHandler (vaes_instruction em.vaes_frame em.vaes_wide_frame)
  vaes_instruction-IsHandler cpu i h = ground (
    arith,
    vaes_instruction-handles em.vaes_frame em.vaes_wide_frame cpu i,
    get_consumed_bounds i.modrm,
  )

  bmi_handler-IsHandler : IsHandler (bmi_handler em)
  unfolding bmi_handler
  bmi_handler-IsHandler cpu i h = ground (
    arith,
    bmi_instruction-handles em.wide_shift em.bmi_frame cpu.regs i,
    get_consumed_bounds i.modrm,
  )

or_else-IsResult :
    (h : Handler) (cpu : Cpu) (i : Insn) (r : Cpu × ℕ)
    → IsHandler h
    → IsResult cpu r
    → IsResult cpu (or_else h i r)
unfolding or_else
or_else-IsResult h cpu i r hh hr =
    let next = hh r.0 (record i { ins_size = 0 }) (omega arith) in ground arith

module _ (em : Emulator) where
  -- So the whole cascade is a handler.
  vex_handlers-IsHandler : IsHandler (vex_handlers em)
  unfolding vex_handlers
  vex_handlers-IsHandler cpu i h =
      or_else-IsResult (vsse42_instruction em.vsse42_frame) cpu i _
        (vsse42_instruction-IsHandler em.vsse42_frame)
        (or_else-IsResult (vsse41_instruction em.floats em.vsse41_unset em.vsse41_frame) cpu i _
          (vsse41_instruction-IsHandler em.floats em.vsse41_unset em.vsse41_frame)
          (or_else-IsResult (vssse3_instruction em.vssse3_frame) cpu i _
            (vssse3_instruction-IsHandler em.vssse3_frame)
            (or_else-IsResult (vsse3_instruction em.floats em.vsse3_frame) cpu i _
              (vsse3_instruction-IsHandler em.floats em.vsse3_frame)
              (or_else-IsResult (vsse2_instruction em.floats em.vsse2_frame) cpu i _
                (vsse2_instruction-IsHandler em.floats em.vsse2_frame)
                (or_else-IsResult (vsse_instruction em.floats em.vsse_frame) cpu i _
                  (vsse_instruction-IsHandler em.floats em.vsse_frame)
                  (or_else-IsResult (bmi_handler em) cpu i _ (bmi_handler-IsHandler em) (
                    or_else-IsResult (f16c_instruction em.f16c_frame) cpu i _
                      (f16c_instruction-IsHandler em.f16c_frame)
                      (or_else-IsResult (fma_instruction em.floats em.fma_frame) cpu i _
                        (fma_instruction-IsHandler em.floats em.fma_frame)
                        (or_else-IsResult (vgather_instruction em.vgather_frame) cpu i _
                          (vgather_instruction-IsHandler em.vgather_frame)
                          (or_else-IsResult (avx_instruction em.floats em.avx_frame) cpu i _
                            (avx_instruction-IsHandler em.floats em.avx_frame)
                            (vaes_instruction-IsHandler em cpu i h)))))))))))

  rex_ins-IsResult : (code : Bytes) (cpu : Cpu) → IsResult cpu (rex_ins em code cpu)
  unfolding rex_ins
  rex_ins-IsResult code cpu =
      let size = (rex_decode-IsFramed code).size_high in
      aes_instruction-IsHandler em cpu (rex_decode code) (omega arith)

  vex_if-IsResult :
      (code : Bytes) (cpu : Cpu) (o : Option Insn)
      → vex_decode code ≡ o
      → IsResult cpu (vex_if em cpu o)
  unfolding vex_if
  vex_if-IsResult code cpu none h = record {
    same_ip = refl;
    same_cs = refl;
    idle = λ _. refl;
    byte = omega arith;
  }
  vex_if-IsResult code cpu (some i) h =
      let size = (vex_decode-IsFramed code i h).0.size_high in
      vex_handlers-IsHandler cpu i (omega arith)

  vex_ins-IsResult : (code : Bytes) (cpu : Cpu) → IsResult cpu (vex_ins em code cpu)
  unfolding vex_ins
  vex_ins-IsResult code cpu = vex_if-IsResult code cpu (vex_decode code) refl

  pub emulate-IsResult : (code : Bytes) (cpu : Cpu) → IsResult cpu (emulate em code cpu)
  unfolding emulate
  emulate-IsResult code cpu =
      let first = rex_ins-IsResult code cpu in
      let second = vex_ins-IsResult code (rex_ins em code cpu).0 in ground arith
