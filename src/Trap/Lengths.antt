-- ===== src/Trap/Lengths.antt =====
-- By how much `opemu_utrap` moves on over VEX instructions.
use opemu_linux.Common.{ℕ, ◌+◌, ◌≤◌, ◌≡◌, arith, refl, trunc, true, false}
use opemu_linux.Common.{◌==◌, if◌then◌else◌, some, ◌∙◌}
use opemu_linux.Machine.{ObjectFile, Cpu, Bytes}
use opemu_linux.Decode.Length.{get_consumed, get_consumed_bounds}
use opemu_linux.Decode.Rex.{Insn}
use opemu_linux.Decode.Vex.{vex_decode}
use opemu_linux.Decode.Laws.{vex_decode-IsFramed}
use opemu_linux.Aes.Dispatch.{vaes_instruction}
use opemu_linux.Aes.DispatchLaws.{is_aes_opcode, is_aes_insn, vaes_instruction-handles}
use opemu_linux.Bmi.Laws.{is_bmi_opcode, takes_imm, bmi_instruction-handles}
use opemu_linux.Operand.{Frame}
use opemu_linux.Simd.Laws.{has_opcode-above, run_switch-refuses, by_size-refuses, by_size-above}
use opemu_linux.Fpins.{FloatOps}
use opemu_linux.F16c.{f16c_instruction}
use opemu_linux.Ssse3.Dispatch.{vssse3_instruction}
use opemu_linux.Avx.Dispatch.{avx_instruction}
use opemu_linux.Gather.Dispatch.{vgather_cases, vgather_instruction}
use opemu_linux.Fma.Dispatch.{fma_instruction}
use opemu_linux.Sse.Dispatch.{vsse_instruction}
use opemu_linux.Sse42.{vsse42_instruction}
use opemu_linux.Sse41.Dispatch.{vsse41_instruction}
use opemu_linux.Sse3.Dispatch.{vsse3_instruction}
use opemu_linux.Sse2.Dispatch.{vsse2_instruction}
use opemu_linux.Handler.{Handler}
use opemu_linux.Trap.{
  Emulator, bmi_handler, or_else, vex_handlers, vex_if, vex_ins, emulate, skip_bytes, opemu_utrap,
}
use opemu_linux.Trap.Laws.{code_at, verdict, opemu_utrap-runs_once, rex_ins-vex}

-- A result that is not 0 is kept by every later handler.
pub or_else-done : (h : Handler) (i : Insn) (r : Cpu × ℕ) → 1 ≤ r.1 → or_else h i r ≡ r
unfolding or_else
or_else-done h i r p = let some_bytes : (r.1 == 0) ≡ false = ground arith in rw some_bytes refl

pub or_else-next :
    (h : Handler) (i : Insn) (cpu : Cpu)
    → or_else h i (cpu, 0)
      ≡ (let next = h cpu (record i { ins_size = 0 }) in (next.0, trunc 8 next.1))
unfolding or_else
or_else-next h i cpu = refl

pub emulate-vex :
    (em : Emulator) (code : Bytes) (cpu : Cpu) (i : Insn)
    → vex_decode code ≡ some i
    → emulate em code cpu ≡ vex_handlers em cpu i
unfolding emulate vex_ins vex_if
emulate-vex em code cpu i h = rw (rex_ins-vex em code cpu i h, h) refl

-- Once the size is not 0 the handlers from `vsse` on change nothing.
module _ (em : Emulator) (i : Insn) (r : Cpu × ℕ) (p : 1 ≤ r.1) where
  pub sse_done :
      or_else (vsse42_instruction em.vsse42_frame) i (
        or_else (vsse41_instruction em.floats em.vsse41_unset em.vsse41_frame) i (
          or_else (vssse3_instruction em.vssse3_frame) i (
            or_else (vsse3_instruction em.floats em.vsse3_frame) i (
              or_else
                (vsse2_instruction em.floats em.vsse2_frame)
                i
                (or_else (vsse_instruction em.floats em.vsse_frame) i r)))))
      ≡ r
  sse_done =
      rw
        (
          or_else-done (vsse_instruction em.floats em.vsse_frame) i r p,
          or_else-done (vsse2_instruction em.floats em.vsse2_frame) i r p,
          or_else-done (vsse3_instruction em.floats em.vsse3_frame) i r p,
          or_else-done (vssse3_instruction em.vssse3_frame) i r p,
          or_else-done (vsse41_instruction em.floats em.vsse41_unset em.vsse41_frame) i r p,
        )
        (or_else-done (vsse42_instruction em.vsse42_frame) i r p)

vex_handlers-first :
    (em : Emulator) (cpu : Cpu) (i : Insn)
    → let r = vaes_instruction em.vaes_frame em.vaes_wide_frame cpu i in
      1 ≤ r.1 → vex_handlers em cpu i ≡ r
unfolding vex_handlers
vex_handlers-first em cpu i p =
    let r = vaes_instruction em.vaes_frame em.vaes_wide_frame cpu i in
    rw
      (
        or_else-done (avx_instruction em.floats em.avx_frame) i r p,
        or_else-done (vgather_instruction em.vgather_frame) i r p,
        or_else-done (fma_instruction em.floats em.fma_frame) i r p,
        or_else-done (f16c_instruction em.f16c_frame) i r p,
        or_else-done (bmi_handler em) i r p,
      )
      (sse_done em i r p)

-- An instruction with an opcode of the AES switch that is no AES instruction, such as VPAND, is
-- skipped: nothing but the instruction pointer changes, and the trap counts as handled.
pub opemu_utrap-swallows :
    (em : Emulator) (memory : ℕ → ℕ) (cpu : Cpu) (i : Insn)
    → vex_decode (code_at memory cpu.regs) ≡ some i
    → is_aes_opcode i.opcode ≡ true
    → is_aes_insn i ≡ false
    → opemu_utrap em memory cpu ≡ (skip_bytes (i.ins_size + get_consumed i.modrm) cpu, 1)
opemu_utrap-swallows em memory cpu i h op other =
    let framed = vex_decode-IsFramed (code_at memory cpu.regs) i h in
    let size = get_consumed_bounds i.modrm in
    let r = vaes_instruction em.vaes_frame em.vaes_wide_frame cpu i in
    let handled = vaes_instruction-handles em.vaes_frame em.vaes_wide_frame cpu i in
    let same : r ≡ (cpu, i.ins_size + get_consumed i.modrm) = ground arith in
    let kept : vex_handlers em cpu i ≡ (cpu, i.ins_size + get_consumed i.modrm) =
      vex_handlers-first em cpu i (rw same (ground arith)) ∙ same in
    opemu_utrap-runs_once em memory cpu
    ∙ rw (emulate-vex em (code_at memory cpu.regs) cpu i h, kept) (ground arith)

f16c-refuses :
    (fr : Frame) (cpu : Cpu) (i : Insn)
    → is_bmi_opcode i.opcode ≡ true
    → f16c_instruction fr cpu i ≡ (cpu, 0)
unfolding f16c_instruction
f16c-refuses fr cpu i h = by_size-refuses ObjectFile.f16c cpu i _ _ (ground arith) (ground arith)

-- The opcodes of BMI are above those of the handlers that are asked before.
bmi_high : (opcode : ℕ) → is_bmi_opcode opcode ≡ true → 0xF0 ≤ opcode
bmi_high opcode h = ground arith

module _ (fp : FloatOps) (fr : Frame) (cpu : Cpu) (i : Insn)
    (op : is_bmi_opcode i.opcode ≡ true) where
  avx-refuses : avx_instruction fp fr cpu i ≡ (cpu, 0)
  unfolding avx_instruction
  avx-refuses = by_size-above ObjectFile.avx 0xF0 cpu i _ _ refl refl (bmi_high i.opcode op)

  fma-refuses : fma_instruction fp fr cpu i ≡ (cpu, 0)
  unfolding fma_instruction
  fma-refuses = by_size-above ObjectFile.fma 0xF0 cpu i _ _ refl refl (bmi_high i.opcode op)

  vgather-refuses : vgather_instruction fr cpu i ≡ (cpu, 0)
  unfolding vgather_instruction
  vgather-refuses =
      run_switch-refuses ObjectFile.vgather cpu i (vgather_cases fr cpu i)
        (has_opcode-above 0xF0 i.opcode (vgather_cases fr cpu i) refl (bmi_high i.opcode op))

-- What `vex_ins` does with an opcode of BMI: the four handlers before let it pass.
module _ (em : Emulator) (cpu : Cpu) (i : Insn) (op : is_bmi_opcode i.opcode ≡ true) where
  bmi_reached :
      let r = bmi_handler em cpu (record i { ins_size = 0 }) in
      1 ≤ trunc 8 r.1 → vex_handlers em cpu i ≡ (r.0, trunc 8 r.1)
  unfolding vex_handlers
  bmi_reached p =
      let refused : vaes_instruction em.vaes_frame em.vaes_wide_frame cpu i ≡ (cpu, 0) =
        (let handled = vaes_instruction-handles em.vaes_frame em.vaes_wide_frame cpu i in
          ground arith) in
      let r = bmi_handler em cpu (record i { ins_size = 0 }) in
      rw
        (
          refused,
          or_else-next (avx_instruction em.floats em.avx_frame) i cpu,
          avx-refuses em.floats em.avx_frame cpu (record i { ins_size = 0 }) op,
          or_else-next (vgather_instruction em.vgather_frame) i cpu,
          vgather-refuses em.floats em.vgather_frame cpu (record i { ins_size = 0 }) op,
          or_else-next (fma_instruction em.floats em.fma_frame) i cpu,
          fma-refuses em.floats em.fma_frame cpu (record i { ins_size = 0 }) op,
          or_else-next (f16c_instruction em.f16c_frame) i cpu,
          f16c-refuses em.f16c_frame cpu (record i { ins_size = 0 }) op,
          or_else-next (bmi_handler em) i cpu,
        )
        (sse_done em i (r.0, trunc 8 r.1) p)

  -- A BMI instruction is executed, but the size that is returned leaves out the prefix and the
  -- opcode: the instruction pointer moves on by the operand and the immediate only.
  pub opemu_utrap-bmi :
      (memory : ℕ → ℕ)
      → vex_decode (code_at memory cpu.regs) ≡ some i
      → opemu_utrap em memory cpu ≡ (
        skip_bytes
            (get_consumed i.modrm + (if takes_imm i then 1 else 0))
            (bmi_handler em cpu (record i { ins_size = 0 })).0,
        1,
      )
  opemu_utrap-bmi memory h =
      let i0 = record i { ins_size = 0 } in
      let bounds = get_consumed_bounds i.modrm in
      let handled = bmi_instruction-handles em.wide_shift em.bmi_frame cpu.regs i0 in
      let size : (bmi_handler em cpu i0).1 ≡ get_consumed i.modrm + (if takes_imm i then 1 else 0) =
        unfold bmi_handler in ground arith in
      let n = get_consumed i.modrm + (if takes_imm i then 1 else 0) in
      let fits : trunc 8 n ≡ n = ground arith in
      let one : verdict n ≡ 1 = ground arith in
      opemu_utrap-runs_once em memory cpu
      ∙ rw
          (
            emulate-vex em (code_at memory cpu.regs) cpu i h,
            bmi_reached (rw size (ground arith)),
            size,
          )
          (rw (fits, one) refl)
