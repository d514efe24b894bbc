-- ===== src/Trap/Shadow.antt =====
-- Opcodes that `avx_instruction` keeps from the handlers behind it: `vex_ins` of optrap.c asks it
-- first, and a switch returns a size for every opcode that it has.
use opemu_linux.Common.{
  ℕ, ◌+◌, ◌≤◌, ◌≡◌, ◌∙◌, arith, refl, ap, trunc, Bool, true, false, List, [], ◌∷◌, some, ◌==◌,
  if◌then◌else◌,
}
use opemu_linux.Machine.{ObjectFile, Cpu}
use opemu_linux.Decode.Length.{get_consumed, get_consumed_bounds}
use opemu_linux.Decode.Rex.{Insn}
use opemu_linux.Decode.Vex.{vex_decode}
use opemu_linux.Operand.{Frame}
use opemu_linux.Simd.Encodings.{
  Encoding, map_0f, map_38, map_3a, knows, fits, by_size_encodings, by_size-skips,
}
use opemu_linux.Fpins.{FloatOps}
use opemu_linux.Aes.Dispatch.{vaes_instruction}
use opemu_linux.Aes.DispatchLaws.{is_aes_opcode, vaes_instruction-handles}
use opemu_linux.Avx.Dispatch.{avx_instruction}
use opemu_linux.Gather.Dispatch.{vgather_instruction}
use opemu_linux.Fma.Dispatch.{fma_instruction}
use opemu_linux.F16c.{f16c_instruction}
use opemu_linux.Sse.Dispatch.{vsse_instruction}
use opemu_linux.Sse2.Dispatch.{vsse2_instruction}
use opemu_linux.Sse3.Dispatch.{vsse3_instruction}
use opemu_linux.Ssse3.Dispatch.{vssse3_instruction}
use opemu_linux.Sse41.Dispatch.{vsse41_instruction}
use opemu_linux.Sse42.{vsse42_instruction}
use opemu_linux.Trap.{Emulator, bmi_handler, or_else, vex_handlers, skip_bytes, opemu_utrap}
use opemu_linux.Trap.Laws.{code_at, opemu_utrap-runs_once}
use opemu_linux.Trap.Lengths.{or_else-done, or_else-next, emulate-vex, sse_done}

-- The documented encodings of the AVX and AVX2 instructions of the switches for XMM and for YMM.
abbrev xmm_encodings : List Encoding
xmm_encodings =
    map_3a 0x02
    ∷ map_3a 0x04
    ∷ map_3a 0x05
    ∷ map_38 0x0C
    ∷ map_38 0x0D
    ∷ map_38 0x0E
    ∷ map_38 0x0F
    ∷ map_38 0x18
    ∷ map_38 0x2C
    ∷ map_38 0x2E
    ∷ map_38 0x2D
    ∷ map_38 0x2F
    ∷ map_38 0x45
    ∷ map_38 0x46
    ∷ map_38 0x47
    ∷ map_38 0x78
    ∷ map_38 0x79
    ∷ map_38 0x58
    ∷ map_38 0x59
    ∷ map_0f 0x77
    ∷ map_38 0x8C
    ∷ map_38 0x8E
    ∷ []

abbrev ymm_encodings : List Encoding
ymm_encodings =
    map_3a 0x00
    ∷ map_3a 0x01
    ∷ map_3a 0x02
    ∷ map_3a 0x04
    ∷ map_3a 0x05
    ∷ map_3a 0x06
    ∷ map_38 0x0C
    ∷ map_38 0x0D
    ∷ map_38 0x0E
    ∷ map_38 0x0F
    ∷ map_38 0x16
    ∷ map_38 0x18
    ∷ map_3a 0x18
    ∷ map_38 0x19
    ∷ map_3a 0x19
    ∷ map_38 0x1A
    ∷ map_38 0x2C
    ∷ map_38 0x2E
    ∷ map_38 0x2D
    ∷ map_38 0x2F
    ∷ map_38 0x36
    ∷ map_3a 0x38
    ∷ map_3a 0x39
    ∷ map_38 0x45
    ∷ map_38 0x46
    ∷ map_3a 0x46
    ∷ map_38 0x47
    ∷ map_0f 0x77
    ∷ map_38 0x78
    ∷ map_38 0x79
    ∷ map_38 0x58
    ∷ map_38 0x59
    ∷ map_38 0x5A
    ∷ map_38 0x8C
    ∷ map_38 0x8E
    ∷ []

abbrev avx_encodings : ℕ → List Encoding
avx_encodings reg_size = by_size_encodings reg_size xmm_encodings ymm_encodings

avx_instruction-skips :
    (fp : FloatOps) (fr : Frame) (cpu : Cpu) (i : Insn)
    → knows (avx_encodings i.reg_size) i.opcode ≡ true
    → fits (avx_encodings i.reg_size) i.opcode i.simd_prefix i.leading_opcode ≡ false
    → avx_instruction fp fr cpu i ≡ (cpu, trunc 8 (trunc 8 (i.ins_size + get_consumed i.modrm)))
unfolding avx_instruction
avx_instruction-skips fp fr cpu i known other = by_size-skips ObjectFile.avx cpu i _ _ known other

-- No opcode of the AES switch is one of AVX.
unknown :
    (b c : Bool) (opcode : ℕ)
    → is_aes_opcode opcode ≡ true
    → knows (if b then xmm_encodings else (if c then ymm_encodings else [])) opcode ≡ false
unknown true c opcode h = ground arith
unknown false true opcode h = ground arith
unknown false false opcode h = refl

aes_or_not : (b : Bool) → (b ≡ true → ⊥) → b ≡ false
aes_or_not true h = absurd (h refl)
aes_or_not false h = refl

clash : {b : Bool} → b ≡ true → b ≡ false → ⊥
clash p q = cc

not_aes :
    (i : Insn) → knows (avx_encodings i.reg_size) i.opcode ≡ true → is_aes_opcode i.opcode ≡ false
not_aes i known =
    aes_or_not (is_aes_opcode i.opcode)
      (λ aes. clash known (unknown (i.reg_size == 128) (i.reg_size == 256) i.opcode aes))

-- The handlers behind `avx_instruction` leave a result with some bytes as it is.
module _ (em : Emulator) (i : Insn) where
  abbrev behind_avx : Cpu × ℕ → Cpu × ℕ
  behind_avx r1 =
      let r2 = or_else (vgather_instruction em.vgather_frame) i r1 in
      let r3 = or_else (fma_instruction em.floats em.fma_frame) i r2 in
      let r4 = or_else (f16c_instruction em.f16c_frame) i r3 in
      let r5 = or_else (bmi_handler em) i r4 in
      let r6 = or_else (vsse_instruction em.floats em.vsse_frame) i r5 in
      let r7 = or_else (vsse2_instruction em.floats em.vsse2_frame) i r6 in
      let r8 = or_else (vsse3_instruction em.floats em.vsse3_frame) i r7 in
      let r9 = or_else (vssse3_instruction em.vssse3_frame) i r8 in
      let r10 = or_else (vsse41_instruction em.floats em.vsse41_unset em.vsse41_frame) i r9 in
      or_else (vsse42_instruction em.vsse42_frame) i r10

  behind_avx-done : (r : Cpu × ℕ) → 1 ≤ r.1 → behind_avx r ≡ r
  behind_avx-done r p =
      rw
        (
          or_else-done (vgather_instruction em.vgather_frame) i r p,
          or_else-done (fma_instruction em.floats em.fma_frame) i r p,
          or_else-done (f16c_instruction em.f16c_frame) i r p,
          or_else-done (bmi_handler em) i r p,
        )
        (sse_done em i r p)

  vex_handlers-behind_avx :
      (cpu : Cpu)
      → vex_handlers em cpu i
        ≡ behind_avx (
            or_else
              (avx_instruction em.floats em.avx_frame)
              i
              (vaes_instruction em.vaes_frame em.vaes_wide_frame cpu i))
  unfolding vex_handlers
  vex_handlers-behind_avx cpu = refl

module _ (em : Emulator) (cpu : Cpu) (i : Insn)
    (known : knows (avx_encodings i.reg_size) i.opcode ≡ true)
    (other : fits (avx_encodings i.reg_size) i.opcode i.simd_prefix i.leading_opcode ≡ false) where
  avx_skips :
      or_else (avx_instruction em.floats em.avx_frame) i (cpu, 0) ≡ (cpu, get_consumed i.modrm)
  avx_skips =
      let bounds = get_consumed_bounds i.modrm in
      or_else-next (avx_instruction em.floats em.avx_frame) i cpu
      ∙ rw
          (avx_instruction-skips em.floats em.avx_frame cpu (record i { ins_size = 0 }) known other)
          (ground arith)

  vex_handlers-skips : vex_handlers em cpu i ≡ (cpu, get_consumed i.modrm)
  vex_handlers-skips =
      let refused : vaes_instruction em.vaes_frame em.vaes_wide_frame cpu i ≡ (cpu, 0) =
        (let no = not_aes i known in
          let handled = vaes_instruction-handles em.vaes_frame em.vaes_wide_frame cpu i in
          ground arith) in
      let first : Cpu × ℕ → Cpu × ℕ = or_else (avx_instruction em.floats em.avx_frame) i in
      vex_handlers-behind_avx em i cpu
      ∙ ap (λ r. behind_avx em i (first r)) refused
      ∙ ap (behind_avx em i) avx_skips
      ∙ behind_avx-done em i (cpu, get_consumed i.modrm) (get_consumed_bounds i.modrm).0

  -- A decoded instruction that has an opcode of `avx_instruction`, but none of its encodings, is not
  -- executed whatever the handlers behind would do with it: only the instruction pointer changes, by
  -- the length of the operand, and the trap counts as handled.
  pub opemu_utrap-shadows :
      (memory : ℕ → ℕ)
      → vex_decode (code_at memory cpu.regs) ≡ some i
      → opemu_utrap em memory cpu ≡ (skip_bytes (get_consumed i.modrm) cpu, 1)
  opemu_utrap-shadows memory h =
      let bounds = get_consumed_bounds i.modrm in
      opemu_utrap-runs_once em memory cpu
      ∙ rw (emulate-vex em (code_at memory cpu.regs) cpu i h, vex_handlers-skips) (ground arith)
