-- ===== src/Aes/Dispatch.antt =====
-- `aes_instruction` and `vaes_instruction` of aes.c.
use opemu_linux.Common.{ℕ, ◌+◌, ◌&&◌, trunc, ◌==◌, if◌then◌else◌, Option, none, some}
use opemu_linux.Machine.{Cpu, ObjectFile, load_xmm, load_ymm}
use opemu_linux.Decode.Length.{get_consumed}
use opemu_linux.Decode.Rex.{Insn}
use opemu_linux.Operand.{Frame, xmm_of, num_dst, get_rexregs, get_vexregs}
use opemu_linux.Aes.Rounds.{aesimc, aesenc, aesenclast, aesdec, aesdeclast, aeskeygenassist}
use opemu_linux.Aes.ClMul.{pclmulqdq_128, pclmulqdq_256}

-- The new state, and what is added to `ins_size`.
abbrev pub Effect : Type 0
Effect = Cpu × ℕ

module _ (cpu : Cpu) (i : Insn) where
  -- `if (simd_prefix == 1) if (leading_opcode == 2)` around the write of a result.
  unfoldable pub round_case : ℕ → Effect
  round_case res =
      if i.simd_prefix == 1 && i.leading_opcode == 2
      then (load_xmm (num_dst i) res cpu, 0)
      else (cpu, 0)

  -- 0xDF: two instructions, by the leading opcode. The second has an immediate byte.
  unfoldable pub last_case : ℕ → ℕ → Effect
  last_case round keygen =
      if i.simd_prefix == 1
      then (if i.leading_opcode == 2
          then (load_xmm (num_dst i) round cpu, 0)
          else (if i.leading_opcode == 3 then (load_xmm (num_dst i) keygen cpu, 1) else (cpu, 0)))
      else (cpu, 0)

  -- 0x44, around the write of the product.
  unfoldable pub product_case : Cpu → Effect
  product_case written =
      if i.simd_prefix == 1 && i.leading_opcode == 3 then (written, 1) else (cpu, 0)

  -- The `switch` on the opcode, the same in both functions but for the second source and for
  -- the product; `none` is its default.
  unfoldable pub switch_aes : ℕ → ℕ → ℕ → Cpu → Option Effect
  switch_aes src block imm product =
      if i.opcode == 0xDB
      then some (round_case (aesimc src))
      else (if i.opcode == 0xDC
          then some (round_case (aesenc src block))
          else (if i.opcode == 0xDD
              then some (round_case (aesenclast src block))
              else (if i.opcode == 0xDE
                  then some (round_case (aesdec src block))
                  else (if i.opcode == 0xDF
                      then some (last_case (aesdeclast src block) (aeskeygenassist src imm))
                      else (if i.opcode == 0x44 then some (product_case product) else none)))))

-- `ins_size` at the end; the default case returns 0.
unfoldable pub finish_aes : Cpu → ℕ → Option Effect → Cpu × ℕ
finish_aes cpu size none = (cpu, 0)
finish_aes cpu size (some e) = (e.0, trunc 8 (size + e.1))

unfoldable pub aes_instruction : Frame → Cpu → Insn → Cpu × ℕ
unfolding finish_aes
aes_instruction fr cpu i =
    let ops = get_rexregs fr cpu i i.reg_size in
    let consumed = get_consumed i.modrm in
    let imm = i.bytep consumed in
    let src = xmm_of ops.src in
    let dst = xmm_of ops.dst in
    finish_aes cpu (trunc 8 (i.ins_size + consumed))
      (switch_aes cpu i src dst imm (load_xmm (num_dst i) (pclmulqdq_128 src dst imm) cpu))

-- `fr` is for the XMM variables, `wide` for the YMM variables. `get_vexregs` writes 32 bytes to
-- an XMM variable when `reg_size` is 256; what the second half overwrites is not modelled.
unfoldable pub vaes_instruction : Frame → Frame → Cpu → Insn → Cpu × ℕ
unfolding finish_aes
vaes_instruction fr wide cpu i =
    let ops = get_vexregs fr cpu i i.reg_size in
    let yops = get_vexregs wide cpu i i.reg_size in
    let consumed = get_consumed i.modrm in
    let imm = i.bytep consumed in
    let src = xmm_of ops.src in
    let vsrc = xmm_of ops.vsrc in
    finish_aes cpu (trunc 8 (i.ins_size + consumed)) (
      switch_aes cpu i src vsrc imm (
        if i.reg_size == 128
        then load_xmm (num_dst i) (pclmulqdq_128 src vsrc imm) cpu
        else load_ymm ObjectFile.aes (num_dst i) (pclmulqdq_256 yops.src yops.vsrc imm) cpu))
