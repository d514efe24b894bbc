-- ===== src/Bmi/Dispatch64.antt =====
-- The opcodes of `bmi_instruction` (bmi.c) in 64-bit mode. Each function is one `case`; a case whose
-- prefix tests fail does nothing, and the instruction still counts as handled.
use opemu_linux.Common.{ℕ, ◌&&◌, ◌==◌, if◌then◌else◌, Option, none, some}
use opemu_linux.Machine.{Regs, load_m64}
use opemu_linux.Decode.Rex.{Insn}
use opemu_linux.Operand.{Frame, Operands, num_dst}
use opemu_linux.Bmi.Ops64.{
  andn64, bextr64, blsr64, blsmsk64, blsi64, bzhi64, mulx64, pdep64, pext64, rorx64, shlx64, sarx64,
  shrx64,
}

-- The new registers, and how many bytes of immediate the case takes.
abbrev pub Effect : Type 0
Effect = Regs × ℕ

abbrev write64 : ℕ → ℕ × Regs → Effect
write64 n r = (load_m64 n r.0 r.1, 0)

module _ (wide : ℕ → ℕ) (fr : Frame) (regs : Regs) (i : Insn) (ops : Operands) where
  unfoldable pub case64_rorx : ℕ → Effect
  case64_rorx imm =
      if i.simd_prefix == 3 && i.leading_opcode == 3
      then (load_m64 (num_dst i) (rorx64 wide ops.src fr.res imm i.operand_size) regs, 1)
      else (regs, 0)

  unfoldable pub case64_andn : Effect
  case64_andn =
      if i.simd_prefix == 0 && i.leading_opcode == 2
      then write64 (num_dst i) (andn64 ops.src ops.vsrc fr.res i.operand_size regs)
      else (regs, 0)

  unfoldable pub case64_bls : ℕ → Effect
  case64_bls modreg =
      if i.simd_prefix == 0 && i.leading_opcode == 2
      then (if modreg == 1
          then write64 i.vexreg (blsr64 ops.src fr.res i.operand_size regs)
          else (if modreg == 2
              then write64 i.vexreg (blsmsk64 ops.src fr.res i.operand_size regs)
              else (if modreg == 3
                  then write64 i.vexreg (blsi64 ops.src fr.res i.operand_size regs)
                  else (regs, 0))))
      else (regs, 0)

  unfoldable pub case64_bzhi : Effect
  case64_bzhi =
      if i.leading_opcode == 2
      then (if i.simd_prefix == 0
          then write64 (num_dst i) (bzhi64 ops.src ops.vsrc fr.res i.operand_size regs)
          else (if i.simd_prefix == 2
              then write64 (num_dst i) (pext64 ops.src ops.vsrc fr.res i.operand_size, regs)
              else (if i.simd_prefix == 3
                  then write64 (num_dst i) (pdep64 ops.src ops.vsrc fr.res i.operand_size, regs)
                  else (regs, 0))))
      else (regs, 0)

  -- The high word goes to `num_dst` first, then the low word to `vexreg`.
  unfoldable pub case64_mulx : Effect
  case64_mulx =
      if i.simd_prefix == 3 && i.leading_opcode == 2
      then (let r = mulx64 ops.src fr.res fr.dres (regs.gpr 2) i.operand_size in
          write64 i.vexreg (r.1, load_m64 (num_dst i) r.0 regs))
      else (regs, 0)

  unfoldable pub case64_bextr : Effect
  case64_bextr =
      if i.leading_opcode == 2
      then (if i.simd_prefix == 0
          then write64 (num_dst i) (bextr64 wide ops.src ops.vsrc ops.dst i.operand_size regs)
          else (if i.simd_prefix == 1
              then write64 (num_dst i) (shlx64 ops.src ops.vsrc fr.res i.operand_size, regs)
              else (if i.simd_prefix == 2
                  then write64 (num_dst i) (sarx64 ops.src ops.vsrc fr.res i.operand_size, regs)
                  else (if i.simd_prefix == 3
                      then write64 (num_dst i) (shrx64 ops.src ops.vsrc fr.res i.operand_size, regs)
                      else (regs, 0)))))
      else (regs, 0)

  -- The `switch` on the opcode; `none` is its default.
  unfoldable pub switch64 : ℕ → ℕ → Option Effect
  switch64 modreg imm =
      if i.opcode == 0xF0
      then some (case64_rorx imm)
      else (if i.opcode == 0xF2
          then some case64_andn
          else (if i.opcode == 0xF3
              then some (case64_bls modreg)
              else (if i.opcode == 0xF5
                  then some case64_bzhi
                  else (if i.opcode == 0xF6
                      then some case64_mulx
                      else (if i.opcode == 0xF7 then some case64_bextr else none)))))
