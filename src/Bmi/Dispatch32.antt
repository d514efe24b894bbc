-- ===== src/Bmi/Dispatch32.antt =====
-- The opcodes of `bmi_instruction` (bmi.c) in 32-bit mode. Each function is one `case`; a case whose
-- prefix tests fail does nothing, and the instruction still counts as handled.
use opemu_linux.Common.{ℕ, ◌&&◌, ◌==◌, if◌then◌else◌, Option, none, some}
use opemu_linux.Machine.{Regs, load_m32}
use opemu_linux.Decode.Rex.{Insn}
use opemu_linux.Operand.{Operands, num_dst}
use opemu_linux.Bmi.Dispatch64.{Effect}
use opemu_linux.Bmi.Ops32.{
  andn32, bextr32, blsr32, blsmsk32, blsi32, bzhi32, mulx32, pdep32, pext32, rorx32, shlx32, sarx32,
  shrx32,
}

abbrev write32 : ℕ → ℕ × Regs → Effect
write32 n r = (load_m32 n r.0 r.1, 0)

module _ (wide : ℕ → ℕ) (regs : Regs) (i : Insn) (ops : Operands) where
  unfoldable pub case32_rorx : ℕ → Effect
  case32_rorx imm =
      if i.simd_prefix == 3 && i.leading_opcode == 3
      then (load_m32 (num_dst i) (rorx32 wide ops.src imm) regs, 1)
      else (regs, 0)

  unfoldable pub case32_andn : Effect
  case32_andn =
      if i.simd_prefix == 0 && i.leading_opcode == 2
      then write32 (num_dst i) (andn32 ops.src ops.vsrc regs)
      else (regs, 0)

  unfoldable pub case32_bls : ℕ → Effect
  case32_bls modreg =
      if i.simd_prefix == 0 && i.leading_opcode == 2
      then (if modreg == 1
          then write32 i.vexreg (blsr32 ops.src regs)
          else (if modreg == 2
              then write32 i.vexreg (blsmsk32 ops.src regs)
              else (if modreg == 3 then write32 i.vexreg (blsi32 ops.src regs) else (regs, 0))))
      else (regs, 0)

  unfoldable pub case32_bzhi : Effect
  case32_bzhi =
      if i.leading_opcode == 2
      then (if i.simd_prefix == 0
          then write32 (num_dst i) (bzhi32 ops.src ops.vsrc regs)
          else (if i.simd_prefix == 2
              then write32 (num_dst i) (pext32 ops.src ops.vsrc, regs)
              else (if i.simd_prefix == 3
                  then write32 (num_dst i) (pdep32 ops.src ops.vsrc, regs)
                  else (regs, 0))))
      else (regs, 0)

  -- The high word goes to `num_dst` first, then the low word to `vexreg`.
  unfoldable pub case32_mulx : Effect
  case32_mulx =
      if i.simd_prefix == 3 && i.leading_opcode == 2
      then (let r = mulx32 ops.src (regs.gpr 2) in
          write32 i.vexreg (r.1, load_m32 (num_dst i) r.0 regs))
      else (regs, 0)

  unfoldable pub case32_bextr : Effect
  case32_bextr =
      if i.leading_opcode == 2
      then (if i.simd_prefix == 0
          then write32 (num_dst i) (bextr32 wide ops.src ops.vsrc ops.dst regs)
          else (if i.simd_prefix == 1
              then write32 (num_dst i) (shlx32 ops.src ops.vsrc, regs)
              else (if i.simd_prefix == 2
                  then write32 (num_dst i) (sarx32 ops.src ops.vsrc, regs)
                  else (if i.simd_prefix == 3
                      then write32 (num_dst i) (shrx32 ops.src ops.vsrc, regs)
                      else (regs, 0)))))
      else (regs, 0)

  -- The `switch` on the opcode; `none` is its default.
  unfoldable pub switch32 : ℕ → ℕ → Option Effect
  switch32 modreg imm =
      if i.opcode == 0xF0
      then some (case32_rorx imm)
      else (if i.opcode == 0xF2
          then some case32_andn
          else (if i.opcode == 0xF3
              then some (case32_bls modreg)
              else (if i.opcode == 0xF5
                  then some case32_bzhi
                  else (if i.opcode == 0xF6
                      then some case32_mulx
                      else (if i.opcode == 0xF7 then some case32_bextr else none)))))
