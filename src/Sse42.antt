-- ===== src/Sse42.antt =====
-- The SSE4.2 instructions in VEX form: vsse42.h, and `vsse42_instruction` of vsse42.c.
pub mod Laws
pub mod Errors
use opemu_linux.Common.{ℕ, ◌+◌, ◌-◌, ◌^◌, Bool, List, [], ◌∷◌}
use opemu_linux.Common.{trunc, compl, bit_and, bit_or, if◌then◌else◌}
use opemu_linux.Common.Int.{ltℤ, signed}
use opemu_linux.Common.Lanes.{lane, pack, tabulate}
use opemu_linux.Machine.{Regs, Cpu, ObjectFile}
use opemu_linux.Decode.Rex.{Insn}
use opemu_linux.Operand.{Frame, Operands, xmm_of, num_dst, get_vexregs}
use opemu_linux.Handler.{Handler, IsHandler}
use opemu_linux.Simd.{Write, Case, case_38, case_3a, by_size, immediate}
use opemu_linux.Simd.Contract.{by_size-IsResult}
use opemu_linux.Pcmpstr.{cmp_ei, cmp_ii, cmp_em, cmp_im}

-- `n` is 2 for the XMM function, 4 for the YMM function.
unfoldable pub vpcmpgtq : ℕ → ℕ → ℕ → ℕ
vpcmpgtq n src vsrc = pack 64 (
    tabulate n
      (λ i. if ltℤ (signed 64 (lane 64 i src)) (signed 64 (lane 64 i vsrc)) then 2 ^ 64 - 1 else 0))

-- `regs->flags &= ~0b100011010101; regs->flags |= flagx;`
unfoldable pub merge_flags : ℕ → ℕ → ℕ
merge_flags flags flagx = bit_or (bit_and flags (compl 64 0x8D5)) flagx

-- The result of a comparison as what is written: a count and flags, or a mask and flags.
abbrev pub count_with : ℕ → ℕ × ℕ → Write
count_with flags r = Write.to_count r.0 (merge_flags flags r.1)

abbrev pub mask_with : ℕ → ℕ × ℕ → Write
mask_with flags r = Write.to_mask r.0 (merge_flags flags r.1)

-- `la` is the low half of dx, and `lb` that of ax.
module _ (src dst imm : ℕ) (regs : Regs) where
  unfoldable pub pcmpestrm : Write
  unfolding merge_flags
  pcmpestrm =
      mask_with regs.flags (cmp_em src (trunc 16 (regs.gpr 2)) dst (trunc 16 (regs.gpr 0)) imm)

  unfoldable pub pcmpestri : Write
  unfolding merge_flags
  pcmpestri =
      count_with regs.flags (cmp_ei src (trunc 16 (regs.gpr 2)) dst (trunc 16 (regs.gpr 0)) imm)

  unfoldable pub pcmpistrm : Write
  unfolding merge_flags
  pcmpistrm = mask_with regs.flags (cmp_im src dst imm)

  unfoldable pub pcmpistri : Write
  unfolding merge_flags
  pcmpistri = count_with regs.flags (cmp_ii src dst imm)

unfoldable pub vsse42_xmm : Regs → Insn → ℕ → ℕ → ℕ → List Case
unfolding pcmpestrm pcmpestri pcmpistrm pcmpistri
vsse42_xmm regs i src vsrc dst =
    case_38 0x37 (Write.to_xmm (num_dst i) (vpcmpgtq 2 src vsrc))
    ∷ case_3a 0x60 (pcmpestrm src dst (immediate i) regs)
    ∷ case_3a 0x61 (pcmpestri src dst (immediate i) regs)
    ∷ case_3a 0x62 (pcmpistrm src dst (immediate i) regs)
    ∷ case_3a 0x63 (pcmpistri src dst (immediate i) regs)
    ∷ []

unfoldable pub vsse42_ymm : Insn → ℕ → ℕ → List Case
vsse42_ymm i src vsrc = case_38 0x37 (Write.to_ymm (num_dst i) (vpcmpgtq 4 src vsrc)) ∷ []

unfoldable pub vsse42_instruction : Frame → Handler
unfolding by_size vsse42_xmm vsse42_ymm
vsse42_instruction fr cpu i =
    let ops = get_vexregs fr cpu i i.reg_size in
    by_size ObjectFile.vsse42 cpu i
      (vsse42_xmm cpu.regs i (xmm_of ops.src) (xmm_of ops.vsrc) (xmm_of ops.dst))
      (vsse42_ymm i ops.src ops.vsrc)

pub vsse42_instruction-IsHandler : (fr : Frame) → IsHandler (vsse42_instruction fr)
unfolding vsse42_instruction
vsse42_instruction-IsHandler fr cpu i h = by_size-IsResult ObjectFile.vsse42 cpu i _ _ h
