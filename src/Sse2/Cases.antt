-- ===== src/Sse2/Cases.antt =====
-- What the cases of `vsse2_instruction` have in common: the operands and where results go.
use opemu_linux.Common.{ℕ, bit_and, ◌>>>◌, if◌then◌else◌}
use opemu_linux.Machine.{Regs, is_saved_state64}
use opemu_linux.Decode.Rex.{Insn}
use opemu_linux.Operand.{num_dst}
use opemu_linux.Simd.{Write}

-- The operands, the old contents of the result and what stands behind a 64-bit local. `to_dst` is
-- `_load_xmm(num_dst, ...)` or `_load_ymm`, `to_vexreg` the same for `vexreg`, and `to_rm` for
-- `num_src` if ModRM names a register and else `_load_maddr_from_xmm` or `_load_maddr_from_ymm`.
pub record Context : Type 0 where
  pub src : ℕ
  pub vsrc : ℕ
  pub dst : ℕ
  pub res : ℕ
  pub beyond : ℕ
  pub imm : ℕ
  pub to_dst : ℕ → Write
  pub to_vexreg : ℕ → Write
  pub to_rm : ℕ → Write

-- `modreg = (*modrm >> 3) & 0x7`
unfoldable pub modreg : Insn → ℕ
modreg i = bit_and (i.modrm 0 >>> 3) 0x7

-- `if (is_saved_state64(regs)) _load_m64(num_dst, ...) else _load_m32(num_dst, ...)`
unfoldable pub to_general : Regs → Insn → ℕ → Write
to_general regs i v =
    if is_saved_state64 regs then Write.to_m64 (num_dst i) v else Write.to_m32 (num_dst i) v
