-- ===== src/Sse42/Errors.antt =====
-- What `vsse42_instruction` does with an instruction that is not one of its own.
use opemu_linux.Common.{ℕ, ◌+◌, ◌≡◌, ◌&&◌, ◌||◌, arith, trunc, ◌==◌, if◌then◌else◌, Bool, false}
use opemu_linux.Machine.{Cpu}
use opemu_linux.Decode.Length.{get_consumed}
use opemu_linux.Decode.Rex.{Insn}
use opemu_linux.Operand.{Frame}
use opemu_linux.Simd.{run_switch, by_size, switch_from}
use opemu_linux.Sse42.{vsse42_xmm, vsse42_ymm, vsse42_instruction}

-- The opcodes of the switch for 128 and for 256 bits.
abbrev pub is_vsse42_opcode : ℕ → ℕ → Bool
is_vsse42_opcode reg_size opcode =
    if reg_size == 128
    then opcode == 0x37 || opcode == 0x60 || opcode == 0x61 || opcode == 0x62 || opcode == 0x63
    else reg_size == 256 && opcode == 0x37

-- Behind another prefix than 66, or another leading opcode than 0F38 and 0F3A, nothing changes, but
-- only an opcode that the switch has not is refused: one that it has is counted as emulated, with
-- the length of its operand.
pub vsse42_instruction-foreign :
    (fr : Frame) (cpu : Cpu) (i : Insn)
    → (i.simd_prefix == 1 && (i.leading_opcode == 2 || i.leading_opcode == 3)) ≡ false
    → vsse42_instruction fr cpu i ≡ (
      cpu,
      if is_vsse42_opcode i.reg_size i.opcode
          then trunc 8 (trunc 8 (i.ins_size + get_consumed i.modrm))
          else 0,
    )
unfolding vsse42_instruction by_size run_switch switch_from vsse42_xmm vsse42_ymm
vsse42_instruction-foreign fr cpu i h = ground arith
