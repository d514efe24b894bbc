-- ===== src/Sse2/Dispatch.antt =====
-- `vsse2_instruction` of vsse2.c.
use opemu_linux.Common.{ℕ, List, ◌++◌, ◌==◌, if◌then◌else◌}
use opemu_linux.Machine.{Regs, ObjectFile}
use opemu_linux.Decode.Length.{mod_of}
use opemu_linux.Decode.Rex.{Insn}
use opemu_linux.Operand.{Frame, xmm_of, num_dst, num_src, get_vexregs}
use opemu_linux.Handler.{Handler, IsHandler}
use opemu_linux.Simd.{Write, Case, by_size, immediate}
use opemu_linux.Simd.Contract.{by_size-IsResult}
use opemu_linux.Fpins.{FloatOps}
use opemu_linux.Sse2.Cases.{Context}
use opemu_linux.Sse2.Xmm.{
  move_xmm, mask_xmm, pack_xmm, convert_xmm, root_xmm, add_xmm, sub_xmm, mul_xmm, logic_xmm,
  shuffle_xmm, shift_xmm, interleave_xmm, compare_xmm,
}
use opemu_linux.Sse2.Ymm.{
  move_ymm, pack_ymm, convert_ymm, root_ymm, add_ymm, sub_ymm, mul_ymm, logic_ymm, shuffle_ymm,
  shift_ymm, interleave_ymm, compare_ymm,
}

-- Where results go, for XMM and for YMM.
unfoldable pub context : (ℕ → ℕ → Write) → Frame → Insn → ℕ → ℕ → ℕ → Context
context write fr i src vsrc dst = record {
  src = src;
  vsrc = vsrc;
  dst = dst;
  res = fr.res;
  beyond = fr.beyond;
  imm = immediate i;
  to_dst = write (num_dst i);
  to_vexreg = write i.vexreg;
  to_rm = λ v. if mod_of (i.modrm 0) == 3 then write (num_src i) v else Write.to_memory v;
}

unfoldable pub vsse2_xmm : FloatOps → Regs → Insn → Context → List Case
unfolding move_xmm mask_xmm pack_xmm convert_xmm root_xmm add_xmm sub_xmm mul_xmm logic_xmm
    shuffle_xmm shift_xmm interleave_xmm compare_xmm
vsse2_xmm fp regs i c =
    move_xmm fp regs i c
    ++ mask_xmm fp regs i c
    ++ pack_xmm fp regs i c
    ++ convert_xmm fp regs i c
    ++ root_xmm fp regs i c
    ++ add_xmm fp regs i c
    ++ sub_xmm fp regs i c
    ++ mul_xmm fp regs i c
    ++ logic_xmm fp regs i c
    ++ shuffle_xmm fp regs i c
    ++ shift_xmm fp regs i c
    ++ interleave_xmm fp regs i c
    ++ compare_xmm fp regs i c

-- `half` is the source operand read with `rm_size` 128.
unfoldable pub vsse2_ymm : FloatOps → Regs → Insn → Context → ℕ → List Case
unfolding move_ymm pack_ymm convert_ymm root_ymm add_ymm sub_ymm mul_ymm logic_ymm shuffle_ymm
    shift_ymm interleave_ymm compare_ymm
vsse2_ymm fp regs i c half =
    move_ymm fp regs i c half
    ++ pack_ymm fp regs i c half
    ++ convert_ymm fp regs i c half
    ++ root_ymm fp regs i c half
    ++ add_ymm fp regs i c half
    ++ sub_ymm fp regs i c half
    ++ mul_ymm fp regs i c half
    ++ logic_ymm fp regs i c half
    ++ shuffle_ymm fp regs i c half
    ++ shift_ymm fp regs i c half
    ++ interleave_ymm fp regs i c half
    ++ compare_ymm fp regs i c half

unfoldable pub vsse2_instruction : FloatOps → Frame → Handler
unfolding by_size context vsse2_xmm vsse2_ymm
vsse2_instruction fp fr cpu i =
    let ops = get_vexregs fr cpu i i.reg_size in
    let half = (get_vexregs fr cpu i 128).src in
    by_size ObjectFile.vsse2 cpu i
      (vsse2_xmm fp cpu.regs i
        (context Write.to_xmm fr i (xmm_of ops.src) (xmm_of ops.vsrc) (xmm_of ops.dst)))
      (vsse2_ymm fp cpu.regs i (context Write.to_ymm fr i ops.src ops.vsrc ops.dst) (xmm_of half))

pub vsse2_instruction-IsHandler : (fp : FloatOps) (fr : Frame) → IsHandler (vsse2_instruction fp fr)
unfolding vsse2_instruction
vsse2_instruction-IsHandler fp fr cpu i h = by_size-IsResult ObjectFile.vsse2 cpu i _ _ h
