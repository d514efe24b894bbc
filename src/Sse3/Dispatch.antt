-- ===== src/Sse3/Dispatch.antt =====
-- `vsse3_instruction` of vsse3.c.
use opemu_linux.Common.{ℕ, false, List, [], ◌∷◌}
use opemu_linux.Machine.{ObjectFile}
use opemu_linux.Decode.Rex.{Insn}
use opemu_linux.Operand.{Frame, xmm_of, num_dst, get_vexregs}
use opemu_linux.Handler.{Handler, IsHandler}
use opemu_linux.Simd.{Write, Case, case_0f, by_size}
use opemu_linux.Simd.Contract.{by_size-IsResult}
use opemu_linux.Fpins.{FloatOps}
use opemu_linux.Sse3.{
  vmovsldup, vmovddup, vmovshdup, vlddqu, vhaddpd_128, vhaddpd_256, vhaddps_128, vhaddps_256,
  vhsubpd_128, vhsubpd_256, vhsubps_128, vhsubps_256, vaddsubpd, vaddsubps,
}

-- Prefix 1 is 66, 2 is F3 and 3 is F2.
module _ (fp : FloatOps) (i : Insn) (src vsrc : ℕ) where
  unfoldable pub vsse3_xmm : List Case
  vsse3_xmm =
      let write = λ (v : ℕ). Write.to_xmm (num_dst i) v in
      case_0f 2 0x12 false (write (vmovsldup 4 src))
      ∷ case_0f 3 0x12 false (write (vmovddup 2 src))
      ∷ case_0f 2 0x16 false (write (vmovshdup 4 src))
      ∷ case_0f 3 0xF0 false (write (vlddqu src))
      ∷ case_0f 1 0x7C false (write (vhaddpd_128 fp src vsrc))
      ∷ case_0f 3 0x7C false (write (vhaddps_128 fp src vsrc))
      ∷ case_0f 1 0x7D false (write (vhsubpd_128 fp src vsrc))
      ∷ case_0f 3 0x7D false (write (vhsubps_128 fp src vsrc))
      ∷ case_0f 1 0xD0 false (write (vaddsubpd fp 2 src vsrc))
      ∷ case_0f 3 0xD0 false (write (vaddsubps fp 4 src vsrc))
      ∷ []

  unfoldable pub vsse3_ymm : List Case
  vsse3_ymm =
      let write = λ (v : ℕ). Write.to_ymm (num_dst i) v in
      case_0f 2 0x12 false (write (vmovsldup 8 src))
      ∷ case_0f 3 0x12 false (write (vmovddup 4 src))
      ∷ case_0f 2 0x16 false (write (vmovshdup 8 src))
      ∷ case_0f 3 0xF0 false (write (vlddqu src))
      ∷ case_0f 1 0x7C false (write (vhaddpd_256 fp src vsrc))
      ∷ case_0f 3 0x7C false (write (vhaddps_256 fp src vsrc))
      ∷ case_0f 1 0x7D false (write (vhsubpd_256 fp src vsrc))
      ∷ case_0f 3 0x7D false (write (vhsubps_256 fp src vsrc))
      ∷ case_0f 1 0xD0 false (write (vaddsubpd fp 4 src vsrc))
      ∷ case_0f 3 0xD0 false (write (vaddsubps fp 8 src vsrc))
      ∷ []

unfoldable pub vsse3_instruction : FloatOps → Frame → Handler
unfolding by_size vsse3_xmm vsse3_ymm
vsse3_instruction fp fr cpu i =
    let ops = get_vexregs fr cpu i i.reg_size in
    by_size ObjectFile.vsse3 cpu i (vsse3_xmm fp i (xmm_of ops.src) (xmm_of ops.vsrc))
      (vsse3_ymm fp i ops.src ops.vsrc)

pub vsse3_instruction-IsHandler : (fp : FloatOps) (fr : Frame) → IsHandler (vsse3_instruction fp fr)
unfolding vsse3_instruction
vsse3_instruction-IsHandler fp fr cpu i h = by_size-IsResult ObjectFile.vsse3 cpu i _ _ h
