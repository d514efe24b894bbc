-- ===== src/Ssse3/Dispatch.antt =====
-- `vssse3_instruction` of vssse3.c.
use opemu_linux.Common.{ℕ, List, [], ◌∷◌}
use opemu_linux.Machine.{ObjectFile}
use opemu_linux.Decode.Rex.{Insn}
use opemu_linux.Operand.{Frame, xmm_of, num_dst, get_vexregs}
use opemu_linux.Handler.{Handler, IsHandler}
use opemu_linux.Simd.{Write, Case, case_38, case_3a, by_size, immediate}
use opemu_linux.Simd.Contract.{by_size-IsResult}
use opemu_linux.Ssse3.{
  vpshufb, vphaddw_128, vphaddw_256, vphaddd_128, vphaddd_256, vphaddsw_128, vphaddsw_256,
  vphsubw_128, vphsubw_256, vphsubd_128, vphsubd_256, vphsubsw_128, vphsubsw_256, vpmaddubsw,
  vpsign, vpmulhrsw, vpabs, vpalignr_128, vpalignr_256,
}

module _ (i : Insn) (src vsrc dst : ℕ) where
  unfoldable pub vssse3_xmm : List Case
  vssse3_xmm =
      let write = λ (v : ℕ). Write.to_xmm (num_dst i) v in
      case_38 0x00 (write (vpshufb 16 src vsrc))
      ∷ case_38 0x01 (write (vphaddw_128 src vsrc))
      ∷ case_38 0x02 (write (vphaddd_128 src vsrc))
      ∷ case_38 0x03 (write (vphaddsw_128 src vsrc))
      ∷ case_38 0x04 (write (vpmaddubsw 8 src vsrc))
      ∷ case_38 0x05 (write (vphsubw_128 src vsrc))
      ∷ case_38 0x06 (write (vphsubd_128 src vsrc))
      ∷ case_38 0x07 (write (vphsubsw_128 src vsrc))
      ∷ case_38 0x08 (write (vpsign 8 16 src vsrc dst))
      ∷ case_38 0x09 (write (vpsign 16 8 src vsrc dst))
      ∷ case_38 0x0A (write (vpsign 32 4 src vsrc dst))
      ∷ case_38 0x0B (write (vpmulhrsw 8 src vsrc))
      ∷ case_38 0x1C (write (vpabs 8 16 src))
      ∷ case_38 0x1D (write (vpabs 16 8 src))
      ∷ case_38 0x1E (write (vpabs 32 4 src))
      ∷ case_3a 0x0F (write (vpalignr_128 src vsrc (immediate i)))
      ∷ []

  unfoldable pub vssse3_ymm : List Case
  vssse3_ymm =
      let write = λ (v : ℕ). Write.to_ymm (num_dst i) v in
      case_38 0x00 (write (vpshufb 32 src vsrc))
      ∷ case_38 0x01 (write (vphaddw_256 src vsrc))
      ∷ case_38 0x02 (write (vphaddd_256 src vsrc))
      ∷ case_38 0x03 (write (vphaddsw_256 src vsrc))
      ∷ case_38 0x04 (write (vpmaddubsw 16 src vsrc))
      ∷ case_38 0x05 (write (vphsubw_256 src vsrc))
      ∷ case_38 0x06 (write (vphsubd_256 src vsrc))
      ∷ case_38 0x07 (write (vphsubsw_256 src vsrc))
      ∷ case_38 0x08 (write (vpsign 8 32 src vsrc dst))
      ∷ case_38 0x09 (write (vpsign 16 16 src vsrc dst))
      ∷ case_38 0x0A (write (vpsign 32 8 src vsrc dst))
      ∷ case_38 0x0B (write (vpmulhrsw 16 src vsrc))
      ∷ case_38 0x1C (write (vpabs 8 32 src))
      ∷ case_38 0x1D (write (vpabs 16 16 src))
      ∷ case_38 0x1E (write (vpabs 32 8 src))
      ∷ case_3a 0x0F (write (vpalignr_256 src vsrc (immediate i)))
      ∷ []

unfoldable pub vssse3_instruction : Frame → Handler
unfolding by_size vssse3_xmm vssse3_ymm
vssse3_instruction fr cpu i =
    let ops = get_vexregs fr cpu i i.reg_size in
    by_size ObjectFile.vssse3 cpu i
      (vssse3_xmm i (xmm_of ops.src) (xmm_of ops.vsrc) (xmm_of ops.dst))
      (vssse3_ymm i ops.src ops.vsrc ops.dst)

pub vssse3_instruction-IsHandler : (fr : Frame) → IsHandler (vssse3_instruction fr)
unfolding vssse3_instruction
vssse3_instruction-IsHandler fr cpu i h = by_size-IsResult ObjectFile.vssse3 cpu i _ _ h
