-- ===== src/F16c.antt =====
-- The half-precision conversions in VEX form: f16c.h, and `f16c_instruction` of f16c.c.
-- The rounding control, of the immediate or of MXCSR, goes into a local that is not used again, so
-- it has no place here. A float is copied by its bits.
pub mod Laws
use opemu_linux.Common.{ℕ, ◌%◌, ◌^◌, List, [], ◌∷◌}
use opemu_linux.Common.{◌==◌, if◌then◌else◌}
use opemu_linux.Common.Lanes.{lane, pack, tabulate}
use opemu_linux.Machine.{ObjectFile}
use opemu_linux.Decode.Length.{mod_of}
use opemu_linux.Decode.Rex.{Insn}
use opemu_linux.Operand.{Frame, Operands, xmm_of, set_low, num_dst, num_src, get_vexregs}
use opemu_linux.Half.{half_to_float, float_to_half}
use opemu_linux.Handler.{Handler, IsHandler}
use opemu_linux.Simd.{Write, Case, case_38, case_3a, by_size}
use opemu_linux.Simd.Contract.{by_size-IsResult}

-- `n` is 4 for the XMM function, 8 for the YMM function.
unfoldable pub vcvtph2ps : ℕ → ℕ → ℕ
vcvtph2ps n src = pack 32 (tabulate n (λ i. half_to_float (lane 16 i src)))

-- The halves of `n` floats.
unfoldable pub halves : ℕ → ℕ → ℕ
halves n x = pack 16 (tabulate n (λ i. float_to_half (lane 32 i x)))

-- The four halves go to the low 64 bits of the result; `old` is what it held before.
unfoldable pub vcvtps2ph128 : ℕ → ℕ → ℕ
unfolding halves
vcvtps2ph128 dst old = set_low 64 old (halves 4 dst)

-- The high 128 bits of the result are 0.
unfoldable pub vcvtps2ph256 : ℕ → ℕ
unfolding halves
vcvtps2ph256 dst = halves 8 dst

-- `if (mod == 3)` a register, else `_load_maddr_from_xmm` or `_load_maddr_from_ymm`.
unfoldable pub to_rm : Insn → ℕ → Write
unfolding mod_of
to_rm i v = if mod_of (i.modrm 0) == 3 then Write.to_xmm (num_src i) v else Write.to_memory v

unfoldable pub f16c_xmm : Insn → Operands → ℕ → List Case
unfolding to_rm vcvtph2ps vcvtps2ph128
f16c_xmm i ops res =
    case_38 0x13 (Write.to_xmm (num_dst i) (vcvtph2ps 4 (xmm_of ops.src)))
    ∷ case_3a 0x1D (to_rm i (vcvtps2ph128 (xmm_of ops.dst) res))
    ∷ []

-- In the 256-bit forms `half` has the operands with `rm_size` 128 and `full` those with 256.
unfoldable pub f16c_ymm : Insn → Operands → Operands → List Case
unfolding to_rm vcvtph2ps vcvtps2ph256
f16c_ymm i half full =
    case_38 0x13 (Write.to_ymm (num_dst i) (vcvtph2ps 8 (xmm_of half.src)))
    ∷ case_3a 0x1D (to_rm i (vcvtps2ph256 full.dst))
    ∷ []

unfoldable pub f16c_instruction : Frame → Handler
unfolding by_size f16c_xmm f16c_ymm
f16c_instruction fr cpu i =
    by_size ObjectFile.f16c cpu i (f16c_xmm i (get_vexregs fr cpu i 128) fr.res)
      (f16c_ymm i (get_vexregs fr cpu i 128) (get_vexregs fr cpu i 256))

pub f16c_instruction-IsHandler : (fr : Frame) → IsHandler (f16c_instruction fr)
unfolding f16c_instruction
f16c_instruction-IsHandler fr cpu i h = by_size-IsResult ObjectFile.f16c cpu i _ _ h
