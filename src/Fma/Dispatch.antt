-- ===== src/Fma/Dispatch.antt =====
-- `fma_instruction` of fma.c.
use opemu_linux.Common.{ℕ, ◌+◌, List, [], ◌∷◌, ◌++◌, ◌==◌, if◌then◌else◌}
use opemu_linux.Machine.{ObjectFile}
use opemu_linux.Decode.Rex.{Insn}
use opemu_linux.Operand.{Frame, xmm_of, get_vexregs}
use opemu_linux.Handler.{Handler, IsHandler}
use opemu_linux.Simd.{Write, Case, case_38, by_size}
use opemu_linux.Simd.Contract.{by_size-IsResult}
use opemu_linux.Fpins.{FloatOps}
use opemu_linux.Sse2.Cases.{Context}
use opemu_linux.Sse2.Dispatch.{context}
use opemu_linux.Fma.Lanes.{
  Form, vfmadd_pd, vfmadd_ps, vfmadd_sd, vfmadd_ss, vfmaddsub_pd, vfmaddsub_ps, vfmsub_pd,
  vfmsub_ps, vfmsub_sd, vfmsub_ss, vfmsubadd_pd, vfmsubadd_ps, vfnmadd_pd, vfnmadd_ps, vfnmadd_sd,
  vfnmadd_ss, vfnmsub_pd, vfnmsub_ps, vfnmsub_sd, vfnmsub_ss,
}

-- `if (operand_size == 64) { ... } if (operand_size == 32) { ... }`: doubles with W1, floats with W0.
unfoldable pub by_w : Insn → Context → ℕ → ℕ → Write
by_w i c doubles floats =
    if i.operand_size == 64
    then c.to_dst doubles
    else (if i.operand_size == 32 then c.to_dst floats else Write.nothing)

-- The cases of an operation: 9x, Ax and Bx are its three forms.
unfoldable pub of_forms : ℕ → (Form → Write) → List Case
of_forms x write =
    case_38 (0x90 + x) (write Form.f132)
    ∷ case_38 (0xA0 + x) (write Form.f213)
    ∷ case_38 (0xB0 + x) (write Form.f231)
    ∷ []

module _ (fp : FloatOps) (i : Insn) (c : Context) where
  unfoldable pub fma_addsub_xmm : List Case
  unfolding by_w of_forms
  fma_addsub_xmm =
      of_forms 0x6 (λ f.
        by_w i c (vfmaddsub_pd fp 2 f c.src c.vsrc c.dst fp.mxcsr_rc)
          (vfmaddsub_ps fp 4 f c.src c.vsrc c.dst fp.mxcsr_rc))
      ++ of_forms 0x7 (λ f.
        by_w i c (vfmsubadd_pd fp 2 f c.src c.vsrc c.dst fp.mxcsr_rc)
          (vfmsubadd_ps fp 4 f c.src c.vsrc c.dst fp.mxcsr_rc))

  unfoldable pub fma_add_xmm : List Case
  unfolding by_w of_forms
  fma_add_xmm =
      of_forms 0x8 (λ f.
        by_w i c (vfmadd_pd fp 2 f c.src c.vsrc c.dst fp.mxcsr_rc)
          (vfmadd_ps fp 4 f c.src c.vsrc c.dst fp.mxcsr_rc))
      ++ of_forms 0x9 (λ f.
        by_w i c (vfmadd_sd fp f c.src c.vsrc c.dst fp.mxcsr_rc)
          (vfmadd_ss fp f c.src c.vsrc c.dst fp.mxcsr_rc))

  unfoldable pub fma_sub_xmm : List Case
  unfolding by_w of_forms
  fma_sub_xmm =
      of_forms 0xA (λ f.
        by_w i c (vfmsub_pd fp 2 f c.src c.vsrc c.dst fp.mxcsr_rc)
          (vfmsub_ps fp 4 f c.src c.vsrc c.dst fp.mxcsr_rc))
      ++ of_forms 0xB (λ f.
        by_w i c (vfmsub_sd fp f c.src c.vsrc c.dst fp.mxcsr_rc)
          (vfmsub_ss fp f c.src c.vsrc c.dst fp.mxcsr_rc))

  unfoldable pub fma_negative_add_xmm : List Case
  unfolding by_w of_forms
  fma_negative_add_xmm =
      of_forms 0xC (λ f.
        by_w i c (vfnmadd_pd fp 2 f c.src c.vsrc c.dst fp.mxcsr_rc)
          (vfnmadd_ps fp 4 f c.src c.vsrc c.dst fp.mxcsr_rc))
      ++ of_forms 0xD (λ f.
        by_w i c (vfnmadd_sd fp f c.src c.vsrc c.dst fp.mxcsr_rc)
          (vfnmadd_ss fp f c.src c.vsrc c.dst fp.mxcsr_rc))

  unfoldable pub fma_negative_sub_xmm : List Case
  unfolding by_w of_forms
  fma_negative_sub_xmm =
      of_forms 0xE (λ f.
        by_w i c (vfnmsub_pd fp 2 f c.src c.vsrc c.dst fp.mxcsr_rc)
          (vfnmsub_ps fp 4 f c.src c.vsrc c.dst fp.mxcsr_rc))
      ++ of_forms 0xF (λ f.
        by_w i c (vfnmsub_sd fp f c.src c.vsrc c.dst fp.mxcsr_rc)
          (vfnmsub_ss fp f c.src c.vsrc c.dst fp.mxcsr_rc))

  unfoldable pub fma_addsub_ymm : List Case
  unfolding by_w of_forms
  fma_addsub_ymm =
      of_forms 0x6 (λ f.
        by_w i c (vfmaddsub_pd fp 4 f c.src c.vsrc c.dst fp.mxcsr_rc)
          (vfmaddsub_ps fp 8 f c.src c.vsrc c.dst fp.mxcsr_rc))
      ++ of_forms 0x7 (λ f.
        by_w i c (vfmsubadd_pd fp 4 f c.src c.vsrc c.dst fp.mxcsr_rc)
          (vfmsubadd_ps fp 8 f c.src c.vsrc c.dst fp.mxcsr_rc))

  unfoldable pub fma_add_ymm : List Case
  unfolding by_w of_forms
  fma_add_ymm =
      of_forms 0x8 (λ f.
        by_w i c (vfmadd_pd fp 4 f c.src c.vsrc c.dst fp.mxcsr_rc)
          (vfmadd_ps fp 8 f c.src c.vsrc c.dst fp.mxcsr_rc))
      ++ of_forms 0xA (λ f.
        by_w i c (vfmsub_pd fp 4 f c.src c.vsrc c.dst fp.mxcsr_rc)
          (vfmsub_ps fp 8 f c.src c.vsrc c.dst fp.mxcsr_rc))

  unfoldable pub fma_negative_ymm : List Case
  unfolding by_w of_forms
  fma_negative_ymm =
      of_forms 0xC (λ f.
        by_w i c (vfnmadd_pd fp 4 f c.src c.vsrc c.dst fp.mxcsr_rc)
          (vfnmadd_ps fp 8 f c.src c.vsrc c.dst fp.mxcsr_rc))
      ++ of_forms 0xE (λ f.
        by_w i c (vfnmsub_pd fp 4 f c.src c.vsrc c.dst fp.mxcsr_rc)
          (vfnmsub_ps fp 8 f c.src c.vsrc c.dst fp.mxcsr_rc))

  unfoldable pub fma_xmm : List Case
  unfolding fma_addsub_xmm fma_add_xmm fma_sub_xmm fma_negative_add_xmm fma_negative_sub_xmm
  fma_xmm =
      fma_addsub_xmm ++ fma_add_xmm ++ fma_sub_xmm ++ fma_negative_add_xmm ++ fma_negative_sub_xmm

  unfoldable pub fma_ymm : List Case
  unfolding fma_addsub_ymm fma_add_ymm fma_negative_ymm
  fma_ymm = fma_addsub_ymm ++ fma_add_ymm ++ fma_negative_ymm

unfoldable pub fma_instruction : FloatOps → Frame → Handler
unfolding by_size context fma_xmm fma_ymm
fma_instruction fp fr cpu i =
    let ops = get_vexregs fr cpu i i.reg_size in
    by_size ObjectFile.fma cpu i
      (fma_xmm fp i (context Write.to_xmm fr i (xmm_of ops.src) (xmm_of ops.vsrc) (xmm_of ops.dst)))
      (fma_ymm fp i (context Write.to_ymm fr i ops.src ops.vsrc ops.dst))

pub fma_instruction-IsHandler : (fp : FloatOps) (fr : Frame) → IsHandler (fma_instruction fp fr)
unfolding fma_instruction
fma_instruction-IsHandler fp fr cpu i h = by_size-IsResult ObjectFile.fma cpu i _ _ h
