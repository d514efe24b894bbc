-- ===== src/Sse/Dispatch.antt =====
-- `vsse_instruction` of vsse.c.
use opemu_linux.Common.{ℕ, List, ◌++◌, [], ◌∷◌, true, false, ◌==◌, if◌then◌else◌}
use opemu_linux.Machine.{Regs, store_m64, ObjectFile}
use opemu_linux.Decode.Length.{mod_of}
use opemu_linux.Decode.Rex.{Insn}
use opemu_linux.Operand.{Frame, set_low, xmm_of, num_dst, num_src, get_vexregs}
use opemu_linux.Handler.{Handler, IsHandler}
use opemu_linux.Simd.{Write, Case, case_0f, by_size}
use opemu_linux.Simd.Contract.{by_size-IsResult}
use opemu_linux.Fpins.{FloatOps, sqrt_sf}
use opemu_linux.Sse2.Cases.{Context, modreg, to_general}
use opemu_linux.Sse2.Dispatch.{context}
use opemu_linux.Sse.Moves.{
  vmovups, vmovss_128a, vmovss_128b, vmovhlps, vmovlps_128a, vmovlps_128b, vmovlhps, vmovhps_128a,
  vmovhps_128b, vmovntps, vmovmskps, vshufps_128, vshufps_256, vunpcklps_128, vunpcklps_256,
  vunpckhps_128, vunpckhps_256,
}
use opemu_linux.Sse.Floats.{
  packed_float, scalar_float, packed_root, scalar_root, vandps, vandnps, vorps, vxorps, vcvtsi2ss,
  vcvtss2si, vstmxcsr,
}
use opemu_linux.Sse.Compare.{vminps, vmaxps, vminss, vmaxss, vcmpps, vcmpss, vucomiss}

module _ (fp : FloatOps) (regs : Regs) (i : Insn) (c : Context) where
  -- The cases 12, 13, 16 and 17 have no `break`: each falls into the next, and 17 into 28. `old` is
  -- what the result holds by then.
  abbrev pub aligned_move : Write
  aligned_move = c.to_dst (vmovups 4 c.src)

  unfoldable pub after_high_load : ℕ → Write
  after_high_load old = Write.both (Write.to_memory (vmovhps_128b c.dst old)) aligned_move

  unfoldable pub after_low_store : ℕ → Write
  unfolding after_high_load
  after_low_store old =
      let m = mod_of (i.modrm 0) in
      let res =
        if m == 3
        then vmovlhps c.src c.vsrc
        else (if m == 0 then vmovhps_128a c.src c.vsrc else old) in
      Write.both (c.to_dst res) (after_high_load res)

  unfoldable pub after_low_load : ℕ → Write
  unfolding after_low_store
  after_low_load old =
      let res = vmovlps_128b c.dst old in Write.both (Write.to_memory res) (after_low_store res)

  -- The result of the case 12: VMOVHLPS of registers, VMOVLPS of memory without a displacement.
  unfoldable pub low_moved : ℕ
  low_moved =
      let m = mod_of (i.modrm 0) in
      if m == 3
      then vmovhlps c.src c.vsrc
      else (if m == 0 then vmovlps_128a c.src c.vsrc else c.res)

  unfoldable pub vsse_move_xmm : List Case
  unfolding after_high_load after_low_store after_low_load low_moved
  vsse_move_xmm =
      case_0f 0 0x10 false (c.to_dst (vmovups 4 c.src))
      ∷ case_0f 2 0x10 false (
          c.to_dst
            (if mod_of (i.modrm 0) == 3 then vmovss_128a c.src c.vsrc else vmovss_128b c.src))
      ∷ case_0f 0 0x11 false (c.to_rm (vmovups 4 c.dst))
      ∷ case_0f 2 0x11 false (
          c.to_rm (if mod_of (i.modrm 0) == 3 then vmovss_128a c.dst c.vsrc else vmovss_128b c.dst))
      ∷ case_0f 0 0x12 false (Write.both (c.to_dst low_moved) (after_low_load low_moved))
      ∷ case_0f 0 0x13 false (after_low_load c.res)
      ∷ case_0f 0 0x16 false (after_low_store c.res)
      ∷ case_0f 0 0x17 false (after_high_load c.res)
      ∷ case_0f 0 0x28 false aligned_move
      ∷ case_0f 0 0x29 false (c.to_rm (vmovups 4 c.src))
      ∷ case_0f 0 0x2B false (Write.to_memory (vmovntps c.dst))
      ∷ case_0f 0 0x50 false (to_general regs i (vmovmskps 4 c.src c.res))
      ∷ []

  unfoldable pub vsse_arithmetic_xmm : List Case
  vsse_arithmetic_xmm =
      case_0f 0 0x58 false (c.to_dst (packed_float fp.add_f32 4 c.src c.vsrc))
      ∷ case_0f 2 0x58 false (c.to_dst (scalar_float fp.add_f32 c.src c.vsrc))
      ∷ case_0f 0 0x5C false (c.to_dst (packed_float fp.sub_f32 4 c.src c.vsrc))
      ∷ case_0f 2 0x5C false (c.to_dst (scalar_float fp.sub_f32 c.src c.vsrc))
      ∷ case_0f 0 0x59 false (c.to_dst (packed_float fp.mul_f32 4 c.src c.vsrc))
      ∷ case_0f 2 0x59 false (c.to_dst (scalar_float fp.mul_f32 c.src c.vsrc))
      ∷ case_0f 0 0x5E false (c.to_dst (packed_float fp.div_f32 4 c.src c.vsrc))
      ∷ case_0f 2 0x5E false (c.to_dst (scalar_float fp.div_f32 c.src c.vsrc))
      ∷ case_0f 0 0x54 false (c.to_dst (vandps 4 c.src c.vsrc))
      ∷ case_0f 0 0x55 false (c.to_dst (vandnps 4 c.src c.vsrc))
      ∷ case_0f 0 0x56 false (c.to_dst (vorps 4 c.src c.vsrc))
      ∷ case_0f 0 0x57 false (c.to_dst (vxorps 4 c.src c.vsrc))
      ∷ []

  unfoldable pub vsse_convert_xmm : List Case
  vsse_convert_xmm =
      case_0f 2 0x2A false (
        c.to_dst (
          vcvtsi2ss fp
            (if mod_of (i.modrm 0) == 3
              then set_low 64 c.src (store_m64 (num_src i) regs)
              else c.src)
            c.vsrc i.operand_size))
      ∷ case_0f 2 0x2C false (Write.to_m64 (num_dst i) (vcvtss2si fp c.src 3 i.operand_size))
      ∷ case_0f 2 0x2D false
          (Write.to_m64 (num_dst i) (vcvtss2si fp c.src fp.mxcsr_rc i.operand_size))
      ∷ case_0f 0 0x5D false (c.to_dst (vminps 2 c.src c.vsrc c.res))
      ∷ case_0f 2 0x5D false (c.to_dst (vminss c.src c.vsrc))
      ∷ case_0f 0 0x5F false (c.to_dst (vmaxps 2 c.src c.vsrc c.res))
      ∷ case_0f 2 0x5F false (c.to_dst (vmaxss c.src c.vsrc))
      ∷ case_0f 0 0x2E false (Write.to_flags (vucomiss c.src c.dst regs.flags))
      ∷ case_0f 0 0x2F false (Write.to_flags (vucomiss c.src c.dst regs.flags))
      ∷ case_0f 0 0xC2 true (c.to_dst (vcmpps 4 c.src c.vsrc c.imm))
      ∷ case_0f 2 0xC2 true (c.to_dst (vcmpss c.src c.vsrc c.imm))
      ∷ []

  -- LDMXCSR writes no register of the model.
  unfoldable pub vsse_compute_xmm : List Case
  vsse_compute_xmm =
      case_0f 0 0x14 false (c.to_dst (vunpcklps_128 c.src c.vsrc))
      ∷ case_0f 0 0x15 false (c.to_dst (vunpckhps_128 c.src c.vsrc))
      ∷ case_0f 0 0xC6 true (c.to_dst (vshufps_128 c.src c.vsrc c.imm))
      ∷ case_0f 0 0x53 false (c.to_dst (packed_root fp.rcp_sf 4 c.src))
      ∷ case_0f 2 0x53 false (c.to_dst (scalar_root fp.rcp_sf c.src c.vsrc))
      ∷ case_0f 0 0x52 false (c.to_dst (packed_root fp.rsqrt_sf 4 c.src))
      ∷ case_0f 2 0x52 false (c.to_dst (scalar_root fp.rsqrt_sf c.src c.vsrc))
      ∷ case_0f 0 0x51 false (c.to_dst (packed_root (sqrt_sf fp) 4 c.src))
      ∷ case_0f 2 0x51 false (c.to_dst (scalar_root (sqrt_sf fp) c.src c.vsrc))
      ∷ case_0f 0 0xAE false
          (if modreg i == 3 then Write.to_memory (vstmxcsr fp c.res) else Write.nothing)
      ∷ []

  unfoldable pub vsse_xmm : List Case
  unfolding vsse_move_xmm vsse_arithmetic_xmm vsse_convert_xmm vsse_compute_xmm
  vsse_xmm = vsse_move_xmm ++ vsse_arithmetic_xmm ++ vsse_convert_xmm ++ vsse_compute_xmm

  unfoldable pub vsse_move_ymm : List Case
  vsse_move_ymm =
      case_0f 0 0x10 false (c.to_dst (vmovups 8 c.src))
      ∷ case_0f 0 0x11 false (c.to_rm (vmovups 8 c.src))
      ∷ case_0f 0 0x28 false (c.to_dst (vmovups 8 c.src))
      ∷ case_0f 0 0x29 false (c.to_rm (vmovups 8 c.src))
      ∷ case_0f 0 0x2B false (Write.to_memory (vmovntps c.dst))
      ∷ case_0f 0 0x50 false (to_general regs i (vmovmskps 8 c.src c.res))
      ∷ case_0f 0 0x58 false (c.to_dst (packed_float fp.add_f32 8 c.src c.vsrc))
      ∷ case_0f 0 0x5C false (c.to_dst (packed_float fp.sub_f32 8 c.src c.vsrc))
      ∷ case_0f 0 0x59 false (c.to_dst (packed_float fp.mul_f32 8 c.src c.vsrc))
      ∷ case_0f 0 0x5E false (c.to_dst (packed_float fp.div_f32 8 c.src c.vsrc))
      ∷ case_0f 0 0x54 false (c.to_dst (vandps 8 c.src c.vsrc))
      ∷ case_0f 0 0x55 false (c.to_dst (vandnps 8 c.src c.vsrc))
      ∷ case_0f 0 0x56 false (c.to_dst (vorps 8 c.src c.vsrc))
      ∷ case_0f 0 0x57 false (c.to_dst (vxorps 8 c.src c.vsrc))
      ∷ []

  unfoldable pub vsse_compute_ymm : List Case
  vsse_compute_ymm =
      case_0f 0 0x5D false (c.to_dst (vminps 4 c.src c.vsrc c.res))
      ∷ case_0f 0 0x5F false (c.to_dst (vmaxps 4 c.src c.vsrc c.res))
      ∷ case_0f 0 0xC2 true (c.to_dst (vcmpps 8 c.src c.vsrc c.imm))
      ∷ case_0f 0 0x14 false (c.to_dst (vunpcklps_256 c.src c.vsrc))
      ∷ case_0f 0 0x15 false (c.to_dst (vunpckhps_256 c.src c.vsrc))
      ∷ case_0f 0 0xC6 true (c.to_dst (vshufps_256 c.src c.vsrc c.imm))
      ∷ case_0f 0 0x53 false (c.to_dst (packed_root fp.rcp_sf 8 c.src))
      ∷ case_0f 0 0x52 false (c.to_dst (packed_root fp.rsqrt_sf 8 c.src))
      ∷ case_0f 0 0x51 false (c.to_dst (packed_root (sqrt_sf fp) 8 c.src))
      ∷ []

  unfoldable pub vsse_ymm : List Case
  unfolding vsse_move_ymm vsse_compute_ymm
  vsse_ymm = vsse_move_ymm ++ vsse_compute_ymm

unfoldable pub vsse_instruction : FloatOps → Frame → Handler
unfolding by_size context vsse_xmm vsse_ymm
vsse_instruction fp fr cpu i =
    let ops = get_vexregs fr cpu i i.reg_size in
    by_size ObjectFile.vsse cpu i
      (vsse_xmm fp cpu.regs i
        (context Write.to_xmm fr i (xmm_of ops.src) (xmm_of ops.vsrc) (xmm_of ops.dst)))
      (vsse_ymm fp cpu.regs i (context Write.to_ymm fr i ops.src ops.vsrc ops.dst))

pub vsse_instruction-IsHandler : (fp : FloatOps) (fr : Frame) → IsHandler (vsse_instruction fp fr)
unfolding vsse_instruction
vsse_instruction-IsHandler fp fr cpu i h = by_size-IsResult ObjectFile.vsse cpu i _ _ h
