-- ===== src/Sse2/Xmm.antt =====
-- The switch of `vsse2_instruction` for operands of 128 bits, vsse2.c: its cases group by group.
use opemu_linux.Common.{◌+◌, ◌*◌, ◌^◌, ◌||◌, true, false, List, [], ◌∷◌, ◌==◌, if◌then◌else◌}
use opemu_linux.Common.Lanes.{lane}
use opemu_linux.Machine.{Regs, store_m64}
use opemu_linux.Decode.Length.{mod_of}
use opemu_linux.Decode.Rex.{Insn}
use opemu_linux.Operand.{set_low, num_dst, num_src}
use opemu_linux.Simd.{Write, Case, case_0f, case_66}
use opemu_linux.Fpins.{FloatOps}
use opemu_linux.Sse2.Cases.{Context, modreg, to_general}
use opemu_linux.Sse2.Compare.{vcmppd, vcmpsd, vmaxpd, vmaxsd, vminpd, vminsd, vucomusd}
use opemu_linux.Sse2.Floats.{
  packed_double, scalar_double, vcvtdq2pd, vcvtdq2ps, vcvtpd2dq, vcvtpd2ps, vcvtps2dq, vcvtps2pd,
  vcvtsd2si, vcvtsd2ss, vcvtsi2sd, vcvtss2sd, vsqrtpd, vsqrtsd,
}
use opemu_linux.Sse2.Moves.{
  vmaskmovdqu, vmovd, vmovdqu, vmovhpd_128a, vmovhpd_128b, vmovlpd_128a, vmovlpd_128b, vmovmskpd,
  vmovsd_128a, vmovsd_128b, vmovupd, vpinsrw, vpmovmskb,
}
use opemu_linux.Sse2.Integer.{
  vpackssdw_128, vpacksswb_128, vpackuswb_128, vpadd, vpadds, vpaddus, vpand, vpandn, vpavg,
  vpcmpeq, vpcmpgt, vpmaddwd, vpmulhuw, vpmulhw, vpmullw, vpmuludq, vpor, vpsadbw_128, vpsub,
  vpsubs, vpsubus, vpxor,
}
use opemu_linux.Sse2.Shuffle.{
  vpshufd_128, vpshufhw_128, vpshuflw_128, vpsll, vpslldq, vpsllw, vpsrad, vpsraw, vpsrl, vpsrldq,
  vpsrlw, vpunpckh_128, vpunpckl_128, vshufpd_128,
}

module _ (fp : FloatOps) (regs : Regs) (i : Insn) (c : Context) where
  unfoldable pub move_xmm : List Case
  move_xmm =
      case_66 0x10 (c.to_dst (vmovupd 2 c.src))
      ∷ case_0f 3 0x10 false (
          c.to_dst
            (if mod_of (i.modrm 0) == 3 then vmovsd_128a c.src c.vsrc else vmovsd_128b c.src))
      ∷ case_66 0x11 (c.to_rm (vmovupd 2 c.src))
      ∷ case_0f 3 0x11 false (
          c.to_rm (if mod_of (i.modrm 0) == 3 then vmovsd_128a c.dst c.vsrc else vmovsd_128b c.dst))
      ∷ case_66 0x12 (c.to_dst (vmovlpd_128a c.src c.vsrc))
      ∷ case_66 0x13 (Write.to_memory (vmovlpd_128b c.dst c.res))
      ∷ case_66 0x16 (c.to_dst (vmovhpd_128a c.src c.vsrc))
      ∷ case_66 0x17 (Write.to_memory (vmovhpd_128b c.dst c.res))
      ∷ case_66 0x28 (c.to_dst (vmovupd 2 c.src))
      ∷ case_66 0x29 (c.to_rm (vmovupd 2 c.src))
      ∷ []

  unfoldable pub mask_xmm : List Case
  mask_xmm =
      case_66 0x6E (c.to_dst (vmovd (set_low 64 c.src (store_m64 (num_src i) regs)) i.operand_size))
      ∷ case_66 0x7E (
          if mod_of (i.modrm 0) == 3
          then Write.to_m64 (num_src i) (vmovd c.dst i.operand_size)
          else Write.to_memory (vmovd c.dst i.operand_size))
      ∷ case_66 0x6F (c.to_dst (vmovdqu c.src))
      ∷ case_0f 2 0x6F false (c.to_dst (vmovdqu c.src))
      ∷ case_66 0x7F (c.to_rm (vmovdqu c.dst))
      ∷ case_0f 2 0x7F false (c.to_rm (vmovdqu c.dst))
      ∷ case_66 0xF7 (Write.to_memory (vmaskmovdqu c.src c.dst (regs.gpr 7 + c.beyond * 2 ^ 64)))
      ∷ case_66 0x2B (Write.to_memory (vmovdqu c.dst))
      ∷ case_66 0xE7 (Write.to_memory (vmovdqu c.dst))
      ∷ case_66 0x50 (to_general regs i (vmovmskpd 2 c.src))
      ∷ case_66 0xD7 (to_general regs i (vpmovmskb 16 c.src))
      ∷ []

  unfoldable pub pack_xmm : List Case
  pack_xmm =
      case_66 0x63 (c.to_dst (vpacksswb_128 c.src c.vsrc))
      ∷ case_66 0x67 (c.to_dst (vpackuswb_128 c.src c.vsrc))
      ∷ case_66 0x6B (c.to_dst (vpackssdw_128 c.src c.vsrc))
      ∷ []

  unfoldable pub convert_xmm : List Case
  convert_xmm =
      case_0f 3 0x2A false (
        c.to_dst (
          vcvtsi2sd fp
            (if mod_of (i.modrm 0) == 3
              then set_low 64 c.src (store_m64 (num_src i) regs)
              else c.src)
            c.vsrc i.operand_size))
      ∷ case_0f 3 0x2C false (Write.to_m64 (num_dst i) (vcvtsd2si fp c.src 3 i.operand_size))
      ∷ case_0f 3 0x2D false
          (Write.to_m64 (num_dst i) (vcvtsd2si fp c.src fp.mxcsr_rc i.operand_size))
      ∷ case_66 0xE6 (c.to_dst (vcvtpd2dq fp 2 c.src c.res 3))
      ∷ case_0f 2 0xE6 false (c.to_dst (vcvtdq2pd fp 2 c.src))
      ∷ case_0f 3 0xE6 false (c.to_dst (vcvtpd2dq fp 2 c.src c.res fp.mxcsr_rc))
      ∷ case_0f 0 0x5A false (c.to_dst (vcvtps2pd fp 2 c.src))
      ∷ case_66 0x5A (c.to_dst (vcvtpd2ps fp 2 c.src c.res))
      ∷ case_0f 2 0x5A false (c.to_dst (vcvtss2sd fp c.src c.vsrc))
      ∷ case_0f 3 0x5A false (c.to_dst (vcvtsd2ss fp c.src c.vsrc))
      ∷ case_0f 0 0x5B false (c.to_dst (vcvtdq2ps fp 4 c.src))
      ∷ case_66 0x5B (c.to_dst (vcvtps2dq fp 4 c.src fp.mxcsr_rc))
      ∷ case_0f 2 0x5B false (c.to_dst (vcvtps2dq fp 4 c.src 3))
      ∷ []

  unfoldable pub root_xmm : List Case
  root_xmm =
      case_66 0x51 (c.to_dst (vsqrtpd fp 2 c.src))
      ∷ case_0f 3 0x51 false (c.to_dst (vsqrtsd fp c.src c.vsrc))
      ∷ case_66 0xF6 (c.to_dst (vpsadbw_128 c.src c.vsrc))
      ∷ case_0f 1 0xC4 (i.operand_size == 32) (
          if i.operand_size == 32
          then c.to_dst (
              vpinsrw
                (if mod_of (i.modrm 0) == 3
                  then set_low 64 c.src (store_m64 (num_src i) regs)
                  else c.src)
                c.vsrc c.imm)
          else Write.nothing)
      ∷ []

  unfoldable pub add_xmm : List Case
  add_xmm =
      case_66 0xFC (c.to_dst (vpadd 8 16 c.src c.vsrc))
      ∷ case_66 0xFD (c.to_dst (vpadd 16 8 c.src c.vsrc))
      ∷ case_66 0xFE (c.to_dst (vpadd 32 4 c.src c.vsrc))
      ∷ case_66 0xD4 (c.to_dst (vpadd 64 2 c.src c.vsrc))
      ∷ case_66 0xEC (c.to_dst (vpadds 8 16 c.src c.vsrc))
      ∷ case_66 0xED (c.to_dst (vpadds 16 8 c.src c.vsrc))
      ∷ case_66 0xDC (c.to_dst (vpaddus 8 16 c.src c.vsrc))
      ∷ case_66 0xDD (c.to_dst (vpaddus 16 8 c.src c.vsrc))
      ∷ []

  unfoldable pub sub_xmm : List Case
  sub_xmm =
      case_66 0xF8 (c.to_dst (vpsub 8 16 c.src c.vsrc))
      ∷ case_66 0xF9 (c.to_dst (vpsub 16 8 c.src c.vsrc))
      ∷ case_66 0xFA (c.to_dst (vpsub 32 4 c.src c.vsrc))
      ∷ case_66 0xFB (c.to_dst (vpsub 64 2 c.src c.vsrc))
      ∷ case_66 0xE8 (c.to_dst (vpsubs 8 16 c.src c.vsrc))
      ∷ case_66 0xE9 (c.to_dst (vpsubs 16 8 c.src c.vsrc))
      ∷ case_66 0xD8 (c.to_dst (vpsubus 8 16 c.src c.vsrc))
      ∷ case_66 0xD9 (c.to_dst (vpsubus 16 8 c.src c.vsrc))
      ∷ case_66 0x5C (c.to_dst (packed_double fp.sub 2 c.src c.vsrc))
      ∷ case_0f 3 0x5C false (c.to_dst (scalar_double fp.sub c.src c.vsrc))
      ∷ []

  unfoldable pub mul_xmm : List Case
  mul_xmm =
      case_66 0x59 (c.to_dst (packed_double fp.mul 2 c.src c.vsrc))
      ∷ case_0f 3 0x59 false (c.to_dst (scalar_double fp.mul c.src c.vsrc))
      ∷ case_66 0xF5 (c.to_dst (vpmaddwd 4 c.src c.vsrc))
      ∷ case_66 0xE4 (c.to_dst (vpmulhuw 8 c.src c.vsrc))
      ∷ case_66 0xE5 (c.to_dst (vpmulhw 8 c.src c.vsrc))
      ∷ case_66 0xD5 (c.to_dst (vpmullw 8 c.src c.vsrc))
      ∷ case_66 0xF4 (c.to_dst (vpmuludq 2 c.src c.vsrc))
      ∷ case_66 0x5E (c.to_dst (packed_double fp.div 2 c.src c.vsrc))
      ∷ case_0f 3 0x5E false (c.to_dst (scalar_double fp.div c.src c.vsrc))
      ∷ []

  unfoldable pub logic_xmm : List Case
  logic_xmm =
      case_66 0x54 (c.to_dst (vpand 64 2 c.src c.vsrc))
      ∷ case_66 0x55 (c.to_dst (vpandn 64 2 c.src c.vsrc))
      ∷ case_66 0xDB (c.to_dst (vpand 128 1 c.src c.vsrc))
      ∷ case_66 0xDF (c.to_dst (vpandn 128 1 c.src c.vsrc))
      ∷ case_66 0x56 (c.to_dst (vpor 64 2 c.src c.vsrc))
      ∷ case_66 0x57 (c.to_dst (vpxor 64 2 c.src c.vsrc))
      ∷ case_66 0xEB (c.to_dst (vpor 128 1 c.src c.vsrc))
      ∷ case_66 0xEF (c.to_dst (vpxor 128 1 c.src c.vsrc))
      ∷ case_66 0xE0 (c.to_dst (vpavg 8 16 c.src c.vsrc))
      ∷ case_66 0xE3 (c.to_dst (vpavg 16 8 c.src c.vsrc))
      ∷ []

  unfoldable pub shuffle_xmm : List Case
  shuffle_xmm =
      case_0f 1 0x70 true (c.to_dst (vpshufd_128 c.src c.imm))
      ∷ case_0f 2 0x70 true (c.to_dst (vpshufhw_128 c.src c.imm))
      ∷ case_0f 3 0x70 true (c.to_dst (vpshuflw_128 c.src c.imm))
      ∷ case_0f 1 0x71 (modreg i == 2 || modreg i == 4 || modreg i == 6) (
          if modreg i == 2
          then c.to_vexreg (vpsrlw 8 c.src c.imm)
          else (if modreg i == 4
              then c.to_vexreg (vpsraw 8 c.src c.imm)
              else (if modreg i == 6 then c.to_vexreg (vpsllw 8 c.src c.imm) else Write.nothing)))
      ∷ case_0f 1 0x72 (modreg i == 2 || modreg i == 4 || modreg i == 6) (
          if modreg i == 2
          then c.to_vexreg (vpsrl fp.wide_shift 32 4 c.src c.imm)
          else (if modreg i == 4
              then c.to_vexreg (vpsrad fp.wide_shift 4 c.src c.imm)
              else (if modreg i == 6
                  then c.to_vexreg (vpsll fp.wide_shift 32 4 c.src c.imm)
                  else Write.nothing)))
      ∷ case_0f 1 0x73 (modreg i == 2 || modreg i == 3 || modreg i == 6 || modreg i == 7) (
          if modreg i == 2
          then c.to_vexreg (vpsrl fp.wide_shift 64 2 c.src c.imm)
          else (if modreg i == 3
              then c.to_vexreg (vpsrldq fp.wide_shift 1 c.src c.imm)
              else (if modreg i == 6
                  then c.to_vexreg (vpsll fp.wide_shift 64 2 c.src c.imm)
                  else (if modreg i == 7
                      then c.to_vexreg (vpslldq fp.wide_shift 1 c.src c.imm)
                      else Write.nothing))))
      ∷ case_0f 1 0xC6 true (c.to_dst (vshufpd_128 c.src c.vsrc c.imm))
      ∷ []

  unfoldable pub shift_xmm : List Case
  shift_xmm =
      case_66 0xD1 (c.to_dst (vpsrlw 8 c.vsrc (lane 8 0 c.src)))
      ∷ case_66 0xD2 (c.to_dst (vpsrl fp.wide_shift 32 4 c.vsrc (lane 8 0 c.src)))
      ∷ case_66 0xD3 (c.to_dst (vpsrl fp.wide_shift 64 2 c.vsrc (lane 8 0 c.src)))
      ∷ case_66 0xE1 (c.to_dst (vpsraw 8 c.vsrc (lane 8 0 c.src)))
      ∷ case_66 0xE2 (c.to_dst (vpsrad fp.wide_shift 4 c.vsrc (lane 8 0 c.src)))
      ∷ case_66 0xF1 (c.to_dst (vpsllw 8 c.vsrc (lane 8 0 c.src)))
      ∷ case_66 0xF2 (c.to_dst (vpsll fp.wide_shift 32 4 c.vsrc (lane 8 0 c.src)))
      ∷ case_66 0xF3 (c.to_dst (vpsll fp.wide_shift 64 2 c.vsrc (lane 8 0 c.src)))
      ∷ []

  unfoldable pub interleave_xmm : List Case
  interleave_xmm =
      case_66 0x60 (c.to_dst (vpunpckl_128 8 8 c.src c.vsrc))
      ∷ case_66 0x61 (c.to_dst (vpunpckl_128 16 4 c.src c.vsrc))
      ∷ case_66 0x62 (c.to_dst (vpunpckl_128 32 2 c.src c.vsrc))
      ∷ case_66 0x6C (c.to_dst (vpunpckl_128 64 1 c.src c.vsrc))
      ∷ case_66 0x68 (c.to_dst (vpunpckh_128 8 8 c.src c.vsrc))
      ∷ case_66 0x69 (c.to_dst (vpunpckh_128 16 4 c.src c.vsrc))
      ∷ case_66 0x6A (c.to_dst (vpunpckh_128 32 2 c.src c.vsrc))
      ∷ case_66 0x6D (c.to_dst (vpunpckh_128 64 1 c.src c.vsrc))
      ∷ case_66 0x14 (c.to_dst (vpunpckl_128 64 1 c.src c.vsrc))
      ∷ case_66 0x15 (c.to_dst (vpunpckh_128 64 1 c.src c.vsrc))
      ∷ []

  unfoldable pub compare_xmm : List Case
  compare_xmm =
      case_66 0x5D (c.to_dst (vminpd 2 c.src c.vsrc))
      ∷ case_0f 3 0x5D false (c.to_dst (vminsd c.src c.vsrc))
      ∷ case_66 0x5F (c.to_dst (vmaxpd 2 c.src c.vsrc))
      ∷ case_0f 3 0x5F false (c.to_dst (vmaxsd c.src c.vsrc))
      ∷ case_66 0x2E (Write.to_flags (vucomusd c.src c.dst regs.flags))
      ∷ case_66 0x2F (Write.to_flags (vucomusd c.src c.dst regs.flags))
      ∷ case_66 0x64 (c.to_dst (vpcmpgt 8 16 c.src c.vsrc))
      ∷ case_66 0x65 (c.to_dst (vpcmpgt 16 8 c.src c.vsrc))
      ∷ case_66 0x66 (c.to_dst (vpcmpgt 32 4 c.src c.vsrc))
      ∷ case_66 0x74 (c.to_dst (vpcmpeq 8 16 c.src c.vsrc))
      ∷ case_66 0x75 (c.to_dst (vpcmpeq 16 8 c.src c.vsrc))
      ∷ case_66 0x76 (c.to_dst (vpcmpeq 32 4 c.src c.vsrc))
      ∷ case_0f 1 0xC2 true (c.to_dst (vcmppd 2 c.src c.vsrc c.imm))
      ∷ case_0f 3 0xC2 true (c.to_dst (vcmpsd c.src c.vsrc c.imm))
      ∷ []
