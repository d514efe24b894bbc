-- ===== src/Sse2/Ymm.antt =====
-- The switch of `vsse2_instruction` for operands of 256 bits, vsse2.c: its cases group by group.
use opemu_linux.Common.{ℕ, ◌||◌, true, false, List, [], ◌∷◌, ◌==◌, if◌then◌else◌}
use opemu_linux.Common.Lanes.{lane}
use opemu_linux.Machine.{Regs}
use opemu_linux.Decode.Rex.{Insn}
use opemu_linux.Operand.{num_dst}
use opemu_linux.Simd.{Write, Case, case_0f, case_66}
use opemu_linux.Fpins.{FloatOps}
use opemu_linux.Sse2.Cases.{Context, modreg, to_general}
use opemu_linux.Sse2.Compare.{vcmppd, vmaxpd, vminpd}
use opemu_linux.Sse2.Floats.{
  packed_double, vcvtdq2pd, vcvtdq2ps, vcvtpd2dq, vcvtpd2ps, vcvtps2dq, vcvtps2pd, vsqrtpd,
}
use opemu_linux.Sse2.Moves.{vmovdqu, vmovmskpd, vmovupd, vpmovmskb}
use opemu_linux.Sse2.Integer.{
  vpackssdw_256, vpacksswb_256, vpackuswb_256, vpadd, vpadds, vpaddus, vpand, vpandn, vpavg,
  vpcmpeq, vpcmpgt, vpmaddwd, vpmulhuw, vpmulhw, vpmullw, vpmuludq, vpor, vpsadbw_256, vpsub,
  vpsubs, vpsubus, vpxor,
}
use opemu_linux.Sse2.Shuffle.{
  vpshufd_256, vpshufhw_256, vpshuflw_256, vpsll, vpslldq, vpsllw, vpsrad, vpsraw, vpsrl, vpsrldq,
  vpsrlw, vpunpckh_256, vpunpckl_256, vshufpd_256,
}

module _ (fp : FloatOps) (regs : Regs) (i : Insn) (c : Context) (half : ℕ) where
  unfoldable pub move_ymm : List Case
  move_ymm =
      case_66 0x10 (c.to_dst (vmovupd 4 c.src))
      ∷ case_66 0x11 (c.to_rm (vmovupd 4 c.src))
      ∷ case_66 0x28 (c.to_dst (vmovupd 4 c.src))
      ∷ case_66 0x29 (c.to_rm (vmovupd 4 c.src))
      ∷ case_66 0x6F (c.to_dst (vmovdqu c.src))
      ∷ case_0f 2 0x6F false (c.to_dst (vmovdqu c.src))
      ∷ case_66 0x7F (c.to_rm (vmovdqu c.dst))
      ∷ case_0f 2 0x7F false (c.to_rm (vmovdqu c.dst))
      ∷ case_66 0x2B (Write.to_memory (vmovdqu c.dst))
      ∷ case_66 0xE7 (Write.to_memory (vmovdqu c.dst))
      ∷ case_66 0x50 (to_general regs i (vmovmskpd 4 c.src))
      ∷ case_66 0xD7 (to_general regs i (vpmovmskb 32 c.src))
      ∷ []

  unfoldable pub pack_ymm : List Case
  pack_ymm =
      case_66 0x63 (c.to_dst (vpacksswb_256 c.src c.vsrc))
      ∷ case_66 0x67 (c.to_dst (vpackuswb_256 c.src c.vsrc))
      ∷ case_66 0x6B (c.to_dst (vpackssdw_256 c.src c.vsrc))
      ∷ []

  unfoldable pub convert_ymm : List Case
  convert_ymm =
      case_66 0xE6 (Write.to_xmm (num_dst i) (vcvtpd2dq fp 4 c.src 0 3))
      ∷ case_0f 2 0xE6 false (c.to_dst (vcvtdq2pd fp 4 half))
      ∷ case_0f 3 0xE6 false (Write.to_xmm (num_dst i) (vcvtpd2dq fp 4 c.src 0 fp.mxcsr_rc))
      ∷ case_0f 0 0x5A false (c.to_dst (vcvtps2pd fp 4 half))
      ∷ case_66 0x5A (c.to_dst (vcvtpd2ps fp 4 c.src c.res))
      ∷ case_0f 0 0x5B false (c.to_dst (vcvtdq2ps fp 8 c.src))
      ∷ case_66 0x5B (c.to_dst (vcvtps2dq fp 8 c.src fp.mxcsr_rc))
      ∷ case_0f 2 0x5B false (c.to_dst (vcvtps2dq fp 8 c.src 3))
      ∷ []

  -- The case of VSQRTPD has no `break`: it falls into that of VPSADBW.
  unfoldable pub root_ymm : List Case
  root_ymm =
      case_66 0x51
        (Write.both (c.to_dst (vsqrtpd fp 4 c.src)) (c.to_dst (vpsadbw_256 c.src c.vsrc)))
      ∷ case_66 0xF6 (c.to_dst (vpsadbw_256 c.src c.vsrc))
      ∷ []

  unfoldable pub add_ymm : List Case
  add_ymm =
      case_66 0xD4 (c.to_dst (vpadd 64 4 c.src c.vsrc))
      ∷ case_66 0xFC (c.to_dst (vpadd 8 32 c.src c.vsrc))
      ∷ case_66 0xFD (c.to_dst (vpadd 16 16 c.src c.vsrc))
      ∷ case_66 0xFE (c.to_dst (vpadd 32 8 c.src c.vsrc))
      ∷ case_66 0xEC (c.to_dst (vpadds 8 32 c.src c.vsrc))
      ∷ case_66 0xED (c.to_dst (vpadds 16 16 c.src c.vsrc))
      ∷ case_66 0xDC (c.to_dst (vpaddus 8 32 c.src c.vsrc))
      ∷ case_66 0xDD (c.to_dst (vpaddus 16 16 c.src c.vsrc))
      ∷ []

  unfoldable pub sub_ymm : List Case
  sub_ymm =
      case_66 0xF8 (c.to_dst (vpsub 8 32 c.src c.vsrc))
      ∷ case_66 0xF9 (c.to_dst (vpsub 16 16 c.src c.vsrc))
      ∷ case_66 0xFA (c.to_dst (vpsub 32 8 c.src c.vsrc))
      ∷ case_66 0xFB (c.to_dst (vpsub 64 4 c.src c.vsrc))
      ∷ case_66 0xE8 (c.to_dst (vpsubs 8 32 c.src c.vsrc))
      ∷ case_66 0xE9 (c.to_dst (vpsubs 16 16 c.src c.vsrc))
      ∷ case_66 0xD8 (c.to_dst (vpsubus 8 32 c.src c.vsrc))
      ∷ case_66 0xD9 (c.to_dst (vpsubus 16 16 c.src c.vsrc))
      ∷ case_66 0x5C (c.to_dst (packed_double fp.sub 4 c.src c.vsrc))
      ∷ []

  unfoldable pub mul_ymm : List Case
  mul_ymm =
      case_66 0x59 (c.to_dst (packed_double fp.mul 4 c.src c.vsrc))
      ∷ case_66 0xF5 (c.to_dst (vpmaddwd 8 c.src c.vsrc))
      ∷ case_66 0xE4 (c.to_dst (vpmulhuw 16 c.src c.vsrc))
      ∷ case_66 0xE5 (c.to_dst (vpmulhw 16 c.src c.vsrc))
      ∷ case_66 0xD5 (c.to_dst (vpmullw 16 c.src c.vsrc))
      ∷ case_66 0xF4 (c.to_dst (vpmuludq 4 c.src c.vsrc))
      ∷ case_66 0x5E (c.to_dst (packed_double fp.div 4 c.src c.vsrc))
      ∷ []

  unfoldable pub logic_ymm : List Case
  logic_ymm =
      case_66 0x54 (c.to_dst (vpand 64 4 c.src c.vsrc))
      ∷ case_66 0x55 (c.to_dst (vpandn 64 4 c.src c.vsrc))
      ∷ case_66 0xDB (c.to_dst (vpand 128 2 c.src c.vsrc))
      ∷ case_66 0xDF (c.to_dst (vpandn 128 2 c.src c.vsrc))
      ∷ case_66 0x56 (c.to_dst (vpor 64 4 c.src c.vsrc))
      ∷ case_66 0x57 (c.to_dst (vpxor 64 4 c.src c.vsrc))
      ∷ case_66 0xEB (c.to_dst (vpor 128 2 c.src c.vsrc))
      ∷ case_66 0xEF (c.to_dst (vpxor 128 2 c.src c.vsrc))
      ∷ case_66 0xE0 (c.to_dst (vpavg 8 32 c.src c.vsrc))
      ∷ case_66 0xE3 (c.to_dst (vpavg 16 16 c.src c.vsrc))
      ∷ []

  unfoldable pub shuffle_ymm : List Case
  shuffle_ymm =
      case_0f 1 0x70 true (c.to_dst (vpshufd_256 c.src c.imm))
      ∷ case_0f 2 0x70 true (c.to_dst (vpshufhw_256 c.src c.imm))
      ∷ case_0f 3 0x70 true (c.to_dst (vpshuflw_256 c.src c.imm))
      ∷ case_0f 1 0x71 (modreg i == 2 || modreg i == 4 || modreg i == 6) (
          if modreg i == 2
          then c.to_vexreg (vpsrlw 16 c.src c.imm)
          else (if modreg i == 4
              then c.to_vexreg (vpsraw 16 c.src c.imm)
              else (if modreg i == 6 then c.to_vexreg (vpsllw 16 c.src c.imm) else Write.nothing)))
      ∷ case_0f 1 0x72 (modreg i == 2 || modreg i == 4 || modreg i == 6) (
          if modreg i == 2
          then c.to_vexreg (vpsrl fp.wide_shift 32 8 c.src c.imm)
          else (if modreg i == 4
              then c.to_vexreg (vpsrad fp.wide_shift 8 c.src c.imm)
              else (if modreg i == 6
                  then c.to_vexreg (vpsll fp.wide_shift 32 8 c.src c.imm)
                  else Write.nothing)))
      ∷ case_0f 1 0x73 (modreg i == 2 || modreg i == 3 || modreg i == 6 || modreg i == 7) (
          if modreg i == 2
          then c.to_vexreg (vpsrl fp.wide_shift 64 4 c.src c.imm)
          else (if modreg i == 3
              then c.to_vexreg (vpsrldq fp.wide_shift 2 c.src c.imm)
              else (if modreg i == 6
                  then c.to_vexreg (vpsll fp.wide_shift 64 4 c.src c.imm)
                  else (if modreg i == 7
                      then c.to_vexreg (vpslldq fp.wide_shift 2 c.src c.imm)
                      else Write.nothing))))
      ∷ case_0f 1 0xC6 true (c.to_dst (vshufpd_256 c.src c.vsrc c.imm))
      ∷ []

  unfoldable pub shift_ymm : List Case
  shift_ymm =
      case_66 0xD1 (c.to_dst (vpsrlw 16 c.vsrc (lane 8 0 c.src)))
      ∷ case_66 0xD2 (c.to_dst (vpsrl fp.wide_shift 32 8 c.vsrc (lane 8 0 c.src)))
      ∷ case_66 0xD3 (c.to_dst (vpsrl fp.wide_shift 64 4 c.vsrc (lane 8 0 c.src)))
      ∷ case_66 0xE1 (c.to_dst (vpsraw 16 c.vsrc (lane 8 0 c.src)))
      ∷ case_66 0xE2 (c.to_dst (vpsrad fp.wide_shift 8 c.vsrc (lane 8 0 c.src)))
      ∷ case_66 0xF1 (c.to_dst (vpsllw 16 c.vsrc (lane 8 0 c.src)))
      ∷ case_66 0xF2 (c.to_dst (vpsll fp.wide_shift 32 8 c.vsrc (lane 8 0 c.src)))
      ∷ case_66 0xF3 (c.to_dst (vpsll fp.wide_shift 64 4 c.vsrc (lane 8 0 c.src)))
      ∷ []

  -- The case of VPUNPCKLQDQ falls into that of VPUNPCKHBW.
  unfoldable pub interleave_ymm : List Case
  interleave_ymm =
      case_66 0x60 (c.to_dst (vpunpckl_256 8 8 c.src c.vsrc))
      ∷ case_66 0x61 (c.to_dst (vpunpckl_256 16 4 c.src c.vsrc))
      ∷ case_66 0x62 (c.to_dst (vpunpckl_256 32 2 c.src c.vsrc))
      ∷ case_66 0x6C (
          Write.both (c.to_dst (vpunpckl_256 64 1 c.src c.vsrc))
            (c.to_dst (vpunpckh_256 8 8 c.src c.vsrc)))
      ∷ case_66 0x68 (c.to_dst (vpunpckh_256 8 8 c.src c.vsrc))
      ∷ case_66 0x69 (c.to_dst (vpunpckh_256 16 4 c.src c.vsrc))
      ∷ case_66 0x6A (c.to_dst (vpunpckh_256 32 2 c.src c.vsrc))
      ∷ case_66 0x6D (c.to_dst (vpunpckh_256 64 1 c.src c.vsrc))
      ∷ case_66 0x14 (c.to_dst (vpunpckl_256 64 1 c.src c.vsrc))
      ∷ case_66 0x15 (c.to_dst (vpunpckh_256 64 1 c.src c.vsrc))
      ∷ []

  unfoldable pub compare_ymm : List Case
  compare_ymm =
      case_66 0x5D (c.to_dst (vminpd 4 c.src c.vsrc))
      ∷ case_66 0x5F (c.to_dst (vmaxpd 4 c.src c.vsrc))
      ∷ case_66 0x64 (c.to_dst (vpcmpgt 8 32 c.src c.vsrc))
      ∷ case_66 0x65 (c.to_dst (vpcmpgt 16 16 c.src c.vsrc))
      ∷ case_66 0x66 (c.to_dst (vpcmpgt 32 8 c.src c.vsrc))
      ∷ case_66 0x74 (c.to_dst (vpcmpeq 8 32 c.src c.vsrc))
      ∷ case_66 0x75 (c.to_dst (vpcmpeq 16 16 c.src c.vsrc))
      ∷ case_66 0x76 (c.to_dst (vpcmpeq 32 8 c.src c.vsrc))
      ∷ case_0f 1 0xC2 true (c.to_dst (vcmppd 4 c.src c.vsrc c.imm))
      ∷ []
