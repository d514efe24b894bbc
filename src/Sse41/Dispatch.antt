-- ===== src/Sse41/Dispatch.antt =====
-- `vsse41_instruction` of vsse41.c.
use opemu_linux.Common.{ℕ, true, List, [], ◌∷◌, ◌++◌, bit_and, ◌>>>◌, ◌==◌, if◌then◌else◌}
use opemu_linux.Machine.{Regs, store_m64, store_xmm, store_ymm, ObjectFile}
use opemu_linux.Decode.Length.{mod_of}
use opemu_linux.Decode.Rex.{Insn}
use opemu_linux.Operand.{Frame, set_low, xmm_of, num_dst, num_src, get_vexregs}
use opemu_linux.Handler.{Handler, IsHandler}
use opemu_linux.Simd.{Write, Case, case_0f, case_66, case_38, case_3a, by_size, immediate}
use opemu_linux.Simd.Contract.{by_size-IsResult}
use opemu_linux.Fpins.{FloatOps}
use opemu_linux.Sse41.Integer.{
  vmovntdqa, vpmovsx, vpmovzx, vpackusdw_128, vpackusdw_256, vpcmpeqq, vpmaxs, vpmaxu, vpmins,
  vpminu, vpmuldq, vpmulld,
}
use opemu_linux.Sse41.Select.{
  vblend, vblendv, vpinsrb, vpinsrd, vpinsrq, vinsertps, vpextrb, vpextrw, vpextrd, vpextrq,
  vextractps,
}
use opemu_linux.Sse41.Floats.{vdpps_128, vdpps_256, vdppd, vroundps, vroundpd, vroundss, vroundsd}
use opemu_linux.Sse41.Other.{vphminposuw, vptest_128, vptest_256, vmpsadbw_128, vmpsadbw_256}

-- What the cases read: the operands, the register that bits 4 to 7 of the immediate name, and what
-- a local that is never set holds.
pub record Sources : Type 0 where
  pub src : ℕ
  pub vsrc : ℕ
  pub dst : ℕ
  pub immsrc : ℕ
  pub flags : ℕ
  pub regs : Regs
  pub unset : ℕ

-- `if (mod == 3)` the register, else the memory that `_load_maddr_from_xmm` does not write.
unfoldable pub to_rm64 : Insn → ℕ → Write
to_rm64 i v = if mod_of (i.modrm 0) == 3 then Write.to_m64 (num_src i) v else Write.to_memory v

module _ (fp : FloatOps) (i : Insn) (c : Sources) where
  -- The source of an insertion: with a general register in its low half if ModRM names one.
  unfoldable pub general : ℕ
  general =
      if mod_of (i.modrm 0) == 3 then set_low 64 c.src (store_m64 (num_src i) c.regs) else c.src

  unfoldable pub integer_xmm : List Case
  unfolding general
  integer_xmm =
      let write = λ (v : ℕ). Write.to_xmm (num_dst i) v in
      let src = c.src in
      let vsrc = c.vsrc in
      let imm = immediate i in
      case_38 0x2A (write (vmovntdqa src))
      ∷ case_38 0x20 (write (vpmovsx 8 16 8 src))
      ∷ case_3a 0x20 (write (vpinsrb general vsrc imm))
      ∷ case_38 0x21 (write (vpmovsx 8 32 4 src))
      ∷ case_3a 0x21 (write (vinsertps src vsrc imm))
      ∷ case_38 0x22 (write (vpmovsx 8 64 2 src))
      ∷ case_3a 0x22 (
          write
            (if i.operand_size == 32 then vpinsrd general vsrc imm else vpinsrq general vsrc imm))
      ∷ case_38 0x23 (write (vpmovsx 16 32 4 src))
      ∷ case_38 0x24 (write (vpmovsx 16 64 2 src))
      ∷ case_38 0x25 (write (vpmovsx 32 64 2 src))
      ∷ case_38 0x30 (write (vpmovzx 8 16 8 src))
      ∷ case_38 0x31 (write (vpmovzx 8 32 4 src))
      ∷ case_38 0x32 (write (vpmovzx 8 64 2 src))
      ∷ case_38 0x33 (write (vpmovzx 16 32 4 src))
      ∷ case_38 0x34 (write (vpmovzx 16 64 2 src))
      ∷ case_38 0x35 (write (vpmovzx 32 64 2 src))
      ∷ case_38 0x2B (write (vpackusdw_128 src vsrc))
      ∷ case_38 0x29 (write (vpcmpeqq 2 src vsrc))
      ∷ case_38 0x3C (write (vpmaxs 8 16 src vsrc))
      ∷ case_66 0xEE (write (vpmaxs 16 8 src vsrc))
      ∷ case_38 0x3D (write (vpmaxs 32 4 src vsrc))
      ∷ case_66 0xDE (write (vpmaxu 8 16 src vsrc))
      ∷ case_38 0x3E (write (vpmaxu 16 8 src vsrc))
      ∷ case_38 0x3F (write (vpmaxu 32 4 src vsrc))
      ∷ case_38 0x38 (write (vpmins 8 16 src vsrc))
      ∷ case_66 0xEA (write (vpmins 16 8 src vsrc))
      ∷ case_38 0x39 (write (vpmins 32 4 src vsrc))
      ∷ case_66 0xDA (write (vpminu 8 16 src vsrc))
      ∷ case_38 0x3A (write (vpminu 16 8 src vsrc))
      ∷ case_38 0x3B (write (vpminu 32 4 src vsrc))
      ∷ []

  unfoldable pub select_xmm : List Case
  select_xmm =
      let write = λ (v : ℕ). Write.to_xmm (num_dst i) v in
      let src = c.src in
      let vsrc = c.vsrc in
      let imm = immediate i in
      let mask = c.immsrc in
      case_38 0x28 (write (vpmuldq 2 src vsrc))
      ∷ case_38 0x40 (write (vpmulld 4 src vsrc))
      ∷ case_3a 0x40 (write (vdpps_128 fp src vsrc imm))
      ∷ case_3a 0x41 (write (vdppd fp src vsrc imm))
      ∷ case_38 0x41 (write (vphminposuw src))
      ∷ case_3a 0x08 (write (vroundps fp 4 src imm))
      ∷ case_3a 0x09 (write (vroundpd fp 2 src imm))
      ∷ case_3a 0x0A (write (vroundss fp src vsrc imm))
      ∷ case_3a 0x0B (write (vroundsd fp src vsrc imm))
      ∷ case_3a 0x0C (write (vblend 32 4 src vsrc imm))
      ∷ case_3a 0x0D (write (vblend 64 2 src vsrc imm))
      ∷ case_3a 0x0E (write (vblend 16 8 src vsrc imm))
      ∷ case_3a 0x4A (write (vblendv 32 4 src vsrc mask))
      ∷ case_3a 0x4B (write (vblendv 64 2 src vsrc mask))
      ∷ case_3a 0x4C (write (vblendv 8 16 src vsrc mask))
      ∷ []

  unfoldable pub extract_xmm : List Case
  unfolding to_rm64
  extract_xmm =
      let write = λ (v : ℕ). Write.to_xmm (num_dst i) v in
      let src = c.src in
      let vsrc = c.vsrc in
      let imm = immediate i in
      case_3a 0x14 (to_rm64 i (vpextrb c.dst imm))
      ∷ case_3a 0x15 (to_rm64 i (vpextrw c.dst imm))
      ∷ case_3a 0x16
          (to_rm64 i (if i.operand_size == 32 then vpextrd c.dst imm else vpextrq c.dst imm))
      ∷ case_0f 1 0xC5 true (Write.to_m64 (num_dst i) (vpextrw src imm))
      ∷ case_3a 0x17 (to_rm64 i (vextractps c.dst imm))
      ∷ case_38 0x17 (Write.to_flags (vptest_128 src c.dst c.flags))
      ∷ case_3a 0x42 (write (vmpsadbw_128 c.unset src vsrc imm))
      ∷ []

  unfoldable pub integer_ymm : List Case
  integer_ymm =
      let write = λ (v : ℕ). Write.to_ymm (num_dst i) v in
      let src = c.src in
      let vsrc = c.vsrc in
      case_38 0x2A (write (vmovntdqa src))
      ∷ case_38 0x20 (write (vpmovsx 8 16 16 src))
      ∷ case_38 0x21 (write (vpmovsx 8 32 8 src))
      ∷ case_38 0x22 (write (vpmovsx 8 64 4 src))
      ∷ case_38 0x23 (write (vpmovsx 16 32 8 src))
      ∷ case_38 0x24 (write (vpmovsx 16 64 4 src))
      ∷ case_38 0x25 (write (vpmovsx 32 64 4 src))
      ∷ case_38 0x30 (write (vpmovzx 8 16 16 src))
      ∷ case_38 0x31 (write (vpmovzx 8 32 8 src))
      ∷ case_38 0x32 (write (vpmovzx 8 64 4 src))
      ∷ case_38 0x33 (write (vpmovzx 16 32 8 src))
      ∷ case_38 0x34 (write (vpmovzx 16 64 4 src))
      ∷ case_38 0x35 (write (vpmovzx 32 64 4 src))
      ∷ case_38 0x2B (write (vpackusdw_256 src vsrc))
      ∷ case_38 0x29 (write (vpcmpeqq 4 src vsrc))
      ∷ case_38 0x3C (write (vpmaxs 8 32 src vsrc))
      ∷ case_66 0xEE (write (vpmaxs 16 16 src vsrc))
      ∷ case_38 0x3D (write (vpmaxs 32 8 src vsrc))
      ∷ case_66 0xDE (write (vpmaxu 8 32 src vsrc))
      ∷ case_38 0x3E (write (vpmaxu 16 16 src vsrc))
      ∷ case_38 0x3F (write (vpmaxu 32 8 src vsrc))
      ∷ case_38 0x38 (write (vpmins 8 32 src vsrc))
      ∷ case_66 0xEA (write (vpmins 16 16 src vsrc))
      ∷ case_38 0x39 (write (vpmins 32 8 src vsrc))
      ∷ case_66 0xDA (write (vpminu 8 32 src vsrc))
      ∷ case_38 0x3A (write (vpminu 16 16 src vsrc))
      ∷ case_38 0x3B (write (vpminu 32 8 src vsrc))
      ∷ []

  unfoldable pub select_ymm : List Case
  select_ymm =
      let write = λ (v : ℕ). Write.to_ymm (num_dst i) v in
      let src = c.src in
      let vsrc = c.vsrc in
      let imm = immediate i in
      let mask = c.immsrc in
      case_38 0x28 (write (vpmuldq 4 src vsrc))
      ∷ case_38 0x40 (write (vpmulld 8 src vsrc))
      ∷ case_3a 0x40 (write (vdpps_256 fp src vsrc imm))
      ∷ case_3a 0x08 (write (vroundps fp 8 src imm))
      ∷ case_3a 0x09 (write (vroundpd fp 4 src imm))
      ∷ case_3a 0x0C (write (vblend 32 8 src vsrc imm))
      ∷ case_3a 0x0D (write (vblend 64 4 src vsrc imm))
      ∷ case_3a 0x0E (write (vblend 16 16 src vsrc imm))
      ∷ case_3a 0x4A (write (vblendv 32 8 src vsrc mask))
      ∷ case_3a 0x4B (write (vblendv 64 4 src vsrc mask))
      ∷ case_3a 0x4C (write (vblendv 8 32 src vsrc mask))
      ∷ []

  unfoldable pub other_ymm : List Case
  other_ymm =
      let write = λ (v : ℕ). Write.to_ymm (num_dst i) v in
      let src = c.src in
      let vsrc = c.vsrc in
      let imm = immediate i in
      case_38 0x17 (Write.to_flags (vptest_256 src c.dst c.flags))
      ∷ case_3a 0x42 (write (vmpsadbw_256 c.unset src vsrc imm))
      ∷ []

  unfoldable pub vsse41_xmm : List Case
  unfolding integer_xmm select_xmm extract_xmm
  vsse41_xmm = integer_xmm ++ select_xmm ++ extract_xmm

  unfoldable pub vsse41_ymm : List Case
  unfolding integer_ymm select_ymm other_ymm
  vsse41_ymm = integer_ymm ++ select_ymm ++ other_ymm

-- `unset` is what the local `src1_byte` of vmpsadbw holds.
unfoldable pub vsse41_instruction : FloatOps → ℕ → Frame → Handler
unfolding by_size vsse41_xmm vsse41_ymm
vsse41_instruction fp unset fr cpu i =
    let ops = get_vexregs fr cpu i i.reg_size in
    let immreg = bit_and (immediate i >>> 4) 15 in
    by_size ObjectFile.vsse41 cpu i
      (vsse41_xmm fp i (record {
        src = xmm_of ops.src;
        vsrc = xmm_of ops.vsrc;
        dst = xmm_of ops.dst;
        immsrc = store_xmm immreg 0 cpu;
        flags = cpu.regs.flags;
        regs = cpu.regs;
        unset = unset;
      }))
      (vsse41_ymm fp i (record {
        src = ops.src;
        vsrc = ops.vsrc;
        dst = ops.dst;
        immsrc = store_ymm ObjectFile.vsse41 immreg 0 cpu;
        flags = cpu.regs.flags;
        regs = cpu.regs;
        unset = unset;
      }))

pub vsse41_instruction-IsHandler :
    (fp : FloatOps) (unset : ℕ) (fr : Frame) → IsHandler (vsse41_instruction fp unset fr)
unfolding vsse41_instruction
vsse41_instruction-IsHandler fp unset fr cpu i h = by_size-IsResult ObjectFile.vsse41 cpu i _ _ h
