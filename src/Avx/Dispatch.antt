-- ===== src/Avx/Dispatch.antt =====
-- `avx_instruction` of avx.c.
use opemu_linux.Common.{ℕ, Bool, false, ◌&&◌, List, [], ◌∷◌, ◌++◌, ◌==◌, if◌then◌else◌}
use opemu_linux.Machine.{Regs, ObjectFile}
use opemu_linux.Decode.Length.{mod_of}
use opemu_linux.Decode.Rex.{Insn}
use opemu_linux.Operand.{Frame, xmm_of, num_src, get_vexregs}
use opemu_linux.Handler.{Handler, IsHandler}
use opemu_linux.Simd.{Write, Case, case_0f, case_38, case_3a, by_size}
use opemu_linux.Simd.Contract.{by_size-IsResult}
use opemu_linux.Fpins.{FloatOps}
use opemu_linux.Sse2.Cases.{Context}
use opemu_linux.Sse2.Dispatch.{context}
use opemu_linux.Avx.Moves.{
  vbroadcast, vextract128, vinsert128, vmaskmovps_load, vmaskmovps_store, vmaskmovpd_load,
  vmaskmovpd_store, vpmaskmovd_load, vpmaskmovd_store, vpmaskmovq_load, vpmaskmovq_store, vpblendd,
  vtest, vzeroupper, vzeroall,
}
use opemu_linux.Avx.Permute.{
  vpermilpd_a, vpermilpd_b, vpermilps_a, vpermilps_b, vperm2f128, vperm2i128, vpermd, vpermq,
}
use opemu_linux.Avx.Shift.{vpsllv, vpsrlv, vpsravd_128, vpsravd_256}

-- `if (operand_size == 32)` or `== 64` around a case: else it writes nothing and takes no immediate.
unfoldable pub when : Bool → Case → Case
when b c = record c { takes_imm = c.takes_imm && b; write = if b then c.write else Write.nothing }

abbrev w0 : Insn → Case → Case
w0 i c = when (i.operand_size == 32) c

abbrev w1 : Insn → Case → Case
w1 i c = when (i.operand_size == 64) c

-- A write for W0 and one for W1.
unfoldable pub by_operand : Insn → Write → Write → Write
by_operand i narrow wide =
    if i.operand_size == 32 then narrow else (if i.operand_size == 64 then wide else Write.nothing)

module _ (fp : FloatOps) (regs : Regs) (i : Insn) (c : Context) where
  unfoldable pub avx_permute_xmm : List Case
  unfolding when
  avx_permute_xmm =
      w0 i (case_3a 0x02 (c.to_dst (vpblendd 4 c.src c.vsrc c.imm)))
      ∷ w0 i (case_3a 0x04 (c.to_dst (vpermilps_b 4 c.src c.imm)))
      ∷ w0 i (case_3a 0x05 (c.to_dst (vpermilpd_b 2 c.src c.imm)))
      ∷ w0 i (case_38 0x0C (c.to_dst (vpermilps_a 4 c.src c.vsrc)))
      ∷ w0 i (case_38 0x0D (c.to_dst (vpermilpd_a 2 c.src c.vsrc)))
      ∷ w0 i (case_38 0x0E (Write.to_flags (vtest 4 regs.flags)))
      ∷ w0 i (case_38 0x0F (Write.to_flags (vtest 2 regs.flags)))
      ∷ []

  unfoldable pub avx_move_xmm : List Case
  unfolding when
  avx_move_xmm =
      w0 i (case_38 0x18 (c.to_dst (vbroadcast 32 4 c.src)))
      ∷ w0 i (case_38 0x2C (c.to_dst (vmaskmovps_load 4 c.src c.vsrc)))
      ∷ w0 i (case_38 0x2E (Write.to_memory (vmaskmovps_store 4 c.dst c.vsrc c.src)))
      ∷ w0 i (case_38 0x2D (c.to_dst (vmaskmovpd_load 2 c.src c.vsrc)))
      ∷ w0 i (case_38 0x2F (Write.to_memory (vmaskmovpd_store 2 c.dst c.vsrc c.src)))
      ∷ []

  unfoldable pub avx_shift_xmm : List Case
  unfolding when by_operand
  avx_shift_xmm =
      case_38 0x45 (
        by_operand i (c.to_dst (vpsrlv fp.shift_beyond 32 4 c.src c.vsrc))
          (c.to_dst (vpsrlv fp.shift_beyond 64 2 c.src c.vsrc)))
      ∷ w0 i (case_38 0x46 (c.to_dst (vpsravd_128 fp.shift_beyond c.src c.vsrc)))
      ∷ case_38 0x47 (
          by_operand i (c.to_dst (vpsllv fp.shift_beyond 32 4 c.src c.vsrc))
            (c.to_dst (vpsllv fp.shift_beyond 64 2 c.src c.vsrc)))
      ∷ []

  unfoldable pub avx_broadcast_xmm : List Case
  unfolding when by_operand
  avx_broadcast_xmm =
      w0 i (case_38 0x78 (c.to_dst (vbroadcast 8 16 c.src)))
      ∷ w0 i (case_38 0x79 (c.to_dst (vbroadcast 16 8 c.src)))
      ∷ w0 i (case_38 0x58 (c.to_dst (vbroadcast 32 4 c.src)))
      ∷ w0 i (case_38 0x59 (c.to_dst (vbroadcast 64 2 c.src)))
      ∷ case_0f 0 0x77 false (vzeroupper regs)
      ∷ case_38 0x8C (
          by_operand i (c.to_dst (vpmaskmovd_load 4 c.src c.vsrc))
            (c.to_dst (vpmaskmovq_load 2 c.src c.vsrc)))
      ∷ case_38 0x8E (
          by_operand i (Write.to_memory (vpmaskmovd_store 4 c.dst c.vsrc c.src))
            (Write.to_memory (vpmaskmovq_store 2 c.dst c.vsrc c.src)))
      ∷ []

  unfoldable pub avx_xmm : List Case
  unfolding avx_permute_xmm avx_move_xmm avx_shift_xmm avx_broadcast_xmm
  avx_xmm = avx_permute_xmm ++ avx_move_xmm ++ avx_shift_xmm ++ avx_broadcast_xmm

-- `half` is the source operand read with `rm_size` 128, and `tmp` what the local of vperm2f128 holds.
module _ (fp : FloatOps) (regs : Regs) (i : Insn) (c : Context) (half tmp : ℕ) where
  unfoldable pub avx_permute_ymm : List Case
  unfolding when
  avx_permute_ymm =
      w1 i (case_3a 0x00 (c.to_dst (vpermq c.src c.imm)))
      ∷ w1 i (case_3a 0x01 (c.to_dst (vpermq c.src c.imm)))
      ∷ w0 i (case_3a 0x02 (c.to_dst (vpblendd 8 c.src c.vsrc c.imm)))
      ∷ w0 i (case_3a 0x04 (c.to_dst (vpermilps_b 8 c.src c.imm)))
      ∷ w0 i (case_3a 0x05 (c.to_dst (vpermilpd_b 4 c.src c.imm)))
      ∷ w0 i (case_3a 0x06 (c.to_dst (vperm2f128 c.src c.vsrc c.imm tmp)))
      ∷ []

  unfoldable pub avx_test_ymm : List Case
  unfolding when
  avx_test_ymm =
      w0 i (case_38 0x0C (c.to_dst (vpermilps_a 8 c.src c.vsrc)))
      ∷ w0 i (case_38 0x0D (c.to_dst (vpermilpd_a 4 c.src c.vsrc)))
      ∷ w0 i (case_38 0x0E (Write.to_flags (vtest 8 regs.flags)))
      ∷ w0 i (case_38 0x0F (Write.to_flags (vtest 4 regs.flags)))
      ∷ w0 i (case_38 0x16 (c.to_dst (vpermd c.src c.vsrc)))
      ∷ []

  unfoldable pub avx_halves_ymm : List Case
  unfolding when
  avx_halves_ymm =
      w0 i (case_38 0x18 (c.to_dst (vbroadcast 32 8 half)))
      ∷ w0 i (case_3a 0x18 (c.to_dst (vinsert128 half c.vsrc c.imm)))
      ∷ w0 i (case_38 0x19 (c.to_dst (vbroadcast 64 4 half)))
      ∷ w0 i (
          case_3a 0x19 (
            if mod_of (i.modrm 0) == 3
            then Write.to_xmm (num_src i) (vextract128 c.dst c.imm)
            else Write.to_memory (vextract128 c.dst c.imm)))
      ∷ w0 i (case_38 0x1A (c.to_dst (vbroadcast 128 2 half)))
      ∷ []

  unfoldable pub avx_move_ymm : List Case
  unfolding when
  avx_move_ymm =
      w0 i (case_38 0x2C (c.to_dst (vmaskmovps_load 8 c.src c.vsrc)))
      ∷ w0 i (case_38 0x2E (Write.to_memory (vmaskmovps_store 8 c.dst c.vsrc c.src)))
      ∷ w0 i (case_38 0x2D (c.to_dst (vmaskmovpd_load 4 c.src c.vsrc)))
      ∷ w0 i (case_38 0x2F (Write.to_memory (vmaskmovpd_store 4 c.dst c.vsrc c.src)))
      ∷ w0 i (case_38 0x36 (c.to_dst (vpermd c.src c.vsrc)))
      ∷ w0 i (case_3a 0x38 (c.to_dst (vinsert128 half c.vsrc c.imm)))
      ∷ w0 i (
          case_3a 0x39 (
            if mod_of (i.modrm 0) == 3
            then Write.to_xmm (num_src i) (vextract128 c.dst c.imm)
            else Write.to_memory (vextract128 c.dst c.imm)))
      ∷ []

  unfoldable pub avx_shift_ymm : List Case
  unfolding when by_operand
  avx_shift_ymm =
      case_38 0x45 (
        by_operand i (c.to_dst (vpsrlv fp.shift_beyond 32 8 c.src c.vsrc))
          (c.to_dst (vpsrlv fp.shift_beyond 64 4 c.src c.vsrc)))
      ∷ w0 i (case_38 0x46 (c.to_dst (vpsravd_256 fp.shift_beyond c.src c.vsrc)))
      ∷ w0 i (case_3a 0x46 (c.to_dst (vperm2i128 c.src c.vsrc c.imm c.res)))
      ∷ case_38 0x47 (
          by_operand i (c.to_dst (vpsllv fp.shift_beyond 32 8 c.src c.vsrc))
            (c.to_dst (vpsllv fp.shift_beyond 64 4 c.src c.vsrc)))
      ∷ case_0f 0 0x77 false (vzeroall regs)
      ∷ []

  unfoldable pub avx_broadcast_ymm : List Case
  unfolding when by_operand
  avx_broadcast_ymm =
      w0 i (case_38 0x78 (c.to_dst (vbroadcast 8 32 half)))
      ∷ w0 i (case_38 0x79 (c.to_dst (vbroadcast 16 16 half)))
      ∷ w0 i (case_38 0x58 (c.to_dst (vbroadcast 32 8 half)))
      ∷ w0 i (case_38 0x59 (c.to_dst (vbroadcast 64 4 half)))
      ∷ w0 i (case_38 0x5A (c.to_dst (vbroadcast 128 2 half)))
      ∷ case_38 0x8C (
          by_operand i (c.to_dst (vpmaskmovd_load 8 c.src c.vsrc))
            (c.to_dst (vpmaskmovq_load 4 c.src c.vsrc)))
      ∷ case_38 0x8E (
          by_operand i (Write.to_memory (vpmaskmovd_store 8 c.dst c.vsrc c.src))
            (Write.to_memory (vpmaskmovq_store 4 c.dst c.vsrc c.src)))
      ∷ []

  unfoldable pub avx_ymm : List Case
  unfolding avx_permute_ymm avx_test_ymm avx_halves_ymm avx_move_ymm avx_shift_ymm avx_broadcast_ymm
  avx_ymm =
      avx_permute_ymm ++ avx_test_ymm ++ avx_halves_ymm ++ avx_move_ymm ++ avx_shift_ymm
      ++ avx_broadcast_ymm

unfoldable pub avx_instruction : FloatOps → Frame → Handler
unfolding by_size context avx_xmm avx_ymm
avx_instruction fp fr cpu i =
    let ops = get_vexregs fr cpu i i.reg_size in
    let half = (get_vexregs fr cpu i 128).src in
    by_size ObjectFile.avx cpu i
      (avx_xmm fp cpu.regs i
        (context Write.to_xmm fr i (xmm_of ops.src) (xmm_of ops.vsrc) (xmm_of ops.dst)))
      (avx_ymm fp cpu.regs i (context Write.to_ymm fr i ops.src ops.vsrc ops.dst) (xmm_of half)
        fr.dres)

pub avx_instruction-IsHandler : (fp : FloatOps) (fr : Frame) → IsHandler (avx_instruction fp fr)
unfolding avx_instruction
avx_instruction-IsHandler fp fr cpu i h = by_size-IsResult ObjectFile.avx cpu i _ _ h
