-- ===== src/Sse/Laws.antt =====
-- The cases of `vsse_instruction` that fall through.
use opemu_linux.Common.{
  ℕ, ◌+◌, ◌%◌, ◌^◌, ◌<◌, trunc, ◌≡◌, ◌∙◌, refl, ap, ap₂, fun_ext, arith, true, false, ltb,
  if◌then◌else◌, Bool,
}
use opemu_linux.Machine.{Cpu, update, load_xmm}
use opemu_linux.Decode.Rex.{Insn}
use opemu_linux.Common.Lanes.{
  lane, pack, tabulate, lane_ext, lane-tabulate, lane-lt, pack-tabulate-lt,
}
use opemu_linux.Simd.Loops.{lanes_of}
use opemu_linux.Operand.{
  Frame, xmm_of, num_dst, num_src, get_vexregs, vector_address, address64, address32,
}
use opemu_linux.Simd.{immediate, run_switch}
use opemu_linux.Fpins.{FloatOps}
use native.Mathlib.Nat.{mod-mod, mod-eq_of_lt}
use opemu_linux.Decode.Length.{get_consumed}
use opemu_linux.Sse.Moves.{vmovups}
use opemu_linux.Sse.Dispatch.{vsse_instruction}

-- Of two writes of a register the later one counts.
load_xmm-load_xmm : (n u v : ℕ) (cpu : Cpu) → load_xmm n v (load_xmm n u cpu) ≡ load_xmm n v cpu
unfolding load_xmm
load_xmm-load_xmm n u v cpu = by_range (ltb n 16)
  where
    same : (m : ℕ) → update (update cpu.xmm n u) n v m ≡ update cpu.xmm n v m
    same m = ground arith

    by_range :
        (b : Bool)
        → (let cpu' : Cpu = if b then record cpu { xmm = update cpu.xmm n u } else cpu in
            if b then record cpu' { xmm = update cpu'.xmm n v } else cpu')
          ≡ (if b then record cpu { xmm = update cpu.xmm n v } else cpu)
    by_range true = ap (λ (f : ℕ → ℕ). record cpu { xmm = f }) (fun_ext same)
    by_range false = refl

load_xmm-last_of_three :
    (n u1 u2 v : ℕ) (cpu : Cpu)
    → load_xmm n v (load_xmm n u2 (load_xmm n u1 cpu)) ≡ load_xmm n v cpu
load_xmm-last_of_three n u1 u2 v cpu =
    load_xmm-load_xmm n u2 v (load_xmm n u1 cpu) ∙ load_xmm-load_xmm n u1 v cpu

-- An instruction of 128 bits behind 0F without a prefix.
abbrev pub form : ℕ → Insn → Insn
form opcode i = record i { opcode = opcode; simd_prefix = 0; leading_opcode = 1; reg_size = 128 }

-- Which of the five opcodes it is makes no difference.
same_as_aligned :
    (fp : FloatOps) (fr : Frame) (cpu : Cpu) (i : Insn)
    → let aligned = vsse_instruction fp fr cpu (form 0x28 i) in
      (vsse_instruction fp fr cpu (form 0x12 i) ≡ aligned)
      × (vsse_instruction fp fr cpu (form 0x13 i) ≡ aligned)
      × (vsse_instruction fp fr cpu (form 0x16 i) ≡ aligned)
      × (vsse_instruction fp fr cpu (form 0x17 i) ≡ aligned)
unfolding vsse_instruction num_dst num_src get_vexregs vector_address address64 address32 immediate
    run_switch
same_as_aligned fp fr cpu i =
    let size = (vsse_instruction fp fr cpu (form 0x28 i)).1 in
    (
      ap (λ (c : Cpu). (c, size)) (load_xmm-last_of_three _ _ _ _ cpu),
      ap (λ (c : Cpu). (c, size)) (load_xmm-load_xmm _ _ _ cpu),
      ap (λ (c : Cpu). (c, size)) (load_xmm-load_xmm _ _ _ cpu),
      refl,
    )

-- The source operand, copied to the destination register.
abbrev pub copied : Frame → Cpu → Insn → Cpu × ℕ
copied fr cpu i = (
  load_xmm (num_dst i) ((get_vexregs fr cpu (form 0x28 i) 128).src % 2 ^ 128) cpu,
  trunc 8 (trunc 8 (i.ins_size + get_consumed i.modrm)),
)

vmovups-eq : (x : ℕ) → x < 2 ^ 128 → vmovups 4 x ≡ x
unfolding vmovups lanes_of
vmovups-eq x h =
    lane_ext 32 4 (pack 32 (tabulate 4 (λ j. lane 32 j x))) x
      (pack-tabulate-lt 32 4 (λ j. lane 32 j x)) h
      λ j p. lane-tabulate 32 4 j (λ k. lane 32 k x) p ∙ mod-eq_of_lt (lane-lt 32 j x)

aligned_copies :
    (fp : FloatOps) (fr : Frame) (cpu : Cpu) (i : Insn)
    → vsse_instruction fp fr cpu (form 0x28 i) ≡ copied fr cpu i
unfolding vsse_instruction num_dst run_switch
aligned_copies fp fr cpu i =
    let src = (get_vexregs fr cpu (form 0x28 i) 128).src in
    let whole : vmovups 4 (xmm_of src) ≡ xmm_of src = vmovups-eq (src % 2 ^ 128) (omega arith) in
    ap₂ (λ (x y : ℕ). (load_xmm (num_dst i) x cpu, trunc 8 y))
      (ap (λ (x : ℕ). x % 2 ^ 128) whole ∙ mod-mod src (2 ^ 128)) (omega arith)

-- VMOVLPS, VMOVHPS, VMOVHLPS and VMOVLHPS (12 and 16) and the stores of VMOVLPS and VMOVHPS (13 and
-- 17) do what VMOVAPS (28) does: all 128 bits of the source operand, the one of the rm field, are
-- written to the destination register, nothing else changes, and the size is that of a handled case.
pub vsse_instruction-falls_through :
    (fp : FloatOps) (fr : Frame) (cpu : Cpu) (i : Insn)
    → (vsse_instruction fp fr cpu (form 0x28 i) ≡ copied fr cpu i)
      × (vsse_instruction fp fr cpu (form 0x12 i) ≡ copied fr cpu i)
      × (vsse_instruction fp fr cpu (form 0x13 i) ≡ copied fr cpu i)
      × (vsse_instruction fp fr cpu (form 0x16 i) ≡ copied fr cpu i)
      × (vsse_instruction fp fr cpu (form 0x17 i) ≡ copied fr cpu i)
vsse_instruction-falls_through fp fr cpu i =
    let copies = aligned_copies fp fr cpu i in
    let same = same_as_aligned fp fr cpu i in
    (copies, same.0 ∙ copies, same.1 ∙ copies, same.2 ∙ copies, same.3 ∙ copies)
