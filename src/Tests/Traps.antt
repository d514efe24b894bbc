-- ===== src/Tests/Traps.antt =====
-- Whole traps on concrete inputs.
use opemu_linux.Common.{
  ℕ, ◌+◌, ◌-◌, ◌<◌, ◌≤◌, ◌≡◌, ◌⊎◌, refl, ap, ◌∙◌, fun_ext, arith, true, [], ◌∷◌, some, ◌==◌, ◌&&◌,
  if◌then◌else◌, trunc,
}
use opemu_linux.Machine.{Cpu, Bytes, is_saved_state64}
use opemu_linux.Decode.Length.{get_consumed}
use opemu_linux.Decode.Rex.{Insn}
use opemu_linux.Decode.Vex.{vex_decode}
use opemu_linux.Bmi.Laws.{takes_imm}
use opemu_linux.Fpins.{FloatOps}
use opemu_linux.Trap.{Emulator, bmi_handler, emulate, skip_bytes, opemu_utrap}
use opemu_linux.Trap.Laws.{code_at, verdict, opemu_utrap-runs_once, opemu_utrap-outcome}
use opemu_linux.Trap.Shadow.{opemu_utrap-shadows}
use opemu_linux.Trap.Lengths.{opemu_utrap-swallows, opemu_utrap-bmi}
use opemu_linux.Common.{get_or, ◌%◌, ◌^◌}
use opemu_linux.Operand.{num_src, num_dst, get_vexregs}
use opemu_linux.Decode.Length.{mod_of}
use opemu_linux.Decode.Rex.{Insn}
use opemu_linux.Trap.Reach.{Reachable, Reachable-get_vexregs}
use opemu_linux.Trap.Progress.{Handled, Advanced, Handled-Advanced}
use opemu_linux.Hook.Trap.{TrapArgs, fh_do_error_trap, fh_do_error_trap-passes_on}
use opemu_linux.Tests.{cpu_of, empty_frame, code_of}
use opemu_linux.Tests.Decoding.{andn_code, andn_insn, andn_decoded, registers}

-- Floating-point operations that are not used here.
abbrev pub no_floats : FloatOps
no_floats = record {
  add = λ x y. 0;
  sub = λ x y. 0;
  mul = λ x y. 0;
  div = λ x y. 0;
  mul_f32 = λ x y. 0;
  add_f32 = λ x y. 0;
  sub_f32 = λ x y. 0;
  div_f32 = λ x y. 0;
  neg_f64 = λ x. 0;
  neg_f32 = λ x. 0;
  rcp_sf = λ x. 0;
  rsqrt_sf = λ x. 0;
  double_of_int32 = λ x. 0;
  double_of_int64 = λ x. 0;
  float_of_int32 = λ x. 0;
  float_of_int64 = λ x. 0;
  int32_of_double = λ x. 0;
  int64_of_double = λ x. 0;
  int32_of_float = λ x. 0;
  float_of_double = λ x. 0;
  double_of_float = λ x. 0;
  mxcsr = 0;
  mxcsr_rc = 0;
  wide_shift = λ x. 0;
  shift_beyond = λ k x. 0;
}

abbrev emulator : Emulator
emulator = record {
  floats = no_floats;
  avx_frame = empty_frame;
  vgather_frame = empty_frame;
  fma_frame = empty_frame;
  vsse_frame = empty_frame;
  f16c_frame = empty_frame;
  vsse2_frame = empty_frame;
  vsse3_frame = empty_frame;
  vssse3_frame = empty_frame;
  vsse41_frame = empty_frame;
  vsse41_unset = 0;
  vsse42_frame = empty_frame;
  aes_frame = empty_frame;
  vaes_frame = empty_frame;
  vaes_wide_frame = empty_frame;
  bmi_frame = empty_frame;
  wide_shift = λ _. 0;
}

-- The user's memory, with code where the instruction pointer is.
abbrev memory_with : Bytes → ℕ → ℕ
memory_with code a = code (a - 0x400000)

abbrev cpu : Cpu
cpu = cpu_of registers []

abbrev memory : ℕ → ℕ
memory = memory_with andn_code

opemu_utrap-outcome_example :
    let r = opemu_utrap emulator memory cpu in
    ((r.1 ≡ 0) × (r.0 ≡ cpu))
    ⊎ ((r.1 ≡ 1)
        × (r.0.regs.cs ≡ cpu.regs.cs)
        × (n : ℕ) × (1 ≤ n)
        × (n < 256)
        × (r.0.regs.ip ≡ trunc 64 (cpu.regs.ip + n)))
opemu_utrap-outcome_example = opemu_utrap-outcome emulator memory cpu (omega arith)

opemu_utrap-runs_once_example :
    let e = emulate emulator (code_at memory cpu.regs) cpu in
    opemu_utrap emulator memory cpu ≡ (skip_bytes e.1 e.0, verdict e.1)
opemu_utrap-runs_once_example = opemu_utrap-runs_once emulator memory cpu

code_found : (code : Bytes) → code_at (memory_with code) cpu.regs ≡ code
unfolding is_saved_state64
code_found code = fun_ext λ d. ap code (omega arith)

andn_at : vex_decode (code_at memory cpu.regs) ≡ some andn_insn
andn_at = ap vex_decode (code_found andn_code) ∙ andn_decoded

-- The five bytes of `andn rax, rcx, rdx` are executed, and one of them is skipped.
opemu_utrap-bmi_example : opemu_utrap emulator memory cpu ≡ (
  skip_bytes
      (get_consumed andn_insn.modrm + (if takes_imm andn_insn then 1 else 0))
      (bmi_handler emulator cpu (record andn_insn { ins_size = 0 })).0,
  1,
)
opemu_utrap-bmi_example = opemu_utrap-bmi emulator cpu andn_insn refl memory andn_at

-- A machine that has emulated one instruction, and whose registers a program has set then.
abbrev later : Cpu
later = record {
  regs = registers;
  xmm = λ n. n % 2 ^ 128;
  mmx = λ n. 0;
  vymm = (opemu_utrap emulator memory (cpu_of registers [])).0.vymm;
}

later-Reachable : Reachable emulator later
later-Reachable =
    Reachable.ran registers (λ n. n % 2 ^ 128) (λ n. 0)
      (Reachable.trapped memory (Reachable.loaded registers (λ n. get_or [] n 0) (λ n. 0)))

-- The 256-bit form with the register operands 1, 2 and 0.
abbrev wide_insn : Insn
wide_insn = record andn_insn { reg_size = 256 }

wide_register : mod_of (wide_insn.modrm 0) ≡ 3
unfolding mod_of
wide_register = omega arith

wide_src : num_src wide_insn < 16
unfolding num_src
wide_src = omega arith

wide_dst : num_dst wide_insn < 16
unfolding num_dst
wide_dst = omega arith

Reachable-get_vexregs_example :
    let ops = get_vexregs empty_frame later wide_insn 256 in
    (ops.src ≡ later.xmm (num_src wide_insn))
    × (ops.vsrc ≡ later.xmm wide_insn.vexreg)
    × (ops.dst ≡ later.xmm (num_dst wide_insn))
Reachable-get_vexregs_example =
    Reachable-get_vexregs emulator later empty_frame wide_insn later-Reachable (λ n. omega arith)
      wide_register refl wide_src wide_dst (omega arith)

andn_handled : (opemu_utrap emulator memory cpu).1 ≡ 1
andn_handled =
    ap (λ (r : Cpu × ℕ). r.1) (opemu_utrap-bmi emulator cpu andn_insn refl memory andn_at)

Handled-Advanced_example : Advanced 1 cpu (opemu_utrap emulator memory cpu).0
Handled-Advanced_example =
    Handled-Advanced emulator memory 1 cpu (opemu_utrap emulator memory cpu).0 (omega arith)
      (Handled.trap andn_handled Handled.stay)

-- `vpand ymm0, ymm1, ymm2`
abbrev vpand_code : Bytes
vpand_code = code_of (0xC5 ∷ 0xF5 ∷ 0xDB ∷ 0xC2 ∷ [])

abbrev vpand_insn : Insn
vpand_insn = record {
  opcode = 0xDB;
  modrm = λ i. vpand_code (3 + i);
  bytep = λ i. vpand_code (3 + i);
  ins_size = 3;
  modbyte = 3;
  reg_size = 256;
  operand_size = 32;
  leading_opcode = 1;
  simd_prefix = 1;
  high_reg = 0;
  high_index = 0;
  high_base = 0;
  vexreg = 1;
}

vpand_decoded : vex_decode vpand_code ≡ some vpand_insn
unfolding vex_decode
vpand_decoded = refl

vpand_at : vex_decode (code_at (memory_with vpand_code) cpu.regs) ≡ some vpand_insn
vpand_at = ap vex_decode (code_found vpand_code) ∙ vpand_decoded

opemu_utrap-swallows_example :
    opemu_utrap emulator (memory_with vpand_code) cpu
    ≡ (skip_bytes (vpand_insn.ins_size + get_consumed vpand_insn.modrm) cpu, 1)
opemu_utrap-swallows_example =
    opemu_utrap-swallows emulator (memory_with vpand_code) cpu vpand_insn vpand_at refl refl

abbrev args : TrapArgs
args = record { error_code = 0; str = 0; trapnr = 6; signr = 4 }

fh_do_error_trap-passes_on_example :
    let e = opemu_utrap emulator memory cpu in
    fh_do_error_trap (λ r. true) (λ c a. c) emulator memory cpu args
    ≡ (if true && 6 == 6 && e.1 == 1 then e.0 else cpu)
fh_do_error_trap-passes_on_example =
    fh_do_error_trap-passes_on (λ r. true) (λ c a. c) emulator memory cpu args (omega arith)

-- `vaddps xmm0, xmm1, xmm2`
abbrev vaddps_code : Bytes
vaddps_code = code_of (0xC5 ∷ 0xF0 ∷ 0x58 ∷ 0xC2 ∷ [])

abbrev vaddps_insn : Insn
vaddps_insn = record {
  opcode = 0x58;
  modrm = λ i. vaddps_code (3 + i);
  bytep = λ i. vaddps_code (3 + i);
  ins_size = 3;
  modbyte = 3;
  reg_size = 128;
  operand_size = 32;
  leading_opcode = 1;
  simd_prefix = 0;
  high_reg = 0;
  high_index = 0;
  high_base = 0;
  vexreg = 1;
}

vaddps_decoded : vex_decode vaddps_code ≡ some vaddps_insn
unfolding vex_decode
vaddps_decoded = refl

-- VADDPS has an opcode of the AVX switch, so nothing is added, and one byte is skipped.
opemu_utrap-shadows_example :
    opemu_utrap emulator (memory_with vaddps_code) cpu
    ≡ (skip_bytes (get_consumed vaddps_insn.modrm) cpu, 1)
opemu_utrap-shadows_example =
    opemu_utrap-shadows emulator cpu vaddps_insn refl refl (memory_with vaddps_code)
      (ap vex_decode (code_found vaddps_code) ∙ vaddps_decoded)
